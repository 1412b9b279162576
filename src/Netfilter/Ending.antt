-- ===== src/Netfilter/Ending.antt =====
-- Netfilter/Basics/simple_hook.c: how main ends.
use Prim.Native.Nat.{zero, suc}
use pwd_writeup.Base.{
  ℕ, ◌+◌, ◌⊎◌, inl, inr, ℤ, pos, negsuc, List, [], ◌∷◌, ◌≡◌, refl, subst, sym, ap, ◌∙◌, Bool, true,
  false, All, length, is_neg, if◌then◌else◌, arith,
}
use pwd_writeup.Netfilter.{
  Packet, event, nfq_open, nfq_bind_pf, nfq_create_queue, nfq_set_mode, History, Env, Outcome, next,
  back, M, continue, ◌>>=◌, pure, recv, nfq_close, nfq_handle_packet, deliver, print_packet,
  nfq_set_verdict, id_of, nf_accept, callback, handle, turn, receive, open_queue, close_queue, main,
}

-- What recv answered, newest first, and how often the handle was closed.
unfoldable pub received : History → List ℤ
received [] = []
received (event recv rv ∷ h) = rv ∷ received h
received (event c a ∷ h) = received h

unfoldable pub closings : History → ℕ
closings [] = 0
closings (event nfq_close ret ∷ h) = 1 + closings h
closings (event c a ∷ h) = closings h

-- How many of the four steps that can fail did what they were asked to, and how many did not.
unfoldable pub steps : History → ℕ
steps [] = 0
steps (event nfq_open true ∷ h) = 1 + steps h
steps (event nfq_bind_pf ret ∷ h) = (if is_neg ret then 0 else 1) + steps h
steps (event nfq_create_queue true ∷ h) = 1 + steps h
steps (event nfq_set_mode ret ∷ h) = (if is_neg ret then 0 else 1) + steps h
steps (event c a ∷ h) = steps h

unfoldable pub failures : History → ℕ
failures [] = 0
failures (event nfq_open false ∷ h) = 1 + failures h
failures (event nfq_bind_pf ret ∷ h) = (if is_neg ret then 1 else 0) + failures h
failures (event nfq_create_queue false ∷ h) = 1 + failures h
failures (event nfq_set_mode ret ∷ h) = (if is_neg ret then 1 else 0) + failures h
failures (event c a ∷ h) = failures h

-- What the handling of messages leaves as it is.
abbrev tally : History → ℕ × ℕ × ℕ
tally h = (closings h, steps h, failures h)

abbrev pub is_positive : ℤ → Bool
is_positive (pos zero) = false
is_positive (pos (suc n)) = true
is_positive (negsuc n) = false

abbrev pub ArePositive : List ℤ → Type 0
ArePositive rvs = All (λ rv. is_positive rv ≡ true) rvs

-- The last answer of recv ends the loop, and none before it does.
abbrev pub IsEnded : List ℤ → Type 0
IsEnded [] = ⊥
IsEnded (rv ∷ rvs) = (is_positive rv ≡ false) × ArePositive rvs

module _ (env : Env) where
  -- The handling of a message goes on, and neither receives nor closes.
  abbrev Same : History → Outcome (Unit {0}) → Type 0
  Same h (next u h') = (received h' ≡ received h) × (tally h' ≡ tally h)
  Same h (back r h') = ⊥

  handle-Same : (ps : List Packet) (h : History) → Same h (handle env ps h)
  unfolding handle callback received closings steps failures
  handle-Same [] h = (refl, refl)
  handle-Same (p ∷ ps) h = either (env.goes_on ret) (handle-Same ps h₃)
    where
      h₁ : History
      h₁ = event (deliver p) (env.answer h (deliver p)) ∷ h

      h₂ : History
      h₂ =
          event (print_packet (id_of env p) p.payload_len)
            (env.answer h₁ (print_packet (id_of env p) p.payload_len))
          ∷ h₁

      ret : ℤ
      ret = env.answer h₂ (nfq_set_verdict (id_of env p) nf_accept)

      h₃ : History
      h₃ = event (nfq_set_verdict (id_of env p) nf_accept) ret ∷ h₂

      either :
          (b : Bool)
          → Same h₃ (handle env ps h₃)
          → Same h ((if b then handle env ps else pure tt) h₃)
      either true s = s
      either false s = (refl, refl)

  -- The loop after some turns, at its end or not.
  abbrev Loops : History → ℕ → Outcome Bool → Type 0
  Loops h n (next true h') = IsEnded (received h') × (tally h' ≡ tally h)
  Loops h n (next false h') =
      ArePositive (received h')
      × (length (received h') ≡ length (received h) + n)
      × (tally h' ≡ tally h)
  Loops h n (back r h') = ⊥

  -- A turn more.
  earlier :
      (h h₁ : History) (n : ℕ) (o : Outcome Bool)
      → length (received h₁) ≡ length (received h) + 1
      → tally h₁ ≡ tally h
      → Loops h₁ n o
      → Loops h (suc n) o
  earlier h h₁ n (next true h') l c (ended, same) = (ended, same ∙ c)
  earlier h h₁ n (next false h') l c (positive, many, same) =
      (positive, omega (arith, l, many), same ∙ c)
  earlier h h₁ n (back r h') l c x = x

  after_handle :
      (h : History) (n : ℕ) (o : Outcome (Unit {0})) (more : M Bool)
      → Same h o
      → ((h₁ : History) → received h₁ ≡ received h → Loops h₁ n (more h₁))
      → Loops h n (continue o (λ _. more))
  after_handle h n (next u h₁) more (same, same_closings) k = moved (more h₁) (k h₁ same)
    where
      moved : (o : Outcome Bool) → Loops h₁ n o → Loops h n o
      moved (next true h') (ended, c) = (ended, c ∙ same_closings)
      moved (next false h') (positive, many, c) =
          (positive, many ∙ ap (λ rvs. length rvs + n) same, c ∙ same_closings)
      moved (back r h') x = x
  after_handle h n (back r h₁) more x k = x

  receive-Loops : (n : ℕ) (h : History) → ArePositive (received h) → Loops h n (receive env n h)
  unfolding receive turn received closings steps failures
  receive-Loops zero h p = (p, omega arith, refl)
  receive-Loops (suc n) h p = one (env.answer h recv) (λ h₁ p₁. receive-Loops n h₁ p₁)
    where
      one :
          (rv : ℤ)
          → ((h₁ : History) → ArePositive (received h₁) → Loops h₁ n (receive env n h₁))
          → Loops h (suc n) (turn env rv (receive env n) (event recv rv ∷ h))
      one (pos zero) k = ((refl, p), refl)
      one (pos (suc m)) k =
          let h₁ = event recv (pos (suc m)) ∷ h in
          let packets = env.answer h₁ (nfq_handle_packet (suc m)) in
          let h₂ : History = event (nfq_handle_packet (suc m)) packets ∷ h₁ in
          earlier h h₂ n _ (omega arith) refl (
            after_handle h₂ n (handle env packets h₂) (receive env n) (handle-Same packets h₂)
              (λ h₃ same. k h₃ (subst ArePositive (sym same) (refl, p))))
      one (negsuc m) k = ((refl, p), refl)

  abbrev Opens : Outcome (Unit {0}) → Type 0
  Opens (next u h) = (received h ≡ []) × (tally h ≡ (0, 4, 0))
  Opens (back r h) = (r ≡ negsuc 0) × (received h ≡ []) × (closings h ≡ 0) × (failures h ≡ 1)

  open_queue-Opens : Opens (open_queue env [])
  unfolding open_queue received closings steps failures
  open_queue-Opens = ground arith

  -- main returned an error, that of the one step that failed, before the first message and without
  -- closing the handle; or it returned 0, when recv had ended the loop, and the handle was closed
  -- once; or it is in its `n`-th turn. In the last two all four steps worked.
  abbrev pub Concludes : ℕ → Outcome (Unit {0}) → Type 0
  Concludes n (back r h) =
      ((r ≡ negsuc 0) × (received h ≡ []) × (closings h ≡ 0) × (failures h ≡ 1))
      ⊎ ((r ≡ pos 0) × IsEnded (received h) × ((closings h ≡ 1) × (steps h ≡ 4) × (failures h ≡ 0)))
  Concludes n (next u h) =
      ArePositive (received h)
      × (length (received h) ≡ n)
      × ((closings h ≡ 0) × (steps h ≡ 4) × (failures h ≡ 0))

  -- From its start main ends in one of three ways: one of the four steps of the setup that are tested
  -- (open, bind, create the queue, set the mode) failed, and main returned -1, before any message was
  -- received and without closing the handle; or all four worked, and recv answered 0 or less, for the first
  -- time, and main closed the handle once and returned 0; or all four
  -- worked, `n` messages were received, none of them empty, the handle is open and the loop goes on.
  pub main-Concludes : (n : ℕ) → Concludes n (main env n [])
  unfolding main close_queue received closings steps failures
  main-Concludes n = opened (open_queue env []) open_queue-Opens
    where
      closed :
          (h : History) (o : Outcome Bool)
          → received h ≡ []
          → tally h ≡ (0, 4, 0)
          → Loops h n o
          → Concludes n (continue o (λ ended. if ended then close_queue env else pure tt))
      closed h (next true h₁) e c (ended, same) = inr (
        refl,
        ended,
        (ap (λ t. 1 + t.0) (same ∙ c), ap (λ t. t.1) (same ∙ c), ap (λ t. t.2) (same ∙ c)),
      )
      closed h (next false h₁) e c (positive, many, same) = (
        positive,
        omega (arith, many, ap length e),
        (ap (λ t. t.0) (same ∙ c), ap (λ t. t.1) (same ∙ c), ap (λ t. t.2) (same ∙ c)),
      )
      closed h (back r h₁) e c x = absurd x

      opened :
          (o : Outcome (Unit {0}))
          → Opens o
          → Concludes n (
              continue o
                (λ _. receive env n >>= λ ended. if ended then close_queue env else pure tt))
      opened (next u h) (e, c) =
          closed h (receive env n h) e c (receive-Loops n h (subst ArePositive (sym e) tt))
      opened (back r h) x = inl x
