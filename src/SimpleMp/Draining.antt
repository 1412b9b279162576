-- ===== src/SimpleMp/Draining.antt =====
-- Dpdk-lab/multi_process/simple_mp/main.c: lcore_recv works its ring off.
use Prim.Native.Nat.{zero, suc}
use mathlib.Core.List.{append_assoc, append-nil}
use pwd_writeup.Base.{
  ℕ, ◌≤◌, List, [], ◌∷◌, ◌++◌, ◌≡◌, refl, sym, ap, ◌∙◌, true, false, length, if◌then◌else◌, Option,
  none, some, arith,
}
use pwd_writeup.Dpdk.{
  Env, event, History, RingName, pri_2_sec, sec_2_pri, system, message, force_quit, mempool_put,
  print, ring_dequeue,
}
use pwd_writeup.Dpdk.Monad.{M, next, call, pure, ◌>>=◌, ◌>>◌, >>=-run}
use pwd_writeup.SimpleMp.{received, lcore_recv}
use pwd_writeup.SimpleMp.Channel.{same, rest}

-- The buffers that are left of those that were in the ring.
abbrev pub left_in : RingName → List ℕ → History → List ℕ
left_in r bs [] = bs
left_in r bs (event (message (ring_dequeue q)) (some b) ∷ h) =
    if same r q then rest (left_in r bs h) else left_in r bs h
left_in r bs (event c a ∷ h) = left_in r bs h

abbrev pub oldest : List ℕ → Option ℕ
oldest [] = none
oldest (b ∷ bs) = some b

-- The buffers that were shown, and those that were given back to the pool, in order.
abbrev pub shown : History → List ℕ
shown [] = []
shown (event (message (print b)) text ∷ h) = shown h ++ b ∷ []
shown (event c a ∷ h) = shown h

abbrev pub put_back : History → List ℕ
put_back [] = []
put_back (event (message (mempool_put b)) u ∷ h) = put_back h ++ b ∷ []
put_back (event c a ∷ h) = put_back h

-- The next one, of those that are left.
abbrev one : List ℕ → List ℕ
one [] = []
one (b ∷ bs) = b ∷ []

then_rest : (before : List ℕ) (bs : List ℕ) → (before ++ one bs) ++ rest bs ≡ before ++ bs
then_rest before [] = append-nil (before ++ [])
then_rest before (b ∷ bs) = append_assoc before (b ∷ []) bs

length-rest : (xs : List ℕ) (n : ℕ) → length xs ≤ suc n → length (rest xs) ≤ n
length-rest [] n e = omega arith
length-rest (x ∷ xs) n e = omega (arith, e)

same_self : (q : RingName) → same q q ≡ true
same_self pri_2_sec = refl
same_self sec_2_pri = refl

module _ (env : Env) (r : RingName) (bs : List ℕ) where
  -- One turn, by the answer of the ring.
  turn_lem :
      (got : Option ℕ) (left : List ℕ) (h : History)
      → left_in r bs h ≡ left
      → got ≡ oldest left
      → (h' : History) × (received env got (event (message (ring_dequeue r)) got ∷ h) ≡ next tt h')
        × (left_in r bs h' ≡ rest left)
        × (shown h' ≡ shown h ++ one left)
        × (put_back h' ≡ put_back h ++ one left)
  unfolding received
  turn_lem none [] h e g = (_, refl, e, sym (append-nil (shown h)), sym (append-nil (put_back h)))
  turn_lem none (b ∷ left) h e g = absurd (ground (arith, g))
  turn_lem (some b) [] h e g = absurd (ground (arith, g))
  turn_lem (some b) (x ∷ left) h e g = (
    _,
    refl,
    rw (same_self r, e) refl,
    ap (λ y. shown h ++ y ∷ []) b_is_x,
    ap (λ y. put_back h ++ y ∷ []) b_is_x,
  )
    where
      b_is_x : b ≡ x
      b_is_x = ground (arith, g)

  -- If the process is not asked to end, and the ring gives out what it holds, oldest first, then in at
  -- least as many turns as it holds messages lcore_recv comes to its end with the ring empty: each
  -- message was shown and its buffer given back to the pool, in the order of the ring.
  pub lcore_recv_drains :
      (n : ℕ) (h : History)
      → ((k : History) → env.answer k (system force_quit) ≡ false)
      → ((k : History) → env.answer k (message (ring_dequeue r)) ≡ oldest (left_in r bs k))
      → length (left_in r bs h) ≤ n
      → (h' : History) × (lcore_recv env r n h ≡ next tt h')
        × (left_in r bs h' ≡ [])
        × (shown h' ≡ shown h ++ left_in r bs h)
        × (put_back h' ≡ put_back h ++ left_in r bs h)
  unfolding lcore_recv
  lcore_recv_drains zero h asked fifo few = (
    h,
    refl,
    none_left,
    rw none_left (sym (append-nil (shown h))),
    rw none_left (sym (append-nil (put_back h))),
  )
    where
      none_left : left_in r bs h ≡ []
      none_left = ground (arith, few)
  lcore_recv_drains (suc n) h asked fifo few =
      let (h₂, run₂, left₂, shown₂, back₂) = turn_lem got (left_in r bs h) h₁ refl (fifo h₁) in
      let (h₃, run₃, left₃, shown₃, back₃) =
        lcore_recv_drains n h₂ asked fifo (rw left₂ (length-rest (left_in r bs h) n few)) in
      (
        h₃,
        ap (λ b. (if b then pure tt else turn) h₁) (asked h)
            ∙ >>=-run (received env got) (λ _. lcore_recv env r n)
                (event (message (ring_dequeue r)) got ∷ h₁) h₂ tt (next tt h₃) run₂ run₃,
        left₃,
        shown₃ ∙ rw (shown₂, left₂) (then_rest (shown h) (left_in r bs h)),
        back₃ ∙ rw (back₂, left₂) (then_rest (put_back h) (left_in r bs h)),
      )
    where
      h₁ : History
      h₁ = event (system force_quit) (env.answer h (system force_quit)) ∷ h

      got : Option ℕ
      got = env.answer h₁ (message (ring_dequeue r))

      turn : M (Unit {0})
      turn = do got ← call env (message (ring_dequeue r)); received env got; lcore_recv env r n
