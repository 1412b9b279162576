-- ===== src/L2fwdMulti/Sender/Balance.antt =====
-- No frame is lost on the way out.
use pwd_writeup.Base.{
  ℕ, zero, suc, ◌+◌, ◌≤◌, ◌<◌, List, [], ◌∷◌, ◌≡◌, refl, ap, ◌∙◌, true, ltb, ◌==◌, Bool-cases, inl,
  inr, length, arith, range, range_from,
}
use pwd_writeup.Dpdk.{
  Mbuf, Env, History, event, system, count_marked, count_tx, pktmbuf_free, ring_dequeue_burst,
  tx_burst,
}
use pwd_writeup.Dpdk.Monad.{>>=-run, next, each, continue, call}
use pwd_writeup.Dpdk.Ownership.{
  count, gained, lost, Balances, Conserves, each-Conserves, when-Conserves, count-append,
  count_none, count-take-drop, free_rest_lem,
}
use pwd_writeup.L2fwd.Crypto.{mark_ether_type}
use pwd_writeup.L2fwdMulti.Worker.{ring_burst}
use pwd_writeup.L2fwdMulti.Sender.{
  Groups, no_frames, fits, append_to, group, check_mark, send_port, send_row, send_groups,
  send_back,
}

-- How often frame `a` stands in the rows of the ports.
abbrev total : ℕ → Groups → List ℕ → ℕ
total a g [] = 0
total a g (p ∷ ps) = count a (g p) + total a g ps

total_same :
    (a : ℕ) (g : Groups) (m : Mbuf) (s n : ℕ)
    → m.port < s
    → total a (append_to g m) (range_from s n) ≡ total a g (range_from s n)
unfolding append_to
total_same a g m s zero p = refl
total_same a g m s (suc n) p = ground (arith, total_same a g m (suc s) n (omega arith))

total-append_to :
    (a : ℕ) (g : Groups) (m : Mbuf) (s n : ℕ)
    → s ≤ m.port
    → m.port < s + n
    → total a (append_to g m) (range_from s n) ≡ total a g (range_from s n) + count a (m ∷ [])
unfolding append_to
total-append_to a g m s zero p q = absurd (omega arith)
total-append_to a g m s (suc n) p q = elim (Bool-cases (s == m.port)) [
  | inl here ↦
      let row : count a (append_to g m s) ≡ count a (g s) + count a (m ∷ []) =
        rw here (count-append a (g s) (m ∷ [])) in
      omega (arith, row, total_same a g m (suc s) n (ground arith))
  | inr later ↦
      let row : count a (append_to g m s) ≡ count a (g s) = rw later refl in
      omega (arith, row, total-append_to a g m (suc s) n (ground arith) (omega arith))
]

total-no_frames : (a s n : ℕ) → total a no_frames (range_from s n) ≡ 0
unfolding count
total-no_frames a s zero = refl
total-no_frames a s (suc n) = omega (arith, total-no_frames a (suc s) n)

fits_small : (g : Groups) (m : Mbuf) → fits g m ≡ true → m.port < 32
unfolding fits
fits_small g m e = ground arith

module _ (env : Env) where
  -- Every frame stands in a row or was freed.
  group_balance :
      (ms : List Mbuf) (g : Groups) (h : History)
      → (g' : Groups) × (h' : History) × (group env ms g h ≡ next g' h')
        × ((a : ℕ)
            → gained a h' + lost a h + count a ms + total a g (range 32)
              ≡ gained a h + lost a h' + total a g' (range 32))
  unfolding group gained lost count
  group_balance [] g h = (g, h, refl, λ a. omega arith)
  group_balance (m ∷ ms) g h = elim (Bool-cases (fits g m)) [
    | inl put ↦
        let (g', h', run, b) = group_balance ms (append_to g m) h in
        (
          g',
          h',
          rw put run,
          λ a. omega (arith, b a, total-append_to a g m 0 32 (omega arith) (fits_small g m put)),
        )
    | inr out ↦
        let (g', h', run, b) = group_balance ms g (event (pktmbuf_free m) tt ∷ h) in
        (g', h', rw out run, λ a. omega (arith, b a))
  ]

  check_mark-Conserves : (m : Mbuf) → Conserves (check_mark env m)
  unfolding check_mark gained lost
  check_mark-Conserves m =
      when-Conserves (m.ether_type == mark_ether_type) (call env (system count_marked)) counted
    where
      counted : Conserves (call env (system count_marked))
      counted h = (event (system count_marked) tt ∷ h, refl, λ a. omega arith)

  send_port_lem :
      (g : Groups) (dst : ℕ) (h : History)
      → (h' : History) × (send_port env g dst h ≡ next tt h')
        × ((a : ℕ) → Balances a (count a (g dst)) h h')
  unfolding send_port send_row gained lost
  send_port_lem g dst h = elim (Bool-cases (ltb 0 (length (g dst)))) [
    | inl some_frames ↦
        let (h₁, run₁, b₁) = each-Conserves (g dst) (check_mark env) check_mark-Conserves h in
        let n = env.answer h₁ (tx_burst dst 0 (g dst)) in
        let (h₂, run₂, b₂) =
          free_rest_lem env (g dst) n
            (event (system (count_tx dst n)) tt ∷ event (tx_burst dst 0 (g dst)) n ∷ h₁) in
        (
          h₂,
          rw some_frames (
              >>=-run (each (g dst) (check_mark env)) (λ _. send_row env dst (g dst)) h h₁ tt
                (next tt h₂) run₁ run₂),
          λ a. omega (arith, b₁ a, b₂ a, count-take-drop a n (g dst)),
        )
    | inr none_left ↦ (h, rw none_left refl, λ a. ground (arith, count_none a (g dst)))
  ]

  send_all_lem :
      (g : Groups) (ps : List ℕ) (h : History)
      → (h' : History) × (each ps (send_port env g) h ≡ next tt h')
        × ((a : ℕ) → Balances a (total a g ps) h h')
  send_all_lem g [] h = (h, refl, λ a. omega arith)
  send_all_lem g (p ∷ ps) h =
      let (h₁, run₁, b₁) = send_port_lem g p h in
      let (h₂, run₂, b₂) = send_all_lem g ps h₁ in
      (
        h₂,
        ap (λ o. continue o (λ _. each ps (send_port env g))) run₁ ∙ run₂,
        λ a. omega (arith, b₁ a, b₂ a),
      )

  pub send_back-Conserves : (r : ℕ) → Conserves (send_back env r)
  unfolding send_back send_groups gained lost
  send_back-Conserves r h = elim (Bool-cases (ltb 0 (length ms))) [
    | inl some_back ↦
        let (g, h₂, run₂, b₂) = group_balance ms no_frames h₁ in
        let (h₃, run₃, b₃) = send_all_lem g (range 32) h₂ in
        (
          h₃,
          rw some_back
              (>>=-run (group env ms no_frames) (send_groups env) h₁ h₂ g (next tt h₃) run₂ run₃),
          λ a. omega (arith, b₂ a, b₃ a, total-no_frames a 0 32),
        )
    | inr none_back ↦ (h₁, rw none_back refl, λ a. ground (arith, count_none a ms))
  ]
    where
      ms : List Mbuf
      ms = env.answer h (ring_dequeue_burst r ring_burst)

      h₁ : History
      h₁ = event (ring_dequeue_burst r ring_burst) ms ∷ h
