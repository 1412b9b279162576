-- ===== src/L2fwd/Loop/Balance.antt =====
-- No frame is lost in l2fwd_main_loop, and none is used after it was given away.
use Prim.Native.Nat.{zero, suc}
use pwd_writeup.Base.{
  ℕ, ◌+◌, ◌%◌, ◌^◌, ◌∷◌, ◌≡◌, refl, true, ◌==◌, Bool-cases, inl, inr, arith, ltb, leb, Bool, ◌-◌,
}
use pwd_writeup.Dpdk.{
  Env, History, event, encrypt_ctx, decrypt_ctx, ctx_reset, system, tx_buffer_flush, get_main_lcore,
  print_stats, read_tsc, force_quit, count_tx,
}
use pwd_writeup.Dpdk.Monad.{next, M}
use pwd_writeup.Dpdk.Ownership.{gained, lost, Balances, Conserves, each-Conserves}
use pwd_writeup.L2fwd.Loop.{
  Lcore, Timers, drain_port, drain, advance_timer, expire, drain_all, receive, rounds,
}
use pwd_writeup.L2fwd.Loop.Received.{Resets, receive-Conserves}

module _ (env : Env) (c : Lcore) where
  drain_port-Conserves : (p : ℕ) → Conserves (drain_port env c p)
  unfolding drain_port gained lost
  drain_port-Conserves p h = elim (Bool-cases (sent == 0)) [
    | inl none_sent ↦ (h₁, ground arith, λ a. ground arith)
    | inr some_sent ↦ (event (system (count_tx dst sent)) tt ∷ h₁, ground arith, λ a. ground arith)
  ]
    where
      dst : ℕ
      dst = c.tables.dst_ports p

      sent : ℕ
      sent = env.answer h (tx_buffer_flush dst)

      h₁ : History
      h₁ = event (tx_buffer_flush dst) sent ∷ h

  -- The same for a piece that has a result.
  abbrev pub Settles : {A : Type 0} → M A → Type 0
  Settles {A} m =
      (h : History) → (x : A) × (h' : History) × (m h ≡ next x h') × ((a : ℕ) → Balances a 0 h h')

  expire-Settles : (timer : ℕ) → Settles (expire env c timer)
  unfolding expire gained lost
  expire-Settles timer h = elim (Bool-cases (c.lcore_id == main_lcore)) [
    | inl main ↦ (0, event (system print_stats) tt ∷ h₁, ground arith, λ a. ground arith)
    | inr other ↦ (timer, h₁, ground arith, λ a. ground arith)
  ]
    where
      main_lcore : ℕ
      main_lcore = env.answer h (system get_main_lcore)

      h₁ : History
      h₁ = event (system get_main_lcore) main_lcore ∷ h

  advance_timer-Settles : (diff timer : ℕ) → Settles (advance_timer env c diff timer)
  unfolding advance_timer
  advance_timer-Settles diff timer h = elim (Bool-cases (ltb 0 c.timer_period)) [
    | inl enabled ↦ elim (Bool-cases (leb c.timer_period ((timer + diff) % 2 ^ 64))) [
      | inl due ↦ rw (enabled, due) (expire-Settles ((timer + diff) % 2 ^ 64) h)
      | inr early ↦ ((timer + diff) % 2 ^ 64, h, rw (enabled, early), λ a. omega arith)
    ]
    | inr disabled ↦ (timer, h, rw disabled, λ a. omega arith)
  ]

  drain_all-Settles : (cur diff : ℕ) (t : Timers) → Settles (drain_all env c cur diff t)
  unfolding drain_all
  drain_all-Settles cur diff t h =
      let (h₁, run₁, b₁) =
        each-Conserves c.rx_port_list (drain_port env c) drain_port-Conserves h in
      let (timer, h₂, run₂, b₂) = advance_timer-Settles diff t.timer_tsc h₁ in
      (
        record { prev_tsc = cur; timer_tsc = timer },
        h₂,
        ground (arith, run₁, run₂),
        λ a. omega (arith, b₁ a, b₂ a),
      )

  pub drain-Settles : (t : Timers) → Settles (drain env c t)
  unfolding drain gained lost
  drain-Settles t h = elim (Bool-cases (ltb c.drain_tsc diff)) [
    | inl due ↦
        let (t', h', run, b) = drain_all-Settles cur diff t h₁ in
        (t', h', ground (arith, run), λ a. omega (arith, b a))
    | inr early ↦ (t, h₁, ground arith, λ a. ground arith)
  ]
    where
      cur : ℕ
      cur = env.answer h (system read_tsc)

      h₁ : History
      h₁ = event (system read_tsc) cur ∷ h

      diff : ℕ
      diff = (cur + 2 ^ 64 - t.prev_tsc) % 2 ^ 64

  rounds-Conserves : Resets env → (n : ℕ) (t : Timers) → Conserves (rounds env c n t)
  unfolding rounds gained lost
  rounds-Conserves resets zero t h = (h, refl, λ a. omega arith)
  rounds-Conserves resets (suc n) t h = elim (Bool-cases quit) [
    | inl asked ↦ (h₁, ground arith, λ a. ground arith)
    | inr goes_on ↦
        let (t', h₂, run₂, b₂) = drain-Settles t h₁ in
        let (h₃, run₃, b₃) =
          each-Conserves c.rx_port_list (receive env c) (receive-Conserves env resets c) h₂ in
        let (h₄, run₄, b₄) = rounds-Conserves resets n t' h₃ in
        (h₄, ground (arith, run₂, run₃, run₄), λ a. omega (arith, b₂ a, b₃ a, b₄ a))
  ]
    where
      quit : Bool
      quit = env.answer h (system force_quit)

      h₁ : History
      h₁ = event (system force_quit) quit ∷ h

-- However long the loop runs and whatever the devices answer, it never leaves the program, and each
-- frame that it receives is handed to a transmit buffer or freed, exactly once. The only assumption
-- is that EVP_CIPHER_CTX_reset reports success.
pub rounds_balance :
    (env : Env) (c : Lcore) (n : ℕ) (t : Timers) (a : ℕ) (h : History)
    → ((k : History) → env.answer k (encrypt_ctx ctx_reset) ≡ true)
    → ((k : History) → env.answer k (decrypt_ctx ctx_reset) ≡ true)
    → (h' : History) × (rounds env c n t h ≡ next tt h') × Balances a 0 h h'
rounds_balance env c n t a h e d =
    let (h', run, b) = rounds-Conserves env c (e, d) n t h in (h', run, b a)
