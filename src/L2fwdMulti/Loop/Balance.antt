-- ===== src/L2fwdMulti/Loop/Balance.antt =====
-- No frame is lost in l2fwd_main_loop of the multi-threaded program.
use pwd_writeup.Base.{
  ℕ, zero, suc, ◌-◌, List, [], ◌∷◌, map, ◌≡◌, refl, ap, ◌==◌, Bool, Bool-cases, inl, inr, length,
  arith,
}
use pwd_writeup.Dpdk.{
  Mbuf, Env, History, event, system, count_rx, count_rx_dropped, force_quit, rx_burst,
  ring_enqueue_burst,
}
use pwd_writeup.Dpdk.Monad.{M, next, call}
use pwd_writeup.Dpdk.Ownership.{
  count, gained, lost, Balances, Conserves, each-Conserves, count_rest_lem, count_none,
  count-take-drop,
}
use pwd_writeup.L2fwd.Loop.{Lcore, Timers, max_pkt_burst}
use pwd_writeup.L2fwd.Loop.Balance.{drain-Settles}
use pwd_writeup.L2fwdMulti.Worker.{rx_to_crypto_array, crypto_to_tx_array}
use pwd_writeup.L2fwdMulti.Sender.Balance.{send_back-Conserves}
use pwd_writeup.L2fwdMulti.Loop.{arrived_on, take_in, rounds}

count-arrived_on : (a p : ℕ) (ms : List Mbuf) → count a (map (arrived_on p) ms) ≡ count a ms
unfolding count arrived_on
count-arrived_on a p [] = refl
count-arrived_on a p (m ∷ ms) = omega (arith, count-arrived_on a p ms)

length-arrived_on : (p : ℕ) (ms : List Mbuf) → length (map (arrived_on p) ms) ≡ length ms
length-arrived_on p [] = refl
length-arrived_on p (m ∷ ms) = ap suc (length-arrived_on p ms)

module _ (env : Env) (c : Lcore) where
  take_in-Conserves : (p : ℕ) → Conserves (take_in env c p)
  unfolding take_in gained lost
  take_in-Conserves p h = elim (Bool-cases (length burst == 0)) [
    | inl idle ↦ (h₁, ground arith, λ a. ground (arith, count_none a burst))
    | inr busy ↦
        let (h', run, b) = count_rest_lem env count_it ms n h₂ counted in
        (
          h',
          ground (arith, length-arrived_on p burst, run),
          λ a. omega (arith, b a, count-take-drop a n ms, count-arrived_on a p burst),
        )
  ]
    where
      burst : List Mbuf
      burst = env.answer h (rx_burst p 0 max_pkt_burst)

      ms : List Mbuf
      ms = map (arrived_on p) burst

      h₁ : History
      h₁ = event (rx_burst p 0 max_pkt_burst) burst ∷ h

      h₁' : History
      h₁' = event (system (count_rx p (length burst))) tt ∷ h₁

      n : ℕ
      n = env.answer h₁' (ring_enqueue_burst rx_to_crypto_array ms)

      h₂ : History
      h₂ = event (ring_enqueue_burst rx_to_crypto_array ms) n ∷ h₁'

      count_it : M (Unit {0})
      count_it = call env (system (count_rx_dropped (length burst - n)))

      counted : Conserves count_it
      counted k =
          (event (system (count_rx_dropped (length burst - n))) tt ∷ k, refl, λ a. omega arith)

  rounds-Conserves : (n : ℕ) (t : Timers) → Conserves (rounds env c n t)
  unfolding rounds gained lost
  rounds-Conserves zero t h = (h, refl, λ a. omega arith)
  rounds-Conserves (suc n) t h = elim (Bool-cases quit) [
    | inl asked ↦ (h₁, ground arith, λ a. ground arith)
    | inr goes_on ↦
        let (t', h₂, run₂, b₂) = drain-Settles env c t h₁ in
        let (h₃, run₃, b₃) = each-Conserves c.rx_port_list (take_in env c) take_in-Conserves h₂ in
        let (h₄, run₄, b₄) = send_back-Conserves env crypto_to_tx_array h₃ in
        let (h₅, run₅, b₅) = rounds-Conserves n t' h₄ in
        (h₅, ground (arith, run₂, run₃, run₄, run₅), λ a. omega (arith, b₂ a, b₃ a, b₄ a, b₅ a))
  ]
    where
      quit : Bool
      quit = env.answer h (system force_quit)

      h₁ : History
      h₁ = event (system force_quit) quit ∷ h

pub io_rounds_balance :
    (env : Env) (c : Lcore) (n a : ℕ) (t : Timers) (h : History)
    → (h' : History) × (rounds env c n t h ≡ next tt h') × Balances a 0 h h'
io_rounds_balance env c n a t h = let (h', run, b) = rounds-Conserves env c n t h in (h', run, b a)
