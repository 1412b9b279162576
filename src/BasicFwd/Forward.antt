-- ===== src/BasicFwd/Forward.antt =====
-- Dpdk-lab/basic_fwd/main.c, lcore_main: no frame is leaked and none freed twice.
use pwd_writeup.Base.{ℕ, List, ◌∷◌, ◌≡◌, ◌==◌, length, arith, inl, inr, Bool-cases}
use Prim.Native.Nat.{bit_xor}
use pwd_writeup.Dpdk.{Mbuf, Env, History, event, rx_burst, tx_burst}
use pwd_writeup.Dpdk.Monad.{next, each, Preserves, repeat-Preserves, each-Preserves}
use pwd_writeup.Dpdk.Pairing.{IsPaired, bursts, sends, free_rest-IsPaired, forward_step-IsPaired}
use pwd_writeup.Dpdk.Ownership.{
  gained, lost, Conserves, Balances, free_rest_lem, count_none, count-take-drop, each-Conserves,
  repeat-Conserves,
}
use pwd_writeup.BasicFwd.{forward_port, lcore_main}

module _ (env : Env) where
  forward_port-Conserves : (port : ℕ) → Conserves (forward_port env port)
  unfolding forward_port gained lost
  forward_port-Conserves port h = elim (Bool-cases (length bufs == 0)) [
    | inl idle ↦ (h₁, ground arith, λ a. ground (arith, count_none a bufs))
    | inr busy ↦
        let (h', run, b) = free_rest_lem env bufs taken h₂ in
        (h', ground (arith, run), λ a. ground (arith, b a, count-take-drop a taken bufs))
  ]
    where
      bufs : List Mbuf
      bufs = env.answer h (rx_burst port 0 32)

      h₁ : History
      h₁ = event (rx_burst port 0 32) bufs ∷ h

      taken : ℕ
      taken = env.answer h₁ (tx_burst (bit_xor port 1) 0 bufs)

      h₂ : History
      h₂ = event (tx_burst (bit_xor port 1) 0 bufs) taken ∷ h₁

  lcore_main-Conserves : (ports : List ℕ) (rounds : ℕ) → Conserves (lcore_main env ports rounds)
  unfolding lcore_main
  lcore_main-Conserves ports rounds =
      repeat-Conserves rounds (each ports (forward_port env))
        (each-Conserves ports (forward_port env) forward_port-Conserves)

  -- lcore_main runs for any number of rounds without stopping, and of the frames that it receives
  -- each is taken by a port or freed, exactly once, however many of a burst the device takes.
  pub lcore_main-Balances :
      (ports : List ℕ) (rounds a : ℕ) (h : History)
      → (h' : History) × (lcore_main env ports rounds h ≡ next tt h') × Balances a 0 h h'
  lcore_main-Balances ports rounds a h =
      let (h', run, b) = lcore_main-Conserves ports rounds h in (h', run, b a)

  forward_port-IsPaired : (port : ℕ) → Preserves IsPaired (forward_port env port)
  unfolding forward_port bursts sends
  forward_port-IsPaired port h h' u p e = elim (Bool-cases (length bufs == 0)) [
    | inl idle ↦ ground (arith, p)
    | inr busy ↦
        free_rest-IsPaired env bufs taken h₂ h' u (forward_step-IsPaired env port 32 bufs taken h p)
          (ground arith)
  ]
    where
      bufs : List Mbuf
      bufs = env.answer h (rx_burst port 0 32)

      h₁ : History
      h₁ = event (rx_burst port 0 32) bufs ∷ h

      taken : ℕ
      taken = env.answer h₁ (tx_burst (bit_xor port 1) 0 bufs)

      h₂ : History
      h₂ = event (tx_burst (bit_xor port 1) 0 bufs) taken ∷ h₁

  -- Every burst with frames that lcore_main receives is sent, once and whole, before the next one is
  -- received, to the port whose number differs in the lowest bit from that of its port; and nothing else
  -- is sent.
  pub lcore_main-IsPaired :
      (ports : List ℕ) (rounds : ℕ) (h h' : History) (u : Unit {0})
      → IsPaired h
      → lcore_main env ports rounds h ≡ next u h'
      → IsPaired h'
  unfolding lcore_main
  lcore_main-IsPaired ports rounds =
      repeat-Preserves IsPaired rounds (each ports (forward_port env))
        (each-Preserves IsPaired ports (forward_port env) forward_port-IsPaired)
