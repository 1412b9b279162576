-- ===== src/BasicFwd/Init.antt =====
-- Dpdk-lab/basic_fwd/main.c, port_init and main: the start of the ports.
use pwd_writeup.Base.{
  [], refl, ◌+◌, false, All, All-map, Distinct, ℕ, pos, ◌≡◌, ◌≢◌, true, arith, List, ◌∷◌,
  Bool-cases, inl, inr, length, ◌==◌,
}
use Prim.Native.Nat.{bit_xor}
use pwd_writeup.Dpdk.{Mbuf, Env, History, event, rx_burst, tx_burst}
use pwd_writeup.Dpdk.Monad.{
  next, result, Preserves, repeat-Preserves, each-Preserves, each, >>=-inv, ◌>>◌,
}
use pwd_writeup.Dpdk.Device.{device, closed, running, Returns}
use pwd_writeup.Dpdk.Ports.{
  PortSetup, IsClosed, IsRunning, start_ports, start_ports-running, start_ports-Preserves,
}
use pwd_writeup.Dpdk.Ownership.{free_rest-Preserves}
use pwd_writeup.BasicFwd.{port_init, prepare, forward_port, lcore_main, main}

-- How often a port was asked for frames.
unfoldable pub receives : History → ℕ
receives [] = 0
receives (event (rx_burst p q n) ms ∷ h) = 1 + receives h
receives (event c a ∷ h) = receives h

module _ (env : Env) where
  pub port_init-running :
      (p : ℕ) (h h' : History)
      → device p h ≡ closed
      → result (port_init env p) h ≡ next (pos 0) h'
      → device p h' ≡ running 1 1 true
  unfolding port_init device
  port_init-running p h h' c e = ground arith

  pub port_init-elsewhere :
      (p q : ℕ) (h h' : History)
      → p ≢ q
      → (device q h).misused ≡ false
      → result (port_init env p) h ≡ next (pos 0) h'
      → device q h' ≡ device q h
  unfolding port_init device
  port_init-elsewhere p q h h' o ok e = ground arith

  pub port_setup : PortSetup
  port_setup = record {
    port_init = port_init env;
    port_init-running = port_init-running;
    port_init-elsewhere = port_init-elsewhere;
  }

  prepare-closed : (p : ℕ) → Preserves (λ h. device p h ≡ closed) (prepare env)
  unfolding prepare device
  prepare-closed p h h' u c e = ground arith

  -- A turn in the loop leaves a running port running, and receives from it only then.
  forward_port-running :
      (p q : ℕ) → Preserves (λ h. device p h ≡ running 1 1 true) (forward_port env q)
  unfolding forward_port device
  forward_port-running p q h h' u c e = elim (Bool-cases (length bufs == 0)) [
    | inl idle ↦ ground arith
    | inr busy ↦
        free_rest-Preserves (λ k. device p k ≡ running 1 1 true) env bufs taken (λ m k r. r) h₂ h' u
          (ground arith) (ground arith)
  ]
    where
      bufs : List Mbuf
      bufs = env.answer h (rx_burst q 0 32)

      h₁ : History
      h₁ = event (rx_burst q 0 32) bufs ∷ h

      taken : ℕ
      taken = env.answer h₁ (tx_burst (bit_xor q 1) 0 bufs)

      h₂ : History
      h₂ = event (tx_burst (bit_xor q 1) 0 bufs) taken ∷ h₁

  pub lcore_main-running :
      (p : ℕ) (ports : List ℕ) (rounds : ℕ)
      → Preserves (λ h. device p h ≡ running 1 1 true) (lcore_main env ports rounds)
  unfolding lcore_main
  lcore_main-running p ports rounds =
      repeat-Preserves (λ h. IsRunning h p) rounds (each ports (forward_port env))
        (each-Preserves (λ h. IsRunning h p) ports (forward_port env) (forward_port-running p))

  port_init-quiet : (p n : ℕ) → Preserves (λ h. receives h ≡ n) (result (port_init env p))
  unfolding port_init receives
  port_init-quiet p n h h' r c e = ground (arith, c, e)

  prepare-quiet : (n : ℕ) → Preserves (λ h. receives h ≡ n) (prepare env)
  unfolding prepare receives
  prepare-quiet n h h' u c e = ground arith

  -- If main goes on from distinct closed ports, then it came to a point where every port was up, brought
  -- up in the order that the device wants, and nothing had been received yet; from there on it is
  -- lcore_main that runs, and after any number of rounds every port is up with no call on it out of
  -- order.
  pub main-running :
      (ports : List ℕ) (rounds : ℕ) (h h' : History) (u : Unit {0})
      → Distinct ports
      → All (IsClosed h) ports
      → main env ports rounds h ≡ next u h'
      → (h₁ : History) × (receives h₁ ≡ receives h)
        × All (IsRunning h₁) ports
        × (lcore_main env ports rounds h₁ ≡ next u h')
        × All (IsRunning h') ports
  unfolding main port_setup
  main-running ports rounds h h' u d c e =
      let (v, h₁, ready, e₁) =
        >>=-inv (prepare env)
          (λ _. start_ports (port_init env) ports >> lcore_main env ports rounds) h u h' e in
      let (w, h₂, up, e₂) =
        >>=-inv (start_ports (port_init env) ports) (λ _. lcore_main env ports rounds) h₁ u h' e₁ in
      let closed₁ =
        All-map (IsClosed h) (IsClosed h₁) ports (λ p was. prepare-closed p h h₁ v was ready) c in
      let up₂ = start_ports-running port_setup ports h₁ h₂ w d closed₁ up in
      (
        h₂,
        start_ports-Preserves (λ k. receives k ≡ receives h) (port_init env)
            (λ p. port_init-quiet p (receives h)) ports h₁ h₂ w
            (prepare-quiet (receives h) h h₁ v refl ready) up,
        up₂,
        e₂,
        All-map (IsRunning h₂) (IsRunning h') ports
            (λ p was. lcore_main-running p ports rounds h₂ h' u was e₂) up₂,
      )

  -- port_init returns whatever the calls answer, and on no path, errors included, does it use the
  -- port out of order.
  pub port_init-Returns :
      (p : ℕ) (h : History) → device p h ≡ closed → Returns p (port_init env p h)
  unfolding port_init device
  port_init-Returns p h c = ground arith
