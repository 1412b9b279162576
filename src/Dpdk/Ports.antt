-- ===== src/Dpdk/Ports.antt =====
-- `RTE_ETH_FOREACH_DEV(port) if (port_init(port) != 0) rte_exit(…)`: the loop that brings all ports
-- up, over any routine for one port that keeps the laws of `PortSetup`.
use pwd_writeup.Base.{
  ap, false, ℕ, ℤ, pos, is_nonzero, List, [], ◌∷◌, ◌≡◌, ◌≢◌, ◌∙◌, sym, true, All, Distinct, All_zip,
  arith,
}
use pwd_writeup.Dpdk.{History}
use pwd_writeup.Dpdk.Device.{Device, device, closed, running}
use pwd_writeup.Dpdk.Monad.{
  next, M, ◌>>=◌, when, each, result, rte_exit, >>=-inv, Preserves, each-Preserves, bind-Preserves,
  when-Preserves,
}

abbrev pub IsClosed : History → ℕ → Type 0
IsClosed h p = device p h ≡ closed

abbrev pub IsRunning : History → ℕ → Type 0
IsRunning h p = device p h ≡ running 1 1 true

-- What a client relies on of a routine that initialises one port.
pub record PortSetup : Type 0 where
  pub port_init : ℕ → M ℤ
  pub port_init-running :
      (p : ℕ) (h h' : History)
      → device p h ≡ closed
      → result (port_init p) h ≡ next (pos 0) h'
      → device p h' ≡ running 1 1 true
  pub port_init-elsewhere :
      (p q : ℕ) (h h' : History)
      → p ≢ q
      → (device q h).misused ≡ false
      → result (port_init p) h ≡ next (pos 0) h'
      → device q h' ≡ device q h

start_port : (ℕ → M ℤ) → ℕ → M (Unit {0})
start_port port_init p = do ret ← result (port_init p); when (is_nonzero ret) rte_exit

unfoldable pub start_ports : (ℕ → M ℤ) → List ℕ → M (Unit {0})
unfolding start_port
start_ports port_init ports = each ports (start_port port_init)

start_port-inv :
    (port_init : ℕ → M ℤ) (p : ℕ) (h h' : History) (u : Unit {0})
    → start_port port_init p h ≡ next u h'
    → result (port_init p) h ≡ next (pos 0) h'
unfolding start_port
start_port-inv port_init p h h' u e = ground arith

-- What the start of one port keeps, the loop keeps.
pub start_ports-Preserves :
    (P : History → Type 0) (port_init : ℕ → M ℤ)
    → ((p : ℕ) → Preserves P (result (port_init p)))
    → (ps : List ℕ) → Preserves P (start_ports port_init ps)
unfolding start_ports start_port
start_ports-Preserves P port_init k ps = each-Preserves P ps (start_port port_init) (λ p.
    bind-Preserves P (result (port_init p)) _ (k p)
      (λ ret. when-Preserves P (is_nonzero ret) rte_exit (λ h h' u c e. cc)))

module _ (s : PortSetup) where
  open s use {port_init, port_init-running, port_init-elsewhere}

  -- A port that is not in the list is left as it was.
  start_ports-elsewhere :
      (ps : List ℕ) (q : ℕ) (h h' : History) (u : Unit {0})
      → All (λ p. q ≢ p) ps
      → (device q h).misused ≡ false
      → each ps (start_port port_init) h ≡ next u h'
      → device q h' ≡ device q h
  start_ports-elsewhere [] q h h' u o ok e = ground arith
  start_ports-elsewhere (p ∷ ps) q h h' u o ok e =
      let (v, h₁, first, rest) =
        >>=-inv (start_port port_init p) (λ _. each ps (start_port port_init)) h u h' e in
      let same =
        port_init-elsewhere p q h h₁ (λ k. o.0 (sym k)) ok
          (start_port-inv port_init p h h₁ v first) in
      start_ports-elsewhere ps q h₁ h' u o.1 (ap (λ (d : Device). d.misused) same ∙ ok) rest ∙ same

  pub start_ports-running :
      (ps : List ℕ) (h h' : History) (u : Unit {0})
      → Distinct ps
      → All (IsClosed h) ps
      → start_ports port_init ps h ≡ next u h'
      → All (IsRunning h') ps
  unfolding start_ports
  start_ports-running [] h h' u d c e = tt
  start_ports-running (p ∷ ps) h h' u d c e =
      let (v, h₁, first, rest) =
        >>=-inv (start_port port_init p) (λ _. each ps (start_port port_init)) h u h' e in
      let did = start_port-inv port_init p h h₁ v first in
      let up = port_init-running p h h₁ c.0 did in
      let others =
        All_zip (λ q. p ≢ q) (IsClosed h) (IsClosed h₁) ps
          (λ q apart was.
            port_init-elsewhere p q h h₁ apart (ap (λ (d : Device). d.misused) was) did ∙ was)
          d.0 c.1 in
      (
        start_ports-elsewhere ps p h₁ h' u d.0 (ap (λ (d : Device). d.misused) up) rest ∙ up,
        start_ports-running ps h₁ h' u d.1 others rest,
      )
