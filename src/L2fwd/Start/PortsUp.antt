-- ===== src/L2fwd/Start/PortsUp.antt =====
-- Dpdk-lab/multi_thread/l2fwd-single-thread/main.c, main: the loop that starts the ports.
use pwd_writeup.Base.{
  ℕ, List, [], ◌∷◌, Bool, true, false, ◌≡◌, ◌≢◌, sym, arith, All, Distinct, All_zip, if◌then◌else◌,
}
use pwd_writeup.Base.Bits.{is_clear}
use pwd_writeup.Dpdk.{Env, History, DevInfo}
use pwd_writeup.Dpdk.Monad.{
  M, next, Preserves, ◌>>=◌, ◌>>◌, >>=-inv, pure, bind-Preserves, if-Preserves,
}
use pwd_writeup.Dpdk.Device.{Device, device, closed, running}
use pwd_writeup.Dpdk.Ports.{IsClosed}
use pwd_writeup.L2fwd.Ports.{enabled_ports}
use pwd_writeup.L2fwd.Start.{Inits, configure_port, setup_queues, start_port, init_port, init_ports}

module _ (env : Env) (promiscuous_on : Bool) where
  configure_port-goes :
      (p : ℕ) (s : Inits) (h h' : History) (a : DevInfo × Inits)
      → device p h ≡ closed
      → configure_port env p s h ≡ next a h'
      → device p h' ≡ record closed { configured = true; rx_wanted = 1; tx_wanted = 1 }
  unfolding configure_port device
  configure_port-goes p s h h' a c e = ground arith

  setup_queues-goes :
      (p : ℕ) (info : DevInfo) (s : Inits) (h h' : History) (u : Unit {0})
      → device p h ≡ record closed { configured = true; rx_wanted = 1; tx_wanted = 1 }
      → setup_queues env p info s h ≡ next u h'
      → device p h' ≡ record (running 1 1 false) { started = false }
  unfolding setup_queues device
  setup_queues-goes p info s h h' u c e = ground arith

  start_port-goes :
      (p : ℕ) (h h' : History) (u : Unit {0})
      → device p h ≡ record (running 1 1 false) { started = false }
      → start_port env promiscuous_on p h ≡ next u h'
      → device p h' ≡ running 1 1 promiscuous_on
  unfolding start_port device
  start_port-goes p h h' u c e = elim promiscuous_on [ true ↦ ground arith | false ↦ ground arith ]

  init_port-goes :
      (p : ℕ) (s s' : Inits) (h h' : History)
      → device p h ≡ closed
      → init_port env promiscuous_on p s h ≡ next s' h'
      → device p h' ≡ running 1 1 promiscuous_on
  unfolding init_port
  init_port-goes p s s' h h' c e =
      let (a, h₁, first, e₁) =
        >>=-inv (configure_port env p s)
          (λ a. setup_queues env p a.0 a.1 >> (start_port env promiscuous_on p >> pure a.1)) h s' h'
          e in
      let (u, h₂, second, e₂) =
        >>=-inv (setup_queues env p a.0 a.1) (λ _. start_port env promiscuous_on p >> pure a.1) h₁
          s' h' e₁ in
      let (v, h₃, third, e₃) =
        >>=-inv (start_port env promiscuous_on p) (λ _. pure a.1) h₂ s' h' e₂ in
      start_port-goes p h₂ h' v
        (setup_queues-goes p a.0 a.1 h₁ h₂ u (configure_port-goes p s h h₁ a c first) second)
        (ground arith)

  init_port-elsewhere :
      (p q : ℕ) (d : Device) (s : Inits)
      → p ≢ q
      → Preserves (λ h. device q h ≡ d) (init_port env promiscuous_on p s)
  unfolding init_port configure_port setup_queues start_port device
  init_port-elsewhere p q d s o h h' s' c e = elim promiscuous_on [
    | true ↦ ground arith
    | false ↦ ground arith
  ]

  init_ports-elsewhere :
      (mask q : ℕ) (d : Device) (ps : List ℕ) (s : Inits)
      → All (λ p. q ≢ p) ps
      → Preserves (λ h. device q h ≡ d) (init_ports env promiscuous_on mask ps s)
  unfolding init_ports
  init_ports-elsewhere mask q d [] s o = λ h h' s' c e. ground arith
  init_ports-elsewhere mask q d (p ∷ ps) s o =
      if-Preserves (λ h. device q h ≡ d) (is_clear mask p) (init_ports env promiscuous_on mask ps s)
        (init_port env promiscuous_on p s >>= λ s'. init_ports env promiscuous_on mask ps s')
        (init_ports-elsewhere mask q d ps s o.1)
        (bind-Preserves (λ h. device q h ≡ d) (init_port env promiscuous_on p s)
          (λ s'. init_ports env promiscuous_on mask ps s')
          (init_port-elsewhere p q d s (λ k. o.0 (sym k)))
          (λ s'. init_ports-elsewhere mask q d ps s' o.1))

  abbrev pub IsUp : History → ℕ → Type 0
  IsUp h p = device p h ≡ running 1 1 promiscuous_on

  -- What `init_ports-running` says of the loop over `ps` that ends in `s'` and `h'`.
  abbrev Later : ℕ → List ℕ → Inits → History → Type 0
  Later mask ps s' h' =
      (s₁ : Inits) (h₁ : History)
      → All (IsClosed h₁) ps
      → init_ports env promiscuous_on mask ps s₁ h₁ ≡ next s' h'
      → All (IsUp h') (enabled_ports mask ps)

  pub init_ports-running :
      (mask : ℕ) (ps : List ℕ) (s s' : Inits) (h h' : History)
      → Distinct ps
      → All (IsClosed h) ps
      → init_ports env promiscuous_on mask ps s h ≡ next s' h'
      → All (IsUp h') (enabled_ports mask ps)
  unfolding init_ports enabled_ports
  init_ports-running mask [] s s' h h' d c e = tt
  init_ports-running mask (p ∷ ps) s s' h h' d c e =
      either (λ s₁ h₁ c₁ e₁. init_ports-running mask ps s₁ s' h₁ h' d.1 c₁ e₁) (is_clear mask p) e
    where
      rest_of : Inits → M Inits
      rest_of s₁ = init_ports env promiscuous_on mask ps s₁

      started :
          Later mask ps s' h'
          → (init_port env promiscuous_on p s >>= rest_of) h ≡ next s' h'
          → All (IsUp h') (p ∷ enabled_ports mask ps)
      started later_up e₁ =
          let (s₁, h₁, first, later) =
            >>=-inv (init_port env promiscuous_on p s) rest_of h s' h' e₁ in
          let others =
            All_zip (λ q. p ≢ q) (IsClosed h) (IsClosed h₁) ps
              (λ q apart was. init_port-elsewhere p q closed s apart h h₁ s₁ was first) d.0 c.1 in
          (
            init_ports-elsewhere mask p (running 1 1 promiscuous_on) ps s₁ d.0 h₁ h' s'
                (init_port-goes p s s₁ h h₁ c.0 first) later,
            later_up s₁ h₁ others later,
          )

      either :
          Later mask ps s' h'
          → (b : Bool)
          → (if b
                then init_ports env promiscuous_on mask ps s
                else (init_port env promiscuous_on p s >>= rest_of))
              h
            ≡ next s' h'
          → All (IsUp h') (if b then enabled_ports mask ps else p ∷ enabled_ports mask ps)
      either up true e₁ = up s h c.1 e₁
      either up false e₁ = started up e₁
