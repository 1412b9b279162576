-- ===== src/L2fwd/Start/Running.antt =====
-- Dpdk-lab/multi_thread/l2fwd-single-thread/main.c, main: the ports at the link check.
use pwd_writeup.Base.{
  subst, is_neg, ◌==◌, Option, some, none, ℕ, ℤ, List, ◌∷◌, ◌≡◌, sym, arith, All, All-map, Distinct,
}
use pwd_writeup.Dpdk.{event, system, eal_init, Env, History}
use pwd_writeup.Dpdk.Monad.{when, rte_exit, next, result, Preserves, ◌>>=◌, >>=-inv, bind-Preserves}
use pwd_writeup.Dpdk.Device.{Device, device, closed, running}
use pwd_writeup.Dpdk.Leads.{Ends-next, result-Leads}
use pwd_writeup.L2fwd.LinkStatus.Time.{check_all_ports_link_status-Leads}
use pwd_writeup.Dpdk.Ports.{IsClosed}
use pwd_writeup.L2fwd.Ports.{enabled_ports}
use pwd_writeup.L2fwd.Args.{Options, Numbers, Opt, initial_options, l2fwd_parse_args}
use pwd_writeup.L2fwd.LinkStatus.{check_all_ports_link_status}
use pwd_writeup.L2fwd.Lcores.{Assignment}
use pwd_writeup.L2fwd.Start.{
  from_some, Machine, plan, conclude, initial_inits, Setup, setup, prepare, Inits, init_ports,
}
use pwd_writeup.L2fwd.Start.PortsUp.{IsUp, init_ports-running}

from_some-inv :
    {A : Type 0} (env : Env) (o : Option A) (a : A) (h h' : History)
    → from_some env o h ≡ next a h'
    → (o ≡ some a) × (h' ≡ h)
unfolding from_some
from_some-inv env none a h h' e = cc
from_some-inv env (some b) a h h' e = (cc, cc)

eal-closed :
    (q : ℕ) (ret : ℤ) (h h₁ h₂ : History) (v : Unit {0})
    → device q h ≡ closed
    → when (is_neg ret) rte_exit (event (system eal_init) ret ∷ h) ≡ next v h₁
    → h₂ ≡ h₁
    → device q h₂ ≡ closed
unfolding device
eal-closed q ret h h₁ h₂ v c e s = ground arith

module _ (env : Env) (lib : Numbers) (machine : Machine) where
  open machine use {ports}

  link_status-keeps :
      (mask q : ℕ) (d : Device)
      → Preserves (λ h. device q h ≡ d) (result (check_all_ports_link_status env mask ports))
  link_status-keeps mask q d h h' a c e =
      Ends-next (λ h. device q h ≡ d) (result (check_all_ports_link_status env mask ports) h) a h'
        (result-Leads (λ h. device q h ≡ d) (check_all_ports_link_status env mask ports)
          (check_all_ports_link_status-Leads env mask ports q d) h c)
        e

  plan-keeps :
      (o : Options) (q : ℕ) (d : Device) → Preserves (λ h. device q h ≡ d) (plan env lib machine o)
  unfolding plan device
  plan-keeps o q d h h' a c e = ground arith

  conclude-keeps :
      (o : Options) (mask : ℕ) (a : Assignment) (i : Inits) (q : ℕ) (d : Device)
      → Preserves (λ h. device q h ≡ d) (conclude env lib machine o mask a i)
  unfolding conclude
  conclude-keeps o mask a i q d =
      bind-Preserves (λ h. device q h ≡ d) (when (i.nb_ports_available == 0) rte_exit) _
        (λ h h' u c e. ground arith)
        λ _.
          bind-Preserves (λ h. device q h ≡ d) (result (check_all_ports_link_status env mask ports))
            _ (link_status-keeps mask q d) λ _ h h' s c e. ground arith

  conclude-mask :
      (o : Options) (mask : ℕ) (a : Assignment) (i : Inits) (h h' : History) (s : Setup)
      → conclude env lib machine o mask a i h ≡ next s h'
      → s.enabled_port_mask ≡ mask
  unfolding conclude
  conclude-mask o mask a i h h' s e = ground arith

  prepare-running :
      (o : Options) (s : Setup) (h h' : History)
      → Distinct ports
      → All (IsClosed h) ports
      → prepare env lib machine o h ≡ next s h'
      → All (IsUp env o.promiscuous_on h') (enabled_ports s.enabled_port_mask ports)
  unfolding prepare
  prepare-running o s h h' d c e =
      let (p, h₁, planned, e₁) =
        >>=-inv (plan env lib machine o)
          (λ p. init_ports env o.promiscuous_on p.0 ports initial_inits >>= λ i.
            conclude env lib machine o p.0 p.1 i)
          h s h' e in
      let (i, h₂, inited, e₂) =
        >>=-inv (init_ports env o.promiscuous_on p.0 ports initial_inits)
          (λ i. conclude env lib machine o p.0 p.1 i) h₁ s h' e₁ in
      let closed₁ =
        All-map (IsClosed h) (IsClosed h₁) ports (λ q was. plan-keeps o q closed h h₁ p was planned)
          c in
      let up =
        init_ports-running env o.promiscuous_on p.0 ports initial_inits i h₁ h₂ d closed₁ inited in
      let after =
        All-map (IsUp env o.promiscuous_on h₂) (IsUp env o.promiscuous_on h')
          (enabled_ports p.0 ports)
          (λ q was. conclude-keeps o p.0 p.1 i q (running 1 1 o.promiscuous_on) h₂ h' s was e₂)
          up in
      subst (λ m. All (IsUp env o.promiscuous_on h') (enabled_ports m ports))
        (sym (conclude-mask o p.0 p.1 i h₂ h' s e₂)) after

  -- If main reaches the launch of the lcores from distinct closed ports, then the options were
  -- accepted, and every port of `machine` that the final mask enables is up with one receive and one
  -- transmit queue, promiscuous if `-P` was given, with no call on it out of order.
  pub setup-running :
      (opts : List Opt) (s : Setup) (h h' : History)
      → Distinct machine.ports
      → All (IsClosed h) machine.ports
      → setup env lib machine opts h ≡ next s h'
      → (o : Options) × (l2fwd_parse_args lib initial_options opts ≡ some o)
        × All (IsUp env o.promiscuous_on h') (enabled_ports s.enabled_port_mask machine.ports)
  unfolding setup
  setup-running opts s h h' d c e =
      let ret = env.answer h (system eal_init) in
      let h₀ = event (system eal_init) ret ∷ h in
      let (v, h₁, initialised, e₁) =
        >>=-inv (when (is_neg ret) rte_exit)
          (λ _.
            from_some env (l2fwd_parse_args lib initial_options opts) >>= prepare env lib machine)
          h₀ s h' e in
      let (o, h₂, parsed, e₂) =
        >>=-inv (from_some env (l2fwd_parse_args lib initial_options opts))
          (prepare env lib machine) h₁ s h' e₁ in
      let (known, same) =
        from_some-inv env (l2fwd_parse_args lib initial_options opts) o h₁ h₂ parsed in
      let closed₂ =
        All-map (IsClosed h) (IsClosed h₂) ports
          (λ q was. eal-closed q ret h h₁ h₂ v was initialised same) c in
      (o, known, prepare-running o s h₂ h' d closed₂ e₂)
