-- ===== src/RxtxCallbacks/Start.antt =====
-- Dpdk-lab/rxtx_callbacks/main.c, port_init and main: the start of the ports.
use pwd_writeup.Base.{
  ℕ, ℤ, List, ◌≡◌, refl, [], ◌∷◌, Option, is_neg, ◌≢◌, Bool, true, false, some, none, arith, All,
  All-map, Distinct,
}
use pwd_writeup.Dpdk.{Env, History, DevInfo, event, system, eal_init}
use pwd_writeup.Dpdk.Monad.{next, final, when, rte_exit, Preserves, >>=-inv, ◌>>◌}
use pwd_writeup.Dpdk.Device.{device, Device, device, closed, running}
use pwd_writeup.Dpdk.Parts.{Part, bind-Part, Part-result, Part-final}
use pwd_writeup.Dpdk.Ports.{PortSetup, IsClosed, IsRunning, start_ports, start_ports-running}
use pwd_writeup.BasicFwd
use pwd_writeup.RxtxCallbacks.{
  Opt, unknown, hw_timestamps, run_with, inspect, bring_up, calibrate_clock, finish, port_init,
  prepare, main, lcore_main, parse_options,
}

abbrev with_promiscuous : Bool → Device
with_promiscuous b = running 1 1 b

module _ (env : Env) (calibrate : ℕ → ℕ → ℕ) (hw : Bool) where
  inspect-Part :
      (p q : ℕ) (d : Device) → d.misused ≡ false → Part q d d (inspect env calibrate hw p)
  unfolding inspect device
  inspect-Part p q d ok = record {
    goes = λ h a h' c e. ground arith;
    fails = λ h r h' c e. ground arith;
    stops = λ h h' c e. ground arith;
  }

  bring_up-Part :
      (p : ℕ) (info : DevInfo) (rx : ℕ)
      → Part p closed (running 1 1 false) (bring_up env calibrate hw p info rx)
  unfolding bring_up device
  bring_up-Part p info rx = record {
    goes = λ h a h' c e. ground arith;
    fails = λ h r h' c e. ground arith;
    stops = λ h h' c e. ground arith;
  }

  bring_up_elsewhere :
      (p q : ℕ) (d : Device) (info : DevInfo) (rx : ℕ)
      → p ≢ q
      → d.misused ≡ false
      → Part q d d (bring_up env calibrate hw p info rx)
  unfolding bring_up device
  bring_up_elsewhere p q d info rx o ok = record {
    goes = λ h a h' c e. ground arith;
    fails = λ h r h' c e. ground arith;
    stops = λ h h' c e. ground arith;
  }

  calibrate_clock-Part :
      (p q : ℕ) (d : Device) → d.misused ≡ false → Part q d d (calibrate_clock env calibrate hw p)
  unfolding calibrate_clock device
  calibrate_clock-Part p q d ok = record {
    goes = λ h a h' c e. ground arith;
    fails = λ h r h' c e. ground arith;
    stops = λ h h' c e. ground arith;
  }

  finish-Part : (p : ℕ) → Part p (running 1 1 false) (running 1 1 true) (finish env calibrate hw p)
  unfolding finish device
  finish-Part p = record {
    goes = λ h a h' c e. ground arith;
    fails = λ h r h' c e. ground arith;
    stops = λ h h' c e. ground arith;
  }

  finish_elsewhere :
      (p q : ℕ) (d : Device) → p ≢ q → d.misused ≡ false → Part q d d (finish env calibrate hw p)
  unfolding finish device
  finish_elsewhere p q d o ok = record {
    goes = λ h a h' c e. ground arith;
    fails = λ h r h' c e. ground arith;
    stops = λ h h' c e. ground arith;
  }

  port_init-Part : (p : ℕ) → Part p closed (running 1 1 true) (port_init env calibrate hw p)
  unfolding port_init
  port_init-Part p = bind-Part (inspect-Part p p closed refl) λ a.
      bind-Part (bring_up-Part p a.0 a.1)
        λ _. bind-Part (calibrate_clock-Part p p (running 1 1 false) refl) λ _. finish-Part p

  port_init_elsewhere-Part :
      (p q : ℕ) (d : Device) → p ≢ q → d.misused ≡ false → Part q d d (port_init env calibrate hw p)
  unfolding port_init
  port_init_elsewhere-Part p q d o ok = bind-Part (inspect-Part p q d ok) λ a.
      bind-Part (bring_up_elsewhere p q d a.0 a.1 o ok)
        λ _. bind-Part (calibrate_clock-Part p q d ok) λ _. finish_elsewhere p q d o ok

  abbrev port_setup : PortSetup
  port_setup = record {
    port_init = port_init env calibrate hw;
    port_init-running = λ p h h' c e. Part-result (port_init-Part p) h h' c e;
    port_init-elsewhere =
        λ p q h h' o ok e. Part-result (port_init_elsewhere-Part p q (device q h) o ok) h h' refl e;
  }

  -- On no path of port_init, errors included, is the port used out of order.
  pub port_init_in_order :
      (p : ℕ) (h : History)
      → device p h ≡ closed
      → (device p (final (port_init env calibrate hw p h))).misused ≡ false
  port_init_in_order p h c = Part-final (port_init-Part p) h c refl

module _ (env : Env) where
  prepare-closed : (p : ℕ) → Preserves (λ h. device p h ≡ closed) (prepare env)
  unfolding prepare device
  prepare-closed p h h' u c e = ground arith

  lcore_main-running :
      (p : ℕ) (ports : List ℕ) (rounds : ℕ)
      → Preserves (λ h. device p h ≡ running 1 1 true) (lcore_main env ports rounds)
  unfolding lcore_main BasicFwd.lcore_main BasicFwd.forward_port
  lcore_main-running p ports rounds = BasicFwd.Init.lcore_main-running env p ports rounds

  -- main before the options and after them.
  started :
      (calibrate : ℕ → ℕ → ℕ) (hw : Bool) (ports : List ℕ) (rounds : ℕ) (h h' : History)
      (u : Unit {0})
      → Distinct ports
      → All (IsClosed h) ports
      → (prepare env
            >> (start_ports (port_init env calibrate hw) ports >> lcore_main env ports rounds))
          h
        ≡ next u h'
      → All (IsRunning h') ports
  started calibrate hw ports rounds h h' u d c e =
      let (v, h₁, ready, e₁) =
        >>=-inv (prepare env)
          (λ _. start_ports (port_init env calibrate hw) ports >> lcore_main env ports rounds) h u
          h' e in
      let (w, h₂, up, e₂) =
        >>=-inv (start_ports (port_init env calibrate hw) ports) (λ _. lcore_main env ports rounds)
          h₁ u h' e₁ in
      let closed₁ =
        All-map (IsClosed h) (IsClosed h₁) ports (λ p was. prepare-closed p h h₁ v was ready) c in
      All-map (IsRunning h₂) (IsRunning h') ports
        (λ p was. lcore_main-running p ports rounds h₂ h' u was e₂)
        (start_ports-running (port_setup env calibrate hw) ports h₁ h₂ w d closed₁ up)

  run_with-running :
      (calibrate : ℕ → ℕ → ℕ) (known : Option Bool) (ports : List ℕ) (rounds : ℕ) (h h' : History)
      (u : Unit {0})
      → Distinct ports
      → All (IsClosed h) ports
      → run_with env calibrate known ports rounds h ≡ next u h'
      → (known ≢ none) × All (IsRunning h') ports
  unfolding run_with
  run_with-running calibrate none ports rounds h h' u d c e = cc
  run_with-running calibrate (some hw) ports rounds h h' u d c e =
      (λ k. cc, started calibrate hw ports rounds h h' u d c e)

  eal-closed : (p : ℕ) (ret : ℤ) → Preserves (λ h. device p h ≡ closed) (when (is_neg ret) rte_exit)
  eal-closed p ret h h' u c e = ground arith

  eal_event-closed :
      (p : ℕ) (h : History) (r : ℤ)
      → device p h ≡ closed
      → device p (event (system eal_init) r ∷ h) ≡ closed
  unfolding device
  eal_event-closed p h r c = c

  parse_options-known :
      (on : Bool) (opts : List Opt) → parse_options on opts ≢ none → All (λ o. o ≢ unknown) opts
  unfolding parse_options
  parse_options-known on [] k = tt
  parse_options-known on (hw_timestamps ∷ rest) k = (λ q. cc, parse_options-known true rest k)
  parse_options-known on (unknown ∷ rest) k = absurd (k refl)

  -- If main goes on from distinct closed ports, with whatever options, then getopt_long knew every
  -- option, and every port is up at the end of any number of rounds, with no call on it out of order.
  pub main-IsRunning :
      (calibrate : ℕ → ℕ → ℕ) (opts : List Opt) (ports : List ℕ) (rounds : ℕ) (h h' : History)
      (u : Unit {0})
      → Distinct ports
      → All (IsClosed h) ports
      → main env calibrate opts ports rounds h ≡ next u h'
      → All (λ o. o ≢ unknown) opts × All (IsRunning h') ports
  unfolding main
  main-IsRunning calibrate opts ports rounds h h' u d c e =
      let ret = env.answer h (system eal_init) in
      let h₀ = event (system eal_init) ret ∷ h in
      let (v, h₁, initialised, rest) =
        >>=-inv (when (is_neg ret) rte_exit)
          (λ _. run_with env calibrate (parse_options false opts) ports rounds) h₀ u h' e in
      let closed₁ =
        All-map (IsClosed h) (IsClosed h₁) ports
          (λ p was. eal-closed p ret h₀ h₁ v (eal_event-closed p h ret was) initialised) c in
      let (known, up) =
        run_with-running calibrate (parse_options false opts) ports rounds h₁ h' u d closed₁ rest in
      (parse_options-known false opts known, up)
