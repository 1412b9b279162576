-- ===== src/L2fwdMulti/Main/Closed.antt =====
-- Dpdk-lab/multi_thread/l2fwd-multi-thread/main.c: how main ends.
use Prim.Native.Nat.{suc}
use pwd_writeup.Base.{
  refl, subst, ap, ◌∙◌, ℕ, ◌+◌, ◌<◌, ℤ, not, ◌&&◌, ltb, List, [], ◌∷◌, ◌≡◌, ◌==◌, if◌then◌else◌,
  length, range, some, All, Distinct,
}
use pwd_writeup.Dpdk.{Env, History, Task, system, ring_create, remote_launch, crypto, forwarding}
use pwd_writeup.Dpdk.Monad.{
  M, next, final, call, pure, when, each, Preserves, ◌>>◌, >>=-inv, bind-Preserves, seq-Preserves,
  each-Preserves, when-Preserves,
}
use pwd_writeup.Dpdk.Ports.{IsClosed}
use pwd_writeup.L2fwd.Args.{Numbers, Opt, Options, initial_options, l2fwd_parse_args}
use pwd_writeup.L2fwd.Loop.Keeping.{
  IsStable, IgnoresLaunches, call-keeps, done-keeps, exit_if-keeps,
}
use pwd_writeup.L2fwd.Main.{lcore_of}
use pwd_writeup.L2fwd.Main.Closed.{Finishes, finish_lem}
use pwd_writeup.L2fwd.Start.{Machine, Setup, setup, shutdown}
use pwd_writeup.L2fwd.Start.Running.{setup-running}
use pwd_writeup.L2fwdMulti.Worker.{rx_to_crypto, crypto_to_tx}
use pwd_writeup.L2fwdMulti.Loop.{l2fwd_main_loop}
use pwd_writeup.L2fwdMulti.Loop.Keeping.{main_loop-keeps}
use pwd_writeup.L2fwdMulti.Launch.{
  visits, choose_crypto, is_crypto, max_crypto_workers, create_ring_pair, create_rings,
  launch_crypto, launch_forwarding, launch_lcores, run_lcores,
}
use pwd_writeup.L2fwdMulti.Launch.Visits.{IsNextLcore}
use pwd_writeup.L2fwdMulti.Launch.Counts.{crypto_launches, forwarding_launches}
use pwd_writeup.L2fwdMulti.Launch.Counts.Kept.{AreLaunches, launches-IsStable, shutdown_keeps}
use pwd_writeup.L2fwdMulti.Launch.Roles.{is_above, launch_lcores-roles}
use pwd_writeup.L2fwdMulti.Main.{main}

module _ (env : Env) (P : History → Type 0) (stable : IsStable P)
    (ignores : IgnoresLaunches P) where
  remote_launch-keeps :
      (task : Task) (l : ℕ) → Preserves P (call env (system (remote_launch task l)))
  remote_launch-keeps task l h h' r p e =
      subst P (ap final e) (ignores task l (env.answer h (system (remote_launch task l))) h p)

  create_rings-keeps : Preserves P (create_rings env)
  unfolding create_rings create_ring_pair
  create_rings-keeps = each-Preserves P (range max_crypto_workers) (create_ring_pair env) (λ i.
      bind-Preserves P (call env (system (ring_create (rx_to_crypto i)))) _
        (call-keeps env P stable (system (ring_create (rx_to_crypto i))) tt)
        (λ made. seq-Preserves P (when (not made) _) _ (exit_if-keeps env P stable (not made)) (
          bind-Preserves P (call env (system (ring_create (crypto_to_tx i)))) _
            (call-keeps env P stable (system (ring_create (crypto_to_tx i))) tt)
            (λ made. exit_if-keeps env P stable (not made)))))

  launch_crypto-keeps : (i : ℕ) (ls : List ℕ) → Preserves P (launch_crypto env i ls)
  unfolding launch_crypto
  launch_crypto-keeps i [] = done-keeps env P stable tt
  launch_crypto-keeps i (l ∷ ls) =
      bind-Preserves P (call env (system (remote_launch (crypto i) l))) _
        (remote_launch-keeps (crypto i) l) (λ r. launch_crypto-keeps (suc i) ls)

  launch_forwarding-keeps :
      (lists : ℕ → List ℕ) (cs : List ℕ) (l : ℕ) → Preserves P (launch_forwarding env lists cs l)
  unfolding launch_forwarding
  launch_forwarding-keeps lists cs l =
      when-Preserves P (not (is_crypto cs l) && not (length (lists l) == 0)) _ (
        bind-Preserves P (call env (system (remote_launch forwarding l))) (λ r. pure tt)
          (remote_launch-keeps forwarding l) (λ r. done-keeps env P stable tt))

  launch_lcores-keeps :
      (lists : ℕ → List ℕ) (visited : List ℕ) → Preserves P (launch_lcores env lists visited)
  unfolding launch_lcores
  launch_lcores-keeps lists visited = bind-Preserves P (create_rings env) _ create_rings-keeps (λ _.
      bind-Preserves P (launch_crypto env 0 (choose_crypto lists visited)) _
        (launch_crypto-keeps 0 (choose_crypto lists visited))
        (λ _.
          bind-Preserves P
            (each visited (launch_forwarding env lists (choose_crypto lists visited))) _
            (each-Preserves P visited (launch_forwarding env lists (choose_crypto lists visited))
              (launch_forwarding-keeps lists (choose_crypto lists visited)))
            (λ _. done-keeps env P stable (choose_crypto lists visited))))

module _ (env : Env) (lib : Numbers) (machine : Machine) where
  open machine use {ports, max_lcore, is_enabled}

  -- Lcore `l` was launched in the right role, from `h` to `h'`.
  abbrev pub IsLaunched : (ℕ → List ℕ) → ℕ → History → History → ℕ → Type 0
  IsLaunched lists main_core h h' l =
      (crypto_launches l h'
        ≡ crypto_launches l h
          + (if is_above max_lcore is_enabled main_core l && (length (lists l) == 0) then 1 else 0))
      × (forwarding_launches l h'
          ≡ forwarding_launches l h
            + (if is_above max_lcore is_enabled main_core l && not (length (lists l) == 0)
                then 1
                else 0))

  -- If main returns, from distinct closed ports, then its options were accepted; after the setup it
  -- launched each enabled lcore above the main one exactly once up to its end, as a cipher worker if it
  -- polls no port and else to forward, and no lcore below; and each port that the final mask enables was
  -- brought up in order, was up until main stopped it, and was closed once in all, after that: stopped by
  -- then, unless the stop failed. No call on it came out of order. After the setup no other port is
  -- closed. It is assumed that rte_get_next_lcore does what is
  -- documented, and that the main lcore is below RTE_MAX_LCORE.
  pub main-Finishes :
      (next_lcore : ℕ → ℕ) (tsc_hz main_core n : ℕ) (opts : List Opt) (h h' : History) (r : ℤ)
      → Distinct ports
      → All (IsClosed h) ports
      → IsNextLcore next_lcore max_lcore is_enabled main_core
      → main_core < max_lcore
      → main env lib machine next_lcore tsc_hz main_core opts n h ≡ next r h'
      → (o : Options) × (s : Setup) × (h₁ : History) × (l2fwd_parse_args lib initial_options opts
          ≡ some o)
        × (setup env lib machine opts h ≡ next s h₁)
        × ((l : ℕ) → IsLaunched s.assignment.rx_port_list main_core h₁ h' l)
        × Finishes env lib machine o.promiscuous_on s.enabled_port_mask h₁ r h'
  unfolding main run_lcores
  main-Finishes next_lcore tsc_hz main_core n opts h h' r d c is_next small e =
      let (s, h₁, set, e₁) =
        >>=-inv (setup env lib machine opts)
          (λ s.
            run_lcores env lib machine s.assignment.rx_port_list visited main_core (loop s)
              s.enabled_port_mask)
          h r h' e in
      let (cs, h₂, launched, e₂) =
        >>=-inv (launch_lcores env s.assignment.rx_port_list visited)
          (λ cs. own s cs >> shutdown env lib machine s.enabled_port_mask) h₁ r h' e₁ in
      let (u, h₃, ran, e₃) =
        >>=-inv (own s cs) (λ _. shutdown env lib machine s.enabled_port_mask) h₂ r h' e₂ in
      let (o, parsed, up) = setup-running env lib machine opts s h h₁ d c set in
      (
        o,
        s,
        h₁,
        parsed,
        set,
        (λ l.
            let (workers, forwards) =
              launch_lcores-roles env s.assignment.rx_port_list next_lcore max_lcore is_enabled
                main_core l cs h₁ h₂ is_next small launched in
            let (same, same_forwards) = after s cs l h₂ h₃ u ran e₃ in
            (same ∙ workers, same_forwards ∙ forwards)),
        finish_lem env lib machine o.promiscuous_on s.enabled_port_mask h₁ h₃ h' r
            (λ P stable ignores p.
              own-keeps P stable s cs h₂ h₃ u
                (launch_lcores-keeps env P stable ignores s.assignment.rx_port_list visited h₁ h₂ cs
                  p launched)
                ran)
            d up e₃,
      )
    where
      visited : List ℕ
      visited = visits next_lcore max_lcore max_lcore (next_lcore main_core)

      loop : Setup → M (Unit {0})
      loop s = l2fwd_main_loop env (lcore_of s tsc_hz main_core) n

      -- The part of the main lcore.
      own : Setup → List ℕ → M (Unit {0})
      own s cs =
          when
            (not (is_crypto cs main_core) && ltb 0 (length (s.assignment.rx_port_list main_core)))
            (loop s)

      own-keeps :
          (P : History → Type 0) → IsStable P → (s : Setup) (cs : List ℕ) → Preserves P (own s cs)
      own-keeps P stable s cs =
          when-Preserves P
            (not (is_crypto cs main_core) && ltb 0 (length (s.assignment.rx_port_list main_core)))
            (loop s) (main_loop-keeps env P stable (lcore_of s tsc_hz main_core) n)

      -- Nothing is launched after launch_lcores.
      after :
          (s : Setup) (cs : List ℕ) (l : ℕ) (h₂ h₃ : History) (u : Unit {0})
          → own s cs h₂ ≡ next u h₃
          → shutdown env lib machine s.enabled_port_mask h₃ ≡ next r h'
          → AreLaunches l (crypto_launches l h₂) (forwarding_launches l h₂) h'
      after s cs l h₂ h₃ u ran e₃ =
          let n = crypto_launches l h₂ in
          let m = forwarding_launches l h₂ in
          shutdown_keeps l n m env lib machine s.enabled_port_mask h₃ h' r
            (own-keeps (AreLaunches l n m) (launches-IsStable l n m) s cs h₂ h₃ u (refl, refl) ran)
            e₃
