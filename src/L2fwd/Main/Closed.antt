-- ===== src/L2fwd/Main/Closed.antt =====
-- Dpdk-lab/multi_thread/l2fwd-single-thread/main.c: how main ends.
use pwd_writeup.Base.{
  ℕ, ◌+◌, ℤ, pos, negsuc, is_neg, is_nonzero, not, List, [], ◌∷◌, ◌≡◌, refl, ap, ◌∙◌, Bool, some,
  All, All-map, Distinct, arith,
}
use pwd_writeup.Dpdk.{
  Env, History, system, encrypt_ctx, decrypt_ctx, rx_burst, tx_burst, tx_buffer, tx_buffer_flush,
  ring_enqueue_burst, ring_dequeue_burst, pktmbuf_free, wait_lcore, mp_remote_launch,
}
use pwd_writeup.Dpdk.Monad.{
  next, call, pure, Preserves, ◌>>◌, >>=-inv, bind-Preserves, if-Preserves, when-Preserves,
}
use pwd_writeup.Dpdk.Device.{device, running}
use pwd_writeup.Dpdk.Ports.{IsClosed}
use pwd_writeup.L2fwd.Args.{Numbers, Opt, Options, initial_options, l2fwd_parse_args}
use pwd_writeup.L2fwd.Loop.{Lcore, l2fwd_main_loop}
use pwd_writeup.L2fwd.Loop.Keeping.{
  IsStable, IgnoresLaunches, call-keeps, done-keeps, l2fwd_main_loop-keeps,
}
use pwd_writeup.L2fwd.Ports.{enabled_ports}
use pwd_writeup.L2fwd.Start.{Machine, Setup, setup, wait_workers, close_ports, shutdown}
use pwd_writeup.L2fwd.Start.Running.{setup-running}
use pwd_writeup.L2fwd.Start.Closing.{closes, times, Closed, close_ports_lem}
use pwd_writeup.L2fwd.Main.{no_contexts, lcore_of, launch, main}

-- Forwarding leaves a port up, and closes none.
pub up-IsStable : (q : ℕ) (on : Bool) → IsStable (λ h. device q h ≡ running 1 1 on)
unfolding device
up-IsStable q on (system c) f a h e = e
up-IsStable q on (encrypt_ctx c) f a h e = e
up-IsStable q on (decrypt_ctx c) f a h e = e
up-IsStable q on (rx_burst p i n) f a h e = ground (arith, e)
up-IsStable q on (tx_burst p i ms) f a h e = e
up-IsStable q on (tx_buffer p m) f a h e = e
up-IsStable q on (tx_buffer_flush p) f a h e = e
up-IsStable q on (ring_enqueue_burst r ms) f a h e = e
up-IsStable q on (ring_dequeue_burst r n) f a h e = e
up-IsStable q on (pktmbuf_free m) f a h e = e
up-IsStable q on c f a h e = absurd f

pub closes-IsStable : (q n : ℕ) → IsStable (λ h. closes q h ≡ n)
unfolding closes
closes-IsStable q n (system c) f a h e = e
closes-IsStable q n (encrypt_ctx c) f a h e = e
closes-IsStable q n (decrypt_ctx c) f a h e = e
closes-IsStable q n (rx_burst p i k) f a h e = e
closes-IsStable q n (tx_burst p i ms) f a h e = e
closes-IsStable q n (tx_buffer p m) f a h e = e
closes-IsStable q n (tx_buffer_flush p) f a h e = e
closes-IsStable q n (ring_enqueue_burst r ms) f a h e = e
closes-IsStable q n (ring_dequeue_burst r k) f a h e = e
closes-IsStable q n (pktmbuf_free m) f a h e = e
closes-IsStable q n c f a h e = absurd f

up-IgnoresLaunches : (q : ℕ) (on : Bool) → IgnoresLaunches (λ h. device q h ≡ running 1 1 on)
unfolding device
up-IgnoresLaunches q on task l r h e = e

closes-IgnoresLaunches : (q n : ℕ) → IgnoresLaunches (λ h. closes q h ≡ n)
unfolding closes
closes-IgnoresLaunches q n task l r h e = e

module _ (env : Env) (lib : Numbers) (machine : Machine) where
  open machine use {ports, workers}

  pub wait_workers-keeps :
      (P : History → Type 0)
      → IsStable P
      → (ls : List ℕ) → Preserves P (wait_workers env lib machine ls)
  unfolding wait_workers
  wait_workers-keeps P stable [] = done-keeps env P stable (pos 0)
  wait_workers-keeps P stable (l ∷ ls) =
      bind-Preserves P (call env (system (wait_lcore l))) _
        (call-keeps env P stable (system (wait_lcore l)) tt)
        (λ ret.
          if-Preserves P (is_neg ret) (pure (negsuc 0)) (wait_workers env lib machine ls)
            (done-keeps env P stable (negsuc 0)) (wait_workers-keeps P stable ls))

  -- How main ends after a setup that was left in `h₁`, with the final mask.
  abbrev pub Finishes : Bool → ℕ → History → ℤ → History → Type 0
  Finishes on mask h₁ r h' = (ret : ℤ) × Closed on (enabled_ports mask ports) ret h₁ r h'

  -- What runs between the setup and the close of the ports, when it keeps the ports as they are.
  pub finish_lem :
      (on : Bool) (mask : ℕ) (h₁ h₂ h' : History) (r : ℤ)
      → ((P : History → Type 0) → IsStable P → IgnoresLaunches P → P h₁ → P h₂)
      → Distinct ports
      → All (λ p. device p h₁ ≡ running 1 1 on) (enabled_ports mask ports)
      → shutdown env lib machine mask h₂ ≡ next r h'
      → Finishes on mask h₁ r h'
  unfolding shutdown
  finish_lem on mask h₁ h₂ h' r keeps d up e =
      let (ret, h₃, waited, closing) =
        >>=-inv (wait_workers env lib machine workers) (close_ports env lib machine mask ports) h₂ r
          h' e in
      let still =
        All-map (λ p. device p h₁ ≡ running 1 1 on) (λ p. device p h₃ ≡ running 1 1 on)
          (enabled_ports mask ports)
          (λ p c.
            wait_workers-keeps (λ h. device p h ≡ running 1 1 on) (up-IsStable p on) workers h₂ h₃
              ret
              (keeps (λ h. device p h ≡ running 1 1 on) (up-IsStable p on) (up-IgnoresLaunches p on)
                c)
              waited)
          up in
      let (down, counts, code) =
        close_ports_lem env lib machine on mask ports ret r h₃ h' d still closing in
      (
        ret,
        (
          down,
          (λ q.
              counts q
              ∙ ap (λ k. k + times q (enabled_ports mask ports))
                  (wait_workers-keeps (λ h. closes q h ≡ closes q h₁)
                    (closes-IsStable q (closes q h₁)) workers h₂ h₃ ret
                    (keeps (λ h. closes q h ≡ closes q h₁) (closes-IsStable q (closes q h₁))
                      (closes-IgnoresLaunches q (closes q h₁)) refl)
                    waited)),
          code,
        ),
      )

  launch-keeps :
      (P : History → Type 0) → IsStable P → (c : Lcore) (n : ℕ) → Preserves P (launch env c n)
  unfolding launch
  launch-keeps P stable c n =
      bind-Preserves P (call env (system mp_remote_launch)) _
        (call-keeps env P stable (system mp_remote_launch) tt)
        (λ ret.
          when-Preserves P (not (is_nonzero ret)) (l2fwd_main_loop env c no_contexts n)
            (l2fwd_main_loop-keeps env P stable c no_contexts n))

  -- If main returns, from distinct closed ports, then its options were accepted, and each port that the
  -- final mask enables was brought up in order, was up until main stopped it, and was closed once in all,
  -- after that: stopped by then, unless the stop failed. No call on it came out of order. After the setup
  -- no other port is closed. The result is what the stop of the last port answered, so the error of an
  -- lcore is lost.
  pub main-Closed :
      (tsc_hz main_lcore n : ℕ) (opts : List Opt) (h h' : History) (r : ℤ)
      → Distinct ports
      → All (IsClosed h) ports
      → main env lib machine tsc_hz main_lcore opts n h ≡ next r h'
      → (o : Options) × (s : Setup) × (h₁ : History) × (l2fwd_parse_args lib initial_options opts
          ≡ some o)
        × (setup env lib machine opts h ≡ next s h₁)
        × Finishes o.promiscuous_on s.enabled_port_mask h₁ r h'
  unfolding main
  main-Closed tsc_hz main_lcore n opts h h' r d c e =
      let (s, h₁, set, e₁) =
        >>=-inv (setup env lib machine opts)
          (λ s.
            launch env (lcore_of s tsc_hz main_lcore) n
            >> shutdown env lib machine s.enabled_port_mask)
          h r h' e in
      let (u, h₂, launched, e₂) =
        >>=-inv (launch env (lcore_of s tsc_hz main_lcore) n)
          (λ _. shutdown env lib machine s.enabled_port_mask) h₁ r h' e₁ in
      let (o, parsed, up) = setup-running env lib machine opts s h h₁ d c set in
      (
        o,
        s,
        h₁,
        parsed,
        set,
        finish_lem o.promiscuous_on s.enabled_port_mask h₁ h₂ h' r
            (λ P stable ignores p.
              launch-keeps P stable (lcore_of s tsc_hz main_lcore) n h₁ h₂ u p launched)
            d up e₂,
      )
