-- ===== src/L2fwdMulti/Launch/Counts/Kept.antt =====
-- Dpdk-lab/multi_thread/l2fwd-multi-thread/main.c, main: after the launches no lcore is launched.
use pwd_writeup.Base.{ℕ, ℤ, List, [], ◌∷◌, ◌≡◌, subst, ap, arith}
use pwd_writeup.Base.Bits.{is_clear}
use pwd_writeup.Dpdk.{
  Env, History, event, system, encrypt_ctx, decrypt_ctx, rx_burst, tx_burst, tx_buffer,
  tx_buffer_flush, ring_enqueue_burst, ring_dequeue_burst, pktmbuf_free, remote_launch, dev_stop,
  dev_close,
}
use pwd_writeup.Dpdk.Monad.{final, Preserves, bind-Preserves, if-Preserves}
use pwd_writeup.L2fwd.Args.{Numbers}
use pwd_writeup.L2fwd.Loop.Keeping.{IsStable}
use pwd_writeup.L2fwd.Start.{Machine, close_ports, shutdown, wait_workers}
use pwd_writeup.L2fwd.Main.Closed.{wait_workers-keeps}
use pwd_writeup.L2fwdMulti.Launch.Counts.{
  total, as_crypto, as_forwarding, crypto_launches, forwarding_launches,
}

-- Lcore `l` was launched so often, as a worker and to forward.
abbrev pub AreLaunches : ℕ → ℕ → ℕ → History → Type 0
AreLaunches l n m h = (crypto_launches l h ≡ n) × (forwarding_launches l h ≡ m)

module _ (l n m : ℕ) where
  pub launches-IsStable : IsStable (AreLaunches l n m)
  unfolding crypto_launches forwarding_launches total as_crypto as_forwarding
  launches-IsStable (system (remote_launch t k)) f a h e = absurd f
  launches-IsStable (system c) f a h e = (omega (arith, e.0), omega (arith, e.1))
  launches-IsStable (encrypt_ctx c) f a h e = (omega (arith, e.0), omega (arith, e.1))
  launches-IsStable (decrypt_ctx c) f a h e = (omega (arith, e.0), omega (arith, e.1))
  launches-IsStable (rx_burst p i k) f a h e = (omega (arith, e.0), omega (arith, e.1))
  launches-IsStable (tx_burst p i ms) f a h e = (omega (arith, e.0), omega (arith, e.1))
  launches-IsStable (tx_buffer p k) f a h e = (omega (arith, e.0), omega (arith, e.1))
  launches-IsStable (tx_buffer_flush p) f a h e = (omega (arith, e.0), omega (arith, e.1))
  launches-IsStable (ring_enqueue_burst r ms) f a h e = (omega (arith, e.0), omega (arith, e.1))
  launches-IsStable (ring_dequeue_burst r k) f a h e = (omega (arith, e.0), omega (arith, e.1))
  launches-IsStable (pktmbuf_free k) f a h e = (omega (arith, e.0), omega (arith, e.1))
  launches-IsStable c f a h e = absurd f

  module _ (env : Env) (lib : Numbers) (machine : Machine) where
    abbrev P : History → Type 0
    P = AreLaunches l n m

    down_keeps :
        (p : ℕ) (x y : ℤ) (h : History) → P h → P (event (dev_close p) y ∷ event (dev_stop p) x ∷ h)
    unfolding crypto_launches forwarding_launches total as_crypto as_forwarding
    down_keeps p x y h e = (omega (arith, e.0), omega (arith, e.1))

    close_ports_keep :
        (mask : ℕ) (ps : List ℕ) (ret : ℤ) → Preserves P (close_ports env lib machine mask ps ret)
    unfolding close_ports
    close_ports_keep mask [] ret = λ h h' r e run. subst P (ap final run) e
    close_ports_keep mask (p ∷ ps) ret =
        if-Preserves P (is_clear mask p) (close_ports env lib machine mask ps ret) _
          (close_ports_keep mask ps ret)
          (λ h h' r e run.
            close_ports_keep mask ps (env.answer h (dev_stop p)) _ h' r (down_keeps p _ _ h e) run)

    pub shutdown_keeps : (mask : ℕ) → Preserves P (shutdown env lib machine mask)
    unfolding shutdown
    shutdown_keeps mask =
        bind-Preserves P (wait_workers env lib machine machine.workers) _
          (wait_workers-keeps env lib machine P launches-IsStable machine.workers)
          (λ ret. close_ports_keep mask machine.ports ret)
