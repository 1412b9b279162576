-- ===== src/RxtxCallbacks/Forwarding.antt =====
-- Dpdk-lab/rxtx_callbacks/main.c, lcore_main: the same loop as in Dpdk-lab/basic_fwd/main.c.
use pwd_writeup.Base.{ℕ, List, ◌≡◌}
use pwd_writeup.Dpdk.{Env, History}
use pwd_writeup.Dpdk.Monad.{next}
use pwd_writeup.Dpdk.Ownership.{Balances}
use pwd_writeup.BasicFwd
use pwd_writeup.RxtxCallbacks.{lcore_main}

module _ (env : Env) where
  -- lcore_main runs for any number of rounds without stopping, and of the frames that it receives
  -- each is taken by a port or freed, exactly once, however many of a burst the device takes.
  pub lcore_main_balance :
      (ports : List ℕ) (rounds a : ℕ) (h : History)
      → (h' : History) × (lcore_main env ports rounds h ≡ next tt h') × Balances a 0 h h'
  unfolding lcore_main BasicFwd.lcore_main BasicFwd.forward_port
  lcore_main_balance ports rounds a h = BasicFwd.Forward.lcore_main-Balances env ports rounds a h
