-- ===== src/L2fwdMulti/Main.antt =====
-- Dpdk-lab/multi_thread/l2fwd-multi-thread/main.c, main from its first line to its last, as the main
-- lcore runs it. Up to the link check, and from the wait on, it has the text of the single-threaded
-- program.
pub mod Closed
use pwd_writeup.Base.{ℕ, ℤ, List}
use pwd_writeup.Dpdk.{Env}
use pwd_writeup.Dpdk.Monad.{M, ◌>>=◌}
use pwd_writeup.L2fwd.Args.{Numbers, Opt}
use pwd_writeup.L2fwd.Main.{lcore_of}
use pwd_writeup.L2fwd.Start.{Machine, setup}
use pwd_writeup.L2fwdMulti.Loop.{l2fwd_main_loop}
use pwd_writeup.L2fwdMulti.Launch.{visits, run_lcores}

-- `next_lcore l` is rte_get_next_lcore(l, 1, 0); the main lcore runs at most `n` rounds.
unfoldable pub main : Env → Numbers → Machine → (ℕ → ℕ) → ℕ → ℕ → List Opt → ℕ → M ℤ
unfolding lcore_of
main env lib machine next_lcore tsc_hz main_core opts n = do
  s ← setup env lib machine opts
  run_lcores env lib machine s.assignment.rx_port_list
      (visits next_lcore machine.max_lcore machine.max_lcore (next_lcore main_core)) main_core
      (l2fwd_main_loop env (lcore_of s tsc_hz main_core) n) s.enabled_port_mask
