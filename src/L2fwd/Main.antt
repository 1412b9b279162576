-- ===== src/L2fwd/Main.antt =====
-- Dpdk-lab/multi_thread/l2fwd-single-thread/main.c, main from its first line to its last, as the main
-- lcore runs it: the other lcores run l2fwd_main_loop on ports of their own.
pub mod Closed
use pwd_writeup.Base.{ℕ, ℤ, List, Bool, false, not, is_nonzero}
use pwd_writeup.Dpdk.{Env, system, mp_remote_launch}
use pwd_writeup.Dpdk.Monad.{M, ◌>>=◌, ◌>>◌, call, when}
use pwd_writeup.L2fwd.Args.{Numbers, Opt}
use pwd_writeup.L2fwd.Crypto.{Contexts}
use pwd_writeup.L2fwd.Loop.{Lcore, drain_cycles, l2fwd_main_loop}
use pwd_writeup.L2fwd.Start.{Machine, Setup, setup, shutdown}

-- A thread starts without cipher contexts.
abbrev pub no_contexts : Contexts
no_contexts = record { has_encrypt = false; has_decrypt = false }

-- What l2fwd_main_loop finds on an lcore after the setup; `tsc_hz` is rte_get_tsc_hz().
unfoldable pub lcore_of : Setup → ℕ → ℕ → Lcore
lcore_of s tsc_hz lcore_id = record {
  lcore_id = lcore_id;
  rx_port_list = s.assignment.rx_port_list lcore_id;
  drain_tsc = drain_cycles tsc_hz;
  timer_period = s.timer_period;
  tables = s.tables;
}

-- l2fwd_launch_one_lcore on the main lcore, where the launch on all lcores went well.
unfoldable pub launch : Env → Lcore → ℕ → M (Unit {0})
launch env c n = do
  ret ← call env (system mp_remote_launch)
  when (not (is_nonzero ret)) (l2fwd_main_loop env c no_contexts n)

-- At most `n` rounds are run.
unfoldable pub main : Env → Numbers → Machine → ℕ → ℕ → List Opt → ℕ → M ℤ
unfolding lcore_of
main env lib machine tsc_hz main_lcore opts n = do
  s ← setup env lib machine opts
  launch env (lcore_of s tsc_hz main_lcore) n
  shutdown env lib machine s.enabled_port_mask
