-- ===== src/L2fwd/LinkStatus.antt =====
-- Dpdk-lab/multi_thread/l2fwd-single-thread/main.c, check_all_ports_link_status. `setting p link_get`
-- answers the return code of rte_eth_link_get_nowait and whether the link is up.
pub mod Time
use Prim.Native.Nat.{zero, suc}
use pwd_writeup.Base.{
  ℕ, ◌+◌, ◌-◌, ℤ, pos, is_neg, List, [], ◌∷◌, Bool, true, false, not, ◌||◌, ◌&&◌, ◌==◌, leb,
  if◌then◌else◌,
}
use pwd_writeup.Base.Bits.{is_clear}
use pwd_writeup.Dpdk.{Env, system, setting, force_quit, delay_ms, link_get}
use pwd_writeup.Dpdk.Monad.{M, ◌>>=◌, ◌>>◌, call, pure, when, return}

-- MAX_CHECK_TIME
abbrev pub max_check_time : ℕ
max_check_time = 90

module _ (env : Env) (port_mask : ℕ) where
  -- The loop over the ports, from a value of `all_ports_up` to the next.
  unfoldable pub check_ports : Bool → List ℕ → Bool → M Bool
  check_ports print_flag [] all_ports_up = pure all_ports_up
  check_ports print_flag (portid ∷ rest) all_ports_up = do
    quit ← call env (system force_quit)
    when quit (return (pos 0))
    let asked : M Bool = do
      (ret, up) ← call env (setting portid link_get)
      if is_neg ret
          then check_ports print_flag rest false
          else (if not print_flag && not up
              then pure false
              else check_ports print_flag rest all_ports_up)
    if is_clear port_mask portid then check_ports print_flag rest all_ports_up else asked

  -- The rounds from `count` on, for at most so many of them.
  unfoldable pub check_rounds : ℕ → List ℕ → ℕ → Bool → M ℤ
  unfolding check_ports
  check_rounds zero ports count print_flag = pure (pos 0)
  check_rounds (suc n) ports count print_flag = do
    quit ← call env (system force_quit)
    when quit (return (pos 0))
    all_ports_up ← check_ports print_flag ports true
    when print_flag (return (pos 0))
    when (not all_ports_up) (call env (system delay_ms))
    check_rounds n ports (count + 1) (all_ports_up || (count == max_check_time - 1))

  -- `for (count = 0; count <= MAX_CHECK_TIME; count++)`
  unfoldable pub check_all_ports_link_status : List ℕ → M ℤ
  check_all_ports_link_status ports = check_rounds (max_check_time + 1) ports 0 false
