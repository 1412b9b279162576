-- ===== src/FlowFiltering/Start.antt =====
-- Dpdk-lab/flow_filtering/main.c: the start of the port, the loop that receives, and main.
-- rte_argparse_parse is a parameter, as is the union of the six transmit offloads.
pub mod Started
pub mod Receiving
use Prim.Native.Nat.{zero, suc}
use pwd_writeup.Base.{
  ℕ, ℤ, pos, negsuc, is_neg, is_nonzero, List, [], ◌∷◌, Bool, true, false, not, ◌==◌, ◌&&◌, bit_and,
  if◌then◌else◌, Option, none, some, range, length,
}
use pwd_writeup.Flow.{errno_is_enotsup}
use pwd_writeup.Dpdk.{
  Env, EthConf, DevInfo, QueueConf, system, setting, eal_init, dev_count_avail, pool_create,
  delay_ms, force_quit, link_get, flow_configure, flow_isolate, flow_flush, dev_info_get,
  dev_configure, rx_queue_setup, tx_queue_setup, dev_start, dev_stop, dev_close, promiscuous_enable,
  rx_burst, pktmbuf_free, flow,
}
use pwd_writeup.Dpdk.Monad.{M, ◌>>=◌, ◌>>◌, call, pure, when, each, rte_exit}
use pwd_writeup.FlowFiltering.Snippets.{Modes, Snippet}
use pwd_writeup.FlowFiltering.Skeleton.{generate_flow_skeleton}

-- `nr_queues` and MAX_REPEAT_TIMES
abbrev pub nr_queues : ℕ
nr_queues = 5

abbrev pub max_repeat_times : ℕ
max_repeat_times = 90

abbrev pub exit_if_neg : ℤ → M (Unit {0})
exit_if_neg r = when (is_neg r) rte_exit

abbrev pub exit_if_nonzero : ℤ → M (Unit {0})
exit_if_nonzero r = when (is_nonzero r) rte_exit

module _ (env : Env) (port_id : ℕ) where
  -- The `do` loop with `rep_cnt` turns left; the answer is `link_get_err` and whether the link is up.
  unfoldable pub poll_link : ℕ → ℤ × Bool → M (ℤ × Bool)
  poll_link zero last = pure last
  poll_link (suc rep_cnt) last = do
    (link_get_err, up) ← call env (setting port_id link_get)
    let again : M (ℤ × Bool) = do call env (system delay_ms); poll_link rep_cnt (link_get_err, up)
    if not (is_nonzero link_get_err) && up then pure (link_get_err, up) else again

  -- -EINVAL, and a cleared link, which is down.
  unfoldable pub assert_link_status : M (Unit {0})
  assert_link_status = do
    (link_get_err, up) ← poll_link max_repeat_times (negsuc 21, false)
    exit_if_neg link_get_err
    when (not up) rte_exit

  unfoldable pub configure_port_template : M (Unit {0})
  configure_port_template = do ret ← call env (setting port_id flow_configure); exit_if_nonzero ret

  unfoldable pub setup_rx : QueueConf → List ℕ → M (Unit {0})
  setup_rx rxq_conf is =
      each is λ i. do ret ← call env (rx_queue_setup port_id i 512 (some rxq_conf)); exit_if_neg ret

  unfoldable pub setup_tx : QueueConf → List ℕ → M (Unit {0})
  setup_tx txq_conf is =
      each is λ i. do ret ← call env (tx_queue_setup port_id i 512 txq_conf); exit_if_neg ret

  unfoldable pub set_modes : Modes → M (Unit {0})
  set_modes modes = do
    let promiscuous : M (Unit {0}) = do
      ret ← call env (promiscuous_enable port_id)
      exit_if_nonzero ret
    let isolated : M (Unit {0}) = do
      ret ← call env (setting port_id flow_isolate)
      exit_if_nonzero ret
    if modes.promiscuous then promiscuous else when modes.isolation isolated

  -- From the device's capabilities to the queues.
  unfoldable pub configure : ℕ → M (Unit {0})
  unfolding setup_rx setup_tx
  configure tx_offloads = do
    (ret, dev_info) ← call env (dev_info_get port_id)
    exit_if_nonzero ret
    let port_conf : EthConf = record {
      rx_offloads = 0;
      tx_offloads = bit_and tx_offloads dev_info.tx_offload_capa;
    }
    ret ← call env (dev_configure port_id nr_queues nr_queues port_conf)
    exit_if_neg ret
    setup_rx (record dev_info.default_rxconf { offloads = 0 }) (range nr_queues)
    setup_tx (record dev_info.default_txconf { offloads = port_conf.tx_offloads }) (range nr_queues)

  -- The port is stopped for the template API, and started again.
  unfoldable pub restart : M (Unit {0})
  unfolding configure_port_template
  restart = do
    ret ← call env (dev_stop port_id)
    exit_if_neg ret
    configure_port_template
    ret ← call env (dev_start port_id)
    exit_if_neg ret

  unfoldable pub init_port : ℕ → Modes → Bool → M (Unit {0})
  unfolding configure set_modes assert_link_status restart
  init_port tx_offloads modes use_template_api = do
    configure tx_offloads
    set_modes modes
    ret ← call env (dev_start port_id)
    exit_if_neg ret
    assert_link_status
    when use_template_api restart

  -- One queue: each frame is printed and freed.
  unfoldable pub receive : ℕ → M (Unit {0})
  receive i = do
    mbufs ← call env (rx_burst port_id i 32)
    when (not (length mbufs == 0)) (each mbufs λ m. call env (pktmbuf_free m))

  -- `while(!force_quit)`, for at most so many rounds.
  unfoldable pub rounds : ℕ → M (Unit {0})
  unfolding receive
  rounds zero = pure tt
  rounds (suc n) = do
    quit ← call env (system force_quit)
    let round : M (Unit {0}) = do each (range nr_queues) receive; rounds n
    if quit then pure tt else round

  unfoldable pub main_loop : ℕ → M ℤ
  unfolding rounds
  main_loop n = do
    rounds n
    call env (setting port_id flow_flush)
    ret ← call env (dev_stop port_id)
    closing ← call env (dev_close port_id)
    pure ret

  -- After the rule: without one main goes on only if the device does not support rules.
  unfoldable pub check_flow : Option ℕ → M (Unit {0})
  check_flow (some f) = pure tt
  check_flow none = do
    unsupported ← call env (flow port_id errno_is_enotsup)
    exit_unless unsupported
    where
      exit_unless : Option ℕ → M (Unit {0})
      exit_unless (some u) = pure tt
      exit_unless none = rte_exit

-- From the EAL to the mbuf pool, with the answer of rte_argparse_parse.
unfoldable pub prepare : Env → ℤ → M (Unit {0})
prepare env parsed = do
  ret ← call env (system eal_init)
  exit_if_neg ret
  exit_if_neg parsed
  nr_ports ← call env (system dev_count_avail)
  when (nr_ports == 0) rte_exit
  created ← call env (system (pool_create 4096 128))
  when (not created) rte_exit

-- main, on port 0, with the `use_template_api` that the options leave.
unfoldable pub main : Env → Snippet → Modes → ℕ → ℤ × Bool → ℕ → M ℤ
unfolding prepare init_port main_loop generate_flow_skeleton check_flow
main env snippet modes tx_offloads (parsed, use_template_api) n = do
  prepare env parsed
  let modes' = snippet.init modes
  init_port env 0 tx_offloads modes' use_template_api
  rule ← generate_flow_skeleton env 0 snippet modes'.attr use_template_api
  check_flow env 0 rule
  main_loop env 0 n
