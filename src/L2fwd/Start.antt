-- ===== src/L2fwd/Start.antt =====
-- Dpdk-lab/multi_thread/l2fwd-single-thread/main.c, main: from the arguments to the link check, and
-- from the end of the lcores to the return. Between the two the lcores run l2fwd_main_loop (Loop).
-- Ports are below 32. The reset of port_statistics is left out: nothing was counted before it.
pub mod PortsUp
pub mod Running
pub mod Closing
use pwd_writeup.Base.{
  ℕ, ◌+◌, ◌-◌, ◌*◌, ◌%◌, ◌^◌, ℤ, pos, negsuc, is_neg, is_nonzero, List, [], ◌∷◌, Bool, true, false,
  not, ◌==◌, if◌then◌else◌, bit_and, bit_or, Option, none, some,
}
use Prim.Native.Nat.{max}
use pwd_writeup.Base.Bits.{is_clear}
use pwd_writeup.Dpdk.{
  Env, EthConf, DevInfo, system, setting, eal_init, dev_count_avail, pool_create, remote_launch,
  wait_lcore, is_valid_port, dev_info_get, dev_configure, adjust_nb_desc, macaddr_get,
  rx_queue_setup, tx_queue_setup, tx_buffer_alloc, tx_buffer_init, set_err_callback, set_ptypes,
  dev_start, dev_stop, dev_close, promiscuous_enable,
}
use pwd_writeup.Dpdk.Monad.{M, ◌>>=◌, ◌>>◌, call, read, pure, when, rte_exit, result}
use pwd_writeup.L2fwd.Args.{Options, Numbers, Opt, initial_options, l2fwd_parse_args}
use pwd_writeup.L2fwd.Frame.{Tables}
use pwd_writeup.L2fwd.LinkStatus.{check_all_ports_link_status}
use pwd_writeup.L2fwd.Lcores.{Assignment, unassigned, assign}
use pwd_writeup.L2fwd.Ports.{update, check_port_pair_config, destinations}

-- What the machine offers: its ports, RTE_MAX_LCORE, rte_lcore_is_enabled, the workers and the clock.
pub record Machine : Type 0 where
  pub ports : List ℕ
  pub max_lcore : ℕ
  pub is_enabled : ℕ → Bool
  pub workers : List ℕ
  pub timer_hz : ℕ

-- The variables that the loop over the ports changes; `nb_rxd` and `nb_txd` go from port to port.
pub record Inits : Type 0 where
  pub nb_rxd : ℕ
  pub nb_txd : ℕ
  pub ports_eth_addr : ℕ → List ℕ
  pub nb_ports_available : ℕ

abbrev pub initial_inits : Inits
initial_inits = record {
  nb_rxd = 1024;
  nb_txd = 1024;
  ports_eth_addr = λ p. [];
  nb_ports_available = 0;
}

-- What main leaves for the lcores.
pub record Setup : Type 0 where
  pub tables : Tables
  pub assignment : Assignment
  pub timer_period : ℕ
  pub enabled_port_mask : ℕ

abbrev exit_if_neg : ℤ → M (Unit {0})
exit_if_neg r = when (is_neg r) rte_exit

module _ (env : Env) where
  open env use {mbuf_fast_free}

  -- `local_port_conf` after the test of the device's capabilities.
  unfoldable pub local_port_conf : DevInfo → EthConf
  local_port_conf dev_info = record {
    rx_offloads = 0;
    tx_offloads =
        if bit_and dev_info.tx_offload_capa mbuf_fast_free == 0 then 0 else bit_or 0 mbuf_fast_free;
  }

  unfoldable pub configure_port : ℕ → Inits → M (DevInfo × Inits)
  unfolding local_port_conf update
  configure_port portid s = do
    (ret, dev_info) ← call env (dev_info_get portid)
    when (is_nonzero ret) rte_exit
    ret ← call env (dev_configure portid 1 1 (local_port_conf dev_info))
    exit_if_neg ret
    (ret, nb_rxd, nb_txd) ← call env (adjust_nb_desc portid s.nb_rxd s.nb_txd)
    exit_if_neg ret
    (ret, addr) ← call env (macaddr_get portid)
    exit_if_neg ret
    pure (
      dev_info,
      record {
        nb_rxd = nb_rxd;
        nb_txd = nb_txd;
        ports_eth_addr = λ p. if portid == p then addr else s.ports_eth_addr p;
        nb_ports_available = s.nb_ports_available + 1;
      },
    )

  unfoldable pub setup_queues : ℕ → DevInfo → Inits → M (Unit {0})
  unfolding local_port_conf
  setup_queues portid dev_info s = do
    let conf = local_port_conf dev_info
    let rxq_conf = record dev_info.default_rxconf { offloads = conf.rx_offloads }
    ret ← call env (rx_queue_setup portid 0 s.nb_rxd (some rxq_conf))
    exit_if_neg ret
    let txq_conf = record dev_info.default_txconf { offloads = conf.tx_offloads }
    ret ← call env (tx_queue_setup portid 0 s.nb_txd txq_conf)
    exit_if_neg ret

  unfoldable pub start_port : Bool → ℕ → M (Unit {0})
  start_port promiscuous_on portid = do
    allocated ← call env (setting portid tx_buffer_alloc)
    when (not allocated) rte_exit
    call env (setting portid tx_buffer_init)
    ret ← call env (setting portid set_err_callback)
    exit_if_neg ret
    ret ← call env (setting portid set_ptypes)
    ret ← call env (dev_start portid)
    exit_if_neg ret
    when promiscuous_on
        do ret ← call env (promiscuous_enable portid); when (is_nonzero ret) rte_exit

  -- One port that is enabled.
  unfoldable pub init_port : Bool → ℕ → Inits → M Inits
  init_port promiscuous_on portid s = do
    (dev_info, s') ← configure_port portid s
    setup_queues portid dev_info s'
    start_port promiscuous_on portid
    pure s'

  -- The loop over the ports.
  unfoldable pub init_ports : Bool → ℕ → List ℕ → Inits → M Inits
  init_ports promiscuous_on mask [] s = pure s
  init_ports promiscuous_on mask (portid ∷ rest) s =
      if is_clear mask portid
      then init_ports promiscuous_on mask rest s
      else (init_port promiscuous_on portid s >>= λ s'. init_ports promiscuous_on mask rest s')

  unfoldable pub from_some : {A : Type 0} → Option A → M A
  from_some none = rte_exit
  from_some (some a) = pure a

  -- The mask after check_port_pair_config, if there are pairs.
  checked_mask : Options → (ℕ → Bool) → Option ℕ
  checked_mask o is_valid = checked o.port_pair_params
    where
      checked : Option (List (ℕ × ℕ)) → Option ℕ
      checked none = some o.enabled_port_mask
      checked (some pairs) = check_port_pair_config o.enabled_port_mask is_valid pairs

  module _ (lib : Numbers) (machine : Machine) where
    open machine use {ports, max_lcore, is_enabled, workers, timer_hz}

    -- From the options to the mbuf pool: the final mask and the lcores' ports.
    unfoldable pub plan : Options → M (ℕ × Assignment)
    unfolding from_some checked_mask
    plan o = do
      nb_ports ← call env (system dev_count_avail)
      when (nb_ports == 0) rte_exit
      is_valid ← read (λ h p. env.answer h (is_valid_port p))
      mask ← from_some (checked_mask o is_valid)
      when (not (bit_and mask (2 ^ 32 - 1 - (2 ^ nb_ports - 1)) == 0)) rte_exit
      assignment ←
          from_some (assign max_lcore is_enabled o.rx_queue_per_lcore mask ports unassigned)
      let nb_mbufs = max (nb_ports * (1024 + 1024 + 32 + assignment.nb_lcores * 256) % 2 ^ 32) 8192
      created ← call env (system (pool_create nb_mbufs 256))
      when (not created) rte_exit
      pure (mask, assignment)

    -- From the loop over the ports to the link check.
    unfoldable pub conclude : Options → ℕ → Assignment → Inits → M Setup
    conclude o mask assignment s = do
      when (s.nb_ports_available == 0) rte_exit
      checked ← result (check_all_ports_link_status env mask ports)
      let tables : Tables = record {
        dst_ports = destinations o.port_pair_params mask ports;
        ports_eth_addr = s.ports_eth_addr;
        mac_updating = o.mac_updating;
      }
      pure (record {
        tables = tables;
        assignment = assignment;
        timer_period = o.timer_period * timer_hz % 2 ^ 64;
        enabled_port_mask = mask;
      })

    unfoldable pub prepare : Options → M Setup
    prepare o = do
      (mask, assignment) ← plan o
      s ← init_ports o.promiscuous_on mask ports initial_inits
      conclude o mask assignment s

    unfoldable pub setup : List Opt → M Setup
    unfolding from_some
    setup opts = do
      ret ← call env (system eal_init)
      when (is_neg ret) rte_exit
      o ← from_some (l2fwd_parse_args lib initial_options opts)
      prepare o

    -- The wait for the workers, up to the first that reports an error.
    unfoldable pub wait_workers : List ℕ → M ℤ
    wait_workers [] = pure (pos 0)
    wait_workers (lcore_id ∷ rest) = do
      ret ← call env (system (wait_lcore lcore_id))
      if is_neg ret then pure (negsuc 0) else wait_workers rest

    -- The ports are stopped and closed; the answer is what the last stop returned.
    unfoldable pub close_ports : ℕ → List ℕ → ℤ → M ℤ
    close_ports mask [] ret = pure ret
    close_ports mask (portid ∷ rest) ret = do
      let closed : M ℤ = do
        ret' ← call env (dev_stop portid)
        closing ← call env (dev_close portid)
        close_ports mask rest ret'
      if is_clear mask portid then close_ports mask rest ret else closed

    -- main after the launch of the lcores.
    unfoldable pub shutdown : ℕ → M ℤ
    unfolding wait_workers close_ports
    shutdown mask = do ret ← wait_workers workers; close_ports mask ports ret
