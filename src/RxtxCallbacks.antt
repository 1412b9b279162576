-- ===== src/RxtxCallbacks.antt =====
-- Dpdk-lab/rxtx_callbacks/main.c: the forwarder of basic_fwd with two callbacks that measure how
-- long frames stay. The callbacks are in Latency.
pub mod Latency
pub mod Start
pub mod Forwarding
mod Tests
use Prim.Native.Nat.{bit_xor}
use pwd_writeup.Base.{
  ℕ, ◌+◌, ◌-◌, ◌*◌, ◌%◌, ◌^◌, ℤ, pos, negsuc, List, [], ◌∷◌, Bool, true, false, not, range,
  if◌then◌else◌, ◌==◌, ltb, ◌||◌, ◌&&◌, bit_and, bit_or, Option, none, some, is_neg, length,
}
use pwd_writeup.Dpdk.{
  Env, History, EthConf, DevInfo, event, system, setting, eal_init, dev_count_avail, pool_create,
  dynfield_register, rx_timestamp_register, store_ticks_mult, read_tsc, read_clock, delay_ms,
  add_rx_callback, add_tx_callback, is_valid_port, dev_info_get, dev_configure, adjust_nb_desc,
  rx_queue_setup, tx_queue_setup, dev_start, macaddr_get, promiscuous_enable, rx_burst, tx_burst,
}
use pwd_writeup.Dpdk.Monad.{
  M, ◌>>=◌, ◌>>◌, call, read, return, pure, when, each, repeat, return_if_neg, return_if_nonzero,
  rte_exit,
}
use pwd_writeup.Dpdk.Ownership.{free_rest}
use pwd_writeup.Dpdk.Ports.{start_ports}

abbrev ring_size : ℕ
ring_size = 1024

-- The global `ticks_per_cycle_mult`, 0 until it is stored.
unfoldable pub ticks_per_cycle_mult : History → ℕ
ticks_per_cycle_mult [] = 0
ticks_per_cycle_mult (event (system (store_ticks_mult n)) u ∷ h) = n
ticks_per_cycle_mult (event c r ∷ h) = ticks_per_cycle_mult h

-- The `case` labels of main: `-t`, or what getopt_long does not know.
pub data Opt : Type 0 where
  hw_timestamps unknown : Opt

-- The loop over getopt_long's answers; `none` is the early `return -1`.
unfoldable pub parse_options : Bool → List Opt → Option Bool
parse_options on [] = some on
parse_options on (hw_timestamps ∷ rest) = parse_options true rest
parse_options on (unknown ∷ rest) = none

-- `calibrate` is the arithmetic on doubles of port_init: from cycles and ticks to the multiplier.
module _ (env : Env) (calibrate : ℕ → ℕ → ℕ) (hw_timestamping : Bool) where
  open env use {mbuf_fast_free, rx_timestamp}

  unfoldable pub calibrate_clock : ℕ → M (Unit {0})
  calibrate_clock port = do
    mult ← read ticks_per_cycle_mult
    when (hw_timestamping && (mult == 0)) do
      cycles_base ← call env (system read_tsc)
      ticks_base ← call env (setting port read_clock)
      call env (system delay_ms)
      cycles ← call env (system read_tsc)
      ticks ← call env (setting port read_clock)
      let spent = (cycles + 2 ^ 64 - cycles_base) % 2 ^ 64
      let t_freq = (ticks + 2 ^ 64 - ticks_base) % 2 ^ 64
      call env (system (store_ticks_mult (calibrate spent t_freq)))

  -- What `-t` adds to the receive offloads, or an error.
  unfoldable pub timestamp_offloads : ℕ → M ℕ
  timestamp_offloads rx_offload_capa =
      if not hw_timestamping
      then pure 0
      else if bit_and rx_offload_capa rx_timestamp == 0
      then return (negsuc 0)
      else do
        (offset, errno) ← call env (system rx_timestamp_register)
        when (is_neg offset) (return (negsuc errno))
        pure (bit_or 0 rx_timestamp)

  -- port_init up to the timestamp field: what the device offers, and the receive offloads.
  pub inspect : ℕ → M (DevInfo × ℕ)
  unfolding timestamp_offloads
  inspect port = do
    valid ← call env (is_valid_port port)
    when (not valid) (return (negsuc 0))
    (ret, dev_info) ← call env (dev_info_get port)
    return_if_nonzero ret
    rx_offloads ← timestamp_offloads dev_info.rx_offload_capa
    pure (dev_info, rx_offloads)

  -- From the configuration of the device to its start.
  pub bring_up : ℕ → DevInfo → ℕ → M (Unit {0})
  bring_up port dev_info rx_offloads = do
    let tx_offloads : ℕ =
        if bit_and dev_info.tx_offload_capa mbuf_fast_free == 0 then 0 else bit_or 0 mbuf_fast_free
    let conf : EthConf = record { rx_offloads = rx_offloads; tx_offloads = tx_offloads }
    ret ← call env (dev_configure port 1 1 conf)
    return_if_nonzero ret
    (ret, nb_rxd, nb_txd) ← call env (adjust_nb_desc port ring_size ring_size)
    return_if_nonzero ret
    each (range 1) λ q. do
      ret ← call env (rx_queue_setup port q nb_rxd (some dev_info.default_rxconf))
      return_if_neg ret
    let txconf = record dev_info.default_txconf { offloads = tx_offloads }
    each (range 1) λ q. do ret ← call env (tx_queue_setup port q nb_txd txconf); return_if_neg ret
    ret ← call env (dev_start port)
    return_if_neg ret

  -- The rest of port_init.
  pub finish : ℕ → M ℤ
  finish port = do
    (ret, addr) ← call env (macaddr_get port)
    return_if_nonzero ret
    ret ← call env (promiscuous_enable port)
    return_if_nonzero ret
    call env (setting port add_rx_callback)
    call env (setting port add_tx_callback)
    pure (pos 0)

  pub port_init : ℕ → M ℤ
  port_init port = do
    (dev_info, rx_offloads) ← inspect port
    bring_up port dev_info rx_offloads
    calibrate_clock port
    finish port

module _ (env : Env) where
  -- One port's turn in the loop of lcore_main.
  unfoldable pub forward_port : ℕ → M (Unit {0})
  unfolding free_rest
  forward_port port = do
    bufs ← call env (rx_burst port 0 32)
    let nb_rx = length bufs
    when (not (nb_rx == 0))
        do nb_tx ← call env (tx_burst (bit_xor port 1) 0 bufs); free_rest env bufs nb_tx

  unfoldable pub lcore_main : List ℕ → ℕ → M (Unit {0})
  unfolding forward_port
  lcore_main ports rounds = repeat rounds (each ports forward_port)

  -- main between the options and the start of the ports.
  pub prepare : M (Unit {0})
  prepare = do
    nb_ports ← call env (system dev_count_avail)
    when (ltb nb_ports 2 || not (bit_and nb_ports 1 == 0)) rte_exit
    created ← call env (system (pool_create (8191 * nb_ports) 250))
    when (not created) rte_exit
    offset ← call env (system dynfield_register)
    when (is_neg offset) rte_exit

  -- main after the options.
  pub run_with : (ℕ → ℕ → ℕ) → Option Bool → List ℕ → ℕ → M (Unit {0})
  run_with calibrate none ports rounds = return (negsuc 0)
  run_with calibrate (some hw) ports rounds = do
    prepare
    start_ports (port_init env calibrate hw) ports
    lcore_main ports rounds

  pub main : (ℕ → ℕ → ℕ) → List Opt → List ℕ → ℕ → M (Unit {0})
  unfolding run_with
  main calibrate opts ports rounds = do
    ret ← call env (system eal_init)
    when (is_neg ret) rte_exit
    run_with calibrate (parse_options false opts) ports rounds
