-- ===== src/BasicFwd.antt =====
-- Dpdk-lab/basic_fwd/main.c: frames go from each port to the port paired with it. The ports that
-- RTE_ETH_FOREACH_DEV visits are a list, and the endless loop of lcore_main is as many rounds of it
-- as a caller asks for.
pub mod Init
pub mod Forward
mod Tests
use Prim.Native.Nat.{bit_xor}
use pwd_writeup.Base.{
  ℕ, ◌*◌, ◌%◌, ◌^◌, ℤ, pos, negsuc, List, not, range, if◌then◌else◌, ◌==◌, ltb, ◌||◌, bit_and,
  bit_or, none, is_neg, length, drop,
}
use pwd_writeup.Dpdk.{
  Env, system, eal_init, dev_count_avail, pool_create, is_valid_port, dev_info_get, dev_configure,
  adjust_nb_desc, rx_queue_setup, tx_queue_setup, dev_start, macaddr_get, promiscuous_enable,
  rx_burst, tx_burst,
}
use pwd_writeup.Dpdk.Monad.{
  M, ◌>>=◌, ◌>>◌, call, return, pure, when, each, repeat, return_if_neg, return_if_nonzero,
  rte_exit,
}
use pwd_writeup.Dpdk.Ownership.{free_rest}
use pwd_writeup.Dpdk.Ports.{start_ports}

abbrev ring_size : ℕ
ring_size = 1024

abbrev num_mbufs : ℕ
num_mbufs = 8191

abbrev mbuf_cache_size : ℕ
mbuf_cache_size = 250

abbrev burst_size : ℕ
burst_size = 32

module _ (env : Env) where
  open env use {mbuf_fast_free}

  pub port_init : ℕ → M ℤ
  port_init port = do
    valid ← call env (is_valid_port port)
    when (not valid) (return (negsuc 0))
    (ret, dev_info) ← call env (dev_info_get port)
    return_if_nonzero ret
    let offloads : ℕ =
        if bit_and dev_info.tx_offload_capa mbuf_fast_free == 0 then 0 else bit_or 0 mbuf_fast_free
    ret ← call env (dev_configure port 1 1 (record { rx_offloads = 0; tx_offloads = offloads }))
    return_if_nonzero ret
    (ret, nb_rxd, nb_txd) ← call env (adjust_nb_desc port ring_size ring_size)
    return_if_nonzero ret
    each (range 1) λ q. do ret ← call env (rx_queue_setup port q nb_rxd none); return_if_neg ret
    let txconf = record dev_info.default_txconf { offloads = offloads }
    each (range 1) λ q. do ret ← call env (tx_queue_setup port q nb_txd txconf); return_if_neg ret
    ret ← call env (dev_start port)
    return_if_neg ret
    (ret, addr) ← call env (macaddr_get port)
    return_if_nonzero ret
    ret ← call env (promiscuous_enable port)
    return_if_nonzero ret
    pure (pos 0)

  -- One port's turn in the loop of lcore_main.
  unfoldable pub forward_port : ℕ → M (Unit {0})
  unfolding free_rest
  forward_port port = do
    bufs ← call env (rx_burst port 0 burst_size)
    let nb_rx = length bufs
    when (not (nb_rx == 0))
        do nb_tx ← call env (tx_burst (bit_xor port 1) 0 bufs); free_rest env bufs nb_tx

  unfoldable pub lcore_main : List ℕ → ℕ → M (Unit {0})
  unfolding forward_port
  lcore_main ports rounds = repeat rounds (each ports forward_port)

  -- main up to the start of the ports. `NUM_MBUFS * nb_ports` is unsigned.
  pub prepare : M (Unit {0})
  prepare = do
    ret ← call env (system eal_init)
    when (is_neg ret) rte_exit
    nb_ports ← call env (system dev_count_avail)
    when (ltb nb_ports 2 || not (bit_and nb_ports 1 == 0)) rte_exit
    created ← call env (system (pool_create (num_mbufs * nb_ports % 2 ^ 32) mbuf_cache_size))
    when (not created) rte_exit

  pub main : List ℕ → ℕ → M (Unit {0})
  main ports rounds = do prepare; start_ports port_init ports; lcore_main ports rounds
