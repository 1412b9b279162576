-- ===== src/L2fwdMulti/Loop.antt =====
-- Dpdk-lab/multi_thread/l2fwd-multi-thread/main.c, l2fwd_main_loop: the lcores that receive and send.
-- The drain of the buffers is the same text as in the single-threaded program. The loop passes the
-- arrays `rx_to_crypto` and `crypto_to_tx` themselves where the calls want one ring, and adds to the
-- array `ring_rx_to_crypto_dropped` as a whole, which C does not allow. So does the model: the calls
-- get the addresses of the arrays, what DPDK makes of them is left to its answers, and the sum is
-- recorded for no worker. The flags and cycle counts that only measure the speed for a print are left
-- out.
pub mod Balance
pub mod Keeping
use Prim.Native.Nat.{zero, suc}
use pwd_writeup.Base.{
  ℕ, ◌-◌, List, [], ◌∷◌, map, Bool, true, false, not, ◌==◌, ltb, if◌then◌else◌, length,
}
use pwd_writeup.Dpdk.{
  Mbuf, Env, system, force_quit, count_rx, count_rx_dropped, rx_burst, ring_enqueue_burst,
}
use pwd_writeup.Dpdk.Monad.{M, ◌>>=◌, ◌>>◌, call, pure, when, each}
use pwd_writeup.Dpdk.Ownership.{free_rest}
use pwd_writeup.L2fwd.Loop.{Lcore, Timers, drain, max_pkt_burst}
use pwd_writeup.L2fwdMulti.Worker.{rx_to_crypto_array, crypto_to_tx_array}
use pwd_writeup.L2fwdMulti.Sender.{send_back}

-- `pkts_burst[j]->port = portid`
unfoldable pub arrived_on : ℕ → Mbuf → Mbuf
arrived_on portid m = record m { port = portid }

module _ (env : Env) (c : Lcore) where
  open c use {rx_port_list}

  -- The turn of one receive port: the burst goes to the cipher, and what the ring has no room for is
  -- counted and freed.
  unfoldable pub take_in : ℕ → M (Unit {0})
  unfolding arrived_on free_rest
  take_in portid = do
    burst ← call env (rx_burst portid 0 max_pkt_burst)
    when (not (length burst == 0)) do
      call env (system (count_rx portid (length burst)))
      let pkts_burst = map (arrived_on portid) burst
      enqueued ← call env (ring_enqueue_burst rx_to_crypto_array pkts_burst)
      when (ltb enqueued (length burst))
          (call env (system (count_rx_dropped (length burst - enqueued))))
      free_rest env pkts_burst enqueued

  -- `while (!force_quit)`, for at most so many rounds.
  unfoldable pub rounds : ℕ → Timers → M (Unit {0})
  rounds zero t = pure tt
  rounds (suc n) t = do
    quit ← call env (system force_quit)
    let round : M (Unit {0}) = do
      t' ← drain env c t
      each rx_port_list take_in
      send_back env crypto_to_tx_array
      rounds n t'
    if quit then pure tt else round

  unfoldable pub l2fwd_main_loop : ℕ → M (Unit {0})
  l2fwd_main_loop n =
      when (not (length rx_port_list == 0)) (rounds n (record { prev_tsc = 0; timer_tsc = 0 }))
