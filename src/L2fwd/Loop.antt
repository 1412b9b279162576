-- ===== src/L2fwd/Loop.antt =====
-- Dpdk-lab/multi_thread/l2fwd-single-thread/main.c, l2fwd_main_loop. The flags and cycle counts that
-- only measure the speed for a print are left out.
pub mod Received
pub mod Balance
pub mod Sending
pub mod Keeping
use Prim.Native.Nat.{zero, suc}
use pwd_writeup.Base.{
  ℕ, ◌+◌, ◌-◌, ◌*◌, ◌/◌, ◌%◌, ◌^◌, List, [], ◌∷◌, Bool, true, false, not, ◌==◌, ltb, leb, ◌&&◌,
  if◌then◌else◌, length,
}
use pwd_writeup.Dpdk.{
  Mbuf, Env, system, force_quit, read_tsc, get_main_lcore, print_stats, count_rx, count_tx,
  rx_burst, tx_buffer_flush, pktmbuf_free,
}
use pwd_writeup.Dpdk.Monad.{M, ◌>>=◌, ◌>>◌, call, pure, when, each}
use pwd_writeup.L2fwd.Crypto.{
  Contexts, mark_ether_type, init_crypto_contexts, real_encrypt, real_decrypt,
}
use pwd_writeup.L2fwd.Frame.{Tables, l2fwd_simple_forward}

abbrev pub max_pkt_burst : ℕ
max_pkt_burst = 32

-- What the loop of one lcore does not change: `rx_port_list` up to `n_rx_port`, `drain_tsc`, the
-- `timer_period` in cycles and the lcore's number.
pub record Lcore : Type 0 where
  pub lcore_id : ℕ
  pub rx_port_list : List ℕ
  pub drain_tsc : ℕ
  pub timer_period : ℕ
  pub tables : Tables

pub record Timers : Type 0 where
  pub prev_tsc : ℕ
  pub timer_tsc : ℕ

-- `(rte_get_tsc_hz() + US_PER_S - 1) / US_PER_S * BURST_TX_DRAIN_US`
abbrev pub drain_cycles : ℕ → ℕ
drain_cycles hz = (hz + 1_000_000 - 1) / 1_000_000 * 100

module _ (env : Env) (c : Lcore) where
  open c use {lcore_id, rx_port_list, drain_tsc, timer_period, tables}

  -- The turn of one receive port in the drain.
  unfoldable pub drain_port : ℕ → M (Unit {0})
  drain_port rx_port = do
    let portid = tables.dst_ports rx_port
    sent ← call env (tx_buffer_flush portid)
    when (not (sent == 0)) (call env (system (count_tx portid sent)))

  -- On the main core the statistics are printed and the timer starts again.
  unfoldable pub expire : ℕ → M ℕ
  expire timer_tsc = do
    main_lcore ← call env (system get_main_lcore)
    let printed : M ℕ = do call env (system print_stats); pure 0
    if lcore_id == main_lcore then printed else pure timer_tsc

  -- The statistics timer, `diff_tsc` cycles later.
  unfoldable pub advance_timer : ℕ → ℕ → M ℕ
  unfolding expire
  advance_timer diff_tsc timer_tsc =
      let advanced = (timer_tsc + diff_tsc) % 2 ^ 64 in
      let enabled = if leb timer_period advanced then expire advanced else pure advanced in
      if ltb 0 timer_period then enabled else pure timer_tsc

  -- The flush of the buffers, made when more than `drain_tsc` cycles have gone by.
  unfoldable pub drain_all : ℕ → ℕ → Timers → M Timers
  drain_all cur_tsc diff_tsc t = do
    each rx_port_list drain_port
    timer_tsc ← advance_timer diff_tsc t.timer_tsc
    pure (record { prev_tsc = cur_tsc; timer_tsc = timer_tsc })

  unfoldable pub drain : Timers → M Timers
  drain t = do
    cur_tsc ← call env (system read_tsc)
    let diff_tsc = (cur_tsc + 2 ^ 64 - t.prev_tsc) % 2 ^ 64
    if ltb drain_tsc diff_tsc then drain_all cur_tsc diff_tsc t else pure t

  -- A frame that carries the mark is decrypted and dropped; any other is encrypted and forwarded.
  unfoldable pub decrypt_and_drop : Mbuf → M (Unit {0})
  decrypt_and_drop m = do m' ← real_decrypt env m; call env (pktmbuf_free m')

  unfoldable pub encrypt_and_forward : ℕ → Mbuf → M (Unit {0})
  encrypt_and_forward portid m = do
    m' ← real_encrypt env m
    l2fwd_simple_forward env tables m' portid

  unfoldable pub handle : ℕ → Mbuf → M (Unit {0})
  handle portid m =
      if m.ether_type == mark_ether_type then decrypt_and_drop m else encrypt_and_forward portid m

  unfoldable pub receive : ℕ → M (Unit {0})
  receive portid = do
    pkts_burst ← call env (rx_burst portid 0 max_pkt_burst)
    let nb_rx = length pkts_burst
    when (not (nb_rx == 0))
        do call env (system (count_rx portid nb_rx)); each pkts_burst (handle portid)

  -- `while (!force_quit)`, for at most so many rounds.
  unfoldable pub rounds : ℕ → Timers → M (Unit {0})
  rounds zero t = pure tt
  rounds (suc n) t = do
    quit ← call env (system force_quit)
    let round : M (Unit {0}) = do t' ← drain t; each rx_port_list receive; rounds n t'
    if quit then pure tt else round

  unfoldable pub l2fwd_main_loop : Contexts → ℕ → M (Unit {0})
  l2fwd_main_loop contexts n = do
    contexts' ← init_crypto_contexts env contexts
    when (not (length rx_port_list == 0)) (rounds n (record { prev_tsc = 0; timer_tsc = 0 }))
