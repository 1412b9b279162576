-- ===== src/L2fwdMulti/Loop/Keeping.antt =====
-- Dpdk-lab/multi_thread/l2fwd-multi-thread/main.c, l2fwd_main_loop: it makes no call that sets a port
-- up, stops or closes it.
use Prim.Native.Nat.{zero, suc}
use pwd_writeup.Base.{ℕ, ◌-◌, List, [], ◌∷◌, map, not, ◌==◌, ltb, length, drop, range}
use pwd_writeup.Dpdk.{
  Mbuf, Env, History, system, rx_burst, tx_burst, ring_enqueue_burst, ring_dequeue_burst,
  pktmbuf_free, force_quit, count_rx, count_tx, count_rx_dropped, count_marked,
}
use pwd_writeup.Dpdk.Monad.{
  call, pure, each, when, Preserves, bind-Preserves, seq-Preserves, each-Preserves, if-Preserves,
  when-Preserves,
}
use pwd_writeup.Dpdk.Ownership.{free_rest, free_all}
use pwd_writeup.L2fwd.Args.{max_ethports}
use pwd_writeup.L2fwd.Crypto.{mark_ether_type}
use pwd_writeup.L2fwd.Loop.{Lcore, Timers, max_pkt_burst, drain}
use pwd_writeup.L2fwd.Loop.Keeping.{IsStable, call-keeps, done-keeps, drain-keeps}
use pwd_writeup.L2fwdMulti.Worker.{rx_to_crypto_array, crypto_to_tx_array, ring_burst}
use pwd_writeup.L2fwdMulti.Sender.{
  Groups, no_frames, fits, append_to, group, check_mark, send_row, send_port, send_groups,
  send_back,
}
use pwd_writeup.L2fwdMulti.Loop.{arrived_on, take_in, rounds, l2fwd_main_loop}

module _ (env : Env) (P : History → Type 0) (stable : IsStable P) where
  free_rest-keeps : (ms : List Mbuf) (n : ℕ) → Preserves P (free_rest env ms n)
  unfolding free_rest free_all
  free_rest-keeps ms n = when-Preserves P (ltb n (length ms)) _ (
      each-Preserves P (drop n ms) (λ m. call env (pktmbuf_free m))
        (λ m. call-keeps env P stable (pktmbuf_free m) tt))

  group-keeps : (ms : List Mbuf) (g : Groups) → Preserves P (group env ms g)
  unfolding group
  group-keeps [] g = done-keeps env P stable g
  group-keeps (m ∷ ms) g = if-Preserves P (fits g m) _ _ (group-keeps ms (append_to g m)) (
      bind-Preserves P (call env (pktmbuf_free m)) (λ _. group env ms g)
        (call-keeps env P stable (pktmbuf_free m) tt) (λ _. group-keeps ms g))

  send_port-keeps : (g : Groups) (dst : ℕ) → Preserves P (send_port env g dst)
  unfolding send_port check_mark send_row
  send_port-keeps g dst = when-Preserves P (ltb 0 (length (g dst))) _ (
      seq-Preserves P (each (g dst) (check_mark env)) (send_row env dst (g dst))
        (each-Preserves P (g dst) (check_mark env) (λ m.
          when-Preserves P (m.ether_type == mark_ether_type) _
            (call-keeps env P stable (system count_marked) tt)))
        (bind-Preserves P (call env (tx_burst dst 0 (g dst))) _
          (call-keeps env P stable (tx_burst dst 0 (g dst)) tt)
          (λ sent.
            seq-Preserves P (call env (system (count_tx dst sent))) (free_rest env (g dst) sent)
              (call-keeps env P stable (system (count_tx dst sent)) tt)
              (free_rest-keeps (g dst) sent))))

  send_back-keeps : (ring : ℕ) → Preserves P (send_back env ring)
  unfolding send_back send_groups
  send_back-keeps ring =
      bind-Preserves P (call env (ring_dequeue_burst ring ring_burst)) _
        (call-keeps env P stable (ring_dequeue_burst ring ring_burst) tt)
        (λ ms. when-Preserves P (ltb 0 (length ms)) _ (
          bind-Preserves P (group env ms no_frames) (send_groups env) (group-keeps ms no_frames)
            (λ g. each-Preserves P (range max_ethports) (send_port env g) (send_port-keeps g))))

  module _ (c : Lcore) where
    take_in-keeps : (p : ℕ) → Preserves P (take_in env c p)
    unfolding take_in
    take_in-keeps p =
        bind-Preserves P (call env (rx_burst p 0 max_pkt_burst)) _
          (call-keeps env P stable (rx_burst p 0 max_pkt_burst) tt)
          (λ burst. when-Preserves P (not (length burst == 0)) _ (
            seq-Preserves P (call env (system (count_rx p (length burst)))) _
              (call-keeps env P stable (system (count_rx p (length burst))) tt)
              (bind-Preserves P
                (call env (ring_enqueue_burst rx_to_crypto_array (map (arrived_on p) burst))) _
                (call-keeps env P stable
                  (ring_enqueue_burst rx_to_crypto_array (map (arrived_on p) burst)) tt)
                (λ n.
                  seq-Preserves P
                    (when (ltb n (length burst))
                      (call env (system (count_rx_dropped (length burst - n)))))
                    (free_rest env (map (arrived_on p) burst) n)
                    (when-Preserves P (ltb n (length burst)) _
                      (call-keeps env P stable (system (count_rx_dropped (length burst - n))) tt))
                    (free_rest-keeps (map (arrived_on p) burst) n)))))

    rounds-keeps : (n : ℕ) (t : Timers) → Preserves P (rounds env c n t)
    unfolding rounds
    rounds-keeps zero t = done-keeps env P stable tt
    rounds-keeps (suc n) t =
        bind-Preserves P (call env (system force_quit)) _
          (call-keeps env P stable (system force_quit) tt)
          (λ quit. if-Preserves P quit (pure tt) _ (done-keeps env P stable tt) (
            bind-Preserves P (drain env c t) _ (drain-keeps env P stable c t) (λ t'.
              seq-Preserves P (each c.rx_port_list (take_in env c)) _
                (each-Preserves P c.rx_port_list (take_in env c) take_in-keeps)
                (seq-Preserves P (send_back env crypto_to_tx_array) (rounds env c n t')
                  (send_back-keeps crypto_to_tx_array) (rounds-keeps n t')))))

    pub main_loop-keeps : (n : ℕ) → Preserves P (l2fwd_main_loop env c n)
    unfolding l2fwd_main_loop
    main_loop-keeps n =
        when-Preserves P (not (length c.rx_port_list == 0)) _
          (rounds-keeps n (record { prev_tsc = 0; timer_tsc = 0 }))
