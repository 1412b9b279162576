-- ===== src/L2fwd/Loop/Keeping.antt =====
-- Dpdk-lab/multi_thread/l2fwd-single-thread/main.c, l2fwd_main_loop: it makes no call that sets a port
-- up, stops or closes it, nor launches a single lcore. So it keeps what such calls alone can change.
use Prim.Native.Nat.{zero, suc}
use pwd_writeup.Base.{
  ℕ, ℤ, ◌+◌, ◌-◌, ◌%◌, ◌^◌, ◌∷◌, ◌++◌, ap, subst, not, ◌==◌, ltb, leb, length, Bool, true, false,
}
use pwd_writeup.Dpdk.{
  ctx_new, ctx_init, ctx_reset, ctx_update, ctx_final, Mbuf, Env, Call, Answer, event, History,
  system, Task, remote_launch, encrypt_ctx, decrypt_ctx, rx_burst, tx_burst, tx_buffer,
  tx_buffer_flush, ring_enqueue_burst, ring_dequeue_burst, pktmbuf_free, force_quit, read_tsc,
  get_main_lcore, print_stats, count_rx, count_tx,
}
use pwd_writeup.Dpdk.Monad.{
  final, call, pure, each, when, rte_exit, Preserves, ◌>>◌, bind-Preserves, seq-Preserves,
  each-Preserves, if-Preserves, when-Preserves,
}
use pwd_writeup.L2fwd.Crypto.{
  Contexts, mark_ether_type, init_crypto_contexts, init_encrypt, init_decrypt, real_encrypt,
  real_decrypt, write_back,
}
use pwd_writeup.L2fwd.Frame.{Tables, l2fwd_simple_forward, outgoing}
use pwd_writeup.L2fwd.Loop.{
  Lcore, Timers, drain_port, expire, advance_timer, drain_all, drain, decrypt_and_drop,
  encrypt_and_forward, handle, receive, rounds, l2fwd_main_loop, max_pkt_burst,
}

-- The calls of the loops.
abbrev pub IsForwarding : Call → Type 0
IsForwarding (system (remote_launch task l)) = ⊥
IsForwarding (system c) = Unit
IsForwarding (encrypt_ctx c) = Unit
IsForwarding (decrypt_ctx c) = Unit
IsForwarding (rx_burst p q n) = Unit
IsForwarding (tx_burst p q ms) = Unit
IsForwarding (tx_buffer p m) = Unit
IsForwarding (tx_buffer_flush p) = Unit
IsForwarding (ring_enqueue_burst r ms) = Unit
IsForwarding (ring_dequeue_burst r n) = Unit
IsForwarding (pktmbuf_free m) = Unit
IsForwarding c = ⊥

-- What none of them changes.
abbrev pub IsStable : (History → Type 0) → Type 0
IsStable P = (c : Call) → IsForwarding c → (a : Answer c) (h : History) → P h → P (event c a ∷ h)

-- What the launch of a single lcore does not change.
abbrev pub IgnoresLaunches : (History → Type 0) → Type 0
IgnoresLaunches P =
    (task : Task) (l : ℕ) (r : ℤ) (h : History)
    → P h
    → P (event (system (remote_launch task l)) r ∷ h)

module _ (env : Env) (P : History → Type 0) (stable : IsStable P) where
  pub call-keeps : (c : Call) → IsForwarding c → Preserves P (call env c)
  call-keeps c f h h' a p e = subst P (ap final e) (stable c f (env.answer h c) h p)

  pub done-keeps : {A : Type 0} (a : A) → Preserves P (pure a)
  done-keeps a h h' b p e = subst P (ap final e) p

  pub exit_if-keeps : (b : Bool) → Preserves P (when b rte_exit)
  exit_if-keeps b = when-Preserves P b rte_exit (λ h h' u p e. cc)

  init_encrypt-keeps : (b : Bool) → Preserves P (init_encrypt env b)
  unfolding init_encrypt
  init_encrypt-keeps true = done-keeps tt
  init_encrypt-keeps false =
      bind-Preserves P (call env (encrypt_ctx ctx_new)) _ (call-keeps (encrypt_ctx ctx_new) tt)
        (λ made. seq-Preserves P (when (not made) rte_exit) _ (exit_if-keeps (not made)) (
          bind-Preserves P (call env (encrypt_ctx ctx_init)) _
            (call-keeps (encrypt_ctx ctx_init) tt) (λ ready. exit_if-keeps (not ready))))

  init_decrypt-keeps : (b : Bool) → Preserves P (init_decrypt env b)
  unfolding init_decrypt
  init_decrypt-keeps true = done-keeps tt
  init_decrypt-keeps false =
      bind-Preserves P (call env (decrypt_ctx ctx_new)) _ (call-keeps (decrypt_ctx ctx_new) tt)
        (λ made. seq-Preserves P (when (not made) rte_exit) _ (exit_if-keeps (not made)) (
          bind-Preserves P (call env (decrypt_ctx ctx_init)) _
            (call-keeps (decrypt_ctx ctx_init) tt) (λ ready. exit_if-keeps (not ready))))

  init_crypto_contexts-keeps :
      (contexts : Contexts) → Preserves P (init_crypto_contexts env contexts)
  unfolding init_crypto_contexts
  init_crypto_contexts-keeps contexts =
      bind-Preserves P (init_encrypt env contexts.has_encrypt) _
        (init_encrypt-keeps contexts.has_encrypt)
        (λ _.
          bind-Preserves P (init_decrypt env contexts.has_decrypt) _
            (init_decrypt-keeps contexts.has_decrypt) (λ _. done-keeps _))

  real_encrypt-keeps : (m : Mbuf) → Preserves P (real_encrypt env m)
  unfolding real_encrypt
  real_encrypt-keeps m =
      bind-Preserves P (call env (encrypt_ctx ctx_reset)) _ (call-keeps (encrypt_ctx ctx_reset) tt)
        (λ reset. bind-Preserves P (when (not reset) rte_exit) _ (exit_if-keeps (not reset)) (λ _.
          bind-Preserves P (call env (encrypt_ctx (ctx_update m.payload))) _
            (call-keeps (encrypt_ctx (ctx_update m.payload)) tt)
            (λ out₁.
              bind-Preserves P (call env (encrypt_ctx ctx_final)) _
                (call-keeps (encrypt_ctx ctx_final) tt)
                (λ out₂. done-keeps (write_back m (out₁ ++ out₂) mark_ether_type)))))

  real_decrypt-keeps : (m : Mbuf) → Preserves P (real_decrypt env m)
  unfolding real_decrypt
  real_decrypt-keeps m =
      bind-Preserves P (call env (decrypt_ctx ctx_reset)) _ (call-keeps (decrypt_ctx ctx_reset) tt)
        (λ reset. bind-Preserves P (when (not reset) rte_exit) _ (exit_if-keeps (not reset)) (λ _.
          bind-Preserves P (call env (decrypt_ctx (ctx_update m.payload))) _
            (call-keeps (decrypt_ctx (ctx_update m.payload)) tt)
            (λ out₁.
              bind-Preserves P (call env (decrypt_ctx ctx_final)) _
                (call-keeps (decrypt_ctx ctx_final) tt)
                (λ out₂. done-keeps (write_back m (out₁ ++ out₂) 0x0800)))))

  -- A counter that is raised if something was sent.
  pub count_if-keeps :
      (b : Bool) (p n : ℕ) → Preserves P (when b (call env (system (count_tx p n))))
  count_if-keeps b p n =
      when-Preserves P b (call env (system (count_tx p n))) (call-keeps (system (count_tx p n)) tt)

  l2fwd_simple_forward-keeps :
      (t : Tables) (m : Mbuf) (p : ℕ) → Preserves P (l2fwd_simple_forward env t m p)
  unfolding l2fwd_simple_forward
  l2fwd_simple_forward-keeps t m p =
      bind-Preserves P (call env (tx_buffer (t.dst_ports p) (outgoing t m (t.dst_ports p)))) _
        (call-keeps (tx_buffer (t.dst_ports p) (outgoing t m (t.dst_ports p))) tt)
        (λ sent. count_if-keeps (not (sent == 0)) (t.dst_ports p) sent)

  module _ (c : Lcore) where
    drain_port-keeps : (p : ℕ) → Preserves P (drain_port env c p)
    unfolding drain_port
    drain_port-keeps p =
        bind-Preserves P (call env (tx_buffer_flush (c.tables.dst_ports p))) _
          (call-keeps (tx_buffer_flush (c.tables.dst_ports p)) tt)
          (λ sent. count_if-keeps (not (sent == 0)) (c.tables.dst_ports p) sent)

    expire-keeps : (t : ℕ) → Preserves P (expire env c t)
    unfolding expire
    expire-keeps t =
        bind-Preserves P (call env (system get_main_lcore)) _
          (call-keeps (system get_main_lcore) tt)
          (λ main.
            if-Preserves P (c.lcore_id == main) (call env (system print_stats) >> pure {A = ℕ} 0)
              (pure t)
              (bind-Preserves P (call env (system print_stats)) (λ _. pure {A = ℕ} 0)
                (call-keeps (system print_stats) tt) (λ _. done-keeps 0))
              (done-keeps t))

    advance_timer-keeps : (d t : ℕ) → Preserves P (advance_timer env c d t)
    unfolding advance_timer
    advance_timer-keeps d t =
        if-Preserves P (ltb 0 c.timer_period) _ (pure t)
          (if-Preserves P (leb c.timer_period ((t + d) % 2 ^ 64)) _ _
            (expire-keeps ((t + d) % 2 ^ 64)) (done-keeps ((t + d) % 2 ^ 64)))
          (done-keeps t)

    drain_all-keeps : (cur d : ℕ) (t : Timers) → Preserves P (drain_all env c cur d t)
    unfolding drain_all
    drain_all-keeps cur d t =
        bind-Preserves P (each c.rx_port_list (drain_port env c)) _
          (each-Preserves P c.rx_port_list (drain_port env c) drain_port-keeps)
          (λ _.
            bind-Preserves P (advance_timer env c d t.timer_tsc) _
              (advance_timer-keeps d t.timer_tsc) (λ timer_tsc. done-keeps _))

    pub drain-keeps : (t : Timers) → Preserves P (drain env c t)
    unfolding drain
    drain-keeps t =
        bind-Preserves P (call env (system read_tsc)) _ (call-keeps (system read_tsc) tt) (λ cur.
          if-Preserves P (ltb c.drain_tsc ((cur + 2 ^ 64 - t.prev_tsc) % 2 ^ 64)) _ (pure t)
            (drain_all-keeps cur ((cur + 2 ^ 64 - t.prev_tsc) % 2 ^ 64) t) (done-keeps t))

    handle-keeps : (p : ℕ) (m : Mbuf) → Preserves P (handle env c p m)
    unfolding handle decrypt_and_drop encrypt_and_forward
    handle-keeps p m =
        if-Preserves P (m.ether_type == mark_ether_type) _ _
          (bind-Preserves P (real_decrypt env m) _ (real_decrypt-keeps m)
            (λ m'. call-keeps (pktmbuf_free m') tt))
          (bind-Preserves P (real_encrypt env m) _ (real_encrypt-keeps m)
            (λ m'. l2fwd_simple_forward-keeps c.tables m' p))

    receive-keeps : (p : ℕ) → Preserves P (receive env c p)
    unfolding receive
    receive-keeps p =
        bind-Preserves P (call env (rx_burst p 0 max_pkt_burst)) _
          (call-keeps (rx_burst p 0 max_pkt_burst) tt)
          (λ burst. when-Preserves P (not (length burst == 0)) _ (
            seq-Preserves P (call env (system (count_rx p (length burst)))) _
              (call-keeps (system (count_rx p (length burst))) tt)
              (each-Preserves P burst (handle env c p) (handle-keeps p))))

    rounds-keeps : (n : ℕ) (t : Timers) → Preserves P (rounds env c n t)
    unfolding rounds
    rounds-keeps zero t = done-keeps tt
    rounds-keeps (suc n) t =
        bind-Preserves P (call env (system force_quit)) _ (call-keeps (system force_quit) tt)
          (λ quit. if-Preserves P quit (pure tt) _ (done-keeps tt) (
            bind-Preserves P (drain env c t) _ (drain-keeps t) (λ t'.
              seq-Preserves P (each c.rx_port_list (receive env c)) (rounds env c n t')
                (each-Preserves P c.rx_port_list (receive env c) receive-keeps)
                (rounds-keeps n t'))))

    pub l2fwd_main_loop-keeps :
        (contexts : Contexts) (n : ℕ) → Preserves P (l2fwd_main_loop env c contexts n)
    unfolding l2fwd_main_loop
    l2fwd_main_loop-keeps contexts n =
        bind-Preserves P (init_crypto_contexts env contexts) _ (init_crypto_contexts-keeps contexts)
          (λ contexts'.
            when-Preserves P (not (length c.rx_port_list == 0)) _
              (rounds-keeps n (record { prev_tsc = 0; timer_tsc = 0 })))
