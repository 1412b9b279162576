-- ===== src/L2fwdMulti/Worker/Marked.antt =====
-- Dpdk-lab/multi_thread/l2fwd-multi-thread/main.c, crypto_loop: what a worker puts into its second ring.
use Prim.Native.Nat.{zero, suc}
use pwd_writeup.Base.{
  ℕ, ◌+◌, List, [], ◌∷◌, ◌++◌, ◌≡◌, ◌%◌, ◌^◌, refl, Bool, ◌-◌, true, false, not, Bool-cases, inl,
  inr, ◌==◌, ltb, length, All,
}
use pwd_writeup.Dpdk.{
  encrypt_ctx, decrypt_ctx, ctx_reset, ctx_free, Mbuf, Env, Event, event, tx_burst, tx_buffer,
  ring_dequeue_burst, ring_enqueue_burst, system, force_quit, count_tx_dropped, delay_us, pause,
  ctx_new, ctx_init,
}
use pwd_writeup.Dpdk.Monad.{M, call, pure, final, when, rte_exit}
use pwd_writeup.Dpdk.Ownership.{free_rest}
use pwd_writeup.Dpdk.Rely
use pwd_writeup.L2fwd.Crypto.{
  Contexts, mark_ether_type, real_encrypt, init_encrypt, init_decrypt, real_decrypt, write_back,
  init_crypto_contexts,
}
use pwd_writeup.L2fwdMulti.Worker.{
  decrypt_frame, encrypt_frame, handle_frame, handle_frames, give_back, idle, sleep, wait, work,
  turns, crypto_loop, rx_to_crypto, crypto_to_tx, ring_burst,
}

-- A frame on its way to worker `w` has its receive port, one of `Polled`; on its way back it has the
-- mark, and the destination of such a port.
module _ (dst_ports : ℕ → ℕ) (Polled : ℕ → Type 0) (w : ℕ) where
  abbrev pub IsIncoming : Mbuf → Type 0
  IsIncoming m = Polled m.port

  abbrev pub IsOutgoing : Mbuf → Type 0
  IsOutgoing m =
      (m.ether_type ≡ mark_ether_type) × ((p : ℕ) × Polled p × (m.port ≡ dst_ports p % 2 ^ 16))

  -- The frames that a ring gives out are incoming ones.
  abbrev pub Relies : Event → Type 0
  Relies (event (ring_dequeue_burst r n) ms) = All IsIncoming ms
  Relies (event c a) = Unit

  -- Those that are put into a ring are outgoing ones and the ring is the second one, and nothing is sent
  -- on a port.
  abbrev pub Guarantees : Event → Type 0
  Guarantees (event (ring_enqueue_burst r ms) n) = (r ≡ crypto_to_tx w) × All IsOutgoing ms
  Guarantees (event (tx_burst p q ms) n) = ⊥
  Guarantees (event (tx_buffer p m) n) = ⊥
  Guarantees (event c a) = Unit

All-append : (P : Mbuf → Type 0) (ms ns : List Mbuf) → All P ms → All P ns → All P (ms ++ ns)
All-append P [] ns p q = q
All-append P (m ∷ ms) ns p q = (p.0, All-append P ms ns p.1 q)

module _ (env : Env) (dst_ports : ℕ → ℕ) (Polled : ℕ → Type 0) (w : ℕ) where
  abbrev R : Event → Type 0
  R = Relies dst_ports Polled w

  abbrev S : Event → Type 0
  S = Guarantees dst_ports Polled w

  abbrev G : {A : Type 0} → Type 0 → (A → Type 0) → M A → Type 0
  G {A} P Q m = Rely.Guards R S {A = A} P Q m

  abbrev AllOut : List Mbuf → Type 0
  AllOut ms = All (IsOutgoing dst_ports Polled w) ms

  decrypt_frame-Guards : (m : Mbuf) → G (Unit {0}) AllOut (decrypt_frame env dst_ports w m)
  unfolding decrypt_frame real_decrypt
  decrypt_frame-Guards m h r p = elim (Bool-cases (env.answer h (decrypt_ctx ctx_reset))) [
    | inl made ↦
        rw made
          ((λ _. tt, (λ _. tt, (λ _. tt, (λ _. tt, (λ _. tt, r))))), λ all. (all.1.1.1.1.1, tt))
    | inr failed ↦ rw failed (λ _. tt, r)
  ]

  encrypt_frame-Guards :
      (m : Mbuf) → G (IsIncoming dst_ports Polled w m) AllOut (encrypt_frame env dst_ports w m)
  unfolding encrypt_frame real_encrypt write_back
  encrypt_frame-Guards m h r p = elim (Bool-cases (env.answer h (encrypt_ctx ctx_reset))) [
    | inl made ↦ rw made (
      (λ _. tt, (λ _. tt, (λ _. tt, (λ _. tt, r)))),
      λ all. (all.1.1.1.1, ((refl, (m.port, p all.1.1.1.1, refl)), tt)),
    )
    | inr failed ↦ rw failed (λ _. tt, r)
  ]

  handle_frame-Guards :
      (m : Mbuf) → G (IsIncoming dst_ports Polled w m) AllOut (handle_frame env dst_ports w m)
  unfolding handle_frame
  handle_frame-Guards m =
      Rely.if-Guards R S (IsIncoming dst_ports Polled w m) AllOut (m.ether_type == mark_ether_type)
        (decrypt_frame env dst_ports w m) (encrypt_frame env dst_ports w m)
        (λ h r p. decrypt_frame-Guards m h r (λ _. tt)) (encrypt_frame-Guards m)

  handle_frames-Guards :
      (ms : List Mbuf)
      → G (All (IsIncoming dst_ports Polled w) ms) AllOut (handle_frames env dst_ports w ms)
  unfolding handle_frames
  handle_frames-Guards [] = Rely.pure-Guards R S (Unit {0}) AllOut [] (λ p. tt)
  handle_frames-Guards (m ∷ ms) =
      Rely.bind-Guards R S _ AllOut AllOut (handle_frame env dst_ports w m) _
        (λ h r p. handle_frame-Guards m h r (λ all. (p all).0))
        λ kept.
          Rely.bind-Guards R S _ AllOut AllOut (handle_frames env dst_ports w ms) _
            (λ h r p. handle_frames-Guards ms h r (λ all. (p all).0.1))
            λ rest h r p. (
              r,
              λ all.
                  (all, All-append (IsOutgoing dst_ports Polled w) kept rest (p all).0.1 (p all).1),
            )

  give_back-Guards : (ms : List Mbuf) → G (AllOut ms) (λ _. Unit {0}) (give_back env dst_ports w ms)
  unfolding give_back
  give_back-Guards ms = Rely.when-Guards R S (AllOut ms) (ltb 0 (length ms)) _ (
      Rely.bind-Guards R S (AllOut ms) (λ _. Unit {0}) (λ _. Unit {0})
        (call env (ring_enqueue_burst (crypto_to_tx w) ms)) _
        (λ h r p. ((λ all. (refl, p all.1), r), λ all. (all.1, tt)))
        λ n.
          Rely.seq-Guards R S _ (λ _. Unit {0})
            (when (ltb n (length ms)) (call env (system (count_tx_dropped w (length ms - n)))))
            (free_rest env ms n)
            (Rely.when-Guards R S _ (ltb n (length ms)) _
              (Rely.quiet-Guards R S _ env (system (count_tx_dropped w (length ms - n))) (λ _. tt)))
            (Rely.free_rest-Guards R S _ env ms n (λ m. tt)))

  idle-Guards : (i : ℕ) → G (Unit {0}) (λ _. Unit {0}) (idle env dst_ports w i)
  unfolding idle sleep wait
  idle-Guards i =
      Rely.if-Guards R S (Unit {0}) (λ _. Unit {0}) (ltb 100 (i + 1)) (sleep env dst_ports w)
        (wait env dst_ports w (i + 1))
        (Rely.seq-Guards R S {B = ℕ} _ (λ _. Unit {0}) (call env (system delay_us)) (pure 0)
          (Rely.quiet-Guards R S _ env (system delay_us) (λ _. tt))
          (Rely.pure-Guards R S {A = ℕ} _ (λ _. Unit {0}) 0 (λ p. tt)))
        (Rely.seq-Guards R S _ (λ _. Unit {0}) (call env (system pause)) (pure (i + 1))
          (Rely.quiet-Guards R S _ env (system pause) (λ _. tt))
          (Rely.pure-Guards R S _ (λ _. Unit {0}) (i + 1) (λ p. tt)))

  work-Guards : (i : ℕ) → G (Unit {0}) (λ _. Unit {0}) (work env dst_ports w i)
  unfolding work
  work-Guards i =
      Rely.bind-Guards R S (Unit {0}) (All (IsIncoming dst_ports Polled w)) (λ _. Unit {0})
        (call env (ring_dequeue_burst (rx_to_crypto w) ring_burst)) _
        (λ h r p. ((λ all. tt, r), λ all. (all.1, all.0)))
        λ pkts.
          Rely.if-Guards R S _ (λ _. Unit {0}) (length pkts == 0) (idle env dst_ports w i) _
            (λ h r p. idle-Guards i h r (λ _. tt))
            (Rely.bind-Guards R S _ AllOut (λ _. Unit {0}) (handle_frames env dst_ports w pkts) _
              (λ h r p. handle_frames-Guards pkts h r (λ all. (p all).1))
              λ out.
                Rely.seq-Guards R S _ (λ _. Unit {0}) (give_back env dst_ports w out) (pure 0)
                  (λ h r p. give_back-Guards out h r (λ all. (p all).1))
                  (Rely.pure-Guards R S {A = ℕ} _ (λ _. Unit {0}) 0 (λ p. tt)))

  turns-Guards : (n i : ℕ) → G (Unit {0}) (λ _. Unit {0}) (turns env dst_ports w n i)
  unfolding turns
  turns-Guards zero i = Rely.pure-Guards R S (Unit {0}) (λ _. Unit {0}) tt (λ p. tt)
  turns-Guards (suc n) i =
      Rely.bind-Guards R S (Unit {0}) (λ _. Unit {0}) (λ _. Unit {0}) (call env (system force_quit))
        _ (Rely.quiet-Guards R S _ env (system force_quit) (λ _. tt))
        λ quit.
          Rely.if-Guards R S _ (λ _. Unit {0}) quit (pure tt) _
            (Rely.pure-Guards R S _ (λ _. Unit {0}) tt (λ p. tt))
            (Rely.bind-Guards R S _ (λ _. Unit {0}) (λ _. Unit {0}) (work env dst_ports w i) _
              (λ h r p. work-Guards i h r (λ _. tt)) λ i' h r p. turns-Guards n i' h r (λ _. tt))

  init_encrypt-Guards : (b : Bool) → G (Unit {0}) (λ _. Unit {0}) (init_encrypt env b)
  unfolding init_encrypt
  init_encrypt-Guards true = Rely.pure-Guards R S (Unit {0}) (λ _. Unit {0}) tt (λ p. tt)
  init_encrypt-Guards false =
      Rely.bind-Guards R S _ (λ _. Unit {0}) (λ _. Unit {0}) (call env (encrypt_ctx ctx_new)) _
        (Rely.call-Guards R S _ env (encrypt_ctx ctx_new) (λ _. Unit {0}) (λ b p t. (tt, tt)))
        λ made.
          Rely.seq-Guards R S _ (λ _. Unit {0}) (when (not made) rte_exit) _
            (Rely.exit_if-Guards R S _ (not made))
            (Rely.bind-Guards R S _ (λ _. Unit {0}) (λ _. Unit {0})
              (call env (encrypt_ctx ctx_init)) _
              (Rely.call-Guards R S _ env (encrypt_ctx ctx_init) (λ _. Unit {0})
                (λ b p t. (tt, tt)))
              λ ready. Rely.exit_if-Guards R S _ (not ready))

  init_decrypt-Guards : (b : Bool) → G (Unit {0}) (λ _. Unit {0}) (init_decrypt env b)
  unfolding init_decrypt
  init_decrypt-Guards true = Rely.pure-Guards R S (Unit {0}) (λ _. Unit {0}) tt (λ p. tt)
  init_decrypt-Guards false =
      Rely.bind-Guards R S _ (λ _. Unit {0}) (λ _. Unit {0}) (call env (decrypt_ctx ctx_new)) _
        (Rely.call-Guards R S _ env (decrypt_ctx ctx_new) (λ _. Unit {0}) (λ b p t. (tt, tt)))
        λ made.
          Rely.seq-Guards R S _ (λ _. Unit {0}) (when (not made) rte_exit) _
            (Rely.exit_if-Guards R S _ (not made))
            (Rely.bind-Guards R S _ (λ _. Unit {0}) (λ _. Unit {0})
              (call env (decrypt_ctx ctx_init)) _
              (Rely.call-Guards R S _ env (decrypt_ctx ctx_init) (λ _. Unit {0})
                (λ b p t. (tt, tt)))
              λ ready. Rely.exit_if-Guards R S _ (not ready))

  init_crypto_contexts-Guards :
      (c : Contexts) → G (Unit {0}) (λ _. Unit {0}) (init_crypto_contexts env c)
  unfolding init_crypto_contexts
  init_crypto_contexts-Guards c =
      Rely.seq-Guards R S (Unit {0}) (λ _. Unit {0}) (init_encrypt env c.has_encrypt) _
        (init_encrypt-Guards c.has_encrypt)
        (Rely.seq-Guards R S (Unit {0}) (λ _. Unit {0}) (init_decrypt env c.has_decrypt) _
          (init_decrypt-Guards c.has_decrypt)
          (Rely.pure-Guards R S {A = Contexts} _ (λ _. Unit {0})
            (record { has_encrypt = true; has_decrypt = true }) (λ p. tt)))

  crypto_loop-Guards :
      (c : Contexts) (n : ℕ) → G (Unit {0}) (λ _. Unit {0}) (crypto_loop env dst_ports w c n)
  unfolding crypto_loop
  crypto_loop-Guards c n =
      Rely.bind-Guards R S (Unit {0}) (λ _. Unit {0}) (λ _. Unit {0}) (init_crypto_contexts env c) _
        (init_crypto_contexts-Guards c)
        λ c'.
          Rely.seq-Guards R S _ (λ _. Unit {0}) (turns env dst_ports w n 0) _
            (λ h r p. turns-Guards n 0 h r (λ _. tt))
            (Rely.seq-Guards R S _ (λ _. Unit {0}) _ _
              (Rely.when-Guards R S _ c'.has_encrypt _
                (Rely.quiet-Guards R S _ env (encrypt_ctx ctx_free) (λ _. tt)))
              (Rely.when-Guards R S _ c'.has_decrypt _
                (Rely.quiet-Guards R S _ env (decrypt_ctx ctx_free) (λ _. tt))))

pub crypto_loop-AreMarked :
    (env : Env) (dst_ports : ℕ → ℕ) (Polled : ℕ → Type 0) (w : ℕ) (c : Contexts) (n : ℕ)
    → All (Relies dst_ports Polled w) (final (crypto_loop env dst_ports w c n []))
    → All (Guarantees dst_ports Polled w) (final (crypto_loop env dst_ports w c n []))
crypto_loop-AreMarked env dst_ports Polled w c n =
    let R = Relies dst_ports Polled w in
    let S = Guarantees dst_ports Polled w in
    Rely.Guaranteed-All R S (final (crypto_loop env dst_ports w c n []))
      (Rely.Guards-final R S (Unit {0}) _ _ tt (crypto_loop-Guards env dst_ports Polled w c n))
