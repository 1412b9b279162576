-- ===== src/L2fwdMulti/Worker/Draining.antt =====
-- Dpdk-lab/multi_thread/l2fwd-multi-thread/main.c: crypto_loop works its ring off.
use Prim.Native.Nat.{zero, suc}
use pwd_writeup.Base.{
  ℕ, ◌+◌, ◌-◌, ◌*◌, ◌≤◌, List, [], ◌∷◌, ◌++◌, ◌≡◌, refl, sym, ap, ◌∙◌, true, false, ltb, ◌==◌,
  length, length-take, length-drop, take, drop, if◌then◌else◌, arith,
}
use pwd_writeup.Dpdk.{
  Mbuf, Env, event, History, system, force_quit, encrypt_ctx, decrypt_ctx, ctx_reset, pktmbuf_free,
  count_tx_dropped, ring_dequeue_burst, ring_enqueue_burst,
}
use pwd_writeup.Dpdk.Monad.{
  final, M, next, call, pure, Preserves, ◌>>=◌, ◌>>◌, >>=-inv, bind-Preserves, if-Preserves,
  when-Preserves, each-Preserves, seq-Preserves,
}
use pwd_writeup.Dpdk.Ownership.{free_rest, free_all}
use pwd_writeup.L2fwd.Crypto.{real_encrypt, real_decrypt, write_back}
use pwd_writeup.L2fwdMulti.Worker.{
  decrypt_frame, encrypt_frame, handle_frame, handle_frames, give_back, idle, sleep, wait, work,
  turns, ring_burst, rx_to_crypto, crypto_to_tx,
}
use pwd_writeup.L2fwdMulti.Worker.Balance.{turns_balance}
use pwd_writeup.L2fwdMulti.Worker.Counters.{dequeued_frames, coded_count, strays, turns-IsExact}

-- What a ring holds, that held `ms` at the start: frames are put in at the end and taken at the front.
unfoldable pub ring_left : ℕ → List Mbuf → History → List Mbuf
ring_left r ms [] = ms
ring_left r ms (event (ring_dequeue_burst q n) got ∷ h) =
    let left = ring_left r ms h in if r == q then drop (length got) left else left
ring_left r ms (event (ring_enqueue_burst q put) n ∷ h) =
    let left = ring_left r ms h in if r == q then left ++ take n put else left
ring_left r ms (event c a ∷ h) = ring_left r ms h

module _ (env : Env) (dst_ports : ℕ → ℕ) (w : ℕ) (ms : List Mbuf) where
  abbrev left : History → List Mbuf
  left h = ring_left (rx_to_crypto w) ms h

  -- The frames are in the ring or were taken out of it, as many as before.
  abbrev Holds : ℕ → ℕ → History → Type 0
  Holds taken waiting h = (dequeued_frames h ≡ taken) × (length (left h) ≡ waiting)

  module _ (a b : ℕ) where
    handle_frame-Holds : (m : Mbuf) → Preserves (Holds a b) (handle_frame env dst_ports w m)
    unfolding handle_frame encrypt_frame decrypt_frame real_encrypt real_decrypt write_back
        ring_left dequeued_frames
    handle_frame-Holds m h h' out p e = ground (arith, p, e)

    handle_frames-Holds :
        (ps : List Mbuf) → Preserves (Holds a b) (handle_frames env dst_ports w ps)
    unfolding handle_frames
    handle_frames-Holds [] = λ h h' out p e. ground (arith, p, e)
    handle_frames-Holds (m ∷ ps) =
        bind-Preserves (Holds a b) (handle_frame env dst_ports w m) _ (handle_frame-Holds m)
          (λ kept.
            bind-Preserves (Holds a b) (handle_frames env dst_ports w ps) _ (handle_frames-Holds ps)
              (λ rest h h' out p e. ground (arith, p, e)))

    give_back-Holds : (ps : List Mbuf) → Preserves (Holds a b) (give_back env dst_ports w ps)
    unfolding give_back free_rest free_all ring_left dequeued_frames
    give_back-Holds ps = when-Preserves (Holds a b) (ltb 0 (length ps)) _ (
        bind-Preserves (Holds a b) (call env (ring_enqueue_burst (crypto_to_tx w) ps)) _
          (λ h h' n p e. ground (arith, p, e))
          (λ n.
            seq-Preserves (Holds a b) _ _
              (when-Preserves (Holds a b) (ltb n (length ps))
                (call env (system (count_tx_dropped w (length ps - n))))
                (λ h h' u p e. ground (arith, p, e)))
              (when-Preserves (Holds a b) (ltb n (length ps)) _ (
                each-Preserves (Holds a b) (drop n ps) (λ m. call env (pktmbuf_free m))
                  (λ m h h' u p e. ground (arith, p, e))))))

    idle-Holds : (i : ℕ) → Preserves (Holds a b) (idle env dst_ports w i)
    unfolding idle sleep wait ring_left dequeued_frames
    idle-Holds i h h' i' p e = ground (arith, p, e)

  -- What the burst leaves in the ring.
  burst-left :
      (h : History) (got : List Mbuf)
      → got ≡ take ring_burst (left h)
      → let h₁ = event (ring_dequeue_burst (rx_to_crypto w) ring_burst) got ∷ h in
        (dequeued_frames h₁ + length (left h₁) ≡ dequeued_frames h + length (left h))
        × (length (left h₁) ≡ length (left h) - ring_burst)
  unfolding ring_left dequeued_frames
  burst-left h got fifo = ground (
    arith,
    ap (λ xs. length xs) fifo,
    length-take ring_burst (left h),
    length-drop (length got) (left h),
  )

  -- The look at the flag takes nothing.
  quiet :
      (h : History)
      → let h₁ = event (system force_quit) (env.answer h (system force_quit)) ∷ h in
        (dequeued_frames h₁ ≡ dequeued_frames h) × (length (left h₁) ≡ length (left h))
  unfolding ring_left dequeued_frames
  quiet h = (omega arith, refl)

  -- One turn takes up to 32 frames.
  work-left :
      (i i' : ℕ) (h h' : History)
      → env.answer h (ring_dequeue_burst (rx_to_crypto w) ring_burst) ≡ take ring_burst (left h)
      → work env dst_ports w i h ≡ next i' h'
      → (dequeued_frames h' + length (left h') ≡ dequeued_frames h + length (left h))
        × (length (left h') ≡ length (left h) - ring_burst)
  unfolding work
  work-left i i' h h' fifo e =
      let (kept, kept_left) = after h' i' (refl, refl) e in
      let (same, fewer) = burst-left h got fifo in
      (omega (arith, same, kept, kept_left), omega (arith, fewer, kept_left))
    where
      got : List Mbuf
      got = env.answer h (ring_dequeue_burst (rx_to_crypto w) ring_burst)

      h₁ : History
      h₁ = event (ring_dequeue_burst (rx_to_crypto w) ring_burst) got ∷ h

      rest : M ℕ
      rest =
          if length got == 0
          then idle env dst_ports w i
          else (handle_frames env dst_ports w got >>= λ out.
              give_back env dst_ports w out >> pure 0)

      after :
          (h' : History) (i' : ℕ)
          → Holds (dequeued_frames h₁) (length (left h₁)) h₁
          → rest h₁ ≡ next i' h'
          → Holds (dequeued_frames h₁) (length (left h₁)) h'
      after h' i' p e =
          if-Preserves (Holds (dequeued_frames h₁) (length (left h₁))) (length got == 0) _ _
            (idle-Holds _ _ i)
            (bind-Preserves (Holds (dequeued_frames h₁) (length (left h₁)))
              (handle_frames env dst_ports w got) _ (handle_frames-Holds _ _ got)
              (λ out.
                bind-Preserves (Holds (dequeued_frames h₁) (length (left h₁)))
                  (give_back env dst_ports w out) (λ _. pure {A = ℕ} 0) (give_back-Holds _ _ out)
                  (λ _ h h' x p e. ground (arith, p, e))))
            h₁ h' i' p e

  turns-left :
      (n i : ℕ) (h h' : History) (u : Unit {0})
      → ((k : History) → env.answer k (system force_quit) ≡ false)
      → ((k : History)
          → env.answer k (ring_dequeue_burst (rx_to_crypto w) ring_burst)
            ≡ take ring_burst (left k))
      → turns env dst_ports w n i h ≡ next u h'
      → (dequeued_frames h' + length (left h') ≡ dequeued_frames h + length (left h))
        × (length (left h') ≡ length (left h) - ring_burst * n)
  unfolding turns
  turns-left zero i h h' u asked fifo e = rw (sym (ap final e)) (refl, omega arith)
  turns-left (suc n) i h h' u asked fifo e =
      let (i', h₂, first, e₁) =
        >>=-inv (work env dst_ports w i) (λ j. turns env dst_ports w n j) h₁ u h'
          (sym (ap (λ b. (if b then pure tt else turn) h₁) (asked h)) ∙ e) in
      let (same, fewer) = work-left i i' h₁ h₂ (fifo h₁) first in
      let (same', fewer') = turns-left n i' h₂ h' u asked fifo e₁ in
      let (a, b) = quiet h in (omega (arith, same, same', a, b), omega (arith, fewer, fewer', b))
    where
      turn : M (Unit {0})
      turn = do i' ← work env dst_ports w i; turns env dst_ports w n i'

      h₁ : History
      h₁ = event (system force_quit) (env.answer h (system force_quit)) ∷ h

  -- If crypto_loop is not asked to end, its cipher contexts reset, and its ring gives out what it holds
  -- in bursts of 32, oldest first, then it goes on, and after as many turns as there are bursts the
  -- ring is empty and every frame that was in it has been counted by it as encrypted or decrypted. What
  -- it puts into a ring goes into the other one.
  pub turns_drain :
      (n i : ℕ) (h : History)
      → ((k : History) → env.answer k (encrypt_ctx ctx_reset) ≡ true)
      → ((k : History) → env.answer k (decrypt_ctx ctx_reset) ≡ true)
      → ((k : History) → env.answer k (system force_quit) ≡ false)
      → ((k : History)
          → env.answer k (ring_dequeue_burst (rx_to_crypto w) ring_burst)
            ≡ take ring_burst (left k))
      → length (left h) ≤ ring_burst * n
      → (h' : History) × (turns env dst_ports w n i h ≡ next tt h')
        × (length (left h') ≡ 0)
        × (coded_count h' ≡ coded_count h + length (left h))
        × (strays w h' ≡ strays w h)
  turns_drain n i h enc dec asked fifo enough =
      let (h', run, balance, own) = turns_balance env dst_ports w n i 0 h enc dec in
      let (same, fewer) = turns-left n i h h' tt asked fifo run in
      let (coded, returned, strayed) = turns-IsExact env dst_ports w n i h h' tt run in
      (h', run, omega (arith, fewer, enough), omega (arith, same, fewer, enough, coded), strayed)
