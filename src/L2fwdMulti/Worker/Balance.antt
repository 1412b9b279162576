-- ===== src/L2fwdMulti/Worker/Balance.antt =====
-- No frame is lost in crypto_loop.
use Prim.Native.Nat.{zero, suc}
use pwd_writeup.Base.{
  Bool, ℕ, ◌+◌, ◌-◌, ◌%◌, ◌^◌, List, [], ◌∷◌, ◌++◌, ◌≡◌, refl, true, ltb, ◌==◌, Bool-cases, inl,
  inr, length, arith,
}
use pwd_writeup.Dpdk.{
  delay_us, pause, Mbuf, Env, History, event, encrypt_ctx, decrypt_ctx, ctx_reset, ctx_update,
  ctx_final, system, count_encrypted, count_tx_dropped, force_quit, ring_dequeue_burst,
  ring_enqueue_burst,
}
use pwd_writeup.Dpdk.Monad.{call, next, final, M}
use pwd_writeup.Dpdk.Ownership.{
  count, gained, lost, Balances, Conserves, count_none, count_rest_lem, count-cons, count-append,
  count-take-drop,
}
use pwd_writeup.L2fwd.Crypto.{real_encrypt, real_decrypt, write_back, mark_ether_type}
use pwd_writeup.L2fwd.Loop.Received.{Resets}
use pwd_writeup.L2fwdMulti.Worker.Counters.{strays, turns-IsExact}
use pwd_writeup.L2fwdMulti.Worker.{
  decrypt_frame, encrypt_frame, handle_frame, handle_frames, give_back, idle, sleep, wait, work,
  turns, ring_burst, rx_to_crypto, crypto_to_tx,
}

-- A piece that is given the frames `ms` and goes on with those of its result: any other of them left
-- the program once.
abbrev Keeps : List Mbuf → M (List Mbuf) → Type 0
Keeps ms k =
    (h : History)
    → (out : List Mbuf) × (h' : History) × (k h ≡ next out h')
      × ((a : ℕ) → gained a h' + lost a h + count a ms ≡ gained a h + lost a h' + count a out)

module _ (env : Env) (resets : Resets env) (dst_ports : ℕ → ℕ) (w : ℕ) where
  decrypt_frame-Keeps : (m : Mbuf) → Keeps (m ∷ []) (decrypt_frame env dst_ports w m)
  unfolding decrypt_frame real_decrypt gained lost count
  decrypt_frame-Keeps m h = (
    [],
    final (decrypt_frame env dst_ports w m h),
    ground (arith, resets.1 h),
    λ a. ground (arith, resets.1 h),
  )

  encrypt_frame-Keeps : (m : Mbuf) → Keeps (m ∷ []) (encrypt_frame env dst_ports w m)
  unfolding encrypt_frame real_encrypt gained lost count write_back
  encrypt_frame-Keeps m h = (
    record (write_back m (out₁ ++ out₂) mark_ether_type) { port = dst_ports m.port % 2 ^ 16 } ∷ [],
    event (system (count_encrypted w)) tt ∷ event (encrypt_ctx ctx_final) out₂ ∷ h₂,
    ground (arith, resets.0 h),
    λ a. ground (arith, resets.0 h),
  )
    where
      h₁ : History
      h₁ = event (encrypt_ctx ctx_reset) (env.answer h (encrypt_ctx ctx_reset)) ∷ h

      out₁ : List ℕ
      out₁ = env.answer h₁ (encrypt_ctx (ctx_update m.payload))

      h₂ : History
      h₂ = event (encrypt_ctx (ctx_update m.payload)) out₁ ∷ h₁

      out₂ : List ℕ
      out₂ = env.answer h₂ (encrypt_ctx ctx_final)

  handle_frame-Keeps : (m : Mbuf) → Keeps (m ∷ []) (handle_frame env dst_ports w m)
  unfolding handle_frame
  handle_frame-Keeps m h = elim (Bool-cases (m.ether_type == mark_ether_type)) [
    | inl marked ↦ rw marked (decrypt_frame-Keeps m h)
    | inr plain ↦ rw plain (encrypt_frame-Keeps m h)
  ]

  handle_frames-Keeps : (ms : List Mbuf) → Keeps ms (handle_frames env dst_ports w ms)
  unfolding handle_frames
  handle_frames-Keeps [] h = ([], h, refl, λ a. omega arith)
  handle_frames-Keeps (m ∷ ms) h =
      let (kept, h₁, run₁, b₁) = handle_frame-Keeps m h in
      let (rest, h₂, run₂, b₂) = handle_frames-Keeps ms h₁ in
      (
        kept ++ rest,
        h₂,
        ground (arith, run₁, run₂),
        λ a. omega (arith, b₁ a, b₂ a, count-cons a m ms, count-append a kept rest),
      )

  -- What goes into the ring and what is freed make up the frames.
  give_back_lem :
      (ms : List Mbuf) (h : History)
      → (h' : History) × (give_back env dst_ports w ms h ≡ next tt h')
        × ((a : ℕ) → Balances a (count a ms) h h')
  unfolding give_back gained lost
  give_back_lem ms h = elim (Bool-cases (ltb 0 (length ms))) [
    | inl some_kept ↦
        let (h', run, b) =
          count_rest_lem env (call env (system (count_tx_dropped w (length ms - n)))) ms n h₁
            counted in
        (h', rw some_kept run, λ a. omega (arith, b a, count-take-drop a n ms))
    | inr none_kept ↦ (h, rw none_kept refl, λ a. ground (arith, count_none a ms))
  ]
    where
      n : ℕ
      n = env.answer h (ring_enqueue_burst (crypto_to_tx w) ms)

      h₁ : History
      h₁ = event (ring_enqueue_burst (crypto_to_tx w) ms) n ∷ h

      counted : Conserves (call env (system (count_tx_dropped w (length ms - n))))
      counted k =
          (event (system (count_tx_dropped w (length ms - n))) tt ∷ k, refl, λ a. omega arith)

  -- A turn, and the loop, lose nothing that was taken from the ring.
  idle-Settles :
      (n : ℕ) (h : History)
      → (n' : ℕ) × (h' : History) × (idle env dst_ports w n h ≡ next n' h')
        × ((a : ℕ) → Balances a 0 h h')
  unfolding idle sleep wait gained lost
  idle-Settles n h = elim (Bool-cases (ltb 100 (n + 1))) [
    | inl long ↦ (0, event (system delay_us) tt ∷ h, ground arith, λ a. omega arith)
    | inr short ↦ (n + 1, event (system pause) tt ∷ h, ground arith, λ a. omega arith)
  ]

  work-Settles :
      (n : ℕ) (h : History)
      → (n' : ℕ) × (h' : History) × (work env dst_ports w n h ≡ next n' h')
        × ((a : ℕ) → Balances a 0 h h')
  unfolding work gained lost
  work-Settles n h = elim (Bool-cases (length pkts == 0)) [
    | inl empty ↦
        let (n', h', run, b) = idle-Settles n h₁ in
        (n', h', ground (arith, run), λ a. omega (arith, b a, count_none a pkts (ground arith)))
    | inr busy ↦
        let (out, h₂, run₂, b₂) = handle_frames-Keeps pkts h₁ in
        let (h₃, run₃, b₃) = give_back_lem out h₂ in
        (0, h₃, ground (arith, run₂, run₃), λ a. omega (arith, b₂ a, b₃ a))
  ]
    where
      pkts : List Mbuf
      pkts = env.answer h (ring_dequeue_burst (rx_to_crypto w) ring_burst)

      h₁ : History
      h₁ = event (ring_dequeue_burst (rx_to_crypto w) ring_burst) pkts ∷ h

  turns-Conserves : (n idle_count : ℕ) → Conserves (turns env dst_ports w n idle_count)
  unfolding turns gained lost
  turns-Conserves zero i h = (h, refl, λ a. omega arith)
  turns-Conserves (suc n) i h = elim (Bool-cases quit) [
    | inl asked ↦ (h₁, ground arith, λ a. ground arith)
    | inr goes_on ↦
        let (i', h₂, run₂, b₂) = work-Settles i h₁ in
        let (h₃, run₃, b₃) = turns-Conserves n i' h₂ in
        (h₃, ground (arith, run₂, run₃), λ a. omega (arith, b₂ a, b₃ a))
  ]
    where
      quit : Bool
      quit = env.answer h (system force_quit)

      h₁ : History
      h₁ = event (system force_quit) quit ∷ h

-- However long a cipher worker runs and whatever its rings answer, it never leaves the program, and
-- each frame that it takes from its ring goes into the other ring or is freed, exactly once; it takes
-- from no ring but its own and puts into none but the other. The only assumption is that EVP_CIPHER_CTX_reset reports success.
pub turns_balance :
    (env : Env) (dst_ports : ℕ → ℕ) (w n idle_count a : ℕ) (h : History)
    → ((k : History) → env.answer k (encrypt_ctx ctx_reset) ≡ true)
    → ((k : History) → env.answer k (decrypt_ctx ctx_reset) ≡ true)
    → (h' : History) × (turns env dst_ports w n idle_count h ≡ next tt h')
      × Balances a 0 h h'
      × (strays w h' ≡ strays w h)
turns_balance env dst_ports w n idle_count a h e d =
    let (h', run, b) = turns-Conserves env (e, d) dst_ports w n idle_count h in
    (h', run, b a, (turns-IsExact env dst_ports w n idle_count h h' tt run).2)
