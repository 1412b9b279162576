-- ===== src/L2fwdMulti/Worker.antt =====
-- Dpdk-lab/multi_thread/l2fwd-multi-thread/main.c, crypto_loop: the loop of one cipher worker.
pub mod Balance
pub mod Counters
pub mod Draining
pub mod Marked
use Prim.Native.Nat.{zero, suc}
use pwd_writeup.Base.{
  ℕ, ◌+◌, ◌-◌, ◌*◌, ◌%◌, ◌^◌, List, [], ◌∷◌, ◌++◌, Bool, true, false, not, ◌==◌, ltb, if◌then◌else◌,
  length,
}
use pwd_writeup.Dpdk.{
  Mbuf, Env, system, force_quit, count_encrypted, count_decrypted, count_tx_dropped, delay_us,
  pause, ring_dequeue_burst, ring_enqueue_burst, pktmbuf_free, encrypt_ctx, decrypt_ctx, ctx_free,
}
use pwd_writeup.Dpdk.Monad.{M, ◌>>=◌, ◌>>◌, call, pure, when, each}
use pwd_writeup.Dpdk.Ownership.{free_rest}
use pwd_writeup.L2fwd.Crypto.{
  Contexts, mark_ether_type, init_crypto_contexts, real_encrypt, real_decrypt,
}

-- RTE_RING_BURST
abbrev pub ring_burst : ℕ
ring_burst = 32

-- The two rings of a worker, `rx_to_crypto[worker_id]` and `crypto_to_tx[worker_id]`, as numbers for
-- the pointers. 0 and 1 are the addresses of the two arrays themselves, which are no rings.
abbrev pub rx_to_crypto : ℕ → ℕ
rx_to_crypto worker_id = 2 * worker_id + 2

abbrev pub crypto_to_tx : ℕ → ℕ
crypto_to_tx worker_id = 2 * worker_id + 3

abbrev pub rx_to_crypto_array : ℕ
rx_to_crypto_array = 0

abbrev pub crypto_to_tx_array : ℕ
crypto_to_tx_array = 1

module _ (env : Env) (dst_ports : ℕ → ℕ) (worker_id : ℕ) where
  -- A marked frame is decrypted and freed.
  unfoldable pub decrypt_frame : Mbuf → M (List Mbuf)
  decrypt_frame m = do
    m' ← real_decrypt env m
    call env (system (count_decrypted worker_id))
    call env (pktmbuf_free m')
    pure []

  -- Any other is encrypted and kept, with its destination in the place of its port.
  unfoldable pub encrypt_frame : Mbuf → M (List Mbuf)
  encrypt_frame m = do
    m' ← real_encrypt env m
    call env (system (count_encrypted worker_id))
    pure (record m' { port = dst_ports m'.port % 2 ^ 16 } ∷ [])

  unfoldable pub handle_frame : Mbuf → M (List Mbuf)
  handle_frame m = if m.ether_type == mark_ether_type then decrypt_frame m else encrypt_frame m

  -- The loop over the frames of a burst: `encrypted_pkts` up to `encrypted_count`.
  unfoldable pub handle_frames : List Mbuf → M (List Mbuf)
  handle_frames [] = pure []
  handle_frames (m ∷ ms) = do kept ← handle_frame m; rest ← handle_frames ms; pure (kept ++ rest)

  -- The frames go back by the ring; those that it has no room for are counted and freed.
  unfoldable pub give_back : List Mbuf → M (Unit {0})
  unfolding free_rest
  give_back ms = when (ltb 0 (length ms)) do
    enqueued ← call env (ring_enqueue_burst (crypto_to_tx worker_id) ms)
    when (ltb enqueued (length ms))
        (call env (system (count_tx_dropped worker_id (length ms - enqueued))))
    free_rest env ms enqueued

  unfoldable pub sleep : M ℕ
  sleep = do call env (system delay_us); pure 0

  unfoldable pub wait : ℕ → M ℕ
  wait idle_count = do call env (system pause); pure idle_count

  -- An empty ring: after more than 100 such turns in a row the worker sleeps.
  unfoldable pub idle : ℕ → M ℕ
  unfolding sleep wait
  idle idle_count = if ltb 100 (idle_count + 1) then sleep else wait (idle_count + 1)

  -- One turn, from a value of `idle_count` to the next.
  unfoldable pub work : ℕ → M ℕ
  work idle_count = do
    pkts ← call env (ring_dequeue_burst (rx_to_crypto worker_id) ring_burst)
    let busy : M ℕ = do encrypted ← handle_frames pkts; give_back encrypted; pure 0
    if length pkts == 0 then idle idle_count else busy

  -- `while (!force_quit)`, for at most so many turns.
  unfoldable pub turns : ℕ → ℕ → M (Unit {0})
  turns zero idle_count = pure tt
  turns (suc n) idle_count = do
    quit ← call env (system force_quit)
    let turn : M (Unit {0}) = do idle_count' ← work idle_count; turns n idle_count'
    if quit then pure tt else turn

  -- The contexts, which are set after init_crypto_contexts, are freed at the end.
  unfoldable pub crypto_loop : Contexts → ℕ → M (Unit {0})
  crypto_loop contexts n = do
    contexts' ← init_crypto_contexts env contexts
    turns n 0
    when contexts'.has_encrypt (call env (encrypt_ctx ctx_free))
    when contexts'.has_decrypt (call env (decrypt_ctx ctx_free))
