-- ===== src/L2fwd/Crypto.antt =====
-- Dpdk-lab/multi_thread/l2fwd-single-thread/main.c: the cipher contexts, real_encrypt and
-- real_decrypt. A frame has its whole header: `payload` is the `data_len - 14` bytes after it.
pub mod Reset
pub mod RoundTrip
use pwd_writeup.Base.{ℕ, ◌+◌, ◌%◌, ◌^◌, List, ◌++◌, Bool, true, false, not, if◌then◌else◌, length}
use pwd_writeup.Dpdk.{
  Mbuf, Env, encrypt_ctx, decrypt_ctx, ctx_new, ctx_init, ctx_reset, ctx_update, ctx_final,
}
use pwd_writeup.Dpdk.Monad.{M, ◌>>=◌, ◌>>◌, call, pure, when, rte_exit}

abbrev pub mark_ether_type : ℕ
mark_ether_type = 0x88B5

-- `sizeof(struct rte_ether_hdr)`
abbrev pub header_len : ℕ
header_len = 14

-- Whether the thread's two context pointers are set.
pub record Contexts : Type 0 where
  pub has_encrypt : Bool
  pub has_decrypt : Bool

-- What both functions do with the output of the cipher. `data_len` has 16 bits.
unfoldable pub write_back : Mbuf → List ℕ → ℕ → Mbuf
write_back m out ether_type = record m {
  payload = out;
  pkt_len = header_len + length out;
  data_len = (header_len + length out) % 2 ^ 16;
  ether_type = ether_type;
}

module _ (env : Env) where
  unfoldable pub init_encrypt : Bool → M (Unit {0})
  init_encrypt true = pure tt
  init_encrypt false = do
    made ← call env (encrypt_ctx ctx_new)
    when (not made) rte_exit
    ready ← call env (encrypt_ctx ctx_init)
    when (not ready) rte_exit

  unfoldable pub init_decrypt : Bool → M (Unit {0})
  init_decrypt true = pure tt
  init_decrypt false = do
    made ← call env (decrypt_ctx ctx_new)
    when (not made) rte_exit
    ready ← call env (decrypt_ctx ctx_init)
    when (not ready) rte_exit

  unfoldable pub init_crypto_contexts : Contexts → M Contexts
  unfolding init_encrypt init_decrypt
  init_crypto_contexts c = do
    init_encrypt c.has_encrypt
    init_decrypt c.has_decrypt
    pure (record { has_encrypt = true; has_decrypt = true })

  unfoldable pub real_encrypt : Mbuf → M Mbuf
  unfolding write_back
  real_encrypt m = do
    reset ← call env (encrypt_ctx ctx_reset)
    when (not reset) rte_exit
    out₁ ← call env (encrypt_ctx (ctx_update m.payload))
    out₂ ← call env (encrypt_ctx ctx_final)
    pure (write_back m (out₁ ++ out₂) mark_ether_type)

  unfoldable pub real_decrypt : Mbuf → M Mbuf
  unfolding write_back
  real_decrypt m = do
    reset ← call env (decrypt_ctx ctx_reset)
    when (not reset) rte_exit
    out₁ ← call env (decrypt_ctx (ctx_update m.payload))
    out₂ ← call env (decrypt_ctx ctx_final)
    pure (write_back m (out₁ ++ out₂) 0x0800)
