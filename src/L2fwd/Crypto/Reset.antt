-- ===== src/L2fwd/Crypto/Reset.antt =====
-- Dpdk-lab/multi_thread/l2fwd-single-thread/main.c, real_encrypt, with EVP_CIPHER_CTX_reset as its
-- manual page describes it: the context forgets cipher, key and IV, and until the next
-- EVP_EncryptInit_ex an update or a final writes nothing.
use pwd_writeup.Base.{ℕ, Bool, false, Bool-cases, inl, inr, List, [], ◌∷◌, ◌≡◌, arith, true}
use pwd_writeup.Dpdk.{Mbuf, Env, History, event, encrypt_ctx, ctx_reset, ctx_update, ctx_final}
use pwd_writeup.Dpdk.Monad.{next}
use pwd_writeup.L2fwd.Crypto.{real_encrypt, mark_ether_type}

-- If a context that was just reset writes nothing on an update, and nothing on the final that
-- follows, then a frame leaves real_encrypt without its payload: with the mark and the bare header of
-- 14 bytes.
pub real_encrypt_empties :
    (env : Env) (m m' : Mbuf) (h h' : History)
    → ((k : History) (bytes : List ℕ)
        → env.answer (event (encrypt_ctx ctx_reset) true ∷ k) (encrypt_ctx (ctx_update bytes)) ≡ [])
    → ((k : History) (bytes : List ℕ)
        → env.answer
            (event (encrypt_ctx (ctx_update bytes)) [] ∷ (event (encrypt_ctx ctx_reset) true ∷ k))
            (encrypt_ctx ctx_final)
          ≡ [])
    → real_encrypt env m h ≡ next m' h'
    → m' ≡ record m { payload = []; pkt_len = 14; data_len = 14; ether_type = mark_ether_type }
unfolding real_encrypt
real_encrypt_empties env m m' h h' update final e = elim (Bool-cases reset) [
  | inl good ↦ ground (arith, updated reset good, finished reset out good (updated reset good))
  | inr bad ↦ ground arith
]
  where
    reset : Bool
    reset = env.answer h (encrypt_ctx ctx_reset)

    out : List ℕ
    out = env.answer (event (encrypt_ctx ctx_reset) reset ∷ h) (encrypt_ctx (ctx_update m.payload))

    updated :
        (b : Bool)
        → b ≡ true
        → env.answer (event (encrypt_ctx ctx_reset) b ∷ h) (encrypt_ctx (ctx_update m.payload)) ≡ []
    updated true k = update h m.payload
    updated false k = cc

    finished :
        (b : Bool) (o : List ℕ)
        → b ≡ true
        → o ≡ []
        → env.answer
            (event (encrypt_ctx (ctx_update m.payload)) o ∷ (event (encrypt_ctx ctx_reset) b ∷ h))
            (encrypt_ctx ctx_final)
          ≡ []
    finished true [] k q = final h m.payload
    finished true (x ∷ o) k q = cc
    finished false o k q = cc
