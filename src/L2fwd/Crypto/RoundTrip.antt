-- ===== src/L2fwd/Crypto/RoundTrip.antt =====
-- Dpdk-lab/multi_thread/l2fwd-single-thread/main.c: real_decrypt after real_encrypt.
use pwd_writeup.Base.{ℕ, ◌+◌, ◌%◌, ◌^◌, List, ◌∷◌, ◌++◌, ◌≡◌, ap, ◌∙◌, true, length}
use pwd_writeup.Dpdk.{
  Mbuf, Env, History, event, encrypt_ctx, decrypt_ctx, ctx_reset, ctx_update, ctx_final,
}
use pwd_writeup.Dpdk.Monad.{next, ◌>>=◌, >>=-run}
use pwd_writeup.L2fwd.Crypto.{real_encrypt, real_decrypt, write_back, mark_ether_type}

-- A context that a reset brings back to its key: the update and the final after one write `code` of the
-- bytes.
abbrev pub Encrypts : Env → (List ℕ → List ℕ) → Type 0
Encrypts env code =
    (k : History) (bytes : List ℕ)
    → (env.answer k (encrypt_ctx ctx_reset) ≡ true)
      × (let h = event (encrypt_ctx ctx_reset) true ∷ k in
          let out = env.answer h (encrypt_ctx (ctx_update bytes)) in
          out ++ env.answer (event (encrypt_ctx (ctx_update bytes)) out ∷ h) (encrypt_ctx ctx_final)
          ≡ code bytes)

abbrev pub Decrypts : Env → (List ℕ → List ℕ) → Type 0
Decrypts env code =
    (k : History) (bytes : List ℕ)
    → (env.answer k (decrypt_ctx ctx_reset) ≡ true)
      × (let h = event (decrypt_ctx ctx_reset) true ∷ k in
          let out = env.answer h (decrypt_ctx (ctx_update bytes)) in
          out ++ env.answer (event (decrypt_ctx (ctx_update bytes)) out ∷ h) (decrypt_ctx ctx_final)
          ≡ code bytes)

module _ (env : Env) where
  real_encrypt_lem :
      (code : List ℕ → List ℕ) (m : Mbuf) (h : History)
      → Encrypts env code
      → (h' : History) × (real_encrypt env m h
          ≡ next (write_back m (code m.payload) mark_ether_type) h')
  unfolding real_encrypt
  real_encrypt_lem code m h c = (
    h₃,
    rw ((c h m.payload).0) (ap (λ x. next (write_back m x mark_ether_type) h₃) (c h m.payload).1),
  )
    where
      h₁ : History
      h₁ = event (encrypt_ctx ctx_reset) true ∷ h

      out : List ℕ
      out = env.answer h₁ (encrypt_ctx (ctx_update m.payload))

      h₂ : History
      h₂ = event (encrypt_ctx (ctx_update m.payload)) out ∷ h₁

      h₃ : History
      h₃ = event (encrypt_ctx ctx_final) (env.answer h₂ (encrypt_ctx ctx_final)) ∷ h₂

  real_decrypt_lem :
      (code : List ℕ → List ℕ) (m : Mbuf) (h : History)
      → Decrypts env code
      → (h' : History) × (real_decrypt env m h ≡ next (write_back m (code m.payload) 0x0800) h')
  unfolding real_decrypt
  real_decrypt_lem code m h c =
      (h₃, rw ((c h m.payload).0) (ap (λ x. next (write_back m x 0x0800) h₃) (c h m.payload).1))
    where
      h₁ : History
      h₁ = event (decrypt_ctx ctx_reset) true ∷ h

      out : List ℕ
      out = env.answer h₁ (decrypt_ctx (ctx_update m.payload))

      h₂ : History
      h₂ = event (decrypt_ctx (ctx_update m.payload)) out ∷ h₁

      h₃ : History
      h₃ = event (decrypt_ctx ctx_final) (env.answer h₂ (decrypt_ctx ctx_final)) ∷ h₂

-- If a reset brings the contexts back to their keys, and the one undoes what the other does, then
-- real_decrypt after real_encrypt goes on and gives a frame with all its fields back, but for the
-- lengths, which are set from the payload, and the type, which is IPv4 whatever it was.
pub real_decrypt-real_encrypt :
    (env : Env) (code decode : List ℕ → List ℕ) (m : Mbuf) (h : History)
    → Encrypts env code
    → Decrypts env decode
    → ((bytes : List ℕ) → decode (code bytes) ≡ bytes)
    → (h' : History) × ((real_encrypt env m >>= real_decrypt env) h
        ≡ next
            (record m {
              ether_type = 0x0800;
              pkt_len = 14 + length m.payload;
              data_len = (14 + length m.payload) % 2 ^ 16;
            })
            h')
unfolding write_back
real_decrypt-real_encrypt env code decode m h c d undone =
    let (h₁, first) = real_encrypt_lem env code m h c in
    let (h₂, second) =
      real_decrypt_lem env decode (write_back m (code m.payload) mark_ether_type) h₁ d in
    (
      h₂,
      >>=-run (real_encrypt env m) (real_decrypt env) h h₁ _ _ first second
          ∙ ap (λ x. next (write_back m x 0x0800) h₂) (undone m.payload),
    )
