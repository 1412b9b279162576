-- ===== src/L2fwd/Loop/Received.antt =====
-- The frames of one burst in l2fwd_main_loop: each is handed on or freed.
use pwd_writeup.Base.{
  ℕ, List, [], ◌∷◌, ◌++◌, ◌≡◌, refl, ap, ◌∙◌, true, ◌==◌, Bool-cases, inl, inr, length, arith,
}
use pwd_writeup.Dpdk.{
  Mbuf, Env, History, event, encrypt_ctx, decrypt_ctx, ctx_reset, ctx_update, ctx_final, rx_burst,
  system, count_rx, count_tx, tx_buffer,
}
use pwd_writeup.Dpdk.Monad.{next, final, M, continue, each}
use pwd_writeup.Dpdk.Ownership.{count, gained, lost, Balances, Conserves, count_none, count-cons}
use pwd_writeup.L2fwd.Crypto.{real_encrypt, real_decrypt, write_back, mark_ether_type}
use pwd_writeup.L2fwd.Frame.{l2fwd_simple_forward, outgoing, l2fwd_mac_updating}
use pwd_writeup.L2fwd.Loop.{Lcore, handle, decrypt_and_drop, encrypt_and_forward, receive}

-- EVP_CIPHER_CTX_reset, which always reports success.
abbrev pub Resets : Env → Type 0
Resets env =
    ((h : History) → env.answer h (encrypt_ctx ctx_reset) ≡ true)
    × ((h : History) → env.answer h (decrypt_ctx ctx_reset) ≡ true)

module _ (env : Env) (resets : Resets env) (c : Lcore) where
  -- A frame that the program holds, once, is given up.
  abbrev GivesUp : Mbuf → M (Unit {0}) → Type 0
  GivesUp m k =
      (h : History)
      → (h' : History) × (k h ≡ next tt h') × ((a : ℕ) → Balances a (count a (m ∷ [])) h h')

  decrypt-GivesUp : (m : Mbuf) → GivesUp m (decrypt_and_drop env c m)
  unfolding decrypt_and_drop real_decrypt gained lost count
  decrypt-GivesUp m h = (
    final (decrypt_and_drop env c m h),
    ground (arith, resets.1 h),
    λ a. ground (arith, resets.1 h),
  )

  id-outgoing :
      (m : Mbuf) (out : List ℕ) (p : ℕ)
      → (outgoing c.tables (write_back m out mark_ether_type) p).id ≡ m.id
  unfolding outgoing l2fwd_mac_updating write_back
  id-outgoing m out p = elim (Bool-cases c.tables.mac_updating) [
    | inl on ↦ rw on
    | inr off ↦ rw off
  ]

  -- The forward of an encrypted frame gives it up.
  forward-Balances :
      (portid : ℕ) (m : Mbuf) (out : List ℕ)
      → GivesUp m (l2fwd_simple_forward env c.tables (write_back m out mark_ether_type) portid)
  unfolding l2fwd_simple_forward gained lost count
  forward-Balances portid m out h = elim (Bool-cases (sent == 0)) [
    | inl none_sent ↦ (h₁, ground arith, λ a. ground (arith, same))
    | inr some_sent ↦
        (event (system (count_tx dst sent)) tt ∷ h₁, ground arith, λ a. ground (arith, same))
  ]
    where
      dst : ℕ
      dst = c.tables.dst_ports portid

      gone : Mbuf
      gone = outgoing c.tables (write_back m out mark_ether_type) dst

      same : gone.id ≡ m.id
      same = id-outgoing m out dst

      sent : ℕ
      sent = env.answer h (tx_buffer dst gone)

      h₁ : History
      h₁ = event (tx_buffer dst gone) sent ∷ h

  forward-GivesUp : (portid : ℕ) (m : Mbuf) → GivesUp m (encrypt_and_forward env c portid m)
  unfolding encrypt_and_forward real_encrypt gained lost
  forward-GivesUp portid m h =
      let (h', run, b) = forward-Balances portid m (out₁ ++ out₂) h₃ in
      (h', ground (arith, resets.0 h, run), λ a. omega (arith, b a))
    where
      h₁ : History
      h₁ = event (encrypt_ctx ctx_reset) (env.answer h (encrypt_ctx ctx_reset)) ∷ h

      out₁ : List ℕ
      out₁ = env.answer h₁ (encrypt_ctx (ctx_update m.payload))

      h₂ : History
      h₂ = event (encrypt_ctx (ctx_update m.payload)) out₁ ∷ h₁

      out₂ : List ℕ
      out₂ = env.answer h₂ (encrypt_ctx ctx_final)

      h₃ : History
      h₃ = event (encrypt_ctx ctx_final) out₂ ∷ h₂

  handle-GivesUp : (portid : ℕ) (m : Mbuf) → GivesUp m (handle env c portid m)
  unfolding handle
  handle-GivesUp portid m h = elim (Bool-cases (m.ether_type == mark_ether_type)) [
    | inl marked ↦ rw marked (decrypt-GivesUp m h)
    | inr plain ↦ rw plain (forward-GivesUp portid m h)
  ]

  -- All frames of a burst.
  handle_all :
      (portid : ℕ) (ms : List Mbuf) (h : History)
      → (h' : History) × (each ms (handle env c portid) h ≡ next tt h')
        × ((a : ℕ) → Balances a (count a ms) h h')
  unfolding count
  handle_all portid [] h = (h, refl, λ a. omega arith)
  handle_all portid (m ∷ ms) h =
      let (h₁, run₁, b₁) = handle-GivesUp portid m h in
      let (h₂, run₂, b₂) = handle_all portid ms h₁ in
      (
        h₂,
        ap (λ o. continue o (λ _. each ms (handle env c portid))) run₁ ∙ run₂,
        λ a. omega (arith, b₁ a, b₂ a, count-cons a m ms),
      )

  pub receive-Conserves : (portid : ℕ) → Conserves (receive env c portid)
  unfolding receive gained lost
  receive-Conserves portid h = elim (Bool-cases (length burst == 0)) [
    | inl idle ↦ (h₁, ground arith, λ a. ground (arith, count_none a burst))
    | inr busy ↦
        let (h', run, b) = handle_all portid burst h₂ in
        (h', ground (arith, run), λ a. ground (arith, b a))
  ]
    where
      burst : List Mbuf
      burst = env.answer h (rx_burst portid 0 32)

      h₁ : History
      h₁ = event (rx_burst portid 0 32) burst ∷ h

      h₂ : History
      h₂ = event (system (count_rx portid (length burst))) tt ∷ h₁
