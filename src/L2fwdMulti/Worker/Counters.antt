-- ===== src/L2fwdMulti/Worker/Counters.antt =====
-- Dpdk-lab/multi_thread/l2fwd-multi-thread/main.c, crypto_loop: what its counters count.
use Prim.Native.Nat.{zero, suc}
use pwd_writeup.Base.{
  refl, ℕ, ◌+◌, ◌-◌, List, [], ◌∷◌, ◌++◌, ◌≡◌, sym, ap, ◌∙◌, if◌then◌else◌, Bool, ◌==◌, ltb,
  Bool-cases, inl, inr, length, length-append, length-take, take, arith,
}
use pwd_writeup.Dpdk.{
  Mbuf, Env, Event, event, History, system, force_quit, count_encrypted, count_decrypted,
  count_tx_dropped, ring_dequeue_burst, ring_enqueue_burst,
}
use pwd_writeup.Dpdk.Monad.{M, next, call, pure, when, ◌>>=◌, ◌>>◌, >>=-inv}
use pwd_writeup.Dpdk.Ownership.{free_rest, free_rest-Preserves}
use pwd_writeup.L2fwd.Crypto.{mark_ether_type, real_encrypt, real_decrypt, write_back}
use pwd_writeup.L2fwdMulti.Worker.{
  decrypt_frame, encrypt_frame, handle_frame, handle_frames, give_back, idle, sleep, wait, work,
  turns, ring_burst, rx_to_crypto, crypto_to_tx,
}

-- The frames that came out of rings; `crypto_encrypted_count` and `crypto_decrypted_count` together;
-- the first alone; and the frames that rings took, with `ring_crypto_to_tx_dropped`.
came_in : Event → ℕ
came_in (event (ring_dequeue_burst r n) ms) = length ms
came_in (event c a) = 0

coded : Event → ℕ
coded (event (system (count_encrypted w)) u) = 1
coded (event (system (count_decrypted w)) u) = 1
coded (event c a) = 0

encrypted : Event → ℕ
encrypted (event (system (count_encrypted w)) u) = 1
encrypted (event c a) = 0

went_on : Event → ℕ
went_on (event (ring_enqueue_burst r ms) n) = length (take n ms)
went_on (event (system (count_tx_dropped w n)) u) = n
went_on (event c a) = 0

unfoldable pub dequeued_frames : History → ℕ
unfolding came_in
dequeued_frames [] = 0
dequeued_frames (e ∷ h) = came_in e + dequeued_frames h

unfoldable pub coded_count : History → ℕ
unfolding coded
coded_count [] = 0
coded_count (e ∷ h) = coded e + coded_count h

unfoldable pub encrypted_count : History → ℕ
unfolding encrypted
encrypted_count [] = 0
encrypted_count (e ∷ h) = encrypted e + encrypted_count h

unfoldable pub returned_count : History → ℕ
unfolding went_on
returned_count [] = 0
returned_count (e ∷ h) = went_on e + returned_count h

-- The calls and counts that are not those of worker `w`: a take from another ring than its first one, a
-- put into another than its second one, a count for another worker.
unfoldable pub strays : ℕ → History → ℕ
strays w [] = 0
strays w (event (ring_dequeue_burst r n) ms ∷ h) =
    (if r == rx_to_crypto w then 0 else 1) + strays w h
strays w (event (ring_enqueue_burst r ms) n ∷ h) =
    (if r == crypto_to_tx w then 0 else 1) + strays w h
strays w (event (system (count_encrypted v)) u ∷ h) = (if v == w then 0 else 1) + strays w h
strays w (event (system (count_decrypted v)) u ∷ h) = (if v == w then 0 else 1) + strays w h
strays w (event (system (count_tx_dropped v n)) u ∷ h) = (if v == w then 0 else 1) + strays w h
strays w (event c a ∷ h) = strays w h

-- By how much the four grow, where nothing strays.
abbrev Adds : ℕ → ℕ → ℕ → ℕ → ℕ → History → History → Type 0
Adds w i c e b h h' =
    (dequeued_frames h' ≡ dequeued_frames h + i)
    × (coded_count h' ≡ coded_count h + c)
    × (encrypted_count h' ≡ encrypted_count h + e)
    × (returned_count h' ≡ returned_count h + b)
    × (strays w h' ≡ strays w h)

module _ (env : Env) (dst_ports : ℕ → ℕ) (w : ℕ) where
  decrypt_frame-Adds :
      (m : Mbuf) (h h' : History) (out : List Mbuf)
      → decrypt_frame env dst_ports w m h ≡ next out h'
      → Adds w 0 1 (length out) 0 h h'
  unfolding decrypt_frame real_decrypt write_back dequeued_frames coded_count encrypted_count
      returned_count strays
  decrypt_frame-Adds m h h' out e = ground arith

  encrypt_frame-Adds :
      (m : Mbuf) (h h' : History) (out : List Mbuf)
      → encrypt_frame env dst_ports w m h ≡ next out h'
      → Adds w 0 1 (length out) 0 h h'
  unfolding encrypt_frame real_encrypt write_back dequeued_frames coded_count encrypted_count
      returned_count strays
  encrypt_frame-Adds m h h' out e = ground arith

  handle_frame-Adds :
      (m : Mbuf) (h h' : History) (out : List Mbuf)
      → handle_frame env dst_ports w m h ≡ next out h'
      → Adds w 0 1 (length out) 0 h h'
  unfolding handle_frame
  handle_frame-Adds m h h' out e = elim (Bool-cases (m.ether_type == mark_ether_type)) [
    | inl marked ↦ decrypt_frame-Adds m h h' out (rw marked at e)
    | inr plain ↦ encrypt_frame-Adds m h h' out (rw plain at e)
  ]

  handle_frames-Adds :
      (ms : List Mbuf) (h h' : History) (out : List Mbuf)
      → handle_frames env dst_ports w ms h ≡ next out h'
      → Adds w 0 (length ms) (length out) 0 h h'
  unfolding handle_frames
  handle_frames-Adds [] h h' out e = ground arith
  handle_frames-Adds (m ∷ ms) h h' out e =
      let (kept, h₁, first, e₁) = >>=-inv (handle_frame env dst_ports w m) keep h out h' e in
      let (rest, h₂, second, e₂) =
        >>=-inv (handle_frames env dst_ports w ms) (join kept) h₁ out h' e₁ in
      let (a, b, c, d, s) = handle_frame-Adds m h h₁ kept first in
      let (a', b', c', d', s') = handle_frames-Adds ms h₁ h₂ rest second in
      let same : (out ≡ kept ++ rest) × (h' ≡ h₂) = (cc, cc) in
      let grown : length out ≡ length kept + length rest = rw (same.0) (length-append kept rest) in
      rw (same.1) (
        omega (arith, a, a'),
        omega (arith, b, b'),
        omega (arith, c, c', grown),
        omega (arith, d, d'),
        omega (arith, s, s'),
      )
    where
      join : List Mbuf → List Mbuf → M (List Mbuf)
      join kept rest = pure (kept ++ rest)

      keep : List Mbuf → M (List Mbuf)
      keep kept = do rest ← handle_frames env dst_ports w ms; pure (kept ++ rest)

  free_rest-Adds :
      (ms : List Mbuf) (n : ℕ) (h h' : History) (u : Unit {0})
      → free_rest env ms n h ≡ next u h'
      → Adds w 0 0 0 0 h h'
  unfolding dequeued_frames coded_count encrypted_count returned_count strays
  free_rest-Adds ms n h h' u e =
      free_rest-Preserves (λ k. Adds w 0 0 0 0 h k) env ms n
        (λ m k a.
          (omega (arith, a.0), omega (arith, a.1), omega (arith, a.2), omega (arith, a.3), a.4))
        h h' u (omega arith, omega arith, omega arith, omega arith, refl) e

  give_back-Adds :
      (ms : List Mbuf) (h h' : History) (u : Unit {0})
      → give_back env dst_ports w ms h ≡ next u h'
      → Adds w 0 0 0 (length ms) h h'
  unfolding give_back dequeued_frames coded_count encrypted_count returned_count strays
  give_back-Adds ms h h' u e = elim (Bool-cases (ltb 0 (length ms))) [
    | inl some_kept ↦
        let (u₁, h₂, second, e₂) =
          >>=-inv (when (ltb n (length ms)) count_it) (λ _. free_rest env ms n) h₁ u h'
            (rw some_kept at e) in
        let (a, b, c, d, s) = free_rest-Adds ms n h₂ h' u e₂ in
        ground (arith, second, a, b, c, d, s, length-take n ms)
    | inr none_kept ↦ ground (arith, none_kept)
  ]
    where
      n : ℕ
      n = env.answer h (ring_enqueue_burst (crypto_to_tx w) ms)

      h₁ : History
      h₁ = event (ring_enqueue_burst (crypto_to_tx w) ms) n ∷ h

      count_it : M (Unit {0})
      count_it = call env (system (count_tx_dropped w (length ms - n)))

  idle-Adds :
      (i i' : ℕ) (h h' : History) → idle env dst_ports w i h ≡ next i' h' → Adds w 0 0 0 0 h h'
  unfolding idle sleep wait dequeued_frames coded_count encrypted_count returned_count strays
  idle-Adds i i' h h' e = ground arith

  -- A piece in which nothing is lost from the counts.
  abbrev IsExact : History → History → Type 0
  IsExact h h' =
      (dequeued_frames h' + coded_count h ≡ dequeued_frames h + coded_count h')
      × (encrypted_count h' + returned_count h ≡ encrypted_count h + returned_count h')
      × (strays w h' ≡ strays w h)

  work-IsExact : (i i' : ℕ) (h h' : History) → work env dst_ports w i h ≡ next i' h' → IsExact h h'
  unfolding work dequeued_frames coded_count encrypted_count returned_count strays
  work-IsExact i i' h h' e = elim (Bool-cases (length pkts == 0)) [
    | inl empty ↦
        let (a, b, c, d, s) = idle-Adds i i' h₁ h' (rw empty at e) in
        (ground (arith, a, b, empty), omega (arith, c, d), ground (arith, s))
    | inr busy ↦
        let (out, h₂, first, e₁) =
          >>=-inv (handle_frames env dst_ports w pkts) give h₁ i' h' (rw busy at e) in
        let (u, h₃, second, e₂) =
          >>=-inv (give_back env dst_ports w out) (λ _. pure 0) h₂ i' h' e₁ in
        let (a, b, c, d, s) = handle_frames-Adds pkts h₁ h₂ out first in
        let (a', b', c', d', s') = give_back-Adds out h₂ h₃ u second in
        let same : h' ≡ h₃ = cc in
        rw same (omega (arith, a, b, a', b'), omega (arith, c, d, c', d'), ground (arith, s, s'))
  ]
    where
      pkts : List Mbuf
      pkts = env.answer h (ring_dequeue_burst (rx_to_crypto w) ring_burst)

      h₁ : History
      h₁ = event (ring_dequeue_burst (rx_to_crypto w) ring_burst) pkts ∷ h

      give : List Mbuf → M ℕ
      give out = do give_back env dst_ports w out; pure 0

  -- The counters of a cipher worker are exact, before their wrap: after any number of turns, whatever
  -- its rings answer, it has counted as encrypted or decrypted as many frames as it took out of its
  -- ring, and as many as it encrypted the other ring took or were counted as dropped. All these are its
  -- own: it takes from its first ring only, puts into its second one only, and counts for no other
  -- worker.
  pub turns-IsExact :
      (n i : ℕ) (h h' : History) (u : Unit {0})
      → turns env dst_ports w n i h ≡ next u h'
      → IsExact h h'
  unfolding turns dequeued_frames coded_count encrypted_count returned_count strays
  turns-IsExact zero i h h' u e = ground arith
  turns-IsExact (suc n) i h h' u e = elim (Bool-cases quit) [
    | inl asked ↦ ground (arith, asked)
    | inr goes_on ↦
        let (i', h₂, first, e₁) =
          >>=-inv (work env dst_ports w i) (λ j. turns env dst_ports w n j) h₁ u h'
            (sym (ap (λ b. (if b then pure tt else turn) h₁) goes_on) ∙ e) in
        let (a, b, s) = work-IsExact i i' h₁ h₂ first in
        let (a', b', s') = turns-IsExact n i' h₂ h' u e₁ in
        (omega (arith, a, a'), omega (arith, b, b'), ground (arith, s, s'))
  ]
    where
      turn : M (Unit {0})
      turn = do i' ← work env dst_ports w i; turns env dst_ports w n i'

      quit : Bool
      quit = env.answer h (system force_quit)

      h₁ : History
      h₁ = event (system force_quit) quit ∷ h
