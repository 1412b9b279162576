-- ===== src/L2fwd/Ports/Checked.antt =====
-- What check_port_pair_config accepts.
use Prim.Native.Nat.{max}
use pwd_writeup.Base.{
  All_zip, ℕ, ◌^◌, List, [], ◌∷◌, Bool, true, false, ◌≡◌, ◌≢◌, sym, refl, ◌⊎◌, inl, inr, ◌↔◌,
  bit_and, bit_or, Option, none, some, arith, All, ◌∙◌, ap,
}
use pwd_writeup.Base.Bits.{
  bit, bit-bit_and, bit-bit_or, bit-pow_self, bit-pow_ne, is_clear-bit, bit_and-disjoint,
  bit_le_one, bit-zero,
}
use mathlib.Core.Option
use native.Mathlib.Decide.{ℕ_discrete}
use pwd_writeup.L2fwd.Ports.{refuses, check_pairs, check_port_pair_config}

abbrev pub InPair : ℕ → ℕ × ℕ → Type 0
InPair i p = (i ≡ p.0) ⊎ (i ≡ p.1)

abbrev pub InPairs : ℕ → List (ℕ × ℕ) → Type 0
InPairs i [] = ⊥
InPairs i (p ∷ ps) = InPair i p ⊎ InPairs i ps

-- No port stands in two pairs.
abbrev pub Apart : ℕ × ℕ → ℕ × ℕ → Type 0
Apart p q = (p.0 ≢ q.0) × (p.0 ≢ q.1) × (p.1 ≢ q.0) × (p.1 ≢ q.1)

abbrev pub Separate : List (ℕ × ℕ) → Type 0
Separate [] = Unit
Separate (p ∷ ps) = All (Apart p) ps × Separate ps

bit-pair :
    (a b i : ℕ)
    → bit (bit_or (bit_or 0 (2 ^ a)) (2 ^ b)) i ≡ max (max 0 (bit (2 ^ a) i)) (bit (2 ^ b) i)
bit-pair a b i =
    bit-bit_or i (bit_or 0 (2 ^ a)) (2 ^ b)
    ∙ ap (λ k. max k (bit (2 ^ b) i))
        (bit-bit_or i 0 (2 ^ a) ∙ ap (λ k. max k (bit (2 ^ a) i)) (bit-zero i))

abbrev pair_mask : ℕ → ℕ → ℕ
pair_mask a b = bit_or (bit_or 0 (2 ^ a)) (2 ^ b)

bit_at : (a i : ℕ) → ((i ≡ a) × (bit (2 ^ a) i ≡ 1)) ⊎ ((i ≢ a) × (bit (2 ^ a) i ≡ 0))
bit_at a i = elim (ℕ_discrete i a) [
  | yes e ↦ inl (e, ap (bit (2 ^ a)) e ∙ bit-pow_self a)
  | no n ↦ inr (n, bit-pow_ne a i (λ e. n (sym e)))
]

-- The mask of a pair has the bits of its two ports.
pair_mask-bit :
    (a b i : ℕ)
    → ((bit (pair_mask a b) i ≡ 1) × InPair i (a, b))
      ⊎ ((bit (pair_mask a b) i ≡ 0) × (i ≢ a) × (i ≢ b))
pair_mask-bit a b i = either (bit_at a i) (bit_at b i)
  where
    either :
        ((i ≡ a) × (bit (2 ^ a) i ≡ 1)) ⊎ ((i ≢ a) × (bit (2 ^ a) i ≡ 0))
        → ((i ≡ b) × (bit (2 ^ b) i ≡ 1)) ⊎ ((i ≢ b) × (bit (2 ^ b) i ≡ 0))
        → ((bit (pair_mask a b) i ≡ 1) × InPair i (a, b))
          ⊎ ((bit (pair_mask a b) i ≡ 0) × (i ≢ a) × (i ≢ b))
    either (inl p) q = inl (omega (arith, bit-pair a b i, bit_le_one i (2 ^ b), p.1), inl p.0)
    either (inr p) (inl q) = inl (omega (arith, bit-pair a b i, p.1, q.1), inr q.0)
    either (inr p) (inr q) = inr (omega (arith, bit-pair a b i, p.1, q.1), p.0, q.0)

module _ (mask : ℕ) (is_valid : ℕ → Bool) where
  -- The two ports of a pair are enabled and there.
  abbrev pub Usable : ℕ → Type 0
  Usable p = (bit mask p ≡ 1) × (is_valid p ≡ true)

  usable : (p : ℕ) → refuses mask is_valid p ≡ false → Usable p
  unfolding refuses
  usable p e = (is_clear-bit mask p (ground arith), ground arith)

  -- What one step of the loop has tested.
  check_pairs_step :
      (cm a b cm' : ℕ) (rest : List (ℕ × ℕ))
      → check_pairs mask is_valid cm ((a, b) ∷ rest) ≡ some cm'
      → Usable a
        × Usable b
        × (bit_and cm (pair_mask a b) ≡ 0)
        × (check_pairs mask is_valid (bit_or cm (pair_mask a b)) rest ≡ some cm')
  unfolding check_pairs
  check_pairs_step cm a b cm' rest e =
      (usable a (ground arith), usable b (ground arith), ground arith, ground arith)

  -- The bits that the loop adds are those of the pairs, and none of them was set before.
  check_pairs-bits :
      (cm cm' : ℕ) (pairs : List (ℕ × ℕ)) (i : ℕ)
      → check_pairs mask is_valid cm pairs ≡ some cm'
      → ((bit cm' i ≡ 1) × (bit cm i ≡ 0) × InPairs i pairs)
        ⊎ ((bit cm' i ≡ bit cm i) × (InPairs i pairs → ⊥))
  unfolding check_pairs
  check_pairs-bits cm cm' [] i e = inr (ground arith, λ k. k)
  check_pairs-bits cm cm' ((a, b) ∷ rest) i e =
      let (ua, ub, apart, later) = check_pairs_step cm a b cm' rest e in
      either apart (pair_mask-bit a b i)
        (check_pairs-bits (bit_or cm (pair_mask a b)) cm' rest i later)
    where
      cm₁ : ℕ
      cm₁ = bit_or cm (pair_mask a b)

      either :
          bit_and cm (pair_mask a b) ≡ 0
          → ((bit (pair_mask a b) i ≡ 1) × InPair i (a, b))
            ⊎ ((bit (pair_mask a b) i ≡ 0) × (i ≢ a) × (i ≢ b))
          → ((bit cm' i ≡ 1) × (bit cm₁ i ≡ 0) × InPairs i rest)
            ⊎ ((bit cm' i ≡ bit cm₁ i) × (InPairs i rest → ⊥))
          → ((bit cm' i ≡ 1) × (bit cm i ≡ 0) × InPairs i ((a, b) ∷ rest))
            ⊎ ((bit cm' i ≡ bit cm i) × (InPairs i ((a, b) ∷ rest) → ⊥))
      either apart (inl (one, here)) (inl (set, clear, there)) =
          absurd (omega (arith, bit-bit_or i cm (pair_mask a b)))
      either apart (inl (one, here)) (inr (same, off)) = inl (
        omega (arith, bit-bit_or i cm (pair_mask a b), bit_le_one i cm),
        omega (arith, bit_and-disjoint i cm (pair_mask a b) apart),
        inl here,
      )
      either apart (inr (none_here, na, nb)) (inl (set, clear, there)) =
          inl (set, omega (arith, bit-bit_or i cm (pair_mask a b)), inr there)
      either apart (inr (none_here, na, nb)) (inr (same, off)) = inr (
        omega (arith, bit-bit_or i cm (pair_mask a b)),
        elim [ inl (inl q) ↦ na q | inl (inr q) ↦ nb q | inr q ↦ off q ],
      )

  check_pairs-Usable :
      (cm cm' : ℕ) (pairs : List (ℕ × ℕ))
      → check_pairs mask is_valid cm pairs ≡ some cm'
      → All (λ p. Usable p.0 × Usable p.1) pairs
  unfolding check_pairs
  check_pairs-Usable cm cm' [] e = tt
  check_pairs-Usable cm cm' ((a, b) ∷ rest) e =
      let (ua, ub, apart, later) = check_pairs_step cm a b cm' rest e in
      ((ua, ub), check_pairs-Usable (bit_or cm (pair_mask a b)) cm' rest later)

  -- A port whose bit is already set stands in no later pair.
  check_pairs_absent :
      (cm cm' : ℕ) (pairs : List (ℕ × ℕ)) (i : ℕ)
      → bit cm i ≡ 1
      → check_pairs mask is_valid cm pairs ≡ some cm'
      → All (λ p. (i ≢ p.0) × (i ≢ p.1)) pairs
  check_pairs_absent cm cm' pairs i set e = elim (check_pairs-bits cm cm' pairs i e) [
    | inl (now, clear, there) ↦ absurd (omega arith)
    | inr (same, off) ↦ out pairs off
  ]
    where
      out : (ps : List (ℕ × ℕ)) → (InPairs i ps → ⊥) → All (λ p. (i ≢ p.0) × (i ≢ p.1)) ps
      out [] off = tt
      out (p ∷ ps) off =
          ((λ q. off (inl (inl q)), λ q. off (inl (inr q))), out ps (λ q. off (inr q)))

  -- After a pair, the bits of its two ports are set.
  pair_set : (cm a b i : ℕ) → InPair i (a, b) → bit (bit_or cm (pair_mask a b)) i ≡ 1
  pair_set cm a b i here = elim (pair_mask-bit a b i) [
    | inl (one, there) ↦ omega (arith, bit-bit_or i cm (pair_mask a b), bit_le_one i cm)
    | inr (zero_bit, na, nb) ↦ absurd (elim here [ inl q ↦ na q | inr q ↦ nb q ])
  ]

  check_pairs-Separate :
      (cm cm' : ℕ) (pairs : List (ℕ × ℕ))
      → check_pairs mask is_valid cm pairs ≡ some cm'
      → Separate pairs
  check_pairs-Separate cm cm' [] e = tt
  check_pairs-Separate cm cm' ((a, b) ∷ rest) e =
      let (ua, ub, apart, later) = check_pairs_step cm a b cm' rest e in
      let cm₁ = bit_or cm (pair_mask a b) in
      let first = check_pairs_absent cm₁ cm' rest a (pair_set cm a b a (inl refl)) later in
      let second = check_pairs_absent cm₁ cm' rest b (pair_set cm a b b (inr refl)) later in
      (
        All_zip (λ p. (a ≢ p.0) × (a ≢ p.1)) (λ p. (b ≢ p.0) × (b ≢ p.1)) (Apart (a, b)) rest
            (λ p u v. (u.0, u.1, v.0, v.1)) first second,
        check_pairs-Separate cm₁ cm' rest later,
      )

  Usable-bit :
      (pairs : List (ℕ × ℕ)) (i : ℕ)
      → All (λ p. Usable p.0 × Usable p.1) pairs
      → InPairs i pairs
      → bit mask i ≡ 1
  Usable-bit [] i us there = absurd there
  Usable-bit (p ∷ ps) i us (inl (inl q)) = ap (bit mask) q ∙ us.0.0.0
  Usable-bit (p ∷ ps) i us (inl (inr q)) = ap (bit mask) q ∙ us.0.1.0
  Usable-bit (p ∷ ps) i us (inr q) = Usable-bit ps i us.1 q

  -- Where the check of the pairs succeeds, every port of a pair was enabled and is there, no port
  -- stands in two pairs, and the new mask has exactly the bits of the ports in pairs.
  pub check_port_pair_config_lem :
      (pairs : List (ℕ × ℕ)) (mask' i : ℕ)
      → check_port_pair_config mask is_valid pairs ≡ some mask'
      → All (λ p. Usable p.0 × Usable p.1) pairs
        × Separate pairs
        × ((bit mask' i ≡ 1) ↔ InPairs i pairs)
  unfolding check_port_pair_config
  check_port_pair_config_lem pairs mask' i e = accepted (check_pairs mask is_valid 0 pairs) refl e
    where
      masked :
          (cm : ℕ) → some (bit_and mask cm) ≡ some mask' → bit (bit_and mask cm) i ≡ bit mask' i
      masked cm q = cc

      accepted :
          (o : Option ℕ)
          → check_pairs mask is_valid 0 pairs ≡ o
          → Option.map (λ m. bit_and mask m) o ≡ some mask'
          → All (λ p. Usable p.0 × Usable p.1) pairs
            × Separate pairs
            × ((bit mask' i ≡ 1) ↔ InPairs i pairs)
      accepted none run q = cc
      accepted (some cm) run q =
          let us = check_pairs-Usable 0 cm pairs run in
          (
            us,
            check_pairs-Separate 0 cm pairs run,
            elim (check_pairs-bits 0 cm pairs i run) [
              | inl (now, clear, there) ↦ (
                λ _. there,
                λ _. omega (arith, bit-bit_and i mask cm, Usable-bit pairs i us there, masked cm q),
              )
              | inr (same, off) ↦ (
                λ one. absurd (omega (arith, bit-bit_and i mask cm, bit-zero i, masked cm q)),
                λ there. absurd (off there),
              )
            ],
          )
