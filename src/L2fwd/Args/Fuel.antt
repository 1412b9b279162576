-- ===== src/L2fwd/Args/Fuel.antt =====
-- Dpdk-lab/multi_thread/l2fwd-single-thread/main.c, l2fwd_parse_port_pair_config: its loop ends.
use Prim.Native.Nat.{zero, suc}
use pwd_writeup.Base.{
  ℕ, ◌+◌, ◌%◌, ◌^◌, ◌≤◌, ◌<◌, ◌≡◌, List, [], ◌∷◌, ◌++◌, Option, none, some, length, drop, arith,
  Bool-cases, inl, inr, ap, refl, leb, ◌==◌, if◌then◌else◌,
}
use mathlib.Core.Option
use pwd_writeup.L2fwd.Args.{
  Numbers, Turn, finished, refused, found, strchr, fields, turn_of, read_fields, read_opened,
  read_pair, store_pair, parse_pairs,
}

-- The string from the character that strchr finds is not longer than the string, and not empty.
strchr-length :
    (c : ℕ) (s before rest : List ℕ)
    → strchr c s ≡ some (before, rest)
    → (length rest ≤ length s) × (1 ≤ length rest)
unfolding strchr
strchr-length c [] before rest e = cc
strchr-length c (x ∷ s) before rest e = elim (Bool-cases (x == c)) [
  | inl here ↦ ground (arith, here)
  | inr there ↦ later (strchr c s) (λ b r q. strchr-length c s b r q) (cc)
]
  where
    later :
        (o : Option (List ℕ × List ℕ))
        → ((b r : List ℕ) → o ≡ some (b, r) → (length r ≤ length s) × (1 ≤ length r))
        → Option.map {B = List ℕ × List ℕ} (λ (r : List ℕ × List ℕ). (x ∷ r.0, r.1)) o
          ≡ some (before, rest)
        → (length rest ≤ suc (length s)) × (1 ≤ length rest)
    later none f q = cc
    later (some (b, r)) f q = ground (arith, f b r refl)

drop-length : (s : List ℕ) → 1 ≤ length s → length (drop 1 s) + 1 ≡ length s
drop-length [] h = absurd (omega arith)
drop-length (x ∷ s) h = omega arith

module _ (lib : Numbers) where
  turn_of-rest :
      (r rest : List ℕ) (o : Option (ℕ × ℕ)) (x y : ℕ) → turn_of lib r o ≡ found x y rest → r ≡ rest
  unfolding turn_of
  turn_of-rest r rest none x y e = cc
  turn_of-rest r rest (some p) x y e = cc

  read_fields-rest :
      (s r rest : List ℕ) (x y : ℕ) → read_fields lib (some (s, r)) ≡ found x y rest → r ≡ rest
  unfolding read_fields
  read_fields-rest s r rest x y e = elim (Bool-cases (leb 256 (length s))) [
    | inl long ↦ cc
    | inr short ↦ turn_of-rest r rest (fields lib (lib.strsplit s 256 2)) x y (cc)
  ]

  -- Every turn that reads a pair leaves a shorter string.
  read_pair-length :
      (p0 rest : List ℕ) (x y : ℕ) → read_pair lib p0 ≡ found x y rest → length rest < length p0
  unfolding read_pair read_opened
  read_pair-length p0 rest x y e = opened (strchr 40 p0) (λ b p q. strchr-length 40 p0 b p q) e
    where
      closed :
          (p : List ℕ) (o : Option (List ℕ × List ℕ))
          → ((b r : List ℕ) → o ≡ some (b, r) → (length r ≤ length (drop 1 p)) × (1 ≤ length r))
          → read_fields lib o ≡ found x y rest
          → length rest ≤ length (drop 1 p)
      closed p none f q = cc
      closed p (some (s, r)) f q =
          omega (arith, (f s r refl).0, ap length (read_fields-rest s r rest x y q))

      opened :
          (o : Option (List ℕ × List ℕ))
          → ((b p : List ℕ) → o ≡ some (b, p) → (length p ≤ length p0) × (1 ≤ length p))
          → read_opened lib o ≡ found x y rest
          → length rest < length p0
      opened none f q = cc
      opened (some (b, p)) f q = omega (
        arith,
        (f b p refl).0,
        (f b p refl).1,
        drop-length p (f b p refl).1,
        closed p (strchr 41 (drop 1 p)) (λ s r k. strchr-length 41 (drop 1 p) s r k) q,
      )

  -- More turns than the string has characters are enough: with more fuel the loop answers the same.
  pub parse_pairs-fuel :
      (n m : ℕ) (p0 : List ℕ) (done : List (ℕ × ℕ))
      → length p0 < n
      → length p0 < m
      → parse_pairs lib n p0 done ≡ parse_pairs lib m p0 done
  unfolding parse_pairs store_pair
  parse_pairs-fuel zero m p0 done p q = absurd (omega arith)
  parse_pairs-fuel (suc n) zero p0 done p q = absurd (omega arith)
  parse_pairs-fuel (suc n) (suc m) p0 done p q =
      turn (read_pair lib p0) (λ x y rest e. read_pair-length p0 rest x y e)
        (λ rest pair short.
          parse_pairs-fuel n m rest (done ++ (pair ∷ [])) (omega arith) (omega arith))
    where
      next : ℕ → List ℕ → ℕ × ℕ → Option (List (ℕ × ℕ))
      next k rest pair = parse_pairs lib k rest (done ++ (pair ∷ []))

      turn :
          (t : Turn)
          → ((x y : ℕ) (rest : List ℕ) → t ≡ found x y rest → length rest < length p0)
          → ((rest : List ℕ) (pair : ℕ × ℕ)
              → length rest < length p0
              → parse_pairs lib n rest (done ++ (pair ∷ []))
                ≡ parse_pairs lib m rest (done ++ (pair ∷ [])))
          → store_pair lib done (λ rest pair. parse_pairs lib n rest (done ++ (pair ∷ []))) t
            ≡ store_pair lib done (λ rest pair. parse_pairs lib m rest (done ++ (pair ∷ []))) t
      turn finished f g = refl
      turn refused f g = refl
      turn (found x y rest) f g =
          ap (λ (later : Option (List (ℕ × ℕ))). if leb 16 (length done) then none else later)
            (g rest (x % 2 ^ 16, y % 2 ^ 16) (f x y rest refl))
