-- ===== src/Base/Bits.antt =====
-- Bits of a port mask: what `&`, `|` and `1 << n` do to each bit, for every width.
use Prim.Native.Nat.{
  ℕ, zero, suc, ◌+◌, ◌*◌, ◌/◌, ◌%◌, ◌^◌, ◌≤◌, ◌<◌, min, max, bit_and, bit_or, digits,
  bit_and-bitwise, bit_or-bitwise,
}
use mathlib.Core.Path.{◌≡◌, refl, sym, ap, ◌∙◌}
use mathlib.Core.Logic.{◌≢◌, ◌⊎◌, inl, inr}
use mathlib.Core.Bool.{Bool, true, false}
use native.Mathlib.Omega.{arith}
use pwd_writeup.Base.Tests.{◌==◌}
use native.Mathlib.Nat.{pow-suc}

-- The bit of `m` at place `i`.
abbrev pub bit : ℕ → ℕ → ℕ
bit m zero = m % 2
bit m (suc i) = bit (m / 2) i

-- One digit of a native operation, from the recursion that it stands for. `z` is what is left of
-- the second number when the first has run out.
module _ (z : ℕ → ℕ) (f : ℕ → ℕ → ℕ) where
  -- Zero has no digits, with any fuel.
  digits-zero : (fuel b : ℕ) → digits z f fuel 0 b ≡ z b
  digits-zero zero b = refl
  digits-zero (suc fuel) b = refl

  -- Two fuels that are both enough for `x` do not differ.
  digits_spare :
      (x y fuel spare : ℕ) → x ≤ fuel → x ≤ spare → digits z f fuel x y ≡ digits z f spare x y
  digits_spare zero y fuel spare enough more = digits-zero fuel y ∙ sym (digits-zero spare y)
  digits_spare (suc x) y zero spare enough more = absurd (omega arith)
  digits_spare (suc x) y (suc fuel) zero enough more = absurd (omega arith)
  digits_spare (suc x) y (suc fuel) (suc spare) enough more =
      ap (λ (k : ℕ). k * 2 + f (suc x % 2) (y % 2))
        (digits_spare (suc x / 2) (y / 2) fuel spare (omega arith) (omega arith))

  digits_step :
      (x y : ℕ)
      → digits z f (suc x) (suc x) y
        ≡ digits z f (suc x / 2) (suc x / 2) (y / 2) * 2 + f (suc x % 2) (y % 2)
  digits_step x y =
      ap (λ (k : ℕ). k * 2 + f (suc x % 2) (y % 2))
        (digits_spare (suc x / 2) (y / 2) x (suc x / 2) (omega arith) (omega arith))

zero-bit_and : (b : ℕ) → bit_and 0 b ≡ 0
zero-bit_and b = bit_and-bitwise 0 b

zero-bit_or : (b : ℕ) → bit_or 0 b ≡ b
zero-bit_or b = bit_or-bitwise 0 b

and_step : (a b : ℕ) → bit_and a b ≡ bit_and (a / 2) (b / 2) * 2 + min (a % 2) (b % 2)
and_step zero b = omega (arith, zero-bit_and b, zero-bit_and (b / 2))
and_step (suc a) b = omega (
  arith,
  bit_and-bitwise (suc a) b,
  bit_and-bitwise (suc a / 2) (b / 2),
  digits_step (λ (k : ℕ). zero) min a b,
)

or_step : (a b : ℕ) → bit_or a b ≡ bit_or (a / 2) (b / 2) * 2 + max (a % 2) (b % 2)
or_step zero b = omega (arith, zero-bit_or b, zero-bit_or (b / 2))
or_step (suc a) b = omega (
  arith,
  bit_or-bitwise (suc a) b,
  bit_or-bitwise (suc a / 2) (b / 2),
  digits_step (λ (k : ℕ). k) max a b,
)

pub bit-bit_and : (i a b : ℕ) → bit (bit_and a b) i ≡ min (bit a i) (bit b i)
bit-bit_and zero a b = omega (arith, and_step a b)
bit-bit_and (suc i) a b = ap (λ k. bit k i) half ∙ bit-bit_and i (a / 2) (b / 2)
  where
    half : bit_and a b / 2 ≡ bit_and (a / 2) (b / 2)
    half = omega (arith, and_step a b)

pub bit-bit_or : (i a b : ℕ) → bit (bit_or a b) i ≡ max (bit a i) (bit b i)
bit-bit_or zero a b = omega (arith, or_step a b)
bit-bit_or (suc i) a b = ap (λ k. bit k i) half ∙ bit-bit_or i (a / 2) (b / 2)
  where
    half : bit_or a b / 2 ≡ bit_or (a / 2) (b / 2)
    half = omega (arith, or_step a b)

pub bit-zero : (i : ℕ) → bit 0 i ≡ 0
bit-zero zero = refl
bit-zero (suc i) = bit-zero i

halve_pow : (i : ℕ) → 2 ^ suc i / 2 ≡ 2 ^ i
halve_pow i = omega (arith, pow-suc 2 i)

pub bit-pow_self : (i : ℕ) → bit (2 ^ i) i ≡ 1
bit-pow_self zero = refl
bit-pow_self (suc i) = ap (λ k. bit k i) (halve_pow i) ∙ bit-pow_self i

pub bit-pow_ne : (i j : ℕ) → i ≢ j → bit (2 ^ i) j ≡ 0
bit-pow_ne zero zero h = absurd (h refl)
bit-pow_ne zero (suc j) h = bit-zero j
bit-pow_ne (suc i) zero h = omega (arith, pow-suc 2 i)
bit-pow_ne (suc i) (suc j) h = ap (λ k. bit k j) (halve_pow i) ∙ bit-pow_ne i j (λ e. h (ap suc e))

and-zero_fuel : (n a : ℕ) → a ≤ n → bit_and a 0 ≡ 0
and-zero_fuel n zero h = refl
and-zero_fuel zero (suc a) h = absurd (omega arith)
and-zero_fuel (suc n) (suc a) h =
    omega (arith, and_step (suc a) 0, and-zero_fuel n (suc a / 2) (omega arith))

bit_and-zero : (a : ℕ) → bit_and a 0 ≡ 0
bit_and-zero a = and-zero_fuel a a (omega arith)

-- `m & (1 << i)` is the bit at its place.
pub bit_and-pow : (i m : ℕ) → bit_and m (2 ^ i) ≡ bit m i * 2 ^ i
bit_and-pow zero m = omega (arith, and_step m 1, bit_and-zero (m / 2))
bit_and-pow (suc i) m =
    and_step m (2 ^ suc i)
    ∙ omega (
      arith,
      pow-suc 2 i,
      ap (λ (k : ℕ). bit_and (m / 2) k) (halve_pow i),
      ap (λ (k : ℕ). bit m (suc i) * k) (pow-suc 2 i),
      bit_and-pow i (m / 2),
    )

pub bit_le_one : (i m : ℕ) → bit m i ≤ 1
bit_le_one zero m = omega arith
bit_le_one (suc i) m = bit_le_one i (m / 2)

pow_pos : (i : ℕ) → 0 < 2 ^ i
pow_pos zero = omega arith
pow_pos (suc i) = omega (arith, pow-suc 2 i, pow_pos i)

-- Two masks without a common bit.
pub bit_and-disjoint : (i a b : ℕ) → bit_and a b ≡ 0 → min (bit a i) (bit b i) ≡ 0
bit_and-disjoint i a b h = rw (← bit-bit_and i a b, h) (bit-zero i)

-- `(m & (1 << i)) == 0`, as the programs test it.
abbrev pub is_clear : ℕ → ℕ → Bool
is_clear m i = bit_and m (2 ^ i) == 0

pub is_clear-bit : (m i : ℕ) → is_clear m i ≡ false → bit m i ≡ 1
is_clear-bit m i h =
    ground (arith, bit_and-pow i m, bit_le_one i m, ap (λ (k : ℕ). k * 2 ^ i), pow_pos i)

pub bit-is_clear : (m i : ℕ) → is_clear m i ≡ true → bit m i ≡ 0
bit-is_clear m i h = elim (bit_cases (bit m i) (bit_le_one i m)) [
  | inl e ↦ e
  | inr e ↦ absurd (ground (arith, bit_and-pow i m, ap (λ (k : ℕ). k * 2 ^ i) e, pow_pos i))
]
  where
    bit_cases : (b : ℕ) → b ≤ 1 → (b ≡ 0) ⊎ (b ≡ 1)
    bit_cases b h = omega arith
