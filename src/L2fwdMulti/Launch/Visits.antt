-- ===== src/L2fwdMulti/Launch/Visits.antt =====
-- Which lcores the loops of main visit.
use Prim.Native.Nat.{zero, suc}
use pwd_writeup.Base.{
  ℕ, ◌+◌, ◌≤◌, ◌<◌, List, [], ◌∷◌, ◌≡◌, ◌≢◌, Bool, true, false, ◌&&◌, ◌==◌, ltb, if◌then◌else◌,
  Bool-cases, inl, inr, arith,
}
use pwd_writeup.L2fwdMulti.Launch.{visits}

-- How often an lcore stands in a list.
unfoldable pub occurrences : ℕ → List ℕ → ℕ
occurrences l [] = 0
occurrences l (x ∷ xs) = (if l == x then 1 else 0) + occurrences l xs

-- What is documented of rte_get_next_lcore(i, 1, 0): it is the next enabled lcore after `i` that is
-- not the main one, or RTE_MAX_LCORE.
abbrev pub IsNextLcore : (ℕ → ℕ) → ℕ → (ℕ → Bool) → ℕ → Type 0
IsNextLcore next_lcore max_lcore is_enabled main =
    (i : ℕ)
    → i < max_lcore
    → (i < next_lcore i)
      × (next_lcore i ≤ max_lcore)
      × (next_lcore i < max_lcore → is_enabled (next_lcore i) ≡ true)
      × ((j : ℕ) → i < j → j < next_lcore i → j ≢ main → is_enabled j ≡ false)

module _ (next_lcore : ℕ → ℕ) (max_lcore : ℕ) (is_enabled : ℕ → Bool) (main : ℕ)
    (is_next : IsNextLcore next_lcore max_lcore is_enabled main) where
  visits_from :
      (fuel i l : ℕ)
      → i < max_lcore
      → main ≤ i
      → max_lcore ≤ fuel + i
      → occurrences l (visits next_lcore max_lcore fuel (next_lcore i))
        ≡ (if ltb i l && ltb l max_lcore && is_enabled l then 1 else 0)
  unfolding visits occurrences
  visits_from zero i l small above enough = absurd (omega arith)
  visits_from (suc fuel) i l small above enough =
      let (up, in_range, enabled, gap) = is_next i small in
      elim (Bool-cases (next_lcore i == max_lcore)) [
        | inl last ↦ ground (arith, up, gap l)
        | inr more ↦
            let rest =
              visits_from fuel (next_lcore i) l (ground arith) (omega arith) (omega arith) in
            let here = enabled (ground arith) in ground (arith, up, gap l, rest, here)
      ]

  -- If rte_get_next_lcore does what is documented, and the main lcore is below RTE_MAX_LCORE, the loop
  -- visits each enabled lcore above the main lcore once, and no other. Its fuel is enough.
  pub visits_lem :
      (l : ℕ)
      → main < max_lcore
      → occurrences l (visits next_lcore max_lcore max_lcore (next_lcore main))
        ≡ (if ltb main l && ltb l max_lcore && is_enabled l then 1 else 0)
  visits_lem l small = visits_from max_lcore main l small (omega arith) (omega arith)
