-- ===== src/L2fwd/Ports/Linked.antt =====
-- Where the ports of the configured pairs send.
use pwd_writeup.Base.{
  refl, Bool-cases, inl, inr, Option, none, some, Distinct, ℕ, ◌≡◌, ◌≢◌, ◌∙◌, List, [], ◌∷◌, All,
  All-map, arith,
}
use pwd_writeup.Base.Bits.{is_clear}
use pwd_writeup.L2fwd.Ports.{update, link, from_pairs, alternate, destinations, enabled_ports}
use pwd_writeup.L2fwd.Ports.Checked.{Apart, Separate}

-- A port that is in none of the pairs keeps its destination.
from_pairs_other :
    (pairs : List (ℕ × ℕ)) (d : ℕ → ℕ) (i : ℕ)
    → All (λ p. (i ≢ p.0) × (i ≢ p.1)) pairs
    → from_pairs pairs d i ≡ d i
unfolding from_pairs link update
from_pairs_other [] d i off = ground arith
from_pairs_other ((a, b) ∷ rest) d i off =
    from_pairs_other rest (link a b d) i off.1 ∙ ground (arith, off.0.0, off.0.1)

update_self : (i : ℕ) (d : ℕ → ℕ) → update d i i i ≡ i
unfolding update
update_self i d = ground arith

link_first : (a b : ℕ) (d : ℕ → ℕ) → link a b d a ≡ b
unfolding link update
link_first a b d = ground arith

link_second : (a b : ℕ) (d : ℕ → ℕ) → link a b d b ≡ a
unfolding link update
link_second a b d = ground arith

-- Where no port stands in two pairs, as check_port_pair_config has tested, the two ports of every
-- pair send to one another.
pub from_pairs_lem :
    (pairs : List (ℕ × ℕ)) (d : ℕ → ℕ)
    → Separate pairs
    → All (λ p. (from_pairs pairs d p.0 ≡ p.1) × (from_pairs pairs d p.1 ≡ p.0)) pairs
unfolding from_pairs
from_pairs_lem [] d s = tt
from_pairs_lem ((a, b) ∷ rest) d s =
    let first = All-map (Apart (a, b)) (λ p. (a ≢ p.0) × (a ≢ p.1)) rest (λ p u. (u.0, u.1)) s.0 in
    let second = All-map (Apart (a, b)) (λ p. (b ≢ p.0) × (b ≢ p.1)) rest (λ p u. (u.2, u.3)) s.0 in
    (
      (
        from_pairs_other rest (link a b d) a first ∙ link_first a b d,
        from_pairs_other rest (link a b d) b second ∙ link_second a b d,
      ),
      from_pairs_lem rest (link a b d) s.1,
    )

-- Neighbours in the list send to one another, and the last of an odd list to itself.
abbrev pub ArePaired : (ℕ → ℕ) → List ℕ → Type 0
ArePaired d [] = Unit
ArePaired d (p ∷ []) = d p ≡ p
ArePaired d (p ∷ q ∷ rest) = (d p ≡ q) × (d q ≡ p) × ArePaired d rest

-- `last_port`, where it waits for a neighbour, before the ports still to come.
abbrev waiting : Option ℕ → List ℕ → List ℕ
waiting none ps = ps
waiting (some l) ps = l ∷ ps

module _ (mask : ℕ) where
  -- A port that does not wait and is not visited keeps its destination.
  alternate_other :
      (ports : List ℕ) (last : Option ℕ) (d : ℕ → ℕ) (i : ℕ)
      → All (λ p. i ≢ p) (waiting last ports)
      → alternate mask ports last d i ≡ d i
  unfolding alternate link update
  alternate_other [] none d i off = refl
  alternate_other [] (some l) d i off = ground (arith, off.0)
  alternate_other (p ∷ rest) none d i off = elim (Bool-cases (is_clear mask p)) [
    | inl skip ↦ rw skip (alternate_other rest none d i off.1)
    | inr taken ↦ rw taken (alternate_other rest (some p) d i off)
  ]
  alternate_other (p ∷ rest) (some l) d i off = elim (Bool-cases (is_clear mask p)) [
    | inl skip ↦ rw skip (alternate_other rest (some l) d i (off.0, off.1.1))
    | inr taken ↦
        rw taken (alternate_other rest none (link p l d) i off.1.1 ∙ ground (arith, off.0, off.1.0))
  ]

  waiting-ArePaired :
      (ports : List ℕ) (last : Option ℕ) (d : ℕ → ℕ)
      → Distinct (waiting last ports)
      → ArePaired (alternate mask ports last d) (waiting last (enabled_ports mask ports))
  unfolding alternate enabled_ports
  waiting-ArePaired [] none d apart = tt
  waiting-ArePaired [] (some l) d apart = update_self l d
  waiting-ArePaired (p ∷ rest) none d apart = elim (Bool-cases (is_clear mask p)) [
    | inl skip ↦ rw skip (waiting-ArePaired rest none d apart.1)
    | inr taken ↦ rw taken (waiting-ArePaired rest (some p) d apart)
  ]
  waiting-ArePaired (p ∷ rest) (some l) d apart = elim (Bool-cases (is_clear mask p)) [
    | inl skip ↦ rw skip (waiting-ArePaired rest (some l) d (apart.0.1, apart.1.1))
    | inr taken ↦ rw taken (
      alternate_other rest none (link p l d) l apart.0.1 ∙ link_second p l d,
      alternate_other rest none (link p l d) p apart.1.0 ∙ link_first p l d,
      waiting-ArePaired rest none (link p l d) apart.1.1,
    )
  ]

-- Without configured pairs, and where the ports are distinct, each enabled port and the next one
-- send to one another, and the last of an odd number sends to itself.
pub destinations-ArePaired :
    (mask : ℕ) (ports : List ℕ)
    → Distinct ports
    → ArePaired (destinations none mask ports) (enabled_ports mask ports)
unfolding destinations
destinations-ArePaired mask ports apart = waiting-ArePaired mask ports none (λ i. 0) apart
