-- ===== src/L2fwd/Ports.antt =====
-- Dpdk-lab/multi_thread/l2fwd-single-thread/main.c: which ports are used, and where each one sends.
-- Ports are below 32, the width of the mask.
pub mod Checked
pub mod Linked
use pwd_writeup.Base.{
  ℕ, ◌^◌, List, [], ◌∷◌, Bool, true, false, not, ◌||◌, ◌==◌, if◌then◌else◌, bit_and, bit_or, Option,
  none, some,
}
use pwd_writeup.Base.Bits.{is_clear}
use mathlib.Core.Option

module _ (mask : ℕ) (is_valid : ℕ → Bool) where
  -- The two early returns for one port of a pair.
  unfoldable pub refuses : ℕ → Bool
  refuses portid = is_clear mask portid || not (is_valid portid)

  -- The loop over the pairs; `none` is `return -1`.
  unfoldable pub check_pairs : ℕ → List (ℕ × ℕ) → Option ℕ
  unfolding refuses
  check_pairs config_mask [] = some config_mask
  check_pairs config_mask ((a, b) ∷ rest) =
      let pair_mask = bit_or (bit_or 0 (2 ^ a)) (2 ^ b) in
      let next = check_pairs (bit_or config_mask pair_mask) rest in
      if refuses a || refuses b || not (bit_and config_mask pair_mask == 0) then none else next

  -- The new `l2fwd_enabled_port_mask`.
  unfoldable pub check_port_pair_config : List (ℕ × ℕ) → Option ℕ
  check_port_pair_config pairs = Option.map (λ m. bit_and mask m) (check_pairs 0 pairs)

-- `l2fwd_dst_ports[i] = v`
unfoldable pub update : (ℕ → ℕ) → ℕ → ℕ → ℕ → ℕ
update d i v j = if i == j then v else d j

-- Two entries that point at one another, the first one first.
unfoldable pub link : ℕ → ℕ → (ℕ → ℕ) → ℕ → ℕ
unfolding update
link a b d = update (update d a b) b a

-- The destinations of the configured pairs.
unfoldable pub from_pairs : List (ℕ × ℕ) → (ℕ → ℕ) → ℕ → ℕ
from_pairs [] d = d
from_pairs ((a, b) ∷ rest) d = from_pairs rest (link a b d)

-- The destinations where no pairs are configured: the loop over the ports with `last_port`, which
-- is set where `nb_ports_in_mask` is odd.
module _ (mask : ℕ) where
  unfoldable pub alternate : List ℕ → Option ℕ → (ℕ → ℕ) → ℕ → ℕ
  alternate [] none d = d
  alternate [] (some last_port) d = update d last_port last_port
  alternate (portid ∷ rest) none d =
      alternate rest (if is_clear mask portid then none else some portid) d
  alternate (portid ∷ rest) (some last_port) d =
      alternate rest (if is_clear mask portid then some last_port else none)
        (if is_clear mask portid then d else link portid last_port d)

  unfoldable pub enabled_ports : List ℕ → List ℕ
  enabled_ports [] = []
  enabled_ports (p ∷ ps) = let rest = enabled_ports ps in if is_clear mask p then rest else p ∷ rest

-- main: the destinations, from an array of zeros.
unfoldable pub destinations : Option (List (ℕ × ℕ)) → ℕ → List ℕ → ℕ → ℕ
destinations (some pairs) mask ports = from_pairs pairs (λ i. 0)
destinations none mask ports = alternate mask ports none (λ i. 0)
