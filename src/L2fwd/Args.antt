-- ===== src/L2fwd/Args.antt =====
-- Dpdk-lab/multi_thread/l2fwd-single-thread/main.c: the command line. A string is its bytes without
-- the final zero. `strtoul`, `strtol` and `rte_strsplit` are parameters: the first two answer a value
-- of 64 bits, the rest of the string from `end`, and whether `errno` was set.
pub mod Bounds
pub mod Fuel
use Prim.Native.Nat.{zero, suc}
use pwd_writeup.Base.{
  ℕ, ◌+◌, ◌-◌, ◌/◌, ◌%◌, ◌^◌, ℤ, pos, negsuc, is_neg, List, [], ◌∷◌, ◌++◌, Bool, true, false, ◌||◌,
  not, ◌==◌, ltb, leb, if◌then◌else◌, Option, none, some, length, drop,
}
use mathlib.Core.Option

-- `RTE_MAX_ETHPORTS`, `MAX_RX_QUEUE_PER_LCORE` and `MAX_TIMER_PERIOD`
abbrev pub max_ethports : ℕ
max_ethports = 32

abbrev pub max_rx_queue_per_lcore : ℕ
max_rx_queue_per_lcore = 16

abbrev pub max_timer_period : ℕ
max_timer_period = 86400

-- What the C library answers.
pub record Numbers : Type 0 where
  pub strtoul : List ℕ → ℕ → ℕ × List ℕ × Bool
  pub strtol : List ℕ → ℕ → ℤ × List ℕ × Bool
  pub strsplit : List ℕ → ℕ → ℕ → List (List ℕ)

-- The static variables that the options set, and their values before.
pub record Options : Type 0 where
  pub enabled_port_mask : ℕ
  pub promiscuous_on : Bool
  pub rx_queue_per_lcore : ℕ
  pub timer_period : ℕ
  pub mac_updating : Bool
  pub port_pair_params : Option (List (ℕ × ℕ))

abbrev pub initial_options : Options
initial_options = record {
  enabled_port_mask = 0;
  promiscuous_on = false;
  rx_queue_per_lcore = 1;
  timer_period = 10;
  mac_updating = true;
  port_pair_params = none;
}

-- The `case` labels of l2fwd_parse_args with their `optarg`.
pub data Opt : Type 0 where
  portmask nqueue timer portmap : List ℕ → Opt
  promiscuous no_mac_updating unknown : Opt

-- How a turn of the loop over the pairs ends.
pub data Turn : Type 0 where
  finished refused : Turn
  found : ℕ → ℕ → List ℕ → Turn

-- The assignment of a `long` to an `int`.
unfoldable pub to_int : ℤ → ℤ
to_int (pos n) =
    if ltb (n % 2 ^ 32) (2 ^ 31) then pos (n % 2 ^ 32) else negsuc (2 ^ 32 - n % 2 ^ 32 - 1)
to_int (negsuc n) =
    if ltb (n % 2 ^ 32) (2 ^ 31) then negsuc (n % 2 ^ 32) else pos (2 ^ 32 - 1 - n % 2 ^ 32)

unfoldable pub is_empty : List ℕ → Bool
is_empty [] = true
is_empty (c ∷ s) = false

-- `strchr`: what stands before the first `c`, and the string from that `c` on.
unfoldable pub strchr : ℕ → List ℕ → Option (List ℕ × List ℕ)
strchr c [] = none
strchr c (x ∷ s) =
    let later = Option.map (λ r. (x ∷ r.0, r.1)) (strchr c s) in
    if x == c then some ([], x ∷ s) else later

module _ (lib : Numbers) where
  open lib use {strtoul, strtol, strsplit}

  unfoldable pub l2fwd_parse_portmask : List ℕ → ℕ
  unfolding is_empty
  l2fwd_parse_portmask q_arg =
      let (pm, rest, err) = strtoul q_arg 16 in
      if is_empty q_arg || not (is_empty rest) then 0 else pm % 2 ^ 32

  unfoldable pub l2fwd_parse_nqueue : List ℕ → ℕ
  unfolding is_empty
  l2fwd_parse_nqueue q_arg =
      let (n, rest, err) = strtoul q_arg 10 in
      if is_empty q_arg || not (is_empty rest)
      then 0
      else if n == 0
      then 0
      else if leb max_rx_queue_per_lcore n
      then 0
      else n % 2 ^ 32

  -- `n >= MAX_TIMER_PERIOD`, for a signed `n`.
  unfoldable pub at_least : ℕ → ℤ → Bool
  at_least k (pos n) = leb k n
  at_least k (negsuc n) = false

  unfoldable pub l2fwd_parse_timer_period : List ℕ → ℤ
  unfolding is_empty to_int at_least
  l2fwd_parse_timer_period q_arg =
      let (v, rest, err) = strtol q_arg 10 in
      let n = to_int v in
      if is_empty q_arg || not (is_empty rest)
      then negsuc 0
      else if at_least max_timer_period n
      then negsuc 0
      else n

  -- One field of a pair, or the error.
  unfoldable pub field : List ℕ → Option ℕ
  field str_fld =
      let (int_fld, rest, err) = strtoul str_fld 0 in
      if err || (length rest == length str_fld) || leb max_ethports int_fld
      then none
      else some int_fld

  unfoldable pub both : Option ℕ → Option ℕ → Option (ℕ × ℕ)
  both (some x) (some y) = some (x, y)
  both none y = none
  both (some x) none = none

  -- The two fields between the parentheses.
  unfoldable pub fields : List (List ℕ) → Option (ℕ × ℕ)
  unfolding field both
  fields (a ∷ b ∷ []) = both (field a) (field b)
  fields [] = none
  fields (a ∷ []) = none
  fields (a ∷ b ∷ c ∷ more) = none

  unfoldable pub turn_of : List ℕ → Option (ℕ × ℕ) → Turn
  turn_of rest none = refused
  turn_of rest (some (x, y)) = found x y rest

  -- From the text up to the ')', and the string from there.
  unfoldable pub read_fields : Option (List ℕ × List ℕ) → Turn
  unfolding fields turn_of
  read_fields none = refused
  read_fields (some (s, rest)) =
      if leb 256 (length s) then refused else turn_of rest (fields (strsplit s 256 2))

  -- From the string at the '('.
  unfoldable pub read_opened : Option (List ℕ × List ℕ) → Turn
  unfolding strchr read_fields
  read_opened none = finished
  read_opened (some (before, p)) = read_fields (strchr 41 (drop 1 p))

  -- One turn of the `while` loop up to the count of the pairs: there is no '(' left, the text is
  -- refused, or a pair is read and the string goes on at its ')'.
  unfoldable pub read_pair : List ℕ → Turn
  unfolding strchr read_opened
  read_pair p0 = read_opened (strchr 40 p0)

  -- The rest of a turn, and the turns after it, where `done` holds the pairs stored so far.
  unfoldable pub store_pair :
      List (ℕ × ℕ) → (List ℕ → ℕ × ℕ → Option (List (ℕ × ℕ))) → Turn → Option (List (ℕ × ℕ))
  store_pair done next finished = some done
  store_pair done next refused = none
  store_pair done next (found x y rest) =
      let later = next rest (x % 2 ^ 16, y % 2 ^ 16) in
      if leb (max_ethports / 2) (length done) then none else later

  -- The loop; every turn takes a '(' off the string.
  unfoldable pub parse_pairs : ℕ → List ℕ → List (ℕ × ℕ) → Option (List (ℕ × ℕ))
  unfolding read_pair store_pair
  parse_pairs zero p0 done = some done
  parse_pairs (suc n) p0 done =
      store_pair done (λ rest pair. parse_pairs n rest (done ++ (pair ∷ []))) (read_pair p0)

  unfoldable pub l2fwd_parse_port_pair_config : List ℕ → Option (List (ℕ × ℕ))
  unfolding parse_pairs
  l2fwd_parse_port_pair_config q_arg = parse_pairs (suc (length q_arg)) q_arg []

  -- The tests of the two results, and what follows when they pass.
  unfoldable pub timed : ℤ → (ℕ → Option Options) → Option Options
  timed (pos secs) next = next secs
  timed (negsuc k) next = none

  unfoldable pub configured :
      Option (List (ℕ × ℕ)) → (List (ℕ × ℕ) → Option Options) → Option Options
  configured (some pairs) next = next pairs
  configured none next = none

  -- The loop over getopt_long's answers; `none` is `return -1`.
  unfoldable pub l2fwd_parse_args : Options → List Opt → Option Options
  unfolding timed configured
  l2fwd_parse_args o [] = some o
  l2fwd_parse_args o (portmask optarg ∷ rest) =
      let mask = l2fwd_parse_portmask optarg in
      let next = l2fwd_parse_args (record o { enabled_port_mask = mask }) rest in
      if mask == 0 then none else next
  l2fwd_parse_args o (promiscuous ∷ rest) =
      l2fwd_parse_args (record o { promiscuous_on = true }) rest
  l2fwd_parse_args o (nqueue optarg ∷ rest) =
      let n = l2fwd_parse_nqueue optarg in
      let next = l2fwd_parse_args (record o { rx_queue_per_lcore = n }) rest in
      if n == 0 then none else next
  l2fwd_parse_args o (timer optarg ∷ rest) =
      timed (l2fwd_parse_timer_period optarg)
        (λ secs. l2fwd_parse_args (record o { timer_period = secs }) rest)
  l2fwd_parse_args o (portmap optarg ∷ rest) =
      configured (l2fwd_parse_port_pair_config optarg)
        (λ pairs. l2fwd_parse_args (record o { port_pair_params = some pairs }) rest)
  l2fwd_parse_args o (no_mac_updating ∷ rest) =
      l2fwd_parse_args (record o { mac_updating = false }) rest
  l2fwd_parse_args o (unknown ∷ rest) = none
