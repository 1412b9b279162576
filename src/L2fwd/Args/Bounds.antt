-- ===== src/L2fwd/Args/Bounds.antt =====
-- Dpdk-lab/multi_thread/l2fwd-single-thread/main.c: what the parsers of the command line let through,
-- whatever the C library answers.
use Prim.Native.Nat.{zero, suc}
use pwd_writeup.Base.{
  ℤ, negsuc, true, false, ◌==◌, subst, ◌⊎◌, inl, inr, leb, drop, ℕ, ◌%◌, ◌^◌, ◌≤◌, ◌<◌, ◌≡◌, List,
  [], ◌∷◌, ◌++◌, Option, none, some, All, length, length-append, arith, Bool-cases, pos, refl,
}
use pwd_writeup.L2fwd.Args.{
  Numbers, Options, Opt, portmask, promiscuous, nqueue, timer, portmap, no_mac_updating, unknown,
  Turn, finished, refused, found, l2fwd_parse_portmask, l2fwd_parse_nqueue,
  l2fwd_parse_timer_period, timed, configured, store_pair, field, both, turn_of, read_fields,
  read_opened, strchr, fields, read_pair, parse_pairs, l2fwd_parse_port_pair_config,
  l2fwd_parse_args,
}

-- Both ports of a pair fit the port tables.
abbrev pub IsSmall : ℕ × ℕ → Type 0
IsSmall p = (p.0 < 32) × (p.1 < 32)

-- The pairs fit `port_pair_params_array`.
abbrev pub Fits : Option (List (ℕ × ℕ)) → Type 0
Fits none = Unit
Fits (some pairs) = All IsSmall pairs × (length pairs ≤ 16)

abbrev pub IsValid : Options → Type 0
IsValid o =
    (o.enabled_port_mask < 2 ^ 32)
    × (1 ≤ o.rx_queue_per_lcore)
    × (o.rx_queue_per_lcore < 16)
    × (o.timer_period < 86400)
    × Fits o.port_pair_params

All-append :
    (ps : List (ℕ × ℕ)) {q : ℕ × ℕ} → All IsSmall ps → IsSmall q → All IsSmall (ps ++ (q ∷ []))
All-append [] h k = (k, tt)
All-append (p ∷ ps) h k = (h.0, All-append ps h.1 k)

stored :
    (done pairs : List (ℕ × ℕ))
    → All IsSmall done
    → length done ≤ 16
    → done ≡ pairs
    → Fits (some pairs)
stored done pairs small few e = subst (λ ps. Fits (some ps)) e (small, few)

some-inj : (o o' : Options) → some o ≡ some o' → o ≡ o'
some-inj o o' e = cc

module _ (lib : Numbers) where
  field-bound : (s : List ℕ) (n : ℕ) → field lib s ≡ some n → n < 32
  unfolding field
  field-bound s n e = ground arith

  both-bound : (m n : Option ℕ) (x y : ℕ) → both lib m n ≡ some (x, y) → (m ≡ some x) × (n ≡ some y)
  unfolding both
  both-bound none n x y e = cc
  both-bound (some i) none x y e = cc
  both-bound (some i) (some j) x y e = ground arith

  fields-bound : (ss : List (List ℕ)) (x y : ℕ) → fields lib ss ≡ some (x, y) → IsSmall (x, y)
  unfolding fields
  fields-bound [] x y e = cc
  fields-bound (a ∷ []) x y e = cc
  fields-bound (a ∷ b ∷ []) x y e =
      let (first, second) = both-bound (field lib a) (field lib b) x y e in
      (field-bound a x first, field-bound b y second)
  fields-bound (a ∷ b ∷ c ∷ more) x y e = cc

  turn_of-bound :
      (r rest : List ℕ) (o : Option (ℕ × ℕ)) (x y : ℕ)
      → turn_of lib r o ≡ found x y rest
      → o ≡ some (x, y)
  unfolding turn_of
  turn_of-bound r rest none x y e = cc
  turn_of-bound r rest (some p) x y e = ground arith

  read_fields-bound :
      (o : Option (List ℕ × List ℕ)) (x y : ℕ) (rest : List ℕ)
      → read_fields lib o ≡ found x y rest
      → IsSmall (x, y)
  unfolding read_fields
  read_fields-bound none x y rest e = cc
  read_fields-bound (some (s, r)) x y rest e = elim (Bool-cases (leb 256 (length s))) [
    | inl long ↦ cc
    | inr short ↦
        fields-bound (lib.strsplit s 256 2) x y
          (turn_of-bound r rest (fields lib (lib.strsplit s 256 2)) x y (cc))
  ]

  read_pair-bound :
      (p0 : List ℕ) (x y : ℕ) (rest : List ℕ) → read_pair lib p0 ≡ found x y rest → IsSmall (x, y)
  unfolding read_pair read_opened
  read_pair-bound p0 x y rest e = opened (strchr 40 p0) e
    where
      opened : (o : Option (List ℕ × List ℕ)) → read_opened lib o ≡ found x y rest → IsSmall (x, y)
      opened none e = cc
      opened (some (before, p)) e = read_fields-bound (strchr 41 (drop 1 p)) x y rest e

  store_pair-inv :
      (done pairs : List (ℕ × ℕ)) (next : List ℕ → ℕ × ℕ → Option (List (ℕ × ℕ))) (t : Turn)
      → store_pair lib done next t ≡ some pairs
      → (done ≡ pairs)
        ⊎ ((x : ℕ) × (y : ℕ) × (rest : List ℕ) × (t ≡ found x y rest)
            × (length done < 16)
            × (next rest (x % 2 ^ 16, y % 2 ^ 16) ≡ some pairs))
  unfolding store_pair
  store_pair-inv done pairs next finished e = inl (cc)
  store_pair-inv done pairs next refused e = cc
  store_pair-inv done pairs next (found x y rest) e = elim (Bool-cases (leb 16 (length done))) [
    | inl full ↦ cc
    | inr free ↦ inr (x, y, rest, refl, ground arith, ground arith)
  ]

  -- The loop stores at most 16 pairs, each of two small ports.
  parse_pairs-bound :
      (n : ℕ) (p0 : List ℕ) (done pairs : List (ℕ × ℕ))
      → All IsSmall done
      → length done ≤ 16
      → parse_pairs lib n p0 done ≡ some pairs
      → Fits (some pairs)
  unfolding parse_pairs
  parse_pairs-bound zero p0 done pairs small few e = stored done pairs small few (cc)
  parse_pairs-bound (suc n) p0 done pairs small few e =
      elim (store_pair-inv done pairs (λ rest pair. parse_pairs lib n rest (done ++ (pair ∷ [])))
        (read_pair lib p0) e) [
          | inl same ↦ stored done pairs small few same
          | inr (x, y, rest, read, room, later) ↦
              let (left, right) = read_pair-bound p0 x y rest read in
              parse_pairs-bound n rest (done ++ ((x % 2 ^ 16, y % 2 ^ 16) ∷ [])) pairs
                (All-append done small (ground arith, ground arith))
                (omega (arith, length-append done ((x % 2 ^ 16, y % 2 ^ 16) ∷ []))) later
        ]

  port_pair_config-Fits :
      (s : List ℕ) (pairs : List (ℕ × ℕ))
      → l2fwd_parse_port_pair_config lib s ≡ some pairs
      → Fits (some pairs)
  unfolding l2fwd_parse_port_pair_config
  port_pair_config-Fits s pairs e = parse_pairs-bound (suc (length s)) s [] pairs tt (omega arith) e

  nqueue-bound : (s : List ℕ) → l2fwd_parse_nqueue lib s < 16
  unfolding l2fwd_parse_nqueue
  nqueue-bound s = ground arith

  timer-bound : (s : List ℕ) (n : ℕ) → l2fwd_parse_timer_period lib s ≡ pos n → n < 86400
  unfolding l2fwd_parse_timer_period
  timer-bound s n e = ground arith

  portmask-bound : (s : List ℕ) → l2fwd_parse_portmask lib s < 2 ^ 32
  unfolding l2fwd_parse_portmask
  portmask-bound s = ground arith

  timed-inv :
      (r : ℤ) (next : ℕ → Option Options) (o' : Options)
      → timed lib r next ≡ some o'
      → (n : ℕ) × (r ≡ pos n) × (next n ≡ some o')
  unfolding timed
  timed-inv (pos n) next o' e = (n, refl, e)
  timed-inv (negsuc n) next o' e = cc

  configured-inv :
      (r : Option (List (ℕ × ℕ))) (next : List (ℕ × ℕ) → Option Options) (o' : Options)
      → configured lib r next ≡ some o'
      → (pairs : List (ℕ × ℕ)) × (r ≡ some pairs) × (next pairs ≡ some o')
  unfolding configured
  configured-inv none next o' e = cc
  configured-inv (some pairs) next o' e = (pairs, refl, e)

  -- From variables in range, whatever the options are and whatever the C library answers, the
  -- parser refuses or leaves the variables in range: a mask of 32 bits, 1 to 15 queues for an lcore,
  -- a period under a day, and at most 16 pairs of ports below 32.
  pub parse_args-IsValid :
      (o o' : Options) (opts : List Opt)
      → IsValid o
      → l2fwd_parse_args lib o opts ≡ some o'
      → IsValid o'
  unfolding l2fwd_parse_args
  parse_args-IsValid o o' [] v e = subst IsValid (some-inj o o' e) v
  parse_args-IsValid o o' (portmask s ∷ rest) v e =
      elim (Bool-cases (l2fwd_parse_portmask lib s == 0)) [
        | inl bad ↦ cc
        | inr good ↦
            parse_args-IsValid (record o { enabled_port_mask = l2fwd_parse_portmask lib s }) o' rest
              (portmask-bound s, v.1, v.2, v.3, v.4) (cc)
      ]
  parse_args-IsValid o o' (promiscuous ∷ rest) v e =
      parse_args-IsValid (record o { promiscuous_on = true }) o' rest v e
  parse_args-IsValid o o' (nqueue s ∷ rest) v e =
      elim (Bool-cases (l2fwd_parse_nqueue lib s == 0)) [
        | inl bad ↦ cc
        | inr good ↦
            parse_args-IsValid (record o { rx_queue_per_lcore = l2fwd_parse_nqueue lib s }) o' rest
              (v.0, ground arith, nqueue-bound s, v.3, v.4) (cc)
      ]
  parse_args-IsValid o o' (timer s ∷ rest) v e =
      let (n, r, later) =
        timed-inv (l2fwd_parse_timer_period lib s)
          (λ secs. l2fwd_parse_args lib (record o { timer_period = secs }) rest) o' e in
      parse_args-IsValid (record o { timer_period = n }) o' rest
        (v.0, v.1, v.2, timer-bound s n r, v.4) later
  parse_args-IsValid o o' (portmap s ∷ rest) v e =
      let (pairs, r, later) =
        configured-inv (l2fwd_parse_port_pair_config lib s)
          (λ pairs. l2fwd_parse_args lib (record o { port_pair_params = some pairs }) rest) o' e in
      parse_args-IsValid (record o { port_pair_params = some pairs }) o' rest
        (v.0, v.1, v.2, v.3, port_pair_config-Fits s pairs r) later
  parse_args-IsValid o o' (no_mac_updating ∷ rest) v e =
      parse_args-IsValid (record o { mac_updating = false }) o' rest v e
  parse_args-IsValid o o' (unknown ∷ rest) v e = cc
