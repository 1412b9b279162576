-- ===== src/L2fwd/Lcores/Assigned.antt =====
-- Dpdk-lab/multi_thread/l2fwd-single-thread/main.c: the lcores that poll the ports.
use Prim.Native.Nat.{zero, suc}
use pwd_writeup.Base.{
  subst, ◌⊎◌, ℕ, ◌+◌, ◌≤◌, ◌<◌, ◌≡◌, ◌≢◌, refl, List, [], ◌∷◌, ◌++◌, Bool, true, false, ◌==◌, leb,
  if◌then◌else◌, Option, none, some, All, length, length-append, arith, Bool-cases, inl, inr,
}
use native.Mathlib.Decide.{ℕ_discrete}
use pwd_writeup.Base.Bits.{is_clear}
use pwd_writeup.L2fwd.Ports.{enabled_ports}
use pwd_writeup.L2fwd.Lcores.{Assignment, unassigned, passes_over, seek, bind, bound, assign}

module _ (max_lcore : ℕ) (is_enabled : ℕ → Bool) (limit : ℕ) where
  stays :
      (lists : ℕ → List ℕ) {id : ℕ} (found : ℕ)
      → id < max_lcore
      → passes_over max_lcore is_enabled limit lists id ≡ false
      → id ≡ found
      → (is_enabled found ≡ true) × (length (lists found) ≢ limit) × (found < max_lcore)
  unfolding passes_over
  stays lists found low stay same =
      let at = subst (λ i. passes_over max_lcore is_enabled limit lists i ≡ false) same stay in
      (ground arith, ground arith, omega arith)

  -- The lcore that the loop finds is enabled, is not full, and is below `max_lcore` or the first one.
  seek_lem :
      (fuel : ℕ) (lists : ℕ → List ℕ) (id found : ℕ)
      → id < max_lcore
      → seek max_lcore is_enabled limit fuel lists id ≡ some found
      → (is_enabled found ≡ true) × (length (lists found) ≢ limit) × (found < max_lcore)
  unfolding seek
  seek_lem zero lists id found low e = cc
  seek_lem (suc fuel) lists id found low e =
      elim (Bool-cases (passes_over max_lcore is_enabled limit lists id)) [
        | inl pass ↦ elim (Bool-cases (leb max_lcore (id + 1))) [
          | inl last ↦ cc
          | inr more ↦ seek_lem fuel lists (id + 1) found (ground arith) (cc)
        ]
        | inr stay ↦ stays lists found low stay (cc)
      ]

  -- The search fails only when every lcore from the first one on is disabled or full.
  pub seek-none :
      (fuel : ℕ) (lists : ℕ → List ℕ) (id j : ℕ)
      → max_lcore ≤ id + fuel
      → id ≤ j
      → j < max_lcore
      → seek max_lcore is_enabled limit fuel lists id ≡ none
      → passes_over max_lcore is_enabled limit lists j ≡ true
  unfolding seek
  seek-none zero lists id j enough from below e = absurd (omega arith)
  seek-none (suc fuel) lists id j enough from below e =
      elim (Bool-cases (passes_over max_lcore is_enabled limit lists id)) [
        | inl pass ↦ elim (ℕ_discrete id j) [
          | yes same ↦ subst (λ i. passes_over max_lcore is_enabled limit lists i ≡ true) same pass
          | no other ↦
              seek-none fuel lists (id + 1) j (omega arith) (omega arith) below (ground arith)
        ]
        | inr stay ↦ cc
      ]

  abbrev InList : ℕ → List ℕ → Type 0
  InList p [] = ⊥
  InList p (q ∷ qs) = (p ≡ q) ⊎ InList p qs

  InList-append : (p q : ℕ) (xs : List ℕ) → InList p xs → InList p (xs ++ (q ∷ []))
  InList-append p q [] there = absurd there
  InList-append p q (x ∷ xs) (inl same) = inl same
  InList-append p q (x ∷ xs) (inr there) = inr (InList-append p q xs there)

  InList-append_self : (p : ℕ) (xs : List ℕ) → InList p (xs ++ (p ∷ []))
  InList-append_self p [] = inl refl
  InList-append_self p (x ∷ xs) = inr (InList-append_self p xs)

  -- Some lcore polls the port.
  abbrev pub IsPolled : Assignment → ℕ → Type 0
  IsPolled a p = (i : ℕ) × InList p (a.rx_port_list i)

  -- Lcore `i` has at most `limit` ports, and none if it is disabled.
  abbrev pub IsFair : Assignment → ℕ → Type 0
  IsFair a i =
      (length (a.rx_port_list i) ≤ limit) × ((a.rx_port_list i ≡ []) ⊎ (is_enabled i ≡ true))

  bind_low :
      (a : Assignment) (id portid : ℕ)
      → id < max_lcore
      → (bind max_lcore is_enabled limit a id portid).rx_lcore_id < max_lcore
  unfolding bind
  bind_low a id portid low = low

  bind-IsFair :
      (a : Assignment) (id portid i : ℕ)
      → IsFair a i
      → is_enabled id ≡ true
      → length (a.rx_port_list id) ≢ limit
      → IsFair (bind max_lcore is_enabled limit a id portid) i
  unfolding bind
  bind-IsFair a id portid i f on room = either (i == id) refl
    where
      added : Bool → List ℕ
      added b = if b then a.rx_port_list i ++ (portid ∷ []) else a.rx_port_list i

      either :
          (b : Bool)
          → (i == id) ≡ b
          → (length (added b) ≤ limit) × ((added b ≡ []) ⊎ (is_enabled i ≡ true))
      either false e = f
      either true e =
          let same : id ≡ i = ground arith in
          let free = subst (λ j. length (a.rx_port_list j) ≢ limit) same room in
          (
            omega (arith, f.0, length-append (a.rx_port_list i) (portid ∷ [])),
            inr (subst (λ j. is_enabled j ≡ true) same on),
          )

  bind-IsPolled :
      (a : Assignment) (id portid p : ℕ)
      → IsPolled a p
      → IsPolled (bind max_lcore is_enabled limit a id portid) p
  unfolding bind
  bind-IsPolled a id portid p (i, there) = (i, either (i == id))
    where
      either :
          (b : Bool) → InList p (if b then a.rx_port_list i ++ (portid ∷ []) else a.rx_port_list i)
      either false = there
      either true = InList-append p portid (a.rx_port_list i) there

  bind_polls :
      (a : Assignment) (id portid : ℕ)
      → IsPolled (bind max_lcore is_enabled limit a id portid) portid
  unfolding bind
  bind_polls a id portid = (id, either (id == id) (ground arith))
    where
      either :
          (b : Bool)
          → b ≡ true
          → InList portid (if b then a.rx_port_list id ++ (portid ∷ []) else a.rx_port_list id)
      either false e = cc
      either true e = InList-append_self portid (a.rx_port_list id)

  bound-inv :
      (found : Option ℕ) (next : ℕ → Option Assignment) (a : Assignment)
      → bound max_lcore is_enabled limit found next ≡ some a
      → (id : ℕ) × (found ≡ some id) × (next id ≡ some a)
  unfolding bound
  bound-inv none next a e = cc
  bound-inv (some id) next a e = (id, refl, e)

  -- What the loop over `ports` from `a` to `a'` leaves.
  Assigns : ℕ → List ℕ → Assignment → Assignment → Type 0
  Assigns mask ports a a' =
      ((i : ℕ) → IsFair a' i)
      × ((p : ℕ) → IsPolled a p → IsPolled a' p)
      × All (IsPolled a') (enabled_ports mask ports)

  assign-Assigns :
      (mask : ℕ) (ports : List ℕ) (a a' : Assignment)
      → a.rx_lcore_id < max_lcore
      → ((i : ℕ) → IsFair a i)
      → assign max_lcore is_enabled limit mask ports a ≡ some a'
      → Assigns mask ports a a'
  unfolding Assigns assign enabled_ports
  assign-Assigns mask [] a a' low f e =
      let same : a ≡ a' = cc in
      (λ i. subst (λ x. IsFair x i) same (f i), λ p there. subst (λ x. IsPolled x p) same there, tt)
  assign-Assigns mask (portid ∷ rest) a a' low f e =
      either (is_clear mask portid) (λ a₁ low₁ f₁ e₁. assign-Assigns mask rest a₁ a' low₁ f₁ e₁) e
    where
      found : Option ℕ
      found = seek max_lcore is_enabled limit max_lcore a.rx_port_list a.rx_lcore_id

      next : ℕ → Option Assignment
      next id =
          assign max_lcore is_enabled limit mask rest (bind max_lcore is_enabled limit a id portid)

      either :
          (b : Bool)
          → ((a₁ : Assignment)
              → a₁.rx_lcore_id < max_lcore
              → ((i : ℕ) → IsFair a₁ i)
              → assign max_lcore is_enabled limit mask rest a₁ ≡ some a'
              → Assigns mask rest a₁ a')
          → (if b
              then assign max_lcore is_enabled limit mask rest a
              else bound max_lcore is_enabled limit found next)
            ≡ some a'
          → ((i : ℕ) → IsFair a' i)
            × ((p : ℕ) → IsPolled a p → IsPolled a' p)
            × All
                (IsPolled a')
                (if b then enabled_ports mask rest else portid ∷ enabled_ports mask rest)
      either true later e₁ = later a low f e₁
      either false later e₁ =
          let (id, at, e₂) = bound-inv found next a' e₁ in
          let (on, room, under) = seek_lem max_lcore a.rx_port_list a.rx_lcore_id id low at in
          let (fair, kept, polled) =
            later (bind max_lcore is_enabled limit a id portid) (bind_low a id portid under)
              (λ i. bind-IsFair a id portid i (f i) on room) e₂ in
          (
            fair,
            λ p there. kept p (bind-IsPolled a id portid p there),
            (kept portid (bind_polls a id portid), polled),
          )

  -- If main finds an lcore for every enabled port, then each of these ports is polled by some lcore;
  -- an lcore polls at most `limit` ports, and none if it is disabled.
  pub assign-IsFair :
      (mask : ℕ) (ports : List ℕ) (a' : Assignment) (i : ℕ)
      → 0 < max_lcore
      → assign max_lcore is_enabled limit mask ports unassigned ≡ some a'
      → IsFair a' i × All (IsPolled a') (enabled_ports mask ports)
  unfolding Assigns
  assign-IsFair mask ports a' i some_lcore e =
      let (fair, kept, polled) =
        assign-Assigns mask ports unassigned a' some_lcore (λ j. (omega arith, inl refl)) e in
      (fair i, polled)
