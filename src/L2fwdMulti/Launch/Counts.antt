-- ===== src/L2fwdMulti/Launch/Counts.antt =====
-- How the launches of main add up.
pub mod Kept
use Prim.Native.Nat.{suc}
use pwd_writeup.Base.{
  ℕ, ◌+◌, List, [], ◌∷◌, ◌≡◌, refl, ◌∙◌, sym, ap, Bool, true, false, not, ◌&&◌, ◌||◌, ◌==◌,
  if◌then◌else◌, Bool-cases, inl, inr, length, range, range_from, arith,
}
use pwd_writeup.Dpdk.{Env, crypto, forwarding, Event, event, History, system, remote_launch}
use pwd_writeup.Dpdk.Monad.{◌>>◌, next, each, pure, Preserves, each-Preserves, >>=-inv, >>=-run}
use pwd_writeup.L2fwdMulti.Launch.{
  choose_crypto, is_crypto, create_ring_pair, create_rings, launch_crypto, launch_forwarding,
  launch_lcores, max_crypto_workers,
}
use pwd_writeup.L2fwdMulti.Launch.Visits.{occurrences}

-- How often lcore `l` was launched as a cipher worker, how often to forward, and how often a worker
-- was launched as number `i`.
as_crypto : ℕ → Event → ℕ
as_crypto l (event (system (remote_launch (crypto i) k)) r) = if l == k then 1 else 0
as_crypto l (event c r) = 0

as_forwarding : ℕ → Event → ℕ
as_forwarding l (event (system (remote_launch forwarding k)) r) = if l == k then 1 else 0
as_forwarding l (event c r) = 0

as_worker : ℕ → Event → ℕ
as_worker i (event (system (remote_launch (crypto j) k)) r) = if i == j then 1 else 0
as_worker i (event c r) = 0

unfoldable pub total : (Event → ℕ) → History → ℕ
total f [] = 0
total f (e ∷ h) = f e + total f h

unfoldable pub crypto_launches : ℕ → History → ℕ
unfolding total as_crypto
crypto_launches l h = total (as_crypto l) h

unfoldable pub forwarding_launches : ℕ → History → ℕ
unfolding total as_forwarding
forwarding_launches l h = total (as_forwarding l) h

unfoldable pub worker_launches : ℕ → History → ℕ
unfolding total as_worker
worker_launches i h = total (as_worker i) h

module _ (env : Env) (lists : ℕ → List ℕ) where
  abbrev polls_none : ℕ → Bool
  polls_none l = length (lists l) == 0

  pub occurrences-choose_crypto :
      (l : ℕ) (ls : List ℕ)
      → occurrences l (choose_crypto lists ls) ≡ (if polls_none l then occurrences l ls else 0)
  unfolding occurrences choose_crypto
  occurrences-choose_crypto l [] = ground arith
  occurrences-choose_crypto l (x ∷ xs) = ground (arith, occurrences-choose_crypto l xs)

  pub is_crypto-occurrences : (l : ℕ) (cs : List ℕ) → is_crypto cs l ≡ not (occurrences l cs == 0)
  unfolding occurrences is_crypto
  is_crypto-occurrences l [] = ground arith
  is_crypto-occurrences l (c ∷ cs) = ground (arith, is_crypto-occurrences l cs)

  -- The launch of the workers from number `i` on.
  launch_crypto_lem :
      (i : ℕ) (ls : List ℕ) (h : History)
      → (h' : History) × (launch_crypto env i ls h ≡ next tt h')
        × ((l : ℕ)
            → (crypto_launches l h' ≡ crypto_launches l h + occurrences l ls)
              × (forwarding_launches l h' ≡ forwarding_launches l h)
              × (worker_launches l h'
                  ≡ worker_launches l h + occurrences l (range_from i (length ls))))
  unfolding launch_crypto occurrences crypto_launches forwarding_launches worker_launches as_crypto
      as_forwarding as_worker total
  launch_crypto_lem i [] h = (h, refl, λ l. (omega arith, refl, omega arith))
  launch_crypto_lem i (x ∷ xs) h =
      let r = env.answer h (system (remote_launch (crypto i) x)) in
      let (h', run, f) =
        launch_crypto_lem (suc i) xs (event (system (remote_launch (crypto i) x)) r ∷ h) in
      (h', run, λ l. (omega (arith, (f l).0), omega (arith, (f l).1), omega (arith, (f l).2)))

  -- One turn of the launch of the others.
  launch_other_lem :
      (cs : List ℕ) (x : ℕ) (h : History)
      → (h' : History) × (launch_forwarding env lists cs x h ≡ next tt h')
        × ((l : ℕ)
            → (crypto_launches l h' ≡ crypto_launches l h)
              × (forwarding_launches l h'
                  ≡ forwarding_launches l h
                    + (if is_crypto cs l || polls_none l then 0 else (if l == x then 1 else 0)))
              × (worker_launches l h' ≡ worker_launches l h))
  unfolding launch_forwarding crypto_launches forwarding_launches worker_launches as_crypto
      as_forwarding as_worker total
  launch_other_lem cs x h =
      elim (Bool-cases (not (is_crypto cs x) && not (length (lists x) == 0))) [
        | inl other ↦
            let r = env.answer h (system (remote_launch forwarding x)) in
            (
              event (system (remote_launch forwarding x)) r ∷ h,
              rw other refl,
              λ l. (omega arith, same other l, omega arith),
            )
        | inr own ↦ (h, rw own refl, λ l. (refl, none_at own l, refl))
      ]
    where
      same_lcore :
          (l : ℕ)
          → (l == x) ≡ true
          → (is_crypto cs l ≡ is_crypto cs x) × (length (lists l) ≡ length (lists x))
      same_lcore l e =
          let e' : l ≡ x = ground arith in (ap (is_crypto cs) e', ap (λ k. length (lists k)) e')

      same :
          (not (is_crypto cs x) && not (length (lists x) == 0)) ≡ true
          → (l : ℕ)
          → (if l == x then 1 else 0) + total (as_forwarding l) h
            ≡ total (as_forwarding l) h
              + (if is_crypto cs l || polls_none l then 0 else (if l == x then 1 else 0))
      same other l = elim (Bool-cases (l == x)) [
        | inl e ↦ ground (arith, other, e, same_lcore l e)
        | inr n ↦ rw n (ground arith)
      ]

      none_at :
          (not (is_crypto cs x) && not (length (lists x) == 0)) ≡ false
          → (l : ℕ)
          → total (as_forwarding l) h
            ≡ total (as_forwarding l) h
              + (if is_crypto cs l || polls_none l then 0 else (if l == x then 1 else 0))
      none_at own l = elim (Bool-cases (l == x)) [
        | inl e ↦ ground (arith, own, e, same_lcore l e)
        | inr n ↦ rw n (ground arith)
      ]

  -- The launch of the others.
  launch_others_lem :
      (cs ls : List ℕ) (h : History)
      → (h' : History) × (each ls (launch_forwarding env lists cs) h ≡ next tt h')
        × ((l : ℕ)
            → (crypto_launches l h' ≡ crypto_launches l h)
              × (forwarding_launches l h'
                  ≡ forwarding_launches l h
                    + (if is_crypto cs l || polls_none l then 0 else occurrences l ls))
              × (worker_launches l h' ≡ worker_launches l h))
  unfolding occurrences
  launch_others_lem cs [] h = (h, refl, λ l. (refl, ground arith, refl))
  launch_others_lem cs (x ∷ xs) h =
      let (h₁, run₁, f₁) = launch_other_lem cs x h in
      let (h₂, run₂, f₂) = launch_others_lem cs xs h₁ in
      (
        h₂,
        >>=-run (launch_forwarding env lists cs x) (λ _. each xs (launch_forwarding env lists cs)) h
            h₁ tt (next tt h₂) run₁ run₂,
        λ l. (
          omega (arith, (f₁ l).0, (f₂ l).0),
          ground (arith, (f₁ l).1, (f₂ l).1),
          omega (arith, (f₁ l).2, (f₂ l).2),
        ),
      )

  -- What the creation of the rings leaves alone.
  create_rings-Preserves :
      (l a b c : ℕ)
      → Preserves
          (λ h.
            (crypto_launches l h ≡ a) × (forwarding_launches l h ≡ b) × (worker_launches l h ≡ c))
          (create_rings env)
  unfolding create_rings create_ring_pair crypto_launches forwarding_launches worker_launches
      as_crypto as_forwarding as_worker total
  create_rings-Preserves l a b c =
      each-Preserves _ (range max_crypto_workers) (create_ring_pair env)
        λ i h h' u p e. ground arith

  -- The launches of a run that created the rings.
  pub launch_lcores_lem :
      (visited cs : List ℕ) (h h' : History)
      → launch_lcores env lists visited h ≡ next cs h'
      → (cs ≡ choose_crypto lists visited)
        × ((l : ℕ)
            → (crypto_launches l h' ≡ crypto_launches l h + occurrences l cs)
              × (forwarding_launches l h'
                  ≡ forwarding_launches l h
                    + (if is_crypto cs l || polls_none l then 0 else occurrences l visited))
              × (worker_launches l h' ≡ worker_launches l h + occurrences l (range (length cs))))
  unfolding launch_lcores
  launch_lcores_lem visited cs h h' e =
      let chosen = choose_crypto lists visited in
      let launch_all =
        launch_crypto env 0 chosen
        >> (each visited (launch_forwarding env lists chosen) >> pure chosen) in
      let (u, h₀, made, rest) = >>=-inv (create_rings env) (λ _. launch_all) h cs h' e in
      let (h₁, run₁, f₁) = launch_crypto_lem 0 chosen h₀ in
      let (h₂, run₂, f₂) = launch_others_lem chosen visited h₁ in
      let known : launch_all h₀ ≡ next chosen h₂ =
        >>=-run (launch_crypto env 0 chosen)
          (λ _. each visited (launch_forwarding env lists chosen) >> pure chosen) h₀ h₁ tt
          (next chosen h₂) run₁
          (>>=-run (each visited (launch_forwarding env lists chosen)) (λ _. pure chosen) h₁ h₂ tt
            (next chosen h₂) run₂ refl) in
      let same : next cs h' ≡ next chosen h₂ = sym rest ∙ known in
      let e₁ : cs ≡ chosen = cc in
      let e₂ : h' ≡ h₂ = cc in
      (
        e₁,
        rw e₁ (
            rw e₂ (λ l.
              let (c, d, w) =
                create_rings-Preserves l (crypto_launches l h) (forwarding_launches l h)
                  (worker_launches l h) h h₀ u (refl, refl, refl) made in
              (
                omega (arith, c, (f₁ l).0, (f₂ l).0),
                omega (arith, d, (f₁ l).1, (f₂ l).1),
                omega (arith, w, (f₁ l).2, (f₂ l).2),
              ))),
      )
