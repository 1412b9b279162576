-- ===== src/L2fwdMulti/Launch/Roles.antt =====
-- What each lcore is launched for.
use Prim.Native.Nat.{zero, suc}
use pwd_writeup.Base.{
  ℕ, ◌+◌, ◌<◌, List, ◌≡◌, Bool, not, ◌&&◌, ◌==◌, ltb, if◌then◌else◌, length, range_from, arith,
}
use pwd_writeup.Dpdk.{Env, History}
use pwd_writeup.Dpdk.Monad.{next}
use pwd_writeup.L2fwdMulti.Launch.{visits, choose_crypto, launch_lcores}
use pwd_writeup.L2fwdMulti.Launch.Visits.{occurrences, IsNextLcore, visits_lem}
use pwd_writeup.L2fwdMulti.Launch.Counts.{
  crypto_launches, forwarding_launches, worker_launches, occurrences-choose_crypto,
  is_crypto-occurrences, launch_lcores_lem,
}

occurrences-range_from :
    (l a n : ℕ)
    → occurrences l (range_from a n) ≡ (if ltb l a then 0 else if ltb l (a + n) then 1 else 0)
unfolding occurrences
occurrences-range_from l a zero = ground arith
occurrences-range_from l a (suc n) = ground (arith, occurrences-range_from l (suc a) n)

-- An enabled lcore above the main one.
abbrev pub is_above : ℕ → (ℕ → Bool) → ℕ → ℕ → Bool
is_above max_lcore is_enabled main l = ltb main l && ltb l max_lcore && is_enabled l

-- If all rings could be created, main launches each enabled lcore that is above the main lcore exactly
-- once: as a cipher worker if it polls no port, to forward if it polls some. It launches no other
-- lcore, so none below the main one. It is assumed that rte_get_next_lcore does what is documented, and
-- that the main lcore is below RTE_MAX_LCORE.
pub launch_lcores-roles :
    (env : Env) (lists : ℕ → List ℕ) (next_lcore : ℕ → ℕ) (max_lcore : ℕ) (is_enabled : ℕ → Bool)
    (main l : ℕ) (cs : List ℕ) (h h' : History)
    → IsNextLcore next_lcore max_lcore is_enabled main
    → main < max_lcore
    → launch_lcores env lists (visits next_lcore max_lcore max_lcore (next_lcore main)) h
      ≡ next cs h'
    → (crypto_launches l h'
        ≡ crypto_launches l h
          + (if is_above max_lcore is_enabled main l && (length (lists l) == 0) then 1 else 0))
      × (forwarding_launches l h'
          ≡ forwarding_launches l h
            + (if is_above max_lcore is_enabled main l && not (length (lists l) == 0)
                then 1
                else 0))
launch_lcores-roles env lists next_lcore max_lcore is_enabled main l cs h h' is_next small run =
    let visited = visits next_lcore max_lcore max_lcore (next_lcore main) in
    let (e, f) = launch_lcores_lem env lists visited cs h h' run in
    let here = visits_lem next_lcore max_lcore is_enabled main is_next l small in
    let chosen : occurrences l cs ≡ (if length (lists l) == 0 then occurrences l visited else 0) =
      rw e (occurrences-choose_crypto env lists l visited) in
    let found = is_crypto-occurrences env lists l cs in
    let (c, d, w) = f l in (ground (arith, c, chosen, here), ground (arith, d, chosen, here, found))

-- If all rings could be created, the cipher workers are launched with the numbers from 0 on, each
-- once, as many as there are lcores for them: with nine or more also number 8, although there are
-- rings for the numbers up to 7 only.
pub launch_lcores-numbers :
    (env : Env) (lists : ℕ → List ℕ) (visited cs : List ℕ) (i : ℕ) (h h' : History)
    → launch_lcores env lists visited h ≡ next cs h'
    → (cs ≡ choose_crypto lists visited)
      × (worker_launches i h' ≡ worker_launches i h + (if ltb i (length cs) then 1 else 0))
launch_lcores-numbers env lists visited cs i h h' run =
    let (e, f) = launch_lcores_lem env lists visited cs h h' run in
    (e, ground (arith, (f i).2, occurrences-range_from i 0 (length cs)))
