-- ===== src/L2fwd/LinkStatus/Time.antt =====
-- Dpdk-lab/multi_thread/l2fwd-single-thread/main.c, check_all_ports_link_status: what it does to the
-- ports, and how long it waits.
use Prim.Native.Nat.{zero, suc}
use pwd_writeup.Base.{
  ℤ, pos, ℕ, ◌+◌, ◌-◌, ◌≤◌, ◌<◌, ◌≡◌, ◌⊎◌, inl, inr, List, [], ◌∷◌, Bool, true, false, ◌||◌, ◌&&◌,
  not, ◌==◌, is_neg, arith,
}
use pwd_writeup.Base.Bits.{is_clear}
use pwd_writeup.Dpdk.{event, History, Env, system, setting, delay_ms, force_quit, link_get}
use pwd_writeup.Dpdk.Monad.{M, return, pure, when, call, final, ◌>>=◌, ◌>>◌}
use pwd_writeup.Dpdk.Leads.{Ends-final, Leads-early, Leads, bind-Leads, if-Leads, when-return-Leads}
use pwd_writeup.Dpdk.Device.{Device, device}
use pwd_writeup.L2fwd.LinkStatus.{
  check_ports, check_rounds, check_all_ports_link_status, max_check_time,
}

-- How often the program has waited for CHECK_INTERVAL.
unfoldable pub delays : History → ℕ
delays [] = 0
delays (event (system delay_ms) u ∷ h) = delays h + 1
delays (event c r ∷ h) = delays h

-- The rounds that may still wait.
left : Bool → ℕ → ℕ
left true count = 0
left false count = max_check_time - count

left_le : (flag : Bool) (count : ℕ) → left flag count ≤ max_check_time - count
unfolding left
left_le true count = omega arith
left_le false count = omega arith

-- A round in which nothing was down, or the last before the limit, sets the flag.
flag_next :
    (count : ℕ) (up : Bool)
    → count < max_check_time
    → ((up || (count == max_check_time - 1)) ≡ true) ⊎ (count + 1 < max_check_time)
flag_next count up o = ground arith

module _ (env : Env) (mask : ℕ) (P : History → Type 0) where
  -- What the two calls of one pass keep, the pass keeps.
  pub check_ports-Leads :
      ((h : History) → P h → P (event (system force_quit) (env.answer h (system force_quit)) ∷ h))
      → ((h : History) (p : ℕ)
          → P h
          → P (event (setting p link_get) (env.answer h (setting p link_get)) ∷ h))
      → (flag : Bool) (ps : List ℕ) (up : Bool) → Leads P P P (check_ports env mask flag ps up)
  unfolding check_ports
  check_ports-Leads kq kl flag [] up = λ h p. p
  check_ports-Leads kq kl flag (q ∷ ps) up =
      bind-Leads P P P P (call env (system force_quit)) _ kq λ quit.
        bind-Leads P P P P (when quit (return (pos 0))) _ (when-return-Leads P quit (pos 0)) λ u.
          if-Leads P P (is_clear mask q) _ _ (check_ports-Leads kq kl flag ps up) (
            bind-Leads P P P P (call env (setting q link_get)) _ (λ h. kl h q)
              λ a. if-Leads P P (is_neg a.0) _ _ (check_ports-Leads kq kl flag ps false) (
                if-Leads P P (not flag && not a.1) (pure false) _ (λ h p. p)
                  (check_ports-Leads kq kl flag ps up)))

module _ (env : Env) (mask : ℕ) (ps : List ℕ) where
  -- `k` waits after at most `K` in all.
  abbrev AtMost : ℕ → ℕ → History → Type 0
  AtMost K k h = delays h + k ≤ K

  pass-waits :
      (K k : ℕ) (flag up : Bool)
      → Leads (AtMost K k) (AtMost K k) (AtMost K k) (check_ports env mask flag ps up)
  unfolding delays
  pass-waits K k flag up =
      check_ports-Leads env mask (AtMost K k) (λ h p. p) (λ h q p. p) flag ps up

  delay-waits :
      (K k : ℕ) (up : Bool)
      → Leads
          (AtMost K (k + 1))
          (AtMost K k)
          (AtMost K 0)
          (when (not up) (call env (system delay_ms)))
  unfolding delays
  delay-waits K k true h p = omega arith
  delay-waits K k false h p = omega arith

  -- The start of a round, up to the test of the flag.
  round-waits :
      (K k : ℕ) (flag : Bool) (rest : Bool → M ℤ)
      → ((up : Bool) → Leads (AtMost K k) (AtMost K 0) (AtMost K 0) (rest up))
      → Leads (AtMost K k) (AtMost K 0) (AtMost K 0) (
          call env (system force_quit) >>= λ quit.
          when quit (return (pos 0)) >> (check_ports env mask flag ps true >>= rest))
  unfolding delays
  round-waits K k flag rest f =
      bind-Leads now now end end (call env (system force_quit))
        (λ quit. when quit (return (pos 0)) >> (check_ports env mask flag ps true >>= rest))
        (λ h p. p)
        λ quit.
          bind-Leads now now end end (when quit (return (pos 0)))
            (λ _. check_ports env mask flag ps true >>= rest)
            (Leads-early now now now end _ (when-return-Leads now quit (pos 0)) later)
            λ _.
              bind-Leads now now end end (check_ports env mask flag ps true) rest
                (Leads-early now now now end _ (pass-waits K k flag true) later) f
    where
      now : History → Type 0
      now = AtMost K k

      end : History → Type 0
      end = AtMost K 0

      later : (h : History) → now h → end h
      later h p = omega arith

  rounds-waits :
      (K n count : ℕ) (flag : Bool)
      → (flag ≡ true) ⊎ (count < max_check_time)
      → Leads
          (AtMost K (left flag count))
          (AtMost K 0)
          (AtMost K 0)
          (check_rounds env mask n ps count flag)
  unfolding check_rounds left
  rounds-waits K zero count flag o = λ h p. omega arith
  rounds-waits K (suc n) count true o = round-waits K 0 true _ (λ up h p. p)
  rounds-waits K (suc n) count false (inl k) = cc
  rounds-waits K (suc n) count false (inr o) =
      round-waits K (max_check_time - count) false _ λ up h p.
        bind-Leads (AtMost K (max_check_time - (count + 1) + 1))
          (AtMost K (max_check_time - (count + 1))) (AtMost K 0) (AtMost K 0)
          (when (not up) (call env (system delay_ms))) _
          (delay-waits K (max_check_time - (count + 1)) up)
          (λ _ h₁ p₁.
            rounds-waits K n (count + 1) (up || (count == max_check_time - 1))
              (flag_next count up o) h₁
              (omega (arith, left_le (up || (count == max_check_time - 1)) (count + 1))))
          h (omega arith)

-- However the links answer and however many ports there are, the check waits at most 90 times: with
-- CHECK_INTERVAL at 100 ms, the nine seconds that its comment promises.
pub check_all_ports_link_status-waits :
    (env : Env) (mask : ℕ) (ps : List ℕ) (h : History)
    → delays (final (check_all_ports_link_status env mask ps h)) ≤ delays h + 90
unfolding check_all_ports_link_status
check_all_ports_link_status-waits env mask ps h =
    let bound = delays h + 90 in
    let waited =
      Ends-final (λ h'. delays h' + 0 ≤ bound)
        (check_rounds env mask (max_check_time + 1) ps 0 false h)
        (rounds-waits env mask ps bound (max_check_time + 1) 0 false (inr (omega arith)) h
          (omega (arith, left_le false 0))) in
    omega arith

module _ (env : Env) (mask : ℕ) (P : History → Type 0) where
  -- What no call of the check changes, it keeps.
  rounds-Leads :
      ((h : History) → P h → P (event (system force_quit) (env.answer h (system force_quit)) ∷ h))
      → ((h : History) (p : ℕ)
          → P h
          → P (event (setting p link_get) (env.answer h (setting p link_get)) ∷ h))
      → ((h : History) → P h → P (event (system delay_ms) (env.answer h (system delay_ms)) ∷ h))
      → (n : ℕ) (ps : List ℕ) (count : ℕ) (flag : Bool)
      → Leads P P P (check_rounds env mask n ps count flag)
  unfolding check_rounds
  rounds-Leads kq kl kd zero ps count flag = λ h p. p
  rounds-Leads kq kl kd (suc n) ps count flag =
      bind-Leads P P P P (call env (system force_quit)) _ kq λ quit.
        bind-Leads P P P P (when quit (return (pos 0))) _ (when-return-Leads P quit (pos 0)) λ _.
          bind-Leads P P P P (check_ports env mask flag ps true) _
            (check_ports-Leads env mask P kq kl flag ps true)
            λ up.
              bind-Leads P P P P (when flag (return (pos 0))) _ (when-return-Leads P flag (pos 0))
                λ _.
                  bind-Leads P P P P (when (not up) (call env (system delay_ms))) _ (delayed up)
                    λ _.
                      rounds-Leads kq kl kd n ps (count + 1) (up || (count == max_check_time - 1))
    where
      delayed : (up : Bool) → Leads P P P (when (not up) (call env (system delay_ms)))
      delayed true h p = p
      delayed false h p = kd h p

-- The check leaves the state of every port as it was.
pub check_all_ports_link_status-Leads :
    (env : Env) (mask : ℕ) (ps : List ℕ) (q : ℕ) (d : Device)
    → Leads
        (λ h. device q h ≡ d)
        (λ h. device q h ≡ d)
        (λ h. device q h ≡ d)
        (check_all_ports_link_status env mask ps)
unfolding check_all_ports_link_status device
check_all_ports_link_status-Leads env mask ps q d =
    rounds-Leads env mask (λ h. device q h ≡ d) (λ h p. p) (λ h i p. p) (λ h p. p)
      (max_check_time + 1) ps 0 false
