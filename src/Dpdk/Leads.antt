-- ===== src/Dpdk/Leads.antt =====
-- What holds after a run, whichever way it ends.
use pwd_writeup.Base.{◌≡◌, arith, ℤ, Bool, true, false, if◌then◌else◌}
use pwd_writeup.Dpdk.{History}
use pwd_writeup.Dpdk.Monad.{
  Outcome, next, back, quit, M, ◌>>=◌, continue, return, when, result, returned, final,
}

-- `R` where the run goes on, `Q` where it returns or leaves the program.
abbrev pub Ends : {A : Type 0} → (History → Type 0) → (History → Type 0) → Outcome A → Type 0
Ends R Q (next a h) = R h
Ends R Q (back r h) = Q h
Ends R Q (quit h) = Q h

abbrev pub Leads : {A : Type 0} → (P R Q : History → Type 0) → M A → Type 0
Leads P R Q m = (h : History) → P h → Ends R Q (m h)

pub bind-Leads :
    {A B : Type 0} (P R S Q : History → Type 0) (m : M A) (k : A → M B)
    → Leads P R Q m
    → ((a : A) → Leads R S Q (k a))
    → Leads P S Q (m >>= k)
bind-Leads {A = A} P R S Q m k f g h p = both (m h) (f h p)
  where
    both : (o : Outcome A) → Ends R Q o → Ends S Q (continue o k)
    both (next a h₁) r = g a h₁ r
    both (back e h₁) q = q
    both (quit h₁) q = q

module _ (P : History → Type 0) where
  pub if-Leads :
      {A : Type 0} (Q : History → Type 0) (b : Bool) (m k : M A)
      → Leads P P Q m
      → Leads P P Q k
      → Leads P P Q (if b then m else k)
  if-Leads Q true m k f g = f
  if-Leads Q false m k f g = g

  pub when-return-Leads : (b : Bool) (r : ℤ) → Leads P P P (when b (return r))
  when-return-Leads true r = λ h p. p
  when-return-Leads false r = λ h p. p

  pub result-Leads : (m : M ℤ) → Leads P P P m → Leads P P P (result m)
  result-Leads m f h p = both (m h) (f h p)
    where
      both : (o : Outcome ℤ) → Ends P P o → Ends P P (returned o)
      both (next r h₁) q = q
      both (back r h₁) q = q
      both (quit h₁) q = q

pub Ends-final : {A : Type 0} (P : History → Type 0) (o : Outcome A) → Ends P P o → P (final o)
Ends-final P (next a h) p = p
Ends-final P (back r h) p = p
Ends-final P (quit h) p = p

-- A weaker claim on the runs that end early.
pub Leads-early :
    {A : Type 0} (P R Q Q' : History → Type 0) (m : M A)
    → Leads P R Q m
    → ((h : History) → Q h → Q' h)
    → Leads P R Q' m
Leads-early {A = A} P R Q Q' m f w h p = both (m h) (f h p)
  where
    both : (o : Outcome A) → Ends R Q o → Ends R Q' o
    both (next a h₁) q = q
    both (back r h₁) q = w h₁ q
    both (quit h₁) q = w h₁ q

pub Ends-next :
    {A : Type 0} (P : History → Type 0) (o : Outcome A) (a : A) (h : History)
    → Ends P P o
    → o ≡ next a h
    → P h
Ends-next P (next a₁ h₁) a h p e = ground (arith, p)
Ends-next P (back r h₁) a h p e = cc
Ends-next P (quit h₁) a h p e = cc
