-- ===== src/Dpdk/Monad.antt =====
-- C functions that call DPDK: a run extends the history, and ends by going on, by an early
-- `return`, or in `rte_exit`.
use pwd_writeup.Base.{
  ◌≡◌, ap, ◌∙◌, pos, refl, zero, suc, arith, ℕ, ℤ, List, [], ◌∷◌, Bool, true, false, is_neg,
  is_nonzero, if◌then◌else◌,
}
use pwd_writeup.Dpdk.{Call, Answer, event, History, Env}

pub data Outcome (A : Type 0) : Type 0 where
  next : A → History → Outcome A
  back : ℤ → History → Outcome A
  quit : History → Outcome A

abbrev pub M : Type 0 → Type 0
M A = History → Outcome A

abbrev pub continue : {A B : Type 0} → Outcome A → (A → M B) → Outcome B
continue (next a h) f = f a h
continue (back r h) f = back r h
continue (quit h) f = quit h

infixl 5 ◌>>=◌ ◌>>◌
abbrev pub ◌>>=◌ : {A B : Type 0} → M A → (A → M B) → M B
◌>>=◌ m f h = continue (m h) f

abbrev pub ◌>>◌ : {B : Type 0} → M (Unit {0}) → M B → M B
◌>>◌ m k = m >>= λ _. k

abbrev pub pure : {A : Type 0} → A → M A
pure a h = next a h

abbrev pub call : Env → (c : Call) → M (Answer c)
call env c h = let r = env.answer h c in next r (event c r ∷ h)

-- A look at what was stored before.
abbrev pub read : {A : Type 0} → (History → A) → M A
read f h = next (f h) h

-- `return r;`
abbrev pub return : {A : Type 0} → ℤ → M A
return r h = back r h

-- `rte_exit(EXIT_FAILURE, …)`
abbrev pub rte_exit : {A : Type 0} → M A
rte_exit h = quit h

abbrev pub when : Bool → M (Unit {0}) → M (Unit {0})
when true m = m
when false m = pure tt

-- `if (r < 0) return r;` and `if (r != 0) return r;`
abbrev pub return_if_neg : ℤ → M (Unit {0})
return_if_neg r = when (is_neg r) (return r)

abbrev pub return_if_nonzero : ℤ → M (Unit {0})
return_if_nonzero r = when (is_nonzero r) (return r)

-- A loop over the values that its variable takes.
abbrev pub each : {A : Type 0} → List A → (A → M (Unit {0})) → M (Unit {0})
each [] body = pure tt
each (x ∷ xs) body = body x >> each xs body

-- The value of a call of one of the program's own functions.
abbrev pub returned : Outcome ℤ → Outcome ℤ
returned (next r h) = next r h
returned (back r h) = next r h
returned (quit h) = quit h

abbrev pub result : M ℤ → M ℤ
result m h = returned (m h)

-- What a run returned, what it left behind, and whether it left the program.
abbrev pub code : Outcome ℤ → ℤ
code (next r h) = r
code (back r h) = r
code (quit h) = pos 0

abbrev pub final : {A : Type 0} → Outcome A → History
final (next a h) = h
final (back r h) = h
final (quit h) = h

abbrev pub leaves : {A : Type 0} → Outcome A → Bool
leaves (next a h) = false
leaves (back r h) = false
leaves (quit h) = true

continue_inv :
    {A B : Type 0} (o : Outcome A) (f : A → M B) (b : B) (h' : History)
    → continue o f ≡ next b h'
    → (a : A) × (h₁ : History) × (o ≡ next a h₁) × (f a h₁ ≡ next b h')
continue_inv (next a h) f b h' e = (a, h, refl, e)
continue_inv (back r h) f b h' e = cc
continue_inv (quit h) f b h' e = cc

-- A sequence that goes on went on after its first part.
pub >>=-inv :
    {A B : Type 0} (m : M A) (f : A → M B) (h : History) (b : B) (h' : History)
    → (m >>= f) h ≡ next b h'
    → (a : A) × (h₁ : History) × (m h ≡ next a h₁) × (f a h₁ ≡ next b h')
>>=-inv m f h b h' e = continue_inv (m h) f b h' e

-- A sequence of two runs that are known.
pub >>=-run :
    {A B : Type 0} (m : M A) (f : A → M B) (h h₁ : History) (a : A) (o : Outcome B)
    → m h ≡ next a h₁
    → f a h₁ ≡ o
    → (m >>= f) h ≡ o
>>=-run m f h h₁ a o e e' = ap (λ x. continue x f) e ∙ e'

abbrev pub repeat : ℕ → M (Unit {0}) → M (Unit {0})
repeat zero m = pure tt
repeat (suc n) m = m >> repeat n m

-- What holds before a run that goes on holds after it.
abbrev pub Preserves : {A : Type 0} → (History → Type 0) → M A → Type 0
Preserves {A} P m = (h h' : History) (a : A) → P h → m h ≡ next a h' → P h'

module _ (P : History → Type 0) where
  pub pure-Preserves : Preserves P (pure tt)
  pure-Preserves h h' u p e = ground (arith, p)

  pub seq-Preserves : (m k : M (Unit {0})) → Preserves P m → Preserves P k → Preserves P (m >> k)
  seq-Preserves m k f g h h' u p e =
      let (v, h₁, first, rest) = >>=-inv m (λ _. k) h u h' e in g h₁ h' u (f h h₁ v p first) rest

  pub each-Preserves :
      {A : Type 0} (xs : List A) (body : A → M (Unit {0}))
      → ((x : A) → Preserves P (body x))
      → Preserves P (each xs body)
  each-Preserves [] body f = pure-Preserves
  each-Preserves (x ∷ xs) body f =
      seq-Preserves (body x) (each xs body) (f x) (each-Preserves xs body f)

  pub repeat-Preserves : (n : ℕ) (m : M (Unit {0})) → Preserves P m → Preserves P (repeat n m)
  repeat-Preserves zero m f = pure-Preserves
  repeat-Preserves (suc n) m f = seq-Preserves m (repeat n m) f (repeat-Preserves n m f)

  pub when-Preserves : (b : Bool) (m : M (Unit {0})) → Preserves P m → Preserves P (when b m)
  when-Preserves true m f = f
  when-Preserves false m f = pure-Preserves

  pub bind-Preserves :
      {A B : Type 0} (m : M A) (k : A → M B)
      → Preserves P m
      → ((a : A) → Preserves P (k a))
      → Preserves P (m >>= k)
  bind-Preserves m k f g h h' b p e =
      let (a, h₁, first, rest) = >>=-inv m k h b h' e in g a h₁ h' b (f h h₁ a p first) rest

  pub if-Preserves :
      {A : Type 0} (b : Bool) (m k : M A)
      → Preserves P m
      → Preserves P k
      → Preserves P (if b then m else k)
  if-Preserves true m k f g = f
  if-Preserves false m k f g = g
