-- ===== src/SimpleMp/Threads/Keeps.antt =====
-- Dpdk-lab/multi_process/simple_mp: runs that work on one message at a time, put together.
use pwd_writeup.Base.{ℕ, List, [], ◌∷◌, ◌++◌, ◌≡◌, Bool, true, false}
use pwd_writeup.Dpdk.{History, RingName}
use pwd_writeup.Dpdk.Monad.{
  M, Outcome, next, back, quit, continue, pure, when, each, rte_exit, ◌>>=◌, final,
}
use pwd_writeup.SimpleMp.{Command.quit}
use pwd_writeup.SimpleMp.Threads.{empty, grip, IsOrderly}

module _ (S : List ℕ → Type 0) (T U : RingName → Type 0) where
  -- However a run ends it was orderly; if it goes on, then with empty hands.
  abbrev pub Ends : {A : Type 0} → Outcome A → Type 0
  Ends (next a h) = (grip h ≡ empty) × IsOrderly S T U h
  Ends (back r h) = IsOrderly S T U h
  Ends (quit h) = IsOrderly S T U h

  abbrev pub Keeps : {A : Type 0} → M A → Type 0
  Keeps m = (h : History) → grip h ≡ empty → IsOrderly S T U h → Ends (m h)

  pub continue-Ends :
      {A B : Type 0} (o : Outcome A) (f : A → M B)
      → Ends o
      → ((a : A) → Keeps (f a))
      → Ends (continue o f)
  continue-Ends (next a h) f e k = k a h e.0 e.1
  continue-Ends (back r h) f e k = e
  continue-Ends (quit h) f e k = e

  pub bind-Keeps :
      {A B : Type 0} (m : M A) (f : A → M B) → Keeps m → ((a : A) → Keeps (f a)) → Keeps (m >>= f)
  bind-Keeps m f k l h g o = continue-Ends (m h) f (k h g o) l

  pub done_Keeps : Keeps (pure tt)
  done_Keeps h g o = (g, o)

  pub when-Keeps : (b : Bool) (m : M (Unit {0})) → Keeps m → Keeps (when b m)
  when-Keeps true m k = k
  when-Keeps false m k = done_Keeps

  pub each-Keeps :
      {A : Type 0} (xs : List A) (f : A → M (Unit {0}))
      → ((x : A) → Keeps (f x))
      → Keeps (each xs f)
  each-Keeps [] f k = done_Keeps
  each-Keeps (x ∷ xs) f k = bind-Keeps (f x) (λ _. each xs f) (k x) (λ _. each-Keeps xs f k)

  pub exit_if-Keeps : (b : Bool) → Keeps (when b rte_exit)
  exit_if-Keeps b = when-Keeps b rte_exit (λ h g o. o)

  pub Ends-IsOrderly : {A : Type 0} (o : Outcome A) → Ends o → IsOrderly S T U (final o)
  Ends-IsOrderly (next a h) e = e.1
  Ends-IsOrderly (back r h) e = e
  Ends-IsOrderly (quit h) e = e

  pub IsOrderly-before : (later h : History) → IsOrderly S T U (later ++ h) → IsOrderly S T U h
  IsOrderly-before [] h o = o
  IsOrderly-before (e ∷ later) h o = IsOrderly-before later h o.1
