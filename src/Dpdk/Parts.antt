-- ===== src/Dpdk/Parts.antt =====
-- Pieces of a start-up routine, each seen as a change of one port's state, and put together. A piece
-- that is about another port leaves the state as it was.
use pwd_writeup.Base.{ℕ, ℤ, pos, ◌≡◌, refl, ◌∙◌, ap, is_nonzero, false, true, arith}
use pwd_writeup.Dpdk.{History}
use pwd_writeup.Dpdk.Monad.{Outcome, next, back, quit, M, ◌>>=◌, continue, result, returned, final}
use pwd_writeup.Dpdk.Device.{Device, device}

-- From state `d` of port `p` the piece goes on in state `e`, or returns an error, or leaves the
-- program, and on no path was the port used out of order.
pub record Part (p : ℕ) (d e : Device) {A : Type 0} (m : M A) : Type 0 where
  pub goes :
      (h : History) (a : A) (h' : History) → device p h ≡ d → m h ≡ next a h' → device p h' ≡ e
  pub fails :
      (h : History) (r : ℤ) (h' : History)
      → device p h ≡ d
      → m h ≡ back r h'
      → (is_nonzero r ≡ true) × ((device p h').misused ≡ false)
  pub stops : (h h' : History) → device p h ≡ d → m h ≡ quit h' → (device p h').misused ≡ false

module _ {A B : Type 0} {p : ℕ} {d e f : Device} {m : M A} {k : A → M B} where
  pub bind-Part : Part p d e m → ((a : A) → Part p e f (k a)) → Part p d f (m >>= k)
  bind-Part s t = record {
    goes = λ h b h' c r. goes_on (m h) b h' (λ a h₁ q. s.goes h a h₁ c q) r;
    fails = λ h r h' c q.
        fails_on (m h) r h' (λ a h₁ q. s.goes h a h₁ c q) (λ r₁ h₁ q. s.fails h r₁ h₁ c q) q;
    stops =
        λ h h' c q. stops_on (m h) h' (λ a h₁ q. s.goes h a h₁ c q) (λ h₁ q. s.stops h h₁ c q) q;
  }
    where
      goes_on :
          (o : Outcome A) (b : B) (h' : History)
          → ((a : A) (h₁ : History) → o ≡ next a h₁ → device p h₁ ≡ e)
          → continue o k ≡ next b h'
          → device p h' ≡ f
      goes_on (next a h₁) b h' g r = (t a).goes h₁ b h' (g a h₁ refl) r
      goes_on (back r₁ h₁) b h' g r = cc
      goes_on (quit h₁) b h' g r = cc

      fails_on :
          (o : Outcome A) (r : ℤ) (h' : History)
          → ((a : A) (h₁ : History) → o ≡ next a h₁ → device p h₁ ≡ e)
          → ((r₁ : ℤ) (h₁ : History)
              → o ≡ back r₁ h₁
              → (is_nonzero r₁ ≡ true) × ((device p h₁).misused ≡ false))
          → continue o k ≡ back r h'
          → (is_nonzero r ≡ true) × ((device p h').misused ≡ false)
      fails_on (next a h₁) r h' g x q = (t a).fails h₁ r h' (g a h₁ refl) q
      fails_on (back r₁ h₁) r h' g x q = x r h' (ap same q)
        where
          same : Outcome B → Outcome A
          same (next b h) = back (pos 0) h
          same (back r h) = back r h
          same (quit h) = back (pos 0) h
      fails_on (quit h₁) r h' g x q = cc

      stops_on :
          (o : Outcome A) (h' : History)
          → ((a : A) (h₁ : History) → o ≡ next a h₁ → device p h₁ ≡ e)
          → ((h₁ : History) → o ≡ quit h₁ → (device p h₁).misused ≡ false)
          → continue o k ≡ quit h'
          → (device p h').misused ≡ false
      stops_on (next a h₁) h' g x q = (t a).stops h₁ h' (g a h₁ refl) q
      stops_on (back r₁ h₁) h' g x q = cc
      stops_on (quit h₁) h' g x q = x h' (ap same q)
        where
          same : Outcome B → Outcome A
          same (next b h) = quit h
          same (back r h) = quit h
          same (quit h) = quit h

module _ {p : ℕ} {d e : Device} {m : M ℤ} (s : Part p d e m) where
  -- A routine that reports success has gone on to its end.
  pub Part-result :
      (h h' : History) → device p h ≡ d → result m h ≡ next (pos 0) h' → device p h' ≡ e
  Part-result h h' c q = ended (m h) refl q
    where
      ended : (o : Outcome ℤ) → m h ≡ o → returned o ≡ next (pos 0) h' → device p h' ≡ e
      ended (next r h₁) run q = s.goes h (pos 0) h' c (run ∙ q)
      ended (back r h₁) run q = ground (arith, s.fails h r h₁ c run)
      ended (quit h₁) run q = cc

  -- On no path is the port used out of order.
  pub Part-final :
      (h : History) → device p h ≡ d → e.misused ≡ false → (device p (final (m h))).misused ≡ false
  Part-final h c good = ended (m h) refl
    where
      ended : (o : Outcome ℤ) → m h ≡ o → (device p (final o)).misused ≡ false
      ended (next r h₁) run = ap (λ (x : Device). x.misused) (s.goes h r h₁ c run) ∙ good
      ended (back r h₁) run = (s.fails h r h₁ c run).1
      ended (quit h₁) run = s.stops h h₁ c run
