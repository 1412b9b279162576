-- ===== src/Dpdk/Rely.antt =====
-- Programs that share rings: what one of them guarantees of each call that it makes, relying on what
-- the others put into the answers that it got so far. A guarantee that holds after every call holds
-- however the calls of the programs are interleaved.
use pwd_writeup.Base.{ℕ, ltb, length, drop, List, [], ◌∷◌, Bool, true, false, All, if◌then◌else◌}
use pwd_writeup.Dpdk.{Mbuf, pktmbuf_free, Call, Answer, Event, event, History, Env}
use pwd_writeup.Dpdk.Monad.{
  Outcome, next, back, quit, M, ◌>>=◌, ◌>>◌, continue, pure, call, when, each, rte_exit, final,
}
use pwd_writeup.Dpdk.Ownership.{free_rest, free_all}

-- `R` is what a program relies on, `G` what it guarantees.
module _ (R G : Event → Type 0) where
  abbrev pub Guaranteed : History → Type 0
  Guaranteed [] = Unit
  Guaranteed (e ∷ h) = (All R (e ∷ h) → G e) × Guaranteed h

  -- Where all answers were as relied on, all calls were as guaranteed.
  pub Guaranteed-All : (h : History) → Guaranteed h → All R h → All G h
  Guaranteed-All [] g r = tt
  Guaranteed-All (e ∷ h) g r = (g.0 r, Guaranteed-All h g.1 r.1)

  -- After a run from `h` that goes on with `a`, `Q a` holds if what was relied on is true so far.
  abbrev pub Post : {A : Type 0} → History → (A → Type 0) → Outcome A → Type 0
  Post h Q (next a h') = Guaranteed h' × (All R h' → All R h × Q a)
  Post h Q (back r h') = Guaranteed h'
  Post h Q (quit h') = Guaranteed h'

  abbrev pub Guards : {A : Type 0} → Type 0 → (A → Type 0) → M A → Type 0
  Guards P Q m = (h : History) → Guaranteed h → (All R h → P) → Post h Q (m h)

  Post-earlier :
      {A : Type 0} (P : Type 0) (Q : A → Type 0) (h h₁ : History) (o : Outcome A)
      → (All R h₁ → All R h × P)
      → Post h₁ Q o
      → Post h Q o
  Post-earlier P Q h h₁ (next a h') w (g, f) = (g, λ all. ((w (f all).0).0, (f all).1))
  Post-earlier P Q h h₁ (back r h') w p = p
  Post-earlier P Q h h₁ (quit h') w p = p

  pub bind-Guards :
      {A B : Type 0} (P : Type 0) (Q : A → Type 0) (S : B → Type 0) (m : M A) (k : A → M B)
      → Guards P Q m
      → ((a : A) → Guards (P × Q a) S (k a))
      → Guards P S (m >>= k)
  bind-Guards {A} P Q S m k f g h r p = both (m h) (f h r p)
    where
      both : (o : Outcome A) → Post h Q o → Post h S (continue o k)
      both (next a h₁) (r₁, w) =
          Post-earlier (Q a) S h h₁ (k a h₁) w (g a h₁ r₁ (λ all. (p (w all).0, (w all).1)))
      both (back e h₁) q = q
      both (quit h₁) q = q

  pub seq-Guards :
      {B : Type 0} (P : Type 0) (S : B → Type 0) (m : M (Unit {0})) (k : M B)
      → Guards P (λ _. Unit {0}) m
      → Guards P S k
      → Guards P S (m >> k)
  seq-Guards P S m k f g =
      bind-Guards P (λ _. Unit {0}) S m (λ _. k) f (λ _ h r p. g h r (λ all. (p all).0))

  pub call-Guards :
      (P : Type 0) (env : Env) (c : Call) (Q : Answer c → Type 0)
      → ((a : Answer c) → P → R (event c a) → G (event c a) × Q a)
      → Guards P Q (call env c)
  call-Guards P env c Q f h r p =
      let a = env.answer h c in
      ((λ all. (f a (p all.1) all.0).0, r), λ all. (all.1, (f a (p all.1) all.0).1))

  pub pure-Guards :
      {A : Type 0} (P : Type 0) (Q : A → Type 0) (a : A) → (P → Q a) → Guards P Q (pure a)
  pure-Guards P Q a f h r p = (r, λ all. (all, f (p all)))

  pub when-Guards :
      (P : Type 0) (b : Bool) (m : M (Unit {0}))
      → Guards P (λ _. Unit {0}) m
      → Guards P (λ _. Unit {0}) (when b m)
  when-Guards P true m f = f
  when-Guards P false m f = pure-Guards P (λ _. Unit {0}) tt (λ p. tt)

  pub exit_if-Guards : (P : Type 0) (b : Bool) → Guards P (λ _. Unit {0}) (when b rte_exit)
  exit_if-Guards P b = when-Guards P b rte_exit (λ h r p. r)

  pub if-Guards :
      {A : Type 0} (P : Type 0) (Q : A → Type 0) (b : Bool) (m k : M A)
      → Guards P Q m
      → Guards P Q k
      → Guards P Q (if b then m else k)
  if-Guards P Q true m k f g = f
  if-Guards P Q false m k f g = g

  pub each-Guards :
      {A : Type 0} (P : A → Type 0) (xs : List A) (body : A → M (Unit {0}))
      → ((x : A) → Guards (P x) (λ _. Unit {0}) (body x))
      → Guards (All P xs) (λ _. Unit {0}) (each xs body)
  each-Guards P [] body f = pure-Guards (Unit {0}) (λ _. Unit {0}) tt (λ p. tt)
  each-Guards P (x ∷ xs) body f =
      seq-Guards (All P (x ∷ xs)) (λ _. Unit {0}) (body x) (each xs body)
        (λ h r p. f x h r (λ all. (p all).0))
        (λ h r p. each-Guards P xs body f h r (λ all. (p all).1))

  -- The same where the turns need nothing of their values.
  pub each_any-Guards :
      {A : Type 0} (P : Type 0) (xs : List A) (body : A → M (Unit {0}))
      → ((x : A) → Guards P (λ _. Unit {0}) (body x))
      → Guards P (λ _. Unit {0}) (each xs body)
  each_any-Guards P [] body f = pure-Guards P (λ _. Unit {0}) tt (λ p. tt)
  each_any-Guards P (x ∷ xs) body f =
      seq-Guards P (λ _. Unit {0}) (body x) (each xs body) (f x) (each_any-Guards P xs body f)

  -- A call of which nothing is known and nothing wanted.
  pub quiet-Guards :
      (P : Type 0) (env : Env) (c : Call)
      → ((a : Answer c) → G (event c a))
      → Guards P (λ _. Unit {0}) (call env c)
  quiet-Guards P env c f = call-Guards P env c (λ _. Unit {0}) (λ a p t. (f a, tt))

  pub free_rest-Guards :
      (P : Type 0) (env : Env) (ms : List Mbuf) (n : ℕ)
      → ((m : Mbuf) → G (event (pktmbuf_free m) tt))
      → Guards P (λ _. Unit {0}) (free_rest env ms n)
  unfolding free_rest free_all
  free_rest-Guards P env ms n f = when-Guards P (ltb n (length ms)) _ (
      each_any-Guards P (drop n ms) (λ m. call env (pktmbuf_free m))
        (λ m. quiet-Guards P env (pktmbuf_free m) (λ _. f m)))

  pub Guards-final :
      {A : Type 0} (P : Type 0) (Q : A → Type 0) (m : M A)
      → P
      → Guards P Q m
      → Guaranteed (final (m []))
  Guards-final {A} P Q m p f = end (m []) (f [] tt (λ all. p))
    where
      end : (o : Outcome A) → Post [] Q o → Guaranteed (final o)
      end (next a h) q = q.0
      end (back r h) q = q
      end (quit h) q = q
