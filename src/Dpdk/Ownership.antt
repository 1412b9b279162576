-- ===== src/Dpdk/Ownership.antt =====
-- Who owns a frame: the program owns what it receives or takes from a ring, until it hands it to a
-- port or a ring, or frees it. Counted by the frame's identity over the history.
use pwd_writeup.Base.{
  ℕ, ◌+◌, List, [], ◌∷◌, ◌++◌, ◌≡◌, refl, ltb, Bool, true, false, Bool-cases, inl, inr, length, ap,
  ◌∙◌, ◌≤◌, ◌==◌, if◌then◌else◌, take, drop, arith, zero, suc,
}
use pwd_writeup.Dpdk.{
  Mbuf, Event, event, History, rx_burst, tx_burst, tx_buffer, ring_enqueue_burst,
  ring_dequeue_burst, pktmbuf_free, Env,
}
use pwd_writeup.Dpdk.Monad.{
  M, ◌>>◌, call, each, next, pure, continue, repeat, when, Preserves, when-Preserves,
  each-Preserves,
}

unfoldable pub count : ℕ → List Mbuf → ℕ
count a [] = 0
count a (m ∷ ms) = (if a == m.id then 1 else 0) + count a ms

gain : ℕ → Event → ℕ
gain a (event (rx_burst p q n) ms) = count a ms
gain a (event (ring_dequeue_burst r n) ms) = count a ms
gain a (event c r) = 0

-- Of a burst the callee takes the first ones, as many as it answers.
loss : ℕ → Event → ℕ
loss a (event (tx_burst p q ms) n) = count a (take n ms)
loss a (event (tx_buffer p m) n) = count a (m ∷ [])
loss a (event (ring_enqueue_burst r ms) n) = count a (take n ms)
loss a (event (pktmbuf_free m) u) = count a (m ∷ [])
loss a (event c r) = 0

-- How often frame `a` came to the program, and how often it left it.
unfoldable pub gained : ℕ → History → ℕ
unfolding gain
gained a [] = 0
gained a (e ∷ h) = gain a e + gained a h

unfoldable pub lost : ℕ → History → ℕ
unfolding loss
lost a [] = 0
lost a (e ∷ h) = loss a e + lost a h

-- Between `h` and `h'` every frame left the program as often as it came to it, but for `n` times
-- that it held it at the start and left since.
abbrev pub Balances : ℕ → ℕ → History → History → Type 0
Balances a n h h' = gained a h' + lost a h + n ≡ gained a h + lost a h'

pub count-take-drop :
    (a n : ℕ) (ms : List Mbuf) → count a (take n ms) + count a (drop n ms) ≡ count a ms
unfolding count
count-take-drop a zero ms = omega arith
count-take-drop a (suc n) [] = omega arith
count-take-drop a (suc n) (m ∷ ms) = omega (arith, count-take-drop a n ms)

pub drop_all : (a n : ℕ) (ms : List Mbuf) → length ms ≤ n → count a (drop n ms) ≡ 0
unfolding count
drop_all a zero [] h = refl
drop_all a zero (m ∷ ms) h = absurd (omega arith)
drop_all a (suc n) [] h = refl
drop_all a (suc n) (m ∷ ms) h = drop_all a n ms (omega arith)

-- A piece of code that always goes on, and that leaves with the program no frame that came during
-- it, and takes from it none that it held: each came and left equally often.
abbrev pub Conserves : M (Unit {0}) → Type 0
Conserves m = (h : History) → (h' : History) × (m h ≡ next tt h') × ((a : ℕ) → Balances a 0 h h')

pub pure-Conserves : Conserves (pure tt)
pure-Conserves h = (h, refl, λ a. omega arith)

pub seq-Conserves : (m k : M (Unit {0})) → Conserves m → Conserves k → Conserves (m >> k)
seq-Conserves m k f g h =
    let (h₁, e₁, b₁) = f h in
    let (h₂, e₂, b₂) = g h₁ in
    (h₂, ap (λ o. continue o (λ _. k)) e₁ ∙ e₂, λ a. omega (arith, b₁ a, b₂ a))

pub each-Conserves :
    {A : Type 0} (xs : List A) (body : A → M (Unit {0}))
    → ((x : A) → Conserves (body x))
    → Conserves (each xs body)
each-Conserves [] body f = pure-Conserves
each-Conserves (x ∷ xs) body f =
    seq-Conserves (body x) (each xs body) (f x) (each-Conserves xs body f)

pub repeat-Conserves : (n : ℕ) (m : M (Unit {0})) → Conserves m → Conserves (repeat n m)
repeat-Conserves zero m f = pure-Conserves
repeat-Conserves (suc n) m f = seq-Conserves m (repeat n m) f (repeat-Conserves n m f)

module _ (env : Env) where
  unfoldable pub free_all : List Mbuf → M (Unit {0})
  free_all ms = each ms λ m. call env (pktmbuf_free m)

  -- Freeing a list of frames gives up each of them once.
  pub free_all_lem :
      (ms : List Mbuf) (h : History)
      → (h' : History) × (free_all ms h ≡ next tt h') × ((a : ℕ) → Balances a (count a ms) h h')
  unfolding free_all count gained lost
  free_all_lem [] h = (h, refl, λ a. omega arith)
  free_all_lem (m ∷ ms) h =
      let (h', e, b) =
        free_all_lem ms (event (pktmbuf_free m) (env.answer h (pktmbuf_free m)) ∷ h) in
      (h', e, λ a. ground (arith, b a))

  -- What is done with a burst of which the callee took `n` frames: the others are freed.
  unfoldable pub free_rest : List Mbuf → ℕ → M (Unit {0})
  free_rest ms n = when (ltb n (length ms)) (free_all (drop n ms))

  pub free_rest_lem :
      (ms : List Mbuf) (n : ℕ) (h : History)
      → (h' : History) × (free_rest ms n h ≡ next tt h')
        × ((a : ℕ) → Balances a (count a (drop n ms)) h h')
  unfolding free_rest
  free_rest_lem ms n h = elim (Bool-cases (ltb n (length ms))) [
    | inl some_left ↦ rw some_left (free_all_lem (drop n ms) h)
    | inr all_taken ↦ (h, rw all_taken, λ a. ground (arith, drop_all a n ms))
  ]

pub count_none : (a : ℕ) (ms : List Mbuf) → length ms ≡ 0 → count a ms ≡ 0
unfolding count
count_none a [] e = refl
count_none a (m ∷ ms) e = absurd (omega arith)

-- A property that no free can break survives the end of a burst.
pub free_rest-Preserves :
    (P : History → Type 0) (env : Env) (ms : List Mbuf) (n : ℕ)
    → ((m : Mbuf) (h : History) → P h → P (event (pktmbuf_free m) tt ∷ h))
    → Preserves P (free_rest env ms n)
unfolding free_rest free_all
free_rest-Preserves P env ms n step =
    when-Preserves P (ltb n (length ms)) (free_all env (drop n ms))
      (each-Preserves P (drop n ms) (λ m. call env (pktmbuf_free m)) freed)
  where
    freed : (m : Mbuf) → Preserves P (call env (pktmbuf_free m))
    freed m h h' u p e = ground (arith, step m h p)

pub count-cons :
    (a : ℕ) (m : Mbuf) (ms : List Mbuf) → count a (m ∷ ms) ≡ count a (m ∷ []) + count a ms
unfolding count
count-cons a m ms = omega arith

pub count-append : (a : ℕ) (ms ns : List Mbuf) → count a (ms ++ ns) ≡ count a ms + count a ns
unfolding count
count-append a [] ns = omega arith
count-append a (m ∷ ms) ns = omega (arith, count-append a ms ns)

pub when-Conserves : (b : Bool) (m : M (Unit {0})) → Conserves m → Conserves (when b m)
when-Conserves true m f = f
when-Conserves false m f = pure-Conserves

-- What is done with the frames for which a ring or a port had no room: they are counted by `k`, and
-- freed.
pub count_rest_lem :
    (env : Env) (k : M (Unit {0})) (ms : List Mbuf) (n : ℕ) (h : History)
    → Conserves k
    → (h' : History) × ((when (ltb n (length ms)) k >> free_rest env ms n) h ≡ next tt h')
      × ((a : ℕ) → Balances a (count a (drop n ms)) h h')
count_rest_lem env k ms n h f =
    let (h₁, e₁, b₁) = when-Conserves (ltb n (length ms)) k f h in
    let (h₂, e₂, b₂) = free_rest_lem env ms n h₁ in
    (h₂, ap (λ o. continue o (λ _. free_rest env ms n)) e₁ ∙ e₂, λ a. omega (arith, b₁ a, b₂ a))
