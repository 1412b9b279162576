-- ===== src/SimpleMp/Network/Texts.antt =====
-- Dpdk-lab/multi_process/simple_mp: each call that touches a message is an act on the channel.
use pwd_writeup.Base.{
  ℕ, All, List, [], ◌∷◌, ◌++◌, map, ◌≡◌, refl, ap, ◌∙◌, Bool-cases, inl, inr, ◌==◌, Option, some,
  arith,
}
use pwd_writeup.Dpdk.{RingName}
use pwd_writeup.SimpleMp.Threads.{
  Effect, nothing, got, gave, wrote, showed, posted, took, Grip, empty, blank, full, Allowed, Role,
  Says, Sends, Takes,
}
use pwd_writeup.SimpleMp.Channel.{
  Channel, Text, compose, post, accept, show, discard, perform, Lawful, same, update, rest, listed,
}
use pwd_writeup.SimpleMp.Network.{Store, apply, Serves, acts_of}
use pwd_writeup.SimpleMp.Network.Places.{Shows, count, buffer_of, IsPlaced}

-- The texts in a ring's buffers are those of the queue.
abbrev pub IsWaiting : Store → Channel → Type 0
IsWaiting s c = (r : RingName) → map s.memory (s.contents r) ≡ map some (c.queue r)

abbrev pub IsShown : Store → Channel → Type 0
IsShown s c = (i : ℕ) → Shows s.memory (s.grips i) (c.hand i)

abbrev pub performs : ℕ → Effect → Channel → Channel
performs i nothing c = c
performs i (got b) c = c
performs i (gave b) c = perform i discard c
performs i (wrote b text) c = perform i (compose text) c
performs i (showed b text) c = perform i (show text) c
performs i (posted r b) c = perform i (post r) c
performs i (took r b) c = perform i (accept r) c

pub map-update :
    (m : ℕ → Option Text) (b : ℕ) (v : Option Text) (xs : List ℕ)
    → count b xs ≡ 0
    → map (update m b v) xs ≡ map m xs
map-update m b v [] e = refl
map-update m b v (x ∷ xs) e = ground (arith, e, map-update m b v xs)

pub map-append :
    {A B : Type 0} (f : A → B) (xs ys : List A) → map f (xs ++ ys) ≡ map f xs ++ map f ys
map-append f [] ys = refl
map-append f (x ∷ xs) ys = ap (λ zs. f x ∷ zs) (map-append f xs ys)

-- The next text of a queue, when the ring has a buffer.
next_text :
    (m : ℕ → Option Text) (b : ℕ) (bs : List ℕ) (texts : List Text)
    → map m (b ∷ bs) ≡ map some texts
    → (text : Text) × (later : List Text) × (texts ≡ text ∷ later)
      × (m b ≡ some text)
      × (map m bs ≡ map some later)
next_text m b bs [] e = ground arith
next_text m b bs (text ∷ texts) e = (text, texts, refl, ground (arith, e), ground (arith, e))

-- A fresh buffer in a hand is in no ring, so a write changes no text that waits.
pub unqueued :
    (s : Store) (i b : ℕ) (r : RingName)
    → IsPlaced s
    → s.grips i ≡ blank b
    → count b (s.contents r) ≡ 0
unqueued s i b r (h, q, k) a = ground (arith, h i b, q r b, a)

-- To put the text of a full buffer in a ring.
posted_texts :
    (m : ℕ → Option Text) (b : ℕ) (bs : List ℕ) (texts : List Text) (hand : Option Text)
    → map m bs ≡ map some texts
    → Shows m (full b) hand
    → map m (bs ++ b ∷ []) ≡ map some (texts ++ listed hand)
posted_texts m b bs texts hand w (text, wrote_it, shows) =
    rw (map-append m bs (b ∷ []), shows, map-append some texts (text ∷ []), w, wrote_it) refl

Shows-update :
    (m : ℕ → Option Text) (b : ℕ) (v : Option Text) (g : Grip) (hand : Option Text)
    → (buffer_of g ≡ some b → ⊥)
    → Shows m g hand
    → Shows (update m b v) g hand
Shows-update m b v empty hand n h = h
Shows-update m b v (blank x) hand n h = h
Shows-update m b v (full x) hand n (text, wrote_it, shows) =
    (text, ground (arith, n, wrote_it), shows)

module _ (role : Role) (i : ℕ) (s : Store) (c : Channel) where
  abbrev A : Effect → Type 0
  A f = Allowed (Says role) (Sends role) (Takes role) (s.grips i) f

  next_of :
      (q : RingName) (b : ℕ)
      → IsWaiting s c
      → Serves (took q b) s
      → (text : Text) × (later : List Text) × (c.queue q ≡ text ∷ later)
        × (s.memory b ≡ some text)
        × (map s.memory (rest (s.contents q)) ≡ map some (rest (c.queue q)))
  next_of q b w (bs, e) =
      let (text, later, queued, in_memory, waits) =
        next_text s.memory b bs (c.queue q) (rw e at (w q)) in
      (text, later, queued, in_memory, rw (e, queued) waits)

  pub IsWaiting-apply :
      (f : Effect)
      → IsPlaced s
      → IsWaiting s c
      → IsShown s c
      → A f
      → Serves f s
      → IsWaiting (apply i f s) (performs i f c)
  IsWaiting-apply nothing p w h a v r = w r
  IsWaiting-apply (got b) p w h a v r = w r
  IsWaiting-apply (gave b) p w h a v r = w r
  IsWaiting-apply (wrote b text) p w h a v r =
      map-update s.memory b (some text) (s.contents r) (unqueued s i b r p a.0) ∙ w r
  IsWaiting-apply (showed b text) p w h a v r = w r
  IsWaiting-apply (posted q b) p w h a v r = elim (Bool-cases (same r q)) [
    | inl own ↦
        rw own
          (posted_texts s.memory b (s.contents q) (c.queue q) (c.hand i) (w q) (rw a.0 at (h i)))
    | inr other ↦ rw other (w r)
  ]
  IsWaiting-apply (took q b) p w h a v r =
      let (text, later, queued, in_memory, waits) = next_of q b w v in
      elim (Bool-cases (same r q)) [ inl own ↦ rw own waits | inr other ↦ rw other (w r) ]

  -- What a thread has in its hands, the thread of the call and each other one.
  pub IsShown-apply :
      (f : Effect)
      → IsPlaced s
      → IsWaiting s c
      → IsShown s c
      → A f
      → Serves f s
      → IsShown (apply i f s) (performs i f c)
  IsShown-apply nothing p w h a v j = h j
  IsShown-apply (got b) p w h a v j = elim (Bool-cases (j == i)) [
    | inl own ↦ rw own (ground (arith, own, rw a at (h i)))
    | inr other ↦ rw other (h j)
  ]
  IsShown-apply (gave b) p w h a v j = elim (Bool-cases (j == i)) [
    | inl own ↦ rw own refl
    | inr other ↦ rw other (h j)
  ]
  IsShown-apply (wrote b text) p w h a v j = elim (Bool-cases (j == i)) [
    | inl own ↦ rw own (text, ground arith, refl)
    | inr other ↦ rw other (
        Shows-update s.memory b (some text) (s.grips j) (c.hand j)
          (λ held. ground (arith, other, held, p.0 j b, p.0 i b, a.0)) (h j))
  ]
  IsShown-apply (showed b text) p w h a v j = h j
  IsShown-apply (posted q b) p w h a v j = elim (Bool-cases (j == i)) [
    | inl own ↦ rw own refl
    | inr other ↦ rw other (h j)
  ]
  IsShown-apply (took q b) p w h a v j =
      let (text, later, queued, in_memory, waits) = next_of q b w v in
      elim (Bool-cases (j == i)) [
        | inl own ↦ rw own (text, in_memory, rw queued refl)
        | inr other ↦ rw other (h j)
      ]

  -- The act of a call is one that the channel allows.
  pub acts-Lawful :
      (f : Effect)
      → IsWaiting s c
      → IsShown s c
      → A f
      → Serves f s
      → All (λ x. Lawful role x.0 x.1 c) (acts_of i f)
  acts-Lawful nothing w h a v = tt
  acts-Lawful (got b) w h a v = tt
  acts-Lawful (gave b) w h a v = let (text, in_memory, shows) = rw a at (h i) in ((text, shows), tt)
  acts-Lawful (wrote b text) w h a v = ((rw a.0 at (h i), a.1), tt)
  acts-Lawful (showed b text) w h a v =
      let (old, in_memory, shows) = rw a.0 at (h i) in ((rw (v old in_memory) shows, a.1), tt)
  acts-Lawful (posted q b) w h a v =
      let (text, in_memory, shows) = rw a.0 at (h i) in (((text, shows), a.1), tt)
  acts-Lawful (took q b) w h a v =
      let (text, later, queued, in_memory, waits) = next_of q b w v in
      ((rw a.0 at (h i), ((text, later, queued), a.1)), tt)
