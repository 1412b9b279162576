-- ===== src/SimpleMp/Network/Places.antt =====
-- Dpdk-lab/multi_process/simple_mp: at any moment each message buffer is in one place, in the pool, in
-- the hands of one thread or in one ring, and the texts in the rings and hands are those of the channel.
use pwd_writeup.Base.{
  ℕ, ◌+◌, List, [], ◌∷◌, ◌++◌, ◌≡◌, false, ◌==◌, if◌then◌else◌, Option, none, some, arith,
}
use pwd_writeup.Dpdk.{RingName}
use pwd_writeup.SimpleMp.Threads.{
  Effect, nothing, got, gave, wrote, showed, posted, took, Grip, empty, blank, full, Allowed,
}
use pwd_writeup.SimpleMp.Channel.{Text, same}
use pwd_writeup.SimpleMp.Network.{Place, in_pool, in_hand, in_ring, Store, apply, Serves}

abbrev pub buffer_of : Grip → Option ℕ
buffer_of empty = none
buffer_of (blank b) = some b
buffer_of (full b) = some b

abbrev pub count : ℕ → List ℕ → ℕ
count b [] = 0
count b (x ∷ xs) = (if b == x then 1 else 0) + count b xs

abbrev pub share : RingName → Place → ℕ
share r in_pool = 0
share r (in_hand i) = 0
share r (in_ring q) = if same r q then 1 else 0

-- A thread has a text in its hands when its buffer is full, and it is the text in the buffer.
abbrev pub Shows : (ℕ → Option Text) → Grip → Option Text → Type 0
Shows memory empty h = h ≡ none
Shows memory (blank b) h = h ≡ none
Shows memory (full b) h = (text : Text) × (memory b ≡ some text) × (h ≡ some text)

abbrev pub IsHeld : Store → Type 0
IsHeld s = (i b : ℕ) → buffer_of (s.grips i) ≡ some b → s.place b ≡ in_hand i

abbrev pub IsQueued : Store → Type 0
IsQueued s = (r : RingName) (b : ℕ) → count b (s.contents r) ≡ share r (s.place b)

abbrev pub IsKept : Store → Type 0
IsKept s = (b : ℕ) → s.is_out b ≡ false → s.place b ≡ in_pool

abbrev pub IsPlaced : Store → Type 0
IsPlaced s = IsHeld s × IsQueued s × IsKept s

module _ (S : List ℕ → Type 0) (T U : RingName → Type 0) where
  IsHeld-apply :
      (i : ℕ) (f : Effect) (s : Store)
      → IsHeld s
      → IsQueued s
      → IsKept s
      → Allowed S T U (s.grips i) f
      → Serves f s
      → IsHeld (apply i f s)
  IsHeld-apply i nothing s h q k a v j b e = h j b e
  IsHeld-apply i (got x) s h q k a v j b e = ground (arith, h j b, k x, e, a, v)
  IsHeld-apply i (gave x) s h q k a v j b e = ground (arith, h j b, h i x, h j x, e, a)
  IsHeld-apply i (wrote x text) s h q k a v j b e = ground (arith, h j b, h i x, h j x, e, a.0)
  IsHeld-apply i (showed x text) s h q k a v j b e = h j b e
  IsHeld-apply i (posted r x) s h q k a v j b e = ground (arith, h j b, h i x, h j x, e, a.0)
  IsHeld-apply i (took r x) s h q k a v j b e = ground (arith, h j b, h j x, q r x, e, a.0, v)

  count-append : (b x : ℕ) (xs : List ℕ) → count b (xs ++ x ∷ []) ≡ count b xs + count b (x ∷ [])
  count-append b x [] = omega arith
  count-append b x (y ∷ xs) = omega (arith, count-append b x xs)

  IsQueued-apply :
      (i : ℕ) (f : Effect) (s : Store)
      → IsHeld s
      → IsQueued s
      → IsKept s
      → Allowed S T U (s.grips i) f
      → Serves f s
      → IsQueued (apply i f s)
  IsQueued-apply i nothing s h q k a v r b = q r b
  IsQueued-apply i (got x) s h q k a v r b = ground (arith, q r b, k x, v)
  IsQueued-apply i (gave x) s h q k a v r b = ground (arith, h i x, q r b, q r x, a)
  IsQueued-apply i (wrote x text) s h q k a v r b = q r b
  IsQueued-apply i (showed x text) s h q k a v r b = q r b
  IsQueued-apply i (posted p x) s h q k a v r b = ground (
    arith,
    h i x,
    q r b,
    q r x,
    a.0,
    count-append b x (s.contents p),
    count-append b x (s.contents r),
  )
  IsQueued-apply i (took p x) s h q k a v r b = ground (arith, q r b, q r x, q p b, q p x, v)

  IsKept-apply :
      (i : ℕ) (f : Effect) (s : Store)
      → IsHeld s
      → IsQueued s
      → IsKept s
      → Allowed S T U (s.grips i) f
      → Serves f s
      → IsKept (apply i f s)
  IsKept-apply i nothing s h q k a v b e = k b e
  IsKept-apply i (got x) s h q k a v b e = ground (arith, k b, e)
  IsKept-apply i (gave x) s h q k a v b e = ground (arith, k b, e)
  IsKept-apply i (wrote x text) s h q k a v b e = k b e
  IsKept-apply i (showed x text) s h q k a v b e = k b e
  IsKept-apply i (posted p x) s h q k a v b e = ground (arith, k b, h i x, e, a.0)
  IsKept-apply i (took p x) s h q k a v b e = ground (arith, k b, q p x, e, v)

  pub apply-IsPlaced :
      (i : ℕ) (f : Effect) (s : Store)
      → IsPlaced s
      → Allowed S T U (s.grips i) f
      → Serves f s
      → IsPlaced (apply i f s)
  apply-IsPlaced i f s (h, q, k) a v =
      (IsHeld-apply i f s h q k a v, IsQueued-apply i f s h q k a v, IsKept-apply i f s h q k a v)
