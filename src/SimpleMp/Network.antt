-- ===== src/SimpleMp/Network.antt =====
-- Dpdk-lab/multi_process/simple_mp: the threads of both processes at work together. Each runs main or
-- lcore_recv; what happens is a log of single calls, in any interleaving, on the memory, the rings
-- and the pool that the processes share.
pub mod Places
pub mod Texts
pub mod Refines
pub mod Order
pub mod Origin
use pwd_writeup.Base.{ℕ, List, [], ◌∷◌, ◌++◌, ◌≡◌, Bool, true, false, Option, none, some}
use pwd_writeup.Dpdk.{RingName, Event}
use pwd_writeup.Dpdk.Log.{Log}
use pwd_writeup.SimpleMp.Threads.{
  Effect, nothing, got, gave, wrote, showed, posted, took, effect_of, Grip, empty, hold,
}
use pwd_writeup.SimpleMp.Channel.{
  Text, Act, compose, post, accept, show, discard, update, update_ring, rest, Trace,
}

-- Where a buffer is, by all calls so far.
pub data Place : Type 0 where
  in_pool : Place
  in_hand : ℕ → Place
  in_ring : RingName → Place

-- What the calls so far left in the memory and in the rings, which buffers were got from the pool and
-- not put back, what the threads hold, and, for the proofs, the place of each buffer.
pub record Store : Type 0 where
  pub memory : ℕ → Option Text
  pub contents : RingName → List ℕ
  pub is_out : ℕ → Bool
  pub grips : ℕ → Grip
  pub place : ℕ → Place

abbrev pub apply : ℕ → Effect → Store → Store
apply i nothing s = s
apply i (got b) s = record s {
  is_out = update s.is_out b true;
  grips = update s.grips i (hold (s.grips i) (got b));
  place = update s.place b (in_hand i);
}
apply i (gave b) s = record s {
  is_out = update s.is_out b false;
  grips = update s.grips i (hold (s.grips i) (gave b));
  place = update s.place b in_pool;
}
apply i (wrote b text) s = record s {
  memory = update s.memory b (some text);
  grips = update s.grips i (hold (s.grips i) (wrote b text));
}
apply i (showed b text) s = s
apply i (posted r b) s = record s {
  contents = update_ring s.contents r (s.contents r ++ b ∷ []);
  grips = update s.grips i (hold (s.grips i) (posted r b));
  place = update s.place b (in_ring r);
}
apply i (took r b) s = record s {
  contents = update_ring s.contents r (rest (s.contents r));
  grips = update s.grips i (hold (s.grips i) (took r b));
  place = update s.place b (in_hand i);
}

abbrev pub store : Log → Store
store [] = record {
  memory = λ b. none;
  contents = λ r. [];
  is_out = λ b. false;
  grips = λ i. empty;
  place = λ b. in_pool;
}
store ((i, e) ∷ log) = apply i (effect_of e) (store log)

-- What is assumed of the pool, the rings and the memory: a buffer that was got is not got again before it
-- is put back, a ring gives out the oldest that it holds, and what is read is what was written last.
abbrev pub Serves : Effect → Store → Type 0
Serves (got b) s = s.is_out b ≡ false
Serves (took r b) s = (bs : List ℕ) × (s.contents r ≡ b ∷ bs)
Serves (showed b text) s = (written : Text) → s.memory b ≡ some written → text ≡ written
Serves other s = Unit

abbrev pub IsServed : Log → Type 0
IsServed [] = Unit
IsServed ((i, e) ∷ log) = Serves (effect_of e) (store log) × IsServed log

-- A call as an act on the channel; that a fresh buffer is got is none.
abbrev pub acts_of : ℕ → Effect → Trace
acts_of i nothing = []
acts_of i (got b) = []
acts_of i (gave b) = (i, discard) ∷ []
acts_of i (wrote b text) = (i, compose text) ∷ []
acts_of i (showed b text) = (i, show text) ∷ []
acts_of i (posted r b) = (i, post r) ∷ []
acts_of i (took r b) = (i, accept r) ∷ []

abbrev pub acts : Log → Trace
acts [] = []
acts ((i, e) ∷ log) = acts_of i (effect_of e) ++ acts log
