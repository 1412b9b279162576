-- ===== src/SimpleMp/Threads.antt =====
-- Dpdk-lab/multi_process/simple_mp: a process runs the prompt on its main lcore and lcore_recv on the
-- others. What a thread holds, and the order in which it works on a message.
pub mod Keeps
pub mod Orderly
use pwd_writeup.Base.{
  ℕ, ◌-◌, List, [], ◌∷◌, ◌++◌, ◌≡◌, Bool, true, false, is_neg, if◌then◌else◌, Option, none, some,
  take,
}
use pwd_writeup.Dpdk.{
  Env, Event, event, History, RingName, pri_2_sec, sec_2_pri, message, is_primary, mempool_get,
  mempool_put, write, print, ring_enqueue, ring_dequeue,
}
use pwd_writeup.Dpdk.Log.{Among}
use pwd_writeup.Dpdk.Monad.{next, final}
use pwd_writeup.SimpleMp.{
  Command, Command.send, str_token_size, Rings, open_rings, lcore_recv, main,
}

-- What a call with its answer does to the messages; most do nothing.
pub data Effect : Type 0 where
  nothing : Effect
  got gave : ℕ → Effect
  wrote showed : ℕ → List ℕ → Effect
  posted took : RingName → ℕ → Effect

abbrev pub effect_of : Event → Effect
effect_of (event (message mempool_get) (some b)) = got b
effect_of (event (message (write b text)) u) = wrote b text
effect_of (event (message (ring_enqueue r b)) ret) = if is_neg ret then nothing else posted r b
effect_of (event (message (ring_dequeue r)) (some b)) = took r b
effect_of (event (message (print b)) text) = showed b text
effect_of (event (message (mempool_put b)) u) = gave b
effect_of (event c a) = nothing

-- The buffer that a thread has in its hands, before and after a text is in it.
pub data Grip : Type 0 where
  empty : Grip
  blank full : ℕ → Grip

abbrev pub hold : Grip → Effect → Grip
hold g nothing = g
hold g (got b) = blank b
hold g (gave b) = empty
hold g (wrote b text) = full b
hold g (showed b text) = g
hold g (posted r b) = empty
hold g (took r b) = full b

abbrev pub grip : History → Grip
grip [] = empty
grip (e ∷ h) = hold (grip h) (effect_of e)

-- A thread takes a buffer with empty hands, writes only in a fresh one, and passes on, shows or gives
-- back only the one that it holds, with its text. It writes, sends and takes what it may, and
-- shows a text only if it may take some.
module _ (Says : List ℕ → Type 0) (Sends Takes : RingName → Type 0) where
  abbrev pub Allowed : Grip → Effect → Type 0
  Allowed g nothing = Unit
  Allowed g (got b) = g ≡ empty
  Allowed g (gave b) = g ≡ full b
  Allowed g (wrote b text) = (g ≡ blank b) × Says text
  Allowed g (showed b text) = (g ≡ full b) × ((r : RingName) × Takes r)
  Allowed g (posted r b) = (g ≡ full b) × Sends r
  Allowed g (took r b) = (g ≡ empty) × Takes r

  abbrev pub IsOrderly : History → Type 0
  IsOrderly [] = Unit
  IsOrderly (e ∷ h) = Allowed (grip h) (effect_of e) × IsOrderly h

-- The rings that the primary process should have, and those of the other.
abbrev pub rings_of : Bool → Rings
rings_of true = record { send_ring = pri_2_sec; recv_ring = sec_2_pri }
rings_of false = record { send_ring = sec_2_pri; recv_ring = pri_2_sec }

-- What a thread does: nothing, main with the prompt of a process, or lcore_recv. The Boolean says
-- whether its process is the primary one.
pub data Role : Type 0 where
  unused : Role
  prompting : Bool → List ℕ → List Command → Role
  receiving : Bool → Role

-- The text was typed, and cut to a buffer.
abbrev pub IsTyped : List Command → List ℕ → Type 0
IsTyped commands text =
    (typed : List ℕ) × Among (send typed) commands × (text ≡ take (str_token_size - 1) typed)

abbrev pub Says : Role → List ℕ → Type 0
Says unused text = ⊥
Says (prompting primary workers commands) text = IsTyped commands text
Says (receiving primary) text = ⊥

abbrev pub Sends : Role → RingName → Type 0
Sends unused r = ⊥
Sends (prompting primary workers commands) r = r ≡ (rings_of primary).send_ring
Sends (receiving primary) r = ⊥

abbrev pub Takes : Role → RingName → Type 0
Takes unused r = ⊥
Takes (prompting primary workers commands) r = ⊥
Takes (receiving primary) r = r ≡ (rings_of primary).recv_ring

-- What open_rings made in some process of this kind.
abbrev pub Opened : Bool → Rings → Type 0
Opened primary rings =
    (env : Env) × ((k : History) → env.answer k (message is_primary) ≡ primary)
    × ((h : History) × (h' : History) × (open_rings env h ≡ next rings h'))

-- The calls and answers so far of a thread in this role, whatever the answers are to come.
abbrev pub Follows : Role → History → Type 0
Follows unused h = h ≡ []
Follows (prompting primary workers commands) h =
    (env : Env) × ((k : History) → env.answer k (message is_primary) ≡ primary)
    × ((later : History) × (final (main env workers commands []) ≡ later ++ h))
Follows (receiving primary) h =
    (rings : Rings) × Opened primary rings
    × ((env : Env) × (n : ℕ) × (later : History) × (final (lcore_recv env rings.recv_ring n [])
          ≡ later ++ h))
