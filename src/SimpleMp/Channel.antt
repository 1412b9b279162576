-- ===== src/SimpleMp/Channel.antt =====
-- What Dpdk-lab/multi_process/simple_mp promises, with no buffer, no pool and no memory in it: texts
-- wait in two queues, and a thread has at most one text in its hands.
use pwd_writeup.Base.{
  ℕ, List, [], ◌∷◌, ◌++◌, ◌≡◌, Bool, true, false, ◌==◌, if◌then◌else◌, Option, none, some,
}
use pwd_writeup.Dpdk.{RingName, pri_2_sec, sec_2_pri}
use pwd_writeup.SimpleMp.Threads.{Role, Says, Sends, Takes}

abbrev pub Text : Type 0
Text = List ℕ

-- What a thread does: to write a text, to put it in a queue, to take the next one of a queue, to show
-- it, and to let it go.
pub data Act : Type 0 where
  compose show : Text → Act
  post accept : RingName → Act
  discard : Act

pub record Channel : Type 0 where
  pub hand : ℕ → Option Text
  pub queue : RingName → List Text

abbrev pub same : RingName → RingName → Bool
same pri_2_sec pri_2_sec = true
same sec_2_pri sec_2_pri = true
same q r = false

abbrev pub update {ℓ} : {A : Type ℓ} → (ℕ → A) → ℕ → A → ℕ → A
update f i x j = if j == i then x else f j

abbrev pub update_ring {ℓ} : {A : Type ℓ} → (RingName → A) → RingName → A → RingName → A
update_ring f r x q = if same q r then x else f q

abbrev pub listed : Option Text → List Text
listed none = []
listed (some text) = text ∷ []

abbrev pub first : List Text → Option Text
first [] = none
first (text ∷ texts) = some text

abbrev pub rest {ℓ} : {A : Type ℓ} → List A → List A
rest [] = []
rest (x ∷ xs) = xs

abbrev pub perform : ℕ → Act → Channel → Channel
perform i (compose text) c = record { hand = update c.hand i (some text); queue = c.queue }
perform i (post r) c = record {
  hand = update c.hand i none;
  queue = update_ring c.queue r (c.queue r ++ listed (c.hand i));
}
perform i (accept r) c = record {
  hand = update c.hand i (first (c.queue r));
  queue = update_ring c.queue r (rest (c.queue r));
}
perform i (show text) c = c
perform i discard c = record { hand = update c.hand i none; queue = c.queue }

-- A text is written that the thread says, with empty hands; only a text in hand is posted, shown or let
-- go, and it is shown as it is; a text is taken from a queue that has one.
abbrev pub Lawful : Role → ℕ → Act → Channel → Type 0
Lawful role i (compose text) c = (c.hand i ≡ none) × Says role text
Lawful role i (post r) c = ((text : Text) × (c.hand i ≡ some text)) × Sends role r
Lawful role i (accept r) c =
    (c.hand i ≡ none)
    × (((text : Text) × (texts : List Text) × (c.queue r ≡ text ∷ texts)) × Takes role r)
Lawful role i (show text) c = (c.hand i ≡ some text) × ((r : RingName) × Takes role r)
Lawful role i discard c = (text : Text) × (c.hand i ≡ some text)

-- The acts of all threads, newest first.
abbrev pub Trace : Type 0
Trace = List (ℕ × Act)

abbrev pub channel : Trace → Channel
channel [] = record { hand = λ i. none; queue = λ r. [] }
channel ((i, act) ∷ acts) = perform i act (channel acts)

abbrev pub IsLawful : (ℕ → Role) → Trace → Type 0
IsLawful roles [] = Unit
IsLawful roles ((i, act) ∷ acts) = Lawful (roles i) i act (channel acts) × IsLawful roles acts
