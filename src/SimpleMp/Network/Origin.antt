-- ===== src/SimpleMp/Network/Origin.antt =====
-- Dpdk-lab/multi_process/simple_mp: where a text that a process shows comes from.
use pwd_writeup.Base.{
  ℕ, List, [], ◌∷◌, ◌++◌, ◌≡◌, ◌⊎◌, refl, subst, Bool, Bool-cases, inl, inr, true, false, not, All,
  ◌==◌, Option, none, some, arith,
}
use pwd_writeup.Dpdk.{RingName, pri_2_sec, sec_2_pri}
use pwd_writeup.Dpdk.Log.{Log, calls_of}
use pwd_writeup.SimpleMp.{Command}
use pwd_writeup.SimpleMp.Threads.{
  Role, unused, prompting, receiving, rings_of, IsTyped, Says, Sends, Takes, Follows,
}
use pwd_writeup.SimpleMp.Channel.{
  Text, Act, compose, post, accept, show, discard, Channel, Trace, perform, channel, Lawful,
  IsLawful, update, update_ring, listed, first, rest,
}
use pwd_writeup.SimpleMp.Network.{IsServed, acts}
use pwd_writeup.SimpleMp.Network.Refines.{log-IsLawful}

-- The text was typed at the prompt of a process of this kind.
abbrev pub WasTyped : (ℕ → Role) → Bool → Text → Type 0
WasTyped roles primary text =
    (j : ℕ) × (workers : List ℕ) × (commands : List Command) × (roles j
      ≡ prompting primary workers commands)
    × IsTyped commands text

one_way : (role : Role) (r p : RingName) → Sends role r → Takes role p → ⊥
one_way unused r p s t = t
one_way (prompting primary workers commands) r p s t = t
one_way (receiving primary) r p s t = s

module _ (roles : ℕ → Role) where
  -- Some thread says the text and sends on the ring.
  abbrev Comes : RingName → Text → Type 0
  Comes r text = (j : ℕ) × Says (roles j) text × Sends (roles j) r

  -- A thread has a text that it says, or one that comes by a ring that it takes from.
  abbrev IsOwn : ℕ → Text → Type 0
  IsOwn i text = Says (roles i) text ⊎ ((r : RingName) × Takes (roles i) r × Comes r text)

  abbrev IsSourced : Channel → Type 0
  IsSourced c =
      ((r : RingName) → All (Comes r) (c.queue r))
      × ((i : ℕ) (text : Text) → c.hand i ≡ some text → IsOwn i text)

  -- A thread that sends a text says it: none both sends and takes.
  posts : (i : ℕ) (r : RingName) (text : Text) → Sends (roles i) r → IsOwn i text → Comes r text
  posts i r text sends (inl says) = (i, says, sends)
  posts i r text sends (inr (p, takes, comes)) = absurd (one_way (roles i) r p sends takes)

  update-IsOwn :
      (c : Channel) (i : ℕ) (v : Option Text)
      → IsSourced c
      → ((text : Text) → v ≡ some text → IsOwn i text)
      → (j : ℕ) (text : Text) → update c.hand i v j ≡ some text
      → IsOwn j text
  update-IsOwn c i v s o j text e = elim (Bool-cases (j == i)) [
    | inl own ↦ subst (λ k. IsOwn k text) (ground (arith, own)) (o text (rw own at e))
    | inr other ↦ s.1 j text (rw other at e)
  ]

  update-Comes :
      (c : Channel) (r : RingName) (texts : List Text)
      → IsSourced c
      → All (Comes r) texts
      → (q : RingName) → All (Comes q) (update_ring c.queue r texts q)
  update-Comes c pri_2_sec texts s a pri_2_sec = a
  update-Comes c pri_2_sec texts s a sec_2_pri = s.0 sec_2_pri
  update-Comes c sec_2_pri texts s a pri_2_sec = s.0 pri_2_sec
  update-Comes c sec_2_pri texts s a sec_2_pri = a

  All-snoc :
      (P : Text → Type 0) (texts : List Text) (t : Text)
      → All P texts
      → P t
      → All P (texts ++ t ∷ [])
  All-snoc P [] t a p = (p, tt)
  All-snoc P (x ∷ xs) t a p = (a.0, All-snoc P xs t a.1 p)

  perform-IsSourced :
      (i : ℕ) (act : Act) (c : Channel)
      → IsSourced c
      → Lawful (roles i) i act c
      → IsSourced (perform i act c)
  perform-IsSourced i (compose text) c s l =
      (s.0, update-IsOwn c i (some text) s (λ t e. subst (IsOwn i) (ground (arith, e)) (inl l.1)))
  perform-IsSourced i (post r) c s l =
      let (text, shown) = l.0 in
      (
        update-Comes c r (c.queue r ++ listed (c.hand i)) s (
            rw shown (
              All-snoc (Comes r) (c.queue r) text (s.0 r) (posts i r text l.1 (s.1 i text shown)))),
        update-IsOwn c i none s (λ t e. absurd (ground (arith, e))),
      )
  perform-IsSourced i (accept r) c s l =
      let (text, texts, waits) = l.1.0 in
      let a : All (Comes r) (text ∷ texts) = subst (All (Comes r)) waits (s.0 r) in
      (
        update-Comes c r (rest (c.queue r)) s (rw waits a.1),
        update-IsOwn c i (first (c.queue r)) s
            (λ t e. inr (r, l.1.1, subst (Comes r) (ground (arith, e, waits)) a.0)),
      )
  perform-IsSourced i (show text) c s l = s
  perform-IsSourced i discard c s l =
      (s.0, update-IsOwn c i none s (λ t e. absurd (ground (arith, e))))

  channel-IsSourced : (trace : Trace) → IsLawful roles trace → IsSourced (channel trace)
  channel-IsSourced [] l = (λ r. tt, λ i text e. absurd (ground (arith, e)))
  channel-IsSourced ((i, act) ∷ trace) l =
      perform-IsSourced i act (channel trace) (channel-IsSourced trace l.1) l.0

  -- What is shown comes from the other process.
  abbrev pub IsFromOther : ℕ × Act → Type 0
  IsFromOther (i, show text) =
      (primary : Bool) × (roles i ≡ receiving primary) × WasTyped roles (not primary) text
  IsFromOther (i, act) = Unit

  sent_across :
      (j : ℕ) (role : Role) (primary : Bool) (text : Text)
      → roles j ≡ role
      → Says role text
      → Sends role (rings_of primary).recv_ring
      → WasTyped roles (not primary) text
  sent_across j unused primary text e says sends = absurd says
  sent_across j (receiving p) primary text e says sends = absurd says
  sent_across j (prompting true workers commands) true text e says sends =
      absurd (ground (arith, sends))
  sent_across j (prompting false workers commands) false text e says sends =
      absurd (ground (arith, sends))
  sent_across j (prompting false workers commands) true text e says sends =
      (j, workers, commands, e, says)
  sent_across j (prompting true workers commands) false text e says sends =
      (j, workers, commands, e, says)

  shown-IsFromOther :
      (i : ℕ) (role : Role) (r : RingName) (text : Text)
      → roles i ≡ role
      → Takes role r
      → IsOwn i text
      → IsFromOther (i, show text)
  shown-IsFromOther i unused r text e t o = absurd t
  shown-IsFromOther i (prompting primary workers commands) r text e t o = absurd t
  shown-IsFromOther i (receiving primary) r text e t (inl says) = absurd (rw e at says)
  shown-IsFromOther i (receiving primary) r text e t (inr (q, takes, (j, says, sends))) = (
    primary,
    e,
    sent_across j (roles j) primary text refl says (subst (Sends (roles j)) (rw e at takes) sends),
  )

  acts-AreFromOther : (trace : Trace) → IsLawful roles trace → All IsFromOther trace
  acts-AreFromOther [] l = tt
  acts-AreFromOther ((i, compose text) ∷ trace) l = (tt, acts-AreFromOther trace l.1)
  acts-AreFromOther ((i, post r) ∷ trace) l = (tt, acts-AreFromOther trace l.1)
  acts-AreFromOther ((i, accept r) ∷ trace) l = (tt, acts-AreFromOther trace l.1)
  acts-AreFromOther ((i, discard) ∷ trace) l = (tt, acts-AreFromOther trace l.1)
  acts-AreFromOther ((i, show text) ∷ trace) l =
      let (r, takes) = l.0.1 in
      (
        shown-IsFromOther i (roles i) r text refl takes
            ((channel-IsSourced trace l.1).1 i text l.0.0),
        acts-AreFromOther trace l.1,
      )

  -- Every text that a process shows was typed after `send` at a prompt of the other one, and is what was
  -- typed, cut to a buffer, however the calls of the threads are interleaved. The threads and what is
  -- assumed are those of log-IsLawful.
  pub log-AreFromOther :
      (log : Log)
      → ((i : ℕ) → Follows (roles i) (calls_of i log))
      → IsServed log
      → All IsFromOther (acts log)
  log-AreFromOther log f v = acts-AreFromOther (acts log) (log-IsLawful roles log f v)
