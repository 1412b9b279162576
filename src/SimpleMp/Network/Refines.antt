-- ===== src/SimpleMp/Network/Refines.antt =====
-- Dpdk-lab/multi_process/simple_mp: the threads of both processes together refine the channel.
use pwd_writeup.Base.{ℕ, All, [], ◌∷◌, ◌++◌, ◌≡◌, refl, ap, ◌∙◌, Bool-cases, inl, inr, ◌==◌, arith}
use pwd_writeup.Dpdk.{Event}
use pwd_writeup.Dpdk.Log.{Log, calls_of}
use pwd_writeup.SimpleMp.Threads.{
  Effect, nothing, got, gave, wrote, showed, posted, took, effect_of, grip, hold, Allowed,
  IsOrderly, Role, Says, Sends, Takes, Follows,
}
use pwd_writeup.SimpleMp.Threads.Orderly.{Follows-IsOrderly}
use pwd_writeup.SimpleMp.Channel.{Trace, Channel, channel, Lawful, IsLawful, update}
use pwd_writeup.SimpleMp.Network.{Store, apply, store, IsServed, acts_of, acts}
use pwd_writeup.SimpleMp.Network.Places.{IsPlaced, apply-IsPlaced}
use pwd_writeup.SimpleMp.Network.Texts.{
  IsWaiting, IsShown, performs, IsWaiting-apply, IsShown-apply, acts-Lawful,
}

apply-grips :
    (i : ℕ) (f : Effect) (s : Store) (j : ℕ)
    → (apply i f s).grips j ≡ update s.grips i (hold (s.grips i) f) j
apply-grips i nothing s j = ground arith
apply-grips i (got b) s j = refl
apply-grips i (gave b) s j = refl
apply-grips i (wrote b text) s j = refl
apply-grips i (showed b text) s j = ground arith
apply-grips i (posted r b) s j = refl
apply-grips i (took r b) s j = refl

-- What a thread holds depends on its own calls only.
grips_lem : (log : Log) (j : ℕ) → (store log).grips j ≡ grip (calls_of j log)
unfolding calls_of
grips_lem [] j = refl
grips_lem ((i, e) ∷ log) j = elim (Bool-cases (j == i)) [
  | inl own ↦
      apply-grips i (effect_of e) (store log) j
      ∙ rw own (
          ap (λ g. hold g (effect_of e))
            (grips_lem log i ∙ ap (λ x. grip (calls_of x log)) (ground (arith, own))))
  | inr other ↦ apply-grips i (effect_of e) (store log) j ∙ rw other (grips_lem log j)
]

performs_lem :
    (i : ℕ) (f : Effect) (trace : Trace)
    → channel (acts_of i f ++ trace) ≡ performs i f (channel trace)
performs_lem i nothing trace = refl
performs_lem i (got b) trace = refl
performs_lem i (gave b) trace = refl
performs_lem i (wrote b text) trace = refl
performs_lem i (showed b text) trace = refl
performs_lem i (posted r b) trace = refl
performs_lem i (took r b) trace = refl

module _ (roles : ℕ → Role) where
  IsLawful-append :
      (i : ℕ) (f : Effect) (trace : Trace)
      → All (λ x. Lawful (roles i) x.0 x.1 (channel trace)) (acts_of i f)
      → IsLawful roles trace
      → IsLawful roles (acts_of i f ++ trace)
  IsLawful-append i nothing trace a l = l
  IsLawful-append i (got b) trace a l = l
  IsLawful-append i (gave b) trace a l = (a.0, l)
  IsLawful-append i (wrote b text) trace a l = (a.0, l)
  IsLawful-append i (showed b text) trace a l = (a.0, l)
  IsLawful-append i (posted r b) trace a l = (a.0, l)
  IsLawful-append i (took r b) trace a l = (a.0, l)

  abbrev pub Orderly : ℕ → Log → Type 0
  Orderly i log = IsOrderly (Says (roles i)) (Sends (roles i)) (Takes (roles i)) (calls_of i log)

  pub Follows-Orderly : (i : ℕ) (log : Log) → Follows (roles i) (calls_of i log) → Orderly i log
  Follows-Orderly i log f = Follows-IsOrderly (roles i) (calls_of i log) f

  pub Orderly-tail : (i j : ℕ) (e : Event) (log : Log) → Orderly i ((j, e) ∷ log) → Orderly i log
  unfolding calls_of
  Orderly-tail i j e log o = elim (Bool-cases (i == j)) [
    | inl own ↦ (rw own at o).1
    | inr other ↦ rw other at o
  ]

  pub Orderly-head :
      (i : ℕ) (e : Event) (log : Log)
      → Orderly i ((i, e) ∷ log)
      → Allowed
          (Says (roles i))
          (Sends (roles i))
          (Takes (roles i))
          ((store log).grips i)
          (effect_of e)
  unfolding calls_of
  Orderly-head i e log o = elim (Bool-cases (i == i)) [
    | inl own ↦ rw (grips_lem log i) ((rw own at o).0)
    | inr other ↦ absurd (ground arith)
  ]

  -- The buffers are in their places, and their texts are those of the channel, which is used as it may.
  abbrev pub Agrees : Log → Type 0
  Agrees log =
      IsPlaced (store log)
      × IsWaiting (store log) (channel (acts log))
      × IsShown (store log) (channel (acts log))
      × IsLawful roles (acts log)

  pub log-Agrees : (log : Log) → ((i : ℕ) → Orderly i log) → IsServed log → Agrees log
  log-Agrees [] o v =
      ((λ i b e. ground (arith, e), λ r b. refl, λ b e. refl), λ r. refl, λ i. refl, tt)
  log-Agrees ((i, e) ∷ log) o v =
      let (p, w, h, l) = log-Agrees log (λ j. Orderly-tail j i e log (o j)) v.1 in
      (
        apply-IsPlaced (Says role) (Sends role) (Takes role) i f s p allowed v.0,
        rw (performs_lem i f (acts log)) (IsWaiting-apply role i s c f p w h allowed v.0),
        rw (performs_lem i f (acts log)) (IsShown-apply role i s c f p w h allowed v.0),
        IsLawful-append i f (acts log) (acts-Lawful role i s c f w h allowed v.0) l,
      )
    where
      role : Role
      role = roles i

      f : Effect
      f = effect_of e

      s : Store
      s = store log

      c : Channel
      c = channel (acts log)

      allowed : Allowed (Says role) (Sends role) (Takes role) (s.grips i) f
      allowed = Orderly-head i e log (o i)

  -- However the calls of the threads of both processes are interleaved, whatever is typed and at any
  -- moment, what they do with buffers of the shared pool is what the channel does with texts: a thread
  -- that writes a text has none in its hands, and writes one that was typed, cut to a buffer; it puts
  -- one on the ring of its process only if it has it, takes the oldest of a ring that has one, with
  -- empty hands, and shows the one that it took, as it was written. Each thread is at some point of a
  -- run of main or lcore_recv, or made no call. It is assumed that the pool gives out no buffer that it
  -- did not get back, that a ring gives out the oldest one that it took in, and that the characters read
  -- are those written last.
  pub log-IsLawful :
      (log : Log)
      → ((i : ℕ) → Follows (roles i) (calls_of i log))
      → IsServed log
      → IsLawful roles (acts log)
  log-IsLawful log f v = let (p, w, h, l) = log-Agrees log (λ i. Follows-Orderly i log (f i)) v in l
