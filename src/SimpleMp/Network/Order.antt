-- ===== src/SimpleMp/Network/Order.antt =====
-- Dpdk-lab/multi_process/simple_mp: no message is lost, repeated, altered or overtaken in a ring.
use mathlib.Core.List.{append_assoc, append-nil}
use pwd_writeup.Base.{
  ℕ, List, [], ◌∷◌, ◌++◌, map, ◌≡◌, refl, sym, ap, ◌∙◌, Bool-cases, inl, inr, true, if◌then◌else◌,
  Option, some, arith,
}
use pwd_writeup.Dpdk.{RingName, pri_2_sec, sec_2_pri}
use pwd_writeup.Dpdk.Log.{Log, calls_of}
use pwd_writeup.SimpleMp.Threads.{
  Effect, nothing, got, gave, wrote, showed, posted, took, effect_of, Allowed, Role, Says, Sends,
  Takes, Follows,
}
use pwd_writeup.SimpleMp.Channel.{Text, same}
use pwd_writeup.SimpleMp.Network.{Store, apply, store, Serves, IsServed}
use pwd_writeup.SimpleMp.Network.Places.{IsPlaced}
use pwd_writeup.SimpleMp.Network.Texts.{map-update, map-append, unqueued}
use pwd_writeup.SimpleMp.Network.Refines.{
  log-Agrees, Orderly, Orderly-head, Orderly-tail, Follows-Orderly,
}

-- The texts in the buffers as they were put in the ring, and as they were taken out, in order.
abbrev sends : RingName → Effect → Store → List (Option Text)
sends r (posted q b) s = if same r q then s.memory b ∷ [] else []
sends r other s = []

abbrev takes : RingName → Effect → Store → List (Option Text)
takes r (took q b) s = if same r q then s.memory b ∷ [] else []
takes r other s = []

abbrev pub sent : RingName → Log → List (Option Text)
sent r [] = []
sent r ((i, e) ∷ log) = sent r log ++ sends r (effect_of e) (store log)

abbrev pub taken_out : RingName → Log → List (Option Text)
taken_out r [] = []
taken_out r ((i, e) ∷ log) = taken_out r log ++ takes r (effect_of e) (store log)

same-eq : (q r : RingName) → same q r ≡ true → q ≡ r
same-eq pri_2_sec pri_2_sec e = refl
same-eq sec_2_pri sec_2_pri e = refl
same-eq pri_2_sec sec_2_pri e = ground arith
same-eq sec_2_pri pri_2_sec e = ground arith

abbrev pub waiting : RingName → Store → List (Option Text)
waiting r s = map s.memory (s.contents r)

waiting-apply :
    (role : Role) (r : RingName) (i : ℕ) (f : Effect) (s : Store)
    → IsPlaced s
    → Allowed (Says role) (Sends role) (Takes role) (s.grips i) f
    → Serves f s
    → waiting r s ++ sends r f s ≡ takes r f s ++ waiting r (apply i f s)
waiting-apply role r i nothing s p a v = append-nil (waiting r s)
waiting-apply role r i (got b) s p a v = append-nil (waiting r s)
waiting-apply role r i (gave b) s p a v = append-nil (waiting r s)
waiting-apply role r i (wrote b text) s p a v =
    append-nil (waiting r s)
    ∙ sym (map-update s.memory b (some text) (s.contents r) (unqueued s i b r p a.0))
waiting-apply role r i (showed b text) s p a v = append-nil (waiting r s)
waiting-apply role r i (posted q b) s p a v = elim (Bool-cases (same r q)) [
  | inl own ↦ rw (own, same-eq r q own) (sym (map-append s.memory (s.contents q) (b ∷ [])))
  | inr other ↦ rw other (append-nil (waiting r s))
]
waiting-apply role r i (took q b) s p a (bs, oldest) = elim (Bool-cases (same r q)) [
  | inl own ↦ rw (own, same-eq r q own, oldest) (append-nil (s.memory b ∷ map s.memory bs))
  | inr other ↦ rw other (append-nil (waiting r s))
]

-- However the calls of the threads of both processes are interleaved, and at any moment: the texts that
-- were put in a ring are those that were taken out of it, each as it was put in and in the same order,
-- followed by those that wait in it. The threads and what is assumed are those of log-IsLawful.
pub log_in_order :
    (roles : ℕ → Role) (r : RingName) (log : Log)
    → ((i : ℕ) → Follows (roles i) (calls_of i log))
    → IsServed log
    → sent r log ≡ taken_out r log ++ waiting r (store log)
log_in_order roles r log f = orderly_in_order log (λ i. Follows-Orderly roles i log (f i))
  where
    orderly_in_order :
        (log : Log)
        → ((i : ℕ) → Orderly roles i log)
        → IsServed log
        → sent r log ≡ taken_out r log ++ waiting r (store log)
    orderly_in_order [] o v = refl
    orderly_in_order ((i, e) ∷ log) o v =
        let later : (j : ℕ) → Orderly roles j log = λ j. Orderly-tail roles j i e log (o j) in
        ap (λ texts. texts ++ sends r (effect_of e) (store log)) (orderly_in_order log later v.1)
        ∙ append_assoc (taken_out r log) _ _
        ∙ ap (λ texts. taken_out r log ++ texts)
            (waiting-apply (roles i) r i (effect_of e) (store log)
              (log-Agrees roles log later v.1).0 (Orderly-head roles i e log (o i)) v.0)
        ∙ sym (append_assoc (taken_out r log) _ _)
