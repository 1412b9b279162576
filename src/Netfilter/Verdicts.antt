-- ===== src/Netfilter/Verdicts.antt =====
-- Netfilter/Basics/simple_hook.c: the verdicts.
use Prim.Native.Nat.{zero, suc}
use pwd_writeup.Base.{
  ℕ, Option, none, some, refl, ℤ, pos, negsuc, List, [], ◌∷◌, map, ◌≡◌, ap, Bool, true, false,
  if◌then◌else◌, arith,
}
use pwd_writeup.Netfilter.{
  Packet, event, History, Env, Outcome, next, back, M, continue, ◌>>=◌, pure, call, return_if, recv,
  nfq_handle_packet, deliver, nfq_set_verdict, id_of, host_id, callback, handle, turn, receive,
  open_queue, close_queue, main,
}

-- The packets that the callback was called for, and the verdicts, newest first.
unfoldable pub delivered : History → List Packet
delivered [] = []
delivered (event (deliver p) u ∷ h) = p ∷ delivered h
delivered (event c a ∷ h) = delivered h

unfoldable pub verdicts : History → List (ℕ × ℕ)
verdicts [] = []
verdicts (event (nfq_set_verdict id verdict) ret ∷ h) = (id, verdict) ∷ verdicts h
verdicts (event c a ∷ h) = verdicts h

-- NF_ACCEPT of linux/netfilter.h, and the identifier that the kernel knows a packet by: that of its
-- header in host order, and 0 without a header.
abbrev pub accepted : ℕ
accepted = 1

abbrev pub identifier : Env → Option ℕ → ℕ
identifier env none = 0
identifier env (some packet_id) = env.ntohl packet_id

-- Each packet has one verdict: it is accepted.
abbrev pub AreAccepted : Env → History → Type 0
AreAccepted env h = verdicts h ≡ map (λ p. (identifier env p.packet_id, accepted)) (delivered h)

module _ (env : Env) where
  -- However a run ends.
  abbrev pub Ends : {A : Type 0} → Outcome A → Type 0
  Ends (next a h) = AreAccepted env h
  Ends (back r h) = AreAccepted env h

  abbrev Keeps : {A : Type 0} → M A → Type 0
  Keeps m = (h : History) → AreAccepted env h → Ends (m h)

  bind-Keeps :
      {A B : Type 0} (m : M A) (f : A → M B) → Keeps m → ((a : A) → Keeps (f a)) → Keeps (m >>= f)
  bind-Keeps {A} m f k l h e = both (m h) (k h e)
    where
      both : (o : Outcome A) → Ends o → Ends (continue o f)
      both (next a h) e = l a h e
      both (back r h) e = e

  host_id_lem : (packet_id : Option ℕ) → host_id env packet_id ≡ identifier env packet_id
  unfolding host_id
  host_id_lem none = refl
  host_id_lem (some n) = refl

  id_of_lem : (p : Packet) → id_of env p ≡ identifier env p.packet_id
  unfolding id_of
  id_of_lem p = host_id_lem p.packet_id

  callback-Keeps : (p : Packet) → Keeps (callback env p)
  unfolding callback delivered verdicts
  callback-Keeps p h e = rw (id_of_lem p) (ap (λ vs. (identifier env p.packet_id, accepted) ∷ vs) e)

  if-Keeps : {A : Type 0} (b : Bool) (m k : M A) → Keeps m → Keeps k → Keeps (if b then m else k)
  if-Keeps true m k f g = f
  if-Keeps false m k f g = g

  handle-Keeps : (ps : List Packet) → Keeps (handle env ps)
  unfolding handle
  handle-Keeps [] = λ h e. e
  handle-Keeps (p ∷ ps) =
      bind-Keeps (callback env p) _ (callback-Keeps p)
        (λ ret. if-Keeps (env.goes_on ret) (handle env ps) (pure tt) (handle-Keeps ps) (λ h e. e))

  turn-Keeps : (rv : ℤ) (more : M Bool) → Keeps more → Keeps (turn env rv more)
  unfolding turn delivered verdicts
  turn-Keeps (pos zero) more k = λ h e. e
  turn-Keeps (pos (suc n)) more k =
      bind-Keeps (call env (nfq_handle_packet (suc n))) _ (λ h e. e)
        (λ packets. bind-Keeps (handle env packets) (λ _. more) (handle-Keeps packets) (λ _. k))
  turn-Keeps (negsuc n) more k = λ h e. e

  receive-Keeps : (n : ℕ) → Keeps (receive env n)
  unfolding receive delivered verdicts
  receive-Keeps zero = λ h e. e
  receive-Keeps (suc n) =
      bind-Keeps (call env recv) _ (λ h e. e)
        (λ rv. turn-Keeps rv (receive env n) (receive-Keeps n))

  return_if-Keeps : (b : Bool) (r : ℤ) → Keeps (return_if b r)
  return_if-Keeps true r = λ h e. e
  return_if-Keeps false r = λ h e. e

  open_queue-Keeps : Keeps (open_queue env)
  unfolding open_queue delivered verdicts
  open_queue-Keeps h e = ground (arith, e)

  -- At the end of main and after any number of turns of its loop, on every path: each packet that the
  -- library called the callback for has exactly one verdict, it is accepted, under the identifier of its
  -- header or 0 without one, in the order of the calls.
  pub main-AreAccepted : (n : ℕ) (h : History) → AreAccepted env h → Ends (main env n h)
  unfolding main close_queue delivered verdicts
  main-AreAccepted n = bind-Keeps (open_queue env) _ open_queue-Keeps (λ _.
      bind-Keeps (receive env n) _ (receive-Keeps n)
        (λ ended. if-Keeps ended (close_queue env) (pure tt) (λ h e. e) (λ h e. e)))
