-- ===== src/Netfilter.antt =====
-- Netfilter/Basics/simple_hook.c: a user of libnetfilter_queue that accepts every packet. The library's
-- code is elsewhere: `Env` answers each call from the history of all calls before it, and `ntohl` and
-- what the library does after a callback are parameters.
pub mod Verdicts
pub mod Ending
mod Tests
use Prim.Native.Nat.{zero, suc}
use pwd_writeup.Base.{
  ℕ, ℤ, pos, negsuc, is_neg, List, [], ◌∷◌, Bool, true, false, not, if◌then◌else◌, Option, none,
  some,
}

-- A packet of the queue: `packet_id` of its header, in the byte order of the network, where it has a
-- header, and what nfq_get_payload returns.
pub record Packet : Type 0 where
  pub packet_id : Option ℕ
  pub payload_len : ℤ

-- NF_ACCEPT
abbrev pub nf_accept : ℕ
nf_accept = 1

pub data Call : Type 0 where
  nfq_open nfq_unbind_pf nfq_bind_pf nfq_create_queue nfq_set_mode nfq_fd : Call
  recv nfq_destroy_queue nfq_close : Call
  -- A message of so many bytes: the packets in it.
  nfq_handle_packet : ℕ → Call
  -- The library calls the callback.
  deliver : Packet → Call
  -- The `printf` of the callback, and nfq_set_verdict.
  print_packet : ℕ → ℤ → Call
  nfq_set_verdict : ℕ → ℕ → Call

abbrev pub Answer : Call → Type 0
Answer nfq_open = Bool
Answer nfq_unbind_pf = ℤ
Answer nfq_bind_pf = ℤ
Answer nfq_create_queue = Bool
Answer nfq_set_mode = ℤ
Answer nfq_fd = ℤ
Answer recv = ℤ
Answer nfq_destroy_queue = ℤ
Answer nfq_close = ℤ
Answer (nfq_handle_packet n) = List Packet
Answer (deliver p) = Unit {0}
Answer (print_packet id len) = Unit {0}
Answer (nfq_set_verdict id verdict) = ℤ

pub data Event : Type 0 where
  event : (c : Call) → Answer c → Event

-- Newest first.
abbrev pub History : Type 0
History = List Event

pub record Env : Type 0 where
  pub answer : History → (c : Call) → Answer c
  pub ntohl : ℕ → ℕ
  -- Whether the library goes on to the next packet after a callback that returned this.
  pub goes_on : ℤ → Bool

-- A run goes on, or main returned.
pub data Outcome (A : Type 0) : Type 0 where
  next : A → History → Outcome A
  back : ℤ → History → Outcome A

abbrev pub M : Type 0 → Type 0
M A = History → Outcome A

abbrev pub continue : {A B : Type 0} → Outcome A → (A → M B) → Outcome B
continue (next a h) f = f a h
continue (back r h) f = back r h

infixl 5 ◌>>=◌ ◌>>◌
abbrev pub ◌>>=◌ : {A B : Type 0} → M A → (A → M B) → M B
◌>>=◌ m f h = continue (m h) f

abbrev pub ◌>>◌ : {B : Type 0} → M (Unit {0}) → M B → M B
◌>>◌ m k = m >>= λ _. k

abbrev pub pure : {A : Type 0} → A → M A
pure a h = next a h

abbrev pub return : {A : Type 0} → ℤ → M A
return r h = back r h

abbrev pub call : Env → (c : Call) → M (Answer c)
call env c h = let r = env.answer h c in next r (event c r ∷ h)

abbrev pub return_if : Bool → ℤ → M (Unit {0})
return_if true r = return r
return_if false r = pure tt

-- `id` of the callback: 0, or what the header has.
unfoldable pub host_id : Env → Option ℕ → ℕ
host_id env none = 0
host_id env (some packet_id) = env.ntohl packet_id

unfoldable pub id_of : Env → Packet → ℕ
unfolding host_id
id_of env p = host_id env p.packet_id

module _ (env : Env) where
  unfoldable pub callback : Packet → M ℤ
  callback p = do
    entered ← call env (deliver p)
    call env (print_packet (id_of env p) p.payload_len)
    call env (nfq_set_verdict (id_of env p) nf_accept)

  -- What nfq_handle_packet makes of the packets of a message.
  unfoldable pub handle : List Packet → M (Unit {0})
  unfolding callback
  handle [] = pure tt
  handle (p ∷ ps) = do ret ← callback p; if env.goes_on ret then handle ps else pure tt

  -- A turn of the loop by the answer of recv, and what follows it.
  unfoldable pub turn : ℤ → M Bool → M Bool
  unfolding handle
  turn (pos zero) more = pure true
  turn (pos (suc k)) more = do packets ← call env (nfq_handle_packet (suc k)); handle packets; more
  turn (negsuc k) more = pure true

  -- `while ((rv = recv(…)) && rv >= 0)`, for at most so many turns: whether it came to its end.
  unfoldable pub receive : ℕ → M Bool
  unfolding turn
  receive zero = pure false
  receive (suc n) = do rv ← call env recv; turn rv (receive n)

  unfoldable pub open_queue : M (Unit {0})
  open_queue = do
    h ← call env nfq_open
    return_if (not h) (negsuc 0)
    unbound ← call env nfq_unbind_pf
    bound ← call env nfq_bind_pf
    return_if (is_neg bound) (negsuc 0)
    qh ← call env nfq_create_queue
    return_if (not qh) (negsuc 0)
    set ← call env nfq_set_mode
    return_if (is_neg set) (negsuc 0)
    fd ← call env nfq_fd
    pure tt

  -- The end of main, when the loop came to its end.
  unfoldable pub close_queue : M (Unit {0})
  close_queue = do
    destroyed ← call env nfq_destroy_queue
    closed ← call env nfq_close
    return (pos 0)

  -- It goes on if the loop is not at its end after `n` turns, and returns otherwise.
  unfoldable pub main : ℕ → M (Unit {0})
  unfolding open_queue receive close_queue
  main n = do open_queue; ended ← receive n; if ended then close_queue else pure tt
