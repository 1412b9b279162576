-- ===== src/Dpdk/Pairing.antt =====
-- Where a forwarder of bursts sends what it receives.
use Prim.Native.Nat.{bit_xor}
use pwd_writeup.Base.{ℕ, ◌+◌, List, [], ◌∷◌, ◌≡◌, refl, ap, ◌==◌, if◌then◌else◌, length}
use pwd_writeup.Dpdk.{Mbuf, Env, event, History, rx_burst, tx_burst}
use pwd_writeup.Dpdk.Monad.{Preserves}
use pwd_writeup.Dpdk.Ownership.{free_rest, free_rest-Preserves}

-- The port and the frames of the latest receive that was not sent yet.
unfoldable pub last_rx : History → ℕ × List Mbuf
last_rx [] = (0, [])
last_rx (event (rx_burst p q n) ms ∷ h) = (p, ms)
last_rx (event (tx_burst p q ms) n ∷ h) = (0, [])
last_rx (event c r ∷ h) = last_rx h

abbrev one_if_any : List Mbuf → ℕ
one_if_any ms = if length ms == 0 then 0 else 1

-- How many receives brought frames, and how many sends had some.
unfoldable pub bursts : History → ℕ
bursts [] = 0
bursts (event (rx_burst p q n) ms ∷ h) = one_if_any ms + bursts h
bursts (event c r ∷ h) = bursts h

unfoldable pub sends : History → ℕ
sends [] = 0
sends (event (tx_burst p q ms) n ∷ h) = one_if_any ms + sends h
sends (event c r ∷ h) = sends h

-- What was sent was the whole of the burst received last before it and not sent before, and went to
-- the port whose number differs in the lowest bit from the one where it came from.
abbrev pub IsMatched : History → Type 0
IsMatched [] = Unit
IsMatched (event (tx_burst p q ms) n ∷ h) =
    (p ≡ bit_xor (last_rx h).0 1) × (ms ≡ (last_rx h).1) × IsMatched h
IsMatched (event c r ∷ h) = IsMatched h

-- And no burst stays behind: as many were sent as were received.
abbrev pub IsPaired : History → Type 0
IsPaired h = IsMatched h × (bursts h ≡ sends h)

-- A turn of a forwarder: receive on a port, send to the paired port, free what is left.
pub forward_step-IsPaired :
    (env : Env) (p n : ℕ) (ms : List Mbuf) (taken : ℕ) (h : History)
    → IsPaired h
    → IsPaired (event (tx_burst (bit_xor p 1) 0 ms) taken ∷ event (rx_burst p 0 n) ms ∷ h)
unfolding last_rx bursts sends
forward_step-IsPaired env p n ms taken h (paired, all) =
    ((refl, refl, paired), ap (λ k. one_if_any ms + k) all)

pub free_rest-IsPaired :
    (env : Env) (ms : List Mbuf) (n : ℕ) → Preserves IsPaired (free_rest env ms n)
unfolding bursts sends
free_rest-IsPaired env ms n = free_rest-Preserves IsPaired env ms n (λ m h p. p)
