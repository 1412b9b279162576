-- ===== src/RxtxCallbacks/Latency.antt =====
-- Dpdk-lab/rxtx_callbacks/main.c, add_timestamps and calc_latency. The counters are `uint64_t`.
pub mod Averages
use pwd_writeup.Base.{
  ℕ, ◌+◌, ◌-◌, ◌*◌, ◌/◌, ◌%◌, ◌^◌, ◌≤◌, ◌<◌, List, [], ◌∷◌, map, Bool, if◌then◌else◌, ltb, Option,
  none, some, ◌≡◌, refl, length, arith, All,
}
use pwd_writeup.Dpdk.{Mbuf, Env, system, setting, read_tsc, read_clock}
use pwd_writeup.Dpdk.Monad.{M, ◌>>=◌, call, pure}

-- `latency_numbers`
pub record Latency : Type 0 where
  pub total_cycles : ℕ
  pub total_queue_cycles : ℕ
  pub total_pkts : ℕ

-- What is printed: the average, and the average from the hardware clock.
abbrev pub Report : Type 0
Report = ℕ × Option ℕ

-- `*tsc_field(m) = now;`
unfoldable pub stamp : ℕ → Mbuf → Mbuf
stamp now m = record m { tsc = now }

-- The RX callback, and the number of frames that it passes on.
unfoldable pub add_timestamps : Env → List Mbuf → M (List Mbuf × ℕ)
add_timestamps env pkts = do
  now ← call env (system read_tsc)
  pure (map (stamp now) pkts, length pkts)

-- `a - b` and `a + b` on uint64_t.
abbrev pub sub64 : ℕ → ℕ → ℕ
sub64 a b = (a + 2 ^ 64 - b) % 2 ^ 64

abbrev pub add64 : ℕ → ℕ → ℕ
add64 a b = (a + b) % 2 ^ 64

unfoldable pub sum_cycles : ℕ → ℕ → List Mbuf → ℕ
sum_cycles now acc [] = acc
sum_cycles now acc (m ∷ ms) = sum_cycles now (add64 acc (sub64 now m.tsc)) ms

unfoldable pub sum_ticks : ℕ → ℕ → List Mbuf → ℕ
sum_ticks ticks acc [] = acc
sum_ticks ticks acc (m ∷ ms) = sum_ticks ticks (add64 acc (sub64 ticks m.hw_timestamp)) ms

-- The numbers after a burst, before the test on `total_pkts`.
unfoldable pub accumulate : Bool → ℕ → ℕ → ℕ → List Mbuf → Latency → Latency
accumulate hw mult now ticks pkts l = record {
  total_cycles = add64 l.total_cycles (sum_cycles now 0 pkts);
  total_queue_cycles =
      if hw
      then add64 l.total_queue_cycles (sum_ticks ticks 0 pkts * mult % 2 ^ 64 / 2 ^ 16)
      else l.total_queue_cycles;
  total_pkts = add64 l.total_pkts (length pkts);
}

abbrev pub zeroed : Latency
zeroed = record { total_cycles = 0; total_queue_cycles = 0; total_pkts = 0 }

unfoldable pub print_average : Bool → Latency → Latency × Option Report
print_average hw l =
    if ltb 100 l.total_pkts
    then (
      zeroed,
      some (
        l.total_cycles / l.total_pkts,
        if hw then some (l.total_queue_cycles / l.total_pkts) else none,
      ),
    )
    else (l, none)

-- The TX callback: the new numbers, what is printed, and the number of frames.
unfoldable pub calc_latency :
    Env → Bool → ℕ → ℕ → List Mbuf → Latency → M (Latency × Option Report × ℕ)
unfolding accumulate print_average
calc_latency env hw mult port pkts l = do
  now ← call env (system read_tsc)
  ticks ← (if hw then call env (setting port read_clock) else pure 0)
  let (l', report) = print_average hw (accumulate hw mult now ticks pkts l)
  pure (l', report, length pkts)
