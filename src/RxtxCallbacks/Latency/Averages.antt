-- ===== src/RxtxCallbacks/Latency/Averages.antt =====
-- What the two callbacks measure together.
use Prim.Native.Nat.{suc}
use pwd_writeup.Base.{
  ap, ◌↔◌, true, false, Bool-cases, inl, inr, ℕ, ◌+◌, ◌-◌, ◌*◌, ◌/◌, ◌%◌, ◌^◌, ◌≤◌, ◌<◌, List, [],
  ◌∷◌, map, Bool, ltb, Option, none, some, ◌≡◌, refl, length, arith, All,
}
use pwd_writeup.Dpdk.{Mbuf, Env, History, event, system, setting, read_tsc, read_clock}
use pwd_writeup.Dpdk.Monad.{next}
use pwd_writeup.RxtxCallbacks.Latency.{
  Latency, Report, stamp, sum_cycles, accumulate, print_average, calc_latency, add64, sub64,
}

-- Frames stamped together and measured together, so long as the counter does not overflow.
sum_cycles-stamp :
    (t₀ t₁ acc : ℕ) (ms : List Mbuf)
    → t₀ ≤ t₁
    → t₁ < 2 ^ 64
    → acc + length ms * (t₁ - t₀) < 2 ^ 64
    → sum_cycles t₁ acc (map (stamp t₀) ms) ≡ acc + length ms * (t₁ - t₀)
unfolding sum_cycles stamp
sum_cycles-stamp t₀ t₁ acc [] p q r = omega arith
sum_cycles-stamp t₀ t₁ acc (m ∷ ms) p q r =
    omega (arith, sum_cycles-stamp t₀ t₁ (add64 acc (sub64 t₁ t₀)) ms p q)

sum_cycles-le :
    (now d acc : ℕ) (ms : List Mbuf)
    → All (λ m. sub64 now m.tsc ≤ d) ms
    → acc + length ms * d < 2 ^ 64
    → sum_cycles now acc ms ≤ acc + length ms * d
unfolding sum_cycles
sum_cycles-le now d acc [] p r = omega arith
sum_cycles-le now d acc (m ∷ ms) p r =
    omega (arith, sum_cycles-le now d (add64 acc (sub64 now m.tsc)) ms p.1)

div-le : (x n d : ℕ) → 0 < n → x ≤ d * n → x / n ≤ d
div-le x n d p q = grind arith

-- Frames that add_timestamps stamps at `t₀` and calc_latency reads at `t₁` add the whole time
-- between, once each, to the total, and their number to the count, so long as neither counter
-- overflows.
pub accumulate-stamp :
    (hw : Bool) (mult t₀ t₁ ticks : ℕ) (ms : List Mbuf) (l : Latency)
    → t₀ ≤ t₁
    → t₁ < 2 ^ 64
    → l.total_cycles + length ms * (t₁ - t₀) < 2 ^ 64
    → l.total_pkts + length ms < 2 ^ 64
    → let l' = accumulate hw mult t₁ ticks (map (stamp t₀) ms) l in
      (l'.total_cycles ≡ l.total_cycles + length ms * (t₁ - t₀))
      × (l'.total_pkts ≡ l.total_pkts + length ms)
unfolding accumulate
accumulate-stamp hw mult t₀ t₁ ticks ms l p q r s =
    omega (arith, sum_cycles-stamp t₀ t₁ 0 ms p q, length-map-stamp ms)
  where
    length-map-stamp : (ms : List Mbuf) → length (map (stamp t₀) ms) ≡ length ms
    length-map-stamp [] = refl
    length-map-stamp (m ∷ ms) = ap suc (length-map-stamp ms)

-- calc_latency lets every frame pass, prints exactly when more than 100 frames have been counted,
-- and never keeps a count above 100. So it never divides by zero.
pub calc_latency-counts :
    (env : Env) (hw : Bool) (mult port : ℕ) (ms : List Mbuf) (l l' : Latency)
    (report : Option Report) (n : ℕ) (h h' : History)
    → l.total_pkts ≤ 100
    → length ms < 2 ^ 16
    → calc_latency env hw mult port ms l h ≡ next (l', report, n) h'
    → (n ≡ length ms) × (l'.total_pkts ≤ 100) × ((report ≡ none) ↔ (l.total_pkts + length ms ≤ 100))
unfolding calc_latency accumulate print_average
calc_latency-counts env hw mult port ms l l' report n h h' p q e = ground arith

-- The largest latency bounds the printed average.
abbrev pub Within : ℕ → Latency → Type 0
Within d l = l.total_cycles ≤ d * l.total_pkts

abbrev pub Prints : ℕ → Option Report → Type 0
Prints d none = Unit
Prints d (some r) = r.0 ≤ d

print_average-Within :
    (hw : Bool) (d : ℕ) (l : Latency)
    → Within d l
    → Within d (print_average hw l).0 × Prints d (print_average hw l).1
unfolding print_average
print_average-Within hw d l w = elim (Bool-cases (ltb 100 l.total_pkts)) [
  | inl many ↦ rw many (omega arith, div-le l.total_cycles l.total_pkts d (ground arith) w)
  | inr few ↦ rw few (w, tt)
]

accumulate-Within :
    (hw : Bool) (mult now ticks d : ℕ) (ms : List Mbuf) (l : Latency)
    → Within d l
    → All (λ m. sub64 now m.tsc ≤ d) ms
    → d * (l.total_pkts + length ms) < 2 ^ 64
    → l.total_pkts + length ms < 2 ^ 64
    → Within d (accumulate hw mult now ticks ms l)
unfolding accumulate
accumulate-Within hw mult now ticks d ms l w p q r = omega (arith, sum_cycles-le now d 0 ms p, wrap)
  where
    wrap : d * ((l.total_pkts + length ms) % 2 ^ 64) ≡ d * (l.total_pkts + length ms)
    wrap = ap (λ (k : ℕ). d * k) (omega arith)

-- If no frame stayed longer than `d` cycles, and the counters do not overflow, then calc_latency
-- goes on, the average that it prints, if any, is at most `d`, and what it keeps is again a total
-- of at most `d` for each counted frame, so that this holds over any number of bursts.
pub calc_latency-Within :
    (env : Env) (hw : Bool) (mult port d : ℕ) (ms : List Mbuf) (l : Latency) (h : History)
    → Within d l
    → All (λ m. sub64 (env.answer h (system read_tsc)) m.tsc ≤ d) ms
    → d * (l.total_pkts + length ms) < 2 ^ 64
    → l.total_pkts + length ms < 2 ^ 64
    → (l' : Latency) × (report : Option Report) × (h' : History) × (calc_latency env hw mult port ms
          l h
        ≡ next (l', report, length ms) h')
      × Within d l'
      × Prints d report
unfolding calc_latency
calc_latency-Within env true mult port d ms l h w p q r =
    let now = env.answer h (system read_tsc) in
    let ticks = env.answer (event (system read_tsc) now ∷ h) (setting port read_clock) in
    let kept =
      print_average-Within true d (accumulate true mult now ticks ms l)
        (accumulate-Within true mult now ticks d ms l w p q r) in
    (_, _, _, refl, kept.0, kept.1)
calc_latency-Within env false mult port d ms l h w p q r =
    let now = env.answer h (system read_tsc) in
    let kept =
      print_average-Within false d (accumulate false mult now 0 ms l)
        (accumulate-Within false mult now 0 d ms l w p q r) in
    (_, _, _, refl, kept.0, kept.1)
