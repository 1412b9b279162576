-- ===== src/L2fwd/Statistics/Sums.antt =====
-- Dpdk-lab/multi_thread/l2fwd-single-thread/main.c: what print_stats prints.
use native.Mathlib.Nat.{mod-add-mod}
use mathlib.Core.Path.{fun_ext}
use pwd_writeup.Base.{
  ℕ, ◌+◌, ◌%◌, ◌^◌, ◌<◌, List, [], ◌∷◌, map, ◌≡◌, refl, sym, ap, ◌∙◌, Bool, true, false,
  if◌then◌else◌, range, arith,
}
use pwd_writeup.Base.Bits.{is_clear}
use pwd_writeup.Dpdk.{Env, History}
use pwd_writeup.Dpdk.Monad.{next}
use pwd_writeup.L2fwd.Loop.{Lcore, Timers, rounds}
use pwd_writeup.L2fwd.Loop.Sending.{
  tx_counted, tx_taken, rx_counted, rx_received, IsSound, rounds-IsSound,
}
use pwd_writeup.L2fwd.Args.{max_ethports}
use pwd_writeup.L2fwd.Ports.{enabled_ports}
use pwd_writeup.L2fwd.Statistics.{
  PortStatistics, Totals, no_packets, add_port, Ports, line, print_ports, print_stats,
}

abbrev pub sum : List ℕ → ℕ
sum [] = 0
sum (n ∷ ns) = n + sum ns

-- The totals of ports with these statistics, after others.
abbrev pub totals_of : Totals → List PortStatistics → Totals
totals_of t ss = record {
  total_packets_tx = (t.total_packets_tx + sum (map (λ (s : PortStatistics). s.tx) ss)) % 2 ^ 64;
  total_packets_rx = (t.total_packets_rx + sum (map (λ (s : PortStatistics). s.rx) ss)) % 2 ^ 64;
  total_packets_dropped =
      (t.total_packets_dropped + sum (map (λ (s : PortStatistics). s.dropped) ss)) % 2 ^ 64;
}

pub carry : (a b c : ℕ) → ((a + b) % 2 ^ 64 + c) % 2 ^ 64 ≡ (a + (b + c)) % 2 ^ 64
carry a b c = mod-add-mod (a + b) (2 ^ 64) c ∙ ap (λ n. n % 2 ^ 64) (omega arith)

pub wrap : (a b : ℕ) → (a + (b + 0)) % 2 ^ 64 ≡ (a + b) % 2 ^ 64
wrap a b = ap (λ n. n % 2 ^ 64) (omega arith)

-- Totals that are in 64 bits.
abbrev pub IsWrapped : Totals → Type 0
IsWrapped t = totals_of t [] ≡ t

add_port-totals_of :
    (t : Totals) (s : PortStatistics) (ss : List PortStatistics)
    → totals_of (add_port t s) ss ≡ totals_of t (s ∷ ss)
unfolding add_port
add_port-totals_of t s ss =
    rw
      (
        carry t.total_packets_tx s.tx (sum (map (λ (s : PortStatistics). s.tx) ss)),
        carry t.total_packets_rx s.rx (sum (map (λ (s : PortStatistics). s.rx) ss)),
        carry t.total_packets_dropped s.dropped (sum (map (λ (s : PortStatistics). s.dropped) ss)),
      )
      refl

add_port-IsWrapped : (t : Totals) (s : PortStatistics) → IsWrapped (add_port t s)
unfolding add_port
add_port-IsWrapped t s =
    add_port-totals_of t s []
    ∙ rw
        (
          wrap t.total_packets_tx s.tx,
          wrap t.total_packets_rx s.rx,
          wrap t.total_packets_dropped s.dropped,
        )
        refl

-- What the loop over the ports prints, from these totals on.
pub print_ports_lem :
    (mask : ℕ) (stats : ℕ → PortStatistics) (ps : List ℕ) (t : Totals)
    → IsWrapped t
    → print_ports mask stats ps t ≡ record {
      lines = map (λ p. (p, stats p)) (enabled_ports mask ps);
      totals = totals_of t (map stats (enabled_ports mask ps));
    }
unfolding print_ports enabled_ports
print_ports_lem mask stats [] t small = ap (λ t. record { lines = []; totals = t }) (sym small)
print_ports_lem mask stats (p ∷ ps) t small =
    either (is_clear mask p) (print_ports_lem mask stats ps t small)
      (print_ports_lem mask stats ps (add_port t (stats p)) (add_port-IsWrapped t (stats p)))
  where
    printed : List ℕ → Totals → Ports
    printed ps t = record { lines = map (λ p. (p, stats p)) ps; totals = t }

    either :
        (b : Bool)
        → print_ports mask stats ps t
          ≡ printed (enabled_ports mask ps) (totals_of t (map stats (enabled_ports mask ps)))
        → print_ports mask stats ps (add_port t (stats p))
          ≡ printed
              (enabled_ports mask ps)
              (totals_of (add_port t (stats p)) (map stats (enabled_ports mask ps)))
        → (if b
            then print_ports mask stats ps t
            else line (p, stats p) (print_ports mask stats ps (add_port t (stats p))))
          ≡ (let en = if b then enabled_ports mask ps else p ∷ enabled_ports mask ps in
              printed en (totals_of t (map stats en)))
    either true skipped counted = skipped
    either false skipped counted =
        ap (line (p, stats p)) counted
        ∙ ap (printed (p ∷ enabled_ports mask ps))
            (add_port-totals_of t (stats p) (map stats (enabled_ports mask ps)))

-- port_statistics as the calls so far left it, and what it should be: the frames that a port took and
-- those that were received on it.
unfoldable pub port_statistics : (ℕ → ℕ) → History → ℕ → PortStatistics
port_statistics dropped h p = record {
  tx = tx_counted p h % 2 ^ 64;
  rx = rx_counted p h % 2 ^ 64;
  dropped = dropped p;
}

abbrev pub sent_and_received : (ℕ → ℕ) → History → ℕ → PortStatistics
sent_and_received dropped h p = record {
  tx = tx_taken p h % 2 ^ 64;
  rx = rx_received p h % 2 ^ 64;
  dropped = dropped p;
}

-- After any number of rounds of an lcore, if the counters were right before, print_stats prints for each
-- enabled port, in their order, how many frames the port took and how many were received on it, in 64
-- bits, and as totals the sums over the enabled ports, in 64 bits. The number of dropped frames is
-- what DPDK counted.
pub rounds-printed :
    (env : Env) (c : Lcore) (dropped : ℕ → ℕ) (mask n : ℕ) (t : Timers) (h h' : History)
    (u : Unit {0})
    → ((q : ℕ) → c.tables.dst_ports q < 2 ^ 32)
    → ((p : ℕ) → IsSound c.tables p h)
    → rounds env c n t h ≡ next u h'
    → print_stats mask (port_statistics dropped h') ≡ record {
      lines =
          map (λ p. (p, sent_and_received dropped h' p)) (enabled_ports mask (range max_ethports));
      totals =
          totals_of no_packets
            (map (sent_and_received dropped h') (enabled_ports mask (range max_ethports)));
    }
unfolding print_stats port_statistics
rounds-printed env c dropped mask n t h h' u small sound run =
    ap (λ stats. print_ports mask stats (range max_ethports) no_packets) (fun_ext right)
    ∙ print_ports_lem mask (sent_and_received dropped h') (range max_ethports) no_packets refl
  where
    right : (p : ℕ) → port_statistics dropped h' p ≡ sent_and_received dropped h' p
    right p =
        let s = rounds-IsSound env c small p n t h h' u (sound p) run in
        rw (s.tx_right, s.rx_right) refl
