-- ===== src/L2fwdMulti/Statistics/Sums.antt =====
-- Dpdk-lab/multi_thread/l2fwd-multi-thread/main.c: what print_stats prints.
use pwd_writeup.Base.{
  ℕ, ◌+◌, ◌%◌, ◌^◌, List, [], ◌∷◌, map, ◌≡◌, refl, sym, ap, ◌∙◌, Bool, true, false, not,
  if◌then◌else◌, range,
}
use pwd_writeup.L2fwd.Args.{max_ethports}
use pwd_writeup.L2fwd.Ports.{enabled_ports}
use pwd_writeup.L2fwd.Statistics.{PortStatistics, Ports, no_packets, print_ports}
use pwd_writeup.L2fwd.Statistics
use pwd_writeup.L2fwd.Statistics.Sums.{sum, carry, wrap, totals_of, print_ports_lem}
use pwd_writeup.L2fwdMulti.Launch.{max_crypto_workers}
use pwd_writeup.L2fwdMulti.Statistics.{
  Worker, CryptoTotals, no_frames_counted, add_worker, Workers, worker_line, print_workers,
  print_stats,
}

-- The workers before the first that has no ring.
abbrev pub ready : (ℕ → Bool) → List ℕ → List ℕ
ready has_ring [] = []
ready has_ring (w ∷ ws) = if not (has_ring w) then [] else w ∷ ready has_ring ws

abbrev pub crypto_totals_of : CryptoTotals → List Worker → CryptoTotals
crypto_totals_of t ws = record {
  total_encrypted = (t.total_encrypted + sum (map (λ (w : Worker). w.encrypted) ws)) % 2 ^ 64;
  total_decrypted = (t.total_decrypted + sum (map (λ (w : Worker). w.decrypted) ws)) % 2 ^ 64;
  total_rx_dropped = (t.total_rx_dropped + sum (map (λ (w : Worker). w.rx_dropped) ws)) % 2 ^ 64;
  total_tx_dropped = (t.total_tx_dropped + sum (map (λ (w : Worker). w.tx_dropped) ws)) % 2 ^ 64;
}

abbrev IsWrapped : CryptoTotals → Type 0
IsWrapped t = crypto_totals_of t [] ≡ t

add_worker-crypto_totals_of :
    (t : CryptoTotals) (w : Worker) (ws : List Worker)
    → crypto_totals_of (add_worker t w) ws ≡ crypto_totals_of t (w ∷ ws)
unfolding add_worker
add_worker-crypto_totals_of t w ws =
    rw
      (
        carry t.total_encrypted w.encrypted (sum (map (λ (w : Worker). w.encrypted) ws)),
        carry t.total_decrypted w.decrypted (sum (map (λ (w : Worker). w.decrypted) ws)),
        carry t.total_rx_dropped w.rx_dropped (sum (map (λ (w : Worker). w.rx_dropped) ws)),
        carry t.total_tx_dropped w.tx_dropped (sum (map (λ (w : Worker). w.tx_dropped) ws)),
      )
      refl

add_worker-IsWrapped : (t : CryptoTotals) (w : Worker) → IsWrapped (add_worker t w)
unfolding add_worker
add_worker-IsWrapped t w =
    add_worker-crypto_totals_of t w []
    ∙ rw
        (
          wrap t.total_encrypted w.encrypted,
          wrap t.total_decrypted w.decrypted,
          wrap t.total_rx_dropped w.rx_dropped,
          wrap t.total_tx_dropped w.tx_dropped,
        )
        refl

print_workers_lem :
    (has_ring : ℕ → Bool) (workers : ℕ → Worker) (ws : List ℕ) (t : CryptoTotals)
    → IsWrapped t
    → print_workers has_ring workers ws t ≡ record {
      lines = map (λ w. (w, workers w)) (ready has_ring ws);
      totals = crypto_totals_of t (map workers (ready has_ring ws));
    }
unfolding print_workers
print_workers_lem has_ring workers [] t small =
    ap (λ t. record { lines = []; totals = t }) (sym small)
print_workers_lem has_ring workers (w ∷ ws) t small = either (has_ring w) (
    print_workers_lem has_ring workers ws (add_worker t (workers w))
      (add_worker-IsWrapped t (workers w)))
  where
    printed : List ℕ → CryptoTotals → Workers
    printed ws t = record { lines = map (λ w. (w, workers w)) ws; totals = t }

    either :
        (b : Bool)
        → print_workers has_ring workers ws (add_worker t (workers w))
          ≡ printed
              (ready has_ring ws)
              (crypto_totals_of (add_worker t (workers w)) (map workers (ready has_ring ws)))
        → (if not b
            then record { lines = []; totals = t }
            else worker_line
                (w, workers w)
                (print_workers has_ring workers ws (add_worker t (workers w))))
          ≡ (let rs = if not b then [] else w ∷ ready has_ring ws in
              printed rs (crypto_totals_of t (map workers rs)))
    either false counted = ap (printed []) (sym small)
    either true counted =
        ap (worker_line (w, workers w)) counted
        ∙ ap (printed (w ∷ ready has_ring ws))
            (add_worker-crypto_totals_of t (workers w) (map workers (ready has_ring ws)))

-- print_stats prints the counters of each enabled port and of each worker before the first without a
-- ring, in their order, and as totals their sums, in 64 bits.
pub print_stats_lem :
    (mask : ℕ) (port_statistics : ℕ → PortStatistics) (has_ring : ℕ → Bool) (workers : ℕ → Worker)
    (marked : ℕ)
    → let enabled = enabled_ports mask (range max_ethports) in
      let with_ring = ready has_ring (range max_crypto_workers) in
      print_stats mask port_statistics has_ring workers marked ≡ record {
        ports = record {
          lines = map (λ p. (p, port_statistics p)) enabled;
          totals = totals_of no_packets (map port_statistics enabled);
        };
        workers = record {
          lines = map (λ w. (w, workers w)) with_ring;
          totals = crypto_totals_of no_frames_counted (map workers with_ring);
        };
        tx_encrypted_marked_count = marked;
      }
unfolding print_stats Statistics.print_stats
print_stats_lem mask port_statistics has_ring workers marked =
    rw
      (
        print_ports_lem mask port_statistics (range max_ethports) no_packets refl,
        print_workers_lem has_ring workers (range max_crypto_workers) no_frames_counted refl,
      )
      refl
