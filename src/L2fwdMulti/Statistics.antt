-- ===== src/L2fwdMulti/Statistics.antt =====
-- Dpdk-lab/multi_thread/l2fwd-multi-thread/main.c, print_stats: the numbers that it prints. The loop
-- over the ports has the text of the single-threaded program.
pub mod Sums
use pwd_writeup.Base.{ℕ, ◌+◌, ◌%◌, ◌^◌, List, [], ◌∷◌, Bool, not, if◌then◌else◌, range}
use pwd_writeup.L2fwd.Statistics.{PortStatistics, Ports}
use pwd_writeup.L2fwd.Statistics
use pwd_writeup.L2fwdMulti.Launch.{max_crypto_workers}

-- The counters of a cipher worker, and how many frames its two rings hold (rte_ring_count).
pub record Worker : Type 0 where
  pub rx_count : ℕ
  pub tx_count : ℕ
  pub encrypted : ℕ
  pub decrypted : ℕ
  pub rx_dropped : ℕ
  pub tx_dropped : ℕ

pub record CryptoTotals : Type 0 where
  pub total_encrypted : ℕ
  pub total_decrypted : ℕ
  pub total_rx_dropped : ℕ
  pub total_tx_dropped : ℕ

abbrev pub no_frames_counted : CryptoTotals
no_frames_counted = record {
  total_encrypted = 0;
  total_decrypted = 0;
  total_rx_dropped = 0;
  total_tx_dropped = 0;
}

unfoldable pub add_worker : CryptoTotals → Worker → CryptoTotals
add_worker t w = record {
  total_encrypted = (t.total_encrypted + w.encrypted) % 2 ^ 64;
  total_decrypted = (t.total_decrypted + w.decrypted) % 2 ^ 64;
  total_rx_dropped = (t.total_rx_dropped + w.rx_dropped) % 2 ^ 64;
  total_tx_dropped = (t.total_tx_dropped + w.tx_dropped) % 2 ^ 64;
}

-- The lines of the workers, and the totals after them.
pub record Workers : Type 0 where
  pub lines : List (ℕ × Worker)
  pub totals : CryptoTotals

abbrev pub worker_line : ℕ × Worker → Workers → Workers
worker_line l p = record { lines = l ∷ p.lines; totals = p.totals }

-- The loop over the workers, up to the first without a ring.
unfoldable pub print_workers : (ℕ → Bool) → (ℕ → Worker) → List ℕ → CryptoTotals → Workers
unfolding add_worker
print_workers has_ring workers [] t = record { lines = []; totals = t }
print_workers has_ring workers (w ∷ rest) t =
    let counted = print_workers has_ring workers rest (add_worker t (workers w)) in
    if not (has_ring w)
    then record { lines = []; totals = t }
    else worker_line (w, workers w) counted

-- In the order of the print: the ports, the workers with their totals, the counter of marked frames.
-- The totals of the ports are printed last.
pub record Printed : Type 0 where
  pub ports : Ports
  pub workers : Workers
  pub tx_encrypted_marked_count : ℕ

unfoldable pub print_stats : ℕ → (ℕ → PortStatistics) → (ℕ → Bool) → (ℕ → Worker) → ℕ → Printed
print_stats mask port_statistics has_ring workers marked = record {
  ports = Statistics.print_stats mask port_statistics;
  workers = print_workers has_ring workers (range max_crypto_workers) no_frames_counted;
  tx_encrypted_marked_count = marked;
}
