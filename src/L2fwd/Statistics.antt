-- ===== src/L2fwd/Statistics.antt =====
-- Dpdk-lab/multi_thread/l2fwd-single-thread/main.c, print_stats: the numbers that it prints, in the
-- order of the print. The counter `dropped` is raised by DPDK's rte_eth_tx_buffer_count_callback.
pub mod Sums
use pwd_writeup.Base.{ℕ, ◌+◌, ◌%◌, ◌^◌, List, [], ◌∷◌, Bool, if◌then◌else◌, range}
use pwd_writeup.Base.Bits.{is_clear}
use pwd_writeup.L2fwd.Args.{max_ethports}

-- struct l2fwd_port_statistics
pub record PortStatistics : Type 0 where
  pub tx : ℕ
  pub rx : ℕ
  pub dropped : ℕ

pub record Totals : Type 0 where
  pub total_packets_tx : ℕ
  pub total_packets_rx : ℕ
  pub total_packets_dropped : ℕ

abbrev pub no_packets : Totals
no_packets = record { total_packets_tx = 0; total_packets_rx = 0; total_packets_dropped = 0 }

-- The additions for one port, in 64 bits.
unfoldable pub add_port : Totals → PortStatistics → Totals
add_port t s = record {
  total_packets_tx = (t.total_packets_tx + s.tx) % 2 ^ 64;
  total_packets_rx = (t.total_packets_rx + s.rx) % 2 ^ 64;
  total_packets_dropped = (t.total_packets_dropped + s.dropped) % 2 ^ 64;
}

-- The lines of the ports, and the totals after them.
pub record Ports : Type 0 where
  pub lines : List (ℕ × PortStatistics)
  pub totals : Totals

abbrev pub line : ℕ × PortStatistics → Ports → Ports
line l p = record { lines = l ∷ p.lines; totals = p.totals }

-- The loop over the ports, from these totals on.
unfoldable pub print_ports : ℕ → (ℕ → PortStatistics) → List ℕ → Totals → Ports
unfolding add_port
print_ports mask port_statistics [] t = record { lines = []; totals = t }
print_ports mask port_statistics (portid ∷ rest) t =
    let skipped = print_ports mask port_statistics rest t in
    let counted = print_ports mask port_statistics rest (add_port t (port_statistics portid)) in
    if is_clear mask portid then skipped else line (portid, port_statistics portid) counted

unfoldable pub print_stats : ℕ → (ℕ → PortStatistics) → Ports
print_stats mask port_statistics = print_ports mask port_statistics (range max_ethports) no_packets
