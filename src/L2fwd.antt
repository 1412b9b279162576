-- ===== src/L2fwd.antt =====
-- Dpdk-lab/multi_thread/l2fwd-single-thread/main.c: a layer 2 forwarder that encrypts what it
-- forwards. Each child is a part of that file.
pub mod Args
pub mod Crypto
pub mod Ports
pub mod Lcores
pub mod LinkStatus
pub mod Frame
pub mod Loop
pub mod Statistics
pub mod Start
pub mod Main
mod Tests
