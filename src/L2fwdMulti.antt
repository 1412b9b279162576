-- ===== src/L2fwdMulti.antt =====
-- Dpdk-lab/multi_thread/l2fwd-multi-thread/main.c: the forwarder with the cipher on lcores of its own,
-- joined to the lcores that receive and send by rings. What its text shares with the single-threaded
-- program (real_encrypt, real_decrypt, the options, the port pairs, the destinations, the lcores'
-- ports, the start of the ports, the link check) is in L2fwd. Each child is another part.
pub mod Worker
pub mod Sender
pub mod Loop
pub mod Statistics
pub mod Launch
pub mod Main
mod Tests
