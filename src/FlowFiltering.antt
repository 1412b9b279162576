-- ===== src/FlowFiltering.antt =====
-- Dpdk-lab/flow_filtering: a rule of rte_flow on one port, and the loop that prints what the port
-- receives. main.c is in Start, flow_skeleton.c in Skeleton, and the files of snippets/, of which a
-- build takes one, in Snippets.
pub mod Snippets
pub mod Skeleton
pub mod Start
mod Tests
