-- ===== src/Lib.antt =====
-- The DPDK programs under Dpdk-lab, and Netfilter/Basics/simple_hook.c, modelled from their C source.
--
-- Most programs start their Ethernet ports through DPDK and then poll them for frames.
-- Dpdk-lab/basic_fwd/main.c forwards between two ports of a pair. Dpdk-lab/rxtx_callbacks/main.c does
-- the same and measures in two callbacks how long frames stay.
-- Dpdk-lab/multi_thread/l2fwd-single-thread/main.c reads options, pairs ports, gives ports to lcores,
-- and encrypts what it forwards; l2fwd-multi-thread/main.c beside it encrypts on lcores of their own,
-- joined to the others by rings. Dpdk-lab/flow_filtering puts a rule on a port and prints what it
-- receives. Dpdk-lab/multi_process/simple_mp sends messages between two processes. The two l2fwd
-- programs have much text in common; the others share only the interface of DPDK.
--
-- * Base and its children hold the helpers: Boolean tests, lists with native indices, C's int as a
--   sign and a magnitude, and single bits of a number.
-- * Dpdk is the interface of DPDK and OpenSSL, whose code is elsewhere. `Call` names each call and
--   `Answer` its result; an `Env` answers a call from the history of all calls before it, so that a
--   device may behave in any way. Dpdk/Monad has the runs: a C function extends the history and goes
--   on, returns early, or leaves by rte_exit. What outlives a function (port_statistics,
--   ticks_per_cycle_mult, what a port was told) is read back from the history. Dpdk/Device is the
--   state machine of a port, written from DPDK's interface; Dpdk/Ports is the loop that starts all
--   ports over any routine for one, given as the record `PortSetup`; Dpdk/Parts and Dpdk/Leads join
--   what is known of the pieces of a routine; Dpdk/Ownership counts frames received and given up, and
--   Dpdk/Pairing says where bursts go.
-- * BasicFwd has port_init, lcore_main and main of basic_fwd; Init and Forward prove things of them.
-- * RxtxCallbacks has port_init, lcore_main and main of rxtx_callbacks, Latency the callbacks
--   add_timestamps and calc_latency with their counters in 64 bits.
-- * L2fwd has the parts of l2fwd-single-thread: Args (l2fwd_parse_args and the parsers), Ports
--   (check_port_pair_config and l2fwd_dst_ports), Lcores (lcore_queue_conf), Start (main before
--   and after the lcores run), Main (the whole of main), Statistics (print_stats), LinkStatus
--   (check_all_ports_link_status), Crypto (real_encrypt and real_decrypt), Frame
--   (l2fwd_mac_updating, l2fwd_simple_forward) and Loop (l2fwd_main_loop).
-- * L2fwdMulti has the parts of Dpdk-lab/multi_thread/l2fwd-multi-thread/main.c that are its own:
--   Worker (crypto_loop), Loop (l2fwd_main_loop), Sender (the frames that come back from the
--   cipher, grouped by port), Launch (the rings and the roles of the lcores), Main (the whole of
--   main) and Statistics (print_stats). What has the same text in both programs (real_encrypt,
--   real_decrypt, the options, the ports and their start) is in L2fwd. Its l2fwd_main_loop hands the
--   arrays of rings to calls that want one ring; the model does too, and leaves the answers open.
--   Dpdk/Rely is the method for a program that shares rings: what it guarantees of each of its
--   calls, relying on the answers that it got so far.
-- * FlowFiltering has Dpdk-lab/flow_filtering: Snippets (the files of snippets/, each a value of the
--   record that flow_skeleton.c and main.c know by macros), Skeleton (flow_skeleton.c) and Start
--   (main.c). Flow is the part of rte_flow's interface that they use.
-- * SimpleMp has Dpdk-lab/multi_process/simple_mp: two processes that send messages in buffers of a
--   shared pool. Threads is what a thread may do, Channel the abstract channel of texts, and Network
--   the threads of both processes at work, as a log of their single calls in any order over the
--   memory, the rings and the pool.
-- * Netfilter has Netfilter/Basics/simple_hook.c, which accepts every packet of a netfilter queue. It
--   does not use DPDK, so it has its own calls of libnetfilter_queue, answered in the same way.
--
-- Loops over the ports are recursion on their list. The endless loops run for a number of rounds
-- that is an argument, and what is proved holds for every number. The search for an lcore, and the
-- loops that launch the lcores, have fuel `max_lcore`, one turn for each lcore; the loop over the
-- pairs of `--portmap` has one turn more than the string has characters, and every turn takes a '('
-- off it. The link checks have the 91 and the 90 rounds of the sources. Numbers are natural numbers
-- with the wrap of the C type written out. Port masks have 32 bits, and ports are below 32, which
-- is RTE_MAX_ETHPORTS.
--
-- Not modelled: prints but for the numbers of print_stats and the messages of simple_mp, the NUMA
-- warnings and cycle counts that are only printed; the arithmetic on doubles that calibrates the
-- hardware clock, which is a parameter, as are strtoul, strtol, rte_strsplit, rte_argparse_parse,
-- rte_get_next_lcore, ntohl and what getopt_long answers; the lcores of l2fwd-multi-thread at work
-- together, since the source does not say which ring its forwarders use; the part of
-- l2fwd-multi-thread's main.c that has the text of l2fwd-single-thread's. The tutorial in
-- Netfilter/Cpp_Tutorial is a build of googletest.
pub mod Base
pub mod BasicFwd
pub mod Dpdk
pub mod Flow
pub mod FlowFiltering
pub mod L2fwd
pub mod L2fwdMulti
pub mod Netfilter
pub mod RxtxCallbacks
pub mod SimpleMp
