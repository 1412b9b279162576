-- ===== src/L2fwdMulti/Tests.antt =====
-- Instances of the theorems on Dpdk-lab/multi_thread/l2fwd-multi-thread/main.c.
use pwd_writeup.Base.{
  All, length, map, range, ℤ, pos, some, ℕ, zero, suc, ◌+◌, ◌∷◌, [], ◌≡◌, refl, true, false, List,
  take, if◌then◌else◌, ◌==◌, ltb, arith,
}
use pwd_writeup.Dpdk.{
  Mbuf, History, Env, Call, Answer, rx_burst, tx_burst, ring_enqueue_burst, ring_dequeue_burst,
}
use pwd_writeup.Dpdk.Monad.{Outcome, next, final}
use pwd_writeup.Dpdk.Samples.{answer, sample_env, frame}
use pwd_writeup.Dpdk.Ownership.{Balances, free_rest}
use pwd_writeup.L2fwd.Crypto.{real_encrypt, write_back, Contexts}
use pwd_writeup.L2fwd.Frame.{Tables}
use pwd_writeup.L2fwd.Loop.{Lcore, drain, drain_all, drain_port, advance_timer, expire}
use pwd_writeup.L2fwdMulti.Worker.{
  turns, work, give_back, handle_frames, handle_frame, encrypt_frame, decrypt_frame, idle, sleep,
  wait,
}
use pwd_writeup.L2fwdMulti.Worker.Balance.{turns_balance}
use pwd_writeup.L2fwdMulti.Worker.Counters.{
  dequeued_frames, coded_count, encrypted_count, returned_count, strays, turns-IsExact,
}
use pwd_writeup.L2fwdMulti.Sender.{
  Groups, no_frames, group, append_to, fits, send_back, send_groups, send_port, check_mark,
  send_row,
}
use pwd_writeup.L2fwdMulti.Sender.Grouping.{frames_for, group-frames_for}
use pwd_writeup.L2fwdMulti.Loop.{arrived_on, take_in, rounds, l2fwd_main_loop}
use pwd_writeup.L2fwdMulti.Loop.Balance.{io_rounds_balance}
use pwd_writeup.L2fwdMulti.Launch.{
  launch_lcores, create_rings, create_ring_pair, launch_crypto, launch_forwarding, visits,
  choose_crypto, is_crypto, run_lcores,
}
use pwd_writeup.L2fwdMulti.Launch.Counts.{worker_launches}
use pwd_writeup.L2fwdMulti.Launch.Roles.{launch_lcores-numbers}
use pwd_writeup.L2fwd.Args
use pwd_writeup.L2fwd.Args.{Numbers, Opt, Options, initial_options, l2fwd_parse_args}
use pwd_writeup.L2fwd.Lcores
use pwd_writeup.L2fwd.LinkStatus.{check_all_ports_link_status, check_rounds, check_ports}
use pwd_writeup.L2fwd.Ports.{enabled_ports, destinations, alternate, link, update}
use pwd_writeup.L2fwd.Start
use pwd_writeup.L2fwd.Start.{Machine, Setup, setup}
use pwd_writeup.L2fwd.Main.{lcore_of}
use pwd_writeup.L2fwd.Main.Closed.{Finishes}
use pwd_writeup.Dpdk.Device.{device}
use pwd_writeup.L2fwdMulti.Main.{main}
use pwd_writeup.L2fwdMulti.Main.Closed.{IsLaunched, main-Finishes}
use pwd_writeup.L2fwdMulti.Statistics
use pwd_writeup.L2fwdMulti.Statistics.Sums.{crypto_totals_of, print_stats_lem}
use pwd_writeup.L2fwd.Statistics.{PortStatistics, no_packets}
use pwd_writeup.L2fwd.Statistics.Sums.{totals_of}
use pwd_writeup.L2fwdMulti.Worker.{ring_burst, rx_to_crypto, crypto_to_tx_array}
use pwd_writeup.L2fwdMulti.Worker.{crypto_loop}
use pwd_writeup.L2fwd.Crypto.{init_crypto_contexts, init_encrypt, init_decrypt}
use pwd_writeup.L2fwdMulti.Worker.Marked.{Guarantees, crypto_loop-AreMarked}
use pwd_writeup.L2fwdMulti.Worker.Draining.{ring_left, turns_drain}

-- A device that brings one frame, rings that have the frame when it is asked for and room for it.
abbrev incoming : Mbuf
incoming = record frame { payload = 69 ∷ [] }

abbrev outgoing : Mbuf
outgoing = record incoming { port = 1; ether_type = 0x88B5; pkt_len = 15; data_len = 15 }

abbrev busy_answer : History → (c : Call) → Answer c
busy_answer h (rx_burst zero q n) = incoming ∷ []
busy_answer h (ring_enqueue_burst r ms) = 1
busy_answer h (ring_dequeue_burst r n) =
    (if r == crypto_to_tx_array then outgoing else incoming) ∷ []
busy_answer h (tx_burst p q ms) = 1
busy_answer h c = answer h c

abbrev busy_env : Env
busy_env = record { answer = busy_answer; mbuf_fast_free = 0x10000; rx_timestamp = 0x4000 }

abbrev other_port : ℕ → ℕ
other_port p = if p == 0 then 1 else 0

abbrev tables : Tables
tables = record {
  dst_ports = other_port;
  ports_eth_addr = λ i. 2 ∷ 0 ∷ 0 ∷ 0 ∷ 0 ∷ 9 ∷ [];
  mac_updating = true;
}

abbrev lcore : Lcore
lcore = record {
  lcore_id = 0;
  rx_port_list = 0 ∷ [];
  drain_tsc = 100;
  timer_period = 0;
  tables = tables;
}

abbrev no_contexts : Contexts
no_contexts = record { has_encrypt = false; has_decrypt = false }

turns_balance_example :
    (h' : History) × (turns busy_env other_port 0 2 0 [] ≡ next tt h')
    × Balances 7 0 [] h'
    × (strays 0 h' ≡ 0)
unfolding strays
turns_balance_example = turns_balance busy_env other_port 0 2 0 7 [] (λ k. refl) (λ k. refl)

turns-IsExact_example :
    (dequeued_frames (final (turns busy_env other_port 0 2 0 [])) + 0
      ≡ 0 + coded_count (final (turns busy_env other_port 0 2 0 [])))
    × (encrypted_count (final (turns busy_env other_port 0 2 0 [])) + 0
        ≡ 0 + returned_count (final (turns busy_env other_port 0 2 0 [])))
    × (strays 0 (final (turns busy_env other_port 0 2 0 [])) ≡ 0)
unfolding turns work handle_frames handle_frame encrypt_frame decrypt_frame real_encrypt write_back
    give_back idle sleep wait free_rest dequeued_frames coded_count encrypted_count returned_count
    strays
turns-IsExact_example =
    turns-IsExact busy_env other_port 0 2 0 [] (final (turns busy_env other_port 0 2 0 [])) tt refl

crypto_loop-AreMarked_example :
    All
      (Guarantees other_port (λ p. p ≡ 0) 0)
      (final (crypto_loop busy_env other_port 0 no_contexts 1 []))
unfolding crypto_loop init_crypto_contexts init_encrypt init_decrypt turns work handle_frames
    handle_frame encrypt_frame decrypt_frame real_encrypt write_back give_back idle sleep wait
    free_rest
crypto_loop-AreMarked_example =
    crypto_loop-AreMarked busy_env other_port (λ p. p ≡ 0) 0 no_contexts 1 (ground arith)

io_rounds_balance_example :
    (h' : History) × (rounds busy_env lcore 2 (record { prev_tsc = 0; timer_tsc = 0 }) []
      ≡ next tt h')
    × Balances 7 0 [] h'
io_rounds_balance_example =
    io_rounds_balance busy_env lcore 2 7 (record { prev_tsc = 0; timer_tsc = 0 }) []

group-frames_for_example :
    (g' : Groups) × (h' : History) × (group busy_env
        (outgoing ∷ incoming ∷ outgoing ∷ [])
        no_frames
        []
      ≡ next g' h')
    × (g' 1 ≡ frames_for 1 (outgoing ∷ incoming ∷ outgoing ∷ []))
group-frames_for_example =
    group-frames_for busy_env (outgoing ∷ incoming ∷ outgoing ∷ []) [] 1 (omega arith) (omega arith)

-- Four lcores, of which the main one, 0, and the second forward.
abbrev lists : ℕ → List ℕ
lists i = if ltb i 2 then i ∷ [] else []

abbrev launched : History
launched = final (launch_lcores sample_env lists (visits suc 4 4 1) [])

launch_lcores-numbers_example :
    ((2 ∷ 3 ∷ []) ≡ choose_crypto lists (visits suc 4 4 1))
    × (worker_launches 1 launched ≡ worker_launches 1 [] + 1)
unfolding launch_lcores create_rings create_ring_pair launch_crypto launch_forwarding visits
    choose_crypto is_crypto
launch_lcores-numbers_example =
    launch_lcores-numbers sample_env lists (visits suc 4 4 1) (2 ∷ 3 ∷ []) 1 [] launched refl

abbrev machine : Machine
machine = record {
  ports = 0 ∷ 1 ∷ [];
  max_lcore = 4;
  is_enabled = λ i. true;
  workers = [];
  timer_hz = 1000;
}

abbrev numbers : Numbers
numbers = record {
  strtoul = λ s base. (3, [], false);
  strtol = λ s base. (pos 3, [], false);
  strsplit = λ s size most. [];
}

abbrev opts : List Opt
opts = Opt.portmask (51 ∷ []) ∷ Opt.nqueue (51 ∷ []) ∷ []

abbrev main_run : Outcome ℤ
main_run = main busy_env numbers machine suc 1000 0 opts 1 []

main-Finishes_example :
    (o : Options) × (s : Setup) × (h₁ : History) × (l2fwd_parse_args numbers initial_options opts
      ≡ some o)
    × (setup busy_env numbers machine opts [] ≡ next s h₁)
    × ((l : ℕ)
        → IsLaunched busy_env numbers machine s.assignment.rx_port_list 0 h₁ (final main_run) l)
    × Finishes busy_env numbers machine o.promiscuous_on s.enabled_port_mask h₁
        (pos 0)
        (final main_run)
unfolding main lcore_of launch_lcores create_rings create_ring_pair launch_crypto launch_forwarding
    visits choose_crypto is_crypto run_lcores device Start.setup Start.plan Start.prepare
    Start.conclude Start.init_ports Start.init_port Start.configure_port Start.setup_queues
    Start.start_port Start.from_some Start.shutdown Start.wait_workers Start.close_ports
    Args.l2fwd_parse_args Args.l2fwd_parse_portmask Args.l2fwd_parse_nqueue
    Args.l2fwd_parse_timer_period Lcores.assign Lcores.seek Lcores.passes_over Lcores.bind
    Lcores.bound check_all_ports_link_status check_rounds check_ports destinations alternate link
    update l2fwd_main_loop rounds drain drain_all drain_port advance_timer expire take_in arrived_on
    free_rest send_back send_groups send_port send_row check_mark group append_to fits
main-Finishes_example =
    main-Finishes busy_env numbers machine suc 1000 0 1 opts [] (final main_run) (pos 0)
      (omega arith) (refl, (refl, tt))
      (λ i small. (omega arith, omega arith, λ below. refl, λ j p q r. absurd (omega arith)))
      (omega arith) refl

-- Two workers have their rings.
abbrev counters : ℕ → PortStatistics
counters p = record { tx = p; rx = p + 1; dropped = 0 }

abbrev workers : ℕ → Statistics.Worker
workers w = record {
  rx_count = 0;
  tx_count = 0;
  encrypted = w + 5;
  decrypted = 0;
  rx_dropped = 0;
  tx_dropped = 1;
}

print_stats_lem_example : Statistics.print_stats 3 counters (λ w. ltb w 2) workers 7 ≡ record {
  ports = record {
    lines = (0, counters 0) ∷ (1, counters 1) ∷ [];
    totals = totals_of no_packets (counters 0 ∷ counters 1 ∷ []);
  };
  workers = record {
    lines = (0, workers 0) ∷ (1, workers 1) ∷ [];
    totals = crypto_totals_of Statistics.no_frames_counted (workers 0 ∷ workers 1 ∷ []);
  };
  tx_encrypted_marked_count = 7;
}
unfolding enabled_ports
print_stats_lem_example = print_stats_lem 3 counters (λ w. ltb w 2) workers 7

-- A ring that holds forty frames of one kind.
abbrev forty : List Mbuf
forty = map (λ i. incoming) (range 40)

abbrev queue_answer : History → (c : Call) → Answer c
queue_answer h (ring_dequeue_burst r n) = take ring_burst (ring_left (rx_to_crypto 0) forty h)
queue_answer h (ring_enqueue_burst r ms) = 32
queue_answer h c = answer h c

abbrev queue_env : Env
queue_env = record { answer = queue_answer; mbuf_fast_free = 0; rx_timestamp = 0 }

turns_drain_example :
    (h' : History) × (turns queue_env other_port 0 2 0 [] ≡ next tt h')
    × (length (ring_left (rx_to_crypto 0) forty h') ≡ 0)
    × (coded_count h' ≡ 40)
    × (strays 0 h' ≡ 0)
unfolding ring_left coded_count strays
turns_drain_example =
    turns_drain queue_env other_port 0 forty 2 0 [] (λ k. refl) (λ k. refl) (λ k. refl) (λ k. refl)
      (omega arith)
