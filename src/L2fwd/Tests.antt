-- ===== src/L2fwd/Tests.antt =====
-- Instances of the theorems on Dpdk-lab/multi_thread/l2fwd-single-thread/main.c.
use pwd_writeup.Base.{
  range, ltb, map, ap, ◌∙◌, suc, ◌-◌, ℕ, ◌+◌, ◌≤◌, ◌∷◌, [], ◌≡◌, ◌↔◌, refl, true, false, Bool, List,
  ℤ, Option, none, some, arith, All, pos, ◌==◌, if◌then◌else◌,
}
use pwd_writeup.Base.Bits.{bit}
use pwd_writeup.Dpdk.{History, Env, Call, Answer, decrypt_ctx, encrypt_ctx, ctx_update, ctx_final}
use pwd_writeup.Dpdk.Device.{device}
use pwd_writeup.Dpdk.Monad.{Outcome, next, back, quit, final}
use pwd_writeup.Dpdk.Samples.{answer, sample_env, frame}
use pwd_writeup.Dpdk.Ownership.{Balances}
use pwd_writeup.L2fwd.Args
use pwd_writeup.L2fwd.Args.Fuel.{parse_pairs-fuel}
use pwd_writeup.L2fwd.Args.Bounds.{IsValid, parse_args-IsValid}
use pwd_writeup.L2fwd.Crypto.{
  init_crypto_contexts, init_encrypt, init_decrypt, write_back, real_encrypt, real_decrypt,
  mark_ether_type,
}
use pwd_writeup.L2fwd.Crypto.Reset.{real_encrypt_empties}
use pwd_writeup.L2fwd.Frame.{outgoing, le_bytes, l2fwd_simple_forward, Tables, l2fwd_mac_updating}
use pwd_writeup.L2fwd.Frame.Addresses.{mac_updating_lem}
use pwd_writeup.L2fwd.Lcores
use pwd_writeup.L2fwd.Lcores.Assigned.{assign-IsFair, IsFair, IsPolled}
use pwd_writeup.L2fwd.LinkStatus.{check_all_ports_link_status, check_rounds, check_ports}
use pwd_writeup.L2fwd.LinkStatus.Time.{delays, check_all_ports_link_status-waits}
use pwd_writeup.L2fwd.Loop.{
  Lcore, Timers, rounds, drain, drain_all, drain_port, advance_timer, expire, receive, handle,
  encrypt_and_forward, decrypt_and_drop, l2fwd_main_loop,
}
use pwd_writeup.L2fwd.Loop.Balance.{rounds_balance}
use pwd_writeup.L2fwd.Loop.Sending.{
  tx_taken, tx_counted, rx_received, rx_counted, IsSound, rounds-IsSound,
}
use pwd_writeup.L2fwd.Ports.{
  check_port_pair_config, check_pairs, refuses, from_pairs, enabled_ports, destinations, alternate,
  link, update,
}
use pwd_writeup.L2fwd.Ports.Checked.{Usable, Separate, InPairs, check_port_pair_config_lem}
use pwd_writeup.L2fwd.Ports.Linked.{from_pairs_lem, ArePaired, destinations-ArePaired}
use pwd_writeup.L2fwd.Statistics.{print_stats, no_packets}
use pwd_writeup.L2fwd.Statistics.Sums.{
  port_statistics, sent_and_received, totals_of, rounds-printed,
}
use pwd_writeup.L2fwd.Start
use pwd_writeup.L2fwd.Main.{main, launch, lcore_of}
use pwd_writeup.L2fwd.Main.Closed.{Finishes, main-Closed}

abbrev tables : Tables
tables = record {
  dst_ports = λ i. if i == 0 then 1 else 0;
  ports_eth_addr = λ i. 2 ∷ 0 ∷ 0 ∷ 0 ∷ 0 ∷ 9 ∷ [];
  mac_updating = true;
}

abbrev lcore : Lcore
lcore = record {
  lcore_id = 0;
  rx_port_list = 0 ∷ 1 ∷ [];
  drain_tsc = 100;
  timer_period = 10;
  tables = tables;
}

abbrev timers : Timers
timers = record { prev_tsc = 0; timer_tsc = 0 }

rounds_balance_example :
    (h' : History) × (rounds sample_env lcore 3 timers [] ≡ next tt h') × Balances 7 0 [] h'
rounds_balance_example = rounds_balance sample_env lcore 3 timers 7 [] (λ k. refl) (λ k. refl)

mac_updating_lem_example :
    l2fwd_mac_updating tables frame 3
    ≡ record frame { dst_addr = 2 ∷ 0 ∷ 0 ∷ 0 ∷ 0 ∷ 3 ∷ []; src_addr = 2 ∷ 0 ∷ 0 ∷ 0 ∷ 0 ∷ 9 ∷ [] }
mac_updating_lem_example = mac_updating_lem tables frame 3 (omega arith)

check_all_ports_link_status-waits_example :
    delays (final (check_all_ports_link_status sample_env 3 (0 ∷ 1 ∷ []) [])) ≤ delays [] + 90
check_all_ports_link_status-waits_example =
    check_all_ports_link_status-waits sample_env 3 (0 ∷ 1 ∷ []) []

check_port_pair_config_lem_example :
    All {A = ℕ × ℕ}
      (λ p. Usable 15 (λ i. true) p.0 × Usable 15 (λ i. true) p.1)
      ((0, 2) ∷ (1, 3) ∷ [])
    × Separate ((0, 2) ∷ (1, 3) ∷ [])
    × ((bit 15 2 ≡ 1) ↔ InPairs 2 ((0, 2) ∷ (1, 3) ∷ []))
unfolding check_port_pair_config check_pairs refuses
check_port_pair_config_lem_example =
    check_port_pair_config_lem 15 (λ i. true) ((0, 2) ∷ (1, 3) ∷ []) 15 2 refl

from_pairs_lem_example :
    All {A = ℕ × ℕ}
      (λ p.
        (from_pairs ((0, 2) ∷ (1, 3) ∷ []) (λ i. 0) p.0 ≡ p.1)
        × (from_pairs ((0, 2) ∷ (1, 3) ∷ []) (λ i. 0) p.1 ≡ p.0))
      ((0, 2) ∷ (1, 3) ∷ [])
from_pairs_lem_example =
    from_pairs_lem ((0, 2) ∷ (1, 3) ∷ []) (λ i. 0)
      ((((omega arith), (omega arith), (omega arith), (omega arith)), tt), (tt, tt))

destinations-ArePaired_example :
    ArePaired (destinations none 15 (0 ∷ 1 ∷ 2 ∷ [])) (enabled_ports 15 (0 ∷ 1 ∷ 2 ∷ []))
destinations-ArePaired_example = destinations-ArePaired 15 (0 ∷ 1 ∷ 2 ∷ []) (omega arith)

rounds-IsSound_example : IsSound tables 1 (final (rounds sample_env lcore 2 timers []))
unfolding rounds drain drain_all drain_port advance_timer expire receive handle encrypt_and_forward
    decrypt_and_drop l2fwd_simple_forward real_encrypt real_decrypt tx_taken tx_counted rx_received
    rx_counted
rounds-IsSound_example =
    rounds-IsSound sample_env lcore (λ q. ground arith) 1 2 timers []
      (final (rounds sample_env lcore 2 timers [])) tt
      (record { sends = tt; tx_right = refl; rx_right = refl }) refl

-- An environment in which a context writes nothing.
abbrev silent_answer : History → (c : Call) → Answer c
silent_answer h (encrypt_ctx (ctx_update bytes)) = []
silent_answer h (encrypt_ctx ctx_final) = []
silent_answer h c = answer h c

abbrev silent_env : Env
silent_env = record sample_env { answer = silent_answer }

real_encrypt_empties_example :
    record frame { payload = []; pkt_len = 14; data_len = 14; ether_type = mark_ether_type }
    ≡ record frame { payload = []; pkt_len = 14; data_len = 14; ether_type = mark_ether_type }
unfolding real_encrypt
real_encrypt_empties_example =
    real_encrypt_empties silent_env frame
      (record frame { payload = []; pkt_len = 14; data_len = 14; ether_type = mark_ether_type }) []
      (final (real_encrypt silent_env frame [])) (λ k bytes. refl) (λ k bytes. refl) refl

-- Contexts that add one to each byte, and take one off.
abbrev shift_answer : History → (c : Call) → Answer c
shift_answer h (encrypt_ctx (ctx_update bytes)) = map suc bytes
shift_answer h (encrypt_ctx ctx_final) = []
shift_answer h (decrypt_ctx (ctx_update bytes)) = map (λ n. n - 1) bytes
shift_answer h (decrypt_ctx ctx_final) = []
shift_answer h c = answer h c

abbrev shift_env : Env
shift_env = record sample_env { answer = shift_answer }

shift_undone : (bytes : List ℕ) → map (λ n. n - 1) (map suc bytes) ≡ bytes
shift_undone [] = refl
shift_undone (b ∷ bytes) =
    let first : suc b - 1 ≡ b = omega arith in
    ap (λ x. x ∷ map (λ n. n - 1) (map suc bytes)) first ∙ ap (λ x. b ∷ x) (shift_undone bytes)

-- Every argument reads as three.
abbrev numbers : Args.Numbers
numbers = record {
  strtoul = λ s base. (3, [], false);
  strtol = λ s base. (pos 3, [], false);
  strsplit = λ s size most. [];
}

-- A text with one comma, in which both fields read as three.
abbrev pair_numbers : Args.Numbers
pair_numbers = record numbers { strsplit = λ s size most. (51 ∷ []) ∷ (51 ∷ []) ∷ [] }

parse_pairs-fuel_example :
    Args.parse_pairs pair_numbers 3 (40 ∷ 41 ∷ []) []
    ≡ Args.parse_pairs pair_numbers 9 (40 ∷ 41 ∷ []) []
parse_pairs-fuel_example =
    parse_pairs-fuel pair_numbers 3 9 (40 ∷ 41 ∷ []) [] (omega arith) (omega arith)

abbrev opts : List Args.Opt
opts =
    Args.promiscuous ∷ Args.portmask (51 ∷ []) ∷ Args.nqueue (51 ∷ []) ∷ Args.timer (51 ∷ []) ∷ []

abbrev options : Args.Options
options = record {
  enabled_port_mask = 3;
  promiscuous_on = true;
  rx_queue_per_lcore = 3;
  timer_period = 3;
  mac_updating = true;
  port_pair_params = none;
}

parse_args-IsValid_example : IsValid options
unfolding Args.l2fwd_parse_args Args.l2fwd_parse_portmask Args.l2fwd_parse_nqueue
    Args.l2fwd_parse_timer_period
parse_args-IsValid_example =
    parse_args-IsValid numbers Args.initial_options options opts
      (omega arith, omega arith, omega arith, omega arith, tt) refl

-- Lcore 0 is disabled, lcore 1 takes two ports and lcore 2 the third.
abbrev got : Option Lcores.Assignment → Lcores.Assignment
got none = Lcores.unassigned
got (some a) = a

abbrev enabled : ℕ → Bool
enabled i = ltb 0 i

abbrev polls : Lcores.Assignment
polls = got (Lcores.assign 4 enabled 2 7 (0 ∷ 1 ∷ 2 ∷ []) Lcores.unassigned)

assign-IsFair_example :
    IsFair 4 enabled 2 polls 1 × All (IsPolled 4 enabled 2 polls) (enabled_ports 7 (0 ∷ 1 ∷ 2 ∷ []))
unfolding Lcores.assign Lcores.seek Lcores.passes_over Lcores.bind Lcores.bound
assign-IsFair_example = assign-IsFair 4 enabled 2 7 (0 ∷ 1 ∷ 2 ∷ []) polls 1 (omega arith) refl

abbrev machine : Start.Machine
machine = record {
  ports = 0 ∷ 1 ∷ [];
  max_lcore = 4;
  is_enabled = enabled;
  workers = [];
  timer_hz = 1000;
}

-- What a run leaves, or a default.
abbrev left_by : {A : Type 0} → A → Outcome A → A
left_by a (next b h) = b
left_by a (back r h) = a
left_by a (quit h) = a

abbrev nothing_set : Start.Setup
nothing_set = record {
  tables = tables;
  assignment = Lcores.unassigned;
  timer_period = 0;
  enabled_port_mask = 0;
}

abbrev is_set : Start.Setup
is_set = left_by nothing_set (Start.setup sample_env numbers machine opts [])

abbrev main_run : Outcome ℤ
main_run = main sample_env numbers machine 1000 1 opts 1 []

main-Closed_example :
    (o : Args.Options) × (s : Start.Setup) × (h₁ : History) × (Args.l2fwd_parse_args numbers
        Args.initial_options opts
      ≡ some o)
    × (Start.setup sample_env numbers machine opts [] ≡ next s h₁)
    × Finishes sample_env numbers machine o.promiscuous_on s.enabled_port_mask h₁
        (pos 0)
        (final main_run)
unfolding main launch lcore_of device Start.setup Start.plan Start.prepare Start.conclude
    Start.init_ports Start.init_port Start.configure_port Start.setup_queues Start.start_port
    Start.from_some Start.shutdown Start.wait_workers Start.close_ports Args.l2fwd_parse_args
    Args.l2fwd_parse_portmask Args.l2fwd_parse_nqueue Args.l2fwd_parse_timer_period Lcores.assign
    Lcores.seek Lcores.passes_over Lcores.bind Lcores.bound check_all_ports_link_status check_rounds
    check_ports destinations alternate link update l2fwd_main_loop init_crypto_contexts init_encrypt
    init_decrypt rounds drain drain_all drain_port advance_timer expire receive handle
    encrypt_and_forward real_encrypt write_back l2fwd_simple_forward outgoing l2fwd_mac_updating
    le_bytes
main-Closed_example =
    main-Closed sample_env numbers machine 1000 1 1 opts [] (final main_run) (pos 0) (omega arith)
      (refl, (refl, tt)) refl

abbrev rounds_run : History
rounds_run = final (rounds sample_env lcore 2 timers [])

rounds-printed_example : print_stats 3 (port_statistics (λ p. 0) rounds_run) ≡ record {
  lines = map (λ p. (p, sent_and_received (λ p. 0) rounds_run p)) (enabled_ports 3 (range 32));
  totals =
      totals_of no_packets
        (map (sent_and_received (λ p. 0) rounds_run) (enabled_ports 3 (range 32)));
}
unfolding rounds drain drain_all drain_port advance_timer expire receive handle encrypt_and_forward
    decrypt_and_drop l2fwd_simple_forward real_encrypt real_decrypt tx_taken tx_counted rx_received
    rx_counted
rounds-printed_example =
    rounds-printed sample_env lcore (λ p. 0) 3 2 timers [] rounds_run tt (λ q. ground arith)
      (λ p. record { sends = tt; tx_right = refl; rx_right = refl }) refl
