-- ===== src/FlowFiltering/Tests.antt =====
-- Instances of the theorems on Dpdk-lab/flow_filtering.
use pwd_writeup.Base.{◌+◌, ◌≤◌, ℤ, pos, is_neg, List, [], ◌≡◌, refl, true, false, some}
use pwd_writeup.Flow.{Item, Action, pattern_types, action_types, blank_item, blank_action}
use pwd_writeup.Dpdk.{History}
use pwd_writeup.Dpdk.Monad.{next, final}
use pwd_writeup.Dpdk.Device.{device, running, shut}
use pwd_writeup.Dpdk.Ownership.{Balances}
use pwd_writeup.Dpdk.Samples.{sample_env}
use pwd_writeup.L2fwd.LinkStatus.Time.{delays}
use pwd_writeup.FlowFiltering.Snippets.{
  Modes, make_table, change, allocate, queue_actions, snippet_ipv4_flow_create_patterns,
  snippet_ipv4_flow_create_table, init_default_snippet,
}
use pwd_writeup.FlowFiltering.Snippets.Rules.{
  Name.ipv4, snippet_of, intended_pattern, intended_actions, snippet_rules,
}
use pwd_writeup.FlowFiltering.Skeleton.{cleared, create_flow_template, generate_flow_skeleton}
use pwd_writeup.FlowFiltering.Skeleton.Creation.{IsLawful, generate_flow_skeleton-IsLawful}
use pwd_writeup.FlowFiltering.Start.{
  poll_link, assert_link_status, configure_port_template, setup_rx, setup_tx, set_modes, configure,
  restart, init_port, receive, rounds, main_loop, check_flow, prepare, main,
}
use pwd_writeup.FlowFiltering.Start.Started.{init_port-runs, assert_link_status-waits, link_answer}
use pwd_writeup.FlowFiltering.Start.Receiving.{main_loop-Balances, main-ends}

abbrev modes : Modes
modes = record { promiscuous = true; isolation = false; attr = record { group = 0; ingress = 0 } }

snippet_rules_example :
    ((ys : List Item) × (h' : History) × ((snippet_of ipv4).create_patterns sample_env
          (cleared blank_item 3)
          []
        ≡ next ys h')
      × (pattern_types ys ≡ intended_pattern ipv4))
    × ((zs : List Action) × (h' : History) × ((snippet_of ipv4).create_actions sample_env
            (cleared blank_action 2)
            []
          ≡ next zs h')
        × (action_types zs ≡ intended_actions ipv4))
snippet_rules_example = snippet_rules ipv4 sample_env [] (λ k. refl)

generate_flow_skeleton-IsLawful_example : IsLawful (
    final (
      generate_flow_skeleton sample_env 0
        (snippet_of ipv4)
        (record { group = 0; ingress = 1 })
        true
        []))
unfolding generate_flow_skeleton create_flow_template make_table change allocate queue_actions
    cleared snippet_ipv4_flow_create_patterns snippet_ipv4_flow_create_table
generate_flow_skeleton-IsLawful_example =
    generate_flow_skeleton-IsLawful sample_env 0 ipv4 (record { group = 0; ingress = 1 }) true []
      (final (
        generate_flow_skeleton sample_env 0 (snippet_of ipv4) (record { group = 0; ingress = 1 })
          true []))
      (some 1) (λ e. cc) tt refl

init_port-runs_example :
    device 0 (final (init_port sample_env 0 63 modes true [])) ≡ running 5 5 true
unfolding init_port configure setup_rx setup_tx set_modes assert_link_status poll_link restart
    configure_port_template device
init_port-runs_example =
    init_port-runs sample_env 0 63 modes true [] (final (init_port sample_env 0 63 modes true []))
      tt refl refl

assert_link_status-waits_example :
    (delays (final (assert_link_status sample_env 0 [])) ≤ delays [] + 90)
    × ((h' : History)
        → assert_link_status sample_env 0 [] ≡ next tt h'
        → (is_neg (link_answer sample_env 0 h').0 ≡ false)
          × ((link_answer sample_env 0 h').1 ≡ true))
assert_link_status-waits_example = assert_link_status-waits sample_env 0 []

main_loop-Balances_example :
    (r : ℤ) × (h' : History) × (main_loop sample_env 0 2 [] ≡ next r h') × Balances 7 0 [] h'
main_loop-Balances_example = main_loop-Balances sample_env 0 2 7 []

main-ends_example :
    device 0 (final (main sample_env (snippet_of ipv4) modes 63 (pos 0, true) 1 []))
    ≡ shut 5 5 true (pos 0)
unfolding main prepare init_port configure setup_rx setup_tx set_modes assert_link_status poll_link
    restart configure_port_template device generate_flow_skeleton create_flow_template make_table
    change allocate queue_actions cleared snippet_ipv4_flow_create_patterns
    snippet_ipv4_flow_create_table check_flow main_loop rounds receive init_default_snippet
main-ends_example =
    main-ends sample_env ipv4 modes 63 (pos 0, true) 1 []
      (final (main sample_env (snippet_of ipv4) modes 63 (pos 0, true) 1 [])) (pos 0) refl refl
