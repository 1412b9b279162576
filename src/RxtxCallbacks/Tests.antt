-- ===== src/RxtxCallbacks/Tests.antt =====
-- Instances of the theorems on Dpdk-lab/rxtx_callbacks/main.c.
use pwd_writeup.Base.{
  ◌+◌, ◌-◌, ◌*◌, map, ℕ, List, [], ◌∷◌, ◌≡◌, ◌≢◌, refl, true, false, Option, none, some, arith, All,
}
use pwd_writeup.Dpdk.{History}
use pwd_writeup.Dpdk.Device.{device}
use pwd_writeup.Dpdk.Monad.{next, final}
use pwd_writeup.Dpdk.Samples.{sample_env, frame}
use pwd_writeup.Dpdk.Ownership.{free_rest, free_all}
use pwd_writeup.Dpdk.Ports.{IsRunning, start_ports}
use pwd_writeup.RxtxCallbacks.{
  Opt, hw_timestamps, unknown, main, run_with, prepare, port_init, inspect, bring_up,
  calibrate_clock, finish, forward_port, lcore_main, parse_options, ticks_per_cycle_mult,
}
use pwd_writeup.RxtxCallbacks.Latency.{Latency, Report, zeroed, calc_latency, accumulate, stamp}
use pwd_writeup.RxtxCallbacks.Latency.Averages.{
  accumulate-stamp, calc_latency-Within, Within, Prints,
}
use pwd_writeup.RxtxCallbacks.Start.{main-IsRunning}

abbrev ratio : ℕ → ℕ → ℕ
ratio cycles ticks = 65536

abbrev opts : List Opt
opts = hw_timestamps ∷ []

main-IsRunning_example :
    All (λ o. o ≢ unknown) opts
    × All (IsRunning (final (main sample_env ratio opts (0 ∷ 1 ∷ []) 2 []))) (0 ∷ 1 ∷ [])
unfolding main run_with prepare start_ports port_init inspect bring_up calibrate_clock finish
    lcore_main forward_port free_rest device free_all parse_options ticks_per_cycle_mult
main-IsRunning_example =
    main-IsRunning sample_env ratio opts (0 ∷ 1 ∷ []) 2 []
      (final (main sample_env ratio opts (0 ∷ 1 ∷ []) 2 [])) tt (omega arith) (refl, (refl, tt))
      refl

calc_latency-Within_example :
    (l' : Latency) × (report : Option Report) × (h' : History) × (calc_latency sample_env true 65536
        0
        (frame ∷ [])
        zeroed
        []
      ≡ next (l', report, 1) h')
    × Within 1000 l'
    × Prints 1000 report
calc_latency-Within_example =
    calc_latency-Within sample_env true 65536 0 1000 (frame ∷ []) zeroed [] (omega arith)
      (omega arith, tt) (omega arith) (omega arith)

-- One frame short of the print.
abbrev one : ℕ
one = 1

abbrev nearly : Latency
nearly = record { total_cycles = 0; total_queue_cycles = 0; total_pkts = 100 }

abbrev printed : Option Report
printed = some (9, none)

accumulate-stamp_example :
    ((accumulate false 0 1000 0 (map (stamp 400) (frame ∷ frame ∷ [])) zeroed).total_cycles
      ≡ 0 + 2 * (1000 - 400))
    × ((accumulate false 0 1000 0 (map (stamp 400) (frame ∷ frame ∷ [])) zeroed).total_pkts ≡ 0 + 2)
accumulate-stamp_example =
    accumulate-stamp false 0 400 1000 0 (frame ∷ frame ∷ []) zeroed (omega arith) (omega arith)
      (omega arith) (omega arith)
