-- ===== src/BasicFwd/Tests.antt =====
-- Instances of the theorems on Dpdk-lab/basic_fwd/main.c.
use pwd_writeup.Base.{[], ◌∷◌, ◌≡◌, refl, arith, All}
use pwd_writeup.Dpdk.{History}
use pwd_writeup.Dpdk.Device.{device}
use pwd_writeup.Dpdk.Monad.{next, final}
use pwd_writeup.Dpdk.Samples.{sample_env}
use pwd_writeup.Dpdk.Ownership.{Balances, free_rest, free_all}
use pwd_writeup.Dpdk.Ports.{IsRunning, start_ports}
use pwd_writeup.BasicFwd.{port_init, forward_port, lcore_main, prepare, main}
use pwd_writeup.BasicFwd.Init.{receives, main-running}
use pwd_writeup.BasicFwd.Forward.{lcore_main-Balances, lcore_main-IsPaired}
use pwd_writeup.Dpdk.Pairing.{IsPaired, last_rx, bursts, sends}

main-running_example :
    (h₁ : History) × (receives h₁ ≡ 0)
    × All (IsRunning h₁) (0 ∷ 1 ∷ [])
    × (lcore_main sample_env (0 ∷ 1 ∷ []) 2 h₁
        ≡ next tt (final (main sample_env (0 ∷ 1 ∷ []) 2 [])))
    × All (IsRunning (final (main sample_env (0 ∷ 1 ∷ []) 2 []))) (0 ∷ 1 ∷ [])
unfolding main prepare start_ports port_init lcore_main forward_port free_rest device free_all
    receives
main-running_example =
    main-running sample_env (0 ∷ 1 ∷ []) 2 [] (final (main sample_env (0 ∷ 1 ∷ []) 2 [])) tt
      (omega arith) (refl, (refl, tt)) refl

lcore_main-Balances_example :
    (h' : History) × (lcore_main sample_env (0 ∷ 1 ∷ []) 3 [] ≡ next tt h') × Balances 7 0 [] h'
lcore_main-Balances_example = lcore_main-Balances sample_env (0 ∷ 1 ∷ []) 3 7 []

lcore_main-IsPaired_example : IsPaired (final (lcore_main sample_env (0 ∷ 1 ∷ []) 2 []))
unfolding lcore_main forward_port free_rest last_rx free_all bursts sends
lcore_main-IsPaired_example =
    lcore_main-IsPaired sample_env (0 ∷ 1 ∷ []) 2 []
      (final (lcore_main sample_env (0 ∷ 1 ∷ []) 2 [])) tt (tt, refl) refl
