-- ===== src/SimpleMp/Tests.antt =====
-- Instances of the theorems on Dpdk-lab/multi_process/simple_mp.
use pwd_writeup.Base.{
  ℕ, zero, suc, List, [], ◌∷◌, ◌++◌, ◌≡◌, ◌∙◌, refl, true, false, some, take, drop, All, arith,
}
use pwd_writeup.Dpdk.{
  History, Env, Call, Answer, pri_2_sec, sec_2_pri, message, is_primary, ring_dequeue, print,
}
use pwd_writeup.Dpdk.Monad.{next, final}
use pwd_writeup.Dpdk.Samples.{answer, sample_env}
use pwd_writeup.SimpleMp.{
  Command, Command.send, Command.quit, send_in, cmd_send_parsed, interact, lcore_recv, open_rings,
  main, received,
}
use pwd_writeup.Dpdk.Log.{Log, calls_of, by, not_by, not_by_end}
use pwd_writeup.SimpleMp.Draining.{left_in, oldest, shown, put_back, lcore_recv_drains}
use pwd_writeup.SimpleMp.Threads.{Role, unused, prompting, receiving, Follows}
use pwd_writeup.SimpleMp.Channel.{IsLawful}
use pwd_writeup.SimpleMp.Network.{store, IsServed, acts}
use pwd_writeup.SimpleMp.Network.Refines.{log-IsLawful}
use pwd_writeup.SimpleMp.Network.Order.{sent, taken_out, waiting, log_in_order}
use pwd_writeup.SimpleMp.Network.Origin.{IsFromOther, log-AreFromOther}
use pwd_writeup.SimpleMp.Buffers.{IsFit, interact-IsFit}

abbrev commands : List Command
commands = send (104 ∷ 105 ∷ []) ∷ quit ∷ []

interact-IsFit_example : IsFit sample_env (final (interact sample_env pri_2_sec commands []))
unfolding interact cmd_send_parsed send_in
interact-IsFit_example =
    interact-IsFit sample_env pri_2_sec commands []
      (final (interact sample_env pri_2_sec commands [])) tt tt refl

-- A primary process sends a text; the other one shows it.
abbrev receiver_answer : History → (c : Call) → Answer c
receiver_answer h (message (ring_dequeue r)) = some 3
receiver_answer h (message (print b)) = 104 ∷ 105 ∷ []
receiver_answer h c = answer h c

abbrev receiver_env : Env
receiver_env = record { answer = receiver_answer; mbuf_fast_free = 0; rx_timestamp = 0 }

-- The same process at its start.
abbrev opening_answer : History → (c : Call) → Answer c
opening_answer h (message is_primary) = false
opening_answer h c = answer h c

abbrev opening_env : Env
opening_env = record { answer = opening_answer; mbuf_fast_free = 0; rx_timestamp = 0 }

abbrev prompt_calls : History
prompt_calls = final (main sample_env (1 ∷ []) commands [])

abbrev receiver_calls : History
receiver_calls = final (lcore_recv receiver_env pri_2_sec 1 [])

abbrev log : Log
log = by 0 (take 1 prompt_calls) ++ by 1 receiver_calls ++ by 0 (drop 1 prompt_calls)

abbrev roles : ℕ → Role
roles zero = prompting true (1 ∷ []) commands
roles (suc zero) = receiving false
roles (suc (suc i)) = unused

follows : (i : ℕ) → Follows (roles i) (calls_of i log)
unfolding calls_of main open_rings interact cmd_send_parsed send_in lcore_recv received
follows zero = (sample_env, λ k. refl, ([], refl))
follows (suc zero) = (
  record { send_ring = sec_2_pri; recv_ring = pri_2_sec },
  (opening_env, λ k. refl, ([], final (open_rings opening_env []), refl)),
  (receiver_env, 1, [], refl),
)
follows (suc (suc i)) =
    not_by (suc (suc i)) 0 (take 1 prompt_calls) (by 1 receiver_calls ++ by 0 (drop 1 prompt_calls))
      (ground arith)
    ∙ not_by (suc (suc i)) 1 receiver_calls (by 0 (drop 1 prompt_calls)) (ground arith)
    ∙ not_by_end (suc (suc i)) 0 (drop 1 prompt_calls) (ground arith)

served : IsServed log
unfolding main open_rings interact cmd_send_parsed send_in lcore_recv received
served = (
  tt,
  (
    tt,
    (
      (λ written e. ground (arith, e)),
      (([], refl), (tt, (tt, (tt, (refl, (tt, (tt, (tt, (tt, (tt, (tt, (tt, tt)))))))))))),
    ),
  ),
)

log-IsLawful_example : IsLawful roles (acts log)
log-IsLawful_example = log-IsLawful roles log follows served

log_in_order_example : sent pri_2_sec log ≡ taken_out pri_2_sec log ++ waiting pri_2_sec (store log)
log_in_order_example = log_in_order roles pri_2_sec log follows served

log-AreFromOther_example : All (IsFromOther roles) (acts log)
log-AreFromOther_example = log-AreFromOther roles log follows served

-- A ring that holds three messages.
abbrev queue_answer : History → (c : Call) → Answer c
queue_answer h (message (ring_dequeue r)) = oldest (left_in r (5 ∷ 6 ∷ 7 ∷ []) h)
queue_answer h c = answer h c

abbrev queue_env : Env
queue_env = record { answer = queue_answer; mbuf_fast_free = 0; rx_timestamp = 0 }

lcore_recv_drains_example :
    (h' : History) × (lcore_recv queue_env sec_2_pri 4 [] ≡ next tt h')
    × (left_in sec_2_pri (5 ∷ 6 ∷ 7 ∷ []) h' ≡ [])
    × (shown h' ≡ 5 ∷ 6 ∷ 7 ∷ [])
    × (put_back h' ≡ 5 ∷ 6 ∷ 7 ∷ [])
lcore_recv_drains_example =
    lcore_recv_drains queue_env sec_2_pri (5 ∷ 6 ∷ 7 ∷ []) 4 [] (λ k. refl) (λ k. refl)
      (omega arith)
