-- ===== src/Netfilter/Tests.antt =====
-- Instances of the theorems on Netfilter/Basics/simple_hook.c.
use pwd_writeup.Base.{◌*◌, pos, List, [], ◌∷◌, refl, true, some, none, ltb, if◌then◌else◌, length}
use pwd_writeup.Netfilter.{
  Packet, Call, Answer, History, Env, nfq_open, nfq_unbind_pf, nfq_bind_pf, nfq_create_queue,
  nfq_set_mode, nfq_fd, recv, nfq_destroy_queue, nfq_close, nfq_handle_packet, deliver,
  print_packet, nfq_set_verdict, main,
}
use pwd_writeup.Netfilter.Verdicts.{Ends, main-AreAccepted, delivered, verdicts}
use pwd_writeup.Netfilter.Ending.{Concludes, main-Concludes}

abbrev packets : List Packet
packets =
    record { packet_id = some 1; payload_len = pos 40 }
    ∷ record { packet_id = none; payload_len = pos 8 }
    ∷ []

-- Two messages with two packets each, then the end of the socket.
abbrev hook_answer : History → (c : Call) → Answer c
hook_answer h nfq_open = true
hook_answer h nfq_unbind_pf = pos 0
hook_answer h nfq_bind_pf = pos 0
hook_answer h nfq_create_queue = true
hook_answer h nfq_set_mode = pos 0
hook_answer h nfq_fd = pos 3
hook_answer h recv = if ltb (length h) 20 then pos 100 else pos 0
hook_answer h nfq_destroy_queue = pos 0
hook_answer h nfq_close = pos 0
hook_answer h (nfq_handle_packet n) = packets
hook_answer h (deliver p) = tt
hook_answer h (print_packet id len) = tt
hook_answer h (nfq_set_verdict id verdict) = pos 0

abbrev hook_env : Env
hook_env = record { answer = hook_answer; ntohl = λ n. n * 16777216; goes_on = λ r. true }

main-AreAccepted_example : Ends hook_env (main hook_env 5 [])
unfolding delivered verdicts
main-AreAccepted_example = main-AreAccepted hook_env 5 [] refl

main-Concludes_example : Concludes hook_env 5 (main hook_env 5 [])
main-Concludes_example = main-Concludes hook_env 5
