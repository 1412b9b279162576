-- ===== src/SimpleMp.antt =====
-- Dpdk-lab/multi_process/simple_mp: main.c and mp_commands.c. Two processes send messages to one
-- another in buffers of a shared pool, by one ring for each direction. The lines that cmdline_interact
-- reads are a list of commands; buffers are numbers.
pub mod Buffers
pub mod Threads
pub mod Draining
pub mod Channel
pub mod Network
mod Tests
use Prim.Native.Nat.{zero, suc}
use pwd_writeup.Base.{
  ℕ, ◌+◌, ◌-◌, ℤ, pos, is_neg, List, [], ◌∷◌, Bool, true, false, not, if◌then◌else◌, Option, none,
  some, take,
}
use pwd_writeup.Dpdk.{
  Env, RingName, pri_2_sec, sec_2_pri, system, message, eal_init, force_quit, delay_us, is_primary,
  pool_open, cmdline_new, set_quit, ring_open, mempool_get, mempool_put, write, print, ring_enqueue,
  ring_dequeue, launch_recv,
}
use pwd_writeup.Dpdk.Monad.{M, ◌>>=◌, ◌>>◌, call, pure, when, each, rte_exit}

-- STR_TOKEN_SIZE, of cmdline's header: a buffer holds so many characters, the NUL included.
abbrev pub str_token_size : ℕ
str_token_size = 128

-- `send_ring` and `recv_ring`
pub record Rings : Type 0 where
  pub send_ring : RingName
  pub recv_ring : RingName

-- What a line of the prompt asks for.
pub data Command : Type 0 where
  send : List ℕ → Command
  quit help : Command

module _ (env : Env) where
  -- After rte_mempool_get: without a buffer the process panics; a full ring discards the message.
  unfoldable pub send_in : RingName → List ℕ → Option ℕ → M (Unit {0})
  send_in send_ring text none = rte_exit
  send_in send_ring text (some msg) = do
    call env (message (write msg text))
    ret ← call env (message (ring_enqueue send_ring msg))
    when (is_neg ret) (call env (message (mempool_put msg)))

  -- The message is cut to the buffer.
  unfoldable pub cmd_send_parsed : RingName → List ℕ → M (Unit {0})
  unfolding send_in
  cmd_send_parsed send_ring text = do
    got ← call env (message mempool_get)
    send_in send_ring (take (str_token_size - 1) text) got

  -- cmdline_interact: each line is handled, up to the one that quits or the end of the input.
  unfoldable pub interact : RingName → List Command → M (Unit {0})
  unfolding cmd_send_parsed
  interact send_ring [] = pure tt
  interact send_ring (send text ∷ rest) = cmd_send_parsed send_ring text >> interact send_ring rest
  interact send_ring (quit ∷ rest) = call env (message set_quit)
  interact send_ring (help ∷ rest) = interact send_ring rest

  -- What is done with the answer of the ring: sleep, or print the message and give the buffer back.
  unfoldable pub received : Option ℕ → M (Unit {0})
  received none = call env (system delay_us)
  received (some msg) = do
    shown ← call env (message (print msg))
    call env (message (mempool_put msg))

  -- `while (!quit)`, for at most so many turns.
  unfoldable pub lcore_recv : RingName → ℕ → M (Unit {0})
  unfolding received
  lcore_recv recv_ring zero = pure tt
  lcore_recv recv_ring (suc n) = do
    asked ← call env (system force_quit)
    let turn : M (Unit {0}) = do
      got ← call env (message (ring_dequeue recv_ring))
      received got
      lcore_recv recv_ring n
    if asked then pure tt else turn

  -- The primary process creates the rings, the other looks them up, crossed; then they are checked.
  unfoldable pub open_rings : M Rings
  open_rings = do
    primary ← call env (message is_primary)
    let rings : Rings =
        if primary
        then record { send_ring = pri_2_sec; recv_ring = sec_2_pri }
        else record { send_ring = sec_2_pri; recv_ring = pri_2_sec }
    first ← call env (message (ring_open pri_2_sec))
    second ← call env (message (ring_open sec_2_pri))
    pool ← call env (message pool_open)
    when (not (if primary then first else second)) rte_exit
    when (not (if primary then second else first)) rte_exit
    when (not pool) rte_exit
    pure rings

  -- main of one process, whose other lcores run lcore_recv.
  unfoldable pub main : List ℕ → List Command → M ℤ
  unfolding open_rings interact
  main workers commands = do
    ret ← call env (system eal_init)
    when (is_neg ret) rte_exit
    rings ← open_rings
    each workers λ lcore_id. call env (message (launch_recv lcore_id))
    made ← call env (message cmdline_new)
    when (not made) rte_exit
    interact rings.send_ring commands
    pure (pos 0)
