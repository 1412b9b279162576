-- ===== src/SimpleMp/Buffers.antt =====
-- Dpdk-lab/multi_process/simple_mp: where the message buffers of a process go, and how much is written to
-- them.
use Prim.Native.Nat.{zero, suc}
use pwd_writeup.Base.{
  ℕ, ◌+◌, ◌-◌, ◌≤◌, is_neg, List, [], ◌∷◌, ◌≡◌, refl, ap, ◌∙◌, Bool, ◌==◌, Bool-cases, inl, inr,
  length, length-take, take, if◌then◌else◌, Option, none, some, arith,
}
use pwd_writeup.Dpdk.{
  Env, Event, event, History, RingName, system, message, force_quit, mempool_get, mempool_put,
  write, ring_enqueue, ring_dequeue,
}
use pwd_writeup.Dpdk.Monad.{
  M, next, call, pure, Preserves, bind-Preserves, ◌>>=◌, ◌>>◌, >>=-run, >>=-inv,
}
use pwd_writeup.SimpleMp.{
  Command, Command.send, Command.quit, Command.help, str_token_size, send_in, cmd_send_parsed,
  interact, received, lcore_recv,
}

came : ℕ → Event → ℕ
came b (event (message mempool_get) (some msg)) = if b == msg then 1 else 0
came b (event (message (ring_dequeue r)) (some msg)) = if b == msg then 1 else 0
came b (event c a) = 0

went : ℕ → Event → ℕ
went b (event (message (mempool_put msg)) u) = if b == msg then 1 else 0
went b (event (message (ring_enqueue r msg)) ret) =
    if is_neg ret then 0 else if b == msg then 1 else 0
went b (event c a) = 0

-- How often buffer `b` came to the process, from the pool or a ring, and how often it went back to the
-- pool or on by a ring.
unfoldable pub taken : ℕ → History → ℕ
unfolding came
taken b [] = 0
taken b (e ∷ h) = came b e + taken b h

unfoldable pub given : ℕ → History → ℕ
unfolding went
given b [] = 0
given b (e ∷ h) = went b e + given b h

-- Nothing was kept and nothing given twice between `h` and `h'`.
abbrev pub IsEven : ℕ → History → History → Type 0
IsEven b h h' = taken b h' + given b h ≡ taken b h + given b h'

module _ (env : Env) where
  received_lem :
      (r : RingName) (got : Option ℕ) (h : History)
      → (h' : History) × (received env got (event (message (ring_dequeue r)) got ∷ h) ≡ next tt h')
        × ((b : ℕ) → IsEven b h h')
  unfolding received taken given
  received_lem r none h = (_, refl, λ b. omega arith)
  received_lem r (some msg) h = (_, refl, λ b. omega arith)

  -- For any number of turns lcore_recv goes on, and it gives each buffer that it takes from its ring
  -- back to the pool, exactly once.
  pub lcore_recv-IsEven :
      (r : RingName) (n : ℕ) (h : History)
      → (h' : History) × (lcore_recv env r n h ≡ next tt h') × ((b : ℕ) → IsEven b h h')
  unfolding lcore_recv taken given
  lcore_recv-IsEven r zero h = (h, refl, λ b. omega arith)
  lcore_recv-IsEven r (suc n) h = elim (Bool-cases asked) [
    | inl stop ↦ (h₁, rw stop refl, λ b. omega arith)
    | inr goes_on ↦
        let (h₂, run₂, e₂) = received_lem r got h₁ in
        let (h₃, run₃, e₃) = lcore_recv-IsEven r n h₂ in
        (
          h₃,
          ap (λ b. (if b then pure tt else turn) h₁) goes_on
              ∙ >>=-run (received env got) (λ _. lcore_recv env r n) h₁' h₂ tt (next tt h₃) run₂
                  run₃,
          λ b. omega (arith, e₂ b, e₃ b),
        )
  ]
    where
      asked : Bool
      asked = env.answer h (system force_quit)

      h₁ : History
      h₁ = event (system force_quit) asked ∷ h

      got : Option ℕ
      got = env.answer h₁ (message (ring_dequeue r))

      h₁' : History
      h₁' = event (message (ring_dequeue r)) got ∷ h₁

      turn : M (Unit {0})
      turn = do got ← call env (message (ring_dequeue r)); received env got; lcore_recv env r n

  cmd_send_parsed-goes :
      (r : RingName) (text : List ℕ) (b : ℕ) (h h' : History) (u : Unit {0})
      → cmd_send_parsed env r text h ≡ next u h'
      → IsEven b h h'
  unfolding cmd_send_parsed send_in taken given
  cmd_send_parsed-goes r text b h h' u e = ground arith

  -- If the prompt comes to its end, so did not panic for want of a buffer, then each buffer that it
  -- took from the pool was put in the ring or back in the pool, exactly once.
  pub interact-IsEven :
      (r : RingName) (commands : List Command) (b : ℕ) (h h' : History) (u : Unit {0})
      → interact env r commands h ≡ next u h'
      → IsEven b h h'
  unfolding interact taken given
  interact-IsEven r [] b h h' u e = ground arith
  interact-IsEven r (send text ∷ rest) b h h' u e =
      let (v, h₁, first, later) =
        >>=-inv (cmd_send_parsed env r text) (λ _. interact env r rest) h u h' e in
      omega
        (arith, cmd_send_parsed-goes r text b h h₁ v first, interact-IsEven r rest b h₁ h' u later)
  interact-IsEven r (quit ∷ rest) b h h' u e = ground arith
  interact-IsEven r (help ∷ rest) b h h' u e = interact-IsEven r rest b h h' u e

  -- Nothing longer than a buffer, with its NUL, is written to one.
  abbrev pub IsFit : History → Type 0
  IsFit [] = Unit
  IsFit (event (message (write b bytes)) a ∷ h) = (length bytes + 1 ≤ str_token_size) × IsFit h
  IsFit (event c a ∷ h) = IsFit h

  send_in-IsFit :
      (r : RingName) (text : List ℕ) (got : Option ℕ)
      → length text + 1 ≤ str_token_size
      → Preserves IsFit (send_in env r text got)
  unfolding send_in
  send_in-IsFit r text none short h h' u f e = ground arith
  send_in-IsFit r text (some msg) short h h' u f e = ground (arith, f, short)

  cmd_send_parsed-IsFit :
      (r : RingName) (text : List ℕ) → Preserves IsFit (cmd_send_parsed env r text)
  unfolding cmd_send_parsed
  cmd_send_parsed-IsFit r text =
      bind-Preserves IsFit (call env (message mempool_get)) _ (λ h h' got f e. ground (arith, f))
        λ got.
          send_in-IsFit r (take (str_token_size - 1) text) got
            (omega (arith, length-take (str_token_size - 1) text))

  -- Whatever is typed, no message overruns its buffer.
  pub interact-IsFit :
      (r : RingName) (commands : List Command) → Preserves IsFit (interact env r commands)
  unfolding interact
  interact-IsFit r [] h h' u f e = ground (arith, f)
  interact-IsFit r (send text ∷ rest) h h' u f e =
      let (v, h₁, first, later) =
        >>=-inv (cmd_send_parsed env r text) (λ _. interact env r rest) h u h' e in
      interact-IsFit r rest h₁ h' u (cmd_send_parsed-IsFit r text h h₁ v f first) later
  interact-IsFit r (quit ∷ rest) h h' u f e = ground (arith, f)
  interact-IsFit r (help ∷ rest) h h' u f e = interact-IsFit r rest h h' u f e
