-- ===== src/SimpleMp/Threads/Orderly.antt =====
-- Dpdk-lab/multi_process/simple_mp: main and lcore_recv work on one message at a time.
use Prim.Native.Nat.{zero, suc}
use pwd_writeup.Base.{
  ap, ℕ, ℤ, ◌-◌, List, [], ◌∷◌, pos, ◌≡◌, refl, subst, Bool, true, false, not, is_neg, Bool-cases,
  inl, inr, Option, none, some, take, arith,
}
use pwd_writeup.Dpdk.{
  Env, event, History, RingName, system, message, eal_init, force_quit, is_primary, cmdline_new,
  launch_recv, mempool_get, write, ring_enqueue, ring_dequeue,
}
use pwd_writeup.Dpdk.Monad.{
  M, Outcome, next, back, quit, continue, call, pure, when, each, rte_exit, ◌>>=◌, ◌>>◌,
}
use pwd_writeup.SimpleMp.{
  Rings, Command, Command.send, Command.quit, Command.help, str_token_size, send_in,
  cmd_send_parsed, interact, received, lcore_recv, open_rings, main,
}
use pwd_writeup.SimpleMp.Threads.Keeps.{
  Ends, Keeps, continue-Ends, bind-Keeps, done_Keeps, each-Keeps, exit_if-Keeps, Ends-IsOrderly,
  IsOrderly-before,
}
use pwd_writeup.SimpleMp.Threads.{
  empty, grip, IsOrderly, rings_of, Opened, IsTyped, Role, unused, prompting, receiving, Says,
  Sends, Takes, Follows,
}

module _ (S : List ℕ → Type 0) (T U : RingName → Type 0) where
  module _ (env : Env) where
    send_in-Ends :
        (r : RingName) (text : List ℕ) (got : Option ℕ) (h : History)
        → T r
        → S text
        → grip h ≡ empty
        → IsOrderly S T U h
        → Ends S T U (send_in env r text got (event (message mempool_get) got ∷ h))
    unfolding send_in
    send_in-Ends r text none h t s g o = (tt, o)
    send_in-Ends r text (some b) h t s g o = elim (Bool-cases (is_neg ret)) [
      | inl failed ↦ rw failed (refl, (rw failed refl, (rw failed tt, ((refl, s), (g, o)))))
      | inr passed ↦ rw passed (rw passed refl, (rw passed (refl, t), ((refl, s), (g, o))))
    ]
      where
        ret : ℤ
        ret =
            env.answer
              (event (message (write b text))
                  (env.answer (event (message mempool_get) (some b) ∷ h) (message (write b text)))
                ∷ event (message mempool_get) (some b)
                ∷ h)
              (message (ring_enqueue r b))

    cmd_send_parsed-Keeps :
        (r : RingName) (text : List ℕ)
        → T r
        → S (take (str_token_size - 1) text)
        → Keeps S T U (cmd_send_parsed env r text)
    unfolding cmd_send_parsed
    cmd_send_parsed-Keeps r text t s h g o =
        send_in-Ends r (take (str_token_size - 1) text) (env.answer h (message mempool_get)) h t s g
          o

    interact-Keeps :
        (r : RingName) (commands : List Command)
        → T r
        → ((text : List ℕ) → IsTyped commands text → S text)
        → Keeps S T U (interact env r commands)
    unfolding interact
    interact-Keeps r [] t s = done_Keeps S T U
    interact-Keeps r (send text ∷ rest) t s =
        bind-Keeps S T U (cmd_send_parsed env r text) (λ _. interact env r rest)
          (cmd_send_parsed-Keeps r text t (s _ (text, inl refl, refl)))
          (λ _.
            interact-Keeps r rest t
              (λ x y. let (typed, among, cut) = y in s x (typed, inr among, cut)))
    interact-Keeps r (quit ∷ rest) t s = λ h g o. (g, (tt, o))
    interact-Keeps r (help ∷ rest) t s =
        interact-Keeps r rest t (λ x y. let (typed, among, cut) = y in s x (typed, inr among, cut))

    received-Ends :
        (r : RingName) (got : Option ℕ) (h : History)
        → U r
        → grip h ≡ empty
        → IsOrderly S T U h
        → Ends S T U (received env got (event (message (ring_dequeue r)) got ∷ h))
    unfolding received
    received-Ends r none h u g o = (g, (tt, (tt, o)))
    received-Ends r (some b) h u g o = (refl, (refl, ((refl, (r, u)), ((g, u), o))))

    lcore_recv-Keeps : (r : RingName) (n : ℕ) → U r → Keeps S T U (lcore_recv env r n)
    unfolding lcore_recv
    lcore_recv-Keeps r zero u = done_Keeps S T U
    lcore_recv-Keeps r (suc n) u = λ h g o. elim (Bool-cases (env.answer h (system force_quit))) [
      | inl stop ↦ rw stop (g, (tt, o))
      | inr goes_on ↦ rw goes_on (
          continue-Ends S T U (received env _ _) _ (received-Ends r _ _ u g (tt, o))
            (λ _. lcore_recv-Keeps r n u))
    ]

    -- open_rings gives the rings of the process.
    Opens : Bool → Outcome Rings → Type 0
    Opens primary (next rings h) = (rings ≡ rings_of primary) × (grip h ≡ empty) × IsOrderly S T U h
    Opens primary (back r h) = IsOrderly S T U h
    Opens primary (quit h) = IsOrderly S T U h

    open_rings-Opens :
        (primary : Bool) (h : History)
        → ((k : History) → env.answer k (message is_primary) ≡ primary)
        → grip h ≡ empty
        → IsOrderly S T U h
        → Opens primary (open_rings env h)
    unfolding open_rings Opens
    open_rings-Opens true h p g o = ground (arith, p h, g, o)
    open_rings-Opens false h p g o = ground (arith, p h, g, o)

    opened-Ends :
        {B : Type 0} (primary : Bool) (o : Outcome Rings) (f : Rings → M B)
        → Opens primary o
        → Keeps S T U (f (rings_of primary))
        → Ends S T U (continue o f)
    unfolding Opens
    opened-Ends primary (next rings h) f o k = let (same, g, keeps) = o in rw same (k h g keeps)
    opened-Ends primary (back r h) f o k = o
    opened-Ends primary (quit h) f o k = o

    -- main after open_rings, with its send ring.
    abbrev prompt : RingName → List ℕ → List Command → M ℤ
    prompt r workers commands = do
      each workers λ lcore_id. call env (message (launch_recv lcore_id))
      made ← call env (message cmdline_new)
      when (not made) rte_exit
      interact env r commands
      pure (pos 0)

    prompt-Keeps :
        (r : RingName) (workers : List ℕ) (commands : List Command)
        → T r
        → ((text : List ℕ) → IsTyped commands text → S text)
        → Keeps S T U (prompt r workers commands)
    prompt-Keeps r workers commands t s =
        bind-Keeps S T U (each workers (λ lcore. call env (message (launch_recv lcore)))) _
          (each-Keeps S T U workers _ (λ lcore h g o. (g, (tt, o))))
          (λ _.
            bind-Keeps S T U (call env (message cmdline_new)) _ (λ h g o. (g, (tt, o)))
              (λ made.
                bind-Keeps S T U (when (not made) rte_exit) _ (exit_if-Keeps S T U (not made)) (λ _.
                  bind-Keeps S T U (interact env r commands) (λ _. pure (pos 0))
                    (interact-Keeps r commands t s) (λ _ h g o. (g, o)))))

    main-Keeps :
        (primary : Bool) (workers : List ℕ) (commands : List Command)
        → ((k : History) → env.answer k (message is_primary) ≡ primary)
        → T (rings_of primary).send_ring
        → ((text : List ℕ) → IsTyped commands text → S text)
        → Keeps S T U (main env workers commands)
    unfolding main
    main-Keeps primary workers commands p t s =
        bind-Keeps S T U (call env (system eal_init)) _ (λ h g o. (g, (tt, o)))
          (λ ret.
            bind-Keeps S T U (when (is_neg ret) rte_exit)
              (λ _. open_rings env >>= λ rings. prompt rings.send_ring workers commands)
              (exit_if-Keeps S T U (is_neg ret))
              (λ _ h g o.
                opened-Ends primary (open_rings env h)
                  (λ rings. prompt rings.send_ring workers commands)
                  (open_rings-Opens primary h p g o)
                  (prompt-Keeps (rings_of primary).send_ring workers commands t s)))

-- However open_rings was called, it crosses the rings.
Opened-rings_of : (primary : Bool) (rings : Rings) → Opened primary rings → rings ≡ rings_of primary
unfolding open_rings
Opened-rings_of true rings (env, p, (h, h', run)) = ground (arith, p h, run)
Opened-rings_of false rings (env, p, (h, h', run)) = ground (arith, p h, run)

-- At any moment of main or lcore_recv, whatever is answered, the thread was orderly.
pub Follows-IsOrderly :
    (role : Role) (h : History) → Follows role h → IsOrderly (Says role) (Sends role) (Takes role) h
Follows-IsOrderly unused h f = rw f tt
Follows-IsOrderly (prompting primary workers commands) h (env, p, (later, run)) =
    IsOrderly-before S T U later h (
      subst (IsOrderly S T U) run (
        Ends-IsOrderly S T U (main env workers commands [])
          (main-Keeps S T U env primary workers commands p refl (λ text typed. typed) [] refl tt)))
  where
    role : Role
    role = prompting primary workers commands

    S : List ℕ → Type 0
    S = Says role

    T : RingName → Type 0
    T = Sends role

    U : RingName → Type 0
    U = Takes role
Follows-IsOrderly (receiving primary) h (rings, opened, (env, n, later, run)) =
    IsOrderly-before S T U later h (
      subst (IsOrderly S T U) run (
        Ends-IsOrderly S T U (lcore_recv env rings.recv_ring n []) (
          lcore_recv-Keeps S T U env rings.recv_ring n
            (ap (λ (x : Rings). x.recv_ring) (Opened-rings_of primary rings opened)) [] refl tt)))
  where
    role : Role
    role = receiving primary

    S : List ℕ → Type 0
    S = Says role

    T : RingName → Type 0
    T = Sends role

    U : RingName → Type 0
    U = Takes role
