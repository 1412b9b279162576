-- ===== src/FlowFiltering/Start/Receiving.antt =====
-- Dpdk-lab/flow_filtering/main.c: main_loop, and main to its end.
use Prim.Native.Nat.{zero, suc}
use pwd_writeup.Base.{
  ℕ, ℤ, List, ◌∷◌, ◌≡◌, refl, ap, ◌∙◌, Bool, not, ◌==◌, Bool-cases, inl, inr, length, range,
  if◌then◌else◌, Option, some, none, arith,
}
use pwd_writeup.Dpdk.{
  Mbuf, Env, History, event, system, setting, force_quit, flow_flush, dev_stop, dev_close, rx_burst,
  pktmbuf_free,
}
use pwd_writeup.Dpdk.Monad.{
  M, next, call, pure, each, Preserves, ◌>>=◌, ◌>>◌, >>=-inv, >>=-run, bind-Preserves,
  seq-Preserves, if-Preserves, each-Preserves, when-Preserves,
}
use pwd_writeup.Dpdk.Device.{device, closed, running, shut}
use pwd_writeup.Dpdk.Ownership.{
  gained, lost, Balances, Conserves, each-Conserves, free_all, free_all_lem, count_none,
}
use pwd_writeup.FlowFiltering.Snippets.{Modes}
use pwd_writeup.FlowFiltering.Skeleton.{generate_flow_skeleton}
use pwd_writeup.FlowFiltering.Skeleton.Creation.{generate_flow_skeleton-keeps}
use pwd_writeup.FlowFiltering.Snippets.Rules.{Name, snippet_of}
use pwd_writeup.FlowFiltering.Start.{
  nr_queues, receive, rounds, main_loop, prepare, init_port, check_flow, main,
}
use pwd_writeup.FlowFiltering.Start.Started.{init_port-runs}

module _ (env : Env) (p : ℕ) where
  receive-Conserves : (i : ℕ) → Conserves (receive env p i)
  unfolding receive gained lost free_all
  receive-Conserves i h = elim (Bool-cases (length mbufs == 0)) [
    | inl idle ↦ (h₁, rw idle refl, λ a. ground (arith, count_none a mbufs))
    | inr busy ↦
        let (h', run, b) = free_all_lem env mbufs h₁ in (h', rw busy run, λ a. omega (arith, b a))
  ]
    where
      mbufs : List Mbuf
      mbufs = env.answer h (rx_burst p i 32)

      h₁ : History
      h₁ = event (rx_burst p i 32) mbufs ∷ h

  pub rounds-Conserves : (n : ℕ) → Conserves (rounds env p n)
  unfolding rounds gained lost
  rounds-Conserves zero h = (h, refl, λ a. omega arith)
  rounds-Conserves (suc n) h = elim (Bool-cases quit) [
    | inl asked ↦ (h₁, rw asked refl, λ a. omega arith)
    | inr goes_on ↦
        let (h₂, run₂, b₂) =
          each-Conserves (range nr_queues) (receive env p) receive-Conserves h₁ in
        let (h₃, run₃, b₃) = rounds-Conserves n h₂ in
        (
          h₃,
          ap
                (λ b.
                  (if b
                      then pure tt
                      else (each (range nr_queues) (receive env p) >> rounds env p n))
                    h₁)
                goes_on
              ∙ >>=-run (each (range nr_queues) (receive env p)) (λ _. rounds env p n) h₁ h₂ tt
                  (next tt h₃) run₂ run₃,
          λ a. omega (arith, b₂ a, b₃ a),
        )
  ]
    where
      quit : Bool
      quit = env.answer h (system force_quit)

      h₁ : History
      h₁ = event (system force_quit) quit ∷ h

  -- For any number of rounds and whatever the port brings, main_loop comes to its end, and every frame
  -- that was received was freed, exactly once.
  pub main_loop-Balances :
      (n a : ℕ) (h : History)
      → (r : ℤ) × (h' : History) × (main_loop env p n h ≡ next r h') × Balances a 0 h h'
  unfolding main_loop gained lost
  main_loop-Balances n a h =
      let (h₁, run, b) = rounds-Conserves n h in
      let h₂ = event (setting p flow_flush) tt ∷ h₁ in
      let r = env.answer h₂ (dev_stop p) in
      let h₃ = event (dev_stop p) r ∷ h₂ in
      (
        r,
        event (dev_close p) (env.answer h₃ (dev_close p)) ∷ h₃,
        >>=-run (rounds env p n) (λ _. stop) h h₁ tt _ run refl,
        omega (arith, b a),
      )
    where
      stop : M ℤ
      stop = do
        call env (setting p flow_flush)
        ret ← call env (dev_stop p)
        closing ← call env (dev_close p)
        pure ret

module _ (env : Env) (p : ℕ) (on : Bool) where
  abbrev IsUp : History → Type 0
  IsUp h = device p h ≡ running 5 5 on

  receive_keeps : (i : ℕ) → Preserves IsUp (receive env p i)
  unfolding receive device
  receive_keeps i =
      bind-Preserves IsUp (call env (rx_burst p i 32)) _ (λ h h' a c e. ground arith)
        λ mbufs. when-Preserves IsUp (not (length mbufs == 0)) _ (
          each-Preserves IsUp mbufs (λ m. call env (pktmbuf_free m)) (λ m h h' u c e. ground arith))

  rounds_keep : (n : ℕ) → Preserves IsUp (rounds env p n)
  unfolding rounds device
  rounds_keep zero = λ h h' u c e. ground arith
  rounds_keep (suc n) =
      bind-Preserves IsUp (call env (system force_quit)) _ (λ h h' a c e. ground arith)
        λ quit.
          if-Preserves IsUp quit (pure tt) _ (λ h h' u c e. ground arith)
            (seq-Preserves IsUp (each (range nr_queues) (receive env p)) (rounds env p n)
              (each-Preserves IsUp (range nr_queues) (receive env p) receive_keeps) (rounds_keep n))

  main_loop-ends :
      (n : ℕ) (h h' : History) (r : ℤ)
      → IsUp h
      → main_loop env p n h ≡ next r h'
      → device p h' ≡ shut 5 5 on r
  unfolding main_loop device
  main_loop-ends n h h' r c e =
      let (u, h₁, run, rest) = >>=-inv (rounds env p n) _ h r h' e in
      let up = rounds_keep n h h₁ u c run in ground (arith, up, rest)

prepare_keeps : (env : Env) (parsed : ℤ) → Preserves (λ h. device 0 h ≡ closed) (prepare env parsed)
unfolding prepare device
prepare_keeps env parsed h h' u c e = ground arith

check_flow_keeps :
    (env : Env) (on : Bool) (rule : Option ℕ)
    → Preserves (λ h. device 0 h ≡ running 5 5 on) (check_flow env 0 rule)
unfolding check_flow device
check_flow_keeps env on none h h' u c e = ground arith
check_flow_keeps env on (some f) h h' u c e = ground arith

pub main-ends :
    (env : Env) (s : Name) (modes : Modes) (tx_offloads : ℕ) (options : ℤ × Bool) (n : ℕ)
    (h h' : History) (r : ℤ)
    → device 0 h ≡ closed
    → main env (snippet_of s) modes tx_offloads options n h ≡ next r h'
    → device 0 h' ≡ shut 5 5 ((snippet_of s).init modes).promiscuous r
unfolding main
main-ends env s modes tx_offloads options n h h' r c e =
    let (u₁, h₁, first, e₁) = >>=-inv (prepare env options.0) (λ _. after_prepare) h r h' e in
    let (u₂, h₂, second, e₂) =
      >>=-inv (init_port env 0 tx_offloads modes' options.1) (λ _. after_init) h₁ r h' e₁ in
    let (rule, h₃, third, e₃) =
      >>=-inv (generate_flow_skeleton env 0 (snippet_of s) modes'.attr options.1) after_rule h₂ r h'
        e₂ in
    let (u₄, h₄, fourth, e₄) =
      >>=-inv (check_flow env 0 rule) (λ _. main_loop env 0 n) h₃ r h' e₃ in
    let up =
      init_port-runs env 0 tx_offloads modes' options.1 h₁ h₂ u₂
        (prepare_keeps env options.0 h h₁ u₁ c first) second in
    let still =
      generate_flow_skeleton-keeps env 0 0 (running 5 5 modes'.promiscuous) s modes'.attr options.1
        h₂ h₃ rule up third in
    main_loop-ends env 0 modes'.promiscuous n h₄ h' r
      (check_flow_keeps env modes'.promiscuous rule h₃ h₄ u₄ still fourth) e₄
  where
    modes' : Modes
    modes' = (snippet_of s).init modes

    after_rule : Option ℕ → M ℤ
    after_rule rule = check_flow env 0 rule >> main_loop env 0 n

    after_init : M ℤ
    after_init = generate_flow_skeleton env 0 (snippet_of s) modes'.attr options.1 >>= after_rule

    after_prepare : M ℤ
    after_prepare = init_port env 0 tx_offloads modes' options.1 >> after_init
