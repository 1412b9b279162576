-- ===== src/FlowFiltering/Start/Started.antt =====
-- Dpdk-lab/flow_filtering/main.c, init_port: the port at its end, and the wait for the link.
use Prim.Native.Nat.{zero, suc}
use pwd_writeup.Base.{
  ℕ, ◌+◌, ◌≤◌, ℤ, negsuc, [], ◌∷◌, ◌≡◌, refl, Bool, true, false, not, Bool-cases, inl, inr, ◌&&◌,
  is_neg, is_nonzero, arith,
}
use pwd_writeup.Dpdk.{Env, History, event, setting, system, link_get, delay_ms, dev_start}
use pwd_writeup.Dpdk.Monad.{
  M, next, final, call, pure, when, Preserves, ◌>>=◌, ◌>>◌, >>=-inv, bind-Preserves, if-Preserves,
  when-Preserves,
}
use pwd_writeup.Dpdk.Device.{Device, device, closed, running}
use pwd_writeup.L2fwd.LinkStatus.Time.{delays}
use pwd_writeup.FlowFiltering.Snippets.{Modes}
use pwd_writeup.FlowFiltering.Start.{
  max_repeat_times, exit_if_neg, poll_link, assert_link_status, configure_port_template, setup_rx,
  setup_tx, set_modes, configure, restart, init_port,
}

module _ (env : Env) (p : ℕ) where
  -- A port whose queues are set up so far.
  abbrev half : ℕ → ℕ → Device
  half rx tx = record closed {
    configured = true;
    rx_wanted = 5;
    tx_wanted = 5;
    rx_set = rx;
    tx_set = tx;
  }

  configure-goes :
      (tx_offloads : ℕ) (h h' : History) (u : Unit {0})
      → device p h ≡ closed
      → configure env p tx_offloads h ≡ next u h'
      → device p h' ≡ half 5 5
  unfolding configure setup_rx setup_tx device
  configure-goes tx_offloads h h' u c e = ground arith

  set_modes-goes :
      (modes : Modes) (h h' : History) (u : Unit {0})
      → device p h ≡ half 5 5
      → set_modes env p modes h ≡ next u h'
      → device p h' ≡ record (half 5 5) { promiscuous = modes.promiscuous }
  unfolding set_modes device
  set_modes-goes modes h h' u c e = ground arith

  restart-goes :
      (on : Bool) (h h' : History) (u : Unit {0})
      → device p h ≡ running 5 5 on
      → restart env p h ≡ next u h'
      → device p h' ≡ running 5 5 on
  unfolding restart configure_port_template device
  restart-goes on h h' u c e = ground arith

  start-goes :
      (on : Bool) (ret : ℤ) (h h₁ h₂ : History) (u : Unit {0})
      → device p h ≡ record (half 5 5) { promiscuous = on }
      → call env (dev_start p) h ≡ next ret h₁
      → exit_if_neg ret h₁ ≡ next u h₂
      → device p h₂ ≡ running 5 5 on
  unfolding device
  start-goes on ret h h₁ h₂ u c e e' = ground arith

  poll_link-keeps :
      (d : Device) (n : ℕ) (last : ℤ × Bool)
      → Preserves (λ h. device p h ≡ d) (poll_link env p n last)
  unfolding poll_link device
  poll_link-keeps d zero last = λ h h' a c e. ground arith
  poll_link-keeps d (suc n) last =
      bind-Preserves (λ h. device p h ≡ d) (call env (setting p link_get)) _
        (λ h h' a c e. ground arith)
        λ a.
          if-Preserves (λ h. device p h ≡ d) (not (is_nonzero a.0) && a.1) (pure a) _
            (λ h h' a c e. ground arith)
            (bind-Preserves (λ h. device p h ≡ d) (call env (system delay_ms)) _
              (λ h h' u c e. ground arith) λ _. poll_link-keeps d n a)

  assert_link_status-keeps :
      (d : Device) → Preserves (λ h. device p h ≡ d) (assert_link_status env p)
  unfolding assert_link_status
  assert_link_status-keeps d =
      bind-Preserves (λ h. device p h ≡ d) (poll_link env p max_repeat_times (negsuc 21, false)) _
        (poll_link-keeps d max_repeat_times (negsuc 21, false)) λ a h h' u c e. ground arith

  -- If init_port goes on from a closed port, the port was configured, set up with its five queues of
  -- each kind and started in DPDK's order, stopped and started again for the template API, and is
  -- running, promiscuous just if the snippet wants it.
  pub init_port-runs :
      (tx_offloads : ℕ) (modes : Modes) (use_template_api : Bool) (h h' : History) (u : Unit {0})
      → device p h ≡ closed
      → init_port env p tx_offloads modes use_template_api h ≡ next u h'
      → device p h' ≡ running 5 5 modes.promiscuous
  unfolding init_port
  init_port-runs tx_offloads modes use_template_api h h' u c e =
      let (u₁, h₁, first, e₁) =
        >>=-inv (configure env p tx_offloads) (λ _. after_configure) h u h' e in
      let (u₂, h₂, second, e₂) = >>=-inv (set_modes env p modes) (λ _. after_modes) h₁ u h' e₁ in
      let (ret, h₃, third, e₃) = >>=-inv (call env (dev_start p)) after_start h₂ u h' e₂ in
      let (u₄, h₄, fourth, e₄) = >>=-inv (exit_if_neg ret) (λ _. after_check) h₃ u h' e₃ in
      let (u₅, h₅, fifth, e₅) =
        >>=-inv (assert_link_status env p) (λ _. when use_template_api (restart env p)) h₄ u h'
          e₄ in
      let started =
        start-goes modes.promiscuous ret h₂ h₃ h₄ u₄
          (set_modes-goes modes h₁ h₂ u₂ (configure-goes tx_offloads h h₁ u₁ c first) second) third
          fourth in
      when-Preserves (λ k. device p k ≡ running 5 5 modes.promiscuous) use_template_api
        (restart env p) (λ k k' v d run. restart-goes modes.promiscuous k k' v d run) h₅ h' u
        (assert_link_status-keeps (running 5 5 modes.promiscuous) h₄ h₅ u₅ started fifth) e₅
    where
      after_check : M (Unit {0})
      after_check = assert_link_status env p >> when use_template_api (restart env p)

      after_start : ℤ → M (Unit {0})
      after_start ret = exit_if_neg ret >> after_check

      after_modes : M (Unit {0})
      after_modes = call env (dev_start p) >>= after_start

      after_configure : M (Unit {0})
      after_configure = set_modes env p modes >> after_modes

  poll_link_lem :
      (n : ℕ) (last : ℤ × Bool) (h : History)
      → (a : ℤ × Bool) × (h' : History) × (poll_link env p n last h ≡ next a h')
        × (delays h' ≤ delays h + n)
  unfolding poll_link delays
  poll_link_lem zero last h = (last, h, refl, omega arith)
  poll_link_lem (suc n) last h = elim (Bool-cases (not (is_nonzero now.0) && now.1)) [
    | inl up ↦ (now, h₁, rw up refl, omega arith)
    | inr down ↦
        let (a, h', run, few) = poll_link_lem n now (event (system delay_ms) tt ∷ h₁) in
        (a, h', rw down run, omega (arith, few))
  ]
    where
      now : ℤ × Bool
      now = env.answer h (setting p link_get)

      h₁ : History
      h₁ = event (setting p link_get) now ∷ h

  -- The newest answer on the link.
  unfoldable pub link_answer : History → ℤ × Bool
  link_answer [] = (negsuc 21, false)
  link_answer (event (setting q link_get) a ∷ h) = a
  link_answer (event c a ∷ h) = link_answer h

  poll_link-link_answer :
      (n : ℕ) (last a : ℤ × Bool) (h h' : History)
      → poll_link env p (suc n) last h ≡ next a h'
      → a ≡ link_answer h'
  unfolding poll_link link_answer
  poll_link-link_answer zero last a h h' e = ground arith
  poll_link-link_answer (suc n) last a h h' e =
      elim (Bool-cases (not (is_nonzero now.0) && now.1)) [
        | inl up ↦ ground (arith, e)
        | inr down ↦
            poll_link-link_answer n now a
              (event (system delay_ms) tt ∷ event (setting p link_get) now ∷ h) h'
              (ground (arith, e))
      ]
    where
      now : ℤ × Bool
      now = env.answer h (setting p link_get)

  -- The link check waits at most 90 times, whatever the link answers; and if it goes on, the last
  -- answer was no error and reports the link up.
  pub assert_link_status-waits :
      (h : History)
      → (delays (final (assert_link_status env p h)) ≤ delays h + 90)
        × ((h' : History)
            → assert_link_status env p h ≡ next tt h'
            → (is_neg (link_answer h').0 ≡ false) × ((link_answer h').1 ≡ true))
  unfolding assert_link_status
  assert_link_status-waits h =
      let (a, h₁, run, few) = poll_link_lem max_repeat_times (negsuc 21, false) h in
      let known = poll_link-link_answer 89 (negsuc 21, false) a h h₁ run in
      (ground (arith, run, few), λ h' e. ground (arith, run, known, e))
