-- ===== src/L2fwd/Loop/Sending.antt =====
-- What l2fwd_main_loop hands to the transmit buffers, and what it counts.
use Prim.Native.Nat.{zero, suc}
use pwd_writeup.Base.{
  ℕ, ◌+◌, ◌-◌, ◌%◌, ◌^◌, ◌<◌, List, [], ◌∷◌, ◌≡◌, ◌⊎◌, refl, ap, ◌∙◌, false, ◌==◌, Bool-cases, inl,
  inr, length, arith, ltb, leb, if◌then◌else◌, Bool,
}
use pwd_writeup.Dpdk.{
  Mbuf, Env, History, event, rx_burst, system, tx_buffer, tx_buffer_flush, count_rx, count_tx,
  force_quit, read_tsc,
}
use pwd_writeup.Dpdk.Monad.{
  next, call, each, pure, Preserves, each-Preserves, bind-Preserves, if-Preserves,
}
use pwd_writeup.L2fwd.Crypto.{real_encrypt, real_decrypt, mark_ether_type}
use pwd_writeup.L2fwd.Frame.{Tables, l2fwd_simple_forward, outgoing, l2fwd_mac_updating}
use pwd_writeup.L2fwd.Frame.Addresses.{mac_updating_lem}
use pwd_writeup.L2fwd.Loop.{
  Lcore, Timers, drain_port, drain, drain_all, expire, advance_timer, handle, decrypt_and_drop,
  encrypt_and_forward, receive, rounds,
}

-- A frame as it may stand in the transmit buffer of port `p`: it carries the mark, and with MAC
-- updating the addresses of that port.
abbrev pub IsAddressed : Tables → ℕ → Mbuf → Type 0
IsAddressed t p m =
    (m.ether_type ≡ mark_ether_type)
    × ((t.mac_updating ≡ false)
        ⊎ ((m.dst_addr ≡ 2 ∷ 0 ∷ 0 ∷ 0 ∷ 0 ∷ (p % 256) ∷ []) × (m.src_addr ≡ t.ports_eth_addr p)))

-- Every frame handed to a transmit buffer so far was fit for it.
abbrev pub Sends : Tables → History → Type 0
Sends t [] = Unit
Sends t (event (tx_buffer p m) n ∷ h) = IsAddressed t p m × Sends t h
Sends t (event c r ∷ h) = Sends t h

-- `port_statistics[p].tx` before the wrap at 2 ^ 64, and the frames that port `p` took.
unfoldable pub tx_counted : ℕ → History → ℕ
tx_counted p [] = 0
tx_counted p (event (system (count_tx q n)) u ∷ h) = (if p == q then n else 0) + tx_counted p h
tx_counted p (event c r ∷ h) = tx_counted p h

unfoldable pub tx_taken : ℕ → History → ℕ
tx_taken p [] = 0
tx_taken p (event (tx_buffer q m) n ∷ h) = (if p == q then n else 0) + tx_taken p h
tx_taken p (event (tx_buffer_flush q) n ∷ h) = (if p == q then n else 0) + tx_taken p h
tx_taken p (event c r ∷ h) = tx_taken p h

-- The same for `rx`.
unfoldable pub rx_counted : ℕ → History → ℕ
rx_counted p [] = 0
rx_counted p (event (system (count_rx q n)) u ∷ h) = (if p == q then n else 0) + rx_counted p h
rx_counted p (event c r ∷ h) = rx_counted p h

unfoldable pub rx_received : ℕ → History → ℕ
rx_received p [] = 0
rx_received p (event (rx_burst q i n) ms ∷ h) = (if p == q then length ms else 0) + rx_received p h
rx_received p (event c r ∷ h) = rx_received p h

-- The statistics are right, and so are the frames that were sent.
pub record IsSound (t : Tables) (p : ℕ) (h : History) : Type 0 where
  pub sends : Sends t h
  pub tx_right : tx_counted p h ≡ tx_taken p h
  pub rx_right : rx_counted p h ≡ rx_received p h

outgoing-IsAddressed :
    (t : Tables) (m : Mbuf) (p : ℕ) → p < 2 ^ 32 → IsAddressed t p (outgoing t m p)
unfolding outgoing
outgoing-IsAddressed t m p small = elim (Bool-cases t.mac_updating) [
  | inl on ↦
      let written =
        ap (λ (b : Bool). if b then l2fwd_mac_updating t m p else m) on
        ∙ mac_updating_lem t m p small in
      (refl, inr (ap (λ (x : Mbuf). x.dst_addr) written, ap (λ (x : Mbuf). x.src_addr) written))
  | inr off ↦ (refl, inl off)
]

module _ (env : Env) (c : Lcore) (small : (q : ℕ) → c.tables.dst_ports q < 2 ^ 32) (p : ℕ) where
  abbrev Sound : History → Type 0
  Sound = IsSound c.tables p

  drain_port-Sound : (q : ℕ) → Preserves Sound (drain_port env c q)
  unfolding drain_port tx_counted tx_taken rx_counted rx_received
  drain_port-Sound q h h' u s e = ground arith

  expire-Sound : (timer : ℕ) → Preserves Sound (expire env c timer)
  unfolding expire tx_counted tx_taken rx_counted rx_received
  expire-Sound timer h h' u s e = ground arith

  same-Sound : {A : Type 0} (x : A) → Preserves Sound (pure x)
  same-Sound x h h' u s e = ground arith

  advance_timer-Sound : (diff timer : ℕ) → Preserves Sound (advance_timer env c diff timer)
  unfolding advance_timer
  advance_timer-Sound diff timer =
      if-Preserves Sound (ltb 0 c.timer_period) _ _
        (if-Preserves Sound (leb c.timer_period ((timer + diff) % 2 ^ 64)) _ _
          (expire-Sound ((timer + diff) % 2 ^ 64)) (same-Sound _))
        (same-Sound timer)

  drain_all-Sound : (cur diff : ℕ) (t : Timers) → Preserves Sound (drain_all env c cur diff t)
  unfolding drain_all
  drain_all-Sound cur diff t =
      bind-Preserves Sound (each c.rx_port_list (drain_port env c)) _
        (each-Preserves Sound c.rx_port_list (drain_port env c) drain_port-Sound)
        λ _.
          (bind-Preserves Sound (advance_timer env c diff t.timer_tsc) _
            (advance_timer-Sound diff t.timer_tsc) (λ timer. same-Sound _))

  read_tsc-Sound : Preserves Sound (call env (system read_tsc))
  unfolding tx_counted tx_taken rx_counted rx_received
  read_tsc-Sound h h' u s e = ground arith

  asked-Sound : Preserves Sound (call env (system force_quit))
  unfolding tx_counted tx_taken rx_counted rx_received
  asked-Sound h h' u s e = ground arith

  drain-Sound : (t : Timers) → Preserves Sound (drain env c t)
  unfolding drain
  drain-Sound t = bind-Preserves Sound (call env (system read_tsc)) _ read_tsc-Sound λ cur.
      let diff = (cur + 2 ^ 64 - t.prev_tsc) % 2 ^ 64 in
      if-Preserves Sound (ltb c.drain_tsc diff) (drain_all env c cur diff t) (pure t)
        (drain_all-Sound cur diff t) (same-Sound t)

  decrypt-Sound : (m : Mbuf) → Preserves Sound (decrypt_and_drop env c m)
  unfolding decrypt_and_drop real_decrypt tx_counted tx_taken rx_counted rx_received
  decrypt-Sound m h h' u s e = ground arith

  encrypt-Sound : (m : Mbuf) → Preserves Sound (real_encrypt env m)
  unfolding real_encrypt tx_counted tx_taken rx_counted rx_received
  encrypt-Sound m h h' u s e = ground arith

  forward-Sound : (m : Mbuf) (q : ℕ) → Preserves Sound (l2fwd_simple_forward env c.tables m q)
  unfolding l2fwd_simple_forward tx_counted tx_taken rx_counted rx_received
  forward-Sound m q h h' u s e =
      ground (arith, outgoing-IsAddressed c.tables m (c.tables.dst_ports q) (small q))

  handle-Sound : (q : ℕ) (m : Mbuf) → Preserves Sound (handle env c q m)
  unfolding handle encrypt_and_forward
  handle-Sound q m =
      if-Preserves Sound (m.ether_type == mark_ether_type) _ _ (decrypt-Sound m)
        (bind-Preserves Sound (real_encrypt env m) _ (encrypt-Sound m) (λ m'. forward-Sound m' q))

  receive-Sound : (q : ℕ) → Preserves Sound (receive env c q)
  unfolding receive tx_counted tx_taken rx_counted rx_received
  receive-Sound q h h' u s e = elim (Bool-cases (length burst == 0)) [
    | inl idle ↦ ground arith
    | inr busy ↦
        each-Preserves Sound burst (handle env c q) (handle-Sound q) h₂ h' u (ground arith)
          (ground arith)
  ]
    where
      burst : List Mbuf
      burst = env.answer h (rx_burst q 0 32)

      h₂ : History
      h₂ = event (system (count_rx q (length burst))) tt ∷ event (rx_burst q 0 32) burst ∷ h

  rounds-Sound : (n : ℕ) (t : Timers) → Preserves Sound (rounds env c n t)
  unfolding rounds
  rounds-Sound zero t = same-Sound tt
  rounds-Sound (suc n) t =
      bind-Preserves Sound (call env (system force_quit)) _ asked-Sound (λ quit.
        if-Preserves Sound quit _ _ (same-Sound tt) (
          bind-Preserves Sound (drain env c t) _ (drain-Sound t) (λ t'.
            bind-Preserves Sound (each c.rx_port_list (receive env c)) _
              (each-Preserves Sound c.rx_port_list (receive env c) receive-Sound)
              (λ _. rounds-Sound n t'))))

  -- At every moment at which the loop could be stopped, each frame in a transmit buffer carries the
  -- mark and, with MAC updating, the addresses of its port; the counters of port `p` are the number
  -- of frames that the port took and the number that were received on it.
  pub rounds-IsSound :
      (n : ℕ) (t : Timers) (h h' : History) (u : Unit {0})
      → IsSound c.tables p h
      → rounds env c n t h ≡ next u h'
      → IsSound c.tables p h'
  rounds-IsSound n t h h' u s e = rounds-Sound n t h h' u s e
