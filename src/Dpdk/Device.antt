-- ===== src/Dpdk/Device.antt =====
-- The order in which DPDK wants a port to be brought up, as a state machine over the history. It is
-- written from the interface and not from the programs: configure a stopped port, then set up each
-- queue once, then start it when all queues are there; in the
-- end stop it, and close it once it is stopped.
use pwd_writeup.Dpdk.Monad.{Outcome, leaves, final}
use pwd_writeup.Base.{
  ℤ, ◌≡◌, ℕ, ◌+◌, [], ◌∷◌, Bool, true, false, ◌&&◌, ◌||◌, not, ◌==◌, if◌then◌else◌, is_neg,
  is_nonzero,
}
use pwd_writeup.Dpdk.{
  Event, event, History, dev_configure, rx_queue_setup, tx_queue_setup, dev_start, dev_stop,
  dev_close, promiscuous_enable, rx_burst,
}

pub record Device : Type 0 where
  pub configured : Bool
  pub rx_wanted : ℕ
  pub tx_wanted : ℕ
  pub rx_set : ℕ
  pub tx_set : ℕ
  pub started : Bool
  pub promiscuous : Bool
  -- How often it was closed, and whether it was while it ran.
  pub closings : ℕ
  pub closed_running : Bool
  -- A call came in a state that does not allow it.
  pub misused : Bool

abbrev pub closed : Device
closed = record {
  configured = false;
  rx_wanted = 0;
  tx_wanted = 0;
  rx_set = 0;
  tx_set = 0;
  started = false;
  promiscuous = false;
  closings = 0;
  closed_running = false;
  misused = false;
}

abbrev misuse_if : Bool → Device → Device
misuse_if b d = record d { misused = d.misused || b }

configure : ℕ → ℕ → Device → Device
configure r t d =
    misuse_if d.started
      (record d { configured = true; rx_wanted = r; tx_wanted = t; rx_set = 0; tx_set = 0 })

set_rx : ℕ → Device → Device
set_rx q d =
    misuse_if (not d.configured || d.started || not (q == d.rx_set))
      (record d { rx_set = d.rx_set + 1 })

set_tx : ℕ → Device → Device
set_tx q d =
    misuse_if (not d.configured || d.started || not (q == d.tx_set))
      (record d { tx_set = d.tx_set + 1 })

start : Device → Device
start d =
    misuse_if
      (not d.configured
        || d.started
        || not (d.rx_set == d.rx_wanted)
        || not (d.tx_set == d.tx_wanted))
      (record d { started = true })

-- What is closed has to be configured anew.
close : Device → Device
close d = record d {
  configured = false;
  closings = d.closings + 1;
  closed_running = d.closed_running || d.started;
}

-- A call that fails changes nothing, but for a close.
react : ℕ → Event → Device → Device
unfolding configure set_rx set_tx start close
react p (event (dev_configure i r t c) ret) d =
    if p == i && not (is_neg ret) then configure r t d else d
react p (event (rx_queue_setup i q n c) ret) d =
    if p == i && not (is_neg ret) then set_rx q d else d
react p (event (tx_queue_setup i q n c) ret) d =
    if p == i && not (is_neg ret) then set_tx q d else d
react p (event (dev_start i) ret) d = if p == i && not (is_neg ret) then start d else d
react p (event (dev_stop i) ret) d =
    if p == i && not (is_neg ret) then record d { started = false } else d
react p (event (dev_close i) ret) d = if p == i then close d else d
react p (event (promiscuous_enable i) ret) d =
    if p == i && not (is_nonzero ret) then record d { promiscuous = true } else d
react p (event (rx_burst i q n) ms) d = if p == i then misuse_if (not d.started) d else d
react p (event c r) d = d

unfoldable pub device : ℕ → History → Device
unfolding react
device p [] = closed
device p (e ∷ h) = react p e (device p h)

-- Up and forwarding, with `rx` and `tx` queues, and nothing done out of order.
abbrev pub running : ℕ → ℕ → Bool → Device
running rx tx p = record {
  configured = true;
  rx_wanted = rx;
  tx_wanted = tx;
  rx_set = rx;
  tx_set = tx;
  started = true;
  promiscuous = p;
  closings = 0;
  closed_running = false;
  misused = false;
}

-- A running port after a stop that answered `ret`, and a close.
abbrev pub shut : ℕ → ℕ → Bool → ℤ → Device
shut rx tx p ret = record (running rx tx p) {
  configured = false;
  started = is_neg ret;
  closings = 1;
  closed_running = is_neg ret;
}

-- How a routine that starts port `p` ends: it returns, and on its way it made no call on the port
-- that the port's state does not allow.
abbrev pub Returns : ℕ → Outcome ℤ → Type 0
Returns p o = (leaves o ≡ false) × ((device p (final o)).misused ≡ false)
