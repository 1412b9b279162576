-- ===== src/L2fwdMulti/Sender.antt =====
-- Dpdk-lab/multi_thread/l2fwd-multi-thread/main.c, l2fwd_main_loop: the frames that come back from
-- the cipher are grouped by port and sent.
pub mod Balance
pub mod Grouping
use Prim.Native.Nat.{zero, suc}
use pwd_writeup.Base.{
  ℕ, ◌+◌, List, [], ◌∷◌, ◌++◌, Bool, true, false, not, ◌==◌, ltb, ◌&&◌, if◌then◌else◌, length,
  range,
}
use pwd_writeup.Dpdk.{
  Mbuf, Env, system, count_marked, count_tx, ring_dequeue_burst, tx_burst, pktmbuf_free,
}
use pwd_writeup.Dpdk.Monad.{M, ◌>>=◌, ◌>>◌, call, pure, when, each}
use pwd_writeup.Dpdk.Ownership.{free_rest}
use pwd_writeup.L2fwd.Args.{max_ethports}
use pwd_writeup.L2fwd.Crypto.{mark_ether_type}
use pwd_writeup.L2fwdMulti.Worker.{ring_burst}

-- `port_pkts`, where `port_counts` is the length of a row.
abbrev pub Groups : Type 0
Groups = ℕ → List Mbuf

abbrev pub no_frames : Groups
no_frames dst = []

-- There is room for a frame in the row of its port.
unfoldable pub fits : Groups → Mbuf → Bool
fits g m = ltb m.port max_ethports && ltb (length (g m.port)) ring_burst

unfoldable pub append_to : Groups → Mbuf → Groups
append_to g m dst = if dst == m.port then g dst ++ (m ∷ []) else g dst

module _ (env : Env) where
  -- The loop that groups the frames, from `port_pkts` to `port_pkts`.
  unfoldable pub group : List Mbuf → Groups → M Groups
  unfolding fits append_to
  group [] g = pure g
  group (m ∷ ms) g =
      if fits g m then group ms (append_to g m) else (call env (pktmbuf_free m) >> group ms g)

  unfoldable pub check_mark : Mbuf → M (Unit {0})
  check_mark m = when (m.ether_type == mark_ether_type) (call env (system count_marked))

  unfoldable pub send_row : ℕ → List Mbuf → M (Unit {0})
  unfolding free_rest
  send_row dst port_pkts = do
    sent ← call env (tx_burst dst 0 port_pkts)
    call env (system (count_tx dst sent))
    free_rest env port_pkts sent

  -- The frames of one port.
  unfoldable pub send_port : Groups → ℕ → M (Unit {0})
  unfolding check_mark send_row
  send_port g dst = when (ltb 0 (length (g dst))) (each (g dst) check_mark >> send_row dst (g dst))

  unfoldable pub send_groups : Groups → M (Unit {0})
  unfolding send_port
  send_groups g = each (range max_ethports) (send_port g)

  -- Back from ring `tx_ring`, and out.
  unfoldable pub send_back : ℕ → M (Unit {0})
  send_back tx_ring = do
    tx_pkts ← call env (ring_dequeue_burst tx_ring ring_burst)
    when (ltb 0 (length tx_pkts)) do g ← group tx_pkts no_frames; send_groups g
