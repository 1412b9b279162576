-- ===== src/L2fwd/Frame.antt =====
-- Dpdk-lab/multi_thread/l2fwd-single-thread/main.c, l2fwd_mac_updating and l2fwd_simple_forward.
pub mod Addresses
use Prim.Native.Nat.{zero, suc}
use pwd_writeup.Base.{
  ℕ, ◌+◌, ◌*◌, ◌/◌, ◌%◌, ◌^◌, List, [], ◌∷◌, ◌++◌, Bool, not, ◌==◌, if◌then◌else◌, take, drop,
}
use pwd_writeup.Dpdk.{Mbuf, Env, system, tx_buffer, count_tx}
use pwd_writeup.Dpdk.Monad.{M, ◌>>=◌, ◌>>◌, call, pure, when}
use pwd_writeup.L2fwd.Crypto.{mark_ether_type}

-- The tables that are fixed before the forwarding starts.
pub record Tables : Type 0 where
  pub dst_ports : ℕ → ℕ
  pub ports_eth_addr : ℕ → List ℕ
  pub mac_updating : Bool

-- The lowest `n` bytes of a number, lowest first, as a store on this machine leaves them.
unfoldable pub le_bytes : ℕ → ℕ → List ℕ
le_bytes zero v = []
le_bytes (suc n) v = (v % 256) ∷ le_bytes n (v / 256)

-- The store of eight bytes at the destination reaches into the source, which is copied after it.
unfoldable pub l2fwd_mac_updating : Tables → Mbuf → ℕ → Mbuf
unfolding le_bytes
l2fwd_mac_updating t m dest_portid = record m {
  dst_addr = take 6 stored;
  src_addr = t.ports_eth_addr dest_portid;
}
  where
    stored : List ℕ
    stored =
        le_bytes 8 ((0x000000000002 + dest_portid * 2 ^ 40) % 2 ^ 64)
        ++ drop 8 (m.dst_addr ++ m.src_addr)

-- The frame as it is handed to the buffer of port `dst_port`.
unfoldable pub outgoing : Tables → Mbuf → ℕ → Mbuf
outgoing t m dst_port =
    let updated = if t.mac_updating then l2fwd_mac_updating t m dst_port else m in
    record updated { ether_type = mark_ether_type }

unfoldable pub l2fwd_simple_forward : Env → Tables → Mbuf → ℕ → M (Unit {0})
l2fwd_simple_forward env t m portid = do
  let dst_port = t.dst_ports portid
  sent ← call env (tx_buffer dst_port (outgoing t m dst_port))
  when (not (sent == 0)) (call env (system (count_tx dst_port sent)))
