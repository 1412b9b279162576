-- ===== src/L2fwd/Frame/Addresses.antt =====
-- The header that l2fwd_mac_updating and l2fwd_simple_forward write.
use pwd_writeup.Base.{ℕ, ◌%◌, ◌^◌, ◌<◌, [], ◌∷◌, ◌≡◌, arith}
use pwd_writeup.Dpdk.{Mbuf}
use pwd_writeup.L2fwd.Frame.{Tables, l2fwd_mac_updating}

-- With 02 as its first byte and four bytes of zero, the destination address ends in the lowest byte
-- of the port's number, for any number below 2 ^ 32; the source address is that port's own. The rest of
-- the frame is as it was.
pub mac_updating_lem :
    (t : Tables) (m : Mbuf) (dest : ℕ)
    → dest < 2 ^ 32
    → l2fwd_mac_updating t m dest ≡ record m {
      dst_addr = 2 ∷ 0 ∷ 0 ∷ 0 ∷ 0 ∷ (dest % 256) ∷ [];
      src_addr = t.ports_eth_addr dest;
    }
unfolding l2fwd_mac_updating
mac_updating_lem t m dest small = ground arith
