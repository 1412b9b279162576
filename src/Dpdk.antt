-- ===== src/Dpdk.antt =====
-- The interface of the calls into DPDK and OpenSSL that the programs under Dpdk-lab make. Their
-- code is not in the repository: `Env` answers every call, from the history of all calls and
-- answers before it, and nothing is assumed of the answers but what a theorem names. A call whose
-- only effect is on the screen, and one whose answer is only printed, is left out, but for the print of
-- a message.
pub mod Monad
pub mod Device
pub mod Leads
pub mod Parts
pub mod Ports
pub mod Ownership
pub mod Rely
pub mod Log
pub mod Pairing
pub mod Samples
use pwd_writeup.Base.{ℕ, ℤ, List, Bool, Option}
use pwd_writeup.Flow.{FlowCall}

-- `struct rte_mbuf` with the frame that it holds: the Ethernet header, `ether_type` in host order,
-- and the bytes after it. `tsc` and `hw_timestamp` are the two dynamic fields.
pub record Mbuf : Type 0 where
  pub id : ℕ
  pub port : ℕ
  pub dst_addr : List ℕ
  pub src_addr : List ℕ
  pub ether_type : ℕ
  pub payload : List ℕ
  pub pkt_len : ℕ
  pub data_len : ℕ
  pub tsc : ℕ
  pub hw_timestamp : ℕ

-- The fields of the configuration structures that the programs set or copy.
pub record EthConf : Type 0 where
  pub rx_offloads : ℕ
  pub tx_offloads : ℕ

pub record QueueConf : Type 0 where
  pub offloads : ℕ
  pub thresholds : ℕ

pub record DevInfo : Type 0 where
  pub rx_offload_capa : ℕ
  pub tx_offload_capa : ℕ
  pub default_rxconf : QueueConf
  pub default_txconf : QueueConf

-- The cipher contexts of a thread. The answer to an update is the bytes that it writes.
pub data Cipher : Type 0 where
  ctx_new ctx_init ctx_reset ctx_final ctx_free : Cipher
  ctx_update : List ℕ → Cipher

abbrev pub CipherAnswer : Cipher → Type 0
CipherAnswer ctx_new = Bool
CipherAnswer ctx_init = Bool
CipherAnswer ctx_reset = Bool
CipherAnswer ctx_final = List ℕ
CipherAnswer ctx_free = Unit {0}
CipherAnswer (ctx_update bytes) = List ℕ

-- What an lcore is launched for: the cipher loop of a worker, or the forwarding loop.
pub data Task : Type 0 where
  crypto : ℕ → Task
  forwarding : Task

-- Calls that do not touch a port.
pub data System : Type 0 where
  eal_init dev_count_avail read_tsc delay_ms force_quit get_main_lcore : System
  pool_create : ℕ → ℕ → System
  dynfield_register rx_timestamp_register : System
  -- A store to the global `ticks_per_cycle_mult`, which outlives the function that makes it.
  store_ticks_mult : ℕ → System
  -- So are the additions to the global `port_statistics`, and the print of it.
  count_rx count_tx : ℕ → ℕ → System
  print_stats : System
  ring_create : ℕ → System
  remote_launch : Task → ℕ → System
  -- On all lcores at once; with an error, on none.
  mp_remote_launch : System
  -- The additions to the counters of the cipher workers, and to the one of marked frames.
  count_encrypted count_decrypted : ℕ → System
  count_rx_dropped : ℕ → System
  count_tx_dropped : ℕ → ℕ → System
  count_marked delay_us pause : System
  wait_lcore : ℕ → System
  -- A calloc, which may fail.
  calloc : System

-- `rx_timestamp_register` leaves the offset, and with a negative one sets `rte_errno` to a positive
-- number: the second part is that number less one.
abbrev pub SystemAnswer : System → Type 0
SystemAnswer eal_init = ℤ
SystemAnswer dev_count_avail = ℕ
SystemAnswer read_tsc = ℕ
SystemAnswer delay_ms = Unit {0}
SystemAnswer force_quit = Bool
SystemAnswer get_main_lcore = ℕ
SystemAnswer (pool_create n cache) = Bool
SystemAnswer dynfield_register = ℤ
SystemAnswer rx_timestamp_register = ℤ × ℕ
SystemAnswer (store_ticks_mult n) = Unit {0}
SystemAnswer (count_rx p n) = Unit {0}
SystemAnswer (count_tx p n) = Unit {0}
SystemAnswer print_stats = Unit {0}
SystemAnswer (ring_create i) = Bool
SystemAnswer (remote_launch task lcore) = ℤ
SystemAnswer mp_remote_launch = ℤ
SystemAnswer (count_encrypted w) = Unit {0}
SystemAnswer (count_decrypted w) = Unit {0}
SystemAnswer (count_rx_dropped n) = Unit {0}
SystemAnswer (count_tx_dropped w n) = Unit {0}
SystemAnswer count_marked = Unit {0}
SystemAnswer delay_us = Unit {0}
SystemAnswer pause = Unit {0}
SystemAnswer (wait_lcore lcore) = ℤ
SystemAnswer calloc = Bool

-- The settings of a port that do not bear on the order of its start.
pub data Setting : Type 0 where
  tx_buffer_alloc tx_buffer_init set_err_callback set_ptypes : Setting
  add_rx_callback add_tx_callback read_clock link_get flow_configure flow_isolate flow_flush :
      Setting

abbrev pub SettingAnswer : Setting → Type 0
SettingAnswer tx_buffer_alloc = Bool
SettingAnswer tx_buffer_init = Unit {0}
SettingAnswer set_err_callback = ℤ
SettingAnswer set_ptypes = ℤ
SettingAnswer add_rx_callback = Unit {0}
SettingAnswer add_tx_callback = Unit {0}
SettingAnswer read_clock = ℕ
SettingAnswer link_get = ℤ × Bool
SettingAnswer flow_configure = ℤ
SettingAnswer flow_isolate = ℤ
SettingAnswer flow_flush = Unit {0}

-- The two rings of Dpdk-lab/multi_process, and the calls on them, on the pool of message buffers, which
-- are numbered, and on the flag that ends the process.
pub data RingName : Type 0 where
  pri_2_sec sec_2_pri : RingName

pub data Message : Type 0 where
  is_primary pool_open cmdline_new set_quit : Message
  ring_open : RingName → Message
  mempool_get : Message
  mempool_put : ℕ → Message
  -- strlcpy into a buffer.
  write : ℕ → List ℕ → Message
  -- The `%s` of a printf: the characters that the buffer holds.
  print : ℕ → Message
  ring_enqueue : RingName → ℕ → Message
  ring_dequeue : RingName → Message
  launch_recv : ℕ → Message

abbrev pub MessageAnswer : Message → Type 0
MessageAnswer is_primary = Bool
MessageAnswer pool_open = Bool
MessageAnswer cmdline_new = Bool
MessageAnswer set_quit = Unit {0}
MessageAnswer (ring_open r) = Bool
MessageAnswer mempool_get = Option ℕ
MessageAnswer (mempool_put b) = Unit {0}
MessageAnswer (write b bytes) = Unit {0}
MessageAnswer (print b) = List ℕ
MessageAnswer (ring_enqueue r b) = ℤ
MessageAnswer (ring_dequeue r) = Option ℕ
MessageAnswer (launch_recv lcore) = Unit {0}

pub data Call : Type 0 where
  system : System → Call
  setting : ℕ → Setting → Call
  encrypt_ctx decrypt_ctx : Cipher → Call
  is_valid_port dev_info_get macaddr_get promiscuous_enable : ℕ → Call
  dev_start dev_stop dev_close : ℕ → Call
  dev_configure : ℕ → ℕ → ℕ → EthConf → Call
  adjust_nb_desc : ℕ → ℕ → ℕ → Call
  rx_queue_setup : ℕ → ℕ → ℕ → Option QueueConf → Call
  tx_queue_setup : ℕ → ℕ → ℕ → QueueConf → Call
  rx_burst : ℕ → ℕ → ℕ → Call
  tx_burst : ℕ → ℕ → List Mbuf → Call
  tx_buffer : ℕ → Mbuf → Call
  tx_buffer_flush : ℕ → Call
  ring_enqueue_burst : ℕ → List Mbuf → Call
  ring_dequeue_burst : ℕ → ℕ → Call
  pktmbuf_free : Mbuf → Call
  flow : ℕ → FlowCall → Call
  message : Message → Call

abbrev pub Answer : Call → Type 0
Answer (system c) = SystemAnswer c
Answer (setting p c) = SettingAnswer c
Answer (encrypt_ctx c) = CipherAnswer c
Answer (decrypt_ctx c) = CipherAnswer c
Answer (is_valid_port p) = Bool
Answer (dev_info_get p) = ℤ × DevInfo
Answer (macaddr_get p) = ℤ × List ℕ
Answer (promiscuous_enable p) = ℤ
Answer (dev_start p) = ℤ
Answer (dev_stop p) = ℤ
Answer (dev_close p) = ℤ
Answer (dev_configure p r t c) = ℤ
Answer (adjust_nb_desc p r t) = ℤ × ℕ × ℕ
Answer (rx_queue_setup p q n c) = ℤ
Answer (tx_queue_setup p q n c) = ℤ
Answer (rx_burst p q n) = List Mbuf
Answer (tx_burst p q ms) = ℕ
Answer (tx_buffer p m) = ℕ
Answer (tx_buffer_flush p) = ℕ
Answer (ring_enqueue_burst r ms) = ℕ
Answer (ring_dequeue_burst r n) = List Mbuf
Answer (pktmbuf_free m) = Unit {0}
Answer (flow p c) = Option ℕ
Answer (message c) = MessageAnswer c

pub data Event : Type 0 where
  event : (c : Call) → Answer c → Event

-- Newest first.
abbrev pub History : Type 0
History = List Event

pub record Env : Type 0 where
  pub answer : History → (c : Call) → Answer c
  -- RTE_ETH_TX_OFFLOAD_MBUF_FAST_FREE and RTE_ETH_RX_OFFLOAD_TIMESTAMP
  pub mbuf_fast_free : ℕ
  pub rx_timestamp : ℕ
