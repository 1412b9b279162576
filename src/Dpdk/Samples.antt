-- ===== src/Dpdk/Samples.antt =====
-- An environment in which every call succeeds and every receive on port 0 brings one frame, for
-- instances of the theorems.
use pwd_writeup.Base.{zero, suc, some, pos, [], ◌∷◌, true, false}
use pwd_writeup.Dpdk.{
  Mbuf, QueueConf, DevInfo, Call, Answer, Env, History, Cipher, System, Setting, CipherAnswer,
  SystemAnswer, SettingAnswer, Message, MessageAnswer,
}

abbrev pub frame : Mbuf
frame = record {
  id = 7;
  port = 0;
  dst_addr = 1 ∷ 2 ∷ 3 ∷ 4 ∷ 5 ∷ 6 ∷ [];
  src_addr = 6 ∷ 5 ∷ 4 ∷ 3 ∷ 2 ∷ 1 ∷ [];
  ether_type = 0x0800;
  payload = 69 ∷ 0 ∷ [];
  pkt_len = 16;
  data_len = 16;
  tsc = 0;
  hw_timestamp = 0;
}

abbrev pub plain_queue : QueueConf
plain_queue = record { offloads = 0; thresholds = 8 }

abbrev pub dev_info : DevInfo
dev_info = record {
  rx_offload_capa = 0x4000;
  tx_offload_capa = 0x10000;
  default_rxconf = plain_queue;
  default_txconf = plain_queue;
}

abbrev pub cipher_answer : (c : Cipher) → CipherAnswer c
cipher_answer Cipher.ctx_new = true
cipher_answer Cipher.ctx_init = true
cipher_answer Cipher.ctx_reset = true
cipher_answer Cipher.ctx_final = []
cipher_answer Cipher.ctx_free = tt
cipher_answer (Cipher.ctx_update bytes) = bytes

abbrev pub system_answer : (c : System) → SystemAnswer c
system_answer System.eal_init = pos 3
system_answer System.dev_count_avail = 2
system_answer System.read_tsc = 1000
system_answer System.delay_ms = tt
system_answer System.force_quit = false
system_answer System.get_main_lcore = 0
system_answer (System.pool_create n cache) = true
system_answer System.dynfield_register = pos 40
system_answer System.rx_timestamp_register = (pos 48, 0)
system_answer (System.store_ticks_mult n) = tt
system_answer (System.count_rx p n) = tt
system_answer (System.count_tx p n) = tt
system_answer System.print_stats = tt
system_answer (System.ring_create i) = true
system_answer (System.remote_launch task lcore) = pos 0
system_answer System.mp_remote_launch = pos 0
system_answer (System.count_encrypted w) = tt
system_answer (System.count_decrypted w) = tt
system_answer (System.count_rx_dropped n) = tt
system_answer (System.count_tx_dropped w n) = tt
system_answer System.count_marked = tt
system_answer System.delay_us = tt
system_answer System.pause = tt
system_answer (System.wait_lcore lcore) = pos 0
system_answer System.calloc = true

abbrev pub setting_answer : (c : Setting) → SettingAnswer c
setting_answer Setting.tx_buffer_alloc = true
setting_answer Setting.tx_buffer_init = tt
setting_answer Setting.set_err_callback = pos 0
setting_answer Setting.set_ptypes = pos 0
setting_answer Setting.add_rx_callback = tt
setting_answer Setting.add_tx_callback = tt
setting_answer Setting.read_clock = 500
setting_answer Setting.link_get = (pos 0, true)
setting_answer Setting.flow_configure = pos 0
setting_answer Setting.flow_isolate = pos 0
setting_answer Setting.flow_flush = tt

abbrev pub message_answer : (c : Message) → MessageAnswer c
message_answer Message.is_primary = true
message_answer Message.pool_open = true
message_answer Message.cmdline_new = true
message_answer Message.set_quit = tt
message_answer (Message.ring_open r) = true
message_answer Message.mempool_get = some 3
message_answer (Message.mempool_put b) = tt
message_answer (Message.write b bytes) = tt
message_answer (Message.print b) = []
message_answer (Message.ring_enqueue r b) = pos 0
message_answer (Message.ring_dequeue r) = some 4
message_answer (Message.launch_recv lcore) = tt

abbrev pub answer : History → (c : Call) → Answer c
answer h (Call.system c) = system_answer c
answer h (Call.setting p c) = setting_answer c
answer h (Call.encrypt_ctx c) = cipher_answer c
answer h (Call.decrypt_ctx c) = cipher_answer c
answer h (Call.is_valid_port p) = true
answer h (Call.dev_info_get p) = (pos 0, dev_info)
answer h (Call.macaddr_get p) = (pos 0, 2 ∷ 0 ∷ 0 ∷ 0 ∷ 0 ∷ 9 ∷ [])
answer h (Call.promiscuous_enable p) = pos 0
answer h (Call.dev_start p) = pos 0
answer h (Call.dev_stop p) = pos 0
answer h (Call.dev_close p) = pos 0
answer h (Call.dev_configure p r t c) = pos 0
answer h (Call.adjust_nb_desc p r t) = (pos 0, r, t)
answer h (Call.rx_queue_setup p q n c) = pos 0
answer h (Call.tx_queue_setup p q n c) = pos 0
answer h (Call.rx_burst zero q n) = frame ∷ []
answer h (Call.rx_burst (suc p) q n) = []
answer h (Call.tx_burst p q ms) = 0
answer h (Call.tx_buffer p m) = 0
answer h (Call.tx_buffer_flush p) = 0
answer h (Call.ring_enqueue_burst r ms) = 0
answer h (Call.ring_dequeue_burst r n) = []
answer h (Call.pktmbuf_free m) = tt
answer h (Call.flow p c) = some 1
answer h (Call.message c) = message_answer c

abbrev pub sample_env : Env
sample_env = record { answer = answer; mbuf_fast_free = 0x10000; rx_timestamp = 0x4000 }
