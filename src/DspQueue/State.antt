-- ===== src/DspQueue/State.antt =====
-- The data of src/dspqueue/dspqueue_cpu.c, inc/dspqueue.h and inc/dspqueue_shared.h: one direction of
-- the shared queue, the queue object with the counters it keeps, buffers and result codes.
-- Cache maintenance is a no-op there and barriers order what a sequential model orders by itself.
use fastrpc.Common.{ℕ, Bool, List, Bytes}

-- Result codes of inc/AEEStdErr.h.
abbrev pub aee_success : ℕ
aee_success = 0

abbrev pub aee_efailed : ℕ
aee_efailed = 1

abbrev pub aee_eexpired : ℕ
aee_eexpired = 12

abbrev pub aee_ebadstate : ℕ
aee_ebadstate = 13

abbrev pub aee_ebadparm : ℕ
aee_ebadparm = 14

abbrev pub aee_ebaditem : ℕ
aee_ebaditem = 16

abbrev pub aee_eunsupported : ℕ
aee_eunsupported = 20

abbrev pub aee_einvaliditem : ℕ
aee_einvaliditem = 42

abbrev pub aee_enosuchmap : ℕ
aee_enosuchmap = 72

abbrev pub aee_erpc : ℕ
aee_erpc = 512

abbrev pub aee_ewouldblock : ℕ
aee_ewouldblock = 516

-- Packet flags (`enum dspqueue_packet_flags`), as masks with one bit.
abbrev pub flag_message : ℕ
flag_message = 1

abbrev pub flag_buffers : ℕ
flag_buffers = 2

abbrev pub flag_wakeup : ℕ
flag_wakeup = 4

abbrev pub flag_user_ready : ℕ
flag_user_ready = 16

-- Buffer flags (`enum dspqueue_buffer_flags`).
abbrev pub buffer_flag_ref : ℕ
buffer_flag_ref = 4

abbrev pub buffer_flag_deref : ℕ
buffer_flag_deref = 8

abbrev pub max_buffers : ℕ
max_buffers = 64

abbrev pub max_message_size : ℕ
max_message_size = 65536

-- `sizeof(struct dspqueue_buffer)`
abbrev pub buffer_size : ℕ
buffer_size = 24

-- `struct dspqueue_buffer`; `address` is the union of `ptr` and `address`.
pub record Buffer : Type 0 where
  pub fd : ℕ
  pub size : ℕ
  pub offset : ℕ
  pub flags : ℕ
  pub address : ℕ

-- One direction of the shared queue: its `struct dspqueue_packet_queue_header`, the reader's and the
-- writer's `struct dspqueue_packet_queue_state`, and the memory from `queue_offset` on.
pub record PacketQueue : Type 0 where
  pub queue_length : ℕ
  pub bytes : Bytes
  pub read_position : ℕ
  pub read_packet_count : ℕ
  pub read_wait_count : ℕ
  pub write_position : ℕ
  pub write_packet_count : ℕ
  pub write_wait_count : ℕ

-- A mapping of the domain's static mapping list (`struct static_map` of src/fastrpc_mem.c): `vaddr` is
-- `map.vaddrin`; the other fields of `map` are never read.
pub record StaticMap : Type 0 where
  pub fd : ℕ
  pub vaddr : ℕ
  pub length : ℕ
  pub vaddrout : ℕ
  pub refs : ℕ

-- `struct dspqueue` with what its operations reach: the shared header, the process-wide counters of
-- its domain, the domain's static mappings, and the signals handed to the driver, newest first.
pub record Queue : Type 0 where
  pub id : ℕ
  pub domain : ℕ
  pub req : PacketQueue
  pub resp : PacketQueue
  pub header_queue_count : ℕ
  pub queue_count : ℕ
  pub seq_no : ℕ
  pub read_packet_count : ℕ
  pub write_packet_count : ℕ
  pub req_packet_count : ℕ
  pub resp_space_count : ℕ
  pub state_req_packet_count : ℕ
  pub state_resp_space_count : ℕ
  pub early_wakeup_wait : ℕ
  pub early_wakeup_misses : ℕ
  pub have_wait_counts : Bool
  pub have_driver_signaling : Bool
  pub send_signal_mask : ℕ
  pub driver_signals : List ℕ
  pub maps : List StaticMap

-- What a call comes to: a result code with what it leaves behind, or a failed `assert`.
pub data Outcome {ℓ} (A : Type ℓ) : Type ℓ where
  ret : ℕ → A → Outcome A
  abort : Outcome A
