-- ===== src/DspQueue/Write.antt =====
-- `dspqueue_write_noblock`, step by step: the checks on the packet, the search for space, the bytes
-- that go into the queue, and the counters and the signal that publish the packet.
use fastrpc.Common.{
  ℕ, ◌+◌, ◌*◌, ◌%◌, ◌^◌, Bool, true, false, not, ◌&&◌, ◌||◌, Option, none, some, leb, ltb, ◌==◌,
  if◌then◌else◌, sub_u32, add_u32, u32_mod, align8, set_bit, clear_bit, Bytes, ◌∷◌,
}
use fastrpc.DspQueue.State.{
  Buffer, PacketQueue, Queue, Outcome, ret, abort, aee_success, aee_ebadparm, aee_erpc,
  aee_ewouldblock, flag_buffers, flag_message, flag_user_ready, max_buffers, max_message_size,
  buffer_size,
}
use fastrpc.DspQueue.Header.{pack_header}
use fastrpc.DspQueue.Position.{get_queue_state_write}
use fastrpc.DspQueue.Transfer.{write_64, write_data, buffer_bytes}
use fastrpc.DspQueue.Refs.{ref_buffers, undo_buffers}

-- The arguments of a write: `flags`, `num_buffers`, `buffers`, `message_length`, `message`. A pointer
-- is `none` for NULL, or what stands at each index.
pub record Packet : Type 0 where
  pub flags : ℕ
  pub num_buffers : ℕ
  pub buffers : Option (ℕ → Buffer)
  pub message_length : ℕ
  pub message : Option Bytes

abbrev pub null_buffer : Buffer
null_buffer = record { fd = 0; size = 0; offset = 0; flags = 0; address = 0 }

-- What is read through a pointer. The code reads through NULL nowhere: the length is zero there.
abbrev pub deref {ℓ} : {A : Type ℓ} → A → Option (ℕ → A) → ℕ → A
deref d none i = d
deref d (some f) i = f i

abbrev pub is_null {ℓ} : {A : Type ℓ} → Option A → Bool
is_null none = true
is_null (some a) = false

abbrev pub buffers_at : Packet → ℕ → Buffer
buffers_at p = deref null_buffer p.buffers

abbrev pub message_at : Packet → Bytes
message_at p = deref 0 p.message

-- The flags with BUFFERS and MESSAGE set as the packet needs them.
unfoldable pub prepare_flags : Packet → ℕ
prepare_flags p =
    let f =
      if ltb 0 p.num_buffers
      then set_bit p.flags flag_buffers
      else clear_bit p.flags flag_buffers in
    if ltb 0 p.message_length then set_bit f flag_message else clear_bit f flag_message

-- `len` of the packet.
abbrev pub packet_length : Packet → ℕ
packet_length p = (8 + p.num_buffers * buffer_size + p.message_length) % u32_mod

-- The parameter checks; `false` is AEE_EBADPARM.
unfoldable pub check_packet : ℕ → Packet → Bool
check_packet qsize p =
    ((leb p.num_buffers max_buffers && leb p.message_length max_message_size)
      && (not (ltb 0 p.num_buffers && is_null p.buffers)
          && not (ltb 0 p.message_length && is_null p.message)))
    && leb (align8 (packet_length p)) (sub_u32 qsize 8)

-- Where the packet goes: at `w`, or at the start of the queue with its header replicated at `w`.
pub data Reserved : Type 0 where
  room : ℕ → Bool → Reserved
  would_block : Reserved
  failed_assert : Reserved

unfoldable pub reserve : PacketQueue → ℕ → Reserved
unfolding get_queue_state_write
reserve pq alen = elim (get_queue_state_write pq) [
  | none ↦ failed_assert
  | some (qleft, r, w) ↦
      if ltb qleft alen
      then would_block
      else if ltb (sub_u32 pq.queue_length w) alen
      then (if ltb (sub_u32 qleft (sub_u32 pq.queue_length w)) alen
          then would_block
          else room w true)
      else room w false
]

-- The buffers' part of the packet.
unfoldable pub emit_buffers : Bytes → ℕ → ℕ → Packet → Option (Bytes × ℕ)
unfolding write_data buffer_bytes
emit_buffers qp w qsize p =
    if ltb 0 p.num_buffers
    then write_data qp w qsize (buffer_bytes (buffers_at p)) (p.num_buffers * buffer_size)
    else some (qp, w)

-- The message's part.
unfoldable pub emit_message : Bytes → ℕ → ℕ → Packet → Option (Bytes × ℕ)
unfolding write_data
emit_message qp w qsize p =
    if ltb 0 p.message_length
    then write_data qp w qsize (message_at p) p.message_length
    else some (qp, w)

-- The header, again at the start if the packet wraps.
unfoldable pub emit_header : Bytes → ℕ → ℕ → Bool → ℕ → Bytes × ℕ
unfolding write_64
emit_header qp w qsize wrap phdr =
    let (qp', w') = write_64 qp w qsize phdr in
    if wrap then write_64 qp' 0 qsize phdr else (qp', w')

-- The header word of the packet.
abbrev pub packet_header : Packet → ℕ → ℕ
packet_header p seq_no =
    pack_header (packet_length p) (set_bit (prepare_flags p) flag_user_ready) p.num_buffers seq_no

-- The queue memory after the packet, and the new write position; `none` is a failed `assert`.
unfoldable pub emit : PacketQueue → ℕ → Bool → ℕ → Packet → Option (Bytes × ℕ)
emit pq w wrap seq_no p =
    let (qp, w1) = emit_header pq.bytes w pq.queue_length wrap (packet_header p seq_no) in
    elim (emit_buffers qp w1 pq.queue_length p) [
      | none ↦ none
      | some (qp', w2) ↦ emit_message qp' w2 pq.queue_length p
    ]

-- Signal numbers (`enum dspqueue_signal`).
abbrev pub signal_req_packet : ℕ
signal_req_packet = 0

abbrev pub signal_req_space : ℕ
signal_req_space = 1

abbrev pub signal_resp_packet : ℕ
signal_resp_packet = 2

abbrev pub signal_resp_space : ℕ
signal_resp_space = 3

-- QUEUE_SIGNAL
abbrev pub queue_signal : ℕ → ℕ → ℕ
queue_signal queue_id signal_no = 4 * queue_id + signal_no + 0

-- What `dspsignal_signal` returns for a signal: the driver's answer.
abbrev pub Driver : Type 0
Driver = ℕ → ℕ

-- `send_signal`: the result code and the queue afterwards.
unfoldable pub send_signal : Driver → Queue → ℕ → ℕ × Queue
send_signal driver q signal_no =
    if q.have_driver_signaling
    then (if ltb signal_no 4
        then (
          driver (queue_signal q.id signal_no),
          record q { driver_signals = queue_signal q.id signal_no ∷ q.driver_signals },
        )
        else (aee_ebadparm, q))
    else (aee_success, record q { send_signal_mask = set_bit q.send_signal_mask 1 })

-- The write state and the counters of a packet that is in the queue.
unfoldable pub publish : Queue → Bytes → ℕ → Queue
publish q bytes w =
    let count = add_u32 q.write_packet_count 1 in
    let reqs = add_u32 q.req_packet_count 1 in
    record q {
      req = record (q.req) { bytes = bytes; write_position = w; write_packet_count = count };
      write_packet_count = count;
      req_packet_count = reqs;
      state_req_packet_count = reqs;
    }

-- The signal, if the reader may be waiting for it.
unfoldable pub notify_reader : Driver → Queue → ℕ × Queue
unfolding send_signal
notify_reader driver q =
    if not q.have_wait_counts || ltb 0 q.req.read_wait_count
    then send_signal driver q signal_req_packet
    else (aee_success, q)

-- `bail`: the reference changes of the first `done` buffers are taken back.
unfoldable pub undo_refs : Queue → Packet → ℕ → Queue
unfolding undo_buffers
undo_refs q p done = record q { maps = undo_buffers q.domain q.maps done (buffers_at p) }

-- From the packet in the queue to the return.
unfoldable pub finish_write : Driver → Queue → Packet → ℕ → Option (Bytes × ℕ) → Outcome Queue
finish_write driver q p done none = abort
finish_write driver q p done (some (bytes, w)) =
    let (code, q') = notify_reader driver (publish q bytes w) in
    if code == 0
    then ret aee_success (record q' { seq_no = (q'.seq_no + 1) % 2 ^ 16 })
    else ret code (undo_refs q' p done)

-- From the space found on: the buffers' references, then the packet.
unfoldable pub write_reserved : Driver → Queue → Packet → Reserved → Outcome Queue
write_reserved driver q p failed_assert = abort
write_reserved driver q p would_block = ret aee_ewouldblock q
write_reserved driver q p (room w wrap) =
    let refs = ref_buffers aee_ebadparm q.domain q.maps 0 p.num_buffers (buffers_at p) in
    let q' = record q { maps = refs.maps } in
    if refs.code == 0
    then finish_write driver q' p refs.buf_refs (emit q.req w wrap q.seq_no p)
    else ret refs.code (undo_refs q' p refs.buf_refs)

-- `dspqueue_write_noblock` on the queue of one domain.
unfoldable pub write_noblock : Driver → Queue → Packet → Outcome Queue
write_noblock driver q p =
    if check_packet q.req.queue_length p
    then (if q.header_queue_count == q.queue_count
        then write_reserved driver q p (reserve q.req (align8 (packet_length p)))
        else ret aee_erpc q)
    else ret aee_ebadparm q
