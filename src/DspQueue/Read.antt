-- ===== src/DspQueue/Read.antt =====
-- `dspqueue_read_noblock` and `dspqueue_peek_noblock`, step by step: the packet that the header at the
-- read position announces, its buffers and message, the read state and the signal, and the early
-- wakeup packet that comes before another one.
use fastrpc.Common.{
  ℕ, ◌+◌, ◌*◌, Bool, not, ◌&&◌, ◌||◌, Option, none, some, leb, ltb, ◌==◌, if◌then◌else◌, sub_u32,
  add_u32, align8, has_bit, Bytes, List, [],
}
use fastrpc.DspQueue.State.{
  Buffer, Queue, Outcome, ret, abort, aee_success, aee_ebadparm, aee_ebaditem, aee_ewouldblock,
  flag_buffers, flag_message, flag_user_ready, max_buffers, buffer_size,
}
use fastrpc.DspQueue.Header.{Peeked, peek_locked}
use fastrpc.DspQueue.Position.{get_queue_state_read}
use fastrpc.DspQueue.Transfer.{read_data, buffers_of, wrap_position}
use fastrpc.DspQueue.Refs.{ref_buffers, undo_read_buffers, place_buffers, plain_buffers}
use fastrpc.DspQueue.Write.{Driver, send_signal, signal_resp_space}

-- The client's buffers: their capacities, and whether their pointers are given at all.
pub record Room : Type 0 where
  pub max_buffers : ℕ
  pub want_buffers : Bool
  pub max_message_length : ℕ
  pub want_message : Bool

-- What a read has written to the client's outputs, if it came to its packet's body; the number of
-- buffers is written at the very end. An output whose pointer is NULL stays untouched: its list is
-- empty, and its message is not meant to be read.
pub record Received : Type 0 where
  pub flags : ℕ
  pub num_buffers : Option ℕ
  pub message_length : ℕ
  pub buffers : List Buffer
  pub message : Option Bytes

-- The result of a read: the queue, and what was written to the outputs.
abbrev pub ReadResult : Type 0
ReadResult = Outcome (Queue × Option Received)

-- `dspqueue_peek_noblock` on the queue of one domain.
unfoldable pub peek_noblock : Queue → Outcome (Option Peeked)
peek_noblock q = elim (get_queue_state_read q.resp) [
  | none ↦ abort
  | some (qleft, r, w) ↦
      if ltb qleft 8 then ret aee_ewouldblock none else elim (peek_locked q.resp.bytes r) [
        | none ↦ ret aee_ebaditem none
        | some p ↦ ret aee_success (some p)
      ]
]

-- Where the body of a packet of `len` bytes starts: after the header at `r`, or after its copy at the
-- start of the queue; `none` is a failed `assert`.
unfoldable pub body_position : ℕ → ℕ → ℕ → ℕ → Option ℕ
body_position qsize qleft r len =
    if ltb (sub_u32 qsize r) len
    then (if leb len (sub_u32 qleft (sub_u32 qsize r)) then some 8 else none)
    else some (add_u32 r 8)

-- The buffers' part of the packet: the array, and the position after it.
unfoldable pub take_buffers : Bytes → ℕ → ℕ → ℕ → Bool → Option ((ℕ → Buffer) × ℕ)
unfolding read_data
take_buffers qp r qsize nb want =
    if ltb 0 nb
    then (if want
        then elim (read_data qp r qsize (nb * buffer_size)) [
          | none ↦ none
          | some (m, r') ↦ some (buffers_of m, r')
        ]
        else some (buffers_of qp, add_u32 r (nb * buffer_size)))
    else some (buffers_of qp, r)

-- The message's part.
unfoldable pub take_message : Bytes → ℕ → ℕ → ℕ → Bool → Option (Option Bytes × ℕ)
unfolding read_data
take_message qp r qsize ml want =
    if ltb 0 ml
    then (if want
        then elim (read_data qp r qsize ml) [ none ↦ none | some (m, r') ↦ some (some m, r') ]
        else some (none, add_u32 r (align8 ml)))
    else some (none, r)

-- A packet's body: its buffers as they stand in the queue, its message and the position after it.
pub record Body : Type 0 where
  pub buffers : ℕ → Buffer
  pub message : Option Bytes
  pub position : ℕ

-- The body from `r` on, and the position after it; `none` is a failed `assert`.
unfoldable pub take_body : Bytes → ℕ → ℕ → Peeked → Room → Option Body
unfolding take_buffers take_message
take_body qp r qsize p room = elim (take_buffers qp r qsize p.num_buffers room.want_buffers) [
  | none ↦ none
  | some (bs, r1) ↦ elim (take_message qp r1 qsize p.message_length room.want_message) [
    | none ↦ none
    | some (m, r2) ↦
        if leb r2 qsize
        then some (record { buffers = bs; message = m; position = wrap_position r2 qsize })
        else none
  ]
]

-- The checks on the client's room and on the packet; zero lets the read go on.
unfoldable pub check_room : Peeked → Room → ℕ
check_room p room =
    if (has_bit p.flags flag_buffers && room.want_buffers) && ltb room.max_buffers p.num_buffers
    then aee_ebadparm
    else if ltb max_buffers p.num_buffers
    then aee_ebaditem
    else if (has_bit p.flags flag_message && room.want_message)
        && ltb room.max_message_length p.message_length
    then aee_ebadparm
    else 0

-- The read state and the counters once the packet is consumed.
unfoldable pub consume : Queue → ℕ → Queue
consume q r =
    let count = add_u32 q.read_packet_count 1 in
    let space = add_u32 q.resp_space_count 1 in
    record q {
      resp = record (q.resp) { read_position = r; read_packet_count = count };
      read_packet_count = count;
      resp_space_count = space;
      state_resp_space_count = space;
    }

-- The signal, if the writer may be waiting for space.
unfoldable pub notify_writer : Driver → Queue → ℕ × Queue
unfolding send_signal
notify_writer driver q =
    if not q.have_wait_counts || ltb 0 q.resp.write_wait_count
    then send_signal driver q signal_resp_space
    else (aee_success, q)

-- What the client has got of the packet.
abbrev pub got_of : Peeked → Body → Option ℕ → List Buffer → Received
got_of p body num_buffers buffers = record {
  flags = p.flags;
  num_buffers = num_buffers;
  message_length = p.message_length;
  buffers = buffers;
  message = body.message;
}

-- The references of the received buffers, and the return. If a buffer is refused, the references
-- taken so far are undone, and the code is what the undo loop leaves.
unfoldable pub resolve : Queue → Peeked → Room → Body → ReadResult
unfolding ref_buffers undo_read_buffers place_buffers
resolve q p room body =
    if room.want_buffers && ltb 0 p.num_buffers
    then (let refs = ref_buffers aee_ebaditem q.domain q.maps 0 p.num_buffers body.buffers in
        let undone = undo_read_buffers refs.code q.domain refs.maps refs.buf_refs body.buffers in
        let placed = place_buffers aee_ebaditem q.domain q.maps p.num_buffers body.buffers in
        if refs.code == 0
        then ret aee_success
            (record q { maps = refs.maps }, some (got_of p body (some p.num_buffers) placed))
        else ret undone.0 (record q { maps = undone.1 }, some (got_of p body none placed)))
    else ret aee_success (q, some (got_of p body (some p.num_buffers) []))

-- The buffers that the packet's body has brought, before any is referred to.
abbrev pub copied : Peeked → Room → Body → List Buffer
copied p room body =
    if room.want_buffers && ltb 0 p.num_buffers
    then plain_buffers p.num_buffers body.buffers
    else []

-- From the body on: the read state, the signal, the buffers' references.
unfoldable pub finish_body : Driver → Queue → Peeked → Room → Option Body → ReadResult
unfolding consume notify_writer resolve
finish_body driver q p room none = abort
finish_body driver q p room (some body) =
    let (code, q') = notify_writer driver (consume q body.position) in
    if code == 0
    then resolve q' p room body
    else ret code (q', some (got_of p body none (copied p room body)))

-- The packet at `r`, whose header has been parsed.
unfoldable pub take_packet : Driver → Queue → Room → ℕ → ℕ → Peeked → ReadResult
unfolding check_room body_position take_body finish_body
take_packet driver q room qleft r p =
    let code = check_room p room in
    let qsize = q.resp.queue_length in
    if code == 0
    then elim (body_position qsize qleft r (8 + p.num_buffers * buffer_size + p.message_length)) [
      | none ↦ abort
      | some r' ↦
          if has_bit p.flags flag_user_ready
          then finish_body driver q p room (take_body q.resp.bytes r' qsize p room)
          else ret aee_ebaditem (q, none)
    ]
    else ret code (q, none)
