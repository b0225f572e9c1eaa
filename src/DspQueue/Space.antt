-- ===== src/DspQueue/Space.antt =====
-- When `dspqueue_write_noblock` finds room: what it needs, that it then succeeds, and that it would block
-- otherwise.
use fastrpc.Common.{
  ℕ, ◌+◌, ◌-◌, ◌*◌, ◌%◌, ◌^◌, ◌≤◌, ◌<◌, ◌≡◌, ap, ◌∙◌, Bool, true, false, arith, leb, ltb, ◌==◌,
  if◌then◌else◌, align8,
}
use fastrpc.DspQueue.State.{PacketQueue, Queue, ret, aee_ewouldblock, aee_ebadparm}
use fastrpc.DspQueue.Position.{IsAligned, used, queue_states_agree}
use fastrpc.DspQueue.Refs.{ref_buffers}
use fastrpc.DspQueue.Write.{
  Packet, Driver, buffers_at, packet_length, packet_header, check_packet, reserve, room,
  would_block, publish, notify_reader, finish_write, write_reserved, write_noblock,
}
use fastrpc.DspQueue.Transfer.{wrap_position}
use fastrpc.DspQueue.Emit.{
  packet_bytes, packet_start, span8, body_length, check_packet-bounds, reserve-HasRoom, emit-eq,
}

-- Whether the packet does not fit before the end of the queue.
abbrev pub must_move : PacketQueue → Packet → Bool
must_move pq p = ltb (pq.queue_length - pq.write_position) (span8 (body_length p))

-- The bytes in use, those skipped at the end of the queue, those of the packet, and eight that stay
-- free.
abbrev pub needed : PacketQueue → Packet → ℕ
needed pq p =
    used pq
    + (if must_move pq p then pq.queue_length - pq.write_position else 0)
    + span8 (body_length p)
    + 8

-- On an aligned queue, for a packet that passes the parameter checks, the search for space finds room
-- exactly if the bytes needed are no more than the queue's length; it then proposes the write
-- position, and the start of the queue if the packet does not fit before the end.
pub reserve-exact :
    {pq : PacketQueue} (p : Packet)
    → IsAligned pq
    → check_packet pq.queue_length p ≡ true
    → reserve pq (align8 (packet_length p)) ≡ (
        if leb (needed pq p) pq.queue_length
        then room pq.write_position (must_move pq p)
        else would_block)
unfolding reserve used
reserve-exact {pq} p v c =
    let hb = (check_packet-bounds pq.queue_length p c).0 in
    let hm = (check_packet-bounds pq.queue_length p c).1 in ground (arith, queue_states_agree v)

-- A driver that takes every signal lets every notification pass.
notify_reader-accepted :
    (driver : Driver)
    → ((signal : ℕ) → driver signal ≡ 0)
    → (q : Queue) → (notify_reader driver q).0 ≡ 0
unfolding notify_reader
notify_reader-accepted driver accepts q = ground (arith, accepts (4 * q.id + 0 + 0))

module _ (driver : Driver) (q : Queue) (p : Packet) (v : IsAligned q.req)
    (c : check_packet q.req.queue_length p ≡ true)
    (same : q.header_queue_count ≡ q.queue_count) where
  counts_match : (q.header_queue_count == q.queue_count) ≡ true
  counts_match = ground arith

  -- On an aligned queue with equal queue counts, for a packet that passes the parameter checks: if the
  -- bytes needed are more than the queue's length, a write returns AEE_EWOULDBLOCK and changes
  -- nothing at all.
  pub write_noblock-full :
      q.req.queue_length < needed q.req p → write_noblock driver q p ≡ ret aee_ewouldblock q
  unfolding write_noblock write_reserved
  write_noblock-full h =
      let none_left : leb (needed q.req p) q.req.queue_length ≡ false = ground arith in
      rw (c, counts_match, reserve-exact p v c, none_left, write_reserved)

  -- On an aligned queue with equal queue counts, for a packet that passes the parameter checks: if the
  -- bytes needed are no more than the queue's length, the buffers are all accepted and the driver
  -- takes every signal, a write succeeds.
  pub write_noblock-succeeds :
      needed q.req p ≤ q.req.queue_length
      → (ref_buffers aee_ebadparm q.domain q.maps 0 p.num_buffers (buffers_at p)).code ≡ 0
      → ((signal : ℕ) → driver signal ≡ 0)
      → (q' : Queue) × (write_noblock driver q p ≡ ret 0 q')
  unfolding write_noblock write_reserved finish_write
  write_noblock-succeeds h refs accepts =
      let fits : leb (needed q.req p) q.req.queue_length ≡ true = ground arith in
      let found = reserve-exact p v c ∙ ap (λ t. if t then room w wrap else would_block) fits in
      let hb = (check_packet-bounds q.req.queue_length p c).0 in
      let hm = (check_packet-bounds q.req.queue_length p c).1 in
      let referred = ref_buffers aee_ebadparm q.domain q.maps 0 p.num_buffers (buffers_at p) in
      let published =
        publish (record q { maps = referred.maps })
          (packet_bytes q.req.bytes w wrap (packet_header p q.seq_no) p)
          (wrap_position (packet_start w wrap + span8 (body_length p)) q.req.queue_length) in
      let q' = (notify_reader driver published).1 in
      (
        record q' { seq_no = (q'.seq_no + 1) % 2 ^ 16 },
        rw (
          c,
          counts_match,
          found,
          write_reserved,
          refs,
          emit-eq p v hb hm (reserve-HasRoom p v hb hm found) q.seq_no,
          finish_write,
          notify_reader-accepted driver accepts,
        ),
      )
    where
      w : ℕ
      w = q.req.write_position

      wrap : Bool
      wrap = must_move q.req p
