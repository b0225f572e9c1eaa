-- ===== src/DspQueue/Fifo.antt =====
-- The request queue as a first-in first-out queue of packets: what a write adds to it.
use fastrpc.Common.{
  ℕ, ◌+◌, ◌%◌, ◌^◌, ◌≤◌, ◌≡◌, ◌≢◌, refl, ap, ◌∙◌, Bool, true, false, ◌⊎◌, inl, inr, arith, ◌==◌,
  if◌then◌else◌, u32_mod, add_u32, align8, List, [], ◌∷◌, ◌++◌,
}
use fastrpc.DspQueue.State.{PacketQueue, Queue, Outcome, ret, abort, aee_ebadparm}
use fastrpc.DspQueue.Position.{IsAligned, used, queue_states_agree}
use fastrpc.DspQueue.Transfer.{wrap_position}
use fastrpc.DspQueue.Refs.{ref_buffers}
use fastrpc.DspQueue.Write.{
  Packet, Driver, buffers_at, packet_header, packet_length, check_packet, reserve, room,
  would_block, failed_assert, emit, publish, notify_reader, undo_refs, finish_write, write_reserved,
  write_noblock, Reserved,
}
use fastrpc.DspQueue.Emit.{
  span8, body_length, packet_bytes, packet_start, HasRoom, check_packet-bounds, reserve-HasRoom,
  emit-eq,
}
use fastrpc.DspQueue.Contents.{Item, Contents, Contents-kept, Contents-append, advance, item_span}
use fastrpc.DspQueue.Delivery.{item_of, is_moved-eq, bytes_kept, packet-Stored}

-- The queue is aligned and holds exactly these packets.
pub record IsFifo (pq : PacketQueue) (its : List Item) : Type 0 where
  pub aligned : IsAligned pq
  pub holds : Contents pq.bytes pq.queue_length pq.read_position (used pq) its

-- The queue after the packet `p` went in at `w`.
abbrev pub with_packet : PacketQueue → ℕ → Bool → ℕ → ℕ → Packet → PacketQueue
with_packet pq w wrap seq_no count p = record pq {
  bytes = packet_bytes pq.bytes w wrap (packet_header p seq_no) p;
  write_position = wrap_position (packet_start w wrap + span8 (body_length p)) pq.queue_length;
  write_packet_count = count;
}

module _ {pq : PacketQueue} (p : Packet) {w : ℕ} {wrap : Bool} {its : List Item} (f : IsFifo pq its)
    (hb : p.num_buffers ≤ 64) (hm : p.message_length ≤ 65536) (hr : HasRoom pq p w wrap)
    (seq_no count : ℕ) where
  with_packet-IsAligned : IsAligned (with_packet pq w wrap seq_no count p)
  unfolding used
  with_packet-IsAligned = let v = f.aligned in ground arith

  used-with_packet :
      used (with_packet pq w wrap seq_no count p)
      ≡ used pq + item_span pq.queue_length w (item_of p)
  unfolding used
  used-with_packet = let v = f.aligned in ground (arith, is_moved-eq p f.aligned hb hm hr)

  used-advance : w ≡ advance pq.queue_length pq.read_position (used pq)
  unfolding used
  used-advance = let v = f.aligned in ground arith

  pub with_packet-IsFifo : IsFifo (with_packet pq w wrap seq_no count p) (its ++ item_of p ∷ [])
  with_packet-IsFifo =
      let v = f.aligned in
      let mem' = packet_bytes pq.bytes w wrap (packet_header p seq_no) p in
      record {
        aligned = with_packet-IsAligned;
        holds =
            Contents-append {mem = mem'} pq.read_position (used pq) w _ its (item_of p)
              v.read_inside used-advance used-with_packet
              (omega (arith, queue_states_agree with_packet-IsAligned))
              (Contents-kept pq.read_position (used pq) its v.length_aligned v.read_aligned
                v.read_inside (omega (arith, queue_states_agree v))
                (λ i u. bytes_kept p v hb hm hr pq.bytes (packet_header p seq_no) i (inl u))
                f.holds)
              (packet-Stored p v hb hm hr pq.bytes seq_no);
      }

-- The packet has reached the reader of the queue that was `pq`: it stands behind the packets that were
-- there, no byte outside the queue has changed, and the counters that the reader polls are one
-- higher than the writer's counters were.
pub record Delivered (its : List Item) (pq : PacketQueue) (written requests : ℕ) (p : Packet)
    (q' : Queue) : Type 0 where
  pub fifo : IsFifo q'.req (its ++ item_of p ∷ [])
  pub outside : (i : ℕ) → pq.queue_length ≤ i → q'.req.bytes i ≡ pq.bytes i
  pub read_kept : q'.req.read_position ≡ pq.read_position
  pub counted : q'.req.write_packet_count ≡ (written + 1) % u32_mod
  pub announced : q'.state_req_packet_count ≡ (requests + 1) % u32_mod

-- What a write may come to: the packet is delivered, or the code is an error and the request queue is
-- as it was. A failed `assert` is ruled out.
abbrev pub WriteEffect : List Item → PacketQueue → ℕ → ℕ → Packet → Outcome Queue → Type 0
WriteEffect its pq written requests p (ret code q') =
    Delivered its pq written requests p q' ⊎ ((code ≢ 0) × (q'.req ≡ pq))
WriteEffect its pq written requests p abort = ⊥

-- Either branch of a test may be taken.
if-Effect :
    (its : List Item) (pq : PacketQueue) (written requests : ℕ) (p : Packet) (b : Bool)
    (x y : Outcome Queue)
    → (b ≡ true → WriteEffect its pq written requests p x)
    → (b ≡ false → WriteEffect its pq written requests p y)
    → WriteEffect its pq written requests p (if b then x else y)
if-Effect its pq written requests p true x y hx hy = hx refl
if-Effect its pq written requests p false x y hx hy = hy refl

-- A signal is apart from the queue.
pub notify_reader-keeps :
    (driver : Driver) (q : Queue)
    → ((notify_reader driver q).1.req ≡ q.req)
      × ((notify_reader driver q).1.state_req_packet_count ≡ q.state_req_packet_count)
unfolding notify_reader
notify_reader-keeps driver q = ground arith

module _ (driver : Driver) (q : Queue) (p : Packet) {its : List Item} (f : IsFifo q.req its)
    (hb : p.num_buffers ≤ 64) (hm : p.message_length ≤ 65536) {w : ℕ} {wrap : Bool}
    (hr : HasRoom q.req p w wrap) where
  -- The queue with the packet published, whatever follows.
  pub publish-Delivered :
      (q' : Queue)
      → q'.req ≡ with_packet q.req w wrap q.seq_no (add_u32 q.write_packet_count 1) p
      → q'.state_req_packet_count ≡ add_u32 q.req_packet_count 1
      → Delivered its q.req q.write_packet_count q.req_packet_count p q'
  publish-Delivered q' e c = record {
    fifo = rw e (with_packet-IsFifo p f hb hm hr q.seq_no (add_u32 q.write_packet_count 1));
    outside = λ i h.
        ap (λ (pq : PacketQueue). pq.bytes i) e
        ∙ bytes_kept p f.aligned hb hm hr q.req.bytes (packet_header p q.seq_no) i (inr h);
    read_kept = ap (λ (pq : PacketQueue). pq.read_position) e;
    counted = ap (λ (pq : PacketQueue). pq.write_packet_count) e;
    announced = c;
  }

  finish_write-Effect :
      (done : ℕ)
      → WriteEffect its q.req q.write_packet_count q.req_packet_count p
          (finish_write driver q p done (emit q.req w wrap q.seq_no p))
  unfolding finish_write publish undo_refs
  finish_write-Effect done =
      let bytes = packet_bytes q.req.bytes w wrap (packet_header p q.seq_no) p in
      let next = wrap_position (packet_start w wrap + span8 (body_length p)) q.req.queue_length in
      let sent = notify_reader driver (publish q bytes next) in
      let kept = notify_reader-keeps driver (publish q bytes next) in
      rw (emit-eq p f.aligned hb hm hr q.seq_no) (
        if-Effect its q.req q.write_packet_count q.req_packet_count p (sent.0 == 0)
          (ret 0 (record (sent.1) { seq_no = (sent.1.seq_no + 1) % 2 ^ 16 }))
          (ret (sent.0) (undo_refs (sent.1) p done)) (λ _. inl (publish-Delivered _ kept.0 kept.1))
          (λ _. inl (publish-Delivered _ kept.0 kept.1)))

-- On an aligned queue the search for space fails no assertion.
reserve-ne-failed_assert :
    {pq : PacketQueue} (alen : ℕ) → IsAligned pq → reserve pq alen ≢ failed_assert
unfolding reserve
reserve-ne-failed_assert alen v = ground (arith, queue_states_agree v)

module _ (driver : Driver) (q : Queue) (p : Packet) {its : List Item} (f : IsFifo q.req its) where
  write_reserved-Effect :
      (res : Reserved)
      → p.num_buffers ≤ 64
      → p.message_length ≤ 65536
      → reserve q.req (align8 (packet_length p)) ≡ res
      → WriteEffect its q.req q.write_packet_count q.req_packet_count p
          (write_reserved driver q p res)
  unfolding write_reserved undo_refs
  write_reserved-Effect failed_assert hb hm e =
      reserve-ne-failed_assert (align8 (packet_length p)) f.aligned e
  write_reserved-Effect would_block hb hm e = inr (omega arith, refl)
  write_reserved-Effect (room w wrap) hb hm e =
      let refs = ref_buffers aee_ebadparm q.domain q.maps 0 p.num_buffers (buffers_at p) in
      let q' = record q { maps = refs.maps } in
      if-Effect its q.req q.write_packet_count q.req_packet_count p (refs.code == 0)
        (finish_write driver q' p refs.buf_refs (emit q.req w wrap q.seq_no p))
        (ret refs.code (undo_refs q' p refs.buf_refs))
        (λ _.
          finish_write-Effect driver q' p f hb hm (reserve-HasRoom p f.aligned hb hm e)
            refs.buf_refs)
        (λ t. inr (ground arith, refl))

  -- `dspqueue_write_noblock` on a queue that holds the packets `its`: no assertion fails, and either
  -- the packet is appended behind them, with no byte outside the queue touched, the read position
  -- kept and the counters that the reader polls one above the writer's, or the code is an error and
  -- the request queue is exactly as it was.
  pub write_noblock-Effect :
      WriteEffect its q.req q.write_packet_count q.req_packet_count p (write_noblock driver q p)
  unfolding write_noblock
  write_noblock-Effect =
      if-Effect its q.req q.write_packet_count q.req_packet_count p
        (check_packet q.req.queue_length p) _ _
        (λ c.
          if-Effect its q.req q.write_packet_count q.req_packet_count p
            (q.header_queue_count == q.queue_count) _ _
            (λ _.
              write_reserved-Effect (reserve q.req (align8 (packet_length p)))
                (check_packet-bounds q.req.queue_length p c).0
                (check_packet-bounds q.req.queue_length p c).1 refl)
            (λ _. inr (omega arith, refl)))
        (λ _. inr (omega arith, refl))
