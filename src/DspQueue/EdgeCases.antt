-- ===== src/DspQueue/EdgeCases.antt =====
-- Two corner cases of `dspqueue_read_noblock`: the position after an early wakeup packet without a body
-- at the end of the queue, and the result code after a refused buffer.
use fastrpc.Common.{ℕ, ◌+◌, ◌≡◌, sym, ap, ◌∙◌, true, some, arith, ◌==◌, has_bit, []}
use fastrpc.DspQueue.State.{PacketQueue, Queue, flag_wakeup}
use fastrpc.DspQueue.Header.{peek_locked}
use fastrpc.DspQueue.Position.{IsAligned, used, queue_states_agree, get_queue_state_read}
use fastrpc.DspQueue.Write.{Driver}
use fastrpc.DspQueue.Read.{Room, consume, notify_writer}
use fastrpc.DspQueue.Wakeup.{
  still_polling, read_noblock, read_header, wakeup_body, consume_wakeup, await_packet, after_wait,
  default_early_wakeup_wait,
}
use fastrpc.DspQueue.Consume.{notify_writer-consume, notify_writer-keeps}

-- The body of a wakeup packet with no message that ends with the queue: the position stays at the
-- queue's end.
wakeup_body-at_end :
    (pq : PacketQueue) (f : ℕ)
    → IsAligned pq
    → pq.read_position + 8 ≡ pq.queue_length
    → wakeup_body pq 8 pq.read_position (record { flags = f; num_buffers = 0; message_length = 0 })
      ≡ some (0, default_early_wakeup_wait, pq.queue_length)
unfolding wakeup_body
wakeup_body-at_end pq f v e = ground arith

-- With the read position at the queue's end the reader sees no data.
consumed_to_end :
    (q : Queue)
    → IsAligned q.resp
    → used q.resp ≡ 8
    → q.resp.read_position + 8 ≡ q.resp.queue_length
    → get_queue_state_read (consume q q.resp.queue_length).resp ≡ some (0, q.resp.queue_length, 0)
unfolding get_queue_state_read consume used
consumed_to_end q v u e = ground arith

-- An early wakeup packet with no message in the last eight bytes of an aligned response queue, with
-- nothing behind it, the queue counts equal and the signal accepted: the read goes on to poll with
-- the read position published as the queue's length, where a full packet would have brought it back
-- to the start. The position lies outside the queue.
pub wakeup_passes_end :
    (driver : Driver) (q : Queue) (room : Room) (t1 f : ℕ)
    → IsAligned q.resp
    → used q.resp ≡ 8
    → q.resp.read_position + 8 ≡ q.resp.queue_length
    → q.header_queue_count ≡ q.queue_count
    → has_bit f flag_wakeup ≡ true
    → peek_locked q.resp.bytes q.resp.read_position
      ≡ some (record { flags = f; num_buffers = 0; message_length = 0 })
    → (notify_writer driver q).0 ≡ 0
    → (q' : Queue) × (read_noblock driver q room (some t1) [] ≡ still_polling q')
      × (q'.resp.read_position ≡ q'.resp.queue_length)
unfolding read_noblock read_header consume_wakeup await_packet after_wait
wakeup_passes_end driver q room t1 f v u e same wake hd sent =
    let count : (q.header_queue_count == q.queue_count) ≡ true = ground arith in
    let q' = (notify_writer driver (consume q q.resp.queue_length)).1 in
    let kept = notify_writer-keeps driver (consume q q.resp.queue_length) in
    let at_end : get_queue_state_read q'.resp ≡ some (0, q.resp.queue_length, 0) =
      rw kept.0 (consumed_to_end q v u e) in
    let accepted : (notify_writer driver (consume q q.resp.queue_length)).0 ≡ 0 =
      notify_writer-consume driver q q.resp.queue_length ∙ sent in
    (
      q',
      rw (
        count,
        (queue_states_agree v).1,
        u,
        hd,
        read_header,
        wake,
        u,
        wakeup_body-at_end q.resp f v e,
        consume_wakeup,
        accepted,
        await_packet,
        at_end,
      ),
      ap (λ (pq : PacketQueue). pq.read_position) kept.0
          ∙ sym (ap (λ (pq : PacketQueue). pq.queue_length) kept.0),
    )
