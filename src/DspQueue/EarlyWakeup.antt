-- ===== src/DspQueue/EarlyWakeup.antt =====
-- `dspqueue_write_early_wakeup_noblock`, and how the reader takes its packet apart.
use fastrpc.Common.{
  ℕ, ◌+◌, ◌*◌, ◌%◌, ◌^◌, ◌≤◌, ◌<◌, ◌≡◌, refl, ap, ◌∙◌, true, false, Bool-cases, Option, none, some,
  List, ◌∷◌, arith, inl, inr, ◌==◌, if◌then◌else◌, le_byte, from_le, from_le-congr, from_le-le_byte,
  at, min, set_bit, Bytes,
}
use fastrpc.DspQueue.State.{PacketQueue, Queue, Outcome, flag_wakeup}
use fastrpc.DspQueue.Position.{IsAligned, used}
use fastrpc.DspQueue.Transfer.{wrap_position}
use fastrpc.DspQueue.Write.{Packet, Driver, write_noblock}
use fastrpc.DspQueue.Read.{body_position}
use fastrpc.DspQueue.Wakeup.{
  wakeup_body, wait_time, default_early_wakeup_wait, max_early_wakeup_wait,
}
use fastrpc.DspQueue.Contents.{Item, Stored, item_start, item_span}
use fastrpc.DspQueue.Delivery.{item_of}
use fastrpc.DspQueue.Take.{read_data-eq}
use fastrpc.DspQueue.Fifo.{IsFifo}
use fastrpc.DspQueue.Receive.{peeked_of}

-- The packet: a delay that is not zero is its message of four bytes.
unfoldable pub wakeup_packet : ℕ → ℕ → Packet
wakeup_packet wakeup_delay packet_flags = record {
  flags = set_bit packet_flags flag_wakeup;
  num_buffers = 0;
  buffers = none;
  message_length = if wakeup_delay == 0 then 0 else 4;
  message = if wakeup_delay == 0 then none else some (le_byte wakeup_delay);
}

-- `dspqueue_write_early_wakeup_noblock` on the queue of one domain.
unfoldable pub write_early_wakeup_noblock : Driver → Queue → ℕ → ℕ → Outcome Queue
write_early_wakeup_noblock driver q wakeup_delay packet_flags =
    write_noblock driver q (wakeup_packet wakeup_delay packet_flags)

-- The time that a reader waits for a packet after this one.
abbrev pub asked_wait : ℕ → ℕ
asked_wait wakeup_delay =
    if wakeup_delay == 0 then default_early_wakeup_wait else min wakeup_delay max_early_wakeup_wait

-- The position that the reader goes on from: behind the packet, and from the end of the queue to its
-- start only if the packet has a message.
abbrev pub position_after : ℕ → ℕ → ℕ → ℕ
position_after qsize start wakeup_delay =
    if wakeup_delay == 0 then start + 8 else wrap_position (start + 16) qsize

-- The message is read back as the delay.
delay_read :
    (m : Bytes) (delay : ℕ)
    → delay < 2 ^ 32
    → ((i : ℕ) → i < 4 → m i ≡ le_byte delay i)
    → from_le 4 m ≡ delay
delay_read m delay low h = from_le-congr 4 m (le_byte delay) h ∙ from_le-le_byte 4 delay low

wait_time-min : (delay : ℕ) → (delay == 0) ≡ false → wait_time delay ≡ asked_wait delay
unfolding wait_time
wait_time-min delay h = ground arith

-- The outcome with a wait and a position.
abbrev waits : ℕ → ℕ → Option (ℕ × ℕ × ℕ)
waits w n = some (0, w, n)

same_wait : {w w' n n' : ℕ} → w ≡ w' → n ≡ n' → waits w n ≡ waits w' n'
same_wait {w' = w'} {n = n} e k = ap (λ t. waits t n) e ∙ ap (waits w') k

module _ {pq : PacketQueue} {it : Item} (v : IsAligned pq)
    (s : Stored pq.bytes pq.queue_length pq.read_position it)
    (hs : item_span pq.queue_length pq.read_position it ≤ used pq) (hb : it.num_buffers ≡ 0) where
  start_inside :
      let start = item_start pq.queue_length pq.read_position it in
      (start % 8 ≡ 0) × (start + 8 + it.message_length ≤ pq.queue_length)
  unfolding used
  start_inside = ground arith

  body_start :
      body_position pq.queue_length (used pq) pq.read_position (8 + it.message_length)
      ≡ some (item_start pq.queue_length pq.read_position it + 8)
  unfolding body_position used
  body_start = let hm = s.message_le in ground arith

  -- A packet with no message.
  no_delay :
      it.message_length ≡ 0
      → wakeup_body pq (used pq) pq.read_position (peeked_of it)
        ≡ some (0, default_early_wakeup_wait, item_start pq.queue_length pq.read_position it + 8)
  unfolding wakeup_body
  no_delay h =
      let empty : (it.message_length == 0) ≡ true = ground arith in
      rw (wakeup_body, body_start, empty) refl

  -- A packet with a message of four bytes.
  with_delay :
      let start = item_start pq.queue_length pq.read_position it in
      it.message_length ≡ 4
      → wakeup_body pq (used pq) pq.read_position (peeked_of it)
        ≡ some (
          0,
          wait_time (from_le 4 (at pq.bytes (start + 8))),
          wrap_position (start + 16) pq.queue_length,
        )
  unfolding wakeup_body
  with_delay h =
      let start = item_start pq.queue_length pq.read_position it in
      let filled : (it.message_length == 0) ≡ false = ground arith in
      let four : (it.message_length == 4) ≡ true = ground arith in
      let taken =
        read_data-eq pq.bytes (start + 8) pq.queue_length 4 (omega (arith, start_inside))
          (omega arith) (ground (arith, start_inside, v)) v.length_high in
      rw (wakeup_body, body_start, filled, four, taken)
        (ap
          (λ n.
            some
              (0, wait_time (from_le 4 (at pq.bytes (start + 8))), wrap_position n pq.queue_length))
          (omega arith))

-- An early wakeup packet with any 32-bit delay, oldest in a queue, is taken apart by the reader
-- without a failed assertion: the reader waits for the delay, but 1000 microseconds if it is zero and
-- at most 2500, and goes on from behind the packet.
pub wakeup_body-delay :
    (pq : PacketQueue) (its : List Item) (delay packet_flags : ℕ)
    → delay < 2 ^ 32
    → IsFifo pq (item_of (wakeup_packet delay packet_flags) ∷ its)
    → let it = item_of (wakeup_packet delay packet_flags) in
      wakeup_body pq (used pq) pq.read_position (peeked_of it)
      ≡ some (
        0,
        asked_wait delay,
        position_after pq.queue_length (item_start pq.queue_length pq.read_position it) delay,
      )
unfolding wakeup_body wakeup_packet
wakeup_body-delay pq its delay packet_flags low f =
    let v = f.aligned in
    let s = f.holds.0 in
    elim (Bool-cases (delay == 0)) [
      | inl none_asked ↦
          no_delay v s f.holds.1 refl (rw none_asked refl)
          ∙ same_wait (rw none_asked refl) (rw none_asked refl)
      | inr asked ↦
          with_delay v s f.holds.1 refl (rw asked refl)
          ∙ same_wait
              (ap wait_time
                  (delay_read (at pq.bytes (start + 8)) delay low (λ i h. message_byte s asked i h))
                ∙ wait_time-min delay asked)
              (rw asked refl)
    ]
  where
    start : ℕ
    start = item_start pq.queue_length pq.read_position (item_of (wakeup_packet delay packet_flags))

    message_byte :
        Stored pq.bytes pq.queue_length pq.read_position
          (item_of (wakeup_packet delay packet_flags))
        → (delay == 0) ≡ false
        → (i : ℕ) → i < 4
        → pq.bytes (start + 8 + i) ≡ le_byte delay i
    message_byte s asked i h =
        let here : start + 8 + i ≡ start + 8 + 0 * 24 + i = omega arith in
        ap pq.bytes here ∙ s.message_at i (rw asked (omega arith)) ∙ (rw asked refl)
