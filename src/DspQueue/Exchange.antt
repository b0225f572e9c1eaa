-- ===== src/DspQueue/Exchange.antt =====
-- Reads of `dspqueue_read_noblock` and `dspqueue_peek_noblock` from a queue whose packets are known, and
-- a packet's way from a write to a read.
use fastrpc.Common.{
  ℕ, ◌<◌, ◌≡◌, subst, refl, ◌∙◌, true, false, Option, none, inl, inr, Bool-cases, arith, ltb, ◌==◌,
  has_bit, List, [], ◌∷◌,
}
use fastrpc.DspQueue.State.{PacketQueue, Queue, ret, aee_ewouldblock, flag_wakeup}
use fastrpc.DspQueue.Header.{Peeked}
use fastrpc.DspQueue.Position.{used, queue_states_agree}
use fastrpc.DspQueue.Write.{Driver, Packet, buffers_at, write_noblock}
use fastrpc.DspQueue.Read.{Room, take_packet}
use fastrpc.DspQueue.Wakeup.{Poll, returned, read_noblock, read_header}
use fastrpc.DspQueue.Contents.{Item}
use fastrpc.DspQueue.Delivery.{item_of, sent_flags_bits}
use fastrpc.DspQueue.Take.{IsBuffer}
use fastrpc.DspQueue.Fifo.{IsFifo, WriteEffect, write_noblock-Effect}
use fastrpc.DspQueue.Receive.{peeked_of}
use fastrpc.DspQueue.Consume.{ReadEffect, take_packet-Effect}

-- A stored packet is at least its header.
oldest_fits :
    {pq : PacketQueue} {it : Item} {its : List Item}
    → IsFifo pq (it ∷ its)
    → ltb (used pq) 8 ≡ false
oldest_fits f = let h = f.holds.1 in ground arith

read_header-plain :
    (driver : Driver) (q : Queue) (room : Room) (start : Option ℕ) (polls : List Poll) (qleft r : ℕ)
    (p : Peeked)
    → has_bit p.flags flag_wakeup ≡ false
    → read_header driver q room start polls qleft r p
      ≡ returned (take_packet driver q room qleft r p)
unfolding read_header
read_header-plain driver q room start polls qleft r p h = rw h

module _ (driver : Driver) (q : Queue) (room : Room) (start : Option ℕ) (polls : List Poll) where
  -- A read from a response queue that holds the packets `it ∷ its`, where `it` is no early wakeup packet
  -- and its buffers are machine words: no assertion fails and the read returns. Either `it` is consumed
  -- and the queue then holds `its`, or the queue is as it was, with an error and nothing handed out,
  -- because the room is too small or the queue counts differ. Of a consumed packet the client has got
  -- the flags, the message length and the message. Then either the result is zero and it has also got
  -- the number of buffers and, if it asked for them, every buffer, placed in the mapping of its file
  -- descriptor; or it has got no number of buffers, because the signal failed, where the code is the
  -- signal's and the buffers are those of the packet, or because a wanted buffer was refused, where
  -- some buffers from the first on are placed and the rest are those of the packet.
  pub read_noblock-Effect :
      (it : Item) (its : List Item)
      → IsFifo q.resp (it ∷ its)
      → has_bit it.flags flag_wakeup ≡ false
      → ((i : ℕ) → i < it.num_buffers → IsBuffer (it.buffers i))
      → ReadEffect it its driver q room (read_noblock driver q room start polls)
  unfolding read_noblock
  read_noblock-Effect it its f plain bufs =
      elim (Bool-cases (q.header_queue_count == q.queue_count)) [
        | inl same ↦
            rw
              (
                same,
                (queue_states_agree f.aligned).1,
                oldest_fits f,
                f.holds.0.header,
                read_header-plain driver q room start polls (used q.resp) q.resp.read_position
                    (peeked_of it) plain,
              )
              (take_packet-Effect q it room driver f bufs)
        | inr differ ↦ rw differ (inr (omega arith, refl, refl, inr (ground arith)))
      ]

  -- With equal queue counts, a read from an empty aligned queue returns AEE_EWOULDBLOCK and changes
  -- nothing.
  pub read_noblock-empty :
      IsFifo q.resp []
      → q.header_queue_count ≡ q.queue_count
      → read_noblock driver q room start polls ≡ returned (ret aee_ewouldblock (q, none))
  unfolding read_noblock
  read_noblock-empty f same =
      let e : (q.header_queue_count == q.queue_count) ≡ true = ground arith in
      rw (e, (queue_states_agree f.aligned).1, f.holds)

-- A packet's way through a queue. Once a write to an empty request queue has returned zero, a read by
-- the same code from that queue, given as the response queue of `reader`, fails no assertion and has
-- the effect of a read of exactly that packet, with the flags that were written but for the ones that
-- the library sets by itself. Either it is consumed, which leaves the queue empty, and the client has
-- got its flags, its message length and its message, and, unless the signal fails or a wanted buffer is
-- refused, the number of its buffers and each wanted one placed in its mapping; or the queue is as it
-- was, with an error and nothing handed out. The packet is no early wakeup packet and its buffers are
-- machine words.
pub read_of_write :
    (driver : Driver) (q q' reader : Queue) (p : Packet) (room : Room) (start : Option ℕ)
    (polls : List Poll)
    → IsFifo q.req []
    → write_noblock driver q p ≡ ret 0 q'
    → reader.resp ≡ q'.req
    → has_bit p.flags flag_wakeup ≡ false
    → ((i : ℕ) → i < p.num_buffers → IsBuffer (buffers_at p i))
    → ReadEffect (item_of p) [] driver reader room (read_noblock driver reader room start polls)
read_of_write driver q q' reader p room start polls f written e plain bufs =
    elim (subst (WriteEffect [] q.req q.write_packet_count q.req_packet_count p) written
      (write_noblock-Effect driver q p f)) [
        | inl d ↦
            read_noblock-Effect driver reader room start polls (item_of p) [] (rw e d.fifo)
              ((sent_flags_bits p).2 ∙ plain) bufs
        | inr failed ↦ absurd (failed.0 refl)
      ]
