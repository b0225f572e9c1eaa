-- ===== src/DspQueue/Receive.antt =====
-- A packet of the response queue as it stands at the read position, and as the client gets it.
use fastrpc.Common.{ℕ, ◌+◌, ◌%◌, ◌≤◌, ◌<◌, ◌≡◌, ◌≢◌, Bool, true, ◌&&◌, some, arith, ltb, lt→ltb, at}
use fastrpc.DspQueue.State.{PacketQueue, Queue, aee_ebaditem}
use fastrpc.DspQueue.Header.{Peeked}
use fastrpc.DspQueue.Position.{IsAligned, used}
use fastrpc.DspQueue.Refs.{ref_buffers}
use fastrpc.DspQueue.Write.{deref}
use fastrpc.DspQueue.Read.{Room, Received, Body, body_position, take_body}
use fastrpc.DspQueue.Emit.{span8}
use fastrpc.DspQueue.Contents.{Item, Stored, advance, item_start, item_span, item_length}
use fastrpc.DspQueue.Take.{IsBuffer, buffers_of-bytes, body_at, take_body-eq}

abbrev pub peeked_of : Item → Peeked
peeked_of it = record {
  flags = it.flags;
  num_buffers = it.num_buffers;
  message_length = it.message_length;
}

-- What the client has got is from the packet `it`: its flags and message length, and the message byte
-- by byte.
pub record Matches (it : Item) (room : Room) (got : Received) : Type 0 where
  pub flags_eq : got.flags ≡ it.flags
  pub message_length_eq : got.message_length ≡ it.message_length
  pub message_eq :
      room.want_message ≡ true
      → (i : ℕ) → i < it.message_length
      → deref 0 got.message i ≡ it.message i

-- The client wants the packet's buffers, and there are some.
abbrev pub asks : Item → Room → Bool
asks it room = room.want_buffers && ltb 0 it.num_buffers

-- The loop over the packet's buffers refuses one: its file descriptor is not mapped, its references
-- cannot be changed as its flags ask for, or it is not within its mapping.
abbrev pub Refuses : Item → Queue → Type 0
Refuses it q = (ref_buffers aee_ebaditem q.domain q.maps 0 it.num_buffers it.buffers).code ≢ 0

-- The body of the packet: position, message and buffers.
pub record IsBody (it : Item) (pq : PacketQueue) (room : Room) (body : Body) : Type 0 where
  pub position_eq :
      body.position
      ≡ advance pq.queue_length pq.read_position (item_span pq.queue_length pq.read_position it)
  pub message_eq :
      room.want_message ≡ true
      → (i : ℕ) → i < it.message_length
      → deref 0 body.message i ≡ it.message i
  pub buffers_eq :
      room.want_buffers ≡ true → (i : ℕ) → i < it.num_buffers → body.buffers i ≡ it.buffers i

module _ {pq : PacketQueue} {it : Item} (room : Room) (v : IsAligned pq)
    (s : Stored pq.bytes pq.queue_length pq.read_position it)
    (hs : item_span pq.queue_length pq.read_position it ≤ used pq) where
  start_fits :
      (item_start pq.queue_length pq.read_position it % 8 ≡ 0)
      × (item_start pq.queue_length pq.read_position it + span8 (item_length it) ≤ pq.queue_length)
  unfolding used
  start_fits = let hb = s.buffers_le in ground arith

  pub body_position-eq :
      body_position pq.queue_length (used pq) pq.read_position (item_length it)
      ≡ some (item_start pq.queue_length pq.read_position it + 8)
  unfolding body_position used
  body_position-eq = let hb = s.buffers_le in let hm = s.message_le in ground arith

  pub taken_body : Body
  taken_body =
      body_at pq.bytes pq.queue_length (item_start pq.queue_length pq.read_position it)
        (peeked_of it) room

  pub take_body-taken :
      take_body pq.bytes
        (item_start pq.queue_length pq.read_position it + 8)
        pq.queue_length
        (peeked_of it)
        room
      ≡ some taken_body
  unfolding taken_body
  take_body-taken =
      take_body-eq pq.bytes pq.queue_length (item_start pq.queue_length pq.read_position it)
        (peeked_of it) room start_fits.0 v.length_high start_fits.1 s.buffers_le

  position-taken :
      taken_body.position
      ≡ advance pq.queue_length pq.read_position (item_span pq.queue_length pq.read_position it)
  unfolding taken_body used
  position-taken = ground arith

  pub taken_body-IsBody :
      ((i : ℕ) → i < it.num_buffers → IsBuffer (it.buffers i)) → IsBody it pq room taken_body
  unfolding taken_body
  taken_body-IsBody bufs = record {
    position_eq = position-taken;
    message_eq = λ want i h. rw (lt→ltb 0 it.message_length (omega arith), want) (s.message_at i h);
    buffers_eq = λ want i h.
        rw (lt→ltb 0 it.num_buffers (omega arith), want)
          (buffers_of-bytes it.buffers it.num_buffers
            (at pq.bytes (item_start pq.queue_length pq.read_position it + 8)) bufs s.buffers_at i
            h);
  }
