-- ===== src/DspQueue/Consume.antt =====
-- What a read may come to once a packet is at the read position: what is handed out, and the queue.
use fastrpc.Common.{
  Bool-cases, subst, ℕ, ◌+◌, ◌-◌, ◌%◌, ◌<◌, ◌≡◌, ◌≢◌, refl, ap, ◌∙◌, Bool, true, false, ◌&&◌,
  Option, none, some, ◌⊎◌, inl, inr, arith, ltb, ◌==◌, if◌then◌else◌, u32_mod, add_u32, List, [],
  ◌∷◌,
}
use fastrpc.DspQueue.State.{Buffer, PacketQueue, Queue, ret, abort, aee_ebaditem}
use fastrpc.DspQueue.Header.{Peeked}
use fastrpc.DspQueue.Position.{IsAligned, used}
use fastrpc.DspQueue.Refs.{plain_buffers, ref_buffers}
use fastrpc.DspQueue.Placed.{
  located, AllPlaced, SomePlaced, place_buffers-placed, plain_buffers-congr, ref_buffers-congr,
}
use fastrpc.DspQueue.Write.{Driver}
use fastrpc.DspQueue.Read.{
  Room, Received, Body, got_of, ReadResult, check_room, consume, notify_writer, resolve,
  finish_body, take_packet,
}
use fastrpc.DspQueue.Wakeup.{Reading, returned, still_polling}
use fastrpc.DspQueue.Contents.{Item, advance, item_span}
use fastrpc.DspQueue.Take.{IsBuffer}
use fastrpc.DspQueue.Fifo.{IsFifo}
use fastrpc.DspQueue.Receive.{
  peeked_of, Matches, asks, Refuses, IsBody, body_position-eq, take_body-taken, taken_body-IsBody,
}

-- The queue after the packet was consumed: the reader's position is behind it, the packets that follow
-- are still there, and the counters that the writer polls are one above the reader's.
pub record Consumed (its : List Item) (q q' : Queue) : Type 0 where
  pub fifo : IsFifo q'.resp its
  pub bytes_kept : q'.resp.bytes ≡ q.resp.bytes
  pub write_kept : q'.resp.write_position ≡ q.resp.write_position
  pub counted : q'.resp.read_packet_count ≡ (q.read_packet_count + 1) % u32_mod
  pub announced : q'.state_resp_space_count ≡ (q.resp_space_count + 1) % u32_mod

-- What is handed out once the packet is consumed: all of it, with the result zero and every wanted
-- buffer placed in its mapping; or all but the number of buffers, if the signal fails, and then the code
-- is the signal's and the buffers are those of the packet, or if a wanted buffer is refused, and then
-- the buffers before it are placed.
abbrev pub Handed : Item → Driver → Queue → Room → ℕ → Option Received → Type 0
Handed it driver q room code none = ⊥
Handed it driver q room code (some got) =
    Matches it room got
    × (((code ≡ 0)
          × (got.num_buffers ≡ some it.num_buffers)
          × (if asks it room
              then AllPlaced q.maps it.num_buffers it.buffers got.buffers
              else got.buffers ≡ []))
        ⊎ ((got.num_buffers ≡ none)
            × (((code ≢ 0)
                  × (code ≡ (notify_writer driver q).0)
                  × (got.buffers
                      ≡ (if asks it room then plain_buffers it.num_buffers it.buffers else [])))
                ⊎ ((asks it room ≡ true)
                    × Refuses it q
                    × SomePlaced q.maps it.num_buffers it.buffers got.buffers))))

-- What a read may come to, if `it` is the oldest packet: it is consumed, or nothing has changed, which
-- happens only if the client's room is too small or the queue was closed.
abbrev pub ReadEffect : Item → List Item → Driver → Queue → Room → Reading → Type 0
ReadEffect it its driver q room (returned (ret code (q', got))) =
    (Consumed its q q' × Handed it driver q room code got)
    ⊎ ((code ≢ 0)
        × (q'.resp ≡ q.resp)
        × (got ≡ none)
        × ((check_room (peeked_of it) room ≢ 0) ⊎ (q.header_queue_count ≢ q.queue_count)))
ReadEffect it its driver q room (returned abort) = ⊥
ReadEffect it its driver q room (still_polling q') = ⊥

-- Either branch of a test may be taken.
pub if-ReadEffect :
    (it : Item) (its : List Item) (driver : Driver) (q : Queue) (room : Room) (b : Bool)
    (x y : ReadResult)
    → (b ≡ true → ReadEffect it its driver q room (returned x))
    → (b ≡ false → ReadEffect it its driver q room (returned y))
    → ReadEffect it its driver q room (returned (if b then x else y))
if-ReadEffect it its driver q room true x y hx hy = hx refl
if-ReadEffect it its driver q room false x y hx hy = hy refl

pub notify_writer-keeps :
    (driver : Driver) (q : Queue)
    → ((notify_writer driver q).1.resp ≡ q.resp)
      × ((notify_writer driver q).1.state_resp_space_count ≡ q.state_resp_space_count)
      × ((notify_writer driver q).1.maps ≡ q.maps)
      × ((notify_writer driver q).1.domain ≡ q.domain)
unfolding notify_writer
notify_writer-keeps driver q = ground arith

-- Whether a signal is sent does not depend on the read position or on the counters.
pub notify_writer-consume :
    (driver : Driver) (q : Queue) (r : ℕ)
    → (notify_writer driver (consume q r)).0 ≡ (notify_writer driver q).0
unfolding notify_writer consume
notify_writer-consume driver q r = ground arith

-- The queue with its read position behind the packet.
abbrev behind : PacketQueue → Item → ℕ → PacketQueue
behind pq it count = record pq {
  read_position =
      advance pq.queue_length pq.read_position (item_span pq.queue_length pq.read_position it);
  read_packet_count = count;
}

module _ {pq : PacketQueue} {it : Item} {its : List Item} (f : IsFifo pq (it ∷ its))
    (count : ℕ) where
  behind-IsAligned : IsAligned (behind pq it count)
  unfolding used
  behind-IsAligned = let v = f.aligned in let h = f.holds.1 in ground arith

  used-behind : used (behind pq it count) ≡ used pq - item_span pq.queue_length pq.read_position it
  unfolding used
  used-behind = let v = f.aligned in let h = f.holds.1 in ground arith

  behind-IsFifo : IsFifo (behind pq it count) its
  behind-IsFifo = record { aligned = behind-IsAligned; holds = rw used-behind f.holds.2 }

module _ (q : Queue) (it : Item) {its : List Item} (room : Room) (driver : Driver)
    (f : IsFifo q.resp (it ∷ its)) where
  -- The reader's position moves behind the packet.
  consume-Consumed :
      (q' : Queue)
      → q'.resp ≡ behind q.resp it (add_u32 q.read_packet_count 1)
      → q'.state_resp_space_count ≡ add_u32 q.resp_space_count 1
      → Consumed its q q'
  consume-Consumed q' er es = record {
    fifo = rw er (behind-IsFifo f (add_u32 q.read_packet_count 1));
    bytes_kept = ap (λ (pq : PacketQueue). pq.bytes) er;
    write_kept = ap (λ (pq : PacketQueue). pq.write_position) er;
    counted = ap (λ (pq : PacketQueue). pq.read_packet_count) er;
    announced = es;
  }

  module _ {body : Body} (b : IsBody it q.resp room body) where
    consume-resp : (consume q body.position).resp ≡ behind q.resp it (add_u32 q.read_packet_count 1)
    unfolding consume
    consume-resp =
        ap
          (λ r. record (q.resp) {
            read_position = r;
            read_packet_count = add_u32 q.read_packet_count 1;
          })
          b.position_eq

    matched :
        {num : Option ℕ} {bs : List Buffer} (p : Peeked)
        → p ≡ peeked_of it
        → Matches it room (got_of p body num bs)
    matched p e = record {
      flags_eq = ap (λ (x : Peeked). x.flags) e;
      message_length_eq = ap (λ (x : Peeked). x.message_length) e;
      message_eq = b.message_eq;
    }

    -- The buffers are resolved, or refused; the queue stays as it is.
    resolve-Effect :
        (q' : Queue)
        → q'.resp ≡ behind q.resp it (add_u32 q.read_packet_count 1)
        → q'.state_resp_space_count ≡ add_u32 q.resp_space_count 1
        → q'.maps ≡ q.maps
        → q'.domain ≡ q.domain
        → ReadEffect it its driver q room (returned (resolve q' (peeked_of it) room body))
    unfolding resolve
    resolve-Effect q' er es em ed =
        let refs = ref_buffers aee_ebaditem q'.domain q'.maps 0 it.num_buffers body.buffers in
        let placed = λ (t : asks it room ≡ true).
          place_buffers-placed q'.domain it.num_buffers 0 q.maps q'.maps body.buffers it.buffers
            (b.buffers_eq (wanted t)) (λ fd. ap (λ ms. located ms fd) em) in
        if-ReadEffect it its driver q room (room.want_buffers && ltb 0 it.num_buffers) _ _
          (λ t.
            if-ReadEffect it its driver q room (refs.code == 0) _ _
              (λ z. inl (
                consume-Consumed _ er es,
                (matched (peeked_of it) refl, inl (refl, refl, rw t ((placed t).1 (ground arith)))),
              ))
              (λ n. inl (
                consume-Consumed _ er es,
                (matched (peeked_of it) refl, inr (refl, inr (t, refuses t n, (placed t).0))),
              )))
          (λ t.
            inl (
              consume-Consumed _ er es,
              (matched (peeked_of it) refl, inl (refl, refl, rw t refl)),
            ))
      where
        wanted : (room.want_buffers && ltb 0 it.num_buffers) ≡ true → room.want_buffers ≡ true
        wanted t = ground arith

        refuses :
            asks it room ≡ true
            → ((ref_buffers aee_ebaditem q'.domain q'.maps 0 it.num_buffers body.buffers).code == 0)
              ≡ false
            → Refuses it q
        refuses t n =
            subst (λ x. x ≢ 0)
              (ap (λ x. x.code)
                (ap (λ ms. ref_buffers aee_ebaditem q'.domain ms 0 it.num_buffers body.buffers) em
                  ∙ ap (λ d. ref_buffers aee_ebaditem d q.maps 0 it.num_buffers body.buffers) ed
                  ∙ ref_buffers-congr q.domain it.num_buffers 0 q.maps body.buffers it.buffers
                      (b.buffers_eq (wanted t))))
              (ground arith)

    finish_body-Effect :
        ReadEffect it its driver q room
          (returned (finish_body driver q (peeked_of it) room (some body)))
    unfolding finish_body
    finish_body-Effect =
        let sent = notify_writer driver (consume q body.position) in
        let kept = notify_writer-keeps driver (consume q body.position) in
        if-ReadEffect it its driver q room (sent.0 == 0) _ _
          (λ _. resolve-Effect sent.1 (kept.0 ∙ consume-resp) kept.1 kept.2 kept.3)
          (λ t. inl (
            consume-Consumed sent.1 (kept.0 ∙ consume-resp) kept.1,
            (
              matched (peeked_of it) refl,
              inr (refl, inl (ground arith, notify_writer-consume driver q body.position, raw)),
            ),
          ))
      where
        raw :
            (if asks it room then plain_buffers it.num_buffers body.buffers else [])
            ≡ (if asks it room then plain_buffers it.num_buffers it.buffers else [])
        raw = elim (Bool-cases (asks it room)) [
          | inl t ↦ rw t (
              plain_buffers-congr 0 it.num_buffers body.buffers it.buffers
                (b.buffers_eq (ground arith)))
          | inr n ↦ rw n refl
        ]

  -- The packet at the read position, whose header has been parsed.
  pub take_packet-Effect :
      ((i : ℕ) → i < it.num_buffers → IsBuffer (it.buffers i))
      → ReadEffect it its driver q room
          (returned (take_packet driver q room (used q.resp) q.resp.read_position (peeked_of it)))
  unfolding take_packet
  take_packet-Effect bufs =
      let s = f.holds.0 in
      let v = f.aligned in
      if-ReadEffect it its driver q room (check_room (peeked_of it) room == 0) _ _
        (λ t.
          rw (body_position-eq room v s f.holds.1, s.ready, take_body-taken room v s f.holds.1)
            (finish_body-Effect (taken_body-IsBody room v s f.holds.1 bufs)))
        (λ t. inr (ground arith, refl, refl, inl (ground arith)))
