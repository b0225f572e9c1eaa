-- ===== src/DspQueue/Wakeup.antt =====
-- Early wakeup packets in `dspqueue_read_noblock`, and that function itself: a wakeup packet is
-- consumed first, and the read polls for the packet that it announces.
use fastrpc.Common.{
  ℕ, ◌+◌, ◌-◌, ◌%◌, ◌^◌, Option, none, some, leb, ltb, ◌==◌, if◌then◌else◌, add_u32, u64_mod,
  has_bit, Bytes, List, [], ◌∷◌, from_le,
}
use fastrpc.DspQueue.State.{
  PacketQueue, Queue, ret, abort, aee_ebaditem, aee_erpc, aee_ewouldblock, flag_wakeup,
}
use fastrpc.DspQueue.Header.{Peeked, peek_locked}
use fastrpc.DspQueue.Position.{get_queue_state_read}
use fastrpc.DspQueue.Transfer.{read_data}
use fastrpc.DspQueue.Write.{Driver}
use fastrpc.DspQueue.Read.{Room, ReadResult, body_position, consume, notify_writer, take_packet}

abbrev pub default_early_wakeup_wait : ℕ
default_early_wakeup_wait = 1000

abbrev pub max_early_wakeup_wait : ℕ
max_early_wakeup_wait = 2500

-- What one pass of the polling loop meets: the time in microseconds, or the error of a clock that
-- fails, and what the DSP has published in the meantime.
pub record Poll : Type 0 where
  pub time : Option ℕ
  pub written : ℕ
  pub memory : Bytes

-- `get_time_usec` returns -1 on an error.
abbrev pub clock_error : ℕ
clock_error = 2 ^ 32 - 1

-- The DSP's writes that a poll finds.
abbrev pub observe : Queue → Poll → Queue
observe q o = record q { resp = record (q.resp) { bytes = o.memory; write_position = o.written } }

-- The time to wait that the body of the wakeup packet asks for.
unfoldable pub wait_time : ℕ → ℕ
wait_time wakeup =
    if ltb max_early_wakeup_wait wakeup
    then max_early_wakeup_wait
    else if wakeup == 0
    then default_early_wakeup_wait
    else wakeup

-- The body of a wakeup packet: the time to wait and the position after it, or the code to fail with;
-- `none` is a failed `assert`.
unfoldable pub wakeup_body : PacketQueue → ℕ → ℕ → Peeked → Option (ℕ × ℕ × ℕ)
unfolding body_position read_data wait_time
wakeup_body pq qleft r p = elim (body_position pq.queue_length qleft r (8 + p.message_length)) [
  | none ↦ none
  | some r' ↦
      if p.message_length == 0
      then some (0, default_early_wakeup_wait, r')
      else if p.message_length == 4
      then elim (read_data pq.bytes r' pq.queue_length 4) [
        | none ↦ none
        | some (m, r2) ↦ some (0, wait_time (from_le 4 m), r2)
      ]
      else some (aee_ebaditem, 0, 0)
]

-- How the wait ends: with a packet at hand, with a code to return, with a failed `assert`, or with
-- the polls used up.
pub data Waited : Type 0 where
  packet : Queue → Waited
  gave_up : ℕ → Queue → Waited
  failed : Waited
  polling : Queue → Waited

abbrev pub add_wait : Queue → ℕ → ℕ → Queue
add_wait q t1 t2 = record q {
  early_wakeup_wait = (q.early_wakeup_wait + (t2 + u64_mod - t1)) % u64_mod;
}

-- The polling loop from time `t1`, until `limit`, over the polls that are to come.
unfoldable pub poll_loop : ℕ → ℕ → Queue → List Poll → Waited
poll_loop t1 limit q [] = polling q
poll_loop t1 limit q (o ∷ os) =
    let rest = poll_loop t1 limit (observe q o) os in
    elim o.time [
      | none ↦ gave_up clock_error q
      | some t2 ↦ elim (get_queue_state_read (observe q o).resp) [
        | none ↦ failed
        | some (qleft, r, w) ↦
            if leb 8 qleft
            then packet (if t2 == 0 then observe q o else add_wait (observe q o) t1 t2)
            else if ltb t2 limit
            then rest
            else gave_up aee_ewouldblock (record (add_wait (observe q o) t1 t2) {
              early_wakeup_misses = add_u32 q.early_wakeup_misses 1;
            })
      ]
    ]

-- The wait for the next packet; no poll is made if one is there already.
unfoldable pub await_packet : ℕ → Queue → Option ℕ → List Poll → Waited
unfolding poll_loop
await_packet wait q start polls = elim (get_queue_state_read q.resp) [
  | none ↦ failed
  | some (qleft, r, w) ↦ if leb 8 qleft then packet q else elim start [
    | none ↦ gave_up clock_error q
    | some t1 ↦ poll_loop t1 ((t1 + wait) % u64_mod) q polls
  ]
]

-- The packet that the wait has found.
unfoldable pub take_next : Driver → Queue → Room → ReadResult
take_next driver q room = elim (get_queue_state_read q.resp) [
  | none ↦ abort
  | some (qleft, r, w) ↦ elim (peek_locked q.resp.bytes r) [
    | none ↦ ret aee_ebaditem (q, none)
    | some p ↦ take_packet driver q room qleft r p
  ]
]

-- A read that still polls has not returned.
pub data Reading : Type 0 where
  returned : ReadResult → Reading
  still_polling : Queue → Reading

unfoldable pub after_wait : Driver → Room → Waited → Reading
unfolding take_next
after_wait driver room (packet q) = returned (take_next driver q room)
after_wait driver room (gave_up code q) = returned (ret code (q, none))
after_wait driver room failed = returned abort
after_wait driver room (polling q) = still_polling q

-- The wakeup packet is consumed: the read position as its body leaves it, the signal, the wait.
unfoldable pub consume_wakeup :
    Driver → Queue → Room → Option ℕ → List Poll → Option (ℕ × ℕ × ℕ) → Reading
unfolding consume notify_writer await_packet after_wait
consume_wakeup driver q room start polls none = returned abort
consume_wakeup driver q room start polls (some (code, wait, r)) =
    if code == 0
    then (let (sent, q') = notify_writer driver (consume q r) in
        if sent == 0
        then after_wait driver room (await_packet wait q' start polls)
        else returned (ret sent (q', none)))
    else returned (ret code (q, none))

-- The header at the read position has been parsed.
unfoldable pub read_header : Driver → Queue → Room → Option ℕ → List Poll → ℕ → ℕ → Peeked → Reading
unfolding consume_wakeup wakeup_body take_packet
read_header driver q room start polls qleft r p =
    if has_bit p.flags flag_wakeup
    then (if p.num_buffers == 0
        then consume_wakeup driver q room start polls (wakeup_body q.resp qleft r p)
        else returned (ret aee_erpc (q, none)))
    else returned (take_packet driver q room qleft r p)

-- `dspqueue_read_noblock` on the queue of one domain. `start` is the first clock reading of a wait and
-- `polls` is what its loop meets.
unfoldable pub read_noblock : Driver → Queue → Room → Option ℕ → List Poll → Reading
read_noblock driver q room start polls =
    if q.header_queue_count == q.queue_count
    then elim (get_queue_state_read q.resp) [
      | none ↦ returned abort
      | some (qleft, r, w) ↦
          if ltb qleft 8
          then returned (ret aee_ewouldblock (q, none))
          else elim (peek_locked q.resp.bytes r) [
            | none ↦ returned (ret aee_ebaditem (q, none))
            | some p ↦ read_header driver q room start polls qleft r p
          ]
    ]
    else returned (ret aee_erpc (q, none))
