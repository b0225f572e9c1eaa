-- ===== src/DspQueue/Position.antt =====
-- Positions in a packet queue: the free space that the writer sees, the data that the reader sees,
-- and the invariant on positions.
use fastrpc.Common.{
  ℕ, ◌+◌, ◌-◌, ◌%◌, ◌≤◌, ◌<◌, ◌≡◌, ◌&&◌, Option, none, some, arith, leb, ltb, ◌==◌, if◌then◌else◌,
  sub_u32, add_u32, u32_mod,
}
use fastrpc.DspQueue.State.{PacketQueue}

-- `get_queue_state_write`: the space left and both positions; `none` is a failed `assert`.
unfoldable pub get_queue_state_write : PacketQueue → Option (ℕ × ℕ × ℕ)
get_queue_state_write pq =
    let qsize = pq.queue_length in
    let r = pq.read_position in
    let w = pq.write_position in
    let qleft =
      if r == w
      then sub_u32 qsize 8
      else if ltb r w
      then sub_u32 (add_u32 (sub_u32 qsize w) r) 8
      else sub_u32 (sub_u32 r w) 8 in
    if (r % 8 == 0 && w % 8 == 0) && qleft % 8 == 0 then some (qleft, r, w) else none

-- `get_queue_state_read`: the data left and both positions.
unfoldable pub get_queue_state_read : PacketQueue → Option (ℕ × ℕ × ℕ)
get_queue_state_read pq =
    let qsize = pq.queue_length in
    let r = pq.read_position in
    let w = pq.write_position in
    let qleft =
      if r == w then 0 else if ltb r w then sub_u32 w r else add_u32 (sub_u32 qsize r) w in
    if (r % 8 == 0 && w % 8 == 0) && qleft % 8 == 0 then some (qleft, r, w) else none

-- The positions of a queue whose two ends follow the protocol: its length is a multiple of eight
-- within 32 bits, and both positions are aligned and inside it.
pub record IsAligned (pq : PacketQueue) : Type 0 where
  pub length_low : 8 ≤ pq.queue_length
  pub length_high : pq.queue_length < u32_mod
  pub length_aligned : pq.queue_length % 8 ≡ 0
  pub read_inside : pq.read_position < pq.queue_length
  pub read_aligned : pq.read_position % 8 ≡ 0
  pub write_inside : pq.write_position < pq.queue_length
  pub write_aligned : pq.write_position % 8 ≡ 0

-- The bytes in use, from the read position up to the write position.
unfoldable pub used : PacketQueue → ℕ
used pq =
    if leb pq.read_position pq.write_position
    then pq.write_position - pq.read_position
    else pq.queue_length - pq.read_position + pq.write_position

-- On an aligned queue neither side's assertions fail and no subtraction wraps: the writer sees the
-- queue's length less the bytes in use and one reserved word of eight bytes, the reader sees exactly
-- the bytes in use, and the two always add up to the length less eight.
pub queue_states_agree :
    {pq : PacketQueue}
    → IsAligned pq
    → let r = pq.read_position in
      let w = pq.write_position in
      (get_queue_state_write pq ≡ some (pq.queue_length - used pq - 8, r, w))
      × (get_queue_state_read pq ≡ some (used pq, r, w))
      × (used pq + 8 ≤ pq.queue_length)
unfolding get_queue_state_write get_queue_state_read used
queue_states_agree v = (ground arith, ground arith, ground arith)
