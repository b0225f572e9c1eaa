-- ===== src/DspQueue/Emit.antt =====
-- The bytes that `dspqueue_write_noblock` puts into the queue memory.
use fastrpc.Common.{
  ℕ, ◌+◌, ◌-◌, ◌*◌, ◌/◌, ◌%◌, ◌≤◌, ◌<◌, ◌≡◌, refl, Bool, true, false, some, arith, ltb,
  if◌then◌else◌, u32_mod, align8, Bytes, copy, le_byte,
}
use fastrpc.DspQueue.State.{PacketQueue, buffer_size}
use fastrpc.DspQueue.Position.{IsAligned, used, queue_states_agree}
use fastrpc.DspQueue.Transfer.{write_64, write_data, wrap_position, buffer_bytes}
use fastrpc.DspQueue.Write.{
  Packet, buffers_at, message_at, packet_length, packet_header, check_packet, reserve, room, emit,
  emit_header, emit_buffers, emit_message,
}

-- The position of the packet proper: `w`, or the start of the queue.
abbrev pub packet_start : ℕ → Bool → ℕ
packet_start w wrap = if wrap then 0 else w

-- The memory with the header at `w`, and at the start too if the packet wraps.
abbrev pub with_header : Bytes → ℕ → Bool → ℕ → Bytes
with_header mem w wrap phdr =
    if wrap
    then copy (copy mem w (le_byte phdr) 8) 0 (le_byte phdr) 8
    else copy mem w (le_byte phdr) 8

-- The buffers behind it, and the message behind them.
abbrev pub with_buffers : Bytes → ℕ → Packet → Bytes
with_buffers mem start p =
    if ltb 0 p.num_buffers
    then copy mem (start + 8) (buffer_bytes (buffers_at p)) (p.num_buffers * buffer_size)
    else mem

abbrev pub with_message : Bytes → ℕ → Packet → Bytes
with_message mem start p =
    if ltb 0 p.message_length
    then copy mem (start + 8 + p.num_buffers * buffer_size) (message_at p) p.message_length
    else mem

unfoldable pub packet_bytes : Bytes → ℕ → Bool → ℕ → Packet → Bytes
packet_bytes mem w wrap phdr p =
    with_message (with_buffers (with_header mem w wrap phdr) (packet_start w wrap) p)
      (packet_start w wrap) p

-- The packet's bytes in the queue, a multiple of eight.
abbrev pub span8 : ℕ → ℕ
span8 n = (n + 7) / 8 * 8

abbrev pub body_length : Packet → ℕ
body_length p = 8 + p.num_buffers * 24 + p.message_length

-- What `reserve` has found: aligned room for the packet that leaves eight bytes free.
pub record HasRoom (pq : PacketQueue) (p : Packet) (w : ℕ) (wrap : Bool) : Type 0 where
  pub at_end : w ≡ pq.write_position
  pub skips : wrap ≡ ltb (pq.queue_length - w) (span8 (body_length p))
  pub fits :
      used pq + (if wrap then pq.queue_length - w else 0) + span8 (body_length p) + 8
      ≤ pq.queue_length

pub check_packet-bounds :
    (qsize : ℕ) (p : Packet)
    → check_packet qsize p ≡ true
    → (p.num_buffers ≤ 64) × (p.message_length ≤ 65536)
unfolding check_packet
check_packet-bounds qsize p h = ground arith

pub reserve-HasRoom :
    {pq : PacketQueue} (p : Packet) {w : ℕ} {wrap : Bool}
    → IsAligned pq
    → p.num_buffers ≤ 64
    → p.message_length ≤ 65536
    → reserve pq (align8 (packet_length p)) ≡ room w wrap
    → HasRoom pq p w wrap
unfolding reserve
reserve-HasRoom {pq} p v hb hm e = ground (arith, queue_states_agree v)

-- A transfer that stays inside the queue does what it is asked.
pub write_data-eq :
    (qp : Bytes) (pos qsize : ℕ) (src : Bytes) (n : ℕ)
    → pos % 8 ≡ 0
    → 0 < n
    → pos + span8 n ≤ qsize
    → qsize < u32_mod
    → write_data qp pos qsize src n ≡ some (copy qp pos src n, wrap_position (pos + span8 n) qsize)
unfolding write_data
write_data-eq qp pos qsize src n ha hn hq hs = ground arith

module _ (qsize s : ℕ) (p : Packet) (hs : s % 8 ≡ 0) (hq : qsize < u32_mod)
    (fits : s + span8 (body_length p) ≤ qsize) (hb : p.num_buffers ≤ 64)
    (hm : p.message_length ≤ 65536) where
  emit_buffers-eq :
      (qp : Bytes)
      → emit_buffers qp (wrap_position (s + 8) qsize) qsize p
        ≡ some (with_buffers qp s p, wrap_position (s + 8 + p.num_buffers * 24) qsize)
  unfolding emit_buffers
  emit_buffers-eq qp =
      ground
        (arith, write_data-eq qp (s + 8) qsize (buffer_bytes (buffers_at p)) (p.num_buffers * 24))

  emit_message-eq :
      (qp : Bytes)
      → emit_message qp (wrap_position (s + 8 + p.num_buffers * 24) qsize) qsize p
        ≡ some (with_message qp s p, wrap_position (s + span8 (body_length p)) qsize)
  unfolding emit_message
  emit_message-eq qp =
      ground
        (arith, write_data-eq qp (s + 8 + p.num_buffers * 24) qsize (message_at p) p.message_length)

  emit_header-eq :
      (qp : Bytes) (w : ℕ) (wrap : Bool) (phdr : ℕ)
      → w < qsize
      → s ≡ packet_start w wrap
      → emit_header qp w qsize wrap phdr ≡ (with_header qp w wrap phdr, wrap_position (s + 8) qsize)
  unfolding emit_header write_64
  emit_header-eq qp w true phdr hw e = ground arith
  emit_header-eq qp w false phdr hw e = ground arith

module _ {pq : PacketQueue} (p : Packet) {w : ℕ} {wrap : Bool} (v : IsAligned pq)
    (hb : p.num_buffers ≤ 64) (hm : p.message_length ≤ 65536) (hr : HasRoom pq p w wrap) where
  -- The packet lies between aligned positions inside the queue.
  pub packet_start-fits :
      (packet_start w wrap % 8 ≡ 0)
      × (packet_start w wrap + span8 (body_length p) ≤ pq.queue_length)
      × (w + 8 ≤ pq.queue_length)
  unfolding used
  packet_start-fits = ground arith

  -- No assertion fails, and the position that is published is the one behind the packet.
  pub emit-eq :
      (seq_no : ℕ)
      → emit pq w wrap seq_no p
        ≡ some (
          packet_bytes pq.bytes w wrap (packet_header p seq_no) p,
          wrap_position (packet_start w wrap + span8 (body_length p)) pq.queue_length,
        )
  unfolding emit packet_bytes
  emit-eq seq_no =
      let s = packet_start w wrap in
      let phdr = packet_header p seq_no in
      let qp1 = with_header pq.bytes w wrap phdr in
      rw (
        emit,
        emit_header-eq pq.queue_length s p packet_start-fits.0 v.length_high packet_start-fits.1 hb
            hm pq.bytes w wrap phdr (omega (arith, packet_start-fits)) refl,
        emit_buffers-eq pq.queue_length s p packet_start-fits.0 v.length_high packet_start-fits.1 hb
            hm qp1,
        emit_message-eq pq.queue_length s p packet_start-fits.0 v.length_high packet_start-fits.1 hb
            hm (with_buffers qp1 s p),
      )
