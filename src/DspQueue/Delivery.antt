-- ===== src/DspQueue/Delivery.antt =====
-- The packet that a write leaves in the queue memory, and what it leaves alone.
use fastrpc.Common.{
  ℕ, ◌+◌, ◌*◌, ◌%◌, ◌^◌, ◌≤◌, ◌<◌, ◌≡◌, refl, ap, ◌∙◌, Bool, true, false, some, ◌⊎◌, inl, inr,
  arith, Bytes, at, has_bit, set_bit, from_le-congr, from_le-le_byte, copy, copy-inside,
  copy-outside, le_byte,
}
use fastrpc.DspQueue.State.{PacketQueue, flag_user_ready, flag_wakeup}
use fastrpc.DspQueue.Header.{
  peek_locked, parse_header, pack_header, pack_header-lt, FlagsAgree, parse-pack_header,
}
use fastrpc.DspQueue.Position.{IsAligned, used}
use fastrpc.DspQueue.Transfer.{buffer_bytes}
use fastrpc.DspQueue.Write.{
  Packet, buffers_at, message_at, packet_header, packet_length, prepare_flags,
}
use fastrpc.DspQueue.Emit.{
  body_length, packet_bytes, packet_start, with_header, with_buffers, with_message, HasRoom,
}
use fastrpc.DspQueue.Contents.{Item, Stored, InUse, is_moved}

-- The flags that go into the header: 16 bits.
abbrev pub sent_flags : Packet → ℕ
sent_flags p = set_bit (prepare_flags p) flag_user_ready % 2 ^ 16

-- The packet as the other side is to see it.
abbrev pub item_of : Packet → Item
item_of p = record {
  flags = sent_flags p;
  num_buffers = p.num_buffers;
  buffers = buffers_at p;
  message_length = p.message_length;
  message = message_at p;
}

-- Setting or clearing the flags for buffers, messages and readiness keeps the other bits.
pub sent_flags_bits :
    (p : Packet)
    → FlagsAgree (sent_flags p) p.num_buffers p.message_length
      × (has_bit (sent_flags p) flag_user_ready ≡ true)
      × (has_bit (sent_flags p) flag_wakeup ≡ has_bit p.flags flag_wakeup)
unfolding prepare_flags
sent_flags_bits p = (ground arith, ground arith, ground arith)

with_message-inside :
    (mem : Bytes) (s : ℕ) (p : Packet) (i : ℕ)
    → i < p.message_length
    → with_message mem s p (s + 8 + p.num_buffers * 24 + i) ≡ message_at p i
with_message-inside mem s p i h =
    ground (arith, copy-inside mem (s + 8 + p.num_buffers * 24) (message_at p) p.message_length i)

with_message-outside :
    (mem : Bytes) (s : ℕ) (p : Packet) (i : ℕ)
    → (i < s + 8 + p.num_buffers * 24) ⊎ (s + body_length p ≤ i)
    → with_message mem s p i ≡ mem i
with_message-outside mem s p i h =
    ground (arith, copy-outside mem (s + 8 + p.num_buffers * 24) (message_at p) p.message_length i)

with_buffers-inside :
    (mem : Bytes) (s : ℕ) (p : Packet) (i : ℕ)
    → i < p.num_buffers * 24
    → with_buffers mem s p (s + 8 + i) ≡ buffer_bytes (buffers_at p) i
with_buffers-inside mem s p i h =
    ground (arith, copy-inside mem (s + 8) (buffer_bytes (buffers_at p)) (p.num_buffers * 24) i)

with_buffers-outside :
    (mem : Bytes) (s : ℕ) (p : Packet) (i : ℕ)
    → (i < s + 8) ⊎ (s + 8 + p.num_buffers * 24 ≤ i)
    → with_buffers mem s p i ≡ mem i
with_buffers-outside mem s p i h =
    ground (arith, copy-outside mem (s + 8) (buffer_bytes (buffers_at p)) (p.num_buffers * 24) i)

with_header-inside :
    (mem : Bytes) (w : ℕ) (wrap : Bool) (phdr i : ℕ)
    → i < 8
    → (wrap ≡ true → 8 ≤ w)
    → with_header mem w wrap phdr (w + i) ≡ le_byte phdr i
with_header-inside mem w true phdr i h far =
    copy-outside (copy mem w (le_byte phdr) 8) 0 (le_byte phdr) 8 (w + i)
      (inr (omega (arith, far refl)))
    ∙ copy-inside mem w (le_byte phdr) 8 i h
with_header-inside mem w false phdr i h far = copy-inside mem w (le_byte phdr) 8 i h

with_header-outside :
    (mem : Bytes) (w : ℕ) (wrap : Bool) (phdr i : ℕ)
    → (i < w) ⊎ (w + 8 ≤ i)
    → (wrap ≡ true → 8 ≤ i)
    → with_header mem w wrap phdr i ≡ mem i
with_header-outside mem w true phdr i h far =
    copy-outside (copy mem w (le_byte phdr) 8) 0 (le_byte phdr) 8 i (inr (omega (arith, far refl)))
    ∙ copy-outside mem w (le_byte phdr) 8 i h
with_header-outside mem w false phdr i h far = copy-outside mem w (le_byte phdr) 8 i h

-- Only the low 16 bits of the flags reach the header.
pack_header-low :
    (len f nb seq : ℕ) → pack_header len f nb seq ≡ pack_header len (f % 2 ^ 16) nb seq
unfolding pack_header
pack_header-low len f nb seq = omega arith

module _ {pq : PacketQueue} (p : Packet) {w : ℕ} {wrap : Bool} (v : IsAligned pq)
    (hb : p.num_buffers ≤ 64) (hm : p.message_length ≤ 65536) (hr : HasRoom pq p w wrap) where
  -- The reader decides as the writer did whether the packet was moved.
  pub is_moved-eq : is_moved pq.queue_length w (item_of p) ≡ wrap
  is_moved-eq = ground arith

  -- A packet that is moved to the start leaves the header at its end alone.
  far_end : wrap ≡ true → body_length p + 8 ≤ w
  unfolding used
  far_end e = ground arith

  module _ (mem : Bytes) (phdr : ℕ) where
    -- The header at the old write position.
    bytes_header : (i : ℕ) → i < 8 → packet_bytes mem w wrap phdr p (w + i) ≡ le_byte phdr i
    unfolding packet_bytes
    bytes_header i h =
        let s = packet_start w wrap in
        let m = with_header mem w wrap phdr in
        with_message-outside (with_buffers m s p) s p (w + i) (ground (arith, far_end))
        ∙ with_buffers-outside m s p (w + i) (ground (arith, far_end))
        ∙ with_header-inside mem w wrap phdr i h (λ e. omega (arith, far_end e))

    bytes_buffers :
        (i : ℕ)
        → i < p.num_buffers * 24
        → packet_bytes mem w wrap phdr p (packet_start w wrap + 8 + i)
          ≡ buffer_bytes (buffers_at p) i
    unfolding packet_bytes
    bytes_buffers i h =
        let s = packet_start w wrap in
        let m = with_header mem w wrap phdr in
        with_message-outside (with_buffers m s p) s p (s + 8 + i) (inl (omega arith))
        ∙ with_buffers-inside m s p i h

    bytes_message :
        (i : ℕ)
        → i < p.message_length
        → packet_bytes mem w wrap phdr p (packet_start w wrap + 8 + p.num_buffers * 24 + i)
          ≡ message_at p i
    unfolding packet_bytes
    bytes_message i h =
        with_message-inside (with_buffers (with_header mem w wrap phdr) (packet_start w wrap) p)
          (packet_start w wrap) p i h

    -- Bytes in use, and bytes outside the queue, stay as they are.
    pub bytes_kept :
        (i : ℕ)
        → InUse pq.queue_length pq.read_position (used pq) i ⊎ (pq.queue_length ≤ i)
        → packet_bytes mem w wrap phdr p i ≡ mem i
    unfolding packet_bytes used
    bytes_kept i u =
        let s = packet_start w wrap in
        let m = with_header mem w wrap phdr in
        with_message-outside (with_buffers m s p) s p i (ground arith)
        ∙ with_buffers-outside m s p i (ground arith)
        ∙ with_header-outside mem w wrap phdr i (ground arith) (λ e. ground arith)

  -- The header word, over the flags as they are sent.
  header_word :
      (seq_no : ℕ)
      → packet_header p seq_no ≡ pack_header (body_length p) (sent_flags p) p.num_buffers seq_no
  header_word seq_no =
      pack_header-low (packet_length p) (set_bit (prepare_flags p) flag_user_ready) p.num_buffers
        seq_no
      ∙ ap (λ k. pack_header k (sent_flags p) p.num_buffers seq_no) (omega arith)

  parsed_header :
      (seq_no : ℕ)
      → parse_header (packet_header p seq_no)
        ≡ some (record {
          flags = sent_flags p;
          num_buffers = p.num_buffers;
          message_length = p.message_length;
        })
  parsed_header seq_no = rw (header_word seq_no) (
      parse-pack_header (sent_flags p) p.num_buffers p.message_length seq_no (omega arith)
        (omega arith) (omega arith) (sent_flags_bits p).0)

  header_word-lt : (seq_no : ℕ) → packet_header p seq_no < 256 ^ 8
  header_word-lt seq_no = rw (header_word seq_no) (
      pack_header-lt (body_length p) (sent_flags p) p.num_buffers seq_no (omega arith) (omega arith)
        (omega arith))

  -- The packet stands at the old write position, with the header that it was given.
  pub packet-Stored :
      (mem : Bytes) (seq_no : ℕ)
      → Stored (packet_bytes mem w wrap (packet_header p seq_no) p) pq.queue_length w (item_of p)
  unfolding peek_locked
  packet-Stored mem seq_no =
      let phdr = packet_header p seq_no in
      let mem' = packet_bytes mem w wrap phdr p in
      record {
        header =
            ap parse_header (
              from_le-congr 8 (at mem' w) (le_byte phdr) (bytes_header mem phdr)
              ∙ from_le-le_byte 8 phdr (header_word-lt seq_no))
            ∙ parsed_header seq_no;
        buffers_at = λ i h. rw is_moved-eq (bytes_buffers mem phdr i h);
        message_at = λ i h. rw is_moved-eq (bytes_message mem phdr i h);
        ready = (sent_flags_bits p).1;
        buffers_le = hb;
        message_le = hm;
      }
