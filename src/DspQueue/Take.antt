-- ===== src/DspQueue/Take.antt =====
-- What `dspqueue_read_noblock` takes out of the queue memory for a packet that stands there.
use fastrpc.Common.{
  ℕ, ◌+◌, ◌-◌, ◌*◌, ◌/◌, ◌%◌, ◌^◌, ◌≤◌, ◌<◌, ◌≡◌, ap, ◌∙◌, ◌&&◌, none, some, arith, ltb,
  if◌then◌else◌, u32_mod, Bytes, at, from_le, le_byte, from_le-congr, from_le-le_byte,
}
use fastrpc.DspQueue.State.{Buffer, buffer_size}
use fastrpc.DspQueue.Header.{Peeked}
use fastrpc.DspQueue.Transfer.{
  read_data, wrap_position, buffers_of, buffer_of, buffer_byte, buffer_bytes,
}
use fastrpc.DspQueue.Read.{Room, Body, take_body}
use fastrpc.DspQueue.Emit.{span8}

-- The fields of a buffer are machine words.
pub record IsBuffer (b : Buffer) : Type 0 where
  pub fd_low : b.fd < 2 ^ 32
  pub size_low : b.size < 2 ^ 32
  pub offset_low : b.offset < 2 ^ 32
  pub flags_low : b.flags < 2 ^ 32
  pub address_low : b.address < 2 ^ 64

-- A word is read back from its bytes.
word_at :
    (n pos x : ℕ) (m : Bytes)
    → x < 256 ^ n
    → ((i : ℕ) → i < n → m (pos + i) ≡ le_byte x i)
    → from_le n (at m pos) ≡ x
word_at n pos x m hx e = from_le-congr n (at m pos) (le_byte x) e ∙ from_le-le_byte n x hx

module _ (b : Buffer) (i : ℕ) where
  byte_fd : i < 4 → buffer_byte b i ≡ le_byte b.fd i
  unfolding buffer_byte
  byte_fd h = ground arith

  byte_size : i < 4 → buffer_byte b (4 + i) ≡ le_byte b.size i
  unfolding buffer_byte
  byte_size h = let e : 4 + i - 4 ≡ i = omega arith in ground (arith, ap (le_byte b.size) e)

  byte_offset : i < 4 → buffer_byte b (8 + i) ≡ le_byte b.offset i
  unfolding buffer_byte
  byte_offset h = let e : 8 + i - 8 ≡ i = omega arith in ground (arith, ap (le_byte b.offset) e)

  byte_flags : i < 4 → buffer_byte b (12 + i) ≡ le_byte b.flags i
  unfolding buffer_byte
  byte_flags h = let e : 12 + i - 12 ≡ i = omega arith in ground (arith, ap (le_byte b.flags) e)

  byte_address : i < 8 → buffer_byte b (16 + i) ≡ le_byte b.address i
  unfolding buffer_byte
  byte_address h = let e : 16 + i - 16 ≡ i = omega arith in ground (arith, ap (le_byte b.address) e)

-- A buffer is read back from its bytes.
pub buffer_of-byte :
    (b : Buffer) (m : Bytes)
    → IsBuffer b
    → ((i : ℕ) → i < 24 → m i ≡ buffer_byte b i)
    → buffer_of m ≡ b
unfolding buffer_of
buffer_of-byte b m v h =
    let fd = from_le-congr 4 m (le_byte b.fd) (λ i p. h i (omega arith) ∙ byte_fd b i p) in
    let fd' = fd ∙ from_le-le_byte 4 b.fd v.fd_low in
    let size = word_at 4 4 b.size m v.size_low (λ i p. h (4 + i) (omega arith) ∙ byte_size b i p) in
    let offset =
      word_at 4 8 b.offset m v.offset_low (λ i p. h (8 + i) (omega arith) ∙ byte_offset b i p) in
    let flags =
      word_at 4 12 b.flags m v.flags_low (λ i p. h (12 + i) (omega arith) ∙ byte_flags b i p) in
    let address =
      word_at 8 16 b.address m v.address_low
        (λ i p. h (16 + i) (omega arith) ∙ byte_address b i p) in
    λ k. record {
      fd = fd' k;
      size = size k;
      offset = offset k;
      flags = flags k;
      address = address k;
    }

-- An array of buffers is read back from its bytes.
pub buffers_of-bytes :
    (bs : ℕ → Buffer) (nb : ℕ) (m : Bytes)
    → ((i : ℕ) → i < nb → IsBuffer (bs i))
    → ((i : ℕ) → i < nb * 24 → m i ≡ buffer_bytes bs i)
    → (i : ℕ) → i < nb
    → buffers_of m i ≡ bs i
unfolding buffer_bytes
buffers_of-bytes bs nb m v h i hi = buffer_of-byte (bs i) (at m (i * 24)) (v i hi) λ k hk.
    let q : (i * 24 + k) / 24 ≡ i = omega arith in
    let r : (i * 24 + k) % 24 ≡ k = omega arith in
    h (i * 24 + k) (omega arith)
    ∙ ap (λ t. buffer_byte (bs t) ((i * 24 + k) % 24)) q
    ∙ ap (buffer_byte (bs i)) r

-- A read that stays inside the queue does what it is asked.
pub read_data-eq :
    (qp : Bytes) (pos qsize n : ℕ)
    → pos % 8 ≡ 0
    → 0 < n
    → pos + span8 n ≤ qsize
    → qsize < u32_mod
    → read_data qp pos qsize n ≡ some (at qp pos, wrap_position (pos + span8 n) qsize)
unfolding read_data
read_data-eq qp pos qsize n ha hn hq hs = ground arith

-- The body that the reader gets for a packet at `s`.
abbrev pub body_at : Bytes → ℕ → ℕ → Peeked → Room → Body
body_at qp qsize s p room = record {
  buffers =
      if ltb 0 p.num_buffers && room.want_buffers
      then buffers_of (at qp (s + 8))
      else buffers_of qp;
  message =
      if ltb 0 p.message_length && room.want_message
      then some (at qp (s + 8 + p.num_buffers * buffer_size))
      else none;
  position = wrap_position (s + span8 (8 + p.num_buffers * 24 + p.message_length)) qsize;
}

module _ (qp : Bytes) (qsize s : ℕ) (p : Peeked) (room : Room) (hs : s % 8 ≡ 0)
    (hq : qsize < u32_mod) (fits : s + span8 (8 + p.num_buffers * 24 + p.message_length) ≤ qsize)
    (hb : p.num_buffers ≤ 64) where
  pub take_body-eq : take_body qp (s + 8) qsize p room ≡ some (body_at qp qsize s p room)
  unfolding take_body
  take_body-eq = ground (
    arith,
    read_data-eq qp (s + 8) qsize (p.num_buffers * 24),
    read_data-eq qp (s + 8 + p.num_buffers * 24) qsize p.message_length,
  )
