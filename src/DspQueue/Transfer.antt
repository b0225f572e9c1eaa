-- ===== src/DspQueue/Transfer.antt =====
-- Moving bytes between the caller and the queue memory: `write_64`, `write_data` and `read_data`,
-- and the byte layout of `struct dspqueue_buffer`.
use fastrpc.Common.{
  ℕ, ◌-◌, ◌*◌, ◌/◌, ◌%◌, Bool, ◌&&◌, Option, none, some, leb, ltb, ◌==◌, if◌then◌else◌, sub_u32,
  add_u32, align8, Bytes, at, copy, le_byte, from_le,
}
use fastrpc.DspQueue.State.{Buffer, buffer_size}

-- The position after a transfer, back to the start at the queue's end.
abbrev pub wrap_position : ℕ → ℕ → ℕ
wrap_position pos queue_len = if leb queue_len pos then 0 else pos

-- `write_64`: the memory and the position after it.
unfoldable pub write_64 : Bytes → ℕ → ℕ → ℕ → Bytes × ℕ
write_64 qp write_pos queue_len word =
    (copy qp write_pos (le_byte word) 8, wrap_position (add_u32 write_pos 8) queue_len)

-- The assertions that `write_data` and `read_data` share.
abbrev pub transfer_ok : ℕ → ℕ → ℕ → Bool
transfer_ok pos queue_len n =
    (ltb 0 n && pos % 8 == 0)
    && (leb n (sub_u32 queue_len pos) && leb (add_u32 pos (align8 n)) queue_len)

-- `write_data`; `none` is a failed `assert`.
unfoldable pub write_data : Bytes → ℕ → ℕ → Bytes → ℕ → Option (Bytes × ℕ)
write_data qp write_pos queue_len src n =
    if transfer_ok write_pos queue_len n
    then some (copy qp write_pos src n, wrap_position (add_u32 write_pos (align8 n)) queue_len)
    else none

-- `read_data`: the bytes at the position, and the position after them.
unfoldable pub read_data : Bytes → ℕ → ℕ → ℕ → Option (Bytes × ℕ)
read_data qp read_pos queue_len n =
    if transfer_ok read_pos queue_len n
    then some (at qp read_pos, wrap_position (add_u32 read_pos (align8 n)) queue_len)
    else none

-- The bytes of one `struct dspqueue_buffer`.
unfoldable pub buffer_byte : Buffer → Bytes
buffer_byte b i =
    if ltb i 4
    then le_byte b.fd i
    else if ltb i 8
    then le_byte b.size (i - 4)
    else if ltb i 12
    then le_byte b.offset (i - 8)
    else if ltb i 16
    then le_byte b.flags (i - 12)
    else le_byte b.address (i - 16)

-- The bytes of an array of buffers.
unfoldable pub buffer_bytes : (ℕ → Buffer) → Bytes
buffer_bytes bs i = buffer_byte (bs (i / buffer_size)) (i % buffer_size)

-- The buffer that 24 bytes stand for.
unfoldable pub buffer_of : Bytes → Buffer
buffer_of m = record {
  fd = from_le 4 m;
  size = from_le 4 (at m 4);
  offset = from_le 4 (at m 8);
  flags = from_le 4 (at m 12);
  address = from_le 8 (at m 16);
}

-- The array of buffers that the memory stands for.
abbrev pub buffers_of : Bytes → ℕ → Buffer
buffers_of m i = buffer_of (at m (i * buffer_size))
