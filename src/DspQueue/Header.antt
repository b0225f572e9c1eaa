-- ===== src/DspQueue/Header.antt =====
-- The 64-bit packet header: how `dspqueue_write_noblock` packs it and `peek_locked` parses it.
use fastrpc.Common.{
  ℕ, ◌+◌, ◌-◌, ◌*◌, ◌/◌, ◌%◌, ◌^◌, ◌<◌, ◌≡◌, Option, none, some, arith, leb, ltb, if◌then◌else◌,
  has_bit, Bytes, at, from_le,
}
use fastrpc.DspQueue.State.{flag_buffers, flag_message, buffer_size}

-- `phdr` of dspqueue_write_noblock. The fields do not overlap, so the `|` of the source is a sum.
unfoldable pub pack_header : ℕ → ℕ → ℕ → ℕ → ℕ
pack_header len flags num_buffers seq_no =
    len % 2 ^ 32 + flags % 2 ^ 16 * 2 ^ 32 + num_buffers % 2 ^ 8 * 2 ^ 48 + seq_no % 2 ^ 8 * 2 ^ 56

-- What `peek_locked` hands back.
pub record Peeked : Type 0 where
  pub flags : ℕ
  pub num_buffers : ℕ
  pub message_length : ℕ

-- The number of buffers that the header word `d` with flags `f` announces.
abbrev pub header_buffers : ℕ → ℕ → ℕ
header_buffers d f = if has_bit f flag_buffers then d / 2 ^ 48 % 2 ^ 8 else 0

-- The length that is left for the message.
abbrev pub header_message : ℕ → ℕ → ℕ → ℕ
header_message len f nb = if has_bit f flag_message then len - 8 - nb * buffer_size else 0

-- `peek_locked` on the header word; `none` is AEE_EBADITEM.
unfoldable pub parse_header : ℕ → Option Peeked
parse_header d =
    let len = d % 2 ^ 32 in
    let f = d / 2 ^ 32 % 2 ^ 16 in
    let nb = header_buffers d f in
    if leb (8 + nb * buffer_size) len
    then some (record { flags = f; num_buffers = nb; message_length = header_message len f nb })
    else none

-- `peek_locked` at position `r` of the queue memory.
unfoldable pub peek_locked : Bytes → ℕ → Option Peeked
peek_locked qp r = parse_header (from_le 8 (at qp r))

module _ (len f nb seq : ℕ) (hl : len < 2 ^ 32) (hf : f < 2 ^ 16) (hb : nb < 2 ^ 8) where
  -- The fields of a packed header.
  pub pack_header_fields :
      (pack_header len f nb seq % 2 ^ 32 ≡ len)
      × (pack_header len f nb seq / 2 ^ 32 % 2 ^ 16 ≡ f)
      × (pack_header len f nb seq / 2 ^ 48 % 2 ^ 8 ≡ nb)
      × (pack_header len f nb seq / 2 ^ 56 ≡ seq % 2 ^ 8)
  unfolding pack_header
  pack_header_fields = omega arith

  pub pack_header-lt : pack_header len f nb seq < 2 ^ 64
  unfolding pack_header
  pack_header-lt = omega arith

-- The flags that the writer stores for a packet with `nb` buffers and a message of `ml` bytes
-- agree with what the packet holds.
abbrev pub FlagsAgree : ℕ → ℕ → ℕ → Type 0
FlagsAgree f nb ml = (has_bit f flag_buffers ≡ ltb 0 nb) × (has_bit f flag_message ≡ ltb 0 ml)

-- A header that the writer packs is parsed back to its flags, buffer count and message length.
pub parse-pack_header :
    (f nb ml seq : ℕ)
    → f < 2 ^ 16
    → nb < 2 ^ 8
    → 8 + nb * 24 + ml < 2 ^ 32
    → FlagsAgree f nb ml
    → parse_header (pack_header (8 + nb * 24 + ml) f nb seq)
      ≡ some (record { flags = f; num_buffers = nb; message_length = ml })
unfolding parse_header
parse-pack_header f nb ml seq hf hb hl (ab, am) =
    ground (arith, pack_header_fields (8 + nb * 24 + ml) f nb seq hl hf hb)
