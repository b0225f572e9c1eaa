-- ===== src/ListenerBuf/Tests.antt =====
-- The properties of inc/listener_buf.h at concrete inputs.
use fastrpc.Common.{
  ◌+◌, ◌-◌, ◌≤◌, ◌<◌, ◌≡◌, inl, inr, refl, some, List, [], ◌∷◌, get_elem?, Bytes, at, copy, le_byte,
  from_le, arith,
}
use fastrpc.ListenerBuf.Hazards.{unpack_in_bufs-stale, unpack_in_bufs-oversized}
use fastrpc.ListenerBuf.Layout.{offset_after, packed_end, place}
use fastrpc.ListenerBuf.Roundtrip.{Delivered, unpack_in_bufs-pack_in_bufs}
use fastrpc.ListenerBuf.Sizing.{IsMapped, map_out_bufs-IsMapped}
use fastrpc.ListenerBuf.{
  Arg, pack_one, pack_in_bufs, unpack_in_bufs, pack_out_bufs, out_bufs_len, map_out_bufs,
  pack_out_lens, unpack_out_lens, unpack_out_bufs,
}
use fastrpc.ScatterBuf.{ScatterBuf, sbuf_advance, sbuf_align, sbuf_read, sbuf_write}

abbrev mem : Bytes
mem i = i

abbrev buffer : ScatterBuf
buffer = record { buf = 1000; buf_end = 1064; start = 1000; cur = 1000 }

abbrev args : List Arg
args = record { len = 3; pv = 5 } ∷ record { len = 0; pv = 0 } ∷ record { len = 2; pv = 2000 } ∷ []

abbrev blank : List Arg
blank = record { len = 9; pv = 7 } ∷ record { len = 9; pv = 7 } ∷ record { len = 9; pv = 7 } ∷ []

ends : packed_end 0 args ≡ 26
unfolding packed_end offset_after
ends = refl

unpacked :
    (unpack_in_bufs buffer (pack_in_bufs buffer mem args).0 mem blank).1
    ≡ record { len = 3; pv = 1008 }
      ∷ record { len = 0; pv = 7 }
      ∷ record { len = 2; pv = 1024 }
      ∷ []
unfolding unpack_in_bufs pack_in_bufs pack_one sbuf_read sbuf_write sbuf_align copy le_byte from_le
unpacked = refl

sized : out_bufs_len mem args ≡ 26
unfolding out_bufs_len pack_out_bufs sbuf_advance sbuf_align sbuf_write
sized = refl

fits : buffer.start + packed_end (buffer.cur - buffer.start) args ≤ buffer.buf_end
unfolding packed_end offset_after
fits = omega arith

unpack_in_bufs-pack_in_bufs_example :
    let packed = pack_in_bufs buffer mem args in
    let unpacked = unpack_in_bufs buffer (packed.0) mem blank in
    (unpacked.0 ≡ packed.1) × Delivered mem args (packed.0) (unpacked.1)
unpack_in_bufs-pack_in_bufs_example =
    unpack_in_bufs-pack_in_bufs args blank buffer mem mem refl (omega arith) (omega arith)
      (λ i h. inl (omega arith), (λ i h. inl (omega arith), (λ i h. inr (omega arith), tt))) fits

map_out_bufs-IsMapped_example : IsMapped 1032 1000 args (map_out_bufs 1000 32 mem args).2
map_out_bufs-IsMapped_example =
    map_out_bufs-IsMapped 1000 32 mem mem args (omega arith) (rw ends (omega arith))
      (rw sized (omega arith)) (omega arith) (omega arith)

-- A length word of 100 in a buffer of 64 bytes.
abbrev short_of_bytes : Bytes
short_of_bytes = copy mem 1000 (le_byte 100) 4

word_100 : from_le 4 (at short_of_bytes 1000) ≡ 100
unfolding copy le_byte from_le
word_100 = refl

unpack_in_bufs-stale_example :
    get_elem? (unpack_in_bufs buffer short_of_bytes mem blank).1 0
    ≡ some (record { len = from_le 4 (at short_of_bytes 1000); pv = 7 })
unpack_in_bufs-stale_example =
    unpack_in_bufs-stale short_of_bytes mem (record { len = 9; pv = 7 })
      (record { len = 9; pv = 7 } ∷ record { len = 9; pv = 7 } ∷ []) (omega arith) (omega arith)
      (rw word_100 (omega arith)) (rw word_100 (omega arith))

-- A length word with all bits set.
abbrev all_ones : Bytes
all_ones i = 255

word_all_ones : from_le 4 (at all_ones 1000) ≡ 4294967295
unfolding from_le
word_all_ones = refl

unpack_in_bufs-oversized_example :
    (get_elem? (unpack_in_bufs buffer all_ones mem blank).1 0
      ≡ some (record { len = from_le 4 (at all_ones 1000); pv = place buffer }))
    × (1064 < place buffer + from_le 4 (at all_ones 1000))
unpack_in_bufs-oversized_example =
    unpack_in_bufs-oversized {b = buffer} all_ones mem (record { len = 9; pv = 7 })
      (record { len = 9; pv = 7 } ∷ record { len = 9; pv = 7 } ∷ []) (omega arith) (omega arith)
      (rw word_all_ones (omega arith))

-- The lengths alone, and the way back.
lens :
    (unpack_out_lens buffer (pack_out_lens buffer mem args).0 mem blank).1
    ≡ record { len = 3; pv = 7 } ∷ record { len = 0; pv = 7 } ∷ record { len = 2; pv = 7 } ∷ []
unfolding unpack_out_lens pack_out_lens sbuf_read sbuf_write copy le_byte from_le
lens = refl

abbrev outs : List Arg
outs = record { len = 3; pv = 500 } ∷ record { len = 0; pv = 0 } ∷ record { len = 2; pv = 600 } ∷ []

copied_back :
    let r = unpack_out_bufs buffer (pack_in_bufs buffer mem args).0 mem outs in
    (r.0 ≡ 0) × (r.1 501 ≡ 6) × (r.1 601 ≡ 2001)
unfolding unpack_out_bufs pack_in_bufs pack_one sbuf_read sbuf_write sbuf_align copy le_byte from_le
copied_back = (refl, refl, refl)
