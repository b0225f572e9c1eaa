-- ===== src/ListenerBuf.antt =====
-- inc/listener_buf.h: the arguments of a remote call as they are packed into one buffer and mapped
-- out of it again, and the part of `listener` in src/listener_android.c that unpacks and sizes.
pub mod Layout
pub mod Packing
pub mod Roundtrip
pub mod Sizing
pub mod Hazards
mod Tests
use fastrpc.Common.{
  ℕ, zero, suc, ◌+◌, ◌%◌, List, [], ◌∷◌, ◌==◌, if◌then◌else◌, u32_mod, leb_i32, Bytes, at, le_byte,
  from_le,
}
use fastrpc.Ioctl.{aee_eunknown}
use fastrpc.ScatterBuf.{
  ScatterBuf, sbuf_init, sbuf_advance, sbuf_needed, sbuf_left, sbuf_align, sbuf_write, sbuf_read,
}

-- `remote_arg` as a buffer: `buf.nLen` and `buf.pv`.
pub record Arg : Type 0 where
  pub len : ℕ
  pub pv : ℕ

-- One round of `pack_in_bufs`.
unfoldable pub pack_one : ScatterBuf → Bytes → Arg → Bytes × ScatterBuf
pack_one b mem a =
    let len = a.len % u32_mod in
    let w = sbuf_write b mem (le_byte len) 4 in
    let v = sbuf_write (sbuf_align (w.1)) (w.0) (at (w.0) a.pv) len in if len == 0 then w else v

-- `pack_in_bufs`: the memory and the buffer.
unfoldable pub pack_in_bufs : ScatterBuf → Bytes → List Arg → Bytes × ScatterBuf
pack_in_bufs b mem [] = (mem, b)
pack_in_bufs b mem (a ∷ args) = let r = pack_one b mem a in pack_in_bufs (r.1) (r.0) args

-- `pack_out_lens`
unfoldable pub pack_out_lens : ScatterBuf → Bytes → List Arg → Bytes × ScatterBuf
pack_out_lens b mem [] = (mem, b)
pack_out_lens b mem (a ∷ args) =
    let w = sbuf_write b mem (le_byte (a.len % u32_mod)) 4 in pack_out_lens (w.1) (w.0) args

-- The branch for a nonempty buffer that `unpack_in_bufs` and `pack_out_bufs` share: the place is kept
-- where the buffer is in what is left, and skipped.
unfoldable pub map_buf : ScatterBuf → Arg → ScatterBuf × Arg
map_buf b a =
    let al = sbuf_align b in
    if a.len == 0 then (b, a) else (
      sbuf_advance al a.len,
      if leb_i32 (a.len % u32_mod) (sbuf_left al) then record a { pv = al.cur } else a,
    )

abbrev pub cons_arg : Arg → ScatterBuf × List Arg → ScatterBuf × List Arg
cons_arg a r = (r.0, a ∷ r.1)

-- `unpack_in_bufs`; `word` is the variable `len`, which a read that fails leaves as it was.
unfoldable pub unpack_in_bufs : ScatterBuf → Bytes → Bytes → List Arg → ScatterBuf × List Arg
unfolding map_buf
unpack_in_bufs b mem word [] = (b, [])
unpack_in_bufs b mem word (a ∷ args) =
    let r = sbuf_read b mem word 0 4 in
    let m = map_buf (r.1) (record a { len = from_le 4 (r.0) }) in
    cons_arg (m.1) (unpack_in_bufs (m.0) mem (r.0) args)

-- `unpack_out_lens`
unfoldable pub unpack_out_lens : ScatterBuf → Bytes → Bytes → List Arg → ScatterBuf × List Arg
unpack_out_lens b mem word [] = (b, [])
unpack_out_lens b mem word (a ∷ args) =
    let r = sbuf_read b mem word 0 4 in
    cons_arg (record a { len = from_le 4 (r.0) }) (unpack_out_lens (r.1) mem (r.0) args)

abbrev pub Packed : Type 0
Packed = Bytes × ScatterBuf × List Arg

abbrev pub cons_packed : Arg → Packed → Packed
cons_packed a r = (r.0, r.1, a ∷ r.2)

-- `pack_out_bufs`: the memory, the buffer and the arguments.
unfoldable pub pack_out_bufs : ScatterBuf → Bytes → List Arg → Packed
unfolding map_buf
pack_out_bufs b mem [] = (mem, b, [])
pack_out_bufs b mem (a ∷ args) =
    let w = sbuf_write b mem (le_byte (a.len % u32_mod)) 4 in
    let m = map_buf (w.1) a in cons_packed (m.1) (pack_out_bufs (m.0) (w.0) args)

-- `unpack_out_bufs`: the code, the memory and the buffer.
unfoldable pub unpack_out_bufs : ScatterBuf → Bytes → Bytes → List Arg → ℕ × Bytes × ScatterBuf
unpack_out_bufs b mem word [] = (0, mem, b)
unpack_out_bufs b mem word (a ∷ args) =
    let r = sbuf_read b mem word 0 4 in
    let al = sbuf_align (r.1) in
    let v = sbuf_read al mem mem a.pv a.len in
    let next : Bytes × ScatterBuf = if a.len == 0 then (mem, r.1) else v in
    let rest = unpack_out_bufs (next.1) (next.0) (r.0) args in
    if from_le 4 (r.0) == a.len then rest else (aee_eunknown, mem, r.1)

-- The first pass of `listener` over the out buffers, and `outBufsLen`.
unfoldable pub out_bufs_len : Bytes → List Arg → ℕ
unfolding sbuf_init sbuf_needed
out_bufs_len mem outs = sbuf_needed (pack_out_bufs (sbuf_init 0 0 0) mem outs).1

-- The second pass, over `len` bytes at `addr`.
unfoldable pub map_out_bufs : ℕ → ℕ → Bytes → List Arg → Packed
unfolding sbuf_init
map_out_bufs addr len mem outs = pack_out_bufs (sbuf_init 0 addr len) mem outs
