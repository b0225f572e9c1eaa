-- ===== src/ListenerBuf/Sizing.antt =====
-- The two passes of `listener` over the out buffers: the first sizes the memory, the second maps them.
use fastrpc.Common.{
  ℕ, ◌+◌, ◌-◌, ◌%◌, ◌^◌, ◌≤◌, ◌<◌, ◌≡◌, inl, inr, ◌∙◌, ap, subst, List, [], ◌∷◌, ◌==◌, Bool-cases,
  u32_mod, u64_mod, Bytes, le_byte, arith,
}
use fastrpc.ListenerBuf.Layout.{
  offset_after, packed_end, offset_after-ge, packed_end-ge, move_to-IsPlain, after, offset_of,
  place, map_buf-after,
}
use fastrpc.ListenerBuf.Packing.{AreShort, head-Packs, after-IsPlain, tail_fits}
use fastrpc.ListenerBuf.Roundtrip.{map_buf-Packs}
use fastrpc.ListenerBuf.{Arg, pack_out_bufs, out_bufs_len, map_out_bufs}
use fastrpc.ScatterBuf.Plain.{IsPlain, move_to, write_moves}
use fastrpc.ScatterBuf.{ScatterBuf, sbuf_init, sbuf_needed, sbuf_write}

-- A pass moves the position behind the layout, whether the bytes fit or not.
pub pack_out_bufs-packed_end :
    (args : List Arg) (b : ScatterBuf) (mem : Bytes)
    → IsPlain b
    → AreShort args
    → packed_end (b.cur - b.start) args < 2 ^ 31
    → (pack_out_bufs b mem args).1 ≡ move_to b (b.start + packed_end (b.cur - b.start) args)
unfolding pack_out_bufs packed_end
pack_out_bufs-packed_end [] b mem p s h = ap (move_to b) (omega (arith, p))
pack_out_bufs-packed_end (a ∷ args) b mem p s h =
    let small = packed_end-ge (offset_after (b.cur - b.start) a.len) args in
    let e : offset_of (after b a.len) ≡ offset_after (b.cur - b.start) a.len = omega arith in
    let q : IsPlain (after b a.len) =
      move_to-IsPlain (b.start + offset_after (offset_of b) a.len) p (omega arith) (omega arith) in
    rw
      (write_moves mem (le_byte (a.len % u32_mod)) 4 p
        (omega (arith, p, offset_after-ge (b.cur - b.start) a.len)))
      (rw (map_buf-after a p (omega arith)) (
        pack_out_bufs-packed_end args (after b a.len)
          (sbuf_write b mem (le_byte (a.len % u32_mod)) 4).0 q (s.1) (rw e h)
        ∙ ap (λ (o : ℕ). move_to b (b.start + packed_end o args)) e))

-- From `lo` to `hi` the arguments are mapped in order, without overlaps, and with room for a length
-- word before each; an empty one is left as it was.
pub data IsMapped (hi : ℕ) : ℕ → List Arg → List Arg → Type 0 where
  all_mapped : {lo : ℕ} → lo ≤ hi → IsMapped hi lo [] []
  empty_arg :
      {lo : ℕ} {args outs : List Arg} (a : Arg)
      → a.len ≡ 0
      → IsMapped hi (lo + 4) args outs
      → IsMapped hi lo (a ∷ args) (a ∷ outs)
  mapped_arg :
      {lo : ℕ} {args outs : List Arg} (a : Arg) (v : ℕ)
      → lo + 4 ≤ v
      → IsMapped hi (v + a.len) args outs
      → IsMapped hi lo (a ∷ args) (record a { pv = v } ∷ outs)

from_position :
    {hi lo lo' : ℕ} {args outs : List Arg}
    → lo ≡ lo'
    → IsMapped hi lo args outs
    → IsMapped hi lo' args outs
from_position {hi} {args} {outs} e m = subst (λ (c : ℕ). IsMapped hi c args outs) e m

pack_out_bufs-IsMapped :
    (args : List Arg) (b : ScatterBuf) (mem : Bytes)
    → IsPlain b
    → AreShort args
    → b.start + packed_end (b.cur - b.start) args ≤ b.buf_end
    → IsMapped b.buf_end b.cur args (pack_out_bufs b mem args).2
unfolding pack_out_bufs
pack_out_bufs-IsMapped [] b mem p s h =
    all_mapped {lo = b.cur} (unfold packed_end in omega (arith, p))
pack_out_bufs-IsMapped (a ∷ args) b mem p s h =
    let k = head-Packs a args p s h in
    let rest =
      pack_out_bufs-IsMapped args (after b a.len) (sbuf_write b mem (le_byte (a.len % u32_mod)) 4).0
        (after-IsPlain k) (s.1) (tail_fits b a args h) in
    rw
      (write_moves mem (le_byte (a.len % u32_mod)) 4 p
        (omega (arith, p, k, offset_after-ge (b.cur - b.start) a.len)))
      (rw (map_buf-Packs {a = a} a.pv k) (elim (Bool-cases (a.len == 0)) [
        | inl z ↦ rw z (
            empty_arg {lo = b.cur} a (ground arith)
              (from_position {lo = (after b a.len).cur} (unfold offset_after in ground arith) rest))
        | inr n ↦ rw n (
            mapped_arg {lo = b.cur} a (place b) (omega (arith, p))
              (from_position {lo = (after b a.len).cur} (unfold offset_after in ground arith) rest))
      ]))

null-IsPlain : IsPlain (sbuf_init 0 0 0)
unfolding sbuf_init
null-IsPlain = omega arith

-- The first pass finds the length of the layout.
out_bufs_len-packed_end :
    (mem : Bytes) (outs : List Arg)
    → AreShort outs
    → packed_end 0 outs < 2 ^ 31
    → out_bufs_len mem outs ≡ packed_end 0 outs
unfolding out_bufs_len
out_bufs_len-packed_end mem outs s h =
    rw (pack_out_bufs-packed_end outs (sbuf_init 0 0 0) mem null-IsPlain s (unfold sbuf_init in h))
      (unfold sbuf_needed sbuf_init in omega arith)

-- The buffer over `len` bytes at `addr`.
abbrev over : ℕ → ℕ → ScatterBuf
over addr len = record { buf = addr; buf_end = addr + len; start = addr; cur = addr }

-- With short out buffers, less than 2 GiB in all, the second pass over memory of at least the length
-- that the first pass found maps every nonempty out buffer into that memory, in order and without
-- overlaps, and leaves its length as it is.
pub map_out_bufs-IsMapped :
    (addr len : ℕ) (mem mem' : Bytes) (outs : List Arg)
    → AreShort outs
    → packed_end 0 outs < 2 ^ 31
    → out_bufs_len mem outs ≤ len
    → len < 2 ^ 31
    → addr + 2 ^ 32 ≤ u64_mod
    → IsMapped (addr + len) addr outs (map_out_bufs addr len mem' outs).2
unfolding map_out_bufs
map_out_bufs-IsMapped addr len mem mem' outs s h enough small low =
    let e : sbuf_init 0 addr len ≡ over addr len = unfold sbuf_init in ground arith in
    let none_before : addr - addr ≡ 0 = omega arith in
    let long : packed_end 0 outs ≤ len =
      omega (arith, enough, out_bufs_len-packed_end mem outs s h) in
    rw e (
      pack_out_bufs-IsMapped outs (over addr len) mem' (omega arith) s
        (rw none_before (omega arith)))
