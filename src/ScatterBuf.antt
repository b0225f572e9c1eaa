-- ===== src/ScatterBuf.antt =====
-- inc/sbuf.h: a buffer that is sized in a first pass and filled in a second, and read the same way.
-- An `int` is the pattern of its 32 bits; addresses are words of 64 bits.
pub mod Plain
pub mod Parser
use fastrpc.Common.{
  ℕ, ◌+◌, ◌-◌, ◌*◌, ◌/◌, ◌%◌, ◌^◌, Bool, ◌&&◌, ltb, leb, if◌then◌else◌, u32_mod, u64_mod, sext32,
  leb_i32, min_i32, align8, Bytes, copy, at,
}

-- `struct sbuf`: `buf`, `bufEnd`, `bufStart` and `bufCur`.
pub record ScatterBuf : Type 0 where
  pub buf : ℕ
  pub buf_end : ℕ
  pub start : ℕ
  pub cur : ℕ

-- `sbuf_init`
unfoldable pub sbuf_init : ℕ → ℕ → ℕ → ScatterBuf
sbuf_init offset addr len =
    let start = (addr + u64_mod - sext32 offset) % u64_mod in
    record { buf = addr; buf_end = (addr + sext32 len) % u64_mod; start = start; cur = start }

-- `sbuf_advance`
unfoldable pub sbuf_advance : ScatterBuf → ℕ → ScatterBuf
sbuf_advance b len = record b { cur = (b.cur + sext32 len) % u64_mod }

-- `sbuf_needed`
unfoldable pub sbuf_needed : ScatterBuf → ℕ
sbuf_needed b = (b.cur + u64_mod - b.start) % u64_mod % u32_mod

-- `sbuf_left`, which keeps the low bits of the difference also where it overflows.
unfoldable pub sbuf_left : ScatterBuf → ℕ
sbuf_left b = (b.buf_end + u64_mod - b.cur) % u64_mod % u32_mod

-- `sbuf_valid`
unfoldable pub sbuf_valid : ScatterBuf → Bool
sbuf_valid b = leb b.buf b.cur && ltb b.cur b.buf_end

-- `sbuf_align` to 8, the only alignment in use.
unfoldable pub sbuf_align : ScatterBuf → ScatterBuf
unfolding sbuf_advance sbuf_needed
sbuf_align b = sbuf_advance b ((align8 (sbuf_needed b) + u32_mod - sbuf_needed b) % u32_mod)

-- The part of `sbuf_write` and `sbuf_read` that skips what lies before the valid memory: the buffer,
-- the length left, and how far the other pointer moves.
unfoldable pub skip : ScatterBuf → ℕ → ScatterBuf × ℕ × ℕ
unfolding sbuf_advance
skip b len =
    let gap = (b.buf - b.cur) % u32_mod in
    if ltb b.cur b.buf
    then (sbuf_advance b gap, (len + u32_mod - gap) % u32_mod, sext32 gap)
    else (b, len, 0)

abbrev pub is_positive : ℕ → Bool
is_positive n = ltb 0 n && ltb n (2 ^ 31)

-- `sbuf_write` from the bytes at `src`: the memory and the buffer.
unfoldable pub sbuf_write : ScatterBuf → Bytes → Bytes → ℕ → Bytes × ScatterBuf
unfolding sbuf_advance sbuf_left skip
sbuf_write b mem src len =
    let s = skip b len in
    let n = min_i32 (s.1) (sbuf_left (s.0)) in
    let room = (s.0.buf_end + u64_mod - s.0.cur) % u64_mod in
    let written = copy mem s.0.cur (at src (s.2)) (if ltb room n then room else n) in
    if ltb b.buf ((b.cur + sext32 len) % u64_mod)
    then (if is_positive n then written else mem, sbuf_advance (s.0) (s.1))
    else (mem, sbuf_advance b len)

-- `sbuf_read` into the memory `out` at `dst`: that memory and the buffer.
unfoldable pub sbuf_read : ScatterBuf → Bytes → Bytes → ℕ → ℕ → Bytes × ScatterBuf
unfolding sbuf_advance sbuf_left skip
sbuf_read b mem out dst len =
    let s = skip b len in
    let n = min_i32 (s.1) (sbuf_left (s.0)) in
    let got = copy out (dst + s.2) (at mem s.0.cur) n in
    if ltb b.buf ((b.cur + sext32 len) % u64_mod)
    then (if is_positive n then got else out, sbuf_advance (s.0) (s.1))
    else (out, sbuf_advance b len)
