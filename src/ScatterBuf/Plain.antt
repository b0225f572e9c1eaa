-- ===== src/ScatterBuf/Plain.antt =====
-- inc/sbuf.h on buffers without an offset and shorter than 2 GiB, where no length wraps.
use fastrpc.Common.{
  ℕ, ◌+◌, ◌-◌, ◌*◌, ◌/◌, ◌%◌, ◌^◌, ◌≤◌, ◌<◌, ◌≡◌, refl, true, false, ap, fun_ext, ltb, u64_mod,
  sext32, min_i32, Bytes, copy, at, arith,
}
use fastrpc.ScatterBuf.{
  ScatterBuf, sbuf_advance, sbuf_needed, sbuf_left, sbuf_align, skip, sbuf_write, sbuf_read,
  is_positive,
}

-- No offset, an end behind the start, and both the end and the position within 2 GiB of the start.
pub record IsPlain (b : ScatterBuf) : Type 0 where
  pub no_offset : b.buf ≡ b.start
  pub begun : b.start ≤ b.cur
  pub small : b.cur < b.start + 2 ^ 31
  pub end_behind : b.start ≤ b.buf_end
  pub end_small : b.buf_end < b.start + 2 ^ 31
  pub in_range : b.start + 2 ^ 32 ≤ u64_mod

abbrev pub move_to : ScatterBuf → ℕ → ScatterBuf
move_to b pos = record b { cur = pos }

-- The position of the next multiple of eight from the start.
abbrev pub aligned : ScatterBuf → ℕ
aligned b = b.start + (b.cur - b.start + 7) / 8 * 8

pub advance-IsPlain :
    {b : ScatterBuf} (len : ℕ)
    → IsPlain b
    → b.cur + len < b.start + 2 ^ 31
    → sbuf_advance b len ≡ move_to b (b.cur + len)
unfolding sbuf_advance
advance-IsPlain len p h = ground arith

pub needed-IsPlain : {b : ScatterBuf} → IsPlain b → sbuf_needed b ≡ b.cur - b.start
unfolding sbuf_needed
needed-IsPlain p = omega (arith, p)

pub align-IsPlain :
    {b : ScatterBuf}
    → IsPlain b
    → aligned b < b.start + 2 ^ 31
    → sbuf_align b ≡ move_to b (aligned b)
unfolding sbuf_align sbuf_advance
align-IsPlain {b} p h = rw (needed-IsPlain p) (ground arith)

pub skip-IsPlain : {b : ScatterBuf} (len : ℕ) → IsPlain b → skip b len ≡ (b, len, 0)
unfolding skip
skip-IsPlain len p = ground arith

pub left-IsPlain :
    {b : ScatterBuf} → IsPlain b → b.cur ≤ b.buf_end → sbuf_left b ≡ b.buf_end - b.cur
unfolding sbuf_left
left-IsPlain p h = omega (arith, p)

-- The tests of a write or read that fits.
pub record DoesFit (b : ScatterBuf) (len : ℕ) : Type 0 where
  pub reaches : ltb b.buf ((b.cur + sext32 len) % u64_mod) ≡ true
  pub whole : min_i32 len (b.buf_end - b.cur) ≡ len
  pub positive : is_positive len ≡ true
  pub roomy : ltb ((b.buf_end + u64_mod - b.cur) % u64_mod) len ≡ false

DoesFit-IsPlain :
    {b : ScatterBuf} (len : ℕ) → IsPlain b → 0 < len → b.cur + len ≤ b.buf_end → DoesFit b len
DoesFit-IsPlain len p pos h = record {
  reaches = ground arith;
  whole = ground arith;
  positive = ground arith;
  roomy = ground arith;
}

at_zero : (mem : Bytes) → at mem 0 ≡ mem
at_zero mem = fun_ext (λ i. ap mem (omega arith))

-- A write that fits.
pub write-IsPlain :
    {b : ScatterBuf} (mem src : Bytes) (len : ℕ)
    → IsPlain b
    → 0 < len
    → b.cur + len ≤ b.buf_end
    → sbuf_write b mem src len ≡ (copy mem b.cur src len, move_to b (b.cur + len))
unfolding sbuf_write
write-IsPlain {b} mem src len p pos h =
    let f = DoesFit-IsPlain len p pos h in
    rw (skip-IsPlain len p, left-IsPlain p (omega (arith, p)))
      (rw (advance-IsPlain len p (omega (arith, p)))
        (rw (f.reaches, f.whole, f.positive, f.roomy, at_zero src) refl))

-- The position moves by the length, also where the bytes do not fit.
pub write_moves :
    {b : ScatterBuf} (mem src : Bytes) (len : ℕ)
    → IsPlain b
    → b.cur + len < b.start + 2 ^ 31
    → (sbuf_write b mem src len).1 ≡ move_to b (b.cur + len)
unfolding sbuf_write
write_moves {b} mem src len p h =
    rw (skip-IsPlain len p) (rw (advance-IsPlain len p h) (ground arith))

-- A read that fits.
pub read-IsPlain :
    {b : ScatterBuf} (mem out : Bytes) (dst len : ℕ)
    → IsPlain b
    → 0 < len
    → b.cur + len ≤ b.buf_end
    → sbuf_read b mem out dst len ≡ (copy out dst (at mem b.cur) len, move_to b (b.cur + len))
unfolding sbuf_read
read-IsPlain {b} mem out dst len p pos h =
    let f = DoesFit-IsPlain len p pos h in
    let base : dst + 0 ≡ dst = omega arith in
    rw (skip-IsPlain len p, left-IsPlain p (omega (arith, p)))
      (rw (advance-IsPlain len p (omega (arith, p)))
        (rw (f.reaches, f.whole, f.positive, base) refl))
