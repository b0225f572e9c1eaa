-- ===== src/BufBound.antt =====
-- src/BufBound.c, the bounded buffer that measures what does not fit. Pointers are offsets from `pcBuf`.
pub mod Stream
mod Tests
use fastrpc.Common.{
  ℕ, zero, suc, ◌+◌, ◌-◌, ◌*◌, ◌%◌, ◌^◌, ◌≤◌, ◌<◌, ◌≡◌, Bool, true, false, ◌&&◌, arith, leb, ltb,
  ◌==◌, if◌then◌else◌, Bytes, ℤ, pos, negsuc, u32_mod, min,
}

abbrev pub int_max : ℕ
int_max = 2 ^ 31 - 1

-- `BufBound`: `pcEnd - pcBuf`, `pcWrite - pcBuf`, and the memory from `pcBuf` on.
pub record BufBound : Type 0 where
  pub buf_end : ℕ
  pub position : ℕ
  pub bytes : Bytes

-- `mem[i] = c`
abbrev pub store : Bytes → ℕ → ℕ → Bytes
store mem i c j = if j == i then c else mem j

-- `BufBound_ValidateWrite`: the number of bytes to write, and the advance of the position. The
-- differences of pointers that can be negative are compared as sums, and count as zero where the code
-- sets them to zero; `PCSAT - pcWrite` is not negative, since the position stays within INT_MAX.
unfoldable pub validate_write : BufBound → ℕ → ℕ × ℕ
validate_write me len =
    if ltb me.buf_end (me.position + len)
    then (
      me.buf_end - me.position,
      if ltb (int_max - me.position) len then int_max - me.position else len,
    )
    else (len, len)

-- `while (--nLen >= 0) { pcDest[nLen] = pc[nLen]; }`
unfoldable pub copy_down : Bytes → ℕ → Bytes → ℕ → Bytes
copy_down mem dest pc zero = mem
copy_down mem dest pc (suc n) = copy_down (store mem (dest + n) (pc n)) dest pc n

-- The write of `len` bytes, where `len` is positive.
unfoldable pub write_bytes : BufBound → Bytes → ℕ → BufBound
unfolding validate_write
write_bytes me pc len =
    let (count, advance) = validate_write me len in
    record me { position = me.position + advance; bytes = copy_down me.bytes me.position pc count }

-- `BufBound_Write`
unfoldable pub write : BufBound → Bytes → ℤ → BufBound
unfolding write_bytes
write me pc (pos n) = if ltb 0 n then write_bytes me pc n else me
write me pc (negsuc n) = me

-- `BufBound_Putnc`
unfoldable pub putnc : BufBound → ℕ → ℤ → BufBound
unfolding write_bytes
putnc me c (pos n) = if ltb 0 n then write_bytes me (λ i. c) n else me
putnc me c (negsuc n) = me

-- `(uint32_t)((pcWrite - pcBuf) + nLen)`
abbrev pub offset_u32 : ℕ → ℤ → ℕ
offset_u32 p (pos n) = (p + n) % u32_mod
offset_u32 p (negsuc n) = (p + u32_mod - suc n) % u32_mod

abbrev pub is_negative : ℤ → Bool
is_negative (pos n) = false
is_negative (negsuc n) = true

-- `BufBound_Advance`
unfoldable pub advance : BufBound → ℤ → BufBound
advance me len =
    let offset = offset_u32 me.position len in
    record me {
      position = if ltb int_max offset then (if is_negative len then 0 else int_max) else offset;
    }

-- `BufBound_Init` over the memory at `pBuf`.
unfoldable pub init : Bytes → ℤ → BufBound
init mem (pos n) = record { buf_end = n; position = 0; bytes = mem }
init mem (negsuc n) = record { buf_end = 0; position = 0; bytes = mem }

-- `BufBound_Putc`
unfoldable pub putc : BufBound → ℕ → BufBound
putc me c =
    if ltb me.position me.buf_end
    then record me { position = me.position + 1; bytes = store me.bytes me.position c }
    else if me.position == int_max
    then me
    else record me { position = me.position + 1 }

-- `BufBound_ForceNullTerm`
unfoldable pub force_null_term : BufBound → BufBound
force_null_term me =
    if ltb me.position me.buf_end
    then record me { position = me.position + 1; bytes = store me.bytes me.position 0 }
    else record me {
      position = if me.position == int_max then me.position else me.position + 1;
      bytes = if me.buf_end == 0 then me.bytes else store me.bytes (me.buf_end - 1) 0;
    }

-- A `size_t` that is passed as an `int`.
abbrev pub as_int : ℕ → ℤ
as_int n =
    if ltb (n % u32_mod) (2 ^ 31) then pos (n % u32_mod) else negsuc (u32_mod - 1 - n % u32_mod)

-- `BufBound_Puts`, for a string of `len` bytes.
unfoldable pub puts : BufBound → Bytes → ℕ → BufBound
unfolding write
puts me s len = write me s (as_int len)

-- `BufBound_BufSize`, `BufBound_ReallyWrote`, `BufBound_Wrote`
unfoldable pub buf_size : BufBound → ℕ
buf_size me = me.buf_end

unfoldable pub really_wrote : BufBound → ℕ
really_wrote me = min me.buf_end me.position

unfoldable pub wrote : BufBound → ℕ
wrote me = me.position
