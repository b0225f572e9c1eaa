-- ===== src/ListenerBuf/Layout.antt =====
-- Where the packed arguments stand, as offsets from the start of the buffer.
use fastrpc.Common.{
  ℕ, ◌+◌, ◌-◌, ◌*◌, ◌/◌, ◌^◌, ◌≤◌, ◌<◌, ◌≡◌, ◌∙◌, ap, inl, inr, List, [], ◌∷◌, ◌==◌, if◌then◌else◌,
  Bool-cases, u32_mod, Bytes, le_byte, arith,
}
use native.Mathlib.Nat.{mod-eq_of_lt}
use fastrpc.ListenerBuf.{Arg, map_buf, pack_one}
use fastrpc.ScatterBuf.Plain.{IsPlain, move_to, advance-IsPlain, align-IsPlain, write_moves}
use fastrpc.ScatterBuf.{ScatterBuf, sbuf_align}

-- The offset behind a length word and its bytes, which start at a multiple of eight.
unfoldable pub offset_after : ℕ → ℕ → ℕ
offset_after o len = if len == 0 then o + 4 else (o + 11) / 8 * 8 + len

unfoldable pub packed_end : ℕ → List Arg → ℕ
packed_end o [] = o
packed_end o (a ∷ args) = packed_end (offset_after o a.len) args

pub offset_after-ge : (o len : ℕ) → o + 4 + len ≤ offset_after o len
unfolding offset_after
offset_after-ge o len = ground arith

pub packed_end-ge : (o : ℕ) (args : List Arg) → o ≤ packed_end o args
unfolding packed_end
packed_end-ge o [] = omega arith
packed_end-ge o (a ∷ args) =
    omega (arith, offset_after-ge o a.len, packed_end-ge (offset_after o a.len) args)

-- A plain buffer stays plain further on.
pub move_to-IsPlain :
    {b : ScatterBuf} (pos : ℕ)
    → IsPlain b
    → b.start ≤ pos
    → pos < b.start + 2 ^ 31
    → IsPlain (move_to b pos)
move_to-IsPlain pos p h k = ground arith

-- The buffer behind the length word and the bytes of an argument.
abbrev pub after : ScatterBuf → ℕ → ScatterBuf
after b len = move_to b (b.start + offset_after (b.cur - b.start) len)

abbrev pub offset_of : ScatterBuf → ℕ
offset_of b = b.cur - b.start

-- Where the bytes of an argument go.
abbrev pub place : ScatterBuf → ℕ
place b = b.start + (offset_of b + 11) / 8 * 8

-- Aligning after the length word.
pub align-move_to :
    {b : ScatterBuf}
    → IsPlain b
    → place b < b.start + 2 ^ 31
    → sbuf_align (move_to b (b.cur + 4)) ≡ move_to b (place b)
align-move_to {b} p h =
    align-IsPlain (move_to-IsPlain (b.cur + 4) p (omega (arith, p)) (omega (arith, p)))
      (omega (arith, p))
    ∙ ap (move_to b) (omega (arith, p))

-- The position behind the shared branch for a nonempty buffer.
pub map_buf-after :
    {b : ScatterBuf} (a : Arg)
    → IsPlain b
    → offset_after (offset_of b) a.len < 2 ^ 31
    → (map_buf (move_to b (b.cur + 4)) a).0 ≡ after b a.len
unfolding map_buf offset_after
map_buf-after {b} a p h = elim (Bool-cases (a.len == 0)) [
  | inl z ↦ rw z (ap (move_to b) (ground arith))
  | inr n ↦ rw n (
      rw (align-move_to p (ground arith)) (
        advance-IsPlain a.len (move_to-IsPlain (place b) p (omega (arith, p)) (ground arith))
          (ground arith)
        ∙ ap (move_to b) (omega arith)))
]

-- The buffer behind an argument that `pack_in_bufs` writes.
pub pack_one-after :
    {b : ScatterBuf} (mem : Bytes) (a : Arg)
    → IsPlain b
    → a.len < u32_mod
    → offset_after (offset_of b) a.len < 2 ^ 31
    → (pack_one b mem a).1 ≡ after b a.len
unfolding pack_one offset_after
pack_one-after {b} mem a p w h = elim (Bool-cases (a.len == 0)) [
  | inl z ↦
      rw (mod-eq_of_lt w, z)
        (write_moves mem (le_byte a.len) 4 p (ground arith) ∙ ap (move_to b) (ground arith))
  | inr n ↦
      rw (mod-eq_of_lt w, n)
        (rw (write_moves mem (le_byte a.len) 4 p (ground arith)) (
          rw (align-move_to p (ground arith)) (
            write_moves _ _ a.len (move_to-IsPlain (place b) p (omega (arith, p)) (ground arith))
              (ground arith)
            ∙ ap (move_to b) (omega arith))))
]
