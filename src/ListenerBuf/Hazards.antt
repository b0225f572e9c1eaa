-- ===== src/ListenerBuf/Hazards.antt =====
-- `unpack_in_bufs` of inc/listener_buf.h on lengths that the rest of the buffer does not have: the
-- lengths come from the other processor.
use fastrpc.Common.{
  ℕ, ◌+◌, ◌-◌, ◌%◌, ◌^◌, ◌≤◌, ◌<◌, ◌≡◌, refl, ◌∙◌, ap, true, false, some, List, ◌∷◌, get_elem?,
  ◌==◌, if◌then◌else◌, u32_mod, leb_i32, Bytes, at, from_le, from_le-lt, arith,
}
use fastrpc.ListenerBuf.Layout.{move_to-IsPlain, place, align-move_to}
use fastrpc.ListenerBuf.Roundtrip.{read_word}
use fastrpc.ListenerBuf.{Arg, map_buf, unpack_in_bufs}
use fastrpc.ScatterBuf.Plain.{IsPlain, move_to, left-IsPlain}
use fastrpc.ScatterBuf.{ScatterBuf}

abbrev word_at : Bytes → ScatterBuf → ℕ
word_at mem b = from_le 4 (at mem b.cur)

-- The shared branch where the place of the bytes is still in the buffer.
map_buf_inside :
    {b : ScatterBuf} (a : Arg)
    → IsPlain b
    → place b ≤ b.buf_end
    → 0 < a.len
    → (map_buf (move_to b (b.cur + 4)) a).1
      ≡ (if leb_i32 (a.len % u32_mod) (b.buf_end - place b) then record a { pv = place b } else a)
unfolding map_buf
map_buf_inside {b} a p h pos =
    let n : (a.len == 0) ≡ false = ground arith in
    rw n (
      rw (align-move_to p (omega (arith, p))) (
        rw (left-IsPlain (move_to-IsPlain (place b) p (omega (arith, p)) (omega (arith, p))) h)
          refl))

-- The first argument that comes out, by its length word.
first_of :
    {b : ScatterBuf} (mem word : Bytes) (o : Arg) (outs : List Arg)
    → IsPlain b
    → place b ≤ b.buf_end
    → 0 < word_at mem b
    → get_elem? (unpack_in_bufs b mem word (o ∷ outs)).1 0
      ≡ some (
          if leb_i32 (word_at mem b % u32_mod) (b.buf_end - place b)
          then record { len = word_at mem b; pv = place b }
          else record { len = word_at mem b; pv = o.pv })
unfolding unpack_in_bufs
first_of {b} mem word o outs p h pos =
    let r = read_word mem word p (omega (arith, p)) in
    rw (r.0, r.1) (ap some (map_buf_inside (record { len = word_at mem b; pv = o.pv }) p h pos))

-- An argument whose length is more than what the buffer has left is handed on with that length and
-- with the pointer that its place in the array held before the call.
pub unpack_in_bufs-stale :
    {b : ScatterBuf} (mem word : Bytes) (o : Arg) (outs : List Arg)
    → IsPlain b
    → place b ≤ b.buf_end
    → b.buf_end < place b + from_le 4 (at mem b.cur)
    → from_le 4 (at mem b.cur) < 2 ^ 31
    → get_elem? (unpack_in_bufs b mem word (o ∷ outs)).1 0
      ≡ some (record { len = from_le 4 (at mem b.cur); pv = o.pv })
unpack_in_bufs-stale {b} mem word o outs p h over small =
    let n : leb_i32 (word_at mem b % u32_mod) (b.buf_end - place b) ≡ false = ground (arith, p) in
    first_of mem word o outs p h (omega arith) ∙ rw n refl

-- An argument whose length is negative as an `int` passes the check of the space left: it is mapped
-- into the buffer with a length that goes past the buffer's end.
pub unpack_in_bufs-oversized :
    {b : ScatterBuf} (mem word : Bytes) (o : Arg) (outs : List Arg)
    → IsPlain b
    → place b ≤ b.buf_end
    → 2 ^ 31 ≤ from_le 4 (at mem b.cur)
    → (get_elem? (unpack_in_bufs b mem word (o ∷ outs)).1 0
        ≡ some (record { len = from_le 4 (at mem b.cur); pv = place b }))
      × (b.buf_end < place b + from_le 4 (at mem b.cur))
unpack_in_bufs-oversized {b} mem word o outs p h big =
    let lt = from_le-lt 4 (at mem b.cur) in
    let n : leb_i32 (word_at mem b % u32_mod) (b.buf_end - place b) ≡ true = ground (arith, p) in
    (first_of mem word o outs p h (omega arith) ∙ rw n refl, omega (arith, p))
