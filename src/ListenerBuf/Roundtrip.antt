-- ===== src/ListenerBuf/Roundtrip.antt =====
-- What `unpack_in_bufs` of inc/listener_buf.h maps of what `pack_in_bufs` wrote.
use fastrpc.Common.{
  ℕ, ◌+◌, ◌-◌, ◌%◌, ◌≤◌, ◌<◌, ◌≡◌, ◌≢◌, ◌⊎◌, inl, inr, refl, ◌∙◌, ap, true, List, [], ◌∷◌, length,
  ◌==◌, if◌then◌else◌, Bool-cases, u32_mod, leb_i32, Bytes, at, copy, copy-inside, le_byte, from_le,
  from_le-congr, from_le-le_byte, arith,
}
use fastrpc.ListenerBuf.{cons_arg, Arg, pack_one, pack_in_bufs, map_buf, unpack_in_bufs}
use fastrpc.ListenerBuf.Layout.{
  offset_after, packed_end, offset_after-ge, move_to-IsPlain, after, offset_of, place,
  align-move_to,
}
use fastrpc.ListenerBuf.Packing.{
  Packs, IsApart, AreShort, AreApart, head-Packs, after-IsPlain, tail_fits, pack_one-frame,
  pack_one-word, pack_one-bytes, pack_in_bufs-cons, pack_in_bufs-frame,
}
use fastrpc.ScatterBuf.Plain.{IsPlain, move_to, advance-IsPlain, left-IsPlain, read-IsPlain}
use fastrpc.ScatterBuf.{ScatterBuf, sbuf_read}

-- The length word that a round of `unpack_in_bufs` reads.
pub read_word :
    {b : ScatterBuf} (mem word : Bytes)
    → IsPlain b
    → b.cur + 4 ≤ b.buf_end
    → (from_le 4 (sbuf_read b mem word 0 4).0 ≡ from_le 4 (at mem b.cur))
      × ((sbuf_read b mem word 0 4).1 ≡ move_to b (b.cur + 4))
read_word {b} mem word p h =
    let e = read-IsPlain mem word 0 4 p (omega arith) h in
    (
      rw e (
          from_le-congr 4 (copy word 0 (at mem b.cur) 4) (at mem b.cur) (λ i l.
            ap (copy word 0 (at mem b.cur) 4) (let z : i ≡ 0 + i = omega arith in z)
            ∙ copy-inside word 0 (at mem b.cur) 4 i l)),
      ap (λ (r : Bytes × ScatterBuf). r.1) e,
    )

-- A round of the shared branch on an argument that fits.
pub map_buf-Packs :
    {b : ScatterBuf} {a : Arg} (v : ℕ)
    → Packs b a
    → map_buf (move_to b (b.cur + 4)) (record { len = a.len; pv = v })
      ≡ (after b a.len, record { len = a.len; pv = if a.len == 0 then v else place b })
unfolding map_buf offset_after
map_buf-Packs {b} {a} v k =
    let p = k.plain in
    let mapped = λ (pv : ℕ). let o : Arg = record { len = a.len; pv = pv } in o in
    let q : a.len ≢ 0 → IsPlain (move_to b (place b)) =
      λ n. move_to-IsPlain (place b) p (omega (arith, p)) (ground (arith, k)) in
    elim (Bool-cases (a.len == 0)) [
      | inl z ↦ rw z (ap (λ (n : ℕ). (move_to b n, mapped v)) (ground arith))
      | inr n ↦
          let fit : leb_i32 (a.len % u32_mod) (b.buf_end - place b) ≡ true = ground arith in
          rw n (
            rw (align-move_to p (ground arith)) (
              rw (left-IsPlain (q (ground arith)) (ground arith), fit)
                (ap (λ (c : ScatterBuf). (c, mapped (place b)))
                  (advance-IsPlain a.len (q (ground arith)) (ground arith)
                    ∙ ap (move_to b) (omega arith)))))
    ]

abbrev pub HasBytes : Bytes → Arg → Bytes → Arg → Type 0
HasBytes mem a mem' o = (o.len ≡ a.len) × ((i : ℕ) → i < a.len → mem' (o.pv + i) ≡ mem (a.pv + i))

-- Every argument has the length and, in the memory `mem'`, the bytes of its original in `mem`.
abbrev pub Delivered : Bytes → List Arg → Bytes → List Arg → Type 0
Delivered mem [] mem' [] = Unit {0}
Delivered mem [] mem' (o ∷ outs) = ⊥
Delivered mem (a ∷ args) mem' [] = ⊥
Delivered mem (a ∷ args) mem' (o ∷ outs) = HasBytes mem a mem' o × Delivered mem args mem' outs

-- The originals may be read from another memory that has the same bytes there.
Delivered-congr :
    (lo hi : ℕ) (mem mem1 mem' : Bytes) (args outs : List Arg)
    → ((i : ℕ) → (i < lo) ⊎ (hi ≤ i) → mem1 i ≡ mem i)
    → AreApart lo hi args
    → Delivered mem1 args mem' outs
    → Delivered mem args mem' outs
Delivered-congr lo hi mem mem1 mem' [] [] same apart d = d
Delivered-congr lo hi mem mem1 mem' [] (o ∷ outs) same apart d = d
Delivered-congr lo hi mem mem1 mem' (a ∷ args) [] same apart d = d
Delivered-congr lo hi mem mem1 mem' (a ∷ args) (o ∷ outs) same apart d = (
  (d.0.0, λ i h. d.0.1 i h ∙ same (a.pv + i) (apart.0 i h)),
  Delivered-congr lo hi mem mem1 mem' args outs same (apart.1) (d.1),
)

-- The bytes of the first argument at its place, behind all later writes.
head_bytes :
    {b : ScatterBuf} (mem : Bytes) {a : Arg} (i v : ℕ) (final : Bytes)
    → Packs b a
    → IsApart b.cur b.buf_end a
    → i < a.len
    → ((j : ℕ) → j < (after b a.len).cur → final j ≡ (pack_one b mem a).0 j)
    → final ((if a.len == 0 then v else place b) + i) ≡ mem (a.pv + i)
unfolding offset_after
head_bytes {b} mem {a} i v final k apart l below = elim (Bool-cases (a.len == 0)) [
  | inl z ↦ absurd (ground arith)
  | inr n ↦ rw n (below (place b + i) (ground arith) ∙ pack_one-bytes mem i k apart l)
]

AreApart-widen :
    (lo lo' hi : ℕ) (args : List Arg) → lo ≤ lo' → AreApart lo hi args → AreApart lo' hi args
AreApart-widen lo lo' hi [] h d = d
AreApart-widen lo lo' hi (a ∷ args) h d =
    (λ i k. ground (arith, d.0 i k), AreApart-widen lo lo' hi args h (d.1))

unpack_in_bufs-cons :
    {b : ScatterBuf} {a : Arg} (mem word : Bytes) (o : Arg) (outs : List Arg)
    → Packs b a
    → ((i : ℕ) → i < 4 → mem (b.cur + i) ≡ le_byte a.len i)
    → unpack_in_bufs b mem word (o ∷ outs)
      ≡ cons_arg
          (record { len = a.len; pv = if a.len == 0 then o.pv else place b })
          (unpack_in_bufs (after b a.len) mem (sbuf_read b mem word 0 4).0 outs)
unfolding unpack_in_bufs
unpack_in_bufs-cons {b} {a} mem word o outs k h =
    let r =
      read_word mem word k.plain (omega (arith, k, k.plain, offset_after-ge (offset_of b) a.len)) in
    let len : from_le 4 (at mem b.cur) ≡ a.len =
      from_le-congr 4 (at mem b.cur) (le_byte a.len) h
      ∙ from_le-le_byte 4 a.len (omega (arith, k)) in
    rw (r.0 ∙ len, r.1)
      (ap
        (λ (m : ScatterBuf × Arg).
          cons_arg (m.1) (unpack_in_bufs (m.0) mem (sbuf_read b mem word 0 4).0 outs))
        (map_buf-Packs o.pv k))

-- Arguments that fit in the buffer, with their bytes outside its free part, are unpacked as they were
-- packed: every one has its length, and its place in the buffer has its bytes. Both sides end at the
-- same position.
pub unpack_in_bufs-pack_in_bufs :
    (args outs : List Arg) (b : ScatterBuf) (mem word : Bytes)
    → length outs ≡ length args
    → IsPlain b
    → AreShort args
    → AreApart b.cur b.buf_end args
    → b.start + packed_end (b.cur - b.start) args ≤ b.buf_end
    → let packed = pack_in_bufs b mem args in
      let unpacked = unpack_in_bufs b (packed.0) word outs in
      (unpacked.0 ≡ packed.1) × Delivered mem args (packed.0) (unpacked.1)
unpack_in_bufs-pack_in_bufs [] [] b mem word n p s apart h =
    unfold pack_in_bufs unpack_in_bufs in (refl, tt)
unpack_in_bufs-pack_in_bufs [] (o ∷ outs) b mem word n p s apart h = absurd (omega arith)
unpack_in_bufs-pack_in_bufs (a ∷ args) [] b mem word n p s apart h = absurd (omega arith)
unpack_in_bufs-pack_in_bufs (a ∷ args) (o ∷ outs) b mem word n p s apart h =
    let k = head-Packs a args p s h in
    let mem1 = (pack_one b mem a).0 in
    let b1 = after b a.len in
    let packed = pack_in_bufs b1 mem1 args in
    let q = after-IsPlain k in
    let fit = tail_fits b a args h in
    let below =
      λ (i : ℕ) (l : i < b1.cur). pack_in_bufs-frame {b = b1} mem1 args i q (s.1) fit (inl l) in
    let word_kept = λ (i : ℕ) (l : i < 4).
      below (b.cur + i) (omega (arith, p, offset_after-ge (b.cur - b.start) a.len))
      ∙ pack_one-word mem i k l in
    let head : HasBytes mem a (packed.0)
        (record { len = a.len; pv = if a.len == 0 then o.pv else place b }) =
      (refl, λ i l. head_bytes mem i o.pv (packed.0) k (apart.0) l below) in
    let rest =
      unpack_in_bufs-pack_in_bufs args outs b1 mem1 (sbuf_read b (packed.0) word 0 4).0
        (omega arith) q (s.1)
        (AreApart-widen b.cur b1.cur b.buf_end args
          (omega (arith, p, offset_after-ge (b.cur - b.start) a.len)) (apart.1))
        fit in
    rw (pack_in_bufs-cons mem a args k) (
      rw (unpack_in_bufs-cons (packed.0) word o outs k word_kept) (
        rest.0,
        (
          head,
          Delivered-congr b.cur b.buf_end mem mem1 (packed.0) args
              (unpack_in_bufs b1 (packed.0) (sbuf_read b (packed.0) word 0 4).0 outs).1
              (λ i l. pack_one-frame mem i k l) (apart.1) (rest.1),
        ),
      ))
