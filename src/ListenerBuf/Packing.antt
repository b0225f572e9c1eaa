-- ===== src/ListenerBuf/Packing.antt =====
-- What `pack_in_bufs` of inc/listener_buf.h leaves in memory.
use fastrpc.Common.{
  ℕ, ◌+◌, ◌%◌, ◌^◌, ◌≤◌, ◌<◌, ◌≡◌, ◌⊎◌, inl, inr, refl, ◌∙◌, ap, List, [], ◌∷◌, ◌==◌, if◌then◌else◌,
  Bool-cases, u32_mod, Bytes, at, copy, copy-inside, copy-outside, le_byte, arith,
}
use native.Mathlib.Nat.{mod-eq_of_lt}
use fastrpc.ListenerBuf.{Arg, pack_one, pack_in_bufs}
use fastrpc.ListenerBuf.Layout.{
  offset_after, packed_end, offset_after-ge, packed_end-ge, move_to-IsPlain, after, offset_of,
  place, align-move_to,
}
use fastrpc.ScatterBuf.Plain.{IsPlain, move_to, write-IsPlain}
use fastrpc.ScatterBuf.{ScatterBuf}

-- An argument that fits in the buffer, with its bytes outside the part that is written.
pub record Packs (b : ScatterBuf) (a : Arg) : Type 0 where
  pub plain : IsPlain b
  pub short : a.len < 2 ^ 31
  pub fits : b.start + offset_after (offset_of b) a.len ≤ b.buf_end

-- The memory with the length word, and with the bytes.
abbrev pub with_word : ScatterBuf → Bytes → Arg → Bytes
with_word b mem a = copy mem b.cur (le_byte a.len) 4

abbrev pub with_bytes : ScatterBuf → Bytes → Arg → Bytes
with_bytes b mem a =
    if a.len == 0
    then with_word b mem a
    else copy (with_word b mem a) (place b) (at (with_word b mem a) a.pv) a.len

pub pack_one-Packs :
    {b : ScatterBuf} (mem : Bytes) {a : Arg}
    → Packs b a
    → pack_one b mem a ≡ (with_bytes b mem a, after b a.len)
unfolding pack_one offset_after
pack_one-Packs {b} mem {a} k =
    let p = k.plain in
    let small : a.len % u32_mod ≡ a.len = mod-eq_of_lt (omega (arith, k)) in
    elim (Bool-cases (a.len == 0)) [
      | inl z ↦
          rw (small, z)
            (write-IsPlain mem (le_byte a.len) 4 p (omega arith) (ground arith)
              ∙ ap (λ (n : ℕ). (with_word b mem a, move_to b n)) (ground arith))
      | inr n ↦
          rw (small, n)
            (rw (write-IsPlain mem (le_byte a.len) 4 p (omega arith) (ground arith)) (
              rw (align-move_to p (ground arith)) (
                write-IsPlain (with_word b mem a) (at (with_word b mem a) a.pv) a.len
                  (move_to-IsPlain (place b) p (omega (arith, p)) (ground arith)) (ground arith)
                  (ground arith)
                ∙ ap
                    (λ (n : ℕ). (
                      copy (with_word b mem a) (place b) (at (with_word b mem a) a.pv) a.len,
                      move_to b n,
                    ))
                    (omega arith))))
    ]

-- The bytes of an argument are outside the addresses from `lo` to `hi`.
abbrev pub IsApart : ℕ → ℕ → Arg → Type 0
IsApart lo hi a = (i : ℕ) → i < a.len → (a.pv + i < lo) ⊎ (hi ≤ a.pv + i)

-- Outside the buffer's free part nothing is written.
pub pack_one-frame :
    {b : ScatterBuf} (mem : Bytes) {a : Arg} (i : ℕ)
    → Packs b a
    → (i < b.cur) ⊎ (b.buf_end ≤ i)
    → (pack_one b mem a).0 i ≡ mem i
unfolding offset_after
pack_one-frame {b} mem {a} i k h =
    let word = copy-outside mem b.cur (le_byte a.len) 4 i in
    rw (pack_one-Packs mem k) (elim (Bool-cases (a.len == 0)) [
      | inl z ↦ rw z (word (ground (arith, k, k.plain)))
      | inr n ↦ rw n (
          copy-outside (with_word b mem a) (place b) (at (with_word b mem a) a.pv) a.len i
            (ground (arith, k, k.plain))
          ∙ word (ground (arith, k, k.plain)))
    ])

pub pack_one-word :
    {b : ScatterBuf} (mem : Bytes) {a : Arg} (i : ℕ)
    → Packs b a
    → i < 4
    → (pack_one b mem a).0 (b.cur + i) ≡ le_byte a.len i
pack_one-word {b} mem {a} i k h =
    let word = copy-inside mem b.cur (le_byte a.len) 4 i h in
    rw (pack_one-Packs mem k) (elim (Bool-cases (a.len == 0)) [
      | inl z ↦ rw z word
      | inr n ↦ rw n (
          copy-outside (with_word b mem a) (place b) (at (with_word b mem a) a.pv) a.len (b.cur + i)
            (inl (omega (arith, k.plain)))
          ∙ word)
    ])

pub pack_one-bytes :
    {b : ScatterBuf} (mem : Bytes) {a : Arg} (i : ℕ)
    → Packs b a
    → IsApart b.cur b.buf_end a
    → i < a.len
    → (pack_one b mem a).0 (place b + i) ≡ mem (a.pv + i)
unfolding offset_after
pack_one-bytes {b} mem {a} i k apart h = rw (pack_one-Packs mem k) (elim (Bool-cases (a.len == 0)) [
  | inl z ↦ absurd (ground arith)
  | inr n ↦ rw n (
      copy-inside (with_word b mem a) (place b) (at (with_word b mem a) a.pv) a.len i h
      ∙ copy-outside mem b.cur (le_byte a.len) 4 (a.pv + i) (ground (arith, apart i h, k, k.plain)))
])

-- The arguments fit, one behind the other.
abbrev pub AreShort : List Arg → Type 0
AreShort [] = Unit {0}
AreShort (a ∷ args) = (a.len < 2 ^ 31) × AreShort args

abbrev pub AreApart : ℕ → ℕ → List Arg → Type 0
AreApart lo hi [] = Unit {0}
AreApart lo hi (a ∷ args) = IsApart lo hi a × AreApart lo hi args

pub head-Packs :
    {b : ScatterBuf} (a : Arg) (args : List Arg)
    → IsPlain b
    → AreShort (a ∷ args)
    → b.start + packed_end (offset_of b) (a ∷ args) ≤ b.buf_end
    → Packs b a
unfolding packed_end
head-Packs {b} a args p s h = record {
  plain = p;
  short = s.0;
  fits = omega (arith, packed_end-ge (offset_after (offset_of b) a.len) args);
}

pub after-IsPlain : {b : ScatterBuf} {a : Arg} → Packs b a → IsPlain (after b a.len)
after-IsPlain {b} {a} k =
    move_to-IsPlain (b.start + offset_after (offset_of b) a.len) k.plain (omega arith)
      (omega (arith, k, k.plain))

-- What fits behind the first argument.
pub tail_fits :
    (b : ScatterBuf) (a : Arg) (args : List Arg)
    → b.start + packed_end (offset_of b) (a ∷ args) ≤ b.buf_end
    → b.start + packed_end (offset_of (after b a.len)) args ≤ b.buf_end
unfolding packed_end
tail_fits b a args h =
    let e : offset_of (after b a.len) ≡ offset_after (offset_of b) a.len = omega arith in rw e h

pub pack_in_bufs-cons :
    {b : ScatterBuf} (mem : Bytes) (a : Arg) (args : List Arg)
    → Packs b a
    → pack_in_bufs b mem (a ∷ args) ≡ pack_in_bufs (after b a.len) (pack_one b mem a).0 args
unfolding pack_in_bufs
pack_in_bufs-cons {b} mem a args k =
    ap (λ (w : Bytes × ScatterBuf). pack_in_bufs (w.1) (pack_one b mem a).0 args)
      (pack_one-Packs mem k)

pub pack_in_bufs-frame :
    {b : ScatterBuf} (mem : Bytes) (args : List Arg) (i : ℕ)
    → IsPlain b
    → AreShort args
    → b.start + packed_end (offset_of b) args ≤ b.buf_end
    → (i < b.cur) ⊎ (b.buf_end ≤ i)
    → (pack_in_bufs b mem args).0 i ≡ mem i
pack_in_bufs-frame mem [] i p s h out = unfold pack_in_bufs in refl
pack_in_bufs-frame {b} mem (a ∷ args) i p s h out =
    let k = head-Packs a args p s h in
    rw (pack_in_bufs-cons mem a args k) (
      pack_in_bufs-frame {b = after b a.len} ((pack_one b mem a).0) args i (after-IsPlain k) (s.1)
        (tail_fits b a args h) (ground (arith, p, offset_after-ge (offset_of b) a.len))
      ∙ pack_one-frame mem i k out)
