-- ===== src/BufBound/Stream.antt =====
-- A bounded buffer as a window on the stream of bytes that is written to it.
use fastrpc.Common.{
  ℕ, ◌^◌, zero, suc, ◌+◌, ◌-◌, ◌≤◌, ◌<◌, ◌≡◌, ◌⊎◌, refl, ap, ◌∙◌, inl, inr, Bool-cases, arith, ltb,
  lt→ltb, if◌then◌else◌, Bytes, ℤ, pos, negsuc, min,
}
use fastrpc.BufBound.{
  BufBound, int_max, store, validate_write, copy_down, write_bytes, write, putnc, advance, init,
  putc, force_null_term, puts, as_int, buf_size, really_wrote, wrote,
}

-- The stream `f` of `n` bytes with `k` bytes of `g` behind it.
abbrev pub joined : Bytes → ℕ → Bytes → Bytes
joined f n g i = if ltb i n then f i else g (i - n)

-- After `n` bytes of the stream `f` were written to a buffer over the memory `mem`: the position counts
-- them up to INT_MAX, the buffer holds the stream as far as it reaches, and the memory behind the
-- buffer is untouched.
pub record Streamed (mem : Bytes) (me : BufBound) (n : ℕ) (f : Bytes) : Type 0 where
  pub end_low : me.buf_end ≤ int_max
  pub counted : me.position ≡ min n int_max
  pub holds : (i : ℕ) → i < n → i < me.buf_end → me.bytes i ≡ f i
  pub behind : (i : ℕ) → me.buf_end ≤ i → me.bytes i ≡ mem i

-- The buffer holds the first bytes of the stream `f` of `n` bytes, a zero behind them, and the position
-- counts the stream and the zero up to INT_MAX; the memory behind the buffer is untouched.
pub record Terminated (mem : Bytes) (me : BufBound) (n : ℕ) (f : Bytes) : Type 0 where
  pub counted : me.position ≡ min (n + 1) int_max
  pub closed : 0 < me.buf_end → me.bytes (min n (me.buf_end - 1)) ≡ 0
  pub holds : (i : ℕ) → i < n → suc i < me.buf_end → me.bytes i ≡ f i
  pub behind : (i : ℕ) → me.buf_end ≤ i → me.bytes i ≡ mem i

-- The downward loop copies its bytes and no others.
copy_down-outside :
    (mem : Bytes) (dest : ℕ) (pc : Bytes) (n i : ℕ)
    → (i < dest) ⊎ (dest + n ≤ i)
    → copy_down mem dest pc n i ≡ mem i
unfolding copy_down
copy_down-outside mem dest pc zero i h = refl
copy_down-outside mem dest pc (suc n) i h =
    copy_down-outside (store mem (dest + n) (pc n)) dest pc n i (ground arith) ∙ ground arith

copy_down-inside :
    (mem : Bytes) (dest : ℕ) (pc : Bytes) (n i : ℕ)
    → i < n
    → copy_down mem dest pc n (dest + i) ≡ pc i
unfolding copy_down
copy_down-inside mem dest pc zero i h = elim h [ ]
copy_down-inside mem dest pc (suc n) i h = elim (Bool-cases (ltb i n)) [
  | inl e ↦ copy_down-inside (store mem (dest + n) (pc n)) dest pc n i (ground arith)
  | inr e ↦
      let last : i ≡ n = ground arith in
      copy_down-outside (store mem (dest + n) (pc n)) dest pc n (dest + i) (inr (omega arith))
      ∙ ground (arith, ap pc last)
]

-- The byte at `i`, as an offset from the position where the copy started.
copy_down-at :
    (mem : Bytes) (dest : ℕ) (pc : Bytes) (n i : ℕ)
    → dest ≤ i
    → i < dest + n
    → copy_down mem dest pc n i ≡ pc (i - dest)
copy_down-at mem dest pc n i h k =
    ap (copy_down mem dest pc n) (omega arith)
    ∙ copy_down-inside mem dest pc n (i - dest) (omega arith)

module _ {mem : Bytes} {me : BufBound} {n : ℕ} {f : Bytes} (s : Streamed mem me n f) where
  -- What is copied and how far the position moves.
  validated :
      (k : ℕ)
      → ((validate_write me k).0 ≡ min k (me.buf_end - me.position))
        × (me.position + (validate_write me k).1 ≡ min (n + k) int_max)
  unfolding validate_write
  validated k = let a = s.end_low in let b = s.counted in ground arith

  write_bytes-holds :
      (pc : Bytes) (k i : ℕ)
      → i < n + k
      → i < me.buf_end
      → copy_down me.bytes me.position pc (validate_write me k).0 i ≡ joined f n pc i
  write_bytes-holds pc k i h e =
      let a = s.end_low in
      let b = s.counted in
      let count = (validate_write me k).0 in
      elim (Bool-cases (ltb i n)) [
        | inl t ↦
            copy_down-outside me.bytes me.position pc count i (inl (ground arith))
            ∙ s.holds i (ground arith) e
            ∙ (rw t)
        | inr t ↦
            let start : me.position ≡ n = ground arith in
            copy_down-at me.bytes me.position pc count i (ground arith)
              (ground (arith, validated k))
            ∙ ap (λ j. pc (i - j)) start
            ∙ (rw t)
      ]

  -- A byte behind the buffer is not among those copied.
  beyond :
      (k i : ℕ) → me.buf_end ≤ i → (i < me.position) ⊎ (me.position + (validate_write me k).0 ≤ i)
  beyond k i h = elim (Bool-cases (ltb i me.position)) [
    | inl t ↦ inl (ground arith)
    | inr t ↦ inr (ground (arith, validated k))
  ]

  -- `BufBound_Write` and `BufBound_Putnc` of a positive number of bytes.
  write_bytes-Streamed :
      (pc : Bytes) (k : ℕ) → Streamed mem (write_bytes me pc k) (n + k) (joined f n pc)
  unfolding write_bytes
  write_bytes-Streamed pc k = record {
    end_low = s.end_low;
    counted = (validated k).1;
    holds = write_bytes-holds pc k;
    behind = λ i h.
        copy_down-outside me.bytes me.position pc (validate_write me k).0 i (beyond k i h)
        ∙ s.behind i h;
  }

  -- A stream that is joined with nothing is the same stream.
  write_none-Streamed : (g : Bytes) → Streamed mem me (n + 0) (joined f n g)
  write_none-Streamed g = record {
    end_low = s.end_low;
    counted = let c = s.counted in omega arith;
    holds = λ i h e. s.holds i (omega arith) e ∙ ground arith;
    behind = s.behind;
  }

  -- `BufBound_Write` of a length that is not negative appends its bytes to the stream.
  pub write-Streamed :
      (pc : Bytes) (k : ℕ) → Streamed mem (write me pc (pos k)) (n + k) (joined f n pc)
  unfolding write
  write-Streamed pc zero = write_none-Streamed pc
  write-Streamed pc (suc k) = rw (lt→ltb 0 (suc k) (omega arith)) (write_bytes-Streamed pc (suc k))

  pub putnc-Streamed : (c k : ℕ) → Streamed mem (putnc me c (pos k)) (n + k) (joined f n (λ i. c))
  unfolding putnc
  putnc-Streamed c zero = write_none-Streamed (λ i. c)
  putnc-Streamed c (suc k) =
      rw (lt→ltb 0 (suc k) (omega arith)) (write_bytes-Streamed (λ i. c) (suc k))

  -- `BufBound_Putc` appends one byte.
  pub putc-Streamed : (c : ℕ) → Streamed mem (putc me c) (n + 1) (joined f n (λ i. c))
  unfolding putc
  putc-Streamed c = record {
    end_low = let a = s.end_low in ground arith;
    counted = let a = s.end_low in let b = s.counted in ground arith;
    holds = λ i h e.
        let a = s.end_low in let b = s.counted in ground (arith, λ (p : i < n). s.holds i p);
    behind = λ i h. let a = s.end_low in let b = s.counted in ground (arith, s.behind i);
  }

  -- `BufBound_Puts` of a string whose length is an `int`.
  pub puts-Streamed :
      (pc : Bytes) (k : ℕ) → k < 2 ^ 31 → Streamed mem (puts me pc k) (n + k) (joined f n pc)
  unfolding puts
  puts-Streamed pc k h = let same : as_int k ≡ pos k = ground arith in rw same (write-Streamed pc k)

  -- `BufBound_ForceNullTerm` after a stream of `n` bytes: the position counts one byte more, up to
  -- INT_MAX; in a buffer that is not empty the stream stands as far as it fits before the last byte,
  -- with a zero behind it; and the memory behind the buffer is untouched.
  pub force_null_term-Terminated : Terminated mem (force_null_term me) n f
  unfolding force_null_term
  force_null_term-Terminated = record {
    counted = let a = s.end_low in let b = s.counted in ground arith;
    closed = λ h. let a = s.end_low in let b = s.counted in ground arith;
    holds = λ i h e. let a = s.end_low in let b = s.counted in ground (arith, s.holds i);
    behind = λ i h. let a = s.end_low in let b = s.counted in ground (arith, s.behind i);
  }

-- A fresh buffer has an empty stream; a negative length makes it empty.
pub init-Streamed :
    (mem f : Bytes) (len : ℤ) → (init mem len).buf_end ≤ int_max → Streamed mem (init mem len) 0 f
unfolding init
init-Streamed mem f (pos n) h = record {
  end_low = h;
  counted = omega arith;
  holds = λ i p e. elim p [ ];
  behind = λ i p. refl;
}
init-Streamed mem f (negsuc n) h = record {
  end_low = h;
  counted = omega arith;
  holds = λ i p e. elim p [ ];
  behind = λ i p. refl;
}

-- What was really written is the stream or the buffer, whichever is shorter.
pub really_wrote-Streamed :
    {mem : Bytes} {me : BufBound} {n : ℕ} {f : Bytes}
    → Streamed mem me n f
    → (really_wrote me ≡ min n (buf_size me)) × (wrote me ≡ min n int_max)
unfolding really_wrote buf_size wrote
really_wrote-Streamed s = let a = s.end_low in let b = s.counted in (ground arith, b)

-- `BufBound_Advance` keeps the position within 0 and INT_MAX, and moves it by exactly `len` where that
-- stays in the range.
pub advance_lem :
    (me : BufBound) (n : ℕ)
    → me.position ≤ int_max
    → n ≤ int_max
    → ((advance me (pos n)).position ≡ min (me.position + n) int_max)
      × ((advance me (negsuc n)).position ≡ me.position - suc n)
unfolding advance
advance_lem me n h k = ground arith
