-- ===== src/ScatterBuf/Parser/Text.antt =====
-- The consumers of inc/sbuf_parser.h by the list of bytes that is ahead of them.
use fastrpc.Common.{
  ℕ, zero, suc, ◌+◌, ◌^◌, ◌≤◌, ◌<◌, ◌≡◌, inl, inr, Bool-cases, refl, ◌∙◌, ap, true, false, none,
  some, List, [], ◌∷◌, ◌++◌, length, length-append, ◌==◌, u64_mod, Bytes, arith,
}
use fastrpc.ScatterBuf.Parser.{
  sbuf_peek, sbuf_end, is_one_of, sbuf_chars, sbuf_notchars, sbuf_char, sbuf_string, consume_all,
  sbuf_many1,
}
use fastrpc.ScatterBuf.Plain.{move_to}
use fastrpc.ScatterBuf.{ScatterBuf, sbuf_advance, sbuf_left, sbuf_valid}

-- The memory from `pos` on holds the bytes.
abbrev pub Holds : Bytes → ℕ → List ℕ → Type 0
Holds mem pos [] = Unit {0}
Holds mem pos (c ∷ text) = (mem pos ≡ c) × Holds mem (pos + 1) text

-- Between the position and the end of the buffer stand the bytes.
pub record IsAhead (mem : Bytes) (b : ScatterBuf) (text : List ℕ) : Type 0 where
  pub begun : b.buf ≤ b.cur
  pub ends : b.buf_end ≡ b.cur + length text
  pub short : length text < 2 ^ 31
  pub in_range : b.buf_end < u64_mod
  pub held : Holds mem b.cur text

pub Holds-append :
    (mem : Bytes) (pos : ℕ) (w rest : List ℕ)
    → Holds mem pos (w ++ rest)
    → Holds mem (pos + length w) rest
Holds-append mem pos [] rest h = let e : pos + 0 ≡ pos = omega arith in rw e h
Holds-append mem pos (c ∷ w) rest h =
    let e : pos + suc (length w) ≡ pos + 1 + length w = omega arith in
    rw e (Holds-append mem (pos + 1) w rest (h.1))

-- Past a word, what follows it is ahead.
pub IsAhead-append :
    {mem : Bytes} (b : ScatterBuf) (w rest : List ℕ)
    → IsAhead mem b (w ++ rest)
    → IsAhead mem (move_to b (b.cur + length w)) rest
IsAhead-append {mem} b w rest h = record {
  begun = omega (arith, h);
  ends = omega (arith, h, length-append w rest);
  short = omega (arith, h, length-append w rest);
  in_range = h.in_range;
  held = Holds-append mem b.cur w rest h.held;
}

IsAhead-tail :
    {mem : Bytes} {b : ScatterBuf} {c : ℕ} {text : List ℕ}
    → IsAhead mem b (c ∷ text)
    → IsAhead mem (move_to b (b.cur + 1)) text
IsAhead-tail {b} {c} {text} h = IsAhead-append b (c ∷ []) text h

advance_one :
    {mem : Bytes} {b : ScatterBuf} {c : ℕ} {text : List ℕ}
    → IsAhead mem b (c ∷ text)
    → sbuf_advance b 1 ≡ move_to b (b.cur + 1)
unfolding sbuf_advance
advance_one h = ground arith

peek-cons :
    {mem : Bytes} {b : ScatterBuf} {c : ℕ} {text : List ℕ}
    → IsAhead mem b (c ∷ text)
    → sbuf_peek mem b ≡ some c
unfolding sbuf_peek
peek-cons h = ground (arith, h, h.held.0)

peek-nil : {mem : Bytes} {b : ScatterBuf} → IsAhead mem b [] → sbuf_peek mem b ≡ none
unfolding sbuf_peek
peek-nil h = ground (arith, h)

pub end-IsAhead :
    {mem : Bytes} {b : ScatterBuf} (text : List ℕ)
    → IsAhead mem b text
    → sbuf_end b ≡ (length text == 0)
unfolding sbuf_end sbuf_left
end-IsAhead text h = ground (arith, h)

pub end-cons :
    {mem : Bytes} {b : ScatterBuf} (c : ℕ) (text : List ℕ)
    → IsAhead mem b (c ∷ text)
    → sbuf_end b ≡ false
end-cons c text h = end-IsAhead (c ∷ text) h ∙ ground arith

-- The text is at its end, or goes on with one of the characters.
abbrev pub Stops : List ℕ → List ℕ → Type 0
Stops chars [] = Unit {0}
Stops chars (c ∷ text) = is_one_of chars c ≡ true

-- None of the characters occurs in the word.
abbrev pub IsFree : List ℕ → List ℕ → Type 0
IsFree chars [] = Unit {0}
IsFree chars (c ∷ w) = (is_one_of chars c ≡ false) × IsFree chars w

pub char_hit :
    {mem : Bytes} {b : ScatterBuf} (c : ℕ) (text : List ℕ)
    → IsAhead mem b (c ∷ text)
    → sbuf_char mem c b ≡ (true, move_to b (b.cur + 1))
unfolding sbuf_chars is_one_of
char_hit {b} c text h =
    let same : (c == c) ≡ true = ground arith in
    rw (peek-cons h, sbuf_chars)
      (rw (same, is_one_of) (ap (λ (w : ScatterBuf). (true, w)) (advance_one h)))

pub char_miss :
    {mem : Bytes} {b : ScatterBuf} (c d : ℕ) (text : List ℕ)
    → IsAhead mem b (d ∷ text)
    → (d == c) ≡ false
    → sbuf_char mem c b ≡ (false, b)
unfolding sbuf_chars is_one_of
char_miss c d text h n = rw (peek-cons h, sbuf_chars) (rw (n, is_one_of) refl)

pub char_end :
    {mem : Bytes} {b : ScatterBuf} (c : ℕ) → IsAhead mem b [] → sbuf_char mem c b ≡ (false, b)
unfolding sbuf_chars is_one_of
char_end c h = rw (peek-nil h, sbuf_chars) refl

pub string-append :
    {mem : Bytes} (b : ScatterBuf) (str rest : List ℕ)
    → IsAhead mem b (str ++ rest)
    → sbuf_string mem str b ≡ (true, move_to b (b.cur + length str))
unfolding sbuf_string
string-append b [] rest h = ap (λ (n : ℕ). (true, move_to b n)) (omega arith)
string-append b (c ∷ str) rest h = rw (char_hit c (str ++ rest) h) (
    string-append (move_to b (b.cur + 1)) str rest (IsAhead-tail h)
    ∙ ap (λ (n : ℕ). (true, move_to b n)) (omega arith))

notchars_take :
    {mem : Bytes} {b : ScatterBuf} (chars : List ℕ) {c : ℕ} {text : List ℕ}
    → IsAhead mem b (c ∷ text)
    → is_one_of chars c ≡ false
    → sbuf_notchars mem chars b ≡ (true, move_to b (b.cur + 1))
unfolding sbuf_notchars
notchars_take chars h n =
    rw (peek-cons h, sbuf_notchars) (rw n (ap (λ (w : ScatterBuf). (true, w)) (advance_one h)))

notchars_stop :
    {mem : Bytes} {b : ScatterBuf} (chars text : List ℕ)
    → IsAhead mem b text
    → Stops chars text
    → sbuf_notchars mem chars b ≡ (false, b)
unfolding sbuf_notchars
notchars_stop chars [] h s = rw (peek-nil h, sbuf_notchars) refl
notchars_stop chars (c ∷ text) h s = rw (peek-cons h, sbuf_notchars) (rw s refl)

-- The loop takes the word and ends by its test: the rounds are enough.
consume_all-word :
    {mem : Bytes} (fuel : ℕ) (b : ScatterBuf) (chars w rest : List ℕ)
    → length w < fuel
    → IsAhead mem b (w ++ rest)
    → IsFree chars w
    → Stops chars rest
    → consume_all fuel (sbuf_notchars mem chars) b ≡ move_to b (b.cur + length w)
unfolding consume_all
consume_all-word zero b chars w rest l h f s = absurd (omega arith)
consume_all-word (suc fuel) b chars [] rest l h f s =
    rw (notchars_stop chars rest h s) (ap (move_to b) (omega arith))
consume_all-word (suc fuel) b chars (c ∷ w) rest l h f s = rw (notchars_take chars h (f.0)) (
    consume_all-word fuel (move_to b (b.cur + 1)) chars w rest (omega arith) (IsAhead-tail h) (f.1)
      s
    ∙ ap (move_to b) (omega arith))

none_left :
    {mem : Bytes} {b : ScatterBuf} (text : List ℕ)
    → IsAhead mem b text
    → sbuf_valid b ≡ false
    → length text ≡ 0
unfolding sbuf_valid
none_left text h v = ground (arith, h)

-- `sbuf_many1` takes the longest word that is free of the characters.
pub many1-word :
    {mem : Bytes} (fuel : ℕ) (b : ScatterBuf) (chars : List ℕ) (c : ℕ) (w rest : List ℕ)
    → length w < fuel
    → IsAhead mem b (c ∷ w ++ rest)
    → IsFree chars (c ∷ w)
    → Stops chars rest
    → sbuf_many1 fuel (sbuf_notchars mem chars) b ≡ (true, move_to b (b.cur + suc (length w)))
unfolding sbuf_many1
many1-word fuel b chars c w rest l h f s =
    rw (notchars_take chars h (f.0)) (elim (Bool-cases (sbuf_valid (move_to b (b.cur + 1)))) [
      | inl v ↦ rw v (
          ap (λ (n : ScatterBuf). (true, n))
            (consume_all-word fuel (move_to b (b.cur + 1)) chars w rest l (IsAhead-tail h) (f.1) s
              ∙ ap (move_to b) (omega arith)))
      | inr v ↦ rw v (
          ap (λ (n : ℕ). (true, move_to b n))
            (omega (arith, none_left (w ++ rest) (IsAhead-tail h) v, length-append w rest)))
    ])
