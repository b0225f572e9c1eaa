-- ===== src/ScatterBuf/Parser.antt =====
-- inc/sbuf_parser.h: consumers of a text, which say whether they took something. A loop takes fuel,
-- at most one round for each byte of the text.
pub mod Text
use fastrpc.Common.{
  ℕ, zero, suc, ◌+◌, ◌-◌, ◌%◌, Bool, true, false, Option, none, some, List, [], ◌∷◌, ◌==◌,
  if◌then◌else◌, u64_mod, u32_mod, Bytes,
}
use fastrpc.ScatterBuf.{ScatterBuf, sbuf_init, sbuf_advance, sbuf_left, sbuf_valid}

-- The code's `int(*)(struct sbuf*)`.
abbrev pub Consumer : Type 0
Consumer = ScatterBuf → Bool × ScatterBuf

-- `sbuf_parser_init`
abbrev pub sbuf_parser_init : ℕ → ℕ → ScatterBuf
sbuf_parser_init = sbuf_init 0

-- `sbuf_peek`
unfoldable pub sbuf_peek : Bytes → ScatterBuf → Option ℕ
unfolding sbuf_valid
sbuf_peek mem b = if sbuf_valid b then some (mem b.cur) else none

-- `sbuf_end`
unfoldable pub sbuf_end : ScatterBuf → Bool
sbuf_end b = sbuf_left b == 0

-- The loop of `sbuf_chars` and `sbuf_notchars` over `chars`.
unfoldable pub is_one_of : List ℕ → ℕ → Bool
is_one_of [] c = false
is_one_of (d ∷ chars) c = if c == d then true else is_one_of chars c

-- `sbuf_chars`
unfoldable pub sbuf_chars : Bytes → List ℕ → Consumer
sbuf_chars mem chars b = elim (sbuf_peek mem b) [
  | none ↦ (false, b)
  | some c ↦ if is_one_of chars c then (true, sbuf_advance b 1) else (false, b)
]

-- `sbuf_notchars`
unfoldable pub sbuf_notchars : Bytes → List ℕ → Consumer
sbuf_notchars mem chars b = elim (sbuf_peek mem b) [
  | none ↦ (false, b)
  | some c ↦ if is_one_of chars c then (false, b) else (true, sbuf_advance b 1)
]

-- `sbuf_char`, `sbuf_notchar` and `sbuf_any`
abbrev pub sbuf_char : Bytes → ℕ → Consumer
sbuf_char mem t = sbuf_chars mem (t ∷ [])

abbrev pub sbuf_notchar : Bytes → ℕ → Consumer
sbuf_notchar mem t = sbuf_notchars mem (t ∷ [])

abbrev pub sbuf_any : Bytes → Consumer
sbuf_any mem = sbuf_notchars mem []

-- `sbuf_string`: what matched before a mismatch stays consumed.
unfoldable pub sbuf_string : Bytes → List ℕ → Consumer
sbuf_string mem [] b = (true, b)
sbuf_string mem (c ∷ str) b =
    let r = sbuf_char mem c b in
    let rest = sbuf_string mem str (r.1) in if r.0 then rest else (false, r.1)

-- The loop of `sbuf_many`.
unfoldable pub consume_all : ℕ → Consumer → ScatterBuf → ScatterBuf
consume_all zero consume b = b
consume_all (suc fuel) consume b =
    let r = consume b in let rest = consume_all fuel consume (r.1) in if r.0 then rest else r.1

-- `sbuf_many`
unfoldable pub sbuf_many : ℕ → Consumer → Consumer
sbuf_many fuel consume b = if sbuf_valid b then (true, consume_all fuel consume b) else (false, b)

-- `sbuf_many1`
unfoldable pub sbuf_many1 : ℕ → Consumer → Consumer
unfolding sbuf_many
sbuf_many1 fuel consume b =
    let r = consume b in if r.0 then (true, (sbuf_many fuel consume (r.1)).1) else (false, r.1)

-- `sbuf_until`
unfoldable pub sbuf_until : ℕ → Consumer → Consumer → Consumer
sbuf_until zero consume stop b = (false, b)
sbuf_until (suc fuel) consume stop b =
    let s = stop b in
    let r = consume (s.1) in
    let rest = sbuf_until fuel consume stop (r.1) in
    if s.0 then (true, s.1) else if r.0 then rest else (false, r.1)

-- `sbuf_try`
unfoldable pub sbuf_try : Consumer → Consumer
sbuf_try parser b =
    let t = parser (sbuf_parser_init b.cur (sbuf_left b)) in
    if t.0
    then (true, sbuf_advance b ((t.1.cur + u64_mod - b.cur) % u64_mod % u32_mod))
    else (false, b)
