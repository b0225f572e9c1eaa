-- ===== src/ModTable/Uri.antt =====
-- `parse_uri` of src/mod_table.c: the name of a module as a file, a symbol and a version.
pub mod Loop
pub mod Params
pub mod Roundtrip
use fastrpc.Common.{
  ℕ, zero, suc, ◌+◌, ◌-◌, Bool, true, false, List, [], ◌∷◌, ◌==◌, if◌then◌else◌, Bytes, at,
}
use fastrpc.DspQueue.State.{aee_ebadparm}
use fastrpc.Ioctl.{aee_eunknown}
use fastrpc.ScatterBuf.Parser.{
  Consumer, sbuf_parser_init, sbuf_end, sbuf_notchars, sbuf_notchar, sbuf_char, sbuf_string,
  sbuf_many1,
}
use fastrpc.ScatterBuf.{ScatterBuf}
use Prim.Native.Char.{code}
use Prim.Native.String.{String}

-- The bytes of an ASCII text.
abbrev pub codes : String → List ℕ
codes String.[] = []
codes (String.◌∷◌ c s) = code c ∷ codes s

-- `struct parsed_uri`
pub record ParsedUri : Type 0 where
  pub file : ℕ
  pub sym : ℕ
  pub ver : ℕ
  pub filelen : ℕ
  pub symlen : ℕ
  pub verlen : ℕ

abbrev pub unparsed : ParsedUri
unparsed = record { file = 0; sym = 0; ver = 0; filelen = 0; symlen = 0; verlen = 0 }

-- Whether `strncmp` of the memory at `s` and a literal finds a difference in `n` bytes.
unfoldable pub strncmp : Bytes → List ℕ → ℕ → Bool
strncmp s str zero = false
strncmp s [] (suc n) = if s 0 == 0 then false else true
strncmp s (c ∷ str) (suc n) = let rest = strncmp (at s 1) str n in if s 0 == c then rest else true

-- `notandoreq`, `notand` and `notqmark`
abbrev pub notandoreq : Bytes → Consumer
notandoreq mem = sbuf_notchars mem (b'&' ∷ b'=' ∷ [])

abbrev pub notand : Bytes → Consumer
notand mem = sbuf_notchar mem b'&'

abbrev pub notqmark : Bytes → Consumer
notqmark mem = sbuf_notchar mem b'?'

-- `_modver=`: the value of a parameter whose name the comparison takes for `_modver`.
unfoldable pub take_version : Bytes → ℕ → ℕ → ℕ → ℕ → ParsedUri → ParsedUri
take_version mem name name_len value value_len out =
    if strncmp (at mem name) (codes "_modver") name_len
    then out
    else record out { ver = value; verlen = value_len }

-- One round of the loop over the parameters: whether it goes on, the position, and the result.
unfoldable pub parse_param : ℕ → Bytes → ScatterBuf → ParsedUri → Bool × ScatterBuf × ParsedUri
parse_param fuel mem b out =
    let n = sbuf_many1 fuel (notandoreq mem) b in
    let eq = sbuf_char mem b'=' (n.1) in
    let v = sbuf_many1 fuel (notand mem) (eq.1) in
    let name_len = n.1.cur - b.cur in
    let plain = take_version mem b.cur name_len 0 0 out in
    let valued = take_version mem b.cur name_len eq.1.cur (v.1.cur - eq.1.cur) out in
    if n.0
    then (if eq.0
        then (if v.0 then (true, (sbuf_char mem b'&' (v.1)).1, valued) else (false, v.1, out))
        else (true, (sbuf_char mem b'&' (eq.1)).1, plain))
    else (false, n.1, out)

-- The loop over the parameters: the code and the result.
unfoldable pub parse_params : ℕ → Bytes → ScatterBuf → ParsedUri → ℕ × ParsedUri
parse_params zero mem b out = (aee_eunknown, out)
parse_params (suc fuel) mem b out =
    let r = parse_param fuel mem b out in
    let rest = parse_params fuel mem (r.1) (r.2) in
    if sbuf_end b then (0, out) else if r.0 then rest else (aee_eunknown, r.2)

-- The part behind the file: the symbol and the parameters.
unfoldable pub parse_sym : ℕ → Bytes → ScatterBuf → ParsedUri → ℕ × ParsedUri
parse_sym fuel mem b out =
    let s = sbuf_many1 fuel (notand mem) b in
    let out1 = record out { sym = b.cur } in
    let out2 = record out1 { symlen = s.1.cur - b.cur } in
    let amp = sbuf_char mem b'&' (s.1) in
    if s.0
    then (if sbuf_end (s.1)
        then (0, out2)
        else if amp.0
        then parse_params fuel mem (amp.1) out2
        else (0, out2))
    else (aee_eunknown, out1)

-- `parse_uri`: the code and `*out`.
unfoldable pub parse_uri : Bytes → ℕ → ℕ → ℕ × ParsedUri
parse_uri mem uri urilen =
    let fuel = suc urilen in
    let scheme = sbuf_string mem (codes "file://") (sbuf_parser_init uri urilen) in
    let b = (sbuf_string mem (codes "/") (scheme.1)).1 in
    let f = sbuf_many1 fuel (notqmark mem) b in
    let out1 = record unparsed { file = b.cur } in
    let out2 = record out1 { filelen = f.1.cur - b.cur } in
    let q = sbuf_char mem b'?' (f.1) in
    if scheme.0
    then (if f.0
        then (if q.0 then parse_sym fuel mem (q.1) out2 else (aee_eunknown, out2))
        else (aee_eunknown, out1))
    else (aee_ebadparm, unparsed)
