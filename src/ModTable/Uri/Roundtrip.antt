-- ===== src/ModTable/Uri/Roundtrip.antt =====
-- What `parse_uri` of src/mod_table.c finds in a name that is written the way its comments show.
use fastrpc.Common.{
  ℕ, suc, ◌+◌, ◌-◌, ◌^◌, ◌<◌, ◌≡◌, refl, sym, subst, List, [], ◌∷◌, ◌++◌, length, length-append,
  u64_mod, Bytes, arith,
}
use mathlib.Core.List.{append-nil}
use fastrpc.ModTable.Uri.Params.{Word, bytes, Param, params_text, AreParams, with_versions}
use fastrpc.ModTable.Uri.Loop.{parse_params-params_text}
use fastrpc.ModTable.Uri.{codes, ParsedUri, unparsed, parse_sym, parse_uri}
use fastrpc.ScatterBuf.Parser.Text.{
  Holds, IsAhead, IsAhead-append, end-IsAhead, end-cons, IsFree, char_hit, string-append,
  many1-word,
}
use fastrpc.ScatterBuf.Parser.{is_one_of, sbuf_parser_init}
use fastrpc.ScatterBuf.Plain.{move_to}
use fastrpc.ScatterBuf.{ScatterBuf, sbuf_init}

-- The symbol, and the parameters behind `&`.
abbrev pub symbol_text : Word → List Param → List ℕ
symbol_text w [] = bytes w
symbol_text w (p ∷ ps) = bytes w ++ (b'&' ∷ params_text (p ∷ ps))

-- A name as the comments of the code show it: `file:///<file>?<symbol>&<parameters>`.
abbrev pub format_uri : Word → Word → List Param → List ℕ
format_uri file symbol ps = codes "file:///" ++ (bytes file ++ (b'?' ∷ symbol_text symbol ps))

-- Where `parse_sym` starts and what it finds.
parse_sym-bytes :
    {mem : Bytes} (fuel : ℕ) (b : ScatterBuf) (out : ParsedUri) (w : Word)
    → length (bytes w) < fuel
    → IsAhead mem b (bytes w)
    → IsFree (b'&' ∷ []) (bytes w)
    → parse_sym fuel mem b out ≡ (0, record out { sym = b.cur; symlen = length (bytes w) })
unfolding parse_sym
parse_sym-bytes {mem} fuel b out w l h f =
    let whole : IsAhead mem b (bytes w ++ []) =
      subst (IsAhead mem b) (sym (append-nil (bytes w))) h in
    let past = b.cur + suc (length w.rest) in
    let back : past - b.cur ≡ length (bytes w) = omega arith in
    rw (many1-word fuel b (b'&' ∷ []) w.first w.rest [] (omega arith) whole f tt)
      (rw (back, end-IsAhead {b = move_to b past} [] (IsAhead-append b (bytes w) [] whole)) refl)

parse_sym-params :
    {mem : Bytes} (fuel : ℕ) (b : ScatterBuf) (out : ParsedUri) (w : Word) (p : Param)
    (ps : List Param)
    → length (bytes w) + length (params_text (p ∷ ps)) + 1 < fuel
    → IsAhead mem b (bytes w ++ (b'&' ∷ params_text (p ∷ ps)))
    → IsFree (b'&' ∷ []) (bytes w)
    → AreParams (p ∷ ps)
    → parse_sym fuel mem b out ≡ (
      0,
      with_versions
          (b.cur + length (bytes w) + 1)
          (p ∷ ps)
          (record out { sym = b.cur; symlen = length (bytes w) }),
    )
unfolding parse_sym
parse_sym-params {mem} fuel b out w p ps l h f g =
    let more = params_text (p ∷ ps) in
    let past = b.cur + suc (length w.rest) in
    let back : past - b.cur ≡ length (bytes w) = omega arith in
    let q = IsAhead-append b (bytes w) (b'&' ∷ more) h in
    rw
      (many1-word fuel b (b'&' ∷ []) w.first w.rest (b'&' ∷ more) (omega arith) h f
        (unfold is_one_of in refl))
      (rw (back, end-cons {b = move_to b past} b'&' more q, char_hit b'&' more q)
        (parse_params-params_text fuel (move_to b (past + 1))
          (record out { sym = b.cur; symlen = length (bytes w) }) (p ∷ ps) (omega arith)
          (IsAhead-append (move_to b past) (b'&' ∷ []) more q) g))

parse_sym-symbol_text :
    {mem : Bytes} (fuel : ℕ) (b : ScatterBuf) (out : ParsedUri) (w : Word) (ps : List Param)
    → length (symbol_text w ps) + 1 < fuel
    → IsAhead mem b (symbol_text w ps)
    → IsFree (b'&' ∷ []) (bytes w)
    → AreParams ps
    → parse_sym fuel mem b out ≡ (
      0,
      with_versions
          (b.cur + length (bytes w) + 1)
          ps
          (record out { sym = b.cur; symlen = length (bytes w) }),
    )
parse_sym-symbol_text fuel b out w [] l h f g =
    unfold with_versions in parse_sym-bytes fuel b out w (omega arith) h f
parse_sym-symbol_text fuel b out w (p ∷ ps) l h f g =
    parse_sym-params fuel b out w p ps
      (omega (arith, length-append (bytes w) (b'&' ∷ params_text (p ∷ ps)))) h f g

init-IsAhead :
    (mem : Bytes) (uri : ℕ) (text : List ℕ)
    → Holds mem uri text
    → uri + length text < u64_mod
    → length text < 2 ^ 31
    → let b : ScatterBuf = record {
      buf = uri;
      buf_end = uri + length text;
      start = uri;
      cur = uri;
    } in
      (sbuf_parser_init uri (length text) ≡ b) × IsAhead mem b text
unfolding sbuf_init
init-IsAhead mem uri text h fits short = (
  ground arith,
  record { begun = omega arith; ends = refl; short = short; in_range = fits; held = h },
)

-- A name `file:///<file>?<symbol>&<parameters>` is read as it was written: the file and the symbol by
-- their places, and as the version the value of the last parameter whose name is an initial part of
-- `_modver`.
pub parse_uri-format_uri :
    (mem : Bytes) (uri : ℕ) (file symbol : Word) (ps : List Param)
    → Holds mem uri (format_uri file symbol ps)
    → uri + length (format_uri file symbol ps) < u64_mod
    → length (format_uri file symbol ps) < 2 ^ 31
    → IsFree (b'?' ∷ []) (bytes file)
    → IsFree (b'&' ∷ []) (bytes symbol)
    → AreParams ps
    → let sym_at = uri + 8 + length (bytes file) + 1 in
      parse_uri mem uri (length (format_uri file symbol ps)) ≡ (
        0,
        with_versions (sym_at + length (bytes symbol) + 1) ps (record {
          file = uri + 8;
          sym = sym_at;
          ver = 0;
          filelen = length (bytes file);
          symlen = length (bytes symbol);
          verlen = 0;
        }),
      )
unfolding parse_uri
parse_uri-format_uri mem uri file symbol ps h fits short ff sf pf =
    let text = format_uri file symbol ps in
    let tail = symbol_text symbol ps in
    let start = init-IsAhead mem uri text h fits short in
    let b : ScatterBuf = record {
      buf = uri;
      buf_end = uri + length text;
      start = uri;
      cur = uri;
    } in
    let at_file = move_to b (uri + 7 + 1) in
    let slash =
      IsAhead-append b (codes "file://") (b'/' ∷ (bytes file ++ (b'?' ∷ tail))) (start.1) in
    let ahead : IsAhead mem at_file (bytes file ++ (b'?' ∷ tail)) =
      IsAhead-append (move_to b (uri + 7)) (codes "/") (bytes file ++ (b'?' ∷ tail)) slash in
    let mark = IsAhead-append at_file (bytes file) (b'?' ∷ tail) ahead in
    let past = uri + 7 + 1 + suc (length file.rest) in
    let symbol_ahead : IsAhead mem (move_to b (past + 1)) tail =
      IsAhead-append (move_to b past) (b'?' ∷ []) tail mark in
    let back : past - (uri + 7 + 1) ≡ length (bytes file) = omega arith in
    let eight : uri + 7 + 1 ≡ uri + 8 = omega arith in
    let sizes = length-append (bytes file) (b'?' ∷ tail) in
    rw (← eight, start.0)
      (rw (string-append b (codes "file://") (b'/' ∷ (bytes file ++ (b'?' ∷ tail))) (start.1)) (
        rw (string-append (move_to b (uri + 7)) (codes "/") (bytes file ++ (b'?' ∷ tail)) slash) (
          rw
            (many1-word (suc (length text)) at_file (b'?' ∷ []) file.first file.rest (b'?' ∷ tail)
              (omega (arith, sizes)) ahead ff (unfold is_one_of in refl))
            (rw (back, char_hit {b = move_to b past} b'?' tail mark)
              (parse_sym-symbol_text (suc (length text)) (move_to b (past + 1))
                (record unparsed { file = uri + 7 + 1; filelen = length (bytes file) }) symbol ps
                (omega (arith, sizes)) symbol_ahead sf pf)))))
