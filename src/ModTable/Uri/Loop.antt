-- ===== src/ModTable/Uri/Loop.antt =====
-- What the loop of `parse_uri` in src/mod_table.c finds in the parameters of a name.
use fastrpc.Common.{
  ℕ, zero, suc, ◌+◌, ◌-◌, ◌<◌, ◌≡◌, refl, sym, ◌∙◌, ap, subst, fun_ext, Bool, true, false, not,
  Bool-cases, inl, inr, Option, none, some, List, [], ◌∷◌, ◌++◌, length, length-append, ◌==◌,
  if◌then◌else◌, Bytes, at, arith,
}
use mathlib.Core.List.{append-nil, append_assoc}
use fastrpc.ModTable.Uri.{codes, ParsedUri, strncmp, take_version, parse_param, parse_params}
use fastrpc.ScatterBuf.Parser.Text.{
  Holds, IsAhead, IsAhead-append, end-IsAhead, end-cons, Stops, IsFree, char_hit, char_miss,
  char_end, many1-word,
}
use fastrpc.ScatterBuf.Parser.{is_one_of, sbuf_char}
use fastrpc.ScatterBuf.Plain.{move_to}
use fastrpc.ScatterBuf.{ScatterBuf}
use fastrpc.ModTable.Uri.Params.{
  Word, bytes, Param, value_text, param_text, params_text, IsParam, AreParams, is_prefix,
  with_version, with_versions,
}

at-at : (mem : Bytes) (pos : ℕ) → at (at mem pos) 1 ≡ at mem (pos + 1)
at-at mem pos = fun_ext (λ i. ap mem (omega arith))

-- `strncmp` with the length of a name compares with the initial part of that length.
strncmp-is_prefix :
    (mem : Bytes) (pos : ℕ) (w str rest : List ℕ)
    → Holds mem pos (w ++ rest)
    → IsFree (0 ∷ []) w
    → strncmp (at mem pos) str (length w) ≡ not (is_prefix w str)
unfolding strncmp is_prefix is_one_of
strncmp-is_prefix mem pos [] str rest h f = refl
strncmp-is_prefix mem pos (c ∷ w) [] rest h f =
    let here : mem (pos + 0) ≡ c = ap mem (omega arith) ∙ h.0 in ground arith
strncmp-is_prefix mem pos (c ∷ w) (d ∷ str) rest h f =
    let here : mem (pos + 0) ≡ c = ap mem (omega arith) ∙ h.0 in
    let ih = strncmp-is_prefix mem (pos + 1) w str rest (h.1) (f.1) in
    rw (at-at mem pos, here, ih)
      (elim (Bool-cases (c == d)) [ inl t ↦ rw t refl | inr n ↦ rw n refl ])

-- What stands behind a parameter is nothing or begins with `&`, which is consumed.
abbrev Separates : List ℕ → Type 0
Separates [] = Unit {0}
Separates (c ∷ text) = c ≡ b'&'

abbrev separator : List ℕ → ℕ
separator [] = 0
separator (c ∷ text) = 1

skip_separator :
    {mem : Bytes} (b : ScatterBuf) (text : List ℕ)
    → IsAhead mem b text
    → Separates text
    → (sbuf_char mem b'&' b).1 ≡ move_to b (b.cur + separator text)
skip_separator b [] h s = rw (char_end b'&' h) (ap (move_to b) (omega arith))
skip_separator b (c ∷ text) h s = rw (char_hit b'&' text (rw s at h)) refl

end_of_name :
    (v : Option Word) (text : List ℕ)
    → Separates text
    → Stops (b'&' ∷ b'=' ∷ []) (value_text v ++ text)
unfolding is_one_of
end_of_name none [] s = tt
end_of_name none (c ∷ text) s = rw s refl
end_of_name (some v) text s = refl

end_of_value : (text : List ℕ) → Separates text → Stops (b'&' ∷ []) text
unfolding is_one_of
end_of_value [] s = tt
end_of_value (c ∷ text) s = rw s refl

no_value :
    {mem : Bytes} {b : ScatterBuf} (text : List ℕ)
    → IsAhead mem b text
    → Separates text
    → sbuf_char mem b'=' b ≡ (false, b)
no_value [] h s = char_end b'=' h
no_value (c ∷ text) h s = char_miss b'=' c text h (rw s refl)

take_version-is_prefix :
    (mem : Bytes) (pos : ℕ) (w rest : List ℕ) (value value_len : ℕ) (out : ParsedUri)
    → Holds mem pos (w ++ rest)
    → IsFree (0 ∷ []) w
    → take_version mem pos (length w) value value_len out ≡ (
        if is_prefix w (codes "_modver")
        then record out { ver = value; verlen = value_len }
        else out)
unfolding take_version
take_version-is_prefix mem pos w rest value value_len out h f =
    rw (strncmp-is_prefix mem pos w (codes "_modver") rest h f)
      (elim (Bool-cases (is_prefix w (codes "_modver"))) [ inl t ↦ rw t refl | inr n ↦ rw n refl ])

-- What a round of the loop over the parameters leaves.
abbrev round_of : ScatterBuf → Param → List ℕ → ParsedUri → Bool × ScatterBuf × ParsedUri
round_of b p text out =
    (true, move_to b (b.cur + length (param_text p) + separator text), with_version b.cur p out)

module _ {mem : Bytes} (fuel : ℕ) (b : ScatterBuf) (out : ParsedUri) (w : Word) (text : List ℕ)
    (s : Separates text) (free : IsFree (b'&' ∷ b'=' ∷ []) (bytes w))
    (text_free : IsFree (0 ∷ []) (bytes w)) where
  round_none :
      length w.rest < fuel
      → IsAhead mem b (bytes w ++ text)
      → parse_param fuel mem b out ≡ round_of b (record { name = w; value = none }) text out
  unfolding parse_param
  round_none l h =
      let q = IsAhead-append b (bytes w) text h in
      let back : b.cur + suc (length w.rest) - b.cur ≡ length (bytes w) = omega arith in
      rw
        (many1-word fuel b (b'&' ∷ b'=' ∷ []) w.first w.rest text l h free
          (end_of_name none text s))
        (rw (no_value text q s) (
          rw (back, skip_separator (move_to b (b.cur + suc (length w.rest))) text q s)
            (rw (take_version-is_prefix mem b.cur (bytes w) text 0 0 out h.held text_free) (
              ap
                (λ (n : ℕ). (
                  true,
                  move_to b (b.cur + n + separator text),
                  with_version b.cur (record { name = w; value = none }) out,
                ))
                (omega (arith, length-append w.rest []))))))

  round_some :
      (v : Word)
      → length (bytes w) + length (bytes v) < fuel
      → IsAhead mem b (bytes w ++ (b'=' ∷ (bytes v ++ text)))
      → IsFree (b'&' ∷ []) (bytes v)
      → parse_param fuel mem b out ≡ round_of b (record { name = w; value = some v }) text out
  unfolding parse_param
  round_some v l h value_free =
      let q = IsAhead-append b (bytes w) (b'=' ∷ (bytes v ++ text)) h in
      let at_value = move_to b (b.cur + suc (length w.rest) + 1) in
      let q1 : IsAhead _ at_value (bytes v ++ text) =
        IsAhead-append (move_to b (b.cur + suc (length w.rest))) (b'=' ∷ []) (bytes v ++ text) q in
      let q2 = IsAhead-append at_value (bytes v) text q1 in
      let back : b.cur + suc (length w.rest) - b.cur ≡ length (bytes w) = omega arith in
      let back2 : b.cur
            + suc (length w.rest)
            + 1
            + suc (length v.rest)
            - (b.cur + suc (length w.rest) + 1)
          ≡ length (bytes v) =
        omega arith in
      rw
        (many1-word fuel b (b'&' ∷ b'=' ∷ []) w.first w.rest (b'=' ∷ (bytes v ++ text))
          (omega arith) h free (unfold is_one_of in refl))
        (rw (char_hit b'=' (bytes v ++ text) q) (
          rw
            (many1-word fuel at_value (b'&' ∷ []) v.first v.rest text (omega arith) q1 value_free
              (end_of_value text s))
            (rw
              (
                back,
                back2,
                skip_separator (move_to b (at_value.cur + suc (length v.rest))) text q2 s,
              )
              (rw
                (take_version-is_prefix mem b.cur (bytes w) (b'=' ∷ (bytes v ++ text)) at_value.cur
                  (length (bytes v)) out h.held text_free)
                (ap
                  (λ (n : ℕ). (
                    true,
                    move_to b (n + separator text),
                    with_version b.cur (record { name = w; value = some v }) out,
                  ))
                  (omega (arith, length-append (bytes w) (b'=' ∷ bytes v))))))))

-- A round takes a parameter with what separates it from the next.
parse_param-param_text :
    {mem : Bytes} (fuel : ℕ) (b : ScatterBuf) (out : ParsedUri) (name : Word) (value : Option Word)
    (text : List ℕ)
    → let p : Param = record { name = name; value = value } in
      length (param_text p) < fuel
      → IsAhead mem b (param_text p ++ text)
      → IsParam p
      → Separates text
      → parse_param fuel mem b out ≡ round_of b p text out
parse_param-param_text {mem} fuel b out w none text l h f s =
    round_none fuel b out w text s (f.0) (f.1) (omega (arith, length-append w.rest []))
      (subst (λ (t : List ℕ). IsAhead mem b (t ++ text)) (append-nil (bytes w)) h)
parse_param-param_text {mem} fuel b out w (some v) text l h f s =
    round_some fuel b out w text s (f.0) (f.1) v
      (omega (arith, length-append (bytes w) (b'=' ∷ bytes v)))
      (subst (IsAhead mem b) (append_assoc (bytes w) (b'=' ∷ bytes v) text) h) (f.2)

-- The loop takes all parameters.
pub parse_params-params_text :
    {mem : Bytes} (fuel : ℕ) (b : ScatterBuf) (out : ParsedUri) (ps : List Param)
    → length (params_text ps) + 1 < fuel
    → IsAhead mem b (params_text ps)
    → AreParams ps
    → parse_params fuel mem b out ≡ (0, with_versions b.cur ps out)
unfolding parse_params with_versions
parse_params-params_text zero b out ps l h f = absurd (omega arith)
parse_params-params_text (suc fuel) b out [] l h f = rw (end-IsAhead [] h) refl
parse_params-params_text {mem} (suc fuel) b out (p ∷ []) l h f =
    let whole : IsAhead mem b (param_text p ++ []) =
      subst (IsAhead mem b) (sym (append-nil (param_text p))) h in
    let r = parse_param-param_text fuel b out p.name p.value [] (omega arith) whole (f.0) tt in
    let past = b.cur + length (param_text p) in
    let e : past + 0 ≡ past = omega arith in
    let rest : parse_params fuel mem (move_to b past) (with_version b.cur p out)
        ≡ (0, with_version b.cur p out) =
      parse_params-params_text fuel (move_to b past) (with_version b.cur p out) [] (omega arith)
        (IsAhead-append b (param_text p) [] whole) tt in
    rw (end-cons p.name.first _ h) (rw r (rw e rest))
parse_params-params_text {mem} (suc fuel) b out (p ∷ q ∷ ps) l h f =
    let more = params_text (q ∷ ps) in
    let longer = length-append (param_text p) (b'&' ∷ more) in
    let r =
      parse_param-param_text fuel b out p.name p.value (b'&' ∷ more) (omega (arith, longer)) h (f.0)
        refl in
    let past = b.cur + length (param_text p) in
    let ahead : IsAhead mem (move_to b (past + 1)) more =
      IsAhead-append (move_to b past) (b'&' ∷ []) more
        (IsAhead-append b (param_text p) (b'&' ∷ more) h) in
    rw (end-cons p.name.first _ h) (
      rw r (
        parse_params-params_text fuel (move_to b (past + 1)) (with_version b.cur p out) (q ∷ ps)
          (omega (arith, longer)) ahead (f.1)))
