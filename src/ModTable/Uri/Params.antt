-- ===== src/ModTable/Uri/Params.antt =====
-- The names that `parse_uri` of src/mod_table.c is for, and what their versions are.
use fastrpc.Common.{
  ℕ, ◌+◌, Bool, true, false, ◌&&◌, Option, none, some, List, [], ◌∷◌, ◌++◌, length, ◌==◌,
  if◌then◌else◌,
}
use fastrpc.ModTable.Uri.{codes, ParsedUri}
use fastrpc.ScatterBuf.Parser.Text.{IsFree}

-- A text with a first byte.
pub record Word : Type 0 where
  pub first : ℕ
  pub rest : List ℕ

abbrev pub bytes : Word → List ℕ
bytes w = w.first ∷ w.rest

-- A parameter: its name and, behind `=`, its value.
pub record Param : Type 0 where
  pub name : Word
  pub value : Option Word

abbrev pub value_text : Option Word → List ℕ
value_text none = []
value_text (some v) = b'=' ∷ bytes v

abbrev pub param_text : Param → List ℕ
param_text p = bytes p.name ++ value_text p.value

-- The parameters, with `&` between them.
abbrev pub params_text : List Param → List ℕ
params_text [] = []
params_text (p ∷ []) = param_text p
params_text (p ∷ q ∷ ps) = param_text p ++ (b'&' ∷ params_text (q ∷ ps))

-- A name contains no NUL and none of the characters that end it, and neither does a value.
abbrev pub IsParam : Param → Type 0
IsParam p =
    IsFree (b'&' ∷ b'=' ∷ []) (bytes p.name)
    × IsFree (0 ∷ []) (bytes p.name)
    × (elim p.value [ none ↦ Unit {0} | some v ↦ IsFree (b'&' ∷ []) (bytes v) ])

abbrev pub AreParams : List Param → Type 0
AreParams [] = Unit {0}
AreParams (p ∷ ps) = IsParam p × AreParams ps

-- The first text is an initial part of the second.
unfoldable pub is_prefix : List ℕ → List ℕ → Bool
is_prefix [] str = true
is_prefix (c ∷ w) [] = false
is_prefix (c ∷ w) (d ∷ str) = c == d && is_prefix w str

-- The result with the value of a parameter at `pos` as the version.
abbrev pub with_version : ℕ → Param → ParsedUri → ParsedUri
with_version pos p out =
    if is_prefix (bytes p.name) (codes "_modver")
    then (elim p.value [
      | none ↦ record out { ver = 0; verlen = 0 }
      | some v ↦ record out { ver = pos + length (bytes p.name) + 1; verlen = length (bytes v) }
    ])
    else out

-- The same for all parameters in their order.
unfoldable pub with_versions : ℕ → List Param → ParsedUri → ParsedUri
with_versions pos [] out = out
with_versions pos (p ∷ ps) out =
    with_versions (pos + length (param_text p) + 1) ps (with_version pos p out)
