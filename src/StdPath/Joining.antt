-- ===== src/StdPath/Joining.antt =====
-- What `std_makepath` writes, and how `std_splitpath` and `std_basename` take it apart.
use fastrpc.Common.{
  ℕ, ◌≡◌, ◌≢◌, ◌⊎◌, refl, sym, ap, subst, ◌∙◌, inl, inr, Bool-cases, List, [], ◌∷◌, ◌++◌, arith,
  ◌==◌, if◌then◌else◌,
}
use fastrpc.BufBound
use fastrpc.BufBound.{BufBound}
use fastrpc.StdPath.{slash, lacks_slash, skip_slash, basename_from, basename}

-- The path that is meant: one slash between the directory and the file.
unfoldable pub full_path : List ℕ → List ℕ → List ℕ
full_path dir file = (dir ++ (if lacks_slash dir then slash ∷ [] else [])) ++ skip_slash file

-- No character is a slash.
abbrev pub Slashless : List ℕ → Type 0
Slashless [] = Unit
Slashless (c ∷ s) = (c ≢ slash) × Slashless s

-- The name in a path: all of it if it has no slash, else what stands behind the last slash.
abbrev pub IsName : List ℕ → List ℕ → List ℕ → Type 0
IsName found path name =
    (Slashless path × (name ≡ found))
    ⊎ ((dir : List ℕ) × (path ≡ dir ++ slash ∷ name) × Slashless name)

basename_from-IsName : (found path : List ℕ) → IsName found path (basename_from found path)
unfolding basename_from
basename_from-IsName found [] = inl (tt, refl)
basename_from-IsName found (c ∷ s) = elim (Bool-cases (c == slash)) [
  | inl t ↦ rw t (elim (basename_from-IsName s s) [
    | inl u ↦ inr ([], ap2 c s _ (ground arith) (sym u.1), subst Slashless (sym u.1) u.0)
    | inr u ↦ inr (c ∷ u.0, ap (λ x. c ∷ x) u.1, u.2)
  ])
  | inr t ↦ rw t (elim (basename_from-IsName found s) [
    | inl u ↦ inl ((ground arith, u.0), u.1)
    | inr u ↦ inr (c ∷ u.0, ap (λ x. c ∷ x) u.1, u.2)
  ])
]
  where
    ap2 : (c : ℕ) (s t : List ℕ) → c ≡ slash → s ≡ t → c ∷ s ≡ slash ∷ t
    ap2 c s t e f = ap (λ x. x ∷ s) e ∙ ap (λ x. slash ∷ x) f

-- `std_basename` gives the whole path if it has no slash, and else what stands behind its last slash:
-- the path is some directory, a slash, and the name, which has no slash.
pub basename-IsName : (path : List ℕ) → IsName path path (basename path)
unfolding basename
basename-IsName path = basename_from-IsName path path
