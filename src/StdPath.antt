-- ===== src/StdPath.antt =====
-- src/std_path.c: joining and splitting paths. A C string is the list of its bytes before the NUL.
pub mod Joining
mod Tests
use fastrpc.Common.{
  ℕ, zero, suc, ◌+◌, ◌-◌, ◌≡◌, Bool, true, false, not, ◌&&◌, Option, none, some, List, [], ◌∷◌,
  ◌++◌, arith, leb, ltb, ◌==◌, if◌then◌else◌, length, Bytes, ℤ,
}
use fastrpc.BufBound
use fastrpc.BufBound.{BufBound}

abbrev pub slash : ℕ
slash = b'/'

-- The bytes of a string, with its NUL.
abbrev pub chars : List ℕ → Bytes
chars [] i = 0
chars (c ∷ s) zero = c
chars (c ∷ s) (suc i) = chars s i

-- `'\0' != s[0] && '/' != s[strlen(s) - 1]`
unfoldable pub lacks_slash : List ℕ → Bool
lacks_slash s = not (length s == 0) && not (chars s (length s - 1) == slash)

-- `if ('/' == s[0]) s++`
unfoldable pub skip_slash : List ℕ → List ℕ
skip_slash [] = []
skip_slash (c ∷ s) = if c == slash then s else c ∷ s

-- `std_makepath`: the buffer at the end and, as the value returned, one less than what it has counted.
unfoldable pub makepath : List ℕ → List ℕ → Bytes → ℤ → BufBound × ℕ
makepath dir file out len =
    let bb1 = BufBound.puts (BufBound.init out len) (chars dir) (length dir) in
    let bb2 = if lacks_slash dir then BufBound.putc bb1 slash else bb1 in
    let bb3 = BufBound.puts bb2 (chars (skip_slash file)) (length (skip_slash file)) in
    let bb4 = BufBound.force_null_term bb3 in (bb4, BufBound.wrote bb4 - 1)

-- The end of `std_splitpath`: a slash is skipped, and anything else but the end is refused.
unfoldable pub split_rest : List ℕ → Option (List ℕ)
split_rest [] = some []
split_rest (c ∷ s) = if c == slash then some s else none

-- The directory is used up, or only a slash of it is left.
unfoldable pub dir_done : List ℕ → Bool
dir_done [] = true
dir_done (d ∷ []) = d == slash
dir_done (d ∷ e ∷ ds) = false

-- `std_splitpath`
unfoldable pub splitpath : List ℕ → List ℕ → Option (List ℕ)
unfolding split_rest dir_done
splitpath path [] = split_rest path
splitpath [] (d ∷ ds) = if dir_done (d ∷ ds) then split_rest [] else none
splitpath (c ∷ cs) (d ∷ ds) =
    if dir_done (d ∷ ds) then split_rest (c ∷ cs) else if d == c then splitpath cs ds else none

-- The search of `strrchr` for the last slash, where `found` is what the name would be so far.
unfoldable pub basename_from : List ℕ → List ℕ → List ℕ
basename_from found [] = found
basename_from found (c ∷ s) = basename_from (if c == slash then s else found) s

-- `std_basename`
unfoldable pub basename : List ℕ → List ℕ
unfolding basename_from
basename s = basename_from s s
