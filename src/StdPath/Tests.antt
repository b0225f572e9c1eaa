-- ===== src/StdPath/Tests.antt =====
-- Tests of the path functions, on "a/b" and "c".
use fastrpc.Common.{ℕ, List, [], ◌∷◌, Bytes}
use fastrpc.StdPath.{slash}

abbrev dots : Bytes
dots i = 46

-- "a/b"
abbrev a_b : List ℕ
a_b = 97 ∷ slash ∷ 98 ∷ []

abbrev just_c : List ℕ
just_c = 99 ∷ []
