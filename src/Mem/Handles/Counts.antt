-- ===== src/Mem/Handles/Counts.antt =====
-- The DMA handles as a count of registrations for each file descriptor.
use fastrpc.Common.{
  ℕ, ◌+◌, ◌-◌, ◌≡◌, refl, sym, subst, true, false, Bool-cases, none, some, inl, inr, ◌⊎◌, List, [],
  ◌∷◌, ◌++◌, ◌==◌, if◌then◌else◌, find, update_first, arith,
}
use fastrpc.Mem.Handles.{DmaHandle, holds, is_free, use_again, new_handle, use_less}

-- How often a file descriptor is registered.
unfoldable pub uses : ℕ → List DmaHandle → ℕ
uses fd [] = 0
uses fd (h ∷ hs) = let rest = uses fd hs in if holds fd h then h.used else rest

-- Each file descriptor is in use in one entry at most.
abbrev pub IsSingle : List DmaHandle → Type 0
IsSingle [] = Unit {0}
IsSingle (h ∷ hs) = ((h.used ≡ 0) ⊎ (uses h.fd hs ≡ 0)) × IsSingle hs

-- The count once one registration of `fd` is added.
abbrev pub one_more : ℕ → ℕ → ℕ → ℕ
one_more fd fd' n = if fd' == fd then n + 1 else n

abbrev pub one_fewer : ℕ → ℕ → ℕ → ℕ
one_fewer fd fd' n = if fd' == fd then n - 1 else n

pub uses_again :
    (attr fd fd' : ℕ) (hs : List DmaHandle) (h : DmaHandle)
    → find (holds fd) hs ≡ some h
    → uses fd' (update_first (holds fd) (use_again attr) hs) ≡ one_more fd fd' (uses fd' hs)
unfolding uses find update_first
uses_again attr fd fd' [] h e = ground arith
uses_again attr fd fd' (x ∷ xs) h e = ground (arith, uses_again attr fd fd' xs h)

pub absent_uses : (fd : ℕ) (hs : List DmaHandle) → find (holds fd) hs ≡ none → uses fd hs ≡ 0
unfolding uses find
absent_uses fd [] e = refl
absent_uses fd (x ∷ xs) e = ground (arith, absent_uses fd xs)

pub uses_claimed :
    (fd fd' len attr : ℕ) (hs : List DmaHandle) (h : DmaHandle)
    → find is_free hs ≡ some h
    → uses fd hs ≡ 0
    → uses fd' (update_first is_free (λ x. new_handle fd len attr) hs)
      ≡ one_more fd fd' (uses fd' hs)
unfolding uses find update_first
uses_claimed fd fd' len attr [] h e z = ground arith
uses_claimed fd fd' len attr (x ∷ xs) h e z = ground (arith, uses_claimed fd fd' len attr xs h)

pub uses_new :
    (fd fd' len attr : ℕ) (hs : List DmaHandle)
    → uses fd hs ≡ 0
    → uses fd' (hs ++ new_handle fd len attr ∷ []) ≡ one_more fd fd' (uses fd' hs)
unfolding uses
uses_new fd fd' len attr [] z = ground arith
uses_new fd fd' len attr (x ∷ xs) z = ground (arith, uses_new fd fd' len attr xs)

pub use_again-IsSingle :
    (attr fd : ℕ) (hs : List DmaHandle) (h : DmaHandle)
    → find (holds fd) hs ≡ some h
    → IsSingle hs
    → IsSingle (update_first (holds fd) (use_again attr) hs)
unfolding find update_first
use_again-IsSingle attr fd [] h e s = tt
use_again-IsSingle attr fd (x ∷ xs) h e s = elim (Bool-cases (holds fd x)) [
  | inl t ↦ rw t (inr (elim s.0 [ inl z ↦ absurd (ground arith) | inr u ↦ u ]), s.1)
  | inr f ↦
      let later : find (holds fd) xs ≡ some h = ground arith in
      let kept = uses_again attr fd x.fd xs h later in
      let first : (x.used ≡ 0) ⊎ (uses x.fd (update_first (holds fd) (use_again attr) xs) ≡ 0) =
        ground (arith, s.0) in
      rw f (first, use_again-IsSingle attr fd xs h later s.1)
]

pub update_first-IsSingle :
    (fd len attr : ℕ) (hs : List DmaHandle) (h : DmaHandle)
    → find is_free hs ≡ some h
    → uses fd hs ≡ 0
    → IsSingle hs
    → IsSingle (update_first is_free (λ x. new_handle fd len attr) hs)
unfolding find update_first uses
update_first-IsSingle fd len attr [] h e z s = tt
update_first-IsSingle fd len attr (x ∷ xs) h e z s = elim (Bool-cases (is_free x)) [
  | inl t ↦ let none_used : uses fd xs ≡ 0 = ground arith in rw t (inr none_used, s.1)
  | inr f ↦
      let later : find is_free xs ≡ some h = ground arith in
      let none_used : uses fd xs ≡ 0 = ground arith in
      let kept = uses_claimed fd x.fd len attr xs h later none_used in
      let first : (x.used ≡ 0)
          ⊎ (uses x.fd (update_first is_free (λ x. new_handle fd len attr) xs) ≡ 0) =
        ground (arith, s.0) in
      rw f (first, update_first-IsSingle fd len attr xs h later none_used s.1)
]

pub append-IsSingle :
    (fd len attr : ℕ) (hs : List DmaHandle)
    → uses fd hs ≡ 0
    → IsSingle hs
    → IsSingle (hs ++ new_handle fd len attr ∷ [])
unfolding uses
append-IsSingle fd len attr [] z s = (inr refl, tt)
append-IsSingle fd len attr (x ∷ xs) z s =
    let none_used : uses fd xs ≡ 0 = ground arith in
    let kept = uses_new fd x.fd len attr xs none_used in
    let first : (x.used ≡ 0) ⊎ (uses x.fd (xs ++ new_handle fd len attr ∷ []) ≡ 0) =
      ground (arith, s.0) in
    (first, append-IsSingle fd len attr xs none_used s.1)

pub uses_less :
    (fd fd' : ℕ) (hs : List DmaHandle)
    → IsSingle hs
    → uses fd' (update_first (holds fd) use_less hs) ≡ one_fewer fd fd' (uses fd' hs)
unfolding uses update_first
uses_less fd fd' [] s = ground arith
uses_less fd fd' (x ∷ xs) s =
    let later = uses_less fd fd' xs s.1 in
    elim (Bool-cases (holds fd x)) [
      | inr f ↦ elim (Bool-cases (holds fd' x)) [
        | inl t ↦ let other : (fd' == fd) ≡ false = ground arith in rw (f, t, other) refl
        | inr n ↦ rw (f, n) later
      ]
      | inl t ↦
          let none_left : uses fd xs ≡ 0 = elim s.0 [
            | inl z ↦ absurd (ground arith)
            | inr u ↦ let same : x.fd ≡ fd = ground arith in subst (λ a. uses a xs ≡ 0) same u
          ] in
          elim (Bool-cases (fd' == fd)) [
            | inl same ↦
                let e : fd' ≡ fd = ground arith in
                let none_left' : uses fd' xs ≡ 0 = subst (λ a. uses a xs ≡ 0) (sym e) none_left in
                let t' : holds fd' x ≡ true = ground arith in
                rw (t, t', same) (ground (arith, none_left'))
            | inr other ↦
                let f' : holds fd' x ≡ false = ground arith in rw (t, f', other) (ground arith)
          ]
    ]

pub use_less-IsSingle :
    (fd : ℕ) (hs : List DmaHandle) → IsSingle hs → IsSingle (update_first (holds fd) use_less hs)
unfolding update_first
use_less-IsSingle fd [] s = tt
use_less-IsSingle fd (x ∷ xs) s =
    let kept = uses_less fd x.fd xs s.1 in
    elim (Bool-cases (holds fd x)) [
      | inl t ↦ rw t (inr (elim s.0 [ inl z ↦ absurd (ground arith) | inr u ↦ u ]), s.1)
      | inr f ↦
          let first : (x.used ≡ 0) ⊎ (uses x.fd (update_first (holds fd) use_less xs) ≡ 0) =
            ground (arith, s.0) in
          rw f (first, use_less-IsSingle fd xs s.1)
    ]
