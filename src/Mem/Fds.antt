-- ===== src/Mem/Fds.antt =====
-- Mapping lists in which each file descriptor is mapped once.
use fastrpc.Common.{
  ℕ, ◌+◌, ◌-◌, ◌≡◌, ◌≢◌, sym, Bool, Bool-cases, none, inl, inr, arith, ◌==◌, List, [], ◌∷◌, ◌++◌,
  find, remove_first, update_first,
}
use fastrpc.DspQueue.State.{StaticMap}
use fastrpc.DspQueue.Refs.{RefChange, keep, gain, lose, other, ref_map, ref_list}
use fastrpc.Mem.Static.{has_fd, set_refs}

-- No mapping of the list is of `fd`.
abbrev pub IsFresh : ℕ → List StaticMap → Type 0
IsFresh fd [] = Unit {0}
IsFresh fd (n ∷ ns) = (n.fd ≢ fd) × IsFresh fd ns

-- No two mappings of the list are of the same file descriptor.
abbrev pub IsDistinct : List StaticMap → Type 0
IsDistinct [] = Unit {0}
IsDistinct (n ∷ ns) = IsFresh n.fd ns × IsDistinct ns

pub find-IsFresh : (fd : ℕ) (ns : List StaticMap) → find (has_fd fd) ns ≡ none → IsFresh fd ns
unfolding find
find-IsFresh fd [] h = tt
find-IsFresh fd (n ∷ ns) h = elim (Bool-cases (n.fd == fd)) [
  | inl t ↦ absurd (ground arith)
  | inr f ↦ (ground arith, find-IsFresh fd ns (ground arith))
]

append-IsFresh :
    (fd : ℕ) (ns : List StaticMap) (n : StaticMap)
    → IsFresh fd ns
    → n.fd ≢ fd
    → IsFresh fd (ns ++ n ∷ [])
append-IsFresh fd [] n h ne = (ne, tt)
append-IsFresh fd (x ∷ xs) n h ne = (h.0, append-IsFresh fd xs n h.1 ne)

pub append-IsDistinct :
    (ns : List StaticMap) (n : StaticMap)
    → IsDistinct ns
    → IsFresh n.fd ns
    → IsDistinct (ns ++ n ∷ [])
append-IsDistinct [] n h f = (tt, tt)
append-IsDistinct (x ∷ xs) n h f =
    (append-IsFresh x.fd xs n h.0 (λ e. f.0 (sym e)), append-IsDistinct xs n h.1 f.1)

module _ (test : StaticMap → Bool) where
  remove_first-IsFresh :
      (fd : ℕ) (ns : List StaticMap) → IsFresh fd ns → IsFresh fd (remove_first test ns)
  unfolding remove_first
  remove_first-IsFresh fd [] h = tt
  remove_first-IsFresh fd (n ∷ ns) h = elim (Bool-cases (test n)) [
    | inl t ↦ rw t h.1
    | inr f ↦ rw f (h.0, remove_first-IsFresh fd ns h.1)
  ]

  pub remove_first-IsDistinct :
      (ns : List StaticMap) → IsDistinct ns → IsDistinct (remove_first test ns)
  unfolding remove_first
  remove_first-IsDistinct [] h = tt
  remove_first-IsDistinct (n ∷ ns) h = elim (Bool-cases (test n)) [
    | inl t ↦ rw t h.1
    | inr f ↦ rw f (remove_first-IsFresh n.fd ns h.0, remove_first-IsDistinct ns h.1)
  ]

  pub update_first-IsFresh :
      (refs fd : ℕ) (ns : List StaticMap)
      → IsFresh fd ns
      → IsFresh fd (update_first test (set_refs refs) ns)
  unfolding update_first
  update_first-IsFresh refs fd [] h = tt
  update_first-IsFresh refs fd (n ∷ ns) h = elim (Bool-cases (test n)) [
    | inl t ↦ rw t h
    | inr f ↦ rw f (h.0, update_first-IsFresh refs fd ns h.1)
  ]

  pub update_first-IsDistinct :
      (refs : ℕ) (ns : List StaticMap)
      → IsDistinct ns
      → IsDistinct (update_first test (set_refs refs) ns)
  unfolding update_first
  update_first-IsDistinct refs [] h = tt
  update_first-IsDistinct refs (n ∷ ns) h = elim (Bool-cases (test n)) [
    | inl t ↦ rw t h
    | inr f ↦ rw f (update_first-IsFresh refs n.fd ns h.0, update_first-IsDistinct refs ns h.1)
  ]

-- What becomes of the mapping that is found: only its count changes.
ref_map_outcome :
    (p : List StaticMap → Type 0) (n : StaticMap) (c : RefChange) (ns : List StaticMap)
    → ((refs : ℕ) → p (set_refs refs n ∷ ns))
    → p (ref_map n c ns).maps
unfolding ref_map
ref_map_outcome p n keep ns k = elim (Bool-cases (n.refs == 0)) [
  | inl t ↦ rw t (k n.refs)
  | inr f ↦ rw f (k n.refs)
]
ref_map_outcome p n gain ns k = elim (Bool-cases (n.refs == 0)) [
  | inl t ↦ rw t (k n.refs)
  | inr f ↦ rw f (k (n.refs + 1))
]
ref_map_outcome p n other ns k = elim (Bool-cases (n.refs == 0)) [
  | inl t ↦ rw t (k n.refs)
  | inr f ↦ rw f (k n.refs)
]
ref_map_outcome p n lose ns k = elim (Bool-cases (n.refs == 0)) [
  | inl t ↦ rw t (k n.refs)
  | inr f ↦ elim (Bool-cases (n.refs == 1)) [
    | inl o ↦ rw (f, o) (k n.refs)
    | inr b ↦ rw (f, b) (k (n.refs - 1))
  ]
]

ref_list-IsFresh :
    (fd a : ℕ) (c : RefChange) (ns : List StaticMap)
    → IsFresh a ns
    → IsFresh a (ref_list ns fd c).maps
unfolding ref_list
ref_list-IsFresh fd a c [] h = tt
ref_list-IsFresh fd a c (n ∷ ns) h = elim (Bool-cases (n.fd == fd)) [
  | inl t ↦ rw t (ref_map_outcome (IsFresh a) n c ns (λ refs. h))
  | inr f ↦ rw f (h.0, ref_list-IsFresh fd a c ns h.1)
]

pub ref_list-IsDistinct :
    (fd : ℕ) (c : RefChange) (ns : List StaticMap)
    → IsDistinct ns
    → IsDistinct (ref_list ns fd c).maps
unfolding ref_list
ref_list-IsDistinct fd c [] h = tt
ref_list-IsDistinct fd c (n ∷ ns) h = elim (Bool-cases (n.fd == fd)) [
  | inl t ↦ rw t (ref_map_outcome IsDistinct n c ns (λ refs. h))
  | inr f ↦ rw f (ref_list-IsFresh fd n.fd c ns h.0, ref_list-IsDistinct fd c ns h.1)
]
