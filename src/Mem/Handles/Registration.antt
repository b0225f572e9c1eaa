-- ===== src/Mem/Handles/Registration.antt =====
-- Registering and unregistering a DMA handle, as changes of the counts of registrations.
use fastrpc.Common.{
  ℕ, zero, suc, ◌+◌, ◌-◌, ◌≤◌, ◌<◌, ◌≡◌, ◌≢◌, refl, sym, ap, ◌∙◌, subst, Bool, Bool-cases, not,
  ◌&&◌, ◌||◌, none, inl, inr, ◌⊎◌, List, [], ◌∷◌, ltb, ◌==◌, if◌then◌else◌, pos, find, update_first,
  length, length-append, arith, Option-cases,
}
use fastrpc.Mem.Handles.{
  DmaHandle, holds, is_free, use_again, new_handle, claim, register_handle, take_handles, seek,
  use_less, unregister_handle, max_dma_handles, attr_nomap,
}
use fastrpc.Mem.Handles.Counts.{
  uses, IsSingle, one_more, one_fewer, uses_again, absent_uses, uses_claimed, uses_new,
  use_again-IsSingle, update_first-IsSingle, append-IsSingle, uses_less, use_less-IsSingle,
}
use fastrpc.Mem.Handles.Cut.{cut_uses}

length-update :
    (p : DmaHandle → Bool) (f : DmaHandle → DmaHandle) (hs : List DmaHandle)
    → length (update_first p f hs) ≡ length hs
unfolding update_first
length-update p f [] = refl
length-update p f (x ∷ xs) = elim (Bool-cases (p x)) [
  | inl t ↦ rw t refl
  | inr n ↦ rw n (ap suc (length-update p f xs))
]

take_unused : (fd k : ℕ) (hs : List DmaHandle) → uses fd hs ≡ 0 → uses fd (take_handles k hs) ≡ 0
unfolding uses take_handles
take_unused fd zero hs z = refl
take_unused fd (suc k) [] z = refl
take_unused fd (suc k) (x ∷ xs) z = ground (arith, take_unused fd k xs)

take-IsSingle : (k : ℕ) (hs : List DmaHandle) → IsSingle hs → IsSingle (take_handles k hs)
unfolding take_handles
take-IsSingle zero hs s = tt
take-IsSingle (suc k) [] s = tt
take-IsSingle (suc k) (x ∷ xs) s =
    (elim s.0 [ inl z ↦ inl z | inr u ↦ inr (take_unused x.fd k xs u) ], take-IsSingle k xs s.1)

length-take : (k : ℕ) (hs : List DmaHandle) → length (take_handles k hs) ≤ length hs
unfolding take_handles
length-take zero hs = omega arith
length-take (suc k) [] = omega arith
length-take (suc k) (x ∷ xs) = let rest = length-take k xs in omega arith

-- Each file descriptor is in use in one entry at most, of at most 256.
abbrev pub IsTable : List DmaHandle → Type 0
IsTable hs = IsSingle hs × (length hs ≤ 256)

-- What registering `fd` comes to: one more registration of it, and no other; or an error, and nothing.
abbrev pub Registers : ℕ → List DmaHandle → ℕ × List DmaHandle → Type 0
Registers fd hs (code, hs') =
    ((code ≡ 0) × (((fd' : ℕ) → uses fd' hs' ≡ one_more fd fd' (uses fd' hs)) × IsTable hs'))
    ⊎ ((code ≢ 0) × (hs' ≡ hs))

claim-Registers :
    (fd len attr : ℕ) (hs : List DmaHandle)
    → IsTable hs
    → uses fd hs ≡ 0
    → Registers fd hs (claim hs (new_handle fd len attr))
unfolding claim
claim-Registers fd len attr hs t z = elim (Option-cases (find is_free hs)) [
  | inr (old, e) ↦
      let same = length-update is_free (λ x. new_handle fd len attr) hs in
      let few = t.1 in
      rw (claim, e)
        (inl (
          refl,
          (
            (λ fd'. uses_claimed fd fd' len attr hs old e z),
            (update_first-IsSingle fd len attr hs old e z t.0, omega arith),
          ),
        ))
  | inl full ↦ elim (Bool-cases (ltb (length hs) max_dma_handles)) [
    | inr f ↦ rw (claim, full, f) (inr (omega arith, refl))
    | inl u ↦
        let longer = length-append hs (new_handle fd len attr ∷ []) in
        let room : length hs < 256 = ground arith in
        rw (claim, full, u)
          (inl (
            refl,
            (
              (λ fd'. uses_new fd fd' len attr hs z),
              (append-IsSingle fd len attr hs z t.0, omega arith),
            ),
          ))
  ]
]

-- On a table of at most 256 entries where each file descriptor is in use once: registering `fd` either
-- adds one to its registrations, changes those of no other file descriptor, and leaves such a table; or
-- the code is an error and nothing is changed.
pub register_handle-Registers :
    (init_once : ℕ) (hs : List DmaHandle) (fd len attr : ℕ)
    → IsTable hs
    → Registers fd hs (register_handle init_once hs (pos fd) len attr)
unfolding register_handle
register_handle-Registers init_once hs fd len attr t = elim (Bool-cases (not (init_once == 0))) [
  | inl bad ↦ rw bad (inr (ground arith, refl))
  | inr ready ↦ elim (Bool-cases (not (attr == 0 || attr == attr_nomap))) [
    | inl bad ↦ rw (ready, bad) (inr (omega arith, refl))
    | inr good ↦ elim (Option-cases (find (holds fd) hs)) [
      | inl absent ↦
          rw (register_handle, ready, good, absent)
            (claim-Registers fd len attr hs t (absent_uses fd hs absent))
      | inr (h, there) ↦
          let same = length-update (holds fd) (use_again attr) hs in
          let few = t.1 in
          rw (register_handle, ready, good, there)
            (inl (
              refl,
              (
                (λ fd'. uses_again attr fd fd' hs h there),
                (use_again-IsSingle attr fd hs h there t.0, omega arith),
              ),
            ))
    ]
  ]
]

-- A search without a result.
seek-uses :
    (fd i last_used : ℕ) (hs : List DmaHandle) → seek fd i last_used hs ≡ none → uses fd hs ≡ 0
unfolding seek uses
seek-uses fd i last_used [] e = refl
seek-uses fd i last_used (x ∷ xs) e =
    ground (arith, seek-uses fd (i + 1) (if is_free x then last_used else i) xs)

unused_same :
    (fd fd' : ℕ) (hs : List DmaHandle)
    → uses fd hs ≡ 0
    → uses fd' hs ≡ one_fewer fd fd' (uses fd' hs)
unused_same fd fd' hs z = elim (Bool-cases (fd' == fd)) [
  | inr f ↦ rw f refl
  | inl t ↦
      let e : fd' ≡ fd = ground arith in
      let z' : uses fd' hs ≡ 0 = subst (λ a. uses a hs ≡ 0) (sym e) z in rw (t, z') refl
]

-- What unregistering `fd` comes to: one registration less of it, if there was one, and no other change.
abbrev pub Unregisters : ℕ → List DmaHandle → ℕ × (ℕ × List DmaHandle) → Type 0
Unregisters fd hs (len, (attr, hs')) =
    ((fd' : ℕ) → uses fd' hs' ≡ one_fewer fd fd' (uses fd' hs)) × IsTable hs'

-- On such a table: unregistering `fd` takes one from its registrations, unless there was none, changes
-- those of no other file descriptor, and leaves such a table, also where it shortens it.
pub unregister_handle-Unregisters :
    (hs : List DmaHandle) (fd : ℕ) → IsTable hs → Unregisters fd hs (unregister_handle hs fd)
unfolding unregister_handle
unregister_handle-Unregisters hs fd t = elim (Option-cases (seek fd 0 0 hs)) [
  | inl absent ↦
      let z = seek-uses fd 0 0 hs absent in
      let kept : (fd' : ℕ) → uses fd' hs ≡ one_fewer fd fd' (uses fd' hs) =
        λ fd'. unused_same fd fd' hs z in
      rw (unregister_handle, absent) (kept, t)
  | inr ((i, (l, h)), there) ↦
      let hs' = update_first (holds fd) use_less hs in
      let same = length-update (holds fd) use_less hs in
      let few = t.1 in
      let counted = λ (fd' : ℕ). uses_less fd fd' hs t.0 in
      elim (Bool-cases (i + 1 == length hs && h.used == 1)) [
        | inr f ↦
            rw (unregister_handle, there, f) (counted, (use_less-IsSingle fd hs t.0, omega arith))
        | inl u ↦
            let end : i + 1 ≡ 0 + length hs = ground arith in
            let one : h.used ≡ 1 = ground arith in
            let start : l + 1 - 0 ≡ l + 1 = omega arith in
            let shorter = length-take (l + 1) hs' in
            rw (unregister_handle, there, u)
              (
                (λ fd'.
                    subst (λ k. uses fd' (take_handles k hs') ≡ uses fd' hs') start
                      (cut_uses fd fd' 0 0 hs i l h (inr (refl, refl)) there end one)
                    ∙ counted fd'),
                (take-IsSingle (l + 1) hs' (use_less-IsSingle fd hs t.0), omega arith),
              )
      ]
]
