-- ===== src/ModTable/Registry.antt =====
-- The slots of src/mod_table.c: which are listed, with which key, and that every operation keeps that.
pub mod Runs
pub mod Loading
pub mod Openings
pub mod Steps
use fastrpc.Common.{
  ℕ, zero, suc, ◌+◌, ◌-◌, ◌*◌, ◌%◌, ◌^◌, ◌≤◌, ◌<◌, ◌≡◌, ◌≢◌, ◌⊎◌, inl, inr, refl, sym, ◌∙◌, ap,
  subst, Bool, true, false, not, ◌&&◌, Bool-cases, Option, none, some, Option-cases, List, [], ◌∷◌,
  ◌==◌, if◌then◌else◌, if_keeps, u32_mod, put_at, leb, length, arith,
}
use fastrpc.ModTable.Close.{
  one_less, without_key, close_unlink, close_release, mod_close, end_call, Functions, call_function,
  mod_invoke, ending, register_override, register_static, register_const,
}
use fastrpc.ModTable.Open.{
  Opened, refused, given, keyed, reuse, find_static, free_slot, enter_static, static_in_slot,
  open_from_static, name_room,
}
use fastrpc.ModTable.Load.{
  load_lib, lib_result, bail_dynamic, next_key, list_dynamic, enter_dynamic, with_function,
  bind_function, dynamic_in_slot, open_dynamic, mod_open,
}
use fastrpc.ModTable.{
  OpenMod, StaticMod, ConstMod, ModTable, Loader, max_rev_handles, key_of, first_slot, set_slot,
  find_opened, next_available, find_open, find_const, one_more, release_handle, release_lib,
  close_h64,
}

-- What a search through the slots finds.
pub first_slot-some :
    (p : ℕ → Bool) (i n k : ℕ) → first_slot p i n ≡ some k → (p k ≡ true) × (i ≤ k) × (k < i + n)
unfolding first_slot
first_slot-some p i zero k h = absurd (ground arith)
first_slot-some p i (suc n) k h = elim (Bool-cases (p i)) [
  | inl t ↦ let e : i ≡ k = ground arith in rw (← e) (t, omega arith, omega arith)
  | inr f ↦
      let r = first_slot-some p (suc i) n k (ground arith) in
      (r.0, omega (arith, r.1), omega (arith, r.2))
]

pub first_slot-none :
    (p : ℕ → Bool) (i n k : ℕ) → first_slot p i n ≡ none → i ≤ k → k < i + n → p k ≡ false
unfolding first_slot
first_slot-none p i zero k h a b = absurd (omega arith)
first_slot-none p i (suc n) k h a b = elim (Bool-cases (p i)) [
  | inl t ↦ absurd (ground arith)
  | inr f ↦ elim (Bool-cases (k == i)) [
    | inl e ↦ let same : k ≡ i = ground arith in rw same f
    | inr e ↦ first_slot-none p (suc i) n k (ground arith) (ground arith) (omega arith)
  ]
]

pub all_false-first_slot :
    (p : ℕ → Bool) (i n : ℕ) → ((k : ℕ) → i ≤ k → k < i + n → p k ≡ false) → first_slot p i n ≡ none
unfolding first_slot
all_false-first_slot p i zero h = refl
all_false-first_slot p i (suc n) h =
    rw (h i (omega arith) (omega arith))
      (all_false-first_slot p (suc i) n (λ k a b. h k (omega arith) (omega arith)))

-- A slot is in the hash table with its own key and a reference, or free.
abbrev pub IsSlot : Loader → ℕ → OpenMod → Bool → Type 0
IsSlot l i m listed =
    ((listed ≡ true) × (m.key ≡ key_of l i) × (0 < m.refs)) ⊎ ((listed ≡ false) × (m.key ≡ 0))

abbrev pub IsSound : Loader → ModTable → Type 0
IsSound l t = (i : ℕ) → i < max_rev_handles → IsSlot l i (t.slots i) (t.is_open i)

-- No slot of the table has an address that is zero in 32 bits.
pub record HasKeys (l : Loader) : Type 0 where
  pub key_ne_zero : (i : ℕ) → i < max_rev_handles → key_of l i ≢ 0

-- A change of one slot.
pub slot-IsSound :
    (l : Loader) (t : ModTable) (i : ℕ) (m : OpenMod) (listed : Bool)
    → IsSound l t
    → IsSlot l i m listed
    → IsSound l (record (set_slot i m t) { is_open = put_at t.is_open i listed })
unfolding put_at
slot-IsSound l t i m listed s h j lt = elim (Bool-cases (j == i)) [
  | inl e ↦ let same : j ≡ i = ground arith in rw (e, same) h
  | inr n ↦ rw n (s j lt)
]

-- A change of the slot alone.
pub mod-IsSound :
    (l : Loader) (t : ModTable) (i : ℕ) (m : OpenMod)
    → IsSound l t
    → IsSlot l i m (t.is_open i)
    → IsSound l (set_slot i m t)
unfolding put_at
mod-IsSound l t i m s h j lt = elim (Bool-cases (j == i)) [
  | inl e ↦ let same : j ≡ i = ground arith in rw (e, same) h
  | inr n ↦ rw n (s j lt)
]

-- The same slots and the same hash table.
abbrev pub SameSlots : ModTable → ModTable → Type 0
SameSlots t u = (u.slots ≡ t.slots) × (u.is_open ≡ t.is_open)

pub SameSlots-IsSound : (l : Loader) (t u : ModTable) → SameSlots t u → IsSound l t → IsSound l u
SameSlots-IsSound l t u e s i lt = rw (e.0, e.1) (s i lt)

pub release_handle-SameSlots : (m : OpenMod) (t : ModTable) → SameSlots t (release_handle m t)
unfolding release_handle
release_handle-SameSlots m t = ground arith

pub release_lib-SameSlots : (m : OpenMod) (t : ModTable) → SameSlots t (release_lib m t)
unfolding release_lib
release_lib-SameSlots m t = ground arith

pub released-SameSlots :
    (m : OpenMod) (t : ModTable) → SameSlots t (release_lib m (release_handle m t))
released-SameSlots m t =
    let a = release_lib-SameSlots m (release_handle m t) in
    let b = release_handle-SameSlots m t in (a.0 ∙ b.0, a.1 ∙ b.1)

pub load_lib-SameSlots :
    (l : Loader) (name : List ℕ) (t : ModTable) → SameSlots t (load_lib l name t).1
unfolding load_lib
load_lib-SameSlots l name t = ground arith

-- A slot that is not in the hash table.
pub record IsUnlisted (t : ModTable) (i : ℕ) : Type 0 where
  pub in_table : i < max_rev_handles
  pub unlisted : t.is_open i ≡ false

pub SameSlots-IsUnlisted :
    (t u : ModTable) (i : ℕ) → SameSlots t u → IsUnlisted t i → IsUnlisted u i
SameSlots-IsUnlisted t u i e f = record { in_table = f.in_table; unlisted = rw (e.1) f.unlisted }

pub next_available-IsUnlisted :
    (l : Loader) (t : ModTable) (i : ℕ)
    → HasKeys l
    → IsSound l t
    → next_available t ≡ some i
    → IsUnlisted t i
unfolding next_available
next_available-IsUnlisted l t i k s h =
    let r = first_slot-some (λ (j : ℕ). (t.slots j).key == 0) 0 max_rev_handles i h in
    let lt : i < max_rev_handles = omega (arith, r.2) in
    record { in_table = lt; unlisted = ground (arith, s i lt, k.key_ne_zero i lt) }

-- No open module has the key of a slot that is not listed.
find_open-key_of :
    (l : Loader) (t : ModTable) (i : ℕ)
    → IsSound l t
    → IsUnlisted t i
    → find_open t (key_of l i) ≡ none
unfolding find_open
find_open-key_of l t i s f =
    all_false-first_slot (λ (j : ℕ). t.is_open j && (t.slots j).key == key_of l i) 0 max_rev_handles
      (λ j a b. other_key j (omega arith) (s j (omega arith)))
  where
    other_key :
        (j : ℕ)
        → j < max_rev_handles
        → IsSlot l j (t.slots j) (t.is_open j)
        → (t.is_open j && (t.slots j).key == key_of l i) ≡ false
    other_key j lt h = ground (arith, f)

pub next_key-key_of :
    (l : Loader) (t : ModTable) (i n : ℕ)
    → IsSound l t
    → IsUnlisted t i
    → next_key n t (key_of l i) ≡ key_of l i
unfolding next_key
next_key-key_of l t i zero s f = refl
next_key-key_of l t i (suc n) s f = rw (find_open-key_of l t i s f, next_key) refl
