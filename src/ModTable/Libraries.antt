-- ===== src/ModTable/Libraries.antt =====
-- The libraries that src/mod_table.c opens and closes: what is open belongs to a slot in use.
pub mod Loading
pub mod Openings
pub mod Steps
use fastrpc.Common.{
  ℕ, zero, suc, ◌+◌, ◌-◌, ◌≤◌, ◌<◌, ◌≡◌, ◌≢◌, inl, inr, refl, sym, ◌∙◌, ap, Bool, true, false,
  Bool-cases, Option, none, some, Option-cases, List, [], ◌∷◌, ◌==◌, if◌then◌else◌, put_at,
  put_at_same, put_at_there, arith,
}
use fastrpc.ModTable.Close.{one_less, without_key, close_unlink, close_release, mod_close}
use fastrpc.ModTable.Open.{free_slot}
use fastrpc.ModTable.Registry.Steps.{IsListed, find_open-IsListed}
use fastrpc.ModTable.Registry.{IsUnlisted, IsSound}
use fastrpc.ModTable.{
  OpenMod, ModTable, Loader, Event, lib_opened, lib_closed, handle_opened, handle_closed,
  max_rev_handles, set_slot, find_open, release_handle, release_lib,
}

-- One if it is that library.
abbrev pub counted : ℕ → ℕ → ℕ
counted lib d = if d == lib then 1 else 0

-- How often a library was opened and closed.
unfoldable pub libs_opened : ℕ → List Event → ℕ
libs_opened lib [] = 0
libs_opened lib (lib_opened d ∷ log) = counted lib d + libs_opened lib log
libs_opened lib (lib_closed d ∷ log) = libs_opened lib log
libs_opened lib (handle_opened f h ∷ log) = libs_opened lib log
libs_opened lib (handle_closed f h ∷ log) = libs_opened lib log

unfoldable pub libs_closed : ℕ → List Event → ℕ
libs_closed lib [] = 0
libs_closed lib (lib_opened d ∷ log) = libs_closed lib log
libs_closed lib (lib_closed d ∷ log) = counted lib d + libs_closed lib log
libs_closed lib (handle_opened f h ∷ log) = libs_closed lib log
libs_closed lib (handle_closed f h ∷ log) = libs_closed lib log

-- A module's library counts where its slot is in use.
abbrev pub has_lib : ℕ → Option ℕ → ℕ
has_lib lib none = 0
has_lib lib (some d) = counted lib d

abbrev pub held_by : ℕ → OpenMod → Bool → ℕ
held_by lib m listed = if listed then has_lib lib m.dlhandle else 0

-- How many of the first `n` slots hold a library.
unfoldable pub libs_held : ℕ → ℕ → (ℕ → OpenMod) → (ℕ → Bool) → ℕ
libs_held lib zero slots is_open = 0
libs_held lib (suc n) slots is_open =
    held_by lib (slots n) (is_open n) + libs_held lib n slots is_open

-- A library was opened as often as it was closed, as it is held by slots in use, and `extra` times more.
abbrev pub Owes : ℕ → ℕ → ModTable → Type 0
Owes lib extra t =
    libs_opened lib t.log
    ≡ libs_closed lib t.log + libs_held lib max_rev_handles t.slots t.is_open + extra

libs_held-beyond :
    (lib : ℕ) (n i : ℕ) (slots : ℕ → OpenMod) (is_open : ℕ → Bool) (m : OpenMod) (listed : Bool)
    → n ≤ i
    → libs_held lib n (put_at slots i m) (put_at is_open i listed) ≡ libs_held lib n slots is_open
unfolding libs_held put_at
libs_held-beyond lib zero i slots is_open m listed h = refl
libs_held-beyond lib (suc n) i slots is_open m listed h =
    let f : (n == i) ≡ false = ground arith in
    rw f (
      ap (λ (k : ℕ). held_by lib (slots n) (is_open n) + k)
        (libs_held-beyond lib n i slots is_open m listed (omega arith)))

-- A change of one slot changes the count by its library.
pub libs_held-put_at :
    (lib : ℕ) (n i : ℕ) (slots : ℕ → OpenMod) (is_open : ℕ → Bool) (m : OpenMod) (listed : Bool)
    → i < n
    → libs_held lib n (put_at slots i m) (put_at is_open i listed)
        + held_by lib (slots i) (is_open i)
      ≡ libs_held lib n slots is_open + held_by lib m listed
unfolding libs_held put_at
libs_held-put_at lib zero i slots is_open m listed h = absurd (omega arith)
libs_held-put_at lib (suc n) i slots is_open m listed h = elim (Bool-cases (n == i)) [
  | inl t ↦
      let same : n ≡ i = ground arith in
      rw (t, same) (omega (arith, libs_held-beyond lib i i slots is_open m listed (omega arith)))
  | inr f ↦ rw f (omega (arith, libs_held-put_at lib n i slots is_open m listed (ground arith)))
]

-- A slot that is not listed becomes listed with its library.
pub listed-Owes :
    (lib : ℕ) (extra i : ℕ) (m : OpenMod) (t : ModTable)
    → IsUnlisted t i
    → Owes lib (extra + has_lib lib m.dlhandle) t
    → Owes lib extra (record (set_slot i m t) { is_open = put_at t.is_open i true })
listed-Owes lib extra i m t f h =
    let c = libs_held-put_at lib max_rev_handles i t.slots t.is_open m true f.in_table in
    let none_before : held_by lib (t.slots i) (t.is_open i) ≡ 0 = rw f.unlisted refl in
    omega (arith, h, c, none_before)

-- A listed slot is taken out, and owes its library.
pub unlisted-Owes :
    (lib : ℕ) (extra i : ℕ) (m : OpenMod) (t : ModTable)
    → i < max_rev_handles
    → t.is_open i ≡ true
    → Owes lib extra t
    → Owes lib
        (extra + has_lib lib (t.slots i).dlhandle)
        (record (set_slot i m t) { is_open = put_at t.is_open i false })
unlisted-Owes lib extra i m t lt listed h =
    let c = libs_held-put_at lib max_rev_handles i t.slots t.is_open m false lt in
    let before : held_by lib (t.slots i) (t.is_open i) ≡ has_lib lib (t.slots i).dlhandle =
      rw listed refl in
    omega (arith, h, c, before)

-- A change of a slot that keeps its library and place in the hash table.
pub set_slot-Owes :
    (lib : ℕ) (extra i : ℕ) (m : OpenMod) (t : ModTable)
    → i < max_rev_handles
    → held_by lib m (t.is_open i) ≡ held_by lib (t.slots i) (t.is_open i)
    → Owes lib extra t
    → Owes lib extra (set_slot i m t)
set_slot-Owes lib extra i m t lt same h =
    let c = libs_held-put_at lib max_rev_handles i t.slots t.is_open m (t.is_open i) lt in
    let back : put_at t.is_open i (t.is_open i) ≡ t.is_open = put_at_same t.is_open i in
    omega (arith, h, rw back at c, same)

pub free_slot-Owes :
    (lib : ℕ) (extra i : ℕ) (m : OpenMod) (t : ModTable)
    → IsUnlisted t i
    → Owes lib extra t
    → Owes lib extra (free_slot i m t)
free_slot-Owes lib extra i m t f h =
    set_slot-Owes lib extra i (record m { key = 0 }) t f.in_table (rw f.unlisted refl) h

pub release_handle-Owes :
    (lib : ℕ) (extra : ℕ) (m : OpenMod) (t : ModTable)
    → Owes lib extra t
    → Owes lib extra (release_handle m t)
unfolding release_handle libs_opened libs_closed
release_handle-Owes lib extra m t h = elim (Bool-cases (m.h64 == 0)) [
  | inl z ↦ rw z h
  | inr n ↦ rw n (elim (Option-cases m.handle_invoke) [ inl e ↦ rw e h | inr (f, e) ↦ rw e h ])
]

pub release_lib-Owes :
    (lib : ℕ) (extra : ℕ) (m : OpenMod) (t : ModTable)
    → Owes lib (extra + has_lib lib m.dlhandle) t
    → Owes lib extra (release_lib m t)
unfolding release_lib libs_opened libs_closed
release_lib-Owes lib extra m t h = elim (Option-cases m.dlhandle) [
  | inl e ↦ rw (e, release_lib) (omega (arith, rw e at h))
  | inr (d, e) ↦ rw (e, release_lib) (omega (arith, rw e at h))
]

-- Closing a module closes its library with the last reference.
pub mod_close-Owes :
    (lib : ℕ) (l : Loader) (handle : ℕ) (t : ModTable)
    → Owes lib 0 t
    → Owes lib 0 (mod_close l handle t).1
unfolding mod_close close_unlink close_release
mod_close-Owes lib l handle t h = elim (Option-cases (find_open t handle)) [
  | inl n ↦ rw (n, mod_close) h
  | inr (i, n) ↦
      let f = find_open-IsListed t handle i n in
      let m = one_less (t.slots i) in
      let u = record (set_slot i (without_key m) t) { is_open = put_at t.is_open i false } in
      elim (Bool-cases (m.refs == 0)) [
        | inl last ↦
            let here : u.slots i ≡ without_key m = put_at_there t.slots i (without_key m) in
            let owed : Owes lib (0 + has_lib lib (without_key m).dlhandle) u =
              unlisted-Owes lib 0 i (without_key m) t f.in_table f.listed h in
            rw (n, mod_close)
              (rw last (
                rw here (
                  release_lib-Owes lib 0 (without_key m) (release_handle (without_key m) u) (
                    release_handle-Owes lib (0 + has_lib lib (without_key m).dlhandle)
                      (without_key m) u owed))))
        | inr more ↦ rw (n, mod_close) (rw more (set_slot-Owes lib 0 i m t f.in_table refl h))
      ]
]
