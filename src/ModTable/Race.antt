-- ===== src/ModTable/Race.antt =====
-- The two parts of `open_mod_table_close` in src/mod_table.c with an opening between them: the first
-- frees the slot under the lock, the second reads it without.
use fastrpc.Common.{
  ℕ, ◌+◌, ◌<◌, ◌≡◌, inr, refl, ◌∙◌, ap, subst, Bool, true, false, none, some, List, ◌==◌, put_at,
  arith,
}
use fastrpc.ModTable.Close.{one_less, without_key, close_unlink, close_release}
use fastrpc.ModTable.Libraries.Loading.{mod_open-Owes}
use fastrpc.ModTable.Libraries.{
  libs_opened, libs_closed, libs_held, counted, has_lib, Owes, unlisted-Owes, release_handle-Owes,
}
use fastrpc.ModTable.Load.{mod_open}
use fastrpc.ModTable.Registry.Steps.{close_release-SameSlots}
use fastrpc.ModTable.Registry.{IsSound, HasKeys, slot-IsSound}
use fastrpc.ModTable.{
  OpenMod, ModTable, Loader, max_rev_handles, set_slot, release_handle, release_lib,
}

-- The table after the first part, where the reference was the last.
unlinked :
    (t : ModTable) (i : ℕ)
    → (t.slots i).refs ≡ 1
    → (close_unlink i t).1 ≡ record (set_slot i (without_key (one_less (t.slots i))) t) {
      is_open = put_at t.is_open i false;
    }
unfolding close_unlink
unlinked t i last = let z : ((one_less (t.slots i)).refs == 0) ≡ true = ground arith in rw z refl

unlinked-IsSound :
    (l : Loader) (t : ModTable) (i : ℕ)
    → IsSound l t
    → (t.slots i).refs ≡ 1
    → IsSound l (close_unlink i t).1
unlinked-IsSound l t i s last =
    rw (unlinked t i last)
      (slot-IsSound l t i (without_key (one_less (t.slots i))) false s (inr (refl, refl)))

unlinked-Owes :
    (lib : ℕ) (t : ModTable) (i : ℕ)
    → i < max_rev_handles
    → t.is_open i ≡ true
    → (t.slots i).refs ≡ 1
    → (t.slots i).dlhandle ≡ none
    → Owes lib 0 t
    → Owes lib 0 (close_unlink i t).1
unlinked-Owes lib t i lt listed last no_lib o =
    let owed = unlisted-Owes lib 0 i (without_key (one_less (t.slots i))) t lt listed o in
    let none_held : has_lib lib (t.slots i).dlhandle ≡ 0 = rw no_lib refl in
    rw (unlinked t i last) (omega (arith, owed, none_held))

release_lib-over :
    (lib : ℕ) (m : OpenMod) (t : ModTable)
    → m.dlhandle ≡ some lib
    → Owes lib 0 t
    → let w = release_lib m t in
      libs_opened lib w.log + 1
      ≡ libs_closed lib w.log + libs_held lib max_rev_handles w.slots w.is_open
unfolding release_lib libs_opened libs_closed
release_lib-over lib m t e o =
    let one : counted lib lib ≡ 1 = ground arith in rw (e, release_lib) (omega (arith, o, one))

-- In a sound table with keys, where the library `lib` was opened as often as it was closed and is held,
-- let a registered module without a library be closed with its last reference, and let another thread
-- open a module before the part without the lock runs. If that module is in the freed slot, with the
-- library `lib`, then `lib` is closed although the slot stays in use and keeps it: it was closed once
-- more than the table accounts for.
pub close_release-race :
    (l : Loader) (uri : List ℕ) (t v : ModTable) (i lib : ℕ)
    → HasKeys l
    → IsSound l t
    → libs_opened lib t.log
      ≡ libs_closed lib t.log + libs_held lib max_rev_handles t.slots t.is_open
    → i < max_rev_handles
    → t.is_open i ≡ true
    → (t.slots i).refs ≡ 1
    → (t.slots i).dlhandle ≡ none
    → (mod_open l uri (close_unlink i t).1).table ≡ v
    → v.is_open i ≡ true
    → (v.slots i).dlhandle ≡ some lib
    → let w = (close_release l i v).1 in
      (w.is_open i ≡ true)
      × ((w.slots i).dlhandle ≡ some lib)
      × (libs_opened lib w.log + 1
          ≡ libs_closed lib w.log + libs_held lib max_rev_handles w.slots w.is_open)
close_release-race l uri t v i lib k s o lt listed last no_lib reopens held has =
    let u = (close_unlink i t).1 in
    let v_owes = subst (Owes lib 0) reopens (
      mod_open-Owes lib l uri u k (unlinked-IsSound l t i s last)
        (unlinked-Owes lib t i lt listed last no_lib (omega (arith, o)))) in
    let same = close_release-SameSlots l i v in
    (
      ap (λ (f : ℕ → Bool). f i) (same.1) ∙ held,
      ap (λ (f : ℕ → OpenMod). (f i).dlhandle) (same.0) ∙ has,
      unfold close_release in
          release_lib-over lib (v.slots i) (release_handle (v.slots i) v) has
            (release_handle-Owes lib 0 (v.slots i) v v_owes),
    )
