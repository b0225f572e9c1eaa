-- ===== src/ModTable/Libraries/Openings.antt =====
-- Opening a module of src/mod_table.c opens a library exactly if its slot keeps it.
use fastrpc.Common.{
  ℕ, ◌+◌, ◌≡◌, inl, inr, refl, Bool, not, ◌&&◌, Bool-cases, none, some, Option-cases, List, leb,
  ◌==◌, if◌then◌else◌, arith,
}
use fastrpc.Ioctl.{aee_enomemory}
use fastrpc.Mem.Handles.{aee_einvhandle}
use fastrpc.ModTable.Libraries.{
  libs_opened, libs_closed, has_lib, Owes, listed-Owes, set_slot-Owes, free_slot-Owes,
}
use fastrpc.ModTable.Open.{
  Opened, refused, keyed, reuse, find_static, enter_static, static_in_slot, open_from_static,
  name_room,
}
use fastrpc.ModTable.Registry.{
  IsSound, HasKeys, IsUnlisted, first_slot-some, next_available-IsUnlisted,
}
use fastrpc.ModTable.{
  OpenMod, StaticMod, ModTable, Loader, handle_opened, log_event, max_rev_handles, rev_handle_size,
  sizeof_open_mod, blank_mod, find_opened, next_available, one_more, same_text,
}

reuse-Owes :
    (lib : ℕ) (t : ModTable) (uri : List ℕ) (fresh : Opened)
    → Owes lib 0 t
    → Owes lib 0 fresh.table
    → Owes lib 0 (reuse uri fresh t).table
reuse-Owes lib t uri fresh s h = elim (Option-cases (find_opened t uri)) [
  | inl n ↦ rw (n, reuse) h
  | inr (i, e) ↦
      let r =
        first_slot-some (λ (j : ℕ). not ((t.slots j).key == 0) && same_text (t.slots j).uri uri) 0
          max_rev_handles i (unfold find_opened in e) in
      rw (e, reuse) (set_slot-Owes lib 0 i (one_more (t.slots i)) t (omega (arith, r.2)) refl s)
]

enter_static-Owes :
    (lib : ℕ) (l : Loader) (i : ℕ) (uri : List ℕ) (m : OpenMod) (t : ModTable)
    → IsUnlisted t i
    → m.dlhandle ≡ none
    → Owes lib 0 t
    → Owes lib 0 (enter_static l i uri m t).table
unfolding enter_static libs_opened libs_closed
enter_static-Owes lib l i uri m t f e h =
    let owed : Owes lib (0 + has_lib lib m.dlhandle) t = rw e (omega (arith, h)) in
    elim (Option-cases m.handle_invoke) [
      | inl n ↦ rw (n, enter_static) (listed-Owes lib 0 i m t f owed)
      | inr (g, n) ↦
          let called = l.open_handle g t.log uri in
          elim (Bool-cases (called.0 == 0)) [
            | inl ok ↦
                rw (n, enter_static)
                  (rw ok (
                    listed-Owes lib 0 i (record m { h64 = called.1 })
                      (log_event (handle_opened g (called.1)) t)
                      (record { in_table = f.in_table; unlisted = f.unlisted }) owed))
            | inr bad ↦ rw (n, enter_static) (rw bad (free_slot-Owes lib 0 i m t f h))
          ]
    ]

find_static-dlhandle :
    (mods : List StaticMod) (m : OpenMod) → (find_static mods m).2.dlhandle ≡ m.dlhandle
unfolding find_static
find_static-dlhandle mods m = ground arith

static_in_slot-Owes :
    (lib : ℕ) (l : Loader) (mods : List StaticMod) (uri : List ℕ) (i : ℕ) (t : ModTable)
    → IsUnlisted t i
    → Owes lib 0 t
    → Owes lib 0 (static_in_slot l mods uri i t).table
unfolding static_in_slot
static_in_slot-Owes lib l mods uri i t f h =
    let found = find_static mods (blank_mod uri) in
    elim (Option-cases (found.1)) [
      | inl n ↦ rw (n, static_in_slot) (free_slot-Owes lib 0 i (found.2) t f h)
      | inr (g, n) ↦
          rw (n, static_in_slot)
            (enter_static-Owes lib l i uri
              (keyed l i (record (found.2) { invoke = g.invoke; handle_invoke = g.handle_invoke }))
              t f (find_static-dlhandle mods (blank_mod uri)) h)
    ]

pub searched-Owes :
    (lib : ℕ) (l : Loader) (t : ModTable) (uri : List ℕ) (in_slot : ℕ → Opened) (fits : Bool)
    → HasKeys l
    → IsSound l t
    → Owes lib 0 t
    → ((i : ℕ) → IsUnlisted t i → Owes lib 0 (in_slot i).table)
    → let fresh : Opened = elim (next_available t) [
      | none ↦ refused aee_einvhandle t
      | some i ↦ in_slot i
    ] in
      Owes lib 0 (if fits then reuse uri fresh t else refused aee_enomemory t).table
searched-Owes lib l t uri in_slot fits k s o h = elim (Bool-cases fits) [
  | inr n ↦ rw n o
  | inl y ↦ rw y (elim (Option-cases (next_available t)) [
    | inl n ↦ rw n (reuse-Owes lib t uri (refused aee_einvhandle t) o o)
    | inr (i, n) ↦
        rw n (reuse-Owes lib t uri (in_slot i) o (h i (next_available-IsUnlisted l t i k s n)))
  ])
]

pub open_from_static-Owes :
    (lib : ℕ) (l : Loader) (mods : List StaticMod) (uri : List ℕ) (t : ModTable)
    → HasKeys l
    → IsSound l t
    → Owes lib 0 t
    → Owes lib 0 (open_from_static l mods uri t).table
unfolding open_from_static
open_from_static-Owes lib l mods uri t k s o =
    searched-Owes lib l t uri (λ i. static_in_slot l mods uri i t)
      (leb (sizeof_open_mod + name_room uri) rev_handle_size) k s o
      (λ i f. static_in_slot-Owes lib l mods uri i t f o)
