-- ===== src/ModTable/Libraries/Loading.antt =====
-- Opening a module of src/mod_table.c by its library opens one exactly if the slot keeps it.
use fastrpc.Common.{
  ℕ, ◌+◌, ◌≡◌, inl, inr, refl, Bool-cases, Option, none, some, Option-cases, List, ◌++◌, length,
  leb, ◌==◌, if◌then◌else◌, if_keeps, arith,
}
use fastrpc.DspQueue.State.{aee_ebadparm}
use fastrpc.Ioctl.{aee_eunknown}
use fastrpc.Mem.Handles.{aee_einvhandle}
use fastrpc.ModTable.Libraries.{
  libs_opened, libs_closed, has_lib, Owes, listed-Owes, free_slot-Owes, release_handle-Owes,
  release_lib-Owes,
}
use fastrpc.ModTable.Open.{Opened, keyed, open_from_static, is_written, parse_name}
use fastrpc.ModTable.Load.{
  load_lib, lib_result, bail_dynamic, next_key, list_dynamic, enter_dynamic, with_function,
  bind_function, dynamic_in_slot, open_dynamic, mod_open, has_function, fun_name, lib_name,
  cut_extension, is_version_1,
}
use fastrpc.ModTable.Registry.Openings.{open_from_static-IsSound}
use fastrpc.ModTable.Registry.Loading.{open_dynamic-IsSound}
use fastrpc.ModTable.Registry.{
  IsSound, HasKeys, IsUnlisted, load_lib-SameSlots, SameSlots-IsUnlisted, released-SameSlots,
}
use fastrpc.ModTable.Uri.{codes}
use fastrpc.ModTable.{
  OpenMod, ModTable, Loader, handle_opened, log_event, max_rev_handles, rev_handle_size,
  sizeof_open_mod, aee_enosuchsymbol, blank_mod, find_const, release_handle, release_lib,
}
use fastrpc.ModTable.Libraries.Openings.{searched-Owes, open_from_static-Owes}

bail_dynamic-Owes :
    (lib : ℕ) (code dl_err i : ℕ) (m : OpenMod) (t : ModTable)
    → IsUnlisted t i
    → Owes lib (0 + has_lib lib m.dlhandle) t
    → Owes lib 0 (bail_dynamic code dl_err i m t).table
unfolding bail_dynamic
bail_dynamic-Owes lib code dl_err i m t f o =
    let u = release_handle m t in
    let closed =
      release_lib-Owes lib 0 m u (release_handle-Owes lib (0 + has_lib lib m.dlhandle) m t o) in
    free_slot-Owes lib 0 i m (release_lib m u)
      (SameSlots-IsUnlisted t (release_lib m u) i (released-SameSlots m t) f) closed

list_dynamic-Owes :
    (lib : ℕ) (i : ℕ) (m : OpenMod) (t : ModTable)
    → IsUnlisted t i
    → Owes lib (0 + has_lib lib m.dlhandle) t
    → Owes lib 0 (list_dynamic i m t).table
unfolding list_dynamic
list_dynamic-Owes lib i m t f o =
    let n = record m { key = next_key max_rev_handles t m.key } in
    elim (Option-cases (find_const t n.key)) [
      | inl e ↦ rw (e, list_dynamic) (listed-Owes lib 0 i n t f o)
      | inr (c, e) ↦ rw (e, list_dynamic) (bail_dynamic-Owes lib aee_eunknown 0 i n t f o)
    ]

enter_dynamic-Owes :
    (lib : ℕ) (l : Loader) (i : ℕ) (uri : List ℕ) (m : OpenMod) (t : ModTable)
    → IsUnlisted t i
    → Owes lib (0 + has_lib lib m.dlhandle) t
    → Owes lib 0 (enter_dynamic l i uri m t).table
unfolding enter_dynamic libs_opened libs_closed
enter_dynamic-Owes lib l i uri m t f o = elim (Option-cases m.handle_invoke) [
  | inl n ↦ rw (n, enter_dynamic) (list_dynamic-Owes lib i m t f o)
  | inr (g, n) ↦
      let called = l.open_handle g t.log uri in
      elim (Bool-cases (called.0 == 0)) [
        | inl ok ↦
            rw (n, enter_dynamic)
              (rw ok (
                list_dynamic-Owes lib i (record m { h64 = called.1 })
                  (log_event (handle_opened g (called.1)) t)
                  (record { in_table = f.in_table; unlisted = f.unlisted }) o))
        | inr bad ↦ rw (n, enter_dynamic) (rw bad (bail_dynamic-Owes lib (called.0) 0 i m t f o))
      ]
]

with_function-dlhandle :
    (l : Loader) (d : ℕ) (uri : List ℕ) (m : OpenMod)
    → (with_function l d uri m).dlhandle ≡ m.dlhandle
unfolding with_function
with_function-dlhandle l d uri m = elim (Bool-cases (is_version_1 uri m.vals)) [
  | inl t ↦ rw t refl
  | inr f ↦ rw f refl
]

bind_function-Owes :
    (lib : ℕ) (l : Loader) (uri : List ℕ) (i d : ℕ) (m : OpenMod) (t : ModTable)
    → IsUnlisted t i
    → Owes lib (has_lib lib (some d)) t
    → Owes lib 0 (bind_function l uri i d m t).table
unfolding bind_function
bind_function-Owes lib l uri i d m t f o =
    let bare = record m { dlhandle = some d } in
    let n = with_function l d uri bare in
    let P = λ (r : Opened). Owes lib 0 r.table in
    let owed : Owes lib (0 + has_lib lib n.dlhandle) t =
      rw (with_function-dlhandle l d uri bare) (omega (arith, o)) in
    if_keeps P (is_written uri (fun_name uri m.vals))
      (if has_function n
        then enter_dynamic l i uri (keyed l i n) t
        else bail_dynamic aee_enosuchsymbol aee_enosuchsymbol i n t)
      (bail_dynamic aee_ebadparm 0 i bare t)
      (if_keeps P (has_function n) (enter_dynamic l i uri (keyed l i n) t)
        (bail_dynamic aee_enosuchsymbol aee_enosuchsymbol i n t)
        (enter_dynamic-Owes lib l i uri (keyed l i n) t f owed)
        (bail_dynamic-Owes lib aee_enosuchsymbol aee_enosuchsymbol i n t f owed))
      (bail_dynamic-Owes lib aee_ebadparm 0 i bare t f (omega (arith, o)))

-- What `dlopen` returns is owed.
lib_result-Owes :
    (lib : ℕ) (d : Option ℕ) (t : ModTable)
    → Owes lib 0 t
    → Owes lib (has_lib lib (lib_result d t).0) (lib_result d t).1
unfolding libs_opened libs_closed
lib_result-Owes lib none t o = o
lib_result-Owes lib (some d) t o = omega (arith, o)

load_lib-Owes :
    (lib : ℕ) (l : Loader) (name : List ℕ) (t : ModTable)
    → Owes lib 0 t
    → Owes lib (has_lib lib (load_lib l name t).0) (load_lib l name t).1
unfolding load_lib
load_lib-Owes lib l name t o =
    let again = l.dlopen t.log (cut_extension name ++ codes "_system.so") in
    elim (Option-cases (l.dlopen t.log name).0) [
      | inr (d, n) ↦ rw (n, load_lib) (lib_result-Owes lib (some d) t o)
      | inl n ↦ elim (Bool-cases (l.dlopen t.log name).1) [
        | inl enoent ↦ rw (n, load_lib) (rw enoent (lib_result-Owes lib (again.0) t o))
        | inr other ↦ rw (n, load_lib) (rw other o)
      ]
    ]

dynamic_in_slot-Owes :
    (lib : ℕ) (l : Loader) (uri : List ℕ) (i : ℕ) (t : ModTable)
    → IsUnlisted t i
    → Owes lib 0 t
    → Owes lib 0 (dynamic_in_slot l uri i t).table
unfolding dynamic_in_slot
dynamic_in_slot-Owes lib l uri i t f o =
    let v = (parse_name uri).1 in
    let m = record (blank_mod uri) { vals = v } in
    let answer = load_lib l (lib_name uri v) t in
    let f' = SameSlots-IsUnlisted t (answer.1) i (load_lib-SameSlots l (lib_name uri v) t) f in
    let owed = load_lib-Owes lib l (lib_name uri v) t o in
    elim (Bool-cases (is_written uri (lib_name uri v))) [
      | inr n ↦ rw n (bail_dynamic-Owes lib aee_ebadparm 0 i m t f (omega (arith, o)))
      | inl y ↦ rw y (elim (Option-cases (answer.0)) [
        | inl n ↦
            rw (n, dynamic_in_slot)
              (bail_dynamic-Owes lib aee_einvhandle aee_einvhandle i m (answer.1) f'
                (omega (arith, rw n at owed)))
        | inr (d, n) ↦
            rw (n, dynamic_in_slot)
              (bind_function-Owes lib l uri i d m (answer.1) f' (omega (arith, rw n at owed)))
      ])
    ]

open_dynamic-Owes :
    (lib : ℕ) (l : Loader) (uri : List ℕ) (t : ModTable)
    → HasKeys l
    → IsSound l t
    → Owes lib 0 t
    → Owes lib 0 (open_dynamic l uri t).table
unfolding open_dynamic
open_dynamic-Owes lib l uri t k s o =
    searched-Owes lib l t uri (λ i. dynamic_in_slot l uri i t)
      (leb (sizeof_open_mod + length uri + 1) rev_handle_size) k s o
      (λ i f. dynamic_in_slot-Owes lib l uri i t f o)

pub mod_open-Owes :
    (lib : ℕ) (l : Loader) (uri : List ℕ) (t : ModTable)
    → HasKeys l
    → IsSound l t
    → Owes lib 0 t
    → Owes lib 0 (mod_open l uri t).table
unfolding mod_open
mod_open-Owes lib l uri t k s o =
    let a = open_from_static l t.overrides uri t in
    let d = open_dynamic l uri a.table in
    let a_sound = open_from_static-IsSound l t.overrides uri t k s in
    let d_sound = open_dynamic-IsSound l uri a.table k a_sound in
    let a_owes = open_from_static-Owes lib l t.overrides uri t k s o in
    let d_owes = open_dynamic-Owes lib l uri a.table k a_sound a_owes in
    let s_owes = open_from_static-Owes lib l d.table.statics uri d.table k d_sound d_owes in
    elim (Bool-cases (a.code == 0)) [
      | inl y ↦ rw y a_owes
      | inr n ↦ rw n (elim (Bool-cases (d.code == 0)) [
        | inr bad ↦ rw bad d_owes
        | inl fine ↦ rw fine (elim (Bool-cases (d.dl_err == 0)) [
          | inl loaded ↦ rw loaded d_owes
          | inr missing ↦ rw missing s_owes
        ])
      ])
    ]
