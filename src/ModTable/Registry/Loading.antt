-- ===== src/ModTable/Registry/Loading.antt =====
-- Opening a module of src/mod_table.c by its library keeps the slots sound.
use fastrpc.Common.{
  ℕ, ◌+◌, ◌≡◌, inl, inr, refl, Bool-cases, some, Option-cases, List, ◌==◌, if◌then◌else◌, if_keeps,
  leb, length,
}
use fastrpc.DspQueue.State.{aee_ebadparm}
use fastrpc.Ioctl.{aee_eunknown}
use fastrpc.Mem.Handles.{aee_einvhandle}
use fastrpc.ModTable.Open.{Opened, keyed, open_from_static, is_written, parse_name}
use fastrpc.ModTable.Load.{
  load_lib, bail_dynamic, next_key, list_dynamic, enter_dynamic, with_function, bind_function,
  dynamic_in_slot, open_dynamic, mod_open, has_function, fun_name, lib_name,
}
use fastrpc.ModTable.Registry.{
  IsSound, HasKeys, IsUnlisted, SameSlots-IsSound, released-SameSlots, load_lib-SameSlots,
  SameSlots-IsUnlisted, next_key-key_of,
}
use fastrpc.ModTable.{
  OpenMod, ModTable, Loader, handle_opened, log_event, max_rev_handles, rev_handle_size,
  sizeof_open_mod, aee_enosuchsymbol, blank_mod, key_of, find_const, release_handle, release_lib,
}
use fastrpc.ModTable.Registry.Openings.{
  free_slot-IsSound, listed-IsSound, searched-IsSound, open_from_static-IsSound,
}

bail_dynamic-IsSound :
    (l : Loader) (code dl_err i : ℕ) (m : OpenMod) (t : ModTable)
    → IsSound l t
    → IsUnlisted t i
    → IsSound l (bail_dynamic code dl_err i m t).table
unfolding bail_dynamic
bail_dynamic-IsSound l code dl_err i m t s f =
    let u = release_lib m (release_handle m t) in
    let e = released-SameSlots m t in
    free_slot-IsSound l u i m (SameSlots-IsSound l t u e s) (SameSlots-IsUnlisted t u i e f)

list_dynamic-IsSound :
    (l : Loader) (i : ℕ) (m : OpenMod) (t : ModTable)
    → IsSound l t
    → IsUnlisted t i
    → m.key ≡ key_of l i
    → m.refs ≡ 1
    → IsSound l (list_dynamic i m t).table
unfolding list_dynamic
list_dynamic-IsSound l i m t s f e r =
    let key = next_key max_rev_handles t m.key in
    let same : key ≡ key_of l i = rw e (next_key-key_of l t i max_rev_handles s f) in
    elim (Option-cases (find_const t key)) [
      | inl n ↦ rw (n, list_dynamic) (listed-IsSound l t i (record m { key = key }) s same r)
      | inr (c, n) ↦
          rw (n, list_dynamic)
            (bail_dynamic-IsSound l aee_eunknown 0 i (record m { key = key }) t s f)
    ]

enter_dynamic-IsSound :
    (l : Loader) (i : ℕ) (uri : List ℕ) (m : OpenMod) (t : ModTable)
    → IsSound l t
    → IsUnlisted t i
    → m.key ≡ key_of l i
    → m.refs ≡ 1
    → IsSound l (enter_dynamic l i uri m t).table
unfolding enter_dynamic
enter_dynamic-IsSound l i uri m t s f e r = elim (Option-cases m.handle_invoke) [
  | inl n ↦ rw (n, enter_dynamic) (list_dynamic-IsSound l i m t s f e r)
  | inr (g, n) ↦
      let called = l.open_handle g t.log uri in
      elim (Bool-cases (called.0 == 0)) [
        | inl ok ↦
            rw (n, enter_dynamic)
              (rw ok (
                list_dynamic-IsSound l i (record m { h64 = called.1 })
                  (log_event (handle_opened g (called.1)) t) s
                  (record { in_table = f.in_table; unlisted = f.unlisted }) e r))
        | inr bad ↦ rw (n, enter_dynamic) (rw bad (bail_dynamic-IsSound l (called.0) 0 i m t s f))
      ]
]

bind_function-IsSound :
    (l : Loader) (uri : List ℕ) (i d : ℕ) (m : OpenMod) (t : ModTable)
    → IsSound l t
    → IsUnlisted t i
    → IsSound l (bind_function l uri i d m t).table
unfolding bind_function
bind_function-IsSound l uri i d m t s f =
    let lib = record m { dlhandle = some d } in
    let n = with_function l d uri lib in
    let P = λ (o : Opened). IsSound l o.table in
    if_keeps P (is_written uri (fun_name uri m.vals))
      (if has_function n
        then enter_dynamic l i uri (keyed l i n) t
        else bail_dynamic aee_enosuchsymbol aee_enosuchsymbol i n t)
      (bail_dynamic aee_ebadparm 0 i lib t)
      (if_keeps P (has_function n) (enter_dynamic l i uri (keyed l i n) t)
        (bail_dynamic aee_enosuchsymbol aee_enosuchsymbol i n t)
        (enter_dynamic-IsSound l i uri (keyed l i n) t s f refl refl)
        (bail_dynamic-IsSound l aee_enosuchsymbol aee_enosuchsymbol i n t s f))
      (bail_dynamic-IsSound l aee_ebadparm 0 i lib t s f)

dynamic_in_slot-IsSound :
    (l : Loader) (uri : List ℕ) (i : ℕ) (t : ModTable)
    → IsSound l t
    → IsUnlisted t i
    → IsSound l (dynamic_in_slot l uri i t).table
unfolding dynamic_in_slot
dynamic_in_slot-IsSound l uri i t s f =
    let v = (parse_name uri).1 in
    let m = record (blank_mod uri) { vals = v } in
    let lib = load_lib l (lib_name uri v) t in
    let e = load_lib-SameSlots l (lib_name uri v) t in
    let s' = SameSlots-IsSound l t (lib.1) e s in
    let f' = SameSlots-IsUnlisted t (lib.1) i e f in
    elim (Bool-cases (is_written uri (lib_name uri v))) [
      | inr n ↦ rw n (bail_dynamic-IsSound l aee_ebadparm 0 i m t s f)
      | inl y ↦ rw y (elim (Option-cases (lib.0)) [
        | inl n ↦
            rw (n, dynamic_in_slot)
              (bail_dynamic-IsSound l aee_einvhandle aee_einvhandle i m (lib.1) s' f')
        | inr (d, n) ↦ rw (n, dynamic_in_slot) (bind_function-IsSound l uri i d m (lib.1) s' f')
      ])
    ]

pub open_dynamic-IsSound :
    (l : Loader) (uri : List ℕ) (t : ModTable)
    → HasKeys l
    → IsSound l t
    → IsSound l (open_dynamic l uri t).table
unfolding open_dynamic
open_dynamic-IsSound l uri t k s =
    searched-IsSound l t uri (λ i. dynamic_in_slot l uri i t)
      (leb (sizeof_open_mod + length uri + 1) rev_handle_size) k s
      (λ i f. dynamic_in_slot-IsSound l uri i t s f)

pub mod_open-IsSound :
    (l : Loader) (uri : List ℕ) (t : ModTable)
    → HasKeys l
    → IsSound l t
    → IsSound l (mod_open l uri t).table
unfolding mod_open
mod_open-IsSound l uri t k s =
    let o = open_from_static l t.overrides uri t in
    let d = open_dynamic l uri o.table in
    let o_sound = open_from_static-IsSound l t.overrides uri t k s in
    let d_sound = open_dynamic-IsSound l uri o.table k o_sound in
    let s_sound = open_from_static-IsSound l d.table.statics uri d.table k d_sound in
    elim (Bool-cases (o.code == 0)) [
      | inl y ↦ rw y o_sound
      | inr n ↦ rw n (elim (Bool-cases (d.code == 0)) [
        | inr bad ↦ rw bad d_sound
        | inl fine ↦ rw fine (elim (Bool-cases (d.dl_err == 0)) [
          | inl loaded ↦ rw loaded d_sound
          | inr missing ↦ rw missing s_sound
        ])
      ])
    ]
