-- ===== src/ModTable/Load.antt =====
-- Opening a module in src/mod_table.c by its library, and the choice between the ways to open.
use fastrpc.Common.{
  ℕ, zero, suc, ◌+◌, ◌%◌, Bool, true, false, not, ◌&&◌, Option, none, some, List, [], ◌∷◌, ◌++◌,
  length, leb, ◌==◌, if◌then◌else◌, u64_mod, put_at,
}
use fastrpc.DspQueue.State.{aee_ebadparm}
use fastrpc.Ioctl.{aee_eunknown, aee_enomemory}
use fastrpc.Mem.Handles.{aee_einvhandle}
use fastrpc.ModTable.Uri.{codes, ParsedUri, strncmp}
use fastrpc.ModTable.{
  OpenMod, ModTable, Loader, max_rev_handles, rev_handle_size, sizeof_open_mod, aee_enosuchsymbol,
  blank_mod, lib_opened, handle_opened, set_slot, log_event, next_available, find_open, find_const,
  release_handle, release_lib,
}
use fastrpc.ModTable.Open.{
  Opened, refused, given, text_at, parse_name, file_of, sym_of, ver_of, is_written, reuse, keyed,
  free_slot, open_from_static,
}

-- The name without its last extension, and `_system.so` behind it.
unfoldable pub has_dot : List ℕ → Bool
has_dot [] = false
has_dot (c ∷ name) = if c == b'.' then true else has_dot name

unfoldable pub cut_extension : List ℕ → List ℕ
cut_extension [] = []
cut_extension (c ∷ name) =
    let rest = cut_extension name in
    if has_dot name then c ∷ rest else if c == b'.' then [] else c ∷ name

-- The library of a name, and its function.
abbrev pub lib_name : List ℕ → ParsedUri → List ℕ
lib_name uri v = if v.filelen == 0 then codes "lib" ++ (uri ++ codes "_skel.so") else file_of uri v

abbrev pub fun_name : List ℕ → ParsedUri → List ℕ
fun_name uri v = if v.symlen == 0 then uri ++ codes "_skel_invoke" else sym_of uri v

-- What `dlopen` gave, with the event.
abbrev pub lib_result : Option ℕ → ModTable → Option ℕ × ModTable
lib_result none t = (none, t)
lib_result (some d) t = (some d, log_event (lib_opened d) t)

-- `dlopen` of a library or, where there is none of that name, of the system's.
unfoldable pub load_lib : Loader → List ℕ → ModTable → Option ℕ × ModTable
load_lib l name t =
    let r = l.dlopen t.log name in
    let again = l.dlopen t.log (cut_extension name ++ codes "_system.so") in
    elim (r.0) [
      | some d ↦ lib_result (some d) t
      | none ↦ if r.1 then lib_result (again.0) t else (none, t)
    ]

-- The end of `open_mod_table_open_dynamic` after an error: what was opened is released, the slot is
-- free, and an error of the loader is handed out apart from the code.
unfoldable pub bail_dynamic : ℕ → ℕ → ℕ → OpenMod → ModTable → Opened
bail_dynamic code dl_err i m t = record {
  code = if dl_err == 0 then code else 0;
  dl_err = dl_err;
  handle = none;
  table = free_slot i m (release_lib m (release_handle m t));
}

-- The loop that looks for a key that `openMods` has not.
unfoldable pub next_key : ℕ → ModTable → ℕ → ℕ
next_key zero t key = key
next_key (suc n) t key =
    let rest = next_key n t ((key + 1) % u64_mod) in
    elim (find_open t key) [ none ↦ key | some i ↦ rest ]

-- The module goes into the hash table, unless its key is that of a const module.
unfoldable pub list_dynamic : ℕ → OpenMod → ModTable → Opened
list_dynamic i m t =
    let n = record m { key = next_key max_rev_handles t m.key } in
    elim (find_const t n.key) [
      | none ↦ given n.key (record (set_slot i n t) { is_open = put_at t.is_open i true })
      | some c ↦ bail_dynamic aee_eunknown 0 i n t
    ]

-- The handle call of a module that has one.
unfoldable pub enter_dynamic : Loader → ℕ → List ℕ → OpenMod → ModTable → Opened
enter_dynamic l i uri m t = elim m.handle_invoke [
  | none ↦ list_dynamic i m t
  | some f ↦
      let r = l.open_handle f t.log uri in
      if r.0 == 0
      then list_dynamic i (record m { h64 = r.1 }) (log_event (handle_opened f (r.1)) t)
      else bail_dynamic (r.0) 0 i m t
]

-- The version is an initial part of `1.0`.
abbrev pub is_version_1 : List ℕ → ParsedUri → Bool
is_version_1 uri v =
    not (v.verlen == 0) && not (strncmp (text_at 0 (ver_of uri v)) (codes "1.0") v.verlen)

-- `dlsym`, as the function without a handle or with one.
unfoldable pub with_function : Loader → ℕ → List ℕ → OpenMod → OpenMod
with_function l d uri m =
    let f = l.dlsym d (fun_name uri m.vals) in
    if is_version_1 uri m.vals then record m { handle_invoke = f } else record m { invoke = f }

abbrev pub has_function : OpenMod → Bool
has_function m = elim m.invoke [
  | some f ↦ true
  | none ↦ elim m.handle_invoke [ some f ↦ true | none ↦ false ]
]

-- The part behind `dlopen`, with the library `d`.
unfoldable pub bind_function : Loader → List ℕ → ℕ → ℕ → OpenMod → ModTable → Opened
bind_function l uri i d m t =
    let lib = record m { dlhandle = some d } in
    let n = with_function l d uri lib in
    if is_written uri (fun_name uri m.vals)
    then (if has_function n
        then enter_dynamic l i uri (keyed l i n) t
        else bail_dynamic aee_enosuchsymbol aee_enosuchsymbol i n t)
    else bail_dynamic aee_ebadparm 0 i lib t

-- The part of `open_mod_table_open_dynamic` behind the search, in a free slot.
unfoldable pub dynamic_in_slot : Loader → List ℕ → ℕ → ModTable → Opened
dynamic_in_slot l uri i t =
    let v = (parse_name uri).1 in
    let m = record (blank_mod uri) { vals = v } in
    let lib = load_lib l (lib_name uri v) t in
    let loaded : Opened = elim (lib.0) [
      | none ↦ bail_dynamic aee_einvhandle aee_einvhandle i m (lib.1)
      | some d ↦ bind_function l uri i d m (lib.1)
    ] in
    if is_written uri (lib_name uri v) then loaded else bail_dynamic aee_ebadparm 0 i m t

-- `open_mod_table_open_dynamic`
unfoldable pub open_dynamic : Loader → List ℕ → ModTable → Opened
open_dynamic l uri t =
    let fresh : Opened = elim (next_available t) [
      | none ↦ refused aee_einvhandle t
      | some i ↦ dynamic_in_slot l uri i t
    ] in
    if leb (sizeof_open_mod + length uri + 1) rev_handle_size
    then reuse uri fresh t
    else refused aee_enomemory t

-- `open_mod_table_open`: an override, else a library, else a registered module. `dl_err` is what is
-- written to `*pdlErr`.
unfoldable pub mod_open : Loader → List ℕ → ModTable → Opened
mod_open l uri t =
    let o = open_from_static l t.overrides uri t in
    let d = open_dynamic l uri o.table in
    let s = open_from_static l d.table.statics uri d.table in
    if o.code == 0
    then o
    else if not (d.code == 0)
    then record d { dl_err = 0 }
    else if d.dl_err == 0
    then d
    else record {
      code = 0;
      dl_err = if s.code == 0 then 0 else d.dl_err;
      handle = s.handle;
      table = s.table;
    }
