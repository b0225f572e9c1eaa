-- ===== src/ModTable/Close.antt =====
-- Closing, invoking and registering modules in src/mod_table.c.
use fastrpc.Common.{
  ℕ, ◌-◌, Bool, true, false, Option, none, some, ◌∷◌, ◌==◌, if◌then◌else◌, u32_mod, put_at,
}
use fastrpc.Ioctl.{aee_eunknown, aee_enomemory}
use fastrpc.ModTable.{
  OpenMod, StaticMod, ConstMod, ModTable, Loader, aee_enosuchmod, set_slot, find_open, find_const,
  one_more, release_handle, release_lib,
}

-- `refs--` on an `int`; -1 is the pattern of its bits. The count has no upper bound.
abbrev pub one_less : OpenMod → OpenMod
one_less m = record m { refs = if m.refs == 0 then u32_mod - 1 else m.refs - 1 }

abbrev pub without_key : OpenMod → OpenMod
without_key m = record m { key = 0 }

-- What the part of `open_mod_table_close` under the lock makes of the slot behind `refs--`.
abbrev pub unlink_with : OpenMod → ℕ → ModTable → Bool × ModTable
unlink_with m i t =
    if m.refs == 0
    then (true, record (set_slot i (without_key m) t) { is_open = put_at t.is_open i false })
    else (false, set_slot i m t)

-- That part: whether the module is to be released.
unfoldable pub close_unlink : ℕ → ModTable → Bool × ModTable
close_unlink i t = unlink_with (one_less (t.slots i)) i t

-- The part behind the lock, on the slot as it is then: the code of `dlclose`.
unfoldable pub close_release : Loader → ℕ → ModTable → ℕ × ModTable
close_release l i t =
    let m = t.slots i in
    let u = release_handle m t in
    (elim m.dlhandle [ none ↦ 0 | some d ↦ l.dlclose u.log d ], release_lib m u)

-- `open_mod_table_close`
unfoldable pub mod_close : Loader → ℕ → ModTable → ℕ × ModTable
mod_close l handle t = elim (find_open t handle) [
  | none ↦ (aee_enosuchmod, t)
  | some i ↦
      let u = close_unlink i t in let r = close_release l i (u.1) in if u.0 then r else (0, u.1)
]

-- The part of `open_mod_close` behind `refs--`, which makes the slot `m`.
unfoldable pub end_with : OpenMod → ℕ → ModTable → ModTable
end_with m i t =
    let u = record (set_slot i m t) { is_open = put_at t.is_open i false } in
    if m.refs == 0
    then set_slot i (without_key m) (release_lib m (release_handle m u))
    else set_slot i m t

-- `open_mod_close`, after a call.
unfoldable pub end_call : ℕ → ModTable → ModTable
end_call i t = end_with (one_less (t.slots i)) i t

-- A module's function: what it returns, and what it makes of the table. It is called with the handle of
-- its module, if it takes one.
abbrev pub Functions : Type 0
Functions = ℕ → Option ℕ → ModTable → ℕ × ModTable

-- The call; `none` where both pointers are null.
unfoldable pub call_function :
    Functions → Option ℕ → Option ℕ → ℕ → ModTable → Option (ℕ × ModTable)
call_function run invoke handle_invoke h t = elim invoke [
  | some f ↦ some (run f none t)
  | none ↦ elim handle_invoke [ some f ↦ some (run f (some h) t) | none ↦ none ]
]

abbrev pub ending : ℕ → Option (ℕ × ModTable) → Option (ℕ × ModTable)
ending i none = none
ending i (some r) = some (r.0, end_call i (r.1))

-- `open_mod_table_handle_invoke`
unfoldable pub mod_invoke : Functions → ℕ → ModTable → Option (ℕ × ModTable)
mod_invoke run handle t = elim (find_const t handle) [
  | some c ↦ call_function run c.invoke c.handle_invoke c.h64 t
  | none ↦ elim (find_open t handle) [
    | none ↦ some (aee_enosuchmod, t)
    | some i ↦
        let m = t.slots i in
        ending i (call_function run m.invoke m.handle_invoke m.h64 (set_slot i (one_more m) t))
  ]
]

-- `static_mod_table_register_static_override` and `static_mod_table_register_static`; the flag says
-- whether there is memory.
unfoldable pub register_override : Bool → StaticMod → ModTable → ℕ × ModTable
register_override has_memory s t =
    if has_memory then (0, record t { overrides = s ∷ t.overrides }) else (aee_enomemory, t)

unfoldable pub register_static : Bool → StaticMod → ModTable → ℕ × ModTable
register_static has_memory s t =
    if has_memory then (0, record t { statics = s ∷ t.statics }) else (aee_enomemory, t)

-- `static_mod_table_register_const_handle`
unfoldable pub register_const : Bool → ConstMod → ModTable → ℕ × ModTable
register_const has_memory c t =
    let added : ℕ × ModTable = elim (find_const t c.key) [
      | none ↦ (0, record t { consts = c ∷ t.consts })
      | some old ↦ (aee_eunknown, t)
    ] in
    if has_memory then added else (aee_enomemory, t)
