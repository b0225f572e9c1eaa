-- ===== src/PlatformLibs.antt =====
-- Reference-counted loading of the platform libraries: src/platform_libs.c and inc/platform_libs.h.
pub mod Counts
mod Tests
use fastrpc.Common.{
  ℕ, ◌+◌, ◌-◌, ◌%◌, ◌&&◌, Bool, List, [], ◌∷◌, ◌==◌, if◌then◌else◌, u32_mod, put_at,
}

-- `struct platform_lib`, less its name: `uRefs`, `nErr`, and whether there are an `init` and a `deinit`.
pub record PlatformLib : Type 0 where
  pub refs : ℕ
  pub err : ℕ
  pub has_init : Bool
  pub has_deinit : Bool

-- A call of a library's own function.
pub data Event : Type 0 where
  init_called : ℕ → Event
  deinit_called : ℕ → Event

-- The libraries, by a number for each entry point, and the calls so far, newest first.
pub record Libs : Type 0 where
  pub libs : ℕ → PlatformLib
  pub log : List Event

-- The libraries' own functions, which may load and unload others.
pub record Callbacks : Type 0 where
  pub init : ℕ → Libs → ℕ × Libs
  pub deinit : ℕ → Libs → Libs

abbrev pub set_lib : ℕ → PlatformLib → Libs → Libs
set_lib i lib w = record w { libs = put_at w.libs i lib }

abbrev pub set_err : ℕ → ℕ × Libs → Libs
set_err i r = set_lib i (record (r.1.libs i) { err = r.0 }) r.1

-- `pl_lib_init`
unfoldable pub pl_lib_init : Callbacks → ℕ → Libs → ℕ × Libs
pl_lib_init cb i w =
    let lib = w.libs i in
    let w1 = set_lib i (record lib { refs = (lib.refs + 1) % u32_mod }) w in
    let called = cb.init i (record w1 { log = init_called i ∷ w1.log }) in
    let r : ℕ × Libs = if lib.has_init then called else (0, w1) in
    let w2 = if lib.refs == 0 then set_err i r else w1 in ((w2.libs i).err, w2)

-- `pl_lib_deinit`
unfoldable pub pl_lib_deinit : Callbacks → ℕ → Libs → Libs
pl_lib_deinit cb i w =
    let lib = w.libs i in
    let w1 = set_lib i (record lib { refs = (lib.refs + u32_mod - 1) % u32_mod }) w in
    let called = cb.deinit i (record w1 { log = deinit_called i ∷ w1.log }) in
    if lib.refs == 1 && (lib.has_deinit && lib.err == 0) then called else w1

-- `pl_init_lst`
unfoldable pub pl_init_lst : Callbacks → List ℕ → Libs → ℕ × Libs
pl_init_lst cb [] w = (0, w)
pl_init_lst cb (i ∷ is) w =
    let r = pl_lib_init cb i w in let rest = pl_init_lst cb is r.1 in if r.0 == 0 then rest else r

-- `pl_deinit_lst`, from the last library to the first.
unfoldable pub pl_deinit_lst : Callbacks → List ℕ → Libs → Libs
pl_deinit_lst cb [] w = w
pl_deinit_lst cb (i ∷ is) w = pl_lib_deinit cb i (pl_deinit_lst cb is w)
