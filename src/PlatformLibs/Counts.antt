-- ===== src/PlatformLibs/Counts.antt =====
-- The reference counts of the platform libraries over initialisation and deinitialisation.
use fastrpc.Common.{
  ℕ, ◌+◌, ◌-◌, ◌%◌, ◌≡◌, refl, ap, ◌∙◌, ◌&&◌, false, ◌==◌, u32_mod, put_at_there, arith,
}
use fastrpc.PlatformLibs.{Libs, Callbacks, set_lib, pl_lib_init, pl_lib_deinit}

abbrev pub refs_of : Libs → ℕ → ℕ
refs_of w j = (w.libs j).refs

-- A library that is not loaded: deinitialising it once, where it has no reference, calls nothing, and the
-- next initialisation calls nothing either and gives the error that was recorded before.
pub init_after_stray_deinit :
    (cb : Callbacks) (i : ℕ) (w : Libs)
    → refs_of w i ≡ 0
    → let r = pl_lib_init cb i (pl_lib_deinit cb i w) in
      (r.1.log ≡ w.log) × (r.0 ≡ (w.libs i).err) × (refs_of r.1 i ≡ 0)
unfolding pl_lib_init pl_lib_deinit
init_after_stray_deinit cb i w z =
    let lib = w.libs i in
    let less = record lib { refs = (lib.refs + u32_mod - 1) % u32_mod } in
    let w1 = set_lib i less w in
    let more = record (w1.libs i) { refs = ((w1.libs i).refs + 1) % u32_mod } in
    let w2 = set_lib i more w1 in
    let f : (lib.refs == 1 && (lib.has_deinit && lib.err == 0)) ≡ false = ground arith in
    let stray : pl_lib_deinit cb i w ≡ w1 = rw (pl_lib_deinit, f) refl in
    let there : w1.libs i ≡ less = put_at_there w.libs i less in
    let wrapped : (w1.libs i).refs ≡ 4294967295 = ap (λ l. l.refs) there ∙ ground arith in
    let g : ((w1.libs i).refs == 0) ≡ false = ground arith in
    let loaded : pl_lib_init cb i w1 ≡ ((w2.libs i).err, w2) = rw (pl_lib_init, g) refl in
    let all = ap (pl_lib_init cb i) stray ∙ loaded in
    let there' = put_at_there w1.libs i more in
    (
      ap (λ r. r.1.log) all,
      ap (λ r. r.0) all ∙ ap (λ l. l.err) there' ∙ ap (λ l. l.err) there,
      ap (λ r. refs_of r.1 i) all ∙ ap (λ l. l.refs) there' ∙ ground arith,
    )
