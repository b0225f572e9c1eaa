-- ===== src/PlatformLibs/Tests.antt =====
-- The properties of src/platform_libs.c at concrete inputs: two libraries that are not initialised.
use fastrpc.Common.{◌≡◌, refl, true, []}
use fastrpc.PlatformLibs.{Libs, Callbacks, pl_lib_init, pl_lib_deinit}
use fastrpc.PlatformLibs.Counts.{refs_of, init_after_stray_deinit}

abbrev callbacks : Callbacks
callbacks = record { init = λ i w. (0, w); deinit = λ i w. w }

-- Not initialised yet, with the error -1 that PL_DEFINE records.
abbrev fresh : Libs
fresh = record {
  libs = λ i. record { refs = 0; err = 4294967295; has_init = true; has_deinit = true };
  log = [];
}

init_after_stray_deinit_example :
    let r = pl_lib_init callbacks 1 (pl_lib_deinit callbacks 1 fresh) in
    (r.1.log ≡ []) × (r.0 ≡ 4294967295) × (refs_of r.1 1 ≡ 0)
init_after_stray_deinit_example = init_after_stray_deinit callbacks 1 fresh refl
