-- ===== src/ModTable/Tests.antt =====
-- The properties of src/mod_table.c at concrete inputs: a loader with one library, 7, whose functions
-- take no handle, and a table with one registered module in its first slot.
use fastrpc.Common.{
  ℕ, ◌+◌, ◌≡◌, ◌↔◌, inl, inr, refl, true, false, Bool-cases, none, some, List, [], ◌∷◌, length,
  ◌==◌, if◌then◌else◌, put_at, find, arith,
}
use fastrpc.ModTable.Close.{
  Functions, register_static, end_call, close_unlink, close_release, mod_close,
}
use fastrpc.ModTable.Libraries.{libs_opened, libs_closed, libs_held}
use fastrpc.ModTable.Libraries.Steps.{Reach-libs_held}
use fastrpc.ModTable.Open.{
  text_at, slice, find_static, static_in_slot, open_from_static, normal_uri,
}
use fastrpc.ModTable.Load.{
  load_lib, next_key, list_dynamic, enter_dynamic, with_function, bind_function, dynamic_in_slot,
  open_dynamic, mod_open,
}
use fastrpc.ModTable.Race.{close_release-race}
use fastrpc.ModTable.Registry.Runs.{
  here, next, opened, closed, begun, ended, no_modules, Reach-IsSlot,
}
use fastrpc.ModTable.Registry.{IsSlot, IsSound, HasKeys}
use fastrpc.ModTable.Reopen.{mod_close-mod_open}
use fastrpc.ModTable.Uri.Params.{Word, bytes, Param, AreParams, with_versions}
use fastrpc.ModTable.Uri.Roundtrip.{format_uri, parse_uri-format_uri}
use fastrpc.ModTable.Uri.{
  codes, strncmp, take_version, parse_param, parse_params, parse_sym, parse_uri,
}
use fastrpc.ModTable.{
  OpenMod, StaticMod, ModTable, Loader, blank_mod, first_slot, find_opened, next_available,
  find_open, find_const, same_text, key_of, max_rev_handles, set_slot, one_more,
}
use fastrpc.ScatterBuf.Parser.{
  is_one_of, sbuf_peek, sbuf_end, sbuf_chars, sbuf_notchars, sbuf_string, consume_all, sbuf_many,
  sbuf_many1,
}
use fastrpc.ScatterBuf.Parser.Text.{Holds, IsFree}
use fastrpc.ScatterBuf.{sbuf_init, sbuf_advance, sbuf_left, sbuf_valid}

abbrev loader : Loader
loader = record {
  table_address = 8192;
  dlopen = λ log name. (some 7, false);
  dlsym = λ d name. some 5;
  dlclose = λ log d. 0;
  open_handle = λ f log name. (0, 9);
  close_handle = λ f log h. 0;
}

loader-HasKeys : HasKeys loader
loader-HasKeys = record { key_ne_zero = λ i lt. omega arith }

abbrev calc : List ℕ
calc = codes "calc"

-- Opened, and closed.
abbrev after_open : ModTable
after_open = (mod_open loader calc no_modules).table

Reach-IsSlot_example :
    IsSlot loader 0 (after_open.slots 0) (after_open.is_open 0)
    × ((find_open after_open 8192 ≡ some 0)
        ↔ ((after_open.is_open 0 ≡ true) × (8192 ≡ key_of loader 0)))
Reach-IsSlot_example =
    Reach-IsSlot {l = loader} 0 8192 loader-HasKeys (next here (opened no_modules calc))
      (omega arith)

calc_open : find_open after_open 8192 ≡ some 0
unfolding mod_open open_from_static open_dynamic next_available find_opened first_slot same_text
    static_in_slot find_static find normal_uri parse_uri parse_sym parse_params text_at slice
    sbuf_init sbuf_advance sbuf_left sbuf_valid sbuf_peek sbuf_end sbuf_chars sbuf_notchars
    sbuf_string consume_all sbuf_many sbuf_many1 is_one_of dynamic_in_slot load_lib bind_function
    with_function enter_dynamic list_dynamic next_key find_open find_const put_at
calc_open = refl

-- The module is closed while it is being called, so that the end of the call releases it.
abbrev in_call : ModTable
in_call = set_slot 0 (one_more (after_open.slots 0)) after_open

abbrev closed_in_call : ModTable
closed_in_call = (mod_close loader 8192 in_call).1

calc_in_use : closed_in_call.is_open 0 ≡ true
unfolding mod_open open_from_static open_dynamic next_available find_opened first_slot same_text
    static_in_slot find_static find normal_uri parse_uri parse_sym parse_params text_at slice
    sbuf_init sbuf_advance sbuf_left sbuf_valid sbuf_peek sbuf_end sbuf_chars sbuf_notchars
    sbuf_string consume_all sbuf_many sbuf_many1 is_one_of dynamic_in_slot load_lib bind_function
    with_function enter_dynamic list_dynamic next_key find_open find_const put_at mod_close
    close_unlink
calc_in_use = refl

Reach-libs_held_example :
    let t = end_call 0 closed_in_call in
    libs_opened 7 t.log ≡ libs_closed 7 t.log + libs_held 7 max_rev_handles t.slots t.is_open
Reach-libs_held_example = Reach-libs_held {l = loader} 7 loader-HasKeys (
    next
      (next (next (next here (opened no_modules calc)) (begun after_open 8192 0 calc_open))
        (closed in_call 8192))
      (ended closed_in_call 0 (omega arith) calc_in_use))

-- A table with one registered module.
abbrev calc_mod : OpenMod
calc_mod = record (blank_mod calc) { invoke = some 4; key = 8192; refs = 1 }

abbrev one_module : ModTable
one_module = record no_modules {
  slots = λ i. if i == 0 then calc_mod else blank_mod [];
  is_open = λ i. i == 0;
}

one_module-IsSound : IsSound loader one_module
one_module-IsSound i lt = elim (Bool-cases (i == 0)) [
  | inl t ↦ rw t (inl (refl, ground arith, omega arith))
  | inr f ↦ rw f (inr (refl, refl))
]

calc_found : find_opened one_module calc ≡ some 0
unfolding find_opened first_slot same_text
calc_found = refl

mod_close-mod_open_example :
    let o = mod_open loader calc one_module in
    (o.code ≡ 0) × (o.handle ≡ some 8192) × (mod_close loader 8192 o.table ≡ (0, one_module))
mod_close-mod_open_example =
    mod_close-mod_open loader calc one_module 0 one_module-IsSound (omega arith) calc_found refl

-- A function that registers a module, as the library of a module does when it is loaded.
abbrev helper : StaticMod
helper = record { invoke = some 6; handle_invoke = none; uri = codes "helper" }

abbrev run : Functions
run f h t = register_static true helper t

-- The module with the function 4 is called.
abbrev invoked : ℕ × ModTable
invoked =
    (0, end_call 0 (register_static true helper (set_slot 0 (one_more calc_mod) one_module)).1)

-- A name with a version.
abbrev skel : Word
skel = record { first = b'c'; rest = codes "alc.so" }

abbrev fun : Word
fun = record { first = b'c'; rest = codes "alc_invoke" }

abbrev params : List Param
params =
    record {
      name = record { first = b'_'; rest = codes "modver" };
      value = some (record { first = b'1'; rest = codes ".0" });
    }
    ∷ []

abbrev text : List ℕ
text = format_uri skel fun params

formatted : text ≡ codes "file:///calc.so?calc_invoke&_modver=1.0"
formatted = refl

parsed :
    parse_uri (text_at 100 text) 100 (length text)
    ≡ (0, record { file = 108; sym = 116; ver = 136; filelen = 7; symlen = 11; verlen = 3 })
unfolding parse_uri parse_sym parse_params parse_param take_version strncmp is_one_of text_at
    sbuf_init sbuf_advance sbuf_left sbuf_valid sbuf_peek sbuf_end sbuf_chars sbuf_notchars
    sbuf_string consume_all sbuf_many sbuf_many1
parsed = refl

text_held : Holds (text_at 100 text) 100 text
unfolding text_at
text_held = omega arith

parse_uri-format_uri_example : parse_uri (text_at 100 text) 100 39 ≡ (
  0,
  with_versions 128 params
      (record { file = 108; sym = 116; ver = 0; filelen = 7; symlen = 11; verlen = 0 }),
)
parse_uri-format_uri_example =
    parse_uri-format_uri (text_at 100 text) 100 skel fun params text_held (omega arith)
      (omega arith) skel_free fun_free params_free
  where
    skel_free : IsFree (b'?' ∷ []) (bytes skel)
    skel_free = unfold is_one_of in ground arith

    fun_free : IsFree (b'&' ∷ []) (bytes fun)
    fun_free = unfold is_one_of in ground arith

    params_free : AreParams params
    params_free = unfold is_one_of in ground arith

-- A registered module is closed with its last reference, and before the part without the lock runs
-- another thread opens a module with a library, which gets the freed slot.
abbrev reopened : ModTable
reopened = (mod_open loader (codes "other") (close_unlink 0 one_module).1).table

reopened_there : (reopened.is_open 0 ≡ true) × ((reopened.slots 0).dlhandle ≡ some 7)
unfolding mod_open open_from_static open_dynamic close_unlink next_available find_opened first_slot
    same_text static_in_slot find_static find normal_uri parse_uri parse_sym parse_params text_at
    slice sbuf_init sbuf_advance sbuf_left sbuf_valid sbuf_peek sbuf_end sbuf_chars sbuf_notchars
    sbuf_string consume_all sbuf_many sbuf_many1 is_one_of dynamic_in_slot load_lib bind_function
    with_function enter_dynamic list_dynamic next_key find_open find_const put_at
reopened_there = (refl, refl)

one_module-Owes :
    libs_opened 7 one_module.log
    ≡ libs_closed 7 one_module.log + libs_held 7 max_rev_handles one_module.slots one_module.is_open
unfolding libs_opened libs_closed libs_held
one_module-Owes = refl

close_release-race_example :
    let w = (close_release loader 0 reopened).1 in
    (w.is_open 0 ≡ true)
    × ((w.slots 0).dlhandle ≡ some 7)
    × (libs_opened 7 w.log + 1
        ≡ libs_closed 7 w.log + libs_held 7 max_rev_handles w.slots w.is_open)
close_release-race_example =
    close_release-race loader (codes "other") one_module reopened 0 7 loader-HasKeys
      one_module-IsSound one_module-Owes (omega arith) refl refl refl refl (reopened_there.0)
      (reopened_there.1)
