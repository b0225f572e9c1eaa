-- ===== src/ModTable/Open.antt =====
-- Opening a module in src/mod_table.c among the registered ones, and what every opening shares.
use fastrpc.Common.{
  ℕ, zero, suc, ◌+◌, ◌-◌, ◌*◌, Bool, true, ◌&&◌, Option, none, some, List, [], ◌∷◌, ◌++◌, length,
  ltb, leb, ◌==◌, if◌then◌else◌, Bytes, put_at, find,
}
use fastrpc.DspQueue.State.{aee_ebadparm}
use fastrpc.Ioctl.{aee_enomemory}
use fastrpc.Mem.Handles.{aee_einvhandle}
use fastrpc.ModTable.Uri.{codes, ParsedUri, parse_uri}
use fastrpc.ModTable.{
  OpenMod, StaticMod, ModTable, Loader, rev_handle_size, sizeof_open_mod, aee_enosuchmod, blank_mod,
  handle_opened, key_of, set_slot, log_event, same_text, find_opened, next_available, one_more,
}

-- The code, `dlErr`, what is written to `*handle`, and the table.
pub record Opened : Type 0 where
  pub code : ℕ
  pub dl_err : ℕ
  pub handle : Option ℕ
  pub table : ModTable

abbrev pub refused : ℕ → ModTable → Opened
refused code t = record { code = code; dl_err = 0; handle = none; table = t }

abbrev pub given : ℕ → ModTable → Opened
given handle t = record { code = 0; dl_err = 0; handle = some handle; table = t }

-- A text in memory, NUL behind it, and a part of it by its place and length.
unfoldable pub text_at : ℕ → List ℕ → Bytes
text_at pos [] i = 0
text_at pos (c ∷ text) i = let rest = text_at (suc pos) text i in if i == pos then c else rest

unfoldable pub slice : List ℕ → ℕ → ℕ → List ℕ
slice text off zero = []
slice [] off (suc n) = []
slice (c ∷ text) zero (suc n) = c ∷ slice text zero n
slice (c ∷ text) (suc off) (suc n) = slice text off (suc n)

-- The address that a name is parsed at.
abbrev pub uri_address : ℕ
uri_address = 4096

abbrev pub parse_name : List ℕ → ℕ × ParsedUri
parse_name uri = parse_uri (text_at uri_address uri) uri_address (length uri)

abbrev pub file_of : List ℕ → ParsedUri → List ℕ
file_of uri v = slice uri (v.file - uri_address) v.filelen

abbrev pub sym_of : List ℕ → ParsedUri → List ℕ
sym_of uri v = slice uri (v.sym - uri_address) v.symlen

abbrev pub ver_of : List ℕ → ParsedUri → List ℕ
ver_of uri v = slice uri (v.ver - uri_address) v.verlen

-- `len * 2 + sizeof("file:///lib_skel.so?_skel_handle_invoke&_modver=1.0") + 1`
abbrev pub name_room : List ℕ → ℕ
name_room uri = length uri * 2 + 53

-- The guard of each `snprintf`.
abbrev pub is_written : List ℕ → List ℕ → Bool
is_written uri name = ltb 0 (length name) && leb (length name) (name_room uri)

-- The branch of `is_reverse_handle_opened` for a module that is open, or else `fresh`.
abbrev pub reuse : List ℕ → Opened → ModTable → Opened
reuse uri fresh t = elim (find_opened t uri) [
  | none ↦ fresh
  | some i ↦ given (t.slots i).key (set_slot i (one_more (t.slots i)) t)
]

-- The slot as it goes into the table: its key and one reference.
abbrev pub keyed : Loader → ℕ → OpenMod → OpenMod
keyed l i m = record m { key = key_of l i; refs = 1 }

-- The name that a parsed name is looked up by, with the version or without.
unfoldable pub normal_uri : List ℕ → ParsedUri → List ℕ
normal_uri uri v =
    if v.verlen == 0
    then codes "file://" ++ (file_of uri v ++ (b'?' ∷ sym_of uri v))
    else codes "file:///"
      ++ (file_of uri v ++ (b'?' ∷ (sym_of uri v ++ (codes "&_modver=" ++ ver_of uri v))))

-- The module of a table with this name, or with what the name is parsed to: the code, the module, and
-- the slot, which keeps the name that was looked up last.
unfoldable pub find_static : List StaticMod → OpenMod → ℕ × Option StaticMod × OpenMod
find_static mods m =
    let p = parse_name m.uri in
    let parsed = record m { vals = p.1 } in
    let name = normal_uri m.uri (p.1) in
    let named = record parsed { uri = name } in
    let by_name : ℕ × Option StaticMod × OpenMod = elim (find (λ s. same_text s.uri name) mods) [
      | some s ↦ (0, some s, named)
      | none ↦ (aee_enosuchmod, none, named)
    ] in
    elim (find (λ s. same_text s.uri m.uri) mods) [
      | some s ↦ (0, some s, m)
      | none ↦
          if p.0 == 0
          then (if is_written m.uri name then by_name else (aee_ebadparm, none, named))
          else (p.0, none, parsed)
    ]

-- `dm->key = 0` at `bail`.
abbrev pub free_slot : ℕ → OpenMod → ModTable → ModTable
free_slot i m t = set_slot i (record m { key = 0 }) t

-- The end of `open_mod_table_open_from_static` with a module: the handle call, and the hash table.
unfoldable pub enter_static : Loader → ℕ → List ℕ → OpenMod → ModTable → Opened
enter_static l i uri m t =
    let listed = λ (n : OpenMod) (u : ModTable).
      given n.key (record (set_slot i n u) { is_open = put_at u.is_open i true }) in
    elim m.handle_invoke [
      | none ↦ listed m t
      | some f ↦
          let r = l.open_handle f t.log uri in
          if r.0 == 0
          then listed (record m { h64 = r.1 }) (log_event (handle_opened f (r.1)) t)
          else refused (r.0) (free_slot i m t)
    ]

-- The part of it behind the search for an open module, in a free slot.
unfoldable pub static_in_slot : Loader → List StaticMod → List ℕ → ℕ → ModTable → Opened
static_in_slot l mods uri i t =
    let s = find_static mods (blank_mod uri) in
    elim (s.1) [
      | none ↦ refused (s.0) (free_slot i (s.2) t)
      | some found ↦
          enter_static l i uri
            (keyed l i
              (record (s.2) { invoke = found.invoke; handle_invoke = found.handle_invoke }))
            t
    ]

-- `open_mod_table_open_from_static`
unfoldable pub open_from_static : Loader → List StaticMod → List ℕ → ModTable → Opened
open_from_static l mods uri t =
    let fresh : Opened = elim (next_available t) [
      | none ↦ refused aee_einvhandle t
      | some i ↦ static_in_slot l mods uri i t
    ] in
    if leb (sizeof_open_mod + name_room uri) rev_handle_size
    then reuse uri fresh t
    else refused aee_enomemory t
