-- ===== src/ModTable.antt =====
-- src/mod_table.c: the modules that the DSP opens on the host, by name, and invokes by handle. This
-- file has the tables and what the operations share.
pub mod Load
pub mod Uri
pub mod Open
pub mod Close
pub mod Registry
pub mod Reopen
pub mod Libraries
pub mod Race
mod Tests
use fastrpc.Common.{
  ℕ, zero, suc, ◌+◌, ◌*◌, ◌%◌, ◌^◌, Bool, true, false, not, ◌&&◌, Option, none, some, List, [], ◌∷◌,
  ◌==◌, if◌then◌else◌, u32_mod, put_at, find,
}
use fastrpc.ModTable.Uri.{ParsedUri, unparsed}

-- MAX_REV_HANDLES, REV_HANDLE_SIZE and, on a 64-bit target, `sizeof(struct open_mod)`.
abbrev pub max_rev_handles : ℕ
max_rev_handles = 20

abbrev pub rev_handle_size : ℕ
rev_handle_size = 256

abbrev pub sizeof_open_mod : ℕ
sizeof_open_mod = 144

abbrev pub aee_enosuchmod : ℕ
aee_enosuchmod = 62

abbrev pub aee_enosuchsymbol : ℕ
aee_enosuchsymbol = 66

-- `struct open_mod`: a slot of `rev_handle_table`, free where its key is zero. Functions and libraries
-- are numbers.
pub record OpenMod : Type 0 where
  pub dlhandle : Option ℕ
  pub invoke : Option ℕ
  pub handle_invoke : Option ℕ
  pub key : ℕ
  pub h64 : ℕ
  pub vals : ParsedUri
  pub refs : ℕ
  pub uri : List ℕ

-- `memset(dm, 0, REV_HANDLE_SIZE)`, and the name.
abbrev pub blank_mod : List ℕ → OpenMod
blank_mod uri = record {
  dlhandle = none;
  invoke = none;
  handle_invoke = none;
  key = 0;
  h64 = 0;
  vals = unparsed;
  refs = 0;
  uri = uri;
}

-- `struct static_mod` and `struct const_mod`.
pub record StaticMod : Type 0 where
  pub invoke : Option ℕ
  pub handle_invoke : Option ℕ
  pub uri : List ℕ

pub record ConstMod : Type 0 where
  pub invoke : Option ℕ
  pub handle_invoke : Option ℕ
  pub key : ℕ
  pub h64 : ℕ

-- What the code asks of a library or a module.
pub data Event : Type 0 where
  lib_opened : ℕ → Event
  lib_closed : ℕ → Event
  handle_opened : ℕ → ℕ → Event
  handle_closed : ℕ → ℕ → Event

-- `rev_handle_table`, the slots that are in `openMods`, the three tables of `struct static_mod_table`,
-- newest entry first, and the events so far, newest first.
pub record ModTable : Type 0 where
  pub slots : ℕ → OpenMod
  pub is_open : ℕ → Bool
  pub overrides : List StaticMod
  pub statics : List StaticMod
  pub consts : List ConstMod
  pub log : List Event

-- What is outside: the address of `rev_handle_table`, `dlopen` with whether it left ENOENT, `dlsym`,
-- `dlclose`, and the `handle_invoke` functions as an open call (code and handle) and a close call.
pub record Loader : Type 0 where
  pub table_address : ℕ
  pub dlopen : List Event → List ℕ → Option ℕ × Bool
  pub dlsym : ℕ → List ℕ → Option ℕ
  pub dlclose : List Event → ℕ → ℕ
  pub open_handle : ℕ → List Event → List ℕ → ℕ × ℕ
  pub close_handle : ℕ → List Event → ℕ → ℕ

-- `(uint32_t)(uintptr_t)dm`
abbrev pub key_of : Loader → ℕ → ℕ
key_of l i = (l.table_address + rev_handle_size * i) % u32_mod

-- The first of `n` slots from `i` on that passes the test.
unfoldable pub first_slot : (ℕ → Bool) → ℕ → ℕ → Option ℕ
first_slot p i zero = none
first_slot p i (suc n) = let rest = first_slot p (suc i) n in if p i then some i else rest

abbrev pub set_slot : ℕ → OpenMod → ModTable → ModTable
set_slot i m t = record t { slots = put_at t.slots i m }

abbrev pub log_event : Event → ModTable → ModTable
log_event e t = record t { log = e ∷ t.log }

-- Equal texts.
unfoldable pub same_text : List ℕ → List ℕ → Bool
same_text [] [] = true
same_text [] (d ∷ b) = false
same_text (c ∷ a) [] = false
same_text (c ∷ a) (d ∷ b) = c == d && same_text a b

-- The search of `is_reverse_handle_opened`, and `next_available_rev_handle`.
unfoldable pub find_opened : ModTable → List ℕ → Option ℕ
find_opened t uri =
    first_slot (λ i. not ((t.slots i).key == 0) && same_text (t.slots i).uri uri) 0 max_rev_handles

unfoldable pub next_available : ModTable → Option ℕ
next_available t = first_slot (λ i. (t.slots i).key == 0) 0 max_rev_handles

-- `HASH_FIND_INT(me->openMods, &handle, dm)`
unfoldable pub find_open : ModTable → ℕ → Option ℕ
find_open t handle = first_slot (λ i. t.is_open i && (t.slots i).key == handle) 0 max_rev_handles

unfoldable pub find_const : ModTable → ℕ → Option ConstMod
find_const t handle = find (λ c. c.key == handle) t.consts

-- The refs of a slot by one more.
abbrev pub one_more : OpenMod → OpenMod
one_more m = record m { refs = m.refs + 1 }

-- `open_mod_handle_close`, whose result no caller reads.
abbrev pub close_h64 : OpenMod → ModTable → ModTable
close_h64 m t = elim m.handle_invoke [ none ↦ t | some f ↦ log_event (handle_closed f m.h64) t ]

-- The releases at the end of a module: its handle and its library.
unfoldable pub release_handle : OpenMod → ModTable → ModTable
release_handle m t = if m.h64 == 0 then t else close_h64 m t

unfoldable pub release_lib : OpenMod → ModTable → ModTable
release_lib m t = elim m.dlhandle [ none ↦ t | some d ↦ log_event (lib_closed d) t ]
