-- ===== src/Context.antt =====
-- src/fastrpc_context.c: contexts over several domains or several sessions of one domain, and the
-- global table of contexts. The table of src/inc/uthash.h is a list, newest context first.
pub mod Domains
pub mod Sessions
pub mod Lifetime
mod Tests
use fastrpc.Common.{
  ℕ, zero, suc, ◌+◌, ◌%◌, ◌≤◌, ◌<◌, ◌≡◌, ◌≢◌, Bool, true, false, not, ◌&&◌, ◌||◌, Option, none,
  some, List, [], ◌∷◌, ◌++◌, map, length, leb, ltb, ◌==◌, if◌then◌else◌,
}
use fastrpc.DspQueue.State.{Outcome, ret, abort, aee_ebadparm}

abbrev pub aee_einvaliddevice : ℕ
aee_einvaliddevice = 59

abbrev pub aee_ebaddomain : ℕ
aee_ebaddomain = 75

abbrev pub aee_ebadcontext : ℕ
aee_ebadcontext = 84

abbrev pub aee_enotinitialized : ℕ
aee_enotinitialized = 107

-- `struct fastrpc_context`
pub record Context : Type 0 where
  pub ctxid : ℕ
  pub effec_domain_ids : List ℕ
  pub domains : List ℕ
  pub devs : List ℕ

-- `struct fastrpc_context_table`; `contexts` is `none` where `table` points to no table.
pub record Table : Type 0 where
  pub is_init : Bool
  pub contexts : Option (List Context)

-- What the functions call outside this file: `fastrpc_session_open` with its code and what it leaves in
-- `devs`, `get_device_fd`, the two uses of `ioctl_mdctx_manage`, and whether `calloc` has memory.
pub record Calls : Type 0 where
  pub session_open : ℕ → ℕ × ℕ
  pub device_fd : ℕ → Option ℕ
  pub mdctx_setup : ℕ → List ℕ → ℕ × ℕ
  pub mdctx_remove : ℕ → ℕ → ℕ
  pub has_memory : Bool

-- The result of a call: a code, the table, the domains whose sessions `fastrpc_session_close` was called
-- for, and what is handed out. A call that follows such a pointer aborts.
abbrev pub Result : Type 0 → Type 0
Result A = Outcome (Table × List ℕ × Option A)

abbrev pub failed : {A : Type 0} → ℕ → Table → List ℕ → Result A
failed code t closed = ret code (t, closed, none)

-- `GET_DOMAIN_FROM_EFFEC_DOMAIN_ID`
abbrev pub domain_of : ℕ → ℕ
domain_of effec_domain_id = effec_domain_id % 8

abbrev pub first_or_zero : List ℕ → ℕ
first_or_zero [] = 0
first_or_zero (d ∷ ds) = d

-- Every effective domain id is valid.
unfoldable pub all_valid : List ℕ → Bool
all_valid [] = true
all_valid (e ∷ es) = ltb e 32 && all_valid es

-- `multisess`: no domain differs from the first.
unfoldable pub all_are : ℕ → List ℕ → Bool
all_are d [] = true
all_are d (e ∷ es) = e == d && all_are d es

unfoldable pub occurs : ℕ → List ℕ → Bool
occurs d [] = false
occurs d (e ∷ es) = e == d || occurs d es

-- `multidom`: no domain stands at two places.
unfoldable pub all_differ : List ℕ → Bool
all_differ [] = true
all_differ (d ∷ ds) = not (occurs d ds) && all_differ ds

-- `fastrpc_context_init_domains`
unfoldable pub init_domains : List ℕ → ℕ
init_domains ids =
    let domains = map domain_of ids in
    if all_valid ids
    then (if all_are (first_or_zero domains) domains
        then 0
        else if all_differ domains
        then 0
        else aee_ebadparm)
    else aee_ebaddomain

-- The loop that opens a session for each domain: the code, and `devs`, zero where it did not come to.
unfoldable pub open_sessions : Calls → List ℕ → ℕ × List ℕ
open_sessions c [] = (0, [])
open_sessions c (e ∷ es) =
    let rest = open_sessions c es in
    let opened = c.session_open e in
    if opened.0 == 0 then (rest.0, opened.1 ∷ rest.1) else (opened.0, opened.1 ∷ map (λ x. 0) es)

-- The loop of `fastrpc_context_deinit`: the domains whose session it closes.
unfoldable pub close_sessions : List ℕ → List ℕ → List ℕ
close_sessions [] devs = []
close_sessions (e ∷ es) [] = []
close_sessions (e ∷ es) (dev ∷ devs) =
    let rest = close_sessions es devs in if dev == 0 then rest else e ∷ rest

-- `fastrpc_context_add_to_table` and the end of `fastrpc_create_context`.
unfoldable pub add_to_table : Table → Context → Result ℕ
add_to_table t ctx = elim t.contexts [
  | none ↦ abort
  | some cs ↦ ret 0 (record t { contexts = some (ctx ∷ cs) }, [], some ctx.ctxid)
]

-- From the device of the first domain on.
unfoldable pub set_up : Calls → Table → List ℕ → List ℕ → Result ℕ
set_up c t ids devs = elim (c.device_fd (first_or_zero ids)) [
  | none ↦ failed aee_einvaliddevice t (close_sessions ids devs)
  | some dev ↦
      let domains = map domain_of ids in
      let made = c.mdctx_setup dev domains in
      if made.0 == 0
      then add_to_table t
          (record { ctxid = made.1; effec_domain_ids = ids; domains = domains; devs = devs })
      else failed (made.0) t (close_sessions ids devs)
]

-- `fastrpc_create_context`; `ids` is `none` for a null pointer.
unfoldable pub create_context : Calls → Table → Option (List ℕ) → ℕ → Result ℕ
create_context c t none flags =
    failed (if t.is_init then aee_ebadparm else aee_enotinitialized) t []
create_context c t (some ids) flags =
    if t.is_init
    then (if flags == 0 && (ltb 0 (length ids) && ltb (length ids) 32)
        then (if c.has_memory
            then (if init_domains ids == 0
                then (let opened = open_sessions c ids in
                    if opened.0 == 0
                    then set_up c t ids (opened.1)
                    else failed (opened.0) t (close_sessions ids (opened.1)))
                else failed aee_ebadparm t [])
            else failed aee_ebadcontext t [])
        else failed aee_ebadparm t [])
    else failed aee_enotinitialized t []

-- `HASH_FIND`
unfoldable pub find_context : ℕ → List Context → Option Context
find_context ctxid [] = none
find_context ctxid (c ∷ cs) = if c.ctxid == ctxid then some c else find_context ctxid cs

-- `HASH_DELETE` of the context that was found.
unfoldable pub delete_context : ℕ → List Context → List Context
delete_context ctxid [] = []
delete_context ctxid (c ∷ cs) =
    let rest = delete_context ctxid cs in if c.ctxid == ctxid then cs else c ∷ rest

-- `fastrpc_destroy_context` once the context is off the table `t`.
unfoldable pub tear_down : Calls → Table → Context → Result (Unit {0})
tear_down c t ctx = elim (c.device_fd (first_or_zero ctx.effec_domain_ids)) [
  | none ↦ failed aee_einvaliddevice t []
  | some dev ↦
      if c.mdctx_remove dev ctx.ctxid == 0
      then ret 0 (t, close_sessions ctx.effec_domain_ids ctx.devs, none)
      else failed (c.mdctx_remove dev ctx.ctxid) t []
]

-- `fastrpc_destroy_context`
unfoldable pub destroy_context : Calls → Table → ℕ → Result (Unit {0})
destroy_context c t ctxid =
    if t.is_init
    then elim t.contexts [
      | none ↦ abort
      | some cs ↦ elim (find_context ctxid cs) [
        | none ↦ failed aee_ebadcontext t []
        | some ctx ↦ tear_down c (record t { contexts = some (delete_context ctxid cs) }) ctx
      ]
    ]
    else failed aee_enotinitialized t []

-- `fastrpc_context_get_domains` with pointers that are not null: it does not ask whether the table is
-- initialised.
unfoldable pub get_domains : Table → ℕ → Result (List ℕ)
get_domains t ctxid = elim t.contexts [
  | none ↦ abort
  | some cs ↦ elim (find_context ctxid cs) [
    | none ↦ failed aee_ebadcontext t []
    | some ctx ↦ ret 0 (t, [], some ctx.effec_domain_ids)
  ]
]
