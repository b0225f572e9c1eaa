-- ===== src/Session.antt =====
-- The sessions of the process and the thread's current domain: src/fastrpc_apps_user.c, on the fields
-- of `struct handle_list` of inc/fastrpc_internal.h that they read.
use fastrpc.Common.{
  ℕ, ◌+◌, ◌-◌, ◌%◌, Bool, Option, none, some, ltb, ◌==◌, if◌then◌else◌, ℤ, pos, negsuc, u32_mod,
  put_at,
}
use fastrpc.Context.{aee_enotinitialized}
use fastrpc.DspQueue.Refs.{num_domains_extend}

-- `state == FASTRPC_DOMAIN_STATE_DEINIT`, `dev` (`none` for a negative number) and `ref`.
pub record Session : Type 0 where
  pub is_deinit : Bool
  pub dev : Option ℕ
  pub refs : ℕ

-- `hlist` (`none` for a null pointer), whether `tlsKey` is valid, and the index in `hlist` that the
-- thread keeps under that key.
pub record Process : Type 0 where
  pub hlist : Option (ℕ → Session)
  pub has_key : Bool
  pub thread_domain : Option ℕ

abbrev pub is_valid_domain : ℕ → Bool
is_valid_domain d = ltb d num_domains_extend

abbrev pub default_domain : ℕ
default_domain = 3

-- `get_current_domain`
unfoldable pub current_domain : Process → ℕ
current_domain p = elim p.thread_domain [
  | none ↦ default_domain
  | some d ↦ if is_valid_domain d then d else default_domain
]

-- A domain argument once -1 stands for the current domain, if it is valid.
unfoldable pub effective_domain : Process → ℤ → Option ℕ
unfolding current_domain
effective_domain p (pos d) = if is_valid_domain d then some d else none
effective_domain p (negsuc n) = if n == 0 then some (current_domain p) else none

-- `set_thread_context`
abbrev pub set_thread_context : ℕ → Process → Process
set_thread_context d p = if p.has_key then record p { thread_domain = some d } else p

-- `fastrpc_session_get`
unfoldable pub session_get : ℕ → Process → ℕ × Process
session_get d p = elim p.hlist [
  | none ↦ (aee_enotinitialized, p)
  | some list ↦
      let s = list d in
      if s.is_deinit then (aee_enotinitialized, p) else (
        0,
        set_thread_context d (record p {
          hlist = some (put_at list d (record s { refs = (s.refs + 1) % u32_mod }));
        }),
      )
]

-- The reference count of `fastrpc_session_put`.
abbrev pub put_ref : Session → Session
put_ref s = record s { refs = if ltb 0 s.refs then s.refs - 1 else s.refs }

-- `fastrpc_session_put`, less the count it returns, which no caller reads.
unfoldable pub session_put : ℕ → Process → Process
session_put d p = elim p.hlist [
  | none ↦ p
  | some list ↦ record p { hlist = some (put_at list d (put_ref (list d))) }
]

-- `fastrpc_session_dev`: the code and `*dev`.
unfoldable pub session_dev : ℕ → Process → ℕ × Option ℕ
session_dev d p =
    if is_valid_domain d
    then elim p.hlist [
      | none ↦ (aee_enotinitialized, none)
      | some list ↦
          if (list d).is_deinit
          then (aee_enotinitialized, none)
          else elim (list d).dev [ none ↦ (aee_enotinitialized, none) | some dev ↦ (0, some dev) ]
    ]
    else (aee_enotinitialized, none)
