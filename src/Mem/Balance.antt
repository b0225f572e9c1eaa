-- ===== src/Mem/Balance.antt =====
-- The session references that the calls of src/fastrpc_mem.c take are given back.
pub mod Remote
pub mod Calls
use fastrpc.Common.{
  ltb, ◌-◌, ℕ, suc, ◌+◌, ◌%◌, ◌<◌, ◌≡◌, ◌≢◌, refl, sym, ap, ◌∙◌, true, false, Bool, Bool-cases,
  Option, none, some, inl, inr, arith, ℤ, pos, negsuc, u32_mod, put_at, put_at_back, put_at_there,
  ◌==◌, if◌then◌else◌, if_keeps, Option-cases, subst, not, ◌&&◌, find,
}
use fastrpc.DspQueue.State.{StaticMap}
use fastrpc.Session.{
  Session, Process, session_get, session_put, session_dev, effective_domain, put_ref,
}
use fastrpc.Ioctl.{Call, call, unknown}
use fastrpc.Mem.{Mem, Env, Result, failed, do_ioctl, in_session, in_domain, clear_errno, once}

-- No session reference is within `k` of the wrap-around of its `uint32_t`.
abbrev pub Room : ℕ → Option (ℕ → Session) → Type 0
Room k none = Unit {0}
Room k (some list) = (d : ℕ) → (list d).refs + k < u32_mod

-- The session list once a reference of a domain is taken.
abbrev pub taken : ℕ → (ℕ → Session) → ℕ → Session
taken d list = put_at list d (record (list d) { refs = ((list d).refs + 1) % u32_mod })

pub get_some :
    (d : ℕ) (p : Process) (list : ℕ → Session)
    → p.hlist ≡ some list
    → ((session_get d p).0 ≡ 0)
    → ((session_get d p).1.hlist ≡ some (taken d list))
unfolding session_get
get_some d p list e h = ground (arith, e)

pub get_refused : (d : ℕ) (p : Process) → (session_get d p).0 ≢ 0 → (session_get d p).1 ≡ p
unfolding session_get
get_refused d p h = ground arith

pub put_some :
    (d : ℕ) (q : Process) (list : ℕ → Session)
    → q.hlist ≡ some list
    → (session_put d q).hlist ≡ some (put_at list d (put_ref (list d)))
unfolding session_put
put_some d q list e = rw e refl

put_none : (d : ℕ) (q : Process) → q.hlist ≡ none → (session_put d q).hlist ≡ none
unfolding session_put
put_none d q e = rw e refl

get_none : (d : ℕ) (p : Process) → p.hlist ≡ none → (session_get d p).0 ≢ 0
unfolding session_get
get_none d p e = rw e (ground arith)

less_more :
    (n : ℕ)
    → n + 1 < u32_mod
    → (if ltb 0 ((n + 1) % u32_mod) then (n + 1) % u32_mod - 1 else (n + 1) % u32_mod) ≡ n
less_more n h = ground arith

-- A reference that is taken and given back.
back :
    (d : ℕ) (list : ℕ → Session)
    → (list d).refs + 1 < u32_mod
    → put_at (taken d list) d (put_ref (taken d list d)) ≡ list
back d list h =
    let there = put_at_there list d (record (list d) { refs = ((list d).refs + 1) % u32_mod }) in
    put_at_back list d _ (put_ref (taken d list d))
      (rw there (ap (λ r. record (list d) { refs = r }) (less_more (list d).refs h)))

taken-Room :
    (k d : ℕ) (list : ℕ → Session) → Room (suc k) (some list) → Room k (some (taken d list))
unfolding put_at
taken-Room k d list h i = let hi = h i in ground arith

-- The call leaves the session list as it is, from any state with `k` references to spare.
abbrev pub IsBalanced : ℕ → (Mem → Result) → Type 0
IsBalanced k f = (m : Mem) → Room k m.proc.hlist → (f m).mem.proc.hlist ≡ m.proc.hlist

pub Room-less : (k : ℕ) (l : Option (ℕ → Session)) → Room (suc k) l → Room k l
Room-less k none h = h
Room-less k (some list) h = λ d. let hd = h d in omega arith

pub once-IsBalanced :
    (k : ℕ) (c : Env) (body : Mem → Result) → IsBalanced k body → IsBalanced k (once c body)
once-IsBalanced k c body hb m room =
    if_keeps (λ r. r.mem.proc.hlist ≡ m.proc.hlist) (c.init_once == 0) (body m)
      (failed c.init_once m) (hb m room) refl

pub clear_errno-IsBalanced :
    (k : ℕ) (f : Mem → Result) → IsBalanced k f → IsBalanced k (λ m. clear_errno (f m))
clear_errno-IsBalanced k f hf m room =
    let r = f m in
    if_keeps (λ r. r.mem.proc.hlist ≡ m.proc.hlist) (not (r.code == 0) && r.ioc_err == 0)
      (record r { mem = record r.mem { errno = 0 } }) r (hf m room) (hf m room)

module _ (k d : ℕ) (body : Option ℕ → Mem → Result)
    (hb : (dev : Option ℕ) → IsBalanced k (body dev)) where
  within :
      (m' : Mem) (dev : ℕ × Option ℕ)
      → Room k m'.proc.hlist
      → (if dev.0 == 0 then body (dev.1) m' else failed (dev.0) m').mem.proc.hlist ≡ m'.proc.hlist
  within m' dev room = elim (Bool-cases (dev.0 == 0)) [
    | inl t ↦ rw t (hb (dev.1) m' room)
    | inr f ↦ rw f refl
  ]

  pub in_session-IsBalanced : IsBalanced (suc k) (in_session d body)
  unfolding in_session
  in_session-IsBalanced m room =
      let got = session_get d m.proc in
      let m' = record m { proc = got.1 } in
      elim (Bool-cases (got.0 == 0)) [
        | inr f ↦ rw (in_session, f) (ap (λ p. p.hlist) (get_refused d m.proc (ground arith)))
        | inl t ↦ elim (Option-cases m.proc.hlist) [
          | inl n ↦ absurd (get_none d m.proc n (ground arith))
          | inr (list, e) ↦
              let room' : Room (suc k) (some list) = subst (Room (suc k)) e room in
              let there = get_some d m.proc list e (ground arith) in
              let left =
                within m' (session_dev d got.1)
                  (subst (Room k) (sym there) (taken-Room k d list room')) in
              let h = room' d in
              rw (in_session, t)
                (put_some d _ (taken d list) (left ∙ there)
                  ∙ ap some (back d list (omega arith))
                  ∙ sym e)
        ]
      ]

pub in_domain-IsBalanced :
    (k : ℕ) (domain : ℤ) (code : ℕ) (body : ℕ → Option ℕ → Mem → Result)
    → ((d : ℕ) (dev : Option ℕ) → IsBalanced k (body d dev))
    → IsBalanced (suc k) (in_domain domain code body)
unfolding in_domain
in_domain-IsBalanced k domain code body hb m room =
    elim (Option-cases (effective_domain m.proc domain)) [
      | inl n ↦ rw (in_domain, n) refl
      | inr (d, e) ↦ rw (in_domain, e) (in_session-IsBalanced k d (body d) (hb d) m room)
    ]
