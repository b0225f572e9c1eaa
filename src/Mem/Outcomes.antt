-- ===== src/Mem/Outcomes.antt =====
-- What the bracket around a call of src/fastrpc_mem.c can come to.
use fastrpc.Common.{
  ℕ, ◌≡◌, ◌≢◌, true, false, Bool, Bool-cases, Option, none, some, inl, inr, arith, ℤ, ◌==◌,
  if◌then◌else◌, Option-cases, not, ◌&&◌,
}
use fastrpc.Session.{Process, session_get, session_dev, effective_domain}
use fastrpc.Mem.{Mem, Env, Result, failed, in_session, in_domain, clear_errno, once}

-- The result with another process.
abbrev pub with_proc : Process → Result → Result
with_proc p r = record r { mem = record r.mem { proc = p } }

-- The result with another `errno`.
abbrev pub with_errno : ℕ → Result → Result
with_errno e r = record r { mem = record r.mem { errno = e } }

-- The predicate says nothing about the process and `errno`.
abbrev pub IsFree : (Result → Type 0) → Type 0
IsFree q =
    ((r : Result) (p : Process) → q r → q (with_proc p r))
    × ((r : Result) (e : ℕ) → q r → q (with_errno e r))

module _ (q : Result → Type 0) (free : IsFree q) where
  pub if_outcome : (b : Bool) (x y : Result) → q x → q y → q (if b then x else y)
  if_outcome true x y hx hy = hx
  if_outcome false x y hx hy = hy

  pub clear_errno_outcome : (r : Result) → q r → q (clear_errno r)
  clear_errno_outcome r h = if_outcome (not (r.code == 0) && r.ioc_err == 0) _ r (free.1 r 0 h) h

  pub once_outcome :
      (c : Env) (body : Mem → Result) (m : Mem)
      → ((code : ℕ) → code ≢ 0 → q (failed code m))
      → q (body m)
      → q (once c body m)
  once_outcome c body m hf hb = elim (Bool-cases (c.init_once == 0)) [
    | inl t ↦ rw t hb
    | inr f ↦ rw f (hf c.init_once (ground arith))
  ]

  -- A call that is made if the test holds.
  pub checked_outcome :
      (c : Env) (m : Mem) (b : Bool) (code : ℕ) (r : Result)
      → code ≢ 0
      → ((code : ℕ) → code ≢ 0 → q (failed code m))
      → q r
      → q (once c (λ m. if b then r else failed code m) m)
  checked_outcome c m b code r ne hf h =
      once_outcome c (λ m. if b then r else failed code m) m hf
        (if_outcome b r (failed code m) h (hf code ne))

  no_dev : (d : ℕ) (p : Process) → (session_dev d p).1 ≡ none → (session_dev d p).0 ≢ 0
  unfolding session_dev
  no_dev d p h = ground arith

  pub in_session_outcome :
      (d : ℕ) (body : Option ℕ → Mem → Result) (m : Mem)
      → ((code : ℕ) → code ≢ 0 → q (failed code m))
      → ((dev : ℕ) (p : Process) → q (body (some dev) (record m { proc = p })))
      → q (in_session d body m)
  unfolding in_session
  in_session_outcome d body m hf hb =
      let got = session_get d m.proc in
      let dev = session_dev d got.1 in
      elim (Bool-cases (got.0 == 0)) [
        | inr f ↦ rw (in_session, f) (free.0 _ got.1 (hf (got.0) (ground arith)))
        | inl t ↦ elim (Bool-cases (dev.0 == 0)) [
          | inr f ↦ rw (in_session, t, f) (free.0 _ _ (hf (dev.0) (ground arith)))
          | inl s ↦ elim (Option-cases (dev.1)) [
            | inl n ↦ absurd (no_dev d got.1 n (ground arith))
            | inr (some_dev, e) ↦ rw (in_session, t, s, e) (free.0 _ _ (hb some_dev got.1))
          ]
        ]
      ]

  pub in_domain_outcome :
      (domain : ℤ) (code : ℕ) (body : ℕ → Option ℕ → Mem → Result) (m : Mem)
      → code ≢ 0
      → ((code : ℕ) → code ≢ 0 → q (failed code m))
      → ((d dev : ℕ) (p : Process)
          → effective_domain m.proc domain ≡ some d
          → q (body d (some dev) (record m { proc = p })))
      → q (in_domain domain code body m)
  unfolding in_domain
  in_domain_outcome domain code body m ne hf hb =
      elim (Option-cases (effective_domain m.proc domain)) [
        | inl n ↦ rw (in_domain, n) (hf code ne)
        | inr (d, e) ↦
            rw (in_domain, e) (in_session_outcome d (body d) m hf (λ dev p. hb d dev p e))
      ]
