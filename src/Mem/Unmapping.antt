-- ===== src/Mem/Unmapping.antt =====
-- What `fastrpc_unmap_fd` of src/fastrpc_mem.c does to the sessions and asks of the driver.
use fastrpc.Common.{
  ℕ, zero, suc, ◌+◌, ◌%◌, ◌<◌, ◌≤◌, ◌≡◌, ◌≢◌, refl, sym, ap, ◌∙◌, subst, false, Bool-cases, none,
  some, inl, inr, List, [], ◌∷◌, ◌++◌, ◌==◌, ℤ, u32_mod, put_at, put_at_there, put_at_elsewhere,
  arith,
}
use fastrpc.Session.{Session, Process, session_get, session_put, session_dev, put_ref}
use fastrpc.Ioctl.{Request, mem_unmap, int_len, ioctl_munmap, munmap_fd}
use fastrpc.Mem.{Mem, Env, do_ioctl}
use fastrpc.Mem.Registry.{for_domains, unmap_fd_one, unmap_fd}
use fastrpc.Mem.Balance.{taken, get_some, get_refused, put_some}
use fastrpc.Mem.Willing.{get_ok}
use fastrpc.Mem.Invariant.Buffers.{for_domains_keeps}
use fastrpc.DspQueue.Refs.{num_domains_extend}

-- No request of the list is for a device.
abbrev pub NoDevice : List Request → Type 0
NoDevice [] = Unit {0}
NoDevice (r ∷ rs) = (r.dev ≡ none) × NoDevice rs

no_device_dev : (d : ℕ) (p : Process) → (session_dev d p).0 ≢ 0 → (session_dev d p).1 ≡ none
unfolding session_dev
no_device_dev d p h = ground arith

-- The requests of `rs` are new, and none of them is for a device.
abbrev pub AsksNone : List Request → List Request → Type 0
AsksNone old new = (rs : List Request) × (new ≡ rs ++ old) × NoDevice rs

asks_one :
    (c : Env) (size : ℕ) (fd : ℤ) (old : List Request) (m : Mem)
    → AsksNone old m.requests
    → AsksNone old (do_ioctl c (ioctl_munmap none munmap_fd fd size 0) m).mem.requests
unfolding do_ioctl ioctl_munmap
asks_one c size fd old m (rs, e, h) =
    let req : Request = record {
      dev = none;
      args = mem_unmap (record { fd = fd; vaddr = 0; length = int_len size });
    } in
    (req ∷ rs, ap (λ x. req ∷ x) e, (refl, h))

unmap_fd_one-AsksNone :
    (c : Env) (size : ℕ) (fd : ℤ) (old : List Request) (d : ℕ) (m : Mem)
    → AsksNone old m.requests
    → AsksNone old (unmap_fd_one c size fd d m).requests
unfolding unmap_fd_one
unmap_fd_one-AsksNone c size fd old d m h =
    let got = session_get d m.proc in
    let dev = session_dev d got.1 in
    elim (Bool-cases (got.0 == 0)) [
      | inl t ↦ rw (unmap_fd_one, t) h
      | inr f ↦ elim (Bool-cases (dev.0 == 0)) [
        | inl u ↦ rw (unmap_fd_one, f, u) h
        | inr v ↦
            let e = no_device_dev d got.1 (ground arith) in
            rw (unmap_fd_one, f, v, e) (asks_one c size fd old m h)
      ]
    ]

-- A session with one reference more.
abbrev pub more_refs : Session → ℕ
more_refs s = (s.refs + 1) % u32_mod

-- What a round does to the sessions: only that of its domain changes, and a session that is open gets
-- one reference more.
Round : ℕ → (ℕ → Session) → Process → Type 0
Round d list p =
    (list' : ℕ → Session) × (p.hlist ≡ some list')
    × (((j : ℕ) → j ≢ d → list' j ≡ list j)
        × ((list d).is_deinit ≡ false → (list' d).refs ≡ more_refs (list d)))

session_get-Round :
    (d : ℕ) (p : Process) (list : ℕ → Session)
    → p.hlist ≡ some list
    → (session_get d p).0 ≡ 0
    → Round d list (session_get d p).1
unfolding Round
session_get-Round d p list e t =
    let s' = record (list d) { refs = more_refs (list d) } in
    (
      taken d list,
      get_some d p list e t,
      ((λ j ne. put_at_elsewhere list d s' j ne), (λ a. ap (λ s. s.refs) (put_at_there list d s'))),
    )

session_put-Round :
    (d : ℕ) (p : Process) (list : ℕ → Session)
    → p.hlist ≡ some list
    → (session_get d p).0 ≢ 0
    → Round d list (session_put d (session_get d p).1)
unfolding Round
session_put-Round d p list e f =
    let refused : (session_put d (session_get d p).1).hlist ≡ (session_put d p).hlist =
      ap (λ q. (session_put d q).hlist) (get_refused d p f) in
    (
      put_at list d (put_ref (list d)),
      refused ∙ put_some d p list e,
      (
        (λ j ne. put_at_elsewhere list d (put_ref (list d)) j ne),
        (λ a. absurd (f (get_ok d p list e a))),
      ),
    )

unmap_fd_one-Round :
    (c : Env) (size : ℕ) (fd : ℤ) (d : ℕ) (m : Mem) (list : ℕ → Session)
    → m.proc.hlist ≡ some list
    → Round d list (unmap_fd_one c size fd d m).proc
unfolding unmap_fd_one
unmap_fd_one-Round c size fd d m list e =
    let got = session_get d m.proc in
    let dev = session_dev d got.1 in
    elim (Bool-cases (got.0 == 0)) [
      | inl t ↦ rw (unmap_fd_one, t) (session_get-Round d m.proc list e (ground arith))
      | inr f ↦ elim (Bool-cases (dev.0 == 0)) [
        | inl u ↦ rw (unmap_fd_one, f, u) (session_put-Round d m.proc list e (ground arith))
        | inr v ↦ rw (unmap_fd_one, f, v) (session_put-Round d m.proc list e (ground arith))
      ]
    ]

-- What the rounds of the `n` domains from `d` on do.
Rounds : ℕ → ℕ → (ℕ → Session) → Process → Type 0
Rounds d n list p =
    (list' : ℕ → Session) × (p.hlist ≡ some list')
    × (((j : ℕ) → j < d → list' j ≡ list j)
        × ((j : ℕ)
            → d ≤ j
            → j < d + n
            → (list j).is_deinit ≡ false
            → (list' j).refs ≡ more_refs (list j)))

rounds :
    (c : Env) (size : ℕ) (fd : ℤ) (d n : ℕ) (m : Mem) (list : ℕ → Session)
    → m.proc.hlist ≡ some list
    → Rounds d n list (for_domains (unmap_fd_one c size fd) d n m).proc
unfolding for_domains Rounds Round
rounds c size fd d zero m list e = (list, e, ((λ j lt. refl), (λ j le lt a. absurd (omega arith))))
rounds c size fd d (suc n) m list e =
    let first = unmap_fd_one-Round c size fd d m list e in
    let later = rounds c size fd (suc d) n (unmap_fd_one c size fd d m) first.0 first.1 in
    let kept = first.2.0 in
    let before = later.2.0 in
    (
      later.0,
      later.1,
      (
        (λ j lt. before j (omega arith) ∙ kept j (λ e. omega arith)),
        (λ j le lt a. elim (Bool-cases (j == d)) [
          | inl t ↦
              let same : j ≡ d = ground arith in
              ap (λ s. s.refs) (before j (omega arith))
              ∙ subst (λ i. (first.0 i).refs ≡ more_refs (list i)) (sym same)
                  (first.2.1 (subst (λ i. (list i).is_deinit ≡ false) same a))
          | inr f ↦
              let ne : j ≢ d = ground arith in
              let same = kept j ne in
              later.2.1 j (ground arith) (omega arith) (ap (λ s. s.is_deinit) same ∙ a)
              ∙ ap more_refs same
        ]),
      ),
    )

-- The tests of `fastrpc_unmap_fd` are the wrong way round. On any list of sessions: none of the requests
-- that it makes is for a device, and every session of the 32 domains that is open is left with one
-- reference more.
pub unmap_fd-AsksNone :
    (c : Env) (size : ℕ) (fd : ℤ) (m : Mem) (list : ℕ → Session)
    → m.proc.hlist ≡ some list
    → let m' = unmap_fd c size fd m in
      AsksNone m.requests m'.requests
      × ((list' : ℕ → Session) × (m'.proc.hlist ≡ some list')
          × ((d : ℕ)
              → d < 32
              → (list d).is_deinit ≡ false
              → (list' d).refs ≡ ((list d).refs + 1) % u32_mod))
unfolding unmap_fd Rounds
unmap_fd-AsksNone c size fd m list e =
    let all = rounds c size fd 0 num_domains_extend m list e in
    (
      for_domains_keeps (λ x. AsksNone m.requests x.requests) (unmap_fd_one c size fd) 0
          num_domains_extend m (unmap_fd_one-AsksNone c size fd m.requests) ([], refl, tt),
      (all.0, all.1, (λ d lt a. all.2.1 d (omega arith) (omega arith) a)),
    )
