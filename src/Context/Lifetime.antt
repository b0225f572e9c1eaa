-- ===== src/Context/Lifetime.antt =====
-- A context from its creation to its end.
use fastrpc.Common.{
  ℕ, ◌≡◌, ◌≢◌, ◌⊎◌, inl, inr, refl, sym, ap, subst, ◌∙◌, ◌&&◌, Bool, true, false, none, some, List,
  [], ◌∷◌, map, arith, ltb, ◌==◌, if◌then◌else◌, Option-cases, length,
}
use fastrpc.DspQueue.State.{ret, abort, aee_ebadparm}
use fastrpc.Context.Sessions.{Opened, Undone, open_sessions-Opened, close_sessions-Undone}
use fastrpc.Context.{
  aee_ebadcontext, aee_einvaliddevice, aee_enotinitialized, Context, Table, Calls, Result, failed,
  domain_of, first_or_zero, init_domains, open_sessions, close_sessions, add_to_table, set_up,
  create_context, find_context, delete_context, tear_down, destroy_context, get_domains,
}

-- What a creation comes to on a table that holds `cs`: the table is initialised, and the context is the
-- newest of the table, with exactly these domains and a session for each, and nothing was closed; or the
-- code is an error, the table is as it was, no context is handed out, and the sessions that were opened
-- are closed again; `reached` says whether the call came to opening sessions.
abbrev pub Created : Calls → Table → List Context → List ℕ → Bool → Result ℕ → Type 0
Created c t cs ids reached (ret code (t', closed, got)) =
    ((code ≡ 0)
      × (closed ≡ [])
      × (t.is_init ≡ true)
      × (init_domains ids ≡ 0)
      × Opened c ids (open_sessions c ids).1
      × ((id : ℕ) × (got ≡ some id)
          × (t' ≡ record t {
            contexts = some (
                record {
                  ctxid = id;
                  effec_domain_ids = ids;
                  domains = map domain_of ids;
                  devs = (open_sessions c ids).1;
                }
                ∷ cs);
          })))
    ⊎ ((code ≢ 0)
        × (t' ≡ t)
        × (got ≡ none)
        × (if reached then Undone c ids closed else closed ≡ []))
Created c t cs ids reached abort = ⊥

-- The checks before the first session: the table is initialised, there are no flags, there are between
-- 1 and 31 domains, there is memory, and the domains are accepted.
abbrev pub reaches : Calls → Table → List ℕ → ℕ → Bool
reaches c t ids flags =
    t.is_init
    && ((flags == 0 && (ltb 0 (length ids) && ltb (length ids) 32))
        && (c.has_memory && init_domains ids == 0))

if-Created :
    (c : Calls) (t : Table) (cs : List Context) (ids : List ℕ) (reached b : Bool) (x y : Result ℕ)
    → (b ≡ true → Created c t cs ids reached x)
    → (b ≡ false → Created c t cs ids reached y)
    → Created c t cs ids reached (if b then x else y)
if-Created c t cs ids reached true x y hx hy = hx refl
if-Created c t cs ids reached false x y hx hy = hy refl

module _ (c : Calls) (t : Table) (cs : List Context) (ids : List ℕ) where
  -- Once a session is open for every domain.
  set_up-Created :
      t.contexts ≡ some cs
      → t.is_init ≡ true
      → init_domains ids ≡ 0
      → (open_sessions c ids).0 ≡ 0
      → Created c t cs ids true (set_up c t ids (open_sessions c ids).1)
  unfolding set_up add_to_table
  set_up-Created e on accepted opens = elim (Option-cases (c.device_fd (first_or_zero ids))) [
    | inl n ↦
        let none_there : set_up c t ids (open_sessions c ids).1
            ≡ failed aee_einvaliddevice t (close_sessions ids (open_sessions c ids).1) =
          rw (set_up, n) refl in
        subst (Created c t cs ids true) (sym none_there)
          (inr (omega arith, refl, refl, close_sessions-Undone c ids))
    | inr (dev, s) ↦
        let made = c.mdctx_setup dev (map domain_of ids) in
        let ctx : Context = record {
          ctxid = made.1;
          effec_domain_ids = ids;
          domains = map domain_of ids;
          devs = (open_sessions c ids).1;
        } in
        let there : set_up c t ids (open_sessions c ids).1 ≡ (
            if made.0 == 0
            then add_to_table t ctx
            else failed (made.0) t (close_sessions ids (open_sessions c ids).1)) =
          rw (set_up, s) refl in
        let added : add_to_table t ctx
            ≡ ret 0 (record t { contexts = some (ctx ∷ cs) }, [], some made.1) =
          rw (add_to_table, e) refl in
        subst (Created c t cs ids true) (sym there) (
          if-Created c t cs ids true (made.0 == 0) (add_to_table t ctx)
            (failed (made.0) t (close_sessions ids (open_sessions c ids).1))
            (λ done. subst (Created c t cs ids true) (sym added) (
              inl
                (refl, refl, on, accepted, open_sessions-Opened c ids opens, (made.1, refl, refl))))
            (λ refused. inr (ground arith, refl, refl, close_sessions-Undone c ids)))
  ]

  -- A refusal before any session is open.
  refused-Created : (code : ℕ) → code ≢ 0 → Created c t cs ids false (failed code t [])
  refused-Created code ne = inr (ne, refl, refl, refl)

-- `fastrpc_create_context` with a list of domains, on a table of contexts: either the context is added
-- to the table as its newest, with these domains, which are accepted, and for each the device that its
-- session was opened with, nothing is closed and its id is handed out; or the code is an error, the
-- table is as it was, and if the checks before the first session passed, exactly the sessions that left
-- a device up to the first that could not be opened are closed, and else none.
pub create_context-Created :
    (c : Calls) (t : Table) (cs : List Context) (ids : List ℕ) (flags : ℕ)
    → t.contexts ≡ some cs
    → Created c t cs ids (reaches c t ids flags) (create_context c t (some ids) flags)
unfolding create_context
create_context-Created c t cs ids flags e =
    let undone = failed (open_sessions c ids).0 t (close_sessions ids (open_sessions c ids).1) in
    let sessions =
      if (open_sessions c ids).0 == 0 then set_up c t ids (open_sessions c ids).1 else undone in
    let checked = if init_domains ids == 0 then sessions else failed aee_ebadparm t [] in
    let made = if c.has_memory then checked else failed aee_ebadcontext t [] in
    let asked = flags == 0 && (ltb 0 (length ids) && ltb (length ids) 32) in
    let r = reaches c t ids flags in
    let as_created = λ (b : Bool) (h : b ≡ r) (x : Result ℕ) (k : Created c t cs ids b x).
      subst (λ b. Created c t cs ids b x) h k in
    let refused = λ (h : false ≡ r) (code : ℕ) (ne : code ≢ 0).
      as_created false h (failed code t []) (refused-Created c t cs ids code ne) in
    if-Created c t cs ids r t.is_init (if asked then made else failed aee_ebadparm t [])
      (failed aee_enotinitialized t [])
      (λ on.
        if-Created c t cs ids r asked made (failed aee_ebadparm t [])
          (λ well.
            if-Created c t cs ids r c.has_memory checked (failed aee_ebadcontext t [])
              (λ memory.
                if-Created c t cs ids r (init_domains ids == 0) sessions (failed aee_ebadparm t [])
                  (λ accepted. as_created true (rw (on, well, memory, accepted) refl) sessions (
                    if-Created c t cs ids true ((open_sessions c ids).0 == 0)
                      (set_up c t ids (open_sessions c ids).1) undone
                      (λ all. set_up-Created c t cs ids e on (ground arith) (ground arith))
                      (λ no. inr (ground arith, refl, refl, close_sessions-Undone c ids))))
                  (λ no. refused (rw (on, well, memory, no) refl) aee_ebadparm (omega arith)))
              (λ no. refused (rw (on, well, no) refl) aee_ebadcontext (omega arith)))
          (λ no. refused (rw (on, no) refl) aee_ebadparm (omega arith)))
      (λ no. refused (rw no refl) aee_enotinitialized (omega arith))

-- An initialised table of these contexts.
abbrev table_of : List Context → Table
table_of cs = record { is_init = true; contexts = some cs }

-- The newest context of a table is found by its id.
newest_found :
    (ctx : Context) (cs : List Context)
    → get_domains (table_of (ctx ∷ cs)) ctx.ctxid
      ≡ ret 0 (table_of (ctx ∷ cs), [], some ctx.effec_domain_ids)
unfolding get_domains find_context
newest_found ctx cs =
    let same : (ctx.ctxid == ctx.ctxid) ≡ true = ground arith in
    rw (get_domains, find_context, same) refl

newest_deleted : (ctx : Context) (cs : List Context) → delete_context ctx.ctxid (ctx ∷ cs) ≡ cs
unfolding delete_context
newest_deleted ctx cs = let same : (ctx.ctxid == ctx.ctxid) ≡ true = ground arith in rw same refl

-- It is destroyed, and its sessions are closed.
newest_destroyed :
    (c : Calls) (ctx : Context) (cs : List Context) (dev : ℕ)
    → c.device_fd (first_or_zero ctx.effec_domain_ids) ≡ some dev
    → c.mdctx_remove dev ctx.ctxid ≡ 0
    → destroy_context c (table_of (ctx ∷ cs)) ctx.ctxid
      ≡ ret 0 (table_of cs, close_sessions ctx.effec_domain_ids ctx.devs, none)
unfolding destroy_context find_context tear_down
newest_destroyed c ctx cs dev fd gone =
    let same : (ctx.ctxid == ctx.ctxid) ≡ true = ground arith in
    rw (destroy_context, find_context, same, tear_down, fd, gone)
      (ap
        (λ x. ret 0 (
          record { is_init = true; contexts = some x },
          close_sessions ctx.effec_domain_ids ctx.devs,
          none,
        ))
        (newest_deleted ctx cs))

-- A context that was created is found by its id, with the domains it was created on; when it is
-- destroyed, with a device and a driver that answer, the table is as it was before the creation, and
-- every session that was opened for it with a device other than zero is closed; the creation itself
-- had closed none.
pub destroy_after_create :
    (c : Calls) (t t' : Table) (cs : List Context) (ids closed : List ℕ) (flags id dev : ℕ)
    → t.contexts ≡ some cs
    → create_context c t (some ids) flags ≡ ret 0 (t', closed, some id)
    → c.device_fd (first_or_zero ids) ≡ some dev
    → c.mdctx_remove dev id ≡ 0
    → (get_domains t' id ≡ ret 0 (t', [], some ids))
      × ((all : List ℕ) × (destroy_context c t' id ≡ ret 0 (t, all, none))
          × Undone c ids all
          × (closed ≡ []))
destroy_after_create c t t' cs ids closed flags id dev e made fd gone =
    elim (subst (Created c t cs ids (reaches c t ids flags)) made
      (create_context-Created c t cs ids flags e)) [
        | inl (z, none_closed, on, accepted, opens, (id', same, after)) ↦
            let ctx : Context = record {
              ctxid = id;
              effec_domain_ids = ids;
              domains = map domain_of ids;
              devs = (open_sessions c ids).1;
            } in
            let equal : id' ≡ id = ground arith in
            let holds : table_of (ctx ∷ cs) ≡ t' =
              (λ k. record {
                is_init = sym on k;
                contexts = some (
                    record {
                      ctxid = sym equal k;
                      effec_domain_ids = ids;
                      domains = map domain_of ids;
                      devs = (open_sessions c ids).1;
                    }
                    ∷ cs);
              })
              ∙ sym after in
            let before : table_of cs ≡ t = λ k. record { is_init = sym on k; contexts = sym e k } in
            (
              subst (λ x. get_domains x id ≡ ret 0 (x, [], some ids)) holds (newest_found ctx cs),
              (
                close_sessions ids (open_sessions c ids).1,
                subst
                    (λ x.
                      destroy_context c x id
                      ≡ ret 0 (t, close_sessions ids (open_sessions c ids).1, none))
                    holds
                    (newest_destroyed c ctx cs dev fd gone
                      ∙ ap (λ x. ret 0 (x, close_sessions ids (open_sessions c ids).1, none))
                          before),
                close_sessions-Undone c ids,
                none_closed,
              ),
            )
        | inr u ↦ absurd (u.0 refl)
      ]
