-- ===== src/Mem/Willing.antt =====
-- Calls of src/fastrpc_mem.c that succeed: an open session and a driver that accepts them.
use fastrpc.Common.{
  ℕ, ◌+◌, ◌*◌, ◌/◌, ◌%◌, ◌<◌, ◌≤◌, ◌≡◌, refl, ap, ◌∙◌, subst, Bool, true, false, Bool-cases, Option,
  none, some, inl, inr, ℤ, pos, ◌==◌, ltb, if◌then◌else◌, not, ◌&&◌, List, [], ◌∷◌, ◌++◌, find,
  remove_first, update_first, put_at, put_at_there, arith, u32_mod, lt→ltb,
}
use fastrpc.DspQueue.State.{StaticMap, aee_ebadparm}
use fastrpc.Session.{Session, Process, session_get, session_dev, effective_domain}
use fastrpc.Ioctl.{Request, ioctl_mmap, ioctl_munmap, mem_map_type, mem_unmap_type}
use fastrpc.Mem.{
  Mem, Env, Result, failed, do_ioctl, in_session, in_domain, put_session, clear_errno, once,
}
use fastrpc.Mem.Balance.{get_some, taken}
use fastrpc.Mem.Static.{
  has_fd, set_maps, set_refs, new_map, map_done, map_body, mmap_helper, fastrpc_mmap, is_map_flags,
  flags_span, unmap_done, unmap_body, fastrpc_munmap,
}
use fastrpc.Mem.Mapping.{MapsOne}
use fastrpc.Mem.Mapping.Removal.{UnmapsOne}

-- The environment lets a call succeed: initialisation is done, there is memory, and the driver returns 0.
pub record IsWilling (c : Env) : Type 0 where
  pub initialised : c.init_once ≡ 0
  pub memory : (log : List Request) → c.has_memory log ≡ true
  pub accepts : (log : List Request) (req : Request) → (c.ioctl log req).code ≡ 0

-- The domain is valid and has a session with a device.
pub record IsOpen (d : ℕ) (hlist : Option (ℕ → Session)) : Type 0 where
  pub list : ℕ → Session
  pub dev : ℕ
  pub valid : d < 32
  pub there : hlist ≡ some list
  pub active : (list d).is_deinit ≡ false
  pub device : (list d).dev ≡ some dev

pub get_ok :
    (d : ℕ) (p : Process) (list : ℕ → Session)
    → p.hlist ≡ some list
    → (list d).is_deinit ≡ false
    → (session_get d p).0 ≡ 0
unfolding session_get
get_ok d p list e a = ground arith

dev_ok :
    (d : ℕ) (p : Process) (list : ℕ → Session) (dev : ℕ)
    → d < 32
    → p.hlist ≡ some list
    → (list d).is_deinit ≡ false
    → (list d).dev ≡ some dev
    → session_dev d p ≡ (0, some dev)
unfolding session_dev
dev_ok d p list dev v e a h = let t = lt→ltb d 32 v in rw (session_dev, t, e, a, h) refl

in_session_open :
    (d : ℕ) (body : Option ℕ → Mem → Result) (m : Mem) (o : IsOpen d m.proc.hlist)
    → in_session d body m
      ≡ put_session d (body (some o.dev) (record m { proc = (session_get d m.proc).1 }))
unfolding in_session
in_session_open d body m o =
    let t = get_ok d m.proc o.list o.there o.active in
    let there =
      put_at_there o.list d (record (o.list d) { refs = ((o.list d).refs + 1) % u32_mod }) in
    let s =
      dev_ok d (session_get d m.proc).1 (taken d o.list) o.dev o.valid
        (get_some d m.proc o.list o.there t) (ap (λ s. s.is_deinit) there ∙ o.active)
        (ap (λ s. s.dev) there ∙ o.device) in
    rw (in_session, t, s) refl

clear_errno-code : (r : Result) → (clear_errno r).code ≡ r.code
clear_errno-code r = elim (Bool-cases (not (r.code == 0) && r.ioc_err == 0)) [
  | inl t ↦ rw t refl
  | inr f ↦ rw f refl
]

in_domain_open :
    (d : ℕ) (domain : ℤ) (code : ℕ) (body : ℕ → Option ℕ → Mem → Result) (m : Mem)
    → (o : IsOpen d m.proc.hlist) → effective_domain m.proc domain ≡ some d
    → (in_domain domain code body m).code
      ≡ (body d (some o.dev) (record m { proc = (session_get d m.proc).1 })).code
unfolding in_domain
in_domain_open d domain code body m o e =
    rw (in_domain, e) (ap (λ r. r.code) (in_session_open d (body d) m o))

map_done_ok :
    (d fd vaddr length : ℕ) (r : Result) → r.ioc_err ≡ 0 → (map_done d fd vaddr length r).code ≡ 0
unfolding map_done
map_done_ok d fd vaddr length r h = let t : (r.ioc_err == 0) ≡ true = ground arith in rw t refl

unmap_done_ok :
    (test : StaticMap → Bool) (d : ℕ) (r : Result) → r.ioc_err ≡ 0 → (unmap_done test d r).code ≡ 0
unfolding unmap_done
unmap_done_ok test d r h = let t : (r.ioc_err == 0) ≡ true = ground arith in rw t refl

module _ (c : Env) (w : IsWilling c) (m : Mem) (d : ℕ) (o : IsOpen d m.proc.hlist) (fd : ℕ) where
  map_body_ok :
      (vaddr : ℕ) (offset : ℤ) (length flags attrs dev : ℕ) (p : Process)
      → find (has_fd fd) (m.maps d) ≡ none
      → (map_body c fd vaddr offset length flags attrs d (some dev) (record m { proc = p })).code
        ≡ 0
  unfolding map_body do_ioctl ioctl_mmap
  map_body_ok vaddr offset length flags attrs dev p absent =
      let room = w.memory m.requests in
      let yes = w.accepts m.requests in
      let asked =
        do_ioctl c (ioctl_mmap (some dev) mem_map_type flags attrs (pos fd) offset length vaddr)
          (record m { proc = p }) in
      rw (map_body, absent, room) (map_done_ok d fd vaddr length asked (yes _))

  unmap_body_ok :
      (n : StaticMap) (dev : Option ℕ) (p : Process)
      → find (has_fd fd) (m.maps d) ≡ some n
      → n.refs ≤ 1
      → (unmap_body c (has_fd fd) d dev (record m { proc = p })).code ≡ 0
  unfolding unmap_body do_ioctl ioctl_munmap
  unmap_body_ok n dev p there few =
      let yes = w.accepts m.requests in
      let asked =
        do_ioctl c (ioctl_munmap dev mem_unmap_type (pos n.fd) n.length n.vaddrout)
          (set_maps d (update_first (has_fd fd) (set_refs 0) (m.maps d)) (record m { proc = p })) in
      let f : ltb 1 n.refs ≡ false = ground arith in
      rw (unmap_body, there, f) (unmap_done_ok (has_fd fd) d asked (yes _))

  once_ok : (body : Mem → Result) → once c body m ≡ body m
  once_ok body = let t = w.initialised in rw t refl

  -- With a willing environment and an open session, a mapping of a new file descriptor succeeds.
  pub fastrpc_mmap_ok :
      (domain : ℤ) (vaddr length flags : ℕ)
      → effective_domain m.proc domain ≡ some d
      → find (has_fd fd) (m.maps d) ≡ none
      → is_map_flags flags ≡ true
      → (fastrpc_mmap c m domain (pos fd) vaddr (pos 0) length flags).code ≡ 0
  unfolding fastrpc_mmap mmap_helper
  fastrpc_mmap_ok domain vaddr length flags e absent f =
      let body =
        map_body c fd vaddr (pos 0) length (flags % flags_span) (flags / flags_span * flags_span) in
      let r = clear_errno (in_domain domain aee_ebadparm body m) in
      let taken_branch : (if is_map_flags flags then r else failed aee_ebadparm m) ≡ r =
        rw f refl in
      ap (λ r. r.code)
        (once_ok (λ m. if is_map_flags flags then r else failed aee_ebadparm m) ∙ taken_branch)
      ∙ clear_errno-code (in_domain domain aee_ebadparm body m)
      ∙ in_domain_open d domain aee_ebadparm body m o e
      ∙ map_body_ok vaddr (pos 0) length (flags % flags_span) (flags / flags_span * flags_span)
          o.dev (session_get d m.proc).1 absent

  -- And so does the removal of a mapping without outstanding references.
  pub fastrpc_munmap_ok :
      (domain : ℤ) (n : StaticMap)
      → effective_domain m.proc domain ≡ some d
      → find (has_fd fd) (m.maps d) ≡ some n
      → n.refs ≤ 1
      → (fastrpc_munmap c m domain (pos fd)).code ≡ 0
  unfolding fastrpc_munmap
  fastrpc_munmap_ok domain n e there few =
      let body = unmap_body c (has_fd fd) in
      clear_errno-code (once c (in_domain domain aee_ebadparm body) m)
      ∙ ap (λ r. r.code) (once_ok (in_domain domain aee_ebadparm body))
      ∙ in_domain_open d domain aee_ebadparm body m o e
      ∙ unmap_body_ok n (some o.dev) (session_get d m.proc).1 there few

pub domain_ok : (p : Process) (d : ℕ) → d < 32 → effective_domain p (pos d) ≡ some d
unfolding effective_domain
domain_ok p d h = let t = lt→ltb d 32 h in rw t refl

pub only_domain : (p : Process) (d d' : ℕ) → effective_domain p (pos d) ≡ some d' → d' ≡ d
unfolding effective_domain
only_domain p d d' h = ground arith

-- The lists after a successful mapping, on a valid domain.
pub mapped_lists :
    (c : Env) (m : Mem) (d fd vaddr length : ℕ) (r : Result)
    → d < 32
    → MapsOne c m (pos d) fd vaddr length r
    → r.code ≡ 0
    → (find (has_fd fd) (m.maps d) ≡ none)
      × (r.mem.maps ≡ put_at m.maps d (m.maps d ++ new_map fd vaddr length r.out ∷ []))
mapped_lists c m d fd vaddr length r v (same, inr (ne, kept)) ok = absurd (ne ok)
mapped_lists c m d fd vaddr length r v (same, inl (z, (d', e, absent, sent, added))) ok =
    let same_domain : d' ≡ d = only_domain m.proc d d' e in
    (
      subst (λ x. find (has_fd fd) (m.maps x) ≡ none) same_domain absent,
      subst (λ x. r.mem.maps ≡ put_at m.maps x (m.maps x ++ new_map fd vaddr length r.out ∷ []))
          same_domain added,
    )

pub unmapped_lists :
    (m : Mem) (d fd : ℕ) (r : Result)
    → d < 32
    → UnmapsOne (has_fd fd) m (pos d) r
    → r.code ≡ 0
    → r.mem.maps ≡ put_at m.maps d (remove_first (has_fd fd) (m.maps d))
unmapped_lists m d fd r v (same, inr (ne, kept)) ok = absurd (ne ok)
unmapped_lists m d fd r v (same, inl (z, (d', e, there, sent, gone))) ok =
    let same_domain : d' ≡ d = only_domain m.proc d d' e in
    subst (λ x. r.mem.maps ≡ put_at m.maps x (remove_first (has_fd fd) (m.maps x))) same_domain gone
