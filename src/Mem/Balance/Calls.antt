-- ===== src/Mem/Balance/Calls.antt =====
-- The calls of src/fastrpc_mem.c on static mappings give back the session references that they take.
use fastrpc.Common.{
  ℕ, ◌+◌, ◌*◌, ◌/◌, ◌%◌, ◌≡◌, refl, Bool, Bool-cases, Option, none, some, inl, inr, ℤ, pos, negsuc,
  ◌==◌, ltb, if◌then◌else◌, Option-cases, ◌&&◌, ◌||◌, find, update_first,
}
use fastrpc.DspQueue.State.{StaticMap, aee_ebadparm, aee_eunsupported}
use fastrpc.Ioctl.{
  Call, call, unknown, ioctl_mmap, ioctl_munmap, mem_map_type, mem_unmap_type, dsp_aee_eoffset,
}
use fastrpc.Mem.{Mem, Env, Result, failed, do_ioctl, in_domain, once}
use fastrpc.Mem.Static.{
  enotty, einval, has_fd, has_vaddrout, set_maps, set_refs, map_done, map_body, mmap_helper,
  fastrpc_mmap, mmap_internal, is_zero, is_map_flags, flags_span, unmap_done, unmap_body,
  fastrpc_munmap, munmap_internal,
}
use fastrpc.Mem.Balance.{IsBalanced, in_domain-IsBalanced, once-IsBalanced, clear_errno-IsBalanced}

-- The result has the session list of `m`.
abbrev pub Same : Mem → Result → Type 0
Same m r = r.mem.proc.hlist ≡ m.proc.hlist

pub do_ioctl-Same : (c : Env) (k : Call) (m : Mem) → Same m (do_ioctl c k m)
unfolding do_ioctl
do_ioctl-Same c (unknown code) m = refl
do_ioctl-Same c (call req) m = refl

map_done-Same :
    (m : Mem) (d fd vaddr length : ℕ) (r : Result)
    → Same m r
    → Same m (map_done d fd vaddr length r)
unfolding map_done
map_done-Same m d fd vaddr length r h = elim (Bool-cases (r.ioc_err == 0)) [
  | inl t ↦ rw t h
  | inr f ↦
      elim (Bool-cases (r.mem.errno == enotty || r.ioc_err == dsp_aee_eoffset + aee_eunsupported)) [
        | inl u ↦ rw (f, u) h
        | inr v ↦ rw (f, v) h
      ]
]

map_body-IsBalanced :
    (c : Env) (fd vaddr : ℕ) (offset : ℤ) (length flags attrs d : ℕ) (dev : Option ℕ)
    → IsBalanced 1 (map_body c fd vaddr offset length flags attrs d dev)
unfolding map_body
map_body-IsBalanced c fd vaddr offset length flags attrs d none m room = refl
map_body-IsBalanced c fd vaddr offset length flags attrs d (some dev) m room =
    elim (Option-cases (find (has_fd fd) (m.maps d))) [
      | inr (n, there) ↦ rw (map_body, there) refl
      | inl absent ↦ elim (Bool-cases (c.has_memory m.requests)) [
        | inr f ↦ rw (map_body, absent, f) refl
        | inl t ↦
            let asked =
              ioctl_mmap (some dev) mem_map_type flags attrs (pos fd) offset length vaddr in
            rw (map_body, absent, t)
              (map_done-Same m d fd vaddr length (do_ioctl c asked m) (do_ioctl-Same c asked m))
      ]
    ]

mmap_helper-IsBalanced :
    (c : Env) (domain : ℤ) (fd vaddr : ℕ) (offset : ℤ) (length flags attrs : ℕ)
    → IsBalanced 2 (λ m. mmap_helper c m domain fd vaddr offset length flags attrs)
unfolding mmap_helper
mmap_helper-IsBalanced c domain fd vaddr offset length flags attrs =
    let body = map_body c fd vaddr offset length flags attrs in
    clear_errno-IsBalanced 2 (in_domain domain aee_ebadparm body) (
      in_domain-IsBalanced 1 domain aee_ebadparm body
        (map_body-IsBalanced c fd vaddr offset length flags attrs))

checked-Same :
    (c : Env) (m : Mem) (b : Bool) (code : ℕ) (r : Result)
    → Same m r
    → Same m (once c (λ m. if b then r else failed code m) m)
checked-Same c m b code r h = elim (Bool-cases (c.init_once == 0)) [
  | inr f ↦ rw f refl
  | inl t ↦ elim (Bool-cases b) [ inl u ↦ rw (t, u) h | inr v ↦ rw (t, v) refl ]
]

refused-Same : (c : Env) (m : Mem) (code : ℕ) → Same m (once c (failed code) m)
refused-Same c m code = elim (Bool-cases (c.init_once == 0)) [
  | inr f ↦ rw f refl
  | inl t ↦ rw t refl
]

pub fastrpc_mmap-IsBalanced :
    (c : Env) (domain fd : ℤ) (vaddr : ℕ) (offset : ℤ) (length flags : ℕ)
    → IsBalanced 2 (λ m. fastrpc_mmap c m domain fd vaddr offset length flags)
unfolding fastrpc_mmap
fastrpc_mmap-IsBalanced c domain (negsuc n) vaddr offset length flags m room =
    refused-Same c m aee_ebadparm
fastrpc_mmap-IsBalanced c domain (pos fd) vaddr offset length flags m room =
    let cut = flags / flags_span * flags_span in
    checked-Same c m (is_zero offset && is_map_flags flags) aee_ebadparm
      (mmap_helper c m domain fd vaddr offset length (flags % flags_span) cut)
      (mmap_helper-IsBalanced c domain fd vaddr offset length (flags % flags_span) cut m room)

pub mmap_internal-IsBalanced :
    (c : Env) (domain fd : ℤ) (vaddr : ℕ) (offset : ℤ) (length flags : ℕ)
    → IsBalanced 2 (λ m. mmap_internal c m domain fd vaddr offset length flags)
unfolding mmap_internal
mmap_internal-IsBalanced c domain (negsuc n) vaddr offset length flags m room =
    refused-Same c m aee_ebadparm
mmap_internal-IsBalanced c domain (pos fd) vaddr offset length flags m room =
    let cut = flags / flags_span * flags_span in
    checked-Same c m (is_zero offset && flags / flags_span == 0) aee_ebadparm
      (mmap_helper c m domain fd vaddr offset length (flags % flags_span) cut)
      (mmap_helper-IsBalanced c domain fd vaddr offset length (flags % flags_span) cut m room)

unmap_done-Same :
    (m : Mem) (test : StaticMap → Bool) (d : ℕ) (r : Result)
    → Same m r
    → Same m (unmap_done test d r)
unfolding unmap_done
unmap_done-Same m test d r h = elim (Bool-cases (r.ioc_err == 0)) [
  | inl t ↦ rw t h
  | inr f ↦ elim (Bool-cases (r.mem.errno == enotty || r.mem.errno == einval)) [
    | inl u ↦ rw (f, u) h
    | inr v ↦ rw (f, v) h
  ]
]

unmap_body-IsBalanced :
    (c : Env) (test : StaticMap → Bool) (d : ℕ) (dev : Option ℕ)
    → IsBalanced 1 (unmap_body c test d dev)
unfolding unmap_body
unmap_body-IsBalanced c test d dev m room = elim (Option-cases (find test (m.maps d))) [
  | inl absent ↦ rw (unmap_body, absent) refl
  | inr (n, there) ↦ elim (Bool-cases (ltb 1 n.refs)) [
    | inl many ↦ rw (unmap_body, there, many) refl
    | inr few ↦
        let asked = ioctl_munmap dev mem_unmap_type (pos n.fd) n.length n.vaddrout in
        let m' = set_maps d (update_first test (set_refs 0) (m.maps d)) m in
        rw (unmap_body, there, few)
          (unmap_done-Same m test d (do_ioctl c asked m') (do_ioctl-Same c asked m'))
  ]
]

unmapping-IsBalanced :
    (c : Env) (domain : ℤ) (test : StaticMap → Bool)
    → IsBalanced 2 (once c (in_domain domain aee_ebadparm (unmap_body c test)))
unmapping-IsBalanced c domain test =
    once-IsBalanced 2 c (in_domain domain aee_ebadparm (unmap_body c test)) (
      in_domain-IsBalanced 1 domain aee_ebadparm (unmap_body c test) (unmap_body-IsBalanced c test))

pub fastrpc_munmap-IsBalanced :
    (c : Env) (domain fd : ℤ) → IsBalanced 2 (λ m. fastrpc_munmap c m domain fd)
unfolding fastrpc_munmap
fastrpc_munmap-IsBalanced c domain (negsuc n) =
    clear_errno-IsBalanced 2 (once c (failed aee_ebadparm))
      (once-IsBalanced 2 c (failed aee_ebadparm) (λ m room. refl))
fastrpc_munmap-IsBalanced c domain (pos fd) =
    clear_errno-IsBalanced 2 (once c (in_domain domain aee_ebadparm (unmap_body c (has_fd fd))))
      (unmapping-IsBalanced c domain (has_fd fd))

pub munmap_internal-IsBalanced :
    (c : Env) (domain : ℤ) (raddr : ℕ) → IsBalanced 2 (λ m. munmap_internal c m domain raddr)
unfolding munmap_internal
munmap_internal-IsBalanced c domain raddr =
    clear_errno-IsBalanced 2
      (once c (in_domain domain aee_ebadparm (unmap_body c (has_vaddrout raddr))))
      (unmapping-IsBalanced c domain (has_vaddrout raddr))
