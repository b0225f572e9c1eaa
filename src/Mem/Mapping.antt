-- ===== src/Mem/Mapping.antt =====
-- What mapping a file descriptor does to the mapping list of its domain.
pub mod Removal
use fastrpc.Common.{
  ℕ, ◌+◌, ◌/◌, ◌*◌, ◌||◌, ◌%◌, ◌≤◌, ◌≡◌, ◌≢◌, refl, sym, ap, ◌∙◌, Bool, Bool-cases, none, some, inl,
  inr, arith, ℤ, pos, ◌==◌, ltb, if◌then◌else◌, Option-cases, subst, ◌&&◌, ◌⊎◌, [], ◌∷◌, ◌++◌,
  put_at_twice, remove-update, update_twice, find, remove_first, update_first, put_at, put_at_there,
}
use fastrpc.DspQueue.State.{StaticMap, aee_ebadparm, aee_eunsupported}
use fastrpc.Session.{Process, effective_domain}
use fastrpc.Ioctl.{
  Request, ioctl_mmap, ioctl_munmap, mem_map_type, mem_unmap_type, aee_enomemory, dsp_aee_eoffset,
}
use fastrpc.Mem.{Mem, Env, Result, failed, do_ioctl, in_domain}
use fastrpc.Mem.Outcomes.{
  IsFree, checked_outcome, if_outcome, clear_errno_outcome, once_outcome, in_domain_outcome,
}
use fastrpc.Mem.Static.{
  enotty, einval, has_fd, has_vaddrout, set_maps, new_map, map_done, map_body, mmap_helper,
  flags_span, is_map_flags, is_zero, fastrpc_mmap, mmap_internal, set_refs, unmap_done, unmap_body,
  fastrpc_munmap, munmap_internal,
}

-- The lists that no call of the static mappings changes are as before.
abbrev pub SameLists : Mem → Mem → Type 0
SameLists m m' = (m'.memlist ≡ m.memlist) × (m'.fdlist ≡ m.fdlist)

-- What a mapping call for `fd` comes to: the domain is valid and had no mapping of `fd`, the driver was
-- called once and answered with zero, and the mapping with the address of that answer is appended to the domain's list; or the
-- code is an error and no list is changed.
abbrev pub MapsOne : Env → Mem → ℤ → ℕ → ℕ → ℕ → Result → Type 0
MapsOne c m domain fd vaddr length r =
    SameLists m r.mem
    × (((r.code ≡ 0)
          × ((d : ℕ) × (effective_domain m.proc domain ≡ some d)
              × (find (has_fd fd) (m.maps d) ≡ none)
              × ((req : Request) × (r.mem.requests ≡ req ∷ m.requests)
                  × ((c.ioctl m.requests req).code ≡ 0)
                  × (r.out ≡ (c.ioctl m.requests req).vaddrout))
              × (r.mem.maps ≡ put_at m.maps d (m.maps d ++ new_map fd vaddr length r.out ∷ []))))
        ⊎ ((r.code ≢ 0) × (r.mem.maps ≡ m.maps)))

module _ (c : Env) (m : Mem) (domain : ℤ) (fd vaddr length : ℕ) where
  MapsOne-IsFree : IsFree (MapsOne c m domain fd vaddr length)
  MapsOne-IsFree = (λ r p h. h, λ r e h. h)

  failed-MapsOne : (code : ℕ) → code ≢ 0 → MapsOne c m domain fd vaddr length (failed code m)
  failed-MapsOne code ne = ((refl, refl), inr (ne, refl))

  -- The helper after the driver's answer.
  map_done-MapsOne :
      (d : ℕ) (r : Result) (req : Request)
      → SameLists m r.mem
      → r.mem.maps ≡ m.maps
      → r.mem.requests ≡ req ∷ m.requests
      → r.ioc_err ≡ (c.ioctl m.requests req).code
      → r.out ≡ (c.ioctl m.requests req).vaddrout
      → effective_domain m.proc domain ≡ some d
      → find (has_fd fd) (m.maps d) ≡ none
      → MapsOne c m domain fd vaddr length (map_done d fd vaddr length r)
  unfolding map_done
  map_done-MapsOne d r req same kept sent answer out e absent =
      let added = ap (λ ms. put_at ms d (ms d ++ new_map fd vaddr length r.out ∷ [])) kept in
      elim (Bool-cases (r.ioc_err == 0)) [
        | inl z ↦
            let fine : (c.ioctl m.requests req).code ≡ 0 = ground arith in
            rw z (same, inl (refl, (d, e, absent, (req, sent, fine, out), added)))
        | inr bad ↦ rw bad (
            if_outcome (MapsOne c m domain fd vaddr length) MapsOne-IsFree
              (r.mem.errno == enotty || r.ioc_err == dsp_aee_eoffset + aee_eunsupported) _ _
              (same, inr (omega arith, kept)) (same, inr (omega arith, kept)))
      ]

  module _ (offset : ℤ) (flags attrs : ℕ) where
    map_body-MapsOne :
        (d dev : ℕ) (p : Process)
        → effective_domain m.proc domain ≡ some d
        → MapsOne c m domain fd vaddr length
            (map_body c fd vaddr offset length flags attrs d (some dev) (record m { proc = p }))
    unfolding map_body do_ioctl ioctl_mmap
    map_body-MapsOne d dev p e = elim (Option-cases (find (has_fd fd) (m.maps d))) [
      | inr (n, there) ↦ rw (map_body, there) ((refl, refl), inr (omega arith, refl))
      | inl absent ↦
          let m' = record m { proc = p } in
          let asked =
            do_ioctl c (ioctl_mmap (some dev) mem_map_type flags attrs (pos fd) offset length vaddr)
              m' in
          let here : map_body c fd vaddr offset length flags attrs d (some dev) m' ≡ (
              if c.has_memory m.requests
              then map_done d fd vaddr length asked
              else failed aee_enomemory m') =
            rw (map_body, absent) refl in
          subst (MapsOne c m domain fd vaddr length) (sym here) (
            if_outcome (MapsOne c m domain fd vaddr length) MapsOne-IsFree (c.has_memory m.requests)
              _ _ (map_done-MapsOne d asked _ (refl, refl) refl refl refl refl e absent)
              ((refl, refl), inr (omega arith, refl)))
    ]

    mmap_helper-MapsOne :
        MapsOne c m domain fd vaddr length
          (mmap_helper c m domain fd vaddr offset length flags attrs)
    unfolding mmap_helper
    mmap_helper-MapsOne =
        clear_errno_outcome (MapsOne c m domain fd vaddr length) MapsOne-IsFree _ (
          in_domain_outcome (MapsOne c m domain fd vaddr length) MapsOne-IsFree domain aee_ebadparm
            (map_body c fd vaddr offset length flags attrs) m (omega arith) failed-MapsOne
            map_body-MapsOne)

-- For a file descriptor that is not negative: `fastrpc_mmap` either succeeds, and then its domain is
-- valid and had no mapping of the file descriptor, the driver was called once and answered with zero,
-- and one mapping, with the address of that answer and one reference, is appended to the domain's list;
-- or the code is an error and no mapping list is changed. It never changes the other lists.
pub fastrpc_mmap-MapsOne :
    (c : Env) (m : Mem) (domain : ℤ) (fd vaddr : ℕ) (offset : ℤ) (length flags : ℕ)
    → MapsOne c m domain fd vaddr length
        (fastrpc_mmap c m domain (pos fd) vaddr offset length flags)
unfolding fastrpc_mmap
fastrpc_mmap-MapsOne c m domain fd vaddr offset length flags =
    checked_outcome (MapsOne c m domain fd vaddr length) (MapsOne-IsFree c m domain fd vaddr length)
      c m (is_zero offset && is_map_flags flags) aee_ebadparm
      (mmap_helper c m domain fd vaddr offset length (flags % flags_span)
        (flags / flags_span * flags_span))
      (omega arith) (failed-MapsOne c m domain fd vaddr length)
      (mmap_helper-MapsOne c m domain fd vaddr length offset (flags % flags_span)
        (flags / flags_span * flags_span))

-- The same for `mmap_internal`.
pub mmap_internal-MapsOne :
    (c : Env) (m : Mem) (domain : ℤ) (fd vaddr : ℕ) (offset : ℤ) (length flags : ℕ)
    → MapsOne c m domain fd vaddr length
        (mmap_internal c m domain (pos fd) vaddr offset length flags)
unfolding mmap_internal
mmap_internal-MapsOne c m domain fd vaddr offset length flags =
    checked_outcome (MapsOne c m domain fd vaddr length) (MapsOne-IsFree c m domain fd vaddr length)
      c m (is_zero offset && flags / flags_span == 0) aee_ebadparm
      (mmap_helper c m domain fd vaddr offset length (flags % flags_span)
        (flags / flags_span * flags_span))
      (omega arith) (failed-MapsOne c m domain fd vaddr length)
      (mmap_helper-MapsOne c m domain fd vaddr length offset (flags % flags_span)
        (flags / flags_span * flags_span))
