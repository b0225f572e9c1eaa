-- ===== src/Mem/Invariant.antt =====
-- Over all the steps that the process can take in src/fastrpc_mem.c, each file descriptor is mapped at
-- most once in a domain.
pub mod Remote
pub mod Buffers
pub mod Steps
use fastrpc.Common.{
  ℕ, zero, suc, ◌+◌, ◌<◌, ◌≤◌, ◌≡◌, ◌≢◌, refl, sym, ap, ◌∙◌, true, false, Bool, Bool-cases, Option,
  none, some, inl, inr, arith, ℤ, pos, negsuc, ◌==◌, ltb, if◌then◌else◌, Option-cases, subst, not,
  ◌&&◌, ◌⊎◌, List, [], ◌∷◌, ◌++◌, find, remove_first, update_first, put_at, put_at_there,
  put_at_elsewhere, ◌/◌, has_bit,
}
use fastrpc.DspQueue.State.{StaticMap, Outcome, ret, abort, aee_ebadparm}
use fastrpc.DspQueue.Refs.{RefChange, ref_list, buffer_ref}
use fastrpc.Session.{Process}
use fastrpc.Ioctl.{Call, call, unknown}
use fastrpc.Mem.{Mem, Env, Result, MemToFd, failed, do_ioctl, in_domain, once}
use fastrpc.Mem.Outcomes.{
  IsFree, clear_errno_outcome, if_outcome, once_outcome, in_domain_outcome, in_session_outcome,
}
use fastrpc.Mem.Static.{
  has_fd, has_vaddrout, set_maps, new_map, set_refs, fastrpc_mmap, fastrpc_munmap, mmap_internal,
  munmap_internal, is_zero, flags_span,
}
use fastrpc.Mem.Mapping.{MapsOne, fastrpc_mmap-MapsOne, mmap_internal-MapsOne}
use fastrpc.Mem.Mapping.Removal.{
  UnmapsOne, IsStable, fastrpc_munmap-UnmapsOne, munmap_internal-UnmapsOne,
}
use fastrpc.Mem.Fds.{
  IsDistinct, find-IsFresh, append-IsDistinct, remove_first-IsDistinct, update_first-IsDistinct,
  ref_list-IsDistinct,
}

-- In every domain each file descriptor is mapped at most once.
abbrev pub IsMappedOnce : Mem → Type 0
IsMappedOnce m = (d : ℕ) → IsDistinct (m.maps d)

abbrev pub AfterMappedOnce : Result → Type 0
AfterMappedOnce r = IsMappedOnce r.mem

pub AfterMappedOnce-IsFree : IsFree AfterMappedOnce
AfterMappedOnce-IsFree = (λ r p h. h, λ r e h. h)

-- The lists, with one of them replaced.
pub put_at-IsDistinct :
    (maps : ℕ → List StaticMap) (d : ℕ) (ns : List StaticMap)
    → ((i : ℕ) → IsDistinct (maps i))
    → IsDistinct ns
    → (i : ℕ) → IsDistinct (put_at maps d ns i)
put_at-IsDistinct maps d ns h hn i = elim (Bool-cases (i == d)) [
  | inl t ↦
      let e : i ≡ d = ground arith in
      subst (λ i. IsDistinct (put_at maps d ns i)) (sym e)
        (subst IsDistinct (sym (put_at_there maps d ns)) hn)
  | inr f ↦ subst IsDistinct (sym (put_at_elsewhere maps d ns i (ground arith))) (h i)
]

module _ (m : Mem) (h : IsMappedOnce m) where
  MapsOne-IsMappedOnce :
      (c : Env) (domain : ℤ) (fd vaddr length : ℕ) (r : Result)
      → MapsOne c m domain fd vaddr length r
      → IsMappedOnce r.mem
  MapsOne-IsMappedOnce c domain fd vaddr length r (same, inr (ne, kept)) =
      λ d. subst (λ ms. IsDistinct (ms d)) (sym kept) (h d)
  MapsOne-IsMappedOnce c domain fd vaddr length r (same, inl (ok, (d, e, absent, sent, added))) =
      λ i.
        subst (λ ms. IsDistinct (ms i)) (sym added)
          (put_at-IsDistinct m.maps d _ h
            (append-IsDistinct (m.maps d) (new_map fd vaddr length r.out) (h d)
              (find-IsFresh fd (m.maps d) absent))
            i)

  UnmapsOne-IsMappedOnce :
      (test : StaticMap → Bool) (domain : ℤ) (r : Result)
      → UnmapsOne test m domain r
      → IsMappedOnce r.mem
  UnmapsOne-IsMappedOnce test domain r (same, inl (ok, (d, e, there, sent, gone))) = λ i.
      subst (λ ms. IsDistinct (ms i)) (sym gone)
        (put_at-IsDistinct m.maps d _ h (remove_first-IsDistinct test (m.maps d) (h d)) i)
  UnmapsOne-IsMappedOnce test domain r (same, inr (ne, inl kept)) =
      λ d. subst (λ ms. IsDistinct (ms d)) (sym kept) (h d)
  UnmapsOne-IsMappedOnce test domain r (same, inr (ne, inr (d, e, there, (refs, few, set)))) = λ i.
      subst (λ ms. IsDistinct (ms i)) (sym set)
        (put_at-IsDistinct m.maps d _ h (update_first-IsDistinct test refs (m.maps d) (h d)) i)

module _ (domain : ℤ) (c : Env) (m : Mem) (h : IsMappedOnce m) where
  pub fastrpc_mmap-IsMappedOnce :
      (fd : ℤ) (vaddr : ℕ) (offset : ℤ) (length flags : ℕ)
      → IsMappedOnce (fastrpc_mmap c m domain fd vaddr offset length flags).mem
  unfolding fastrpc_mmap
  fastrpc_mmap-IsMappedOnce (pos fd) vaddr offset length flags =
      MapsOne-IsMappedOnce m h c domain fd vaddr length
        (fastrpc_mmap c m domain (pos fd) vaddr offset length flags)
        (fastrpc_mmap-MapsOne c m domain fd vaddr offset length flags)
  fastrpc_mmap-IsMappedOnce (negsuc n) vaddr offset length flags =
      if_outcome AfterMappedOnce AfterMappedOnce-IsFree (c.init_once == 0) (failed aee_ebadparm m)
        (failed c.init_once m) h h

  pub mmap_internal-IsMappedOnce :
      (fd : ℤ) (vaddr : ℕ) (offset : ℤ) (length flags : ℕ)
      → IsMappedOnce (mmap_internal c m domain fd vaddr offset length flags).mem
  unfolding mmap_internal
  mmap_internal-IsMappedOnce (pos fd) vaddr offset length flags =
      MapsOne-IsMappedOnce m h c domain fd vaddr length
        (mmap_internal c m domain (pos fd) vaddr offset length flags)
        (mmap_internal-MapsOne c m domain fd vaddr offset length flags)
  mmap_internal-IsMappedOnce (negsuc n) vaddr offset length flags =
      if_outcome AfterMappedOnce AfterMappedOnce-IsFree (c.init_once == 0) (failed aee_ebadparm m)
        (failed c.init_once m) h h

  pub fastrpc_munmap-IsMappedOnce : (fd : ℤ) → IsMappedOnce (fastrpc_munmap c m domain fd).mem
  unfolding fastrpc_munmap
  fastrpc_munmap-IsMappedOnce (pos fd) =
      UnmapsOne-IsMappedOnce m h (has_fd fd) domain (fastrpc_munmap c m domain (pos fd))
        (fastrpc_munmap-UnmapsOne c m domain fd)
  fastrpc_munmap-IsMappedOnce (negsuc n) =
      clear_errno_outcome AfterMappedOnce AfterMappedOnce-IsFree (once c (failed aee_ebadparm) m) (
        if_outcome AfterMappedOnce AfterMappedOnce-IsFree (c.init_once == 0) (failed aee_ebadparm m)
          (failed c.init_once m) h h)

  pub munmap_internal-IsMappedOnce :
      (raddr : ℕ) → IsMappedOnce (munmap_internal c m domain raddr).mem
  munmap_internal-IsMappedOnce raddr =
      UnmapsOne-IsMappedOnce m h (has_vaddrout raddr) domain (munmap_internal c m domain raddr)
        (munmap_internal-UnmapsOne c m domain raddr)
