-- ===== src/Mem/Invariant/Remote.antt =====
-- The mappings by remote address of src/fastrpc_mem.c keep each file descriptor mapped at most once.
use fastrpc.Common.{
  ℕ, ◌≢◌, Bool-cases, Option, some, inl, inr, arith, ℤ, pos, negsuc, ◌==◌, ltb, if◌then◌else◌,
  Option-cases, [], ◌∷◌, ◌++◌, find, remove_first,
}
use fastrpc.DspQueue.State.{aee_ebadparm}
use fastrpc.Session.{current_domain}
use fastrpc.Ioctl.{
  Call, call, unknown, ioctl_mmap, ioctl_munmap, mmap_64, munmap_64, convert_kernel_to_user_error,
}
use fastrpc.Mem.{Mem, Env, Result, RemoteMap, failed, do_ioctl, in_domain, in_session, once}
use fastrpc.Mem.Outcomes.{
  if_outcome, once_outcome, checked_outcome, in_domain_outcome, in_session_outcome,
}
use fastrpc.Mem.Static.{mmap_internal, munmap_internal}
use fastrpc.Mem.Remote.{
  to_user, remote_mem_map, remote_mem_unmap, is_heap, remember, remote_map_body,
  remote_mmap64_internal, remote_map_lookup, has_vadsp, set_memlist, entry_done, remote_unmap_body,
  remote_munmap64,
}
use fastrpc.Mem.Invariant.{
  IsMappedOnce, AfterMappedOnce, AfterMappedOnce-IsFree, mmap_internal-IsMappedOnce,
  munmap_internal-IsMappedOnce,
}

pub do_ioctl-IsMappedOnce :
    (c : Env) (k : Call) (m : Mem) → IsMappedOnce m → IsMappedOnce (do_ioctl c k m).mem
unfolding do_ioctl
do_ioctl-IsMappedOnce c (unknown code) m h = h
do_ioctl-IsMappedOnce c (call req) m h = h

to_user_outcome : (r : Result) → AfterMappedOnce r → AfterMappedOnce (to_user r)
to_user_outcome r h =
    if_outcome AfterMappedOnce AfterMappedOnce-IsFree (r.code == 0) r
      (record r { code = convert_kernel_to_user_error r.code r.mem.errno }) h h

module _ (c : Env) (m : Mem) (h : IsMappedOnce m) where
  fails : (code : ℕ) → code ≢ 0 → AfterMappedOnce (failed code m)
  fails code ne = h

  pub remote_mem_map-IsMappedOnce :
      (domain fd flags : ℤ) (vaddr size : ℕ)
      → IsMappedOnce (remote_mem_map c m domain fd flags vaddr size).mem
  unfolding remote_mem_map
  remote_mem_map-IsMappedOnce domain fd (negsuc n) vaddr size =
      to_user_outcome (once c (failed aee_ebadparm) m)
        (once_outcome AfterMappedOnce AfterMappedOnce-IsFree c (failed aee_ebadparm) m fails h)
  remote_mem_map-IsMappedOnce domain (negsuc n) (pos flags) vaddr size =
      to_user_outcome (once c (failed aee_ebadparm) m)
        (once_outcome AfterMappedOnce AfterMappedOnce-IsFree c (failed aee_ebadparm) m fails h)
  remote_mem_map-IsMappedOnce domain (pos fd) (pos flags) vaddr size =
      let body = λ (d : ℕ) (dev : Option ℕ) (m : Mem).
        do_ioctl c (ioctl_mmap dev mmap_64 flags 0 (pos fd) (pos 0) size vaddr) m in
      let r = in_domain domain aee_ebadparm body m in
      to_user_outcome (once c (λ m. if ltb flags 1 then r else failed aee_ebadparm m) m) (
        checked_outcome AfterMappedOnce AfterMappedOnce-IsFree c m (ltb flags 1) aee_ebadparm r
          (omega arith) fails
          (in_domain_outcome AfterMappedOnce AfterMappedOnce-IsFree domain aee_ebadparm body m
            (omega arith) fails
            (λ d dev p e.
              do_ioctl-IsMappedOnce c
                (ioctl_mmap (some dev) mmap_64 flags 0 (pos fd) (pos 0) size vaddr)
                (record m { proc = p }) h)))

  pub remote_mem_unmap-IsMappedOnce :
      (domain : ℤ) (raddr size : ℕ) → IsMappedOnce (remote_mem_unmap c m domain raddr size).mem
  unfolding remote_mem_unmap
  remote_mem_unmap-IsMappedOnce domain raddr size =
      let body = λ (d : ℕ) (dev : Option ℕ) (m : Mem).
        do_ioctl c (ioctl_munmap dev munmap_64 (negsuc 0) size raddr) m in
      let r = in_domain domain aee_ebadparm body m in
      let asked =
        in_domain_outcome AfterMappedOnce AfterMappedOnce-IsFree domain aee_ebadparm body m
          (omega arith) fails
          (λ d dev p e.
            do_ioctl-IsMappedOnce c (ioctl_munmap (some dev) munmap_64 (negsuc 0) size raddr)
              (record m { proc = p }) h) in
      to_user_outcome (once c (λ m. if raddr == 0 then failed aee_ebadparm m else r) m) (
        once_outcome AfterMappedOnce AfterMappedOnce-IsFree c
          (λ m. if raddr == 0 then failed aee_ebadparm m else r) m fails
          (if_outcome AfterMappedOnce AfterMappedOnce-IsFree (raddr == 0) (failed aee_ebadparm m) r
            h asked))

remember-IsMappedOnce :
    (c : Env) (d flags : ℕ) (r : Result)
    → AfterMappedOnce r
    → AfterMappedOnce (remember c d flags r)
unfolding remember
remember-IsMappedOnce c d flags r h = elim (Bool-cases (c.has_memory r.mem.requests)) [
  | inl t ↦ rw t h
  | inr f ↦ rw f h
]

module _ (c : Env) (m : Mem) (h : IsMappedOnce m) where
  remote_map_body-IsMappedOnce :
      (fd : ℤ) (flags vaddrin size d dev : ℕ)
      → AfterMappedOnce (remote_map_body c fd flags vaddrin size d (some dev) m)
  unfolding remote_map_body
  remote_map_body-IsMappedOnce fd flags vaddrin size d dev =
      let direct = do_ioctl c (ioctl_mmap (some dev) mmap_64 flags 0 fd (pos 0) size vaddrin) m in
      let mapped = mmap_internal c m (pos d) fd vaddrin (pos 0) size flags in
      let hm = mmap_internal-IsMappedOnce (pos d) c m h fd vaddrin (pos 0) size flags in
      let last =
        if mapped.code == 0 then remember c d flags mapped else record mapped { out = 0 } in
      if_outcome AfterMappedOnce AfterMappedOnce-IsFree (is_heap flags) (remember c d flags direct)
        last
        (remember-IsMappedOnce c d flags direct (
          do_ioctl-IsMappedOnce c (ioctl_mmap (some dev) mmap_64 flags 0 fd (pos 0) size vaddrin) m
            h))
        (if_outcome AfterMappedOnce AfterMappedOnce-IsFree (mapped.code == 0)
          (remember c d flags mapped) (record mapped { out = 0 })
          (remember-IsMappedOnce c d flags mapped hm) hm)

  entry_done-IsMappedOnce :
      (d : ℕ) (e : RemoteMap) (r : Result) → AfterMappedOnce r → AfterMappedOnce (entry_done d e r)
  unfolding entry_done
  entry_done-IsMappedOnce d e r h =
      if_outcome AfterMappedOnce AfterMappedOnce-IsFree (r.code == 0) r
        (record r { mem = set_memlist d (r.mem.memlist d ++ e ∷ []) r.mem }) h h

  remote_unmap_body-IsMappedOnce :
      (vaddrout size d dev : ℕ) → AfterMappedOnce (remote_unmap_body c vaddrout size d (some dev) m)
  unfolding remote_unmap_body remote_map_lookup
  remote_unmap_body-IsMappedOnce vaddrout size d dev =
      let direct = ioctl_munmap (some dev) munmap_64 (negsuc 0) size vaddrout in
      elim (Option-cases (find (has_vadsp vaddrout) (m.memlist d))) [
        | inl absent ↦ rw (remote_unmap_body, absent) (do_ioctl-IsMappedOnce c direct m h)
        | inr (e, there) ↦
            let m' = set_memlist d (remove_first (has_vadsp vaddrout) (m.memlist d)) m in
            rw (remote_unmap_body, there)
              (entry_done-IsMappedOnce d e
                (if is_heap e.flags
                  then do_ioctl c direct m'
                  else munmap_internal c m' (pos d) vaddrout)
                (if_outcome AfterMappedOnce AfterMappedOnce-IsFree (is_heap e.flags)
                  (do_ioctl c direct m') (munmap_internal c m' (pos d) vaddrout)
                  (do_ioctl-IsMappedOnce c direct m' h)
                  (munmap_internal-IsMappedOnce (pos d) c m' h vaddrout)))
      ]

module _ (c : Env) (m : Mem) (h : IsMappedOnce m) where
  unchanged : (code : ℕ) → code ≢ 0 → AfterMappedOnce (failed code m)
  unchanged code ne = h

  pub remote_mmap64_internal-IsMappedOnce :
      (fd : ℤ) (flags vaddrin size : ℕ)
      → AfterMappedOnce (remote_mmap64_internal c m fd flags vaddrin size)
  unfolding remote_mmap64_internal
  remote_mmap64_internal-IsMappedOnce fd flags vaddrin size =
      let d = current_domain m.proc in
      let body = in_session d (remote_map_body c fd flags vaddrin size d) in
      to_user_outcome (once c body m) (
        once_outcome AfterMappedOnce AfterMappedOnce-IsFree c body m unchanged (
          in_session_outcome AfterMappedOnce AfterMappedOnce-IsFree d
            (remote_map_body c fd flags vaddrin size d) m unchanged
            (λ dev p.
              remote_map_body-IsMappedOnce c (record m { proc = p }) h fd flags vaddrin size d
                dev)))

  pub remote_munmap64-IsMappedOnce :
      (vaddrout size : ℕ) → AfterMappedOnce (remote_munmap64 c m vaddrout size)
  unfolding remote_munmap64
  remote_munmap64-IsMappedOnce vaddrout size =
      let d = current_domain m.proc in
      let body = in_session d (remote_unmap_body c vaddrout size d) in
      to_user_outcome (once c body m) (
        once_outcome AfterMappedOnce AfterMappedOnce-IsFree c body m unchanged (
          in_session_outcome AfterMappedOnce AfterMappedOnce-IsFree d
            (remote_unmap_body c vaddrout size d) m unchanged
            (λ dev p.
              remote_unmap_body-IsMappedOnce c (record m { proc = p }) h vaddrout size d dev)))
