-- ===== src/Mem/Mapping/Removal.antt =====
-- What unmapping a file descriptor does to the mapping list of its domain.
use fastrpc.Common.{
  ℕ, ◌||◌, ◌≤◌, ◌≡◌, ◌≢◌, refl, sym, ap, ◌∙◌, Bool, Bool-cases, some, inl, inr, arith, ℤ, pos, ◌==◌,
  ltb, if◌then◌else◌, Option-cases, subst, ◌⊎◌, ◌∷◌, put_at_twice, remove-update, update_twice,
  find, remove_first, update_first, put_at, put_at_there,
}
use fastrpc.DspQueue.State.{StaticMap, aee_ebadparm}
use fastrpc.Session.{Process, effective_domain}
use fastrpc.Ioctl.{Request, ioctl_munmap, mem_unmap_type}
use fastrpc.Mem.{Mem, Env, Result, failed, do_ioctl, in_domain}
use fastrpc.Mem.Outcomes.{IsFree, if_outcome, clear_errno_outcome, once_outcome, in_domain_outcome}
use fastrpc.Mem.Static.{
  enotty, einval, has_fd, has_vaddrout, set_maps, set_refs, unmap_done, unmap_body, fastrpc_munmap,
  munmap_internal,
}
use fastrpc.Mem.Mapping.{SameLists}

-- What an unmapping call comes to, on the first mapping that passes the test: it is removed, after one
-- call of the driver, and it had at most one reference; or the code is an error, and each mapping list
-- is as it was, but for the count of that mapping, which was at most 1 and is 0 or 1 now.
abbrev pub UnmapsOne : (StaticMap → Bool) → Mem → ℤ → Result → Type 0
UnmapsOne test m domain r =
    SameLists m r.mem
    × (((r.code ≡ 0)
          × ((d : ℕ) × (effective_domain m.proc domain ≡ some d)
              × ((n : StaticMap) × (find test (m.maps d) ≡ some n) × (n.refs ≤ 1))
              × ((req : Request) × (r.mem.requests ≡ req ∷ m.requests))
              × (r.mem.maps ≡ put_at m.maps d (remove_first test (m.maps d)))))
        ⊎ ((r.code ≢ 0)
            × ((r.mem.maps ≡ m.maps)
                ⊎ ((d : ℕ) × (effective_domain m.proc domain ≡ some d)
                    × ((n : StaticMap) × (find test (m.maps d) ≡ some n) × (n.refs ≤ 1))
                    × ((refs : ℕ) × (refs ≤ 1)
                        × (r.mem.maps
                            ≡ put_at m.maps d (update_first test (set_refs refs) (m.maps d))))))))

-- The test does not look at the count.
abbrev pub IsStable : (StaticMap → Bool) → Type 0
IsStable test = (refs : ℕ) (n : StaticMap) → test (set_refs refs n) ≡ test n

module _ (test : StaticMap → Bool) (st : IsStable test) (m : Mem) (domain : ℤ) where
  UnmapsOne-IsFree : IsFree (UnmapsOne test m domain)
  UnmapsOne-IsFree = (λ r p h. h, λ r e h. h)

  failed-UnmapsOne : (code : ℕ) → code ≢ 0 → UnmapsOne test m domain (failed code m)
  failed-UnmapsOne code ne = ((refl, refl), inr (ne, inl refl))

  module _ (d : ℕ) (e : effective_domain m.proc domain ≡ some d) (n : StaticMap)
      (there : find test (m.maps d) ≡ some n) (few : n.refs ≤ 1) where
    -- After the driver's answer, with the count at 0.
    unmap_done-UnmapsOne :
        (r : Result) (req : Request)
        → SameLists m r.mem
        → r.mem.maps ≡ put_at m.maps d (update_first test (set_refs 0) (m.maps d))
        → r.mem.requests ≡ req ∷ m.requests
        → UnmapsOne test m domain (unmap_done test d r)
    unfolding unmap_done
    unmap_done-UnmapsOne r req same zeroed sent =
        let zero_there = put_at_there m.maps d (update_first test (set_refs 0) (m.maps d)) in
        let twice = put_at_twice m.maps d (update_first test (set_refs 0) (m.maps d)) in
        let gone =
          ap (λ ms. put_at ms d (remove_first test (ms d))) zeroed
          ∙ twice
              (remove_first test (put_at m.maps d (update_first test (set_refs 0) (m.maps d)) d))
          ∙ ap (λ ns. put_at m.maps d (remove_first test ns)) zero_there
          ∙ ap (put_at m.maps d) (remove-update test (set_refs 0) (m.maps d) (st 0)) in
        let set_to_one =
          ap (λ ms. put_at ms d (update_first test (set_refs 1) (ms d))) zeroed
          ∙ twice (
              update_first test (set_refs 1)
                (put_at m.maps d (update_first test (set_refs 0) (m.maps d)) d))
          ∙ ap (λ ns. put_at m.maps d (update_first test (set_refs 1) ns)) zero_there
          ∙ ap (put_at m.maps d) (update_twice test (set_refs 0) (set_refs 1) (m.maps d) (st 0)) in
        if_outcome (UnmapsOne test m domain) UnmapsOne-IsFree (r.ioc_err == 0) _ _
          (same, inl (refl, (d, e, (n, there, few), (req, sent), gone)))
          (if_outcome (UnmapsOne test m domain) UnmapsOne-IsFree
            (r.mem.errno == enotty || r.mem.errno == einval) _ _
            (same, inr (omega arith, inr (d, e, (n, there, few), (0, omega arith, zeroed))))
            (same, inr (omega arith, inr (d, e, (n, there, few), (1, omega arith, set_to_one)))))

  unmap_body-UnmapsOne :
      (c : Env) (d dev : ℕ) (p : Process)
      → effective_domain m.proc domain ≡ some d
      → UnmapsOne test m domain (unmap_body c test d (some dev) (record m { proc = p }))
  unfolding unmap_body do_ioctl ioctl_munmap
  unmap_body-UnmapsOne c d dev p e = elim (Option-cases (find test (m.maps d))) [
    | inl absent ↦ rw (unmap_body, absent) ((refl, refl), inr (omega arith, inl refl))
    | inr (n, there) ↦
        let m' = record m { proc = p } in
        let asked =
          do_ioctl c (ioctl_munmap (some dev) mem_unmap_type (pos n.fd) n.length n.vaddrout)
            (set_maps d (update_first test (set_refs 0) (m.maps d)) m') in
        let here : unmap_body c test d (some dev) m'
            ≡ (if ltb 1 n.refs then failed aee_ebadparm m' else unmap_done test d asked) =
          rw (unmap_body, there) refl in
        subst (UnmapsOne test m domain) (sym here) (elim (Bool-cases (ltb 1 n.refs)) [
          | inl many ↦ rw many ((refl, refl), inr (omega arith, inl refl))
          | inr few ↦
              rw few
                (unmap_done-UnmapsOne d e n there (ground arith) asked _ (refl, refl) refl refl)
        ])
  ]

-- For a file descriptor that is not negative: `fastrpc_munmap` either succeeds, and then its domain is
-- valid, the first mapping of the file descriptor there had at most one reference, the driver was
-- called once, and that mapping is removed; or the code is an error, and each mapping list is as it
-- was, but for the count of that mapping, which was at most 1 and is 0 or 1 now. It never changes the
-- other lists.
pub fastrpc_munmap-UnmapsOne :
    (c : Env) (m : Mem) (domain : ℤ) (fd : ℕ)
    → UnmapsOne (has_fd fd) m domain (fastrpc_munmap c m domain (pos fd))
unfolding fastrpc_munmap
fastrpc_munmap-UnmapsOne c m domain fd =
    let test = has_fd fd in
    let st : IsStable test = λ refs n. refl in
    let q = UnmapsOne test m domain in
    let free = UnmapsOne-IsFree test st m domain in
    let hf = failed-UnmapsOne test st m domain in
    clear_errno_outcome q free _ (
      once_outcome q free c (in_domain domain aee_ebadparm (unmap_body c test)) m hf (
        in_domain_outcome q free domain aee_ebadparm (unmap_body c test) m (omega arith) hf
          (unmap_body-UnmapsOne test st m domain c)))

-- `fastrpc_munmap_internal` likewise, on the first mapping with the remote address.
pub munmap_internal-UnmapsOne :
    (c : Env) (m : Mem) (domain : ℤ) (raddr : ℕ)
    → UnmapsOne (has_vaddrout raddr) m domain (munmap_internal c m domain raddr)
unfolding munmap_internal
munmap_internal-UnmapsOne c m domain raddr =
    let test = has_vaddrout raddr in
    let st : IsStable test = λ refs n. refl in
    let q = UnmapsOne test m domain in
    let free = UnmapsOne-IsFree test st m domain in
    let hf = failed-UnmapsOne test st m domain in
    clear_errno_outcome q free _ (
      once_outcome q free c (in_domain domain aee_ebadparm (unmap_body c test)) m hf (
        in_domain_outcome q free domain aee_ebadparm (unmap_body c test) m (omega arith) hf
          (unmap_body-UnmapsOne test st m domain c)))
