-- ===== src/Mem/Roundtrip.antt =====
-- A mapping and its removal, and the references to a mapped buffer.
use fastrpc.Common.{
  ℕ, ◌<◌, ◌≤◌, ◌≡◌, ◌≢◌, refl, sym, ap, ◌∙◌, subst, true, Bool-cases, none, some, inl, inr, ℤ, pos,
  ◌==◌, List, [], ◌∷◌, ◌++◌, find, remove_first, put_at, put_at_same, find-append,
  remove_first-append, put_at_there, put_at_twice, arith, lt→ltb,
}
use fastrpc.DspQueue.State.{StaticMap}
use fastrpc.DspQueue.Refs.{RefChange, gain, lose, keep_map, ref_map, ref_list, buffer_ref}
use fastrpc.Mem.{Mem, Env, Result}
use fastrpc.Mem.Balance.{Room}
use fastrpc.Mem.Balance.Calls.{fastrpc_munmap-IsBalanced, fastrpc_mmap-IsBalanced}
use fastrpc.Mem.Static.{
  has_fd, set_maps, set_refs, new_map, fastrpc_mmap, is_map_flags, fastrpc_munmap,
}
use fastrpc.Mem.Willing.{
  IsWilling, IsOpen, fastrpc_mmap_ok, fastrpc_munmap_ok, only_domain, domain_ok, mapped_lists,
  unmapped_lists,
}
use fastrpc.Mem.Mapping.{fastrpc_mmap-MapsOne}
use fastrpc.Mem.Mapping.Removal.{UnmapsOne, fastrpc_munmap-UnmapsOne}

-- On a valid domain with an open session, where no mapping of the file descriptor is in the list, with
-- valid flags, offset 0, two session references to spare and a driver that returns 0: `fastrpc_mmap`
-- succeeds, `fastrpc_munmap` of the same file descriptor then succeeds, and all mapping lists and all
-- sessions are as before.
pub fastrpc_munmap-fastrpc_mmap :
    (c : Env) (m : Mem) (d fd vaddr length flags : ℕ)
    → IsWilling c
    → IsOpen d m.proc.hlist
    → Room 2 m.proc.hlist
    → find (has_fd fd) (m.maps d) ≡ none
    → is_map_flags flags ≡ true
    → let r = fastrpc_mmap c m (pos d) (pos fd) vaddr (pos 0) length flags in
      let r' = fastrpc_munmap c r.mem (pos d) (pos fd) in
      (r.code ≡ 0) × (r'.code ≡ 0) × (r'.mem.maps ≡ m.maps) × (r'.mem.proc.hlist ≡ m.proc.hlist)
fastrpc_munmap-fastrpc_mmap c m d fd vaddr length flags w o room absent f =
    let r = fastrpc_mmap c m (pos d) (pos fd) vaddr (pos 0) length flags in
    let r' = fastrpc_munmap c r.mem (pos d) (pos fd) in
    let n = new_map fd vaddr length r.out in
    let ok =
      fastrpc_mmap_ok c w m d o fd (pos d) vaddr length flags (domain_ok m.proc d o.valid) absent
        f in
    let lists =
      mapped_lists c m d fd vaddr length r o.valid
        (fastrpc_mmap-MapsOne c m (pos d) fd vaddr (pos 0) length flags) ok in
    let same = fastrpc_mmap-IsBalanced c (pos d) (pos fd) vaddr (pos 0) length flags m room in
    let self : (fd == fd) ≡ true = ground arith in
    let here : r.mem.maps d ≡ m.maps d ++ n ∷ [] =
      ap (λ ms. ms d) lists.1 ∙ put_at_there m.maps d (m.maps d ++ n ∷ []) in
    let found = ap (find (has_fd fd)) here ∙ find-append (has_fd fd) (m.maps d) n absent self in
    let ok' =
      fastrpc_munmap_ok c w r.mem d (subst (IsOpen d) (sym same) o) fd (pos d) n
        (domain_ok r.mem.proc d o.valid) found (omega arith) in
    let gone =
      unmapped_lists r.mem d fd r' o.valid (fastrpc_munmap-UnmapsOne c r.mem (pos d) fd) ok' in
    let back =
      gone
      ∙ ap (λ ms. put_at ms d (remove_first (has_fd fd) (r.mem.maps d))) lists.1
      ∙ put_at_twice m.maps d _ _
      ∙ ap (λ ns. put_at m.maps d (remove_first (has_fd fd) ns)) here
      ∙ ap (put_at m.maps d) (remove_first-append (has_fd fd) (m.maps d) n absent self)
      ∙ put_at_same m.maps d in
    (
      ok,
      ok',
      back,
      fastrpc_munmap-IsBalanced c (pos d) (pos fd) r.mem (subst (Room 2) (sym same) room) ∙ same,
    )

-- The search of `fastrpc_buffer_ref` that ends at the last mapping.
ref_list_last :
    (ns : List StaticMap) (n : StaticMap) (fd : ℕ) (change : RefChange)
    → find (has_fd fd) ns ≡ none
    → (n.fd == fd) ≡ true
    → ref_list (ns ++ n ∷ []) fd change
      ≡ record (ref_map n change []) { maps = ns ++ (ref_map n change []).maps }
unfolding find ref_list
ref_list_last [] n fd change h t = rw t refl
ref_list_last (x ∷ xs) n fd change h t = elim (Bool-cases (x.fd == fd)) [
  | inl u ↦ absurd (ground arith)
  | inr f ↦ rw f (ap (keep_map x) (ref_list_last xs n fd change (ground arith) t))
]

-- A successful removal was of a mapping with at most one reference.
unmapped_few :
    (m : Mem) (d fd : ℕ) (n : StaticMap) (r : Result)
    → UnmapsOne (has_fd fd) m (pos d) r
    → find (has_fd fd) (m.maps d) ≡ some n
    → r.code ≡ 0
    → n.refs ≤ 1
unmapped_few m d fd n r (same, inr (ne, kept)) there ok = absurd (ne ok)
unmapped_few m d fd n r (same, inl (z, (d', e, (n', there', few), sent, gone))) there ok =
    let same_domain = only_domain m.proc d d' e in
    let both : some n ≡ some n' =
      sym there ∙ subst (λ x. find (has_fd fd) (m.maps x) ≡ some n') same_domain there' in
    ground arith

-- On a valid domain, once `fastrpc_mmap` has mapped a file descriptor: `fastrpc_buffer_ref` hands out the
-- mapped address and length, and a reference that it adds makes `fastrpc_munmap` fail, whatever the
-- driver does, until it is given up, which leaves the list as `fastrpc_mmap` left it.
pub buffer_ref-fastrpc_mmap :
    (c c' : Env) (m : Mem) (d fd vaddr : ℕ) (offset : ℤ) (length flags : ℕ)
    → d < 32
    → (fastrpc_mmap c m (pos d) (pos fd) vaddr offset length flags).code ≡ 0
    → let r = fastrpc_mmap c m (pos d) (pos fd) vaddr offset length flags in
      let added = buffer_ref d (r.mem.maps d) fd gain in
      (added.code ≡ 0)
      × (added.out ≡ some (vaddr, length))
      × ((fastrpc_munmap c' (set_maps d added.maps r.mem) (pos d) (pos fd)).code ≢ 0)
      × ((buffer_ref d added.maps fd lose).maps ≡ r.mem.maps d)
unfolding buffer_ref ref_map
buffer_ref-fastrpc_mmap c c' m d fd vaddr offset length flags v ok =
    let r = fastrpc_mmap c m (pos d) (pos fd) vaddr offset length flags in
    let n = new_map fd vaddr length r.out in
    let lists =
      mapped_lists c m d fd vaddr length r v
        (fastrpc_mmap-MapsOne c m (pos d) fd vaddr offset length flags) ok in
    let absent = lists.0 in
    let valid = lt→ltb d 32 v in
    let self : (fd == fd) ≡ true = ground arith in
    let here : r.mem.maps d ≡ m.maps d ++ n ∷ [] =
      ap (λ ms. ms d) lists.1 ∙ put_at_there m.maps d (m.maps d ++ n ∷ []) in
    let added = buffer_ref d (r.mem.maps d) fd gain in
    let gained : added
        ≡ record { code = 0; out = some (vaddr, length); maps = m.maps d ++ set_refs 2 n ∷ [] } =
      rw (buffer_ref, valid)
        (ap (λ ns. ref_list ns fd gain) here ∙ ref_list_last (m.maps d) n fd gain absent self) in
    let lost : (buffer_ref d (m.maps d ++ set_refs 2 n ∷ []) fd lose).maps ≡ m.maps d ++ n ∷ [] =
      rw (buffer_ref, valid)
        (ap (λ x. x.maps) (ref_list_last (m.maps d) (set_refs 2 n) fd lose absent self)) in
    let m' = set_maps d added.maps r.mem in
    let there : m'.maps d ≡ m.maps d ++ set_refs 2 n ∷ [] =
      put_at_there r.mem.maps d added.maps ∙ ap (λ x. x.maps) gained in
    let found =
      ap (find (has_fd fd)) there ∙ find-append (has_fd fd) (m.maps d) (set_refs 2 n) absent self in
    (
      ap (λ x. x.code) gained,
      ap (λ x. x.out) gained,
      (λ done.
          let few =
            unmapped_few m' d fd (set_refs 2 n) (fastrpc_munmap c' m' (pos d) (pos fd))
              (fastrpc_munmap-UnmapsOne c' m' (pos d) fd) found done in
          absurd (ground arith)),
      ap (λ x. (buffer_ref d x.maps fd lose).maps) gained ∙ lost ∙ sym here,
    )
