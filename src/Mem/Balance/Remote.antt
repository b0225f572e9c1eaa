-- ===== src/Mem/Balance/Remote.antt =====
-- The calls on mappings by remote address, and with them all mapping calls, give back their references.
use fastrpc.Common.{
  ℕ, ◌≡◌, refl, Bool-cases, Option, none, some, inl, inr, ℤ, pos, negsuc, ◌==◌, Option-cases, find,
  remove_first,
}
use fastrpc.Session.{current_domain}
use fastrpc.Ioctl.{ioctl_mmap, ioctl_munmap, mmap_64, munmap_64}
use fastrpc.Mem.{Mem, Env, Result, RemoteMap, do_ioctl, in_session, once}
use fastrpc.Mem.Static.{fastrpc_mmap, mmap_internal, fastrpc_munmap, munmap_internal}
use fastrpc.Mem.Remote.{
  to_user, is_heap, remember, remote_map_body, remote_mmap64_internal, remote_map_lookup, has_vadsp,
  set_memlist, entry_done, remote_unmap_body, remote_munmap64,
}
use fastrpc.Mem.Balance.{Room, Room-less, IsBalanced, in_session-IsBalanced, once-IsBalanced}
use fastrpc.Mem.Balance.Calls.{
  Same, do_ioctl-Same, fastrpc_mmap-IsBalanced, mmap_internal-IsBalanced, fastrpc_munmap-IsBalanced,
  munmap_internal-IsBalanced,
}

to_user-Same : (m : Mem) (r : Result) → Same m r → Same m (to_user r)
to_user-Same m r h = elim (Bool-cases (r.code == 0)) [ inl t ↦ rw t h | inr f ↦ rw f h ]

remember-Same :
    (c : Env) (m : Mem) (d flags : ℕ) (r : Result) → Same m r → Same m (remember c d flags r)
unfolding remember
remember-Same c m d flags r h = elim (Bool-cases (c.has_memory r.mem.requests)) [
  | inl t ↦ rw t h
  | inr f ↦ rw f h
]

remote_map_body-IsBalanced :
    (c : Env) (fd : ℤ) (flags vaddrin size d : ℕ) (dev : Option ℕ)
    → IsBalanced 2 (remote_map_body c fd flags vaddrin size d dev)
unfolding remote_map_body
remote_map_body-IsBalanced c fd flags vaddrin size d none m room = refl
remote_map_body-IsBalanced c fd flags vaddrin size d (some dev) m room =
    let asked = ioctl_mmap (some dev) mmap_64 flags 0 fd (pos 0) size vaddrin in
    let mapped = mmap_internal c m (pos d) fd vaddrin (pos 0) size flags in
    let hm = mmap_internal-IsBalanced c (pos d) fd vaddrin (pos 0) size flags m room in
    elim (Bool-cases (is_heap flags)) [
      | inl t ↦
          rw (remote_map_body, t)
            (remember-Same c m d flags (do_ioctl c asked m) (do_ioctl-Same c asked m))
      | inr f ↦ elim (Bool-cases (mapped.code == 0)) [
        | inl u ↦ rw (remote_map_body, f, u) (remember-Same c m d flags mapped hm)
        | inr v ↦ rw (remote_map_body, f, v) hm
      ]
    ]

entry_done-Same :
    (m : Mem) (d : ℕ) (e : RemoteMap) (r : Result) → Same m r → Same m (entry_done d e r)
unfolding entry_done
entry_done-Same m d e r h = elim (Bool-cases (r.code == 0)) [ inl t ↦ rw t h | inr f ↦ rw f h ]

remote_unmap_body-IsBalanced :
    (c : Env) (vaddrout size d : ℕ) (dev : Option ℕ)
    → IsBalanced 2 (remote_unmap_body c vaddrout size d dev)
unfolding remote_unmap_body remote_map_lookup
remote_unmap_body-IsBalanced c vaddrout size d dev m room =
    let asked = ioctl_munmap dev munmap_64 (negsuc 0) size vaddrout in
    elim (Option-cases (find (has_vadsp vaddrout) (m.memlist d))) [
      | inl absent ↦ rw (remote_unmap_body, absent) (do_ioctl-Same c asked m)
      | inr (e, there) ↦
          let m' = set_memlist d (remove_first (has_vadsp vaddrout) (m.memlist d)) m in
          elim (Bool-cases (is_heap e.flags)) [
            | inl t ↦
                rw (remote_unmap_body, there, t)
                  (entry_done-Same m d e (do_ioctl c asked m') (do_ioctl-Same c asked m'))
            | inr f ↦
                rw (remote_unmap_body, there, f)
                  (entry_done-Same m d e (munmap_internal c m' (pos d) vaddrout)
                    (munmap_internal-IsBalanced c (pos d) vaddrout m' room))
          ]
    ]

-- From any state with three references to spare in each session: `fastrpc_mmap`, `fastrpc_munmap`, and
-- `remote_mmap64_internal` and `remote_munmap64`, which take a second reference in the calls that they
-- make, leave every session with the references that it had, on all their paths.
pub calls-IsBalanced :
    (c : Env) (m : Mem) (domain fd : ℤ) (vaddr : ℕ) (offset : ℤ) (size flags : ℕ)
    → Room 3 m.proc.hlist
    → ((fastrpc_mmap c m domain fd vaddr offset size flags).mem.proc.hlist ≡ m.proc.hlist)
      × ((fastrpc_munmap c m domain fd).mem.proc.hlist ≡ m.proc.hlist)
      × ((remote_mmap64_internal c m fd flags vaddr size).mem.proc.hlist ≡ m.proc.hlist)
      × ((remote_munmap64 c m vaddr size).mem.proc.hlist ≡ m.proc.hlist)
unfolding remote_mmap64_internal remote_munmap64
calls-IsBalanced c m domain fd vaddr offset size flags room =
    let d = current_domain m.proc in
    let mapping = remote_map_body c fd flags vaddr size d in
    let unmapping = remote_unmap_body c vaddr size d in
    let room2 = Room-less 2 m.proc.hlist room in
    (
      fastrpc_mmap-IsBalanced c domain fd vaddr offset size flags m room2,
      fastrpc_munmap-IsBalanced c domain fd m room2,
      to_user-Same m (once c (in_session d mapping) m) (
          once-IsBalanced 3 c (in_session d mapping)
            (in_session-IsBalanced 2 d mapping (remote_map_body-IsBalanced c fd flags vaddr size d))
            m room),
      to_user-Same m (once c (in_session d unmapping) m) (
          once-IsBalanced 3 c (in_session d unmapping)
            (in_session-IsBalanced 2 d unmapping (remote_unmap_body-IsBalanced c vaddr size d)) m
            room),
    )
