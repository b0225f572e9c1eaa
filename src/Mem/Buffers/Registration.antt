-- ===== src/Mem/Buffers/Registration.antt =====
-- A registration of a buffer that is taken back.
use fastrpc.Common.{
  ℕ, ◌≡◌, refl, ap, ◌∙◌, Bool, true, false, Bool-cases, none, some, inl, inr, List, [], ◌∷◌, ◌++◌,
  ltb, ◌==◌, ◌&&◌, ◌||◌, not, if◌then◌else◌, if_keeps, ℤ, pos, negsuc, put_at, find, find-append,
  remove_first-append, remove_first, arith, has_bit,
}
use fastrpc.DspQueue.State.{ret, aee_ebadparm}
use fastrpc.DspQueue.Refs.{num_domains_extend}
use fastrpc.Session.{session_get, session_dev}
use fastrpc.Ioctl.{Call, call, unknown, ioctl_munmap, munmap_fd}
use fastrpc.Mem.{Mem, Env, MemToFd, Result, failed, do_ioctl, once}
use fastrpc.Mem.Static.{fastrpc_mmap, fastrpc_munmap, map_static}
use fastrpc.Mem.Mapping.{fastrpc_mmap-MapsOne}
use fastrpc.Mem.Mapping.Removal.{fastrpc_munmap-UnmapsOne}
use fastrpc.Mem.Registry.{
  unmap_fd_one, unmap_fd, Mapped, try_map_one, try_map_buffer, try_unmap_one, try_unmap_buffer,
  is_registered, is_buffer, new_entry, add_entry, register_buf, release, deregister_buf,
  register_buf_common, same_fd, attr_try_map_static, attr_keep_map, reserved,
}
use fastrpc.Mem.Invariant.Buffers.{for_domains_keeps}

-- The list of registered buffers is `es`.
abbrev Keeps : List MemToFd → Mem → Type 0
Keeps es m = m.fdlist ≡ es

abbrev KeepsMapped : List MemToFd → Mapped → Type 0
KeepsMapped es x = x.1.fdlist ≡ es

refused-fdlist : (c : Env) (m : Mem) (code : ℕ) → (once c (failed code) m).mem.fdlist ≡ m.fdlist
refused-fdlist c m code = elim (Bool-cases (c.init_once == 0)) [
  | inl t ↦ rw t refl
  | inr f ↦ rw f refl
]

fastrpc_mmap-fdlist :
    (c : Env) (m : Mem) (domain fd : ℤ) (vaddr : ℕ) (offset : ℤ) (length flags : ℕ)
    → (fastrpc_mmap c m domain fd vaddr offset length flags).mem.fdlist ≡ m.fdlist
unfolding fastrpc_mmap
fastrpc_mmap-fdlist c m domain (pos fd) vaddr offset length flags =
    let one = fastrpc_mmap-MapsOne c m domain fd vaddr offset length flags in one.0.1
fastrpc_mmap-fdlist c m domain (negsuc n) vaddr offset length flags =
    refused-fdlist c m aee_ebadparm

fastrpc_munmap-fdlist :
    (c : Env) (m : Mem) (domain fd : ℤ) → (fastrpc_munmap c m domain fd).mem.fdlist ≡ m.fdlist
unfolding fastrpc_munmap
fastrpc_munmap-fdlist c m domain (pos fd) =
    let one = fastrpc_munmap-UnmapsOne c m domain fd in one.0.1
fastrpc_munmap-fdlist c m domain (negsuc n) =
    let r = once c (failed aee_ebadparm) m in
    if_keeps (λ (r : Result). r.mem.fdlist ≡ m.fdlist) (not (r.code == 0) && r.ioc_err == 0)
      (record r { mem = record r.mem { errno = 0 } }) r (refused-fdlist c m aee_ebadparm)
      (refused-fdlist c m aee_ebadparm)

do_ioctl-fdlist : (c : Env) (k : Call) (m : Mem) → (do_ioctl c k m).mem.fdlist ≡ m.fdlist
unfolding do_ioctl
do_ioctl-fdlist c (unknown code) m = refl
do_ioctl-fdlist c (call req) m = refl

module _ (c : Env) (es : List MemToFd) where
  unmap_fd_one-Keeps :
      (size : ℕ) (fd : ℤ) (d : ℕ) (m : Mem) → Keeps es m → Keeps es (unmap_fd_one c size fd d m)
  unfolding unmap_fd_one
  unmap_fd_one-Keeps size fd d m h =
      let got = session_get d m.proc in
      let dev = session_dev d got.1 in
      elim (Bool-cases (got.0 == 0)) [
        | inl t ↦ rw (unmap_fd_one, t) h
        | inr f ↦ elim (Bool-cases (dev.0 == 0)) [
          | inl u ↦ rw (unmap_fd_one, f, u) h
          | inr v ↦
              rw (unmap_fd_one, f, v)
                (do_ioctl-fdlist c (ioctl_munmap (dev.1) munmap_fd fd size 0) m ∙ h)
        ]
      ]

  try_map_one-Keeps :
      (e : MemToFd) (d : ℕ) (x : Mapped) → KeepsMapped es x → KeepsMapped es (try_map_one c e d x)
  unfolding try_map_one
  try_map_one-Keeps e d (mapped, m) h =
      fastrpc_mmap-fdlist c m (pos d) e.fd e.buf (pos 0) e.size map_static ∙ h

  try_unmap_one-Keeps :
      (fd : ℤ) (d : ℕ) (x : Mapped) → KeepsMapped es x → KeepsMapped es (try_unmap_one c fd d x)
  unfolding try_unmap_one
  try_unmap_one-Keeps fd d (mapped, m) h =
      let r = fastrpc_munmap c m (pos d) fd in
      let done : Mapped = (if r.code == 0 then put_at mapped d false else mapped, r.mem) in
      if_keeps (KeepsMapped es) (mapped d) done (mapped, m)
        (fastrpc_munmap-fdlist c m (pos d) fd ∙ h) h

  release-Keeps : (e : MemToFd) (m : Mem) → Keeps es m → Keeps es (release c e m)
  unfolding release unmap_fd try_unmap_buffer
  release-Keeps e m h =
      let m' = if has_bit e.attr attr_keep_map then unmap_fd c e.size e.fd m else m in
      let h' =
        if_keeps (Keeps es) (has_bit e.attr attr_keep_map) (unmap_fd c e.size e.fd m) m
          (for_domains_keeps (Keeps es) (unmap_fd_one c e.size e.fd) 0 num_domains_extend m
            (unmap_fd_one-Keeps e.size e.fd) h)
          h in
      if_keeps (Keeps es) (has_bit e.attr attr_try_map_static) ((try_unmap_buffer c e m').1) m'
        (for_domains_keeps (KeepsMapped es) (try_unmap_one c e.fd) 0 num_domains_extend
          (e.mapped, m') (try_unmap_one-Keeps e.fd) h')
        h'

-- The entry of a first registration, with any record of the domains that it is mapped on.
abbrev pub entry_with : ℕ → ℕ → ℤ → ℕ → (ℕ → Bool) → MemToFd
entry_with buf size fd attr mapped = record (new_entry buf size fd attr) { mapped = mapped }

-- The entry that is added is the last of the list.
add_entry-last :
    (c : Env) (m : Mem) (buf size : ℕ) (fd : ℤ) (attr : ℕ)
    → (mapped : ℕ → Bool) × ((add_entry c (new_entry buf size fd attr) m).fdlist
        ≡ m.fdlist ++ entry_with buf size fd attr mapped ∷ [])
unfolding add_entry
add_entry-last c m buf size fd attr =
    let e = new_entry buf size fd attr in
    elim (Bool-cases (has_bit attr attr_try_map_static)) [
      | inl t ↦ ((try_map_buffer c e m).0, rw (add_entry, t) refl)
      | inr f ↦ (e.mapped, rw (add_entry, f) refl)
    ]

absent_both :
    (buf size : ℕ) (fd : ℤ) (es : List MemToFd)
    → find (λ e. e.buf == buf) es ≡ none
    → (find (is_registered buf size fd) es ≡ none) × (find (is_buffer buf size) es ≡ none)
unfolding find
absent_both buf size fd [] h = (refl, refl)
absent_both buf size fd (e ∷ es) h = elim (Bool-cases (e.buf == buf)) [
  | inl t ↦ absurd (ground arith)
  | inr f ↦ rw f (absent_both buf size fd es (ground arith))
]

-- What the calls need: `fastrpc_init_once` returns 0, and the buffer is neither null nor empty.
register_first :
    (c : Env) (m : Mem) (buf size : ℕ) (fd : ℤ) (attr : ℕ)
    → c.init_once ≡ 0
    → (buf == 0 || size == 0) ≡ false
    → same_fd fd (negsuc 0) ≡ false
    → c.has_memory m.requests ≡ true
    → find (is_registered buf size fd) m.fdlist ≡ none
    → register_buf_common c m buf size fd attr
      ≡ ret 0 (add_entry c (new_entry buf size fd attr) m, none)
unfolding register_buf_common register_buf
register_first c m buf size fd attr i n f r absent =
    let t : (c.init_once == 0) ≡ true = ground arith in
    let added : register_buf c m buf size fd attr
        ≡ (0, add_entry c (new_entry buf size fd attr) m) =
      rw (register_buf, absent, r) refl in
    rw (register_buf_common, t, n, f, added) refl

deregister_last :
    (c : Env) (m : Mem) (buf size : ℕ) (e : MemToFd)
    → c.init_once ≡ 0
    → (buf == 0 || size == 0) ≡ false
    → find (is_buffer buf size) m.fdlist ≡ some e
    → e.refcount ≡ 1
    → register_buf_common c m buf size (negsuc 0) 0
      ≡ ret 0 (
        release c e (record m { fdlist = remove_first (is_buffer buf size) m.fdlist }),
        reserved e,
      )
unfolding register_buf_common deregister_buf
deregister_last c m buf size e i n there one =
    let t : (c.init_once == 0) ≡ true = ground arith in
    let u : ltb 1 e.refcount ≡ false = ground arith in
    let gone : deregister_buf c m buf size
        ≡ ret 0 (
          release c e (record m { fdlist = remove_first (is_buffer buf size) m.fdlist }),
          reserved e,
        ) =
      rw (deregister_buf, there, u) refl in
    rw (register_buf_common, t, n) gone

-- Once the process is initialised, for a buffer that is neither null nor empty, a file descriptor other
-- than -1, memory for the entry, and no registered buffer at this address: registering the buffer with
-- any attributes and deregistering it returns 0 both times, whatever the driver does, and leaves the list
-- of registered buffers as it was.
pub deregister-register :
    (c c' : Env) (m : Mem) (buf size : ℕ) (fd : ℤ) (attr : ℕ)
    → c.init_once ≡ 0
    → c'.init_once ≡ 0
    → (buf == 0 || size == 0) ≡ false
    → same_fd fd (negsuc 0) ≡ false
    → c.has_memory m.requests ≡ true
    → find (λ e. e.buf == buf) m.fdlist ≡ none
    → (m' : Mem) × (register_buf_common c m buf size fd attr ≡ ret 0 (m', none))
      × ((m'' : Mem) × (register_buf_common c' m' buf size (negsuc 0) 0 ≡ ret 0 (m'', none))
          × (m''.fdlist ≡ m.fdlist))
deregister-register c c' m buf size fd attr i i' n f r absent =
    let both = absent_both buf size fd m.fdlist absent in
    let m' = add_entry c (new_entry buf size fd attr) m in
    let last = add_entry-last c m buf size fd attr in
    let e = entry_with buf size fd attr last.0 in
    let self : (buf == buf && size == size) ≡ true = ground arith in
    let there : find (is_buffer buf size) m'.fdlist ≡ some e =
      ap (find (is_buffer buf size)) last.1
      ∙ find-append (is_buffer buf size) m.fdlist e both.1 self in
    let gone = record m' { fdlist = remove_first (is_buffer buf size) m'.fdlist } in
    let left : gone.fdlist ≡ m.fdlist =
      ap (remove_first (is_buffer buf size)) last.1
      ∙ remove_first-append (is_buffer buf size) m.fdlist e both.1 self in
    (
      m',
      register_first c m buf size fd attr i n f r both.0,
      (
        release c' e gone,
        deregister_last c' m' buf size e i' n there refl,
        release-Keeps c' m.fdlist e gone left,
      ),
    )
