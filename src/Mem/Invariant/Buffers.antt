-- ===== src/Mem/Invariant/Buffers.antt =====
-- Registering buffers, and opening and closing sessions, keep each file descriptor mapped at most once.
use fastrpc.Common.{
  ℕ, zero, suc, false, Bool-cases, Option, none, some, inl, inr, ℤ, pos, negsuc, ◌==◌, ltb,
  if◌then◌else◌, if_keeps, Option-cases, not, ◌&&◌, ◌||◌, List, [], ◌∷◌, ◌++◌, find, remove_first,
  put_at, has_bit,
}
use fastrpc.DspQueue.State.{Outcome, ret, abort}
use fastrpc.DspQueue.Refs.{num_domains_extend}
use fastrpc.Session.{session_get, session_put, session_dev, is_valid_domain}
use fastrpc.Ioctl.{ioctl_munmap, munmap_fd}
use fastrpc.Mem.{Mem, Env, MemToFd, do_ioctl}
use fastrpc.Mem.Static.{fastrpc_mmap, fastrpc_munmap, map_static}
use fastrpc.Mem.Registry.{
  for_domains, unmap_fd_one, unmap_fd, Mapped, try_map_one, try_map_buffer, try_unmap_one,
  try_unmap_buffer, register_fd, add_entry, register_buf, release, deregister_buf,
  register_buf_common, open_list, mem_open, mem_close, is_registered, new_entry, is_buffer,
  has_mismatch, attr_try_map_static, attr_keep_map, same_fd,
}
use fastrpc.Mem.Invariant.{
  IsMappedOnce, put_at-IsDistinct, fastrpc_mmap-IsMappedOnce, fastrpc_munmap-IsMappedOnce,
}
use fastrpc.Mem.Invariant.Remote.{do_ioctl-IsMappedOnce}

-- A predicate that every round keeps.
pub for_domains_keeps {ℓ} :
    {A : Type ℓ} (p : A → Type 0) (step : ℕ → A → A) (d n : ℕ) (a : A)
    → ((d : ℕ) (a : A) → p a → p (step d a))
    → p a
    → p (for_domains step d n a)
unfolding for_domains
for_domains_keeps p step d zero a hs h = h
for_domains_keeps p step d (suc n) a hs h =
    for_domains_keeps p step (suc d) n (step d a) hs (hs d a h)

-- The predicate on what a registration comes to.
abbrev pub OutcomeMappedOnce : Outcome (Mem × Option (ℕ × ℕ)) → Type 0
OutcomeMappedOnce (ret code (m, range)) = IsMappedOnce m
OutcomeMappedOnce abort = Unit

module _ (c : Env) where
  unmap_fd_one-IsMappedOnce :
      (size : ℕ) (fd : ℤ) (d : ℕ) (m : Mem)
      → IsMappedOnce m
      → IsMappedOnce (unmap_fd_one c size fd d m)
  unfolding unmap_fd_one
  unmap_fd_one-IsMappedOnce size fd d m h =
      let got = session_get d m.proc in
      let dev = session_dev d got.1 in
      let tried = (do_ioctl c (ioctl_munmap (dev.1) munmap_fd fd size 0) m).mem in
      if_keeps IsMappedOnce (got.0 == 0) (record m { proc = got.1 })
        (if dev.0 == 0
          then record m { proc = session_put d got.1 }
          else record tried { proc = session_put d got.1 })
        h
        (if_keeps IsMappedOnce (dev.0 == 0) (record m { proc = session_put d got.1 })
          (record tried { proc = session_put d got.1 }) h
          (do_ioctl-IsMappedOnce c (ioctl_munmap (dev.1) munmap_fd fd size 0) m h))

  abbrev MappedOnce : Mapped → Type 0
  MappedOnce x = IsMappedOnce x.1

  try_map_one-IsMappedOnce :
      (e : MemToFd) (d : ℕ) (x : Mapped) → MappedOnce x → MappedOnce (try_map_one c e d x)
  unfolding try_map_one
  try_map_one-IsMappedOnce e d (mapped, m) h =
      fastrpc_mmap-IsMappedOnce (pos d) c m h e.fd e.buf (pos 0) e.size map_static

  try_unmap_one-IsMappedOnce :
      (fd : ℤ) (d : ℕ) (x : Mapped) → MappedOnce x → MappedOnce (try_unmap_one c fd d x)
  unfolding try_unmap_one
  try_unmap_one-IsMappedOnce fd d (mapped, m) h =
      let r = fastrpc_munmap c m (pos d) fd in
      let done : Mapped = (if r.code == 0 then put_at mapped d false else mapped, r.mem) in
      if_keeps MappedOnce (mapped d) done (mapped, m) (fastrpc_munmap-IsMappedOnce (pos d) c m h fd)
        h

  add_entry-IsMappedOnce : (e : MemToFd) (m : Mem) → IsMappedOnce m → IsMappedOnce (add_entry c e m)
  unfolding add_entry try_map_buffer
  add_entry-IsMappedOnce e m h =
      let tried = try_map_buffer c e m in
      if_keeps IsMappedOnce (has_bit e.attr attr_try_map_static)
        (record tried.1 { fdlist = m.fdlist ++ record e { mapped = tried.0 } ∷ [] })
        (record m { fdlist = m.fdlist ++ e ∷ [] })
        (for_domains_keeps MappedOnce (try_map_one c e) 0 num_domains_extend (e.mapped, m)
          (try_map_one-IsMappedOnce e) h)
        h

  release-IsMappedOnce : (e : MemToFd) (m : Mem) → IsMappedOnce m → IsMappedOnce (release c e m)
  unfolding release unmap_fd try_unmap_buffer
  release-IsMappedOnce e m h =
      let m' = if has_bit e.attr attr_keep_map then unmap_fd c e.size e.fd m else m in
      let h' =
        if_keeps IsMappedOnce (has_bit e.attr attr_keep_map) (unmap_fd c e.size e.fd m) m
          (for_domains_keeps IsMappedOnce (unmap_fd_one c e.size e.fd) 0 num_domains_extend m
            (unmap_fd_one-IsMappedOnce e.size e.fd) h)
          h in
      if_keeps IsMappedOnce (has_bit e.attr attr_try_map_static) ((try_unmap_buffer c e m').1) m'
        (for_domains_keeps MappedOnce (try_unmap_one c e.fd) 0 num_domains_extend (e.mapped, m')
          (try_unmap_one-IsMappedOnce e.fd) h')
        h'

  register_buf-IsMappedOnce :
      (m : Mem) (buf size : ℕ) (fd : ℤ) (attr : ℕ)
      → IsMappedOnce m
      → IsMappedOnce (register_buf c m buf size fd attr).1
  unfolding register_buf
  register_buf-IsMappedOnce m buf size fd attr h =
      elim (Option-cases (find (is_registered buf size fd) m.fdlist)) [
        | inr (e, there) ↦ rw (register_buf, there) h
        | inl absent ↦ elim (Bool-cases (c.has_memory m.requests)) [
          | inr f ↦ rw (register_buf, absent, f) h
          | inl t ↦
              rw (register_buf, absent, t) (add_entry-IsMappedOnce (new_entry buf size fd attr) m h)
        ]
      ]

  deregister_buf-MappedOnce :
      (m : Mem) (buf size : ℕ) → IsMappedOnce m → OutcomeMappedOnce (deregister_buf c m buf size)
  unfolding deregister_buf
  deregister_buf-MappedOnce m buf size h =
      elim (Option-cases (find (is_buffer buf size) m.fdlist)) [
        | inl absent ↦ elim (Bool-cases (has_mismatch buf size m.fdlist)) [
          | inl t ↦ rw (deregister_buf, absent, t) tt
          | inr f ↦ rw (deregister_buf, absent, f) h
        ]
        | inr (e, there) ↦ elim (Bool-cases (ltb 1 e.refcount)) [
          | inl t ↦ elim (Bool-cases (has_mismatch buf size m.fdlist)) [
            | inl u ↦ rw (deregister_buf, there, t, u) tt
            | inr v ↦ rw (deregister_buf, there, t, v) h
          ]
          | inr f ↦
              rw (deregister_buf, there, f)
                (release-IsMappedOnce e
                  (record m { fdlist = remove_first (is_buffer buf size) m.fdlist }) h)
        ]
      ]

  pub register_buf_common-MappedOnce :
      (m : Mem) (buf size : ℕ) (fd : ℤ) (attr : ℕ)
      → IsMappedOnce m
      → OutcomeMappedOnce (register_buf_common c m buf size fd attr)
  unfolding register_buf_common
  register_buf_common-MappedOnce m buf size fd attr h = elim (Bool-cases (c.init_once == 0)) [
    | inr f ↦ rw (register_buf_common, f) h
    | inl t ↦ elim (Bool-cases (buf == 0 || size == 0)) [
      | inl z ↦ rw (register_buf_common, t, z) h
      | inr u ↦ elim (Bool-cases (same_fd fd (negsuc 0))) [
        | inl w ↦ rw (register_buf_common, t, u, w) (deregister_buf-MappedOnce m buf size h)
        | inr v ↦ rw (register_buf_common, t, u, v) (register_buf-IsMappedOnce m buf size fd attr h)
      ]
    ]
  ]

  pub register_fd-IsMappedOnce :
      (reserve : Option ℕ) (m : Mem) (fd : ℤ) (size attr : ℕ)
      → IsMappedOnce m
      → IsMappedOnce (register_fd c reserve m fd size attr).1
  unfolding register_fd
  register_fd-IsMappedOnce reserve m (negsuc n) size attr h = h
  register_fd-IsMappedOnce none m (pos fd) size attr h = h
  register_fd-IsMappedOnce (some buf) m (pos fd) size attr h =
      elim (Bool-cases (c.init_once == 0 && c.has_memory m.requests)) [
        | inl t ↦ rw (register_fd, t) h
        | inr f ↦ rw (register_fd, f) h
      ]

  open_list-IsMappedOnce :
      (d : ℕ) (es : List MemToFd) (m : Mem) → IsMappedOnce m → IsMappedOnce (open_list c d es m).1
  unfolding open_list
  open_list-IsMappedOnce d [] m h = h
  open_list-IsMappedOnce d (e ∷ es) m h =
      let r = fastrpc_mmap c m (pos d) e.fd e.buf (pos 0) e.size map_static in
      let tries = has_bit e.attr attr_try_map_static && not (e.mapped d) in
      open_list-IsMappedOnce d es (if tries then r.mem else m) (
        if_keeps IsMappedOnce tries r.mem m
          (fastrpc_mmap-IsMappedOnce (pos d) c m h e.fd e.buf (pos 0) e.size map_static) h)

  pub mem_open-IsMappedOnce : (m : Mem) (d : ℕ) → IsMappedOnce m → IsMappedOnce (mem_open c m d).1
  unfolding mem_open
  mem_open-IsMappedOnce m d h = elim (Bool-cases (is_valid_domain d)) [
    | inl t ↦ rw (mem_open, t) (open_list-IsMappedOnce d m.fdlist m h)
    | inr f ↦ rw (mem_open, f) h
  ]

pub mem_close-IsMappedOnce : (m : Mem) (d : ℕ) → IsMappedOnce m → IsMappedOnce (mem_close m d).1
unfolding mem_close
mem_close-IsMappedOnce m d h = elim (Bool-cases (is_valid_domain d)) [
  | inl t ↦ rw (mem_close, t) (put_at-IsDistinct m.maps d [] h tt)
  | inr f ↦ rw (mem_close, f) h
]
