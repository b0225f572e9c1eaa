-- ===== src/Mem/Registry.antt =====
-- Registered buffers of src/fastrpc_mem.c: the list `fdlist`, the static mappings that follow a
-- registration, and what opening and closing a session does to both.
use fastrpc.Common.{
  ℕ, zero, suc, ◌+◌, ◌-◌, ◌%◌, ◌&&◌, ◌||◌, not, Bool, true, false, Option, none, some, List, [],
  ◌∷◌, ◌++◌, map, ltb, leb, ◌==◌, if◌then◌else◌, ℤ, pos, negsuc, put_at, find, remove_first,
  update_first, u64_mod, has_bit,
}
use fastrpc.DspQueue.State.{Outcome, ret, abort, aee_ebadparm}
use fastrpc.DspQueue.Refs.{num_domains_extend}
use fastrpc.Session.{is_valid_domain, session_get, session_put, session_dev}
use fastrpc.Ioctl.{ioctl_munmap, munmap_fd, aee_enomemory}
use fastrpc.Mem.{MemToFd, Env, Mem, do_ioctl}
use fastrpc.Mem.Static.{set_maps, fastrpc_mmap, fastrpc_munmap, map_static}

abbrev pub attr_keep_map : ℕ
attr_keep_map = 8

abbrev pub attr_try_map_static : ℕ
attr_try_map_static = 128

-- `fd == fd'` on file descriptors.
abbrev pub same_fd : ℤ → ℤ → Bool
same_fd (pos a) (pos b) = a == b
same_fd (pos a) (negsuc b) = false
same_fd (negsuc a) (pos b) = false
same_fd (negsuc a) (negsuc b) = a == b

-- FOR_EACH_EFFECTIVE_DOMAIN_ID over the `n` domains from `d` on.
unfoldable pub for_domains {ℓ} : {A : Type ℓ} → (ℕ → A → A) → ℕ → ℕ → A → A
for_domains step d zero a = a
for_domains step d (suc n) a = for_domains step (suc d) n (step d a)

-- A round of `fastrpc_unmap_fd`, with its tests `if (!nErr)` as they stand.
unfoldable pub unmap_fd_one : Env → ℕ → ℤ → ℕ → Mem → Mem
unmap_fd_one c size fd d m =
    let got = session_get d m.proc in
    let dev = session_dev d got.1 in
    let tried = (do_ioctl c (ioctl_munmap (dev.1) munmap_fd fd size 0) m).mem in
    if got.0 == 0
    then record m { proc = got.1 }
    else if dev.0 == 0
    then record m { proc = session_put d got.1 }
    else record tried { proc = session_put d got.1 }

-- `fastrpc_unmap_fd`, less its code, which its caller drops.
unfoldable pub unmap_fd : Env → ℕ → ℤ → Mem → Mem
unmap_fd c size fd m = for_domains (unmap_fd_one c size fd) 0 num_domains_extend m

-- A buffer's `mapped` with the state.
abbrev pub Mapped : Type 0
Mapped = (ℕ → Bool) × Mem

-- A round of `try_map_buffer`.
unfoldable pub try_map_one : Env → MemToFd → ℕ → Mapped → Mapped
try_map_one c e d (mapped, m) =
    let r = fastrpc_mmap c m (pos d) e.fd e.buf (pos 0) e.size map_static in
    (if r.code == 0 then put_at mapped d true else mapped, r.mem)

-- `try_map_buffer`
unfoldable pub try_map_buffer : Env → MemToFd → Mem → Mapped
try_map_buffer c e m = for_domains (try_map_one c e) 0 num_domains_extend (e.mapped, m)

-- A round of `try_unmap_buffer`.
unfoldable pub try_unmap_one : Env → ℤ → ℕ → Mapped → Mapped
try_unmap_one c fd d (mapped, m) =
    let r = fastrpc_munmap c m (pos d) fd in
    if mapped d then (if r.code == 0 then put_at mapped d false else mapped, r.mem) else (mapped, m)

-- `try_unmap_buffer`, less the number of errors, which its caller drops.
unfoldable pub try_unmap_buffer : Env → MemToFd → Mem → Mapped
try_unmap_buffer c e m = for_domains (try_unmap_one c e.fd) 0 num_domains_extend (e.mapped, m)

abbrev pub none_mapped : ℕ → Bool
none_mapped d = false

-- `remote_register_fd_attr`: `reserve` is what `mmap` of the range returns; the code and the address.
unfoldable pub register_fd : Env → Option ℕ → Mem → ℤ → ℕ → ℕ → Option ℕ × Mem
register_fd c reserve m (negsuc n) size attr = (none, m)
register_fd c none m (pos fd) size attr = (none, m)
register_fd c (some buf) m (pos fd) size attr =
    let entry : MemToFd = record {
      buf = buf;
      size = size;
      fd = pos fd;
      nova = true;
      attr = attr;
      refcount = 0;
      mapped = none_mapped;
    } in
    if c.init_once == 0 && c.has_memory m.requests
    then (some buf, record m { fdlist = m.fdlist ++ entry ∷ [] })
    else (none, m)

abbrev pub is_registered : ℕ → ℕ → ℤ → MemToFd → Bool
is_registered buf size fd e = e.buf == buf && (e.size == size && same_fd e.fd fd)

abbrev pub is_buffer : ℕ → ℕ → MemToFd → Bool
is_buffer buf size e = e.buf == buf && e.size == size

-- Another registration of an entry.
abbrev pub again : ℕ → MemToFd → MemToFd
again attr e = record e { attr = if attr == 0 then e.attr else attr; refcount = e.refcount + 1 }

abbrev pub new_entry : ℕ → ℕ → ℤ → ℕ → MemToFd
new_entry buf size fd attr = record {
  buf = buf;
  size = size;
  fd = fd;
  nova = false;
  attr = attr;
  refcount = 1;
  mapped = none_mapped;
}

-- The entry that a first registration appends, and the state once its static mappings are tried.
unfoldable pub add_entry : Env → MemToFd → Mem → Mem
unfolding try_map_buffer
add_entry c e m =
    let tried = try_map_buffer c e m in
    if has_bit e.attr attr_try_map_static
    then record tried.1 { fdlist = m.fdlist ++ record e { mapped = tried.0 } ∷ [] }
    else record m { fdlist = m.fdlist ++ e ∷ [] }

-- `remote_register_buf_common` for a file descriptor other than -1, on a buffer that is not null.
unfoldable pub register_buf : Env → Mem → ℕ → ℕ → ℤ → ℕ → ℕ × Mem
unfolding add_entry
register_buf c m buf size fd attr = elim (find (is_registered buf size fd) m.fdlist) [
  | some e ↦
      (0, record m { fdlist = update_first (is_registered buf size fd) (again attr) m.fdlist })
  | none ↦
      if c.has_memory m.requests
      then (0, add_entry c (new_entry buf size fd attr) m)
      else (aee_enomemory, m)
]

-- `addr_match_fd` is set: an entry of the address with another size stands before the buffer's own.
unfoldable pub has_mismatch : ℕ → ℕ → List MemToFd → Bool
has_mismatch buf size [] = false
has_mismatch buf size (e ∷ es) =
    let rest = has_mismatch buf size es in if e.buf == buf then not (e.size == size) else rest

-- What follows the last deregistration of `e`, which is no longer in the list.
unfoldable pub release : Env → MemToFd → Mem → Mem
unfolding unmap_fd try_unmap_buffer
release c e m =
    let m' = if has_bit e.attr attr_keep_map then unmap_fd c e.size e.fd m else m in
    if has_bit e.attr attr_try_map_static then (try_unmap_buffer c e m').1 else m'

-- The range that is given back with `munmap`.
abbrev pub reserved : MemToFd → Option (ℕ × ℕ)
reserved e = if e.nova then some (e.buf, e.size) else none

abbrev pub one_less : MemToFd → MemToFd
one_less e = record e { refcount = e.refcount - 1 }

-- `remote_register_buf_common` for the file descriptor -1; `raise(SIGABRT)` aborts.
unfoldable pub deregister_buf : Env → Mem → ℕ → ℕ → Outcome (Mem × Option (ℕ × ℕ))
unfolding has_mismatch release
deregister_buf c m buf size = elim (find (is_buffer buf size) m.fdlist) [
  | none ↦ if has_mismatch buf size m.fdlist then abort else ret 0 (m, none)
  | some e ↦
      let kept = record m { fdlist = update_first (is_buffer buf size) one_less m.fdlist } in
      let gone = record m { fdlist = remove_first (is_buffer buf size) m.fdlist } in
      if ltb 1 e.refcount
      then (if has_mismatch buf size m.fdlist then abort else ret 0 (kept, none))
      else ret 0 (release c e gone, reserved e)
]

-- `remote_register_buf_common`
unfoldable pub register_buf_common : Env → Mem → ℕ → ℕ → ℤ → ℕ → Outcome (Mem × Option (ℕ × ℕ))
unfolding register_buf deregister_buf
register_buf_common c m buf size fd attr =
    let r = register_buf c m buf size fd attr in
    if c.init_once == 0
    then (if buf == 0 || size == 0
        then ret aee_ebadparm (m, none)
        else if same_fd fd (negsuc 0)
        then deregister_buf c m buf size
        else ret (r.0) (r.1, none))
    else ret c.init_once (m, none)

-- STD_BETWEEN of inc/AEEstd.h on 64-bit words.
abbrev pub std_between : ℕ → ℕ → ℕ → Bool
std_between val lo hi =
    leb lo val && ltb ((val + u64_mod - lo) % u64_mod) ((hi + u64_mod - lo) % u64_mod)

-- `fdlist_fd_from_buf` for `len` not negative: the code, and the entry whose `fd`, `nova`, `buf` and
-- `attr` are handed out. No entry has the file descriptor -1, which a registration takes for none.
unfoldable pub fd_from_buf : List MemToFd → ℕ → ℕ → ℕ × Option MemToFd
fd_from_buf [] buf len = (0, none)
fd_from_buf (e ∷ es) buf len =
    let rest = fd_from_buf es buf len in
    let end = (e.buf + e.size) % u64_mod in
    if std_between buf e.buf end
    then (if std_between ((buf + len + u64_mod - 1) % u64_mod) e.buf end
        then (0, some e)
        else (aee_ebadparm, none))
    else rest

-- The loop of `fastrpc_mem_open` over the registered buffers.
unfoldable pub open_list : Env → ℕ → List MemToFd → Mem → List MemToFd × Mem
open_list c d [] m = ([], m)
open_list c d (e ∷ es) m =
    let r = fastrpc_mmap c m (pos d) e.fd e.buf (pos 0) e.size map_static in
    let tries = has_bit e.attr attr_try_map_static && not (e.mapped d) in
    let e' = if tries && r.code == 0 then record e { mapped = put_at e.mapped d true } else e in
    let rest = open_list c d es (if tries then r.mem else m) in (e' ∷ rest.0, rest.1)

-- `fastrpc_mem_open`
unfoldable pub mem_open : Env → Mem → ℕ → ℕ × Mem
unfolding open_list
mem_open c m d =
    let r = open_list c d m.fdlist m in
    if is_valid_domain d then (0, record r.1 { fdlist = r.0 }) else (aee_ebadparm, m)

abbrev pub unmapped : ℕ → MemToFd → MemToFd
unmapped d e = if e.mapped d then record e { mapped = put_at e.mapped d false } else e

-- `fastrpc_mem_close`, which leaves `memlist` as it is.
unfoldable pub mem_close : Mem → ℕ → ℕ × Mem
mem_close m d =
    let m' = set_maps d [] m in
    if is_valid_domain d
    then (0, record m' { fdlist = map (unmapped d) m.fdlist })
    else (aee_ebadparm, m)
