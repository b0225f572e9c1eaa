-- ===== src/Mem/Invariant/Steps.antt =====
-- The steps of src/fastrpc_mem.c, in any order and with any answers of the driver.
use fastrpc.Common.{ℕ, ◌≡◌, subst, Bool-cases, Option, inl, inr, ℤ, List, [], ltb}
use fastrpc.DspQueue.State.{StaticMap, ret}
use fastrpc.DspQueue.Refs.{RefChange, buffer_ref}
use fastrpc.Session.{Process}
use fastrpc.Mem.{Mem, Env}
use fastrpc.Mem.Static.{set_maps, fastrpc_mmap, fastrpc_munmap, mmap_internal, munmap_internal}
use fastrpc.Mem.Remote.{remote_mem_map, remote_mem_unmap, remote_mmap64_internal, remote_munmap64}
use fastrpc.Mem.Registry.{register_fd, register_buf_common, mem_open, mem_close}
use fastrpc.Mem.Fds.{IsDistinct, ref_list-IsDistinct}
use fastrpc.Mem.Invariant.{
  IsMappedOnce, put_at-IsDistinct, fastrpc_mmap-IsMappedOnce, mmap_internal-IsMappedOnce,
  fastrpc_munmap-IsMappedOnce, munmap_internal-IsMappedOnce,
}
use fastrpc.Mem.Invariant.Remote.{
  remote_mem_map-IsMappedOnce, remote_mem_unmap-IsMappedOnce, remote_mmap64_internal-IsMappedOnce,
  remote_munmap64-IsMappedOnce,
}
use fastrpc.Mem.Invariant.Buffers.{
  OutcomeMappedOnce, register_buf_common-MappedOnce, register_fd-IsMappedOnce,
  mem_open-IsMappedOnce, mem_close-IsMappedOnce,
}

-- `fastrpc_mem_init` on its lists, for a process with its sessions.
abbrev pub mem_init : Process → Mem
mem_init p = record {
  proc = p;
  errno = 0;
  requests = [];
  maps = λ d. [];
  memlist = λ d. [];
  fdlist = [];
}

-- `fastrpc_buffer_ref` on the lists of all domains.
abbrev pub refer : ℕ → ℕ → RefChange → Mem → Mem
refer d fd change m = set_maps d (buffer_ref d (m.maps d) fd change).maps m

-- A call of one of the operations, or a change of the sessions and `errno` by the rest of the process.
pub data Step : Mem → Mem → Type 0 where
  map_step :
      (c : Env) (m : Mem) (domain fd : ℤ) (vaddr : ℕ) (offset : ℤ) (length flags : ℕ)
      → Step m (fastrpc_mmap c m domain fd vaddr offset length flags).mem
  map_internal_step :
      (c : Env) (m : Mem) (domain fd : ℤ) (vaddr : ℕ) (offset : ℤ) (length flags : ℕ)
      → Step m (mmap_internal c m domain fd vaddr offset length flags).mem
  unmap_step : (c : Env) (m : Mem) (domain fd : ℤ) → Step m (fastrpc_munmap c m domain fd).mem
  unmap_internal_step :
      (c : Env) (m : Mem) (domain : ℤ) (raddr : ℕ) → Step m (munmap_internal c m domain raddr).mem
  mem_map_step :
      (c : Env) (m : Mem) (domain fd flags : ℤ) (vaddr size : ℕ)
      → Step m (remote_mem_map c m domain fd flags vaddr size).mem
  mem_unmap_step :
      (c : Env) (m : Mem) (domain : ℤ) (raddr size : ℕ)
      → Step m (remote_mem_unmap c m domain raddr size).mem
  remote_map_step :
      (c : Env) (m : Mem) (fd : ℤ) (flags vaddrin size : ℕ)
      → Step m (remote_mmap64_internal c m fd flags vaddrin size).mem
  remote_unmap_step :
      (c : Env) (m : Mem) (vaddrout size : ℕ) → Step m (remote_munmap64 c m vaddrout size).mem
  register_fd_step :
      (c : Env) (reserve : Option ℕ) (m : Mem) (fd : ℤ) (size attr : ℕ)
      → Step m (register_fd c reserve m fd size attr).1
  register_step :
      (c : Env) (m m' : Mem) (buf size : ℕ) (fd : ℤ) (attr code : ℕ) (range : Option (ℕ × ℕ))
      → register_buf_common c m buf size fd attr ≡ ret code (m', range)
      → Step m m'
  open_step : (c : Env) (m : Mem) (d : ℕ) → Step m (mem_open c m d).1
  close_step : (m : Mem) (d : ℕ) → Step m (mem_close m d).1
  refer_step : (m : Mem) (d fd : ℕ) (change : RefChange) → Step m (refer d fd change m)
  other_step : (m : Mem) (p : Process) (e : ℕ) → Step m (record m { proc = p; errno = e })

pub data Reach (m : Mem) : Mem → Type 0 where
  here : Reach m m
  next : {s t : Mem} → Reach m s → Step s t → Reach m t

buffer_ref-IsDistinct :
    (d fd : ℕ) (change : RefChange) (ns : List StaticMap)
    → IsDistinct ns
    → IsDistinct (buffer_ref d ns fd change).maps
unfolding buffer_ref
buffer_ref-IsDistinct d fd change ns h = elim (Bool-cases (ltb d 32)) [
  | inl t ↦ rw (buffer_ref, t) (ref_list-IsDistinct fd change ns h)
  | inr f ↦ rw (buffer_ref, f) h
]

Step-IsMappedOnce : {m m' : Mem} → Step m m' → IsMappedOnce m → IsMappedOnce m'
Step-IsMappedOnce (map_step c m domain fd vaddr offset length flags) h =
    fastrpc_mmap-IsMappedOnce domain c m h fd vaddr offset length flags
Step-IsMappedOnce (map_internal_step c m domain fd vaddr offset length flags) h =
    mmap_internal-IsMappedOnce domain c m h fd vaddr offset length flags
Step-IsMappedOnce (unmap_step c m domain fd) h = fastrpc_munmap-IsMappedOnce domain c m h fd
Step-IsMappedOnce (unmap_internal_step c m domain raddr) h =
    munmap_internal-IsMappedOnce domain c m h raddr
Step-IsMappedOnce (mem_map_step c m domain fd flags vaddr size) h =
    remote_mem_map-IsMappedOnce c m h domain fd flags vaddr size
Step-IsMappedOnce (mem_unmap_step c m domain raddr size) h =
    remote_mem_unmap-IsMappedOnce c m h domain raddr size
Step-IsMappedOnce (remote_map_step c m fd flags vaddrin size) h =
    remote_mmap64_internal-IsMappedOnce c m h fd flags vaddrin size
Step-IsMappedOnce (remote_unmap_step c m vaddrout size) h =
    remote_munmap64-IsMappedOnce c m h vaddrout size
Step-IsMappedOnce (register_fd_step c reserve m fd size attr) h =
    register_fd-IsMappedOnce c reserve m fd size attr h
Step-IsMappedOnce (register_step c m m' buf size fd attr code range e) h =
    subst OutcomeMappedOnce e (register_buf_common-MappedOnce c m buf size fd attr h)
Step-IsMappedOnce (open_step c m d) h = mem_open-IsMappedOnce c m d h
Step-IsMappedOnce (close_step m d) h = mem_close-IsMappedOnce m d h
Step-IsMappedOnce (refer_step m d fd change) h =
    put_at-IsDistinct m.maps d (buffer_ref d (m.maps d) fd change).maps h
      (buffer_ref-IsDistinct d fd change (m.maps d) (h d))
Step-IsMappedOnce (other_step m p e) h = h

reached-IsMappedOnce : {m m' : Mem} → IsMappedOnce m → Reach m m' → IsMappedOnce m'
reached-IsMappedOnce h here = h
reached-IsMappedOnce h (next r s) = Step-IsMappedOnce s (reached-IsMappedOnce h r)

-- Whatever operations follow `fastrpc_mem_init`, with whatever answers of the driver: no file descriptor
-- is ever in the mapping list of a domain twice.
pub Reach-IsDistinct :
    (p : Process) (m : Mem) (d : ℕ) → Reach (mem_init p) m → IsDistinct (m.maps d)
Reach-IsDistinct p m d r = reached-IsMappedOnce (λ d. tt) r d
