-- ===== src/Mem/Tests.antt =====
-- The properties of src/fastrpc_mem.c at concrete inputs: one open session on domain 3, a driver that
-- accepts everything, and the file descriptor 5.
use fastrpc.Common.{
  ℕ, ◌+◌, ◌%◌, ◌<◌, ◌≡◌, ◌≢◌, refl, true, false, not, none, some, inl, inr, List, [], ◌∷◌, ◌==◌,
  pos, negsuc, find, arith, u32_mod,
}
use fastrpc.DspQueue.State.{ret}
use fastrpc.DspQueue.Refs.{gain, lose, buffer_ref}
use fastrpc.Session.{Session, Process}
use fastrpc.Mem.{Env, Mem, MemToFd}
use fastrpc.Mem.Static.{has_fd, set_maps, fastrpc_mmap, fastrpc_munmap}
use fastrpc.Mem.Remote.{remote_mmap64_internal, remote_munmap64}
use fastrpc.Mem.Registry.{register_buf_common, fd_from_buf, unmap_fd}
use fastrpc.Mem.Handles.{DmaHandle, new_handle, register_handle, unregister_handle}
use fastrpc.Mem.Handles.Counts.{uses}
use fastrpc.Mem.Handles.Registration.{
  IsTable, Registers, Unregisters, register_handle-Registers, unregister_handle-Unregisters,
}
use fastrpc.Mem.Mapping.{MapsOne, fastrpc_mmap-MapsOne}
use fastrpc.Mem.Mapping.Removal.{UnmapsOne, fastrpc_munmap-UnmapsOne}
use fastrpc.Mem.Willing.{IsWilling, IsOpen}
use fastrpc.Mem.Roundtrip.{fastrpc_munmap-fastrpc_mmap, buffer_ref-fastrpc_mmap}
use fastrpc.Mem.Balance.Remote.{calls-IsBalanced}
use fastrpc.Mem.Buffers.{answer, is_inside, fd_from_buf-answer}
use fastrpc.Mem.Buffers.Registration.{deregister-register}
use fastrpc.Mem.Unmapping.{AsksNone, unmap_fd-AsksNone}
use fastrpc.Mem.Fds.{IsDistinct}
use fastrpc.Mem.Invariant.Steps.{mem_init, here, next, map_step, unmap_step, Reach-IsDistinct}

abbrev env : Env
env = record {
  init_once = 0;
  has_memory = λ log. true;
  ioctl = λ log req. record { code = 0; errno = 0; vaddrout = 8192 };
}

abbrev sessions : ℕ → Session
sessions d = record { is_deinit = not (d == 3); dev = some 7; refs = 0 }

abbrev process : Process
process = record { hlist = some sessions; has_key = true; thread_domain = none }

abbrev start : Mem
start = mem_init process

abbrev mapped : Mem
mapped = (fastrpc_mmap env start (pos 3) (pos 5) 4096 (pos 0) 64 0).mem

env-IsWilling : IsWilling env
env-IsWilling = record { initialised = refl; memory = λ log. refl; accepts = λ log req. refl }

start-IsOpen : IsOpen 3 (some sessions)
start-IsOpen = record {
  list = sessions;
  dev = 7;
  valid = omega arith;
  there = refl;
  active = refl;
  device = refl;
}

Reach-IsDistinct_example : IsDistinct ((fastrpc_munmap env mapped (pos 3) (pos 5)).mem.maps 3)
Reach-IsDistinct_example =
    Reach-IsDistinct process (fastrpc_munmap env mapped (pos 3) (pos 5)).mem 3 (
      next (next here (map_step env start (pos 3) (pos 5) 4096 (pos 0) 64 0))
        (unmap_step env mapped (pos 3) (pos 5)))

fastrpc_mmap-MapsOne_example :
    MapsOne env start (pos 3) 5 4096 64 (fastrpc_mmap env start (pos 3) (pos 5) 4096 (pos 0) 64 0)
fastrpc_mmap-MapsOne_example = fastrpc_mmap-MapsOne env start (pos 3) 5 4096 (pos 0) 64 0

fastrpc_munmap-UnmapsOne_example :
    UnmapsOne (has_fd 5) mapped (pos 3) (fastrpc_munmap env mapped (pos 3) (pos 5))
fastrpc_munmap-UnmapsOne_example = fastrpc_munmap-UnmapsOne env mapped (pos 3) 5

none_mapped_at_start : find (has_fd 5) (start.maps 3) ≡ none
unfolding find
none_mapped_at_start = refl

fastrpc_munmap-fastrpc_mmap_example :
    let r = fastrpc_mmap env start (pos 3) (pos 5) 4096 (pos 0) 64 0 in
    let r' = fastrpc_munmap env r.mem (pos 3) (pos 5) in
    (r.code ≡ 0)
    × (r'.code ≡ 0)
    × (r'.mem.maps ≡ start.maps)
    × (r'.mem.proc.hlist ≡ start.proc.hlist)
fastrpc_munmap-fastrpc_mmap_example =
    fastrpc_munmap-fastrpc_mmap env start 3 5 4096 64 0 env-IsWilling start-IsOpen
      (λ d. omega arith) none_mapped_at_start refl

-- The code of that first call.
mapped_ok : (fastrpc_mmap env start (pos 3) (pos 5) 4096 (pos 0) 64 0).code ≡ 0
mapped_ok =
    (fastrpc_munmap-fastrpc_mmap env start 3 5 4096 64 0 env-IsWilling start-IsOpen
      (λ d. omega arith) none_mapped_at_start refl).0

buffer_ref-fastrpc_mmap_example :
    let r = fastrpc_mmap env start (pos 3) (pos 5) 4096 (pos 0) 64 0 in
    let added = buffer_ref 3 (r.mem.maps 3) 5 gain in
    (added.code ≡ 0)
    × (added.out ≡ some (4096, 64))
    × ((fastrpc_munmap env (set_maps 3 added.maps r.mem) (pos 3) (pos 5)).code ≢ 0)
    × ((buffer_ref 3 added.maps 5 lose).maps ≡ r.mem.maps 3)
buffer_ref-fastrpc_mmap_example =
    buffer_ref-fastrpc_mmap env env start 3 5 4096 (pos 0) 64 0 (omega arith) mapped_ok

calls-IsBalanced_example :
    ((fastrpc_mmap env start (pos 3) (pos 5) 4096 (pos 0) 64 0).mem.proc.hlist ≡ start.proc.hlist)
    × ((fastrpc_munmap env start (pos 3) (pos 5)).mem.proc.hlist ≡ start.proc.hlist)
    × ((remote_mmap64_internal env start (pos 5) 0 4096 64).mem.proc.hlist ≡ start.proc.hlist)
    × ((remote_munmap64 env start 4096 64).mem.proc.hlist ≡ start.proc.hlist)
calls-IsBalanced_example =
    calls-IsBalanced env start (pos 3) (pos 5) 4096 (pos 0) 64 0 (λ d. omega arith)

-- A table with a free entry and one in use.
abbrev handles : List DmaHandle
handles = record { fd = 4; len = 32; used = 0; attr = 0 } ∷ new_handle 5 64 0 ∷ []

handles-IsTable : IsTable handles
unfolding uses
handles-IsTable = ((inl refl, (inr refl, tt)), omega arith)

register_handle-Registers_example : Registers 6 handles (register_handle 0 handles (pos 6) 16 0)
register_handle-Registers_example = register_handle-Registers 0 handles 6 16 0 handles-IsTable

unregister_handle-Unregisters_example : Unregisters 5 handles (unregister_handle handles 5)
unregister_handle-Unregisters_example = unregister_handle-Unregisters handles 5 handles-IsTable

abbrev buffer : MemToFd
buffer = record {
  buf = 4096;
  size = 64;
  fd = pos 5;
  nova = false;
  attr = 0;
  refcount = 1;
  mapped = λ d. false;
}

fd_from_buf-answer_example :
    fd_from_buf (buffer ∷ []) 4100 8 ≡ answer (4100 + 8) (find (is_inside 4100) (buffer ∷ []))
fd_from_buf-answer_example =
    fd_from_buf-answer (buffer ∷ []) 4100 8 (omega arith, tt) (omega arith) (omega arith)

nothing_registered : find (λ (e : MemToFd). e.buf == 4096) start.fdlist ≡ none
unfolding find
nothing_registered = refl

deregister-register_example :
    (m' : Mem) × (register_buf_common env start 4096 64 (pos 5) 128 ≡ ret 0 (m', none))
    × ((m'' : Mem) × (register_buf_common env m' 4096 64 (negsuc 0) 0 ≡ ret 0 (m'', none))
        × (m''.fdlist ≡ start.fdlist))
deregister-register_example =
    deregister-register env env start 4096 64 (pos 5) 128 refl refl refl refl refl
      nothing_registered

unmap_fd-AsksNone_example :
    let m' = unmap_fd env 64 (pos 5) start in
    AsksNone start.requests m'.requests
    × ((list' : ℕ → Session) × (m'.proc.hlist ≡ some list')
        × ((d : ℕ)
            → d < 32
            → (sessions d).is_deinit ≡ false
            → (list' d).refs ≡ ((sessions d).refs + 1) % u32_mod))
unmap_fd-AsksNone_example = unmap_fd-AsksNone env 64 (pos 5) start sessions refl
