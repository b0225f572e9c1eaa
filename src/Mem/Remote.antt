-- ===== src/Mem/Remote.antt =====
-- Mappings of src/fastrpc_mem.c for which the process keeps flags by the remote address: `remote_mem_map`,
-- `remote_mmap64` and their inverses.
use fastrpc.Common.{
  ℕ, ◌%◌, ◌||◌, Bool, Option, none, some, List, [], ◌∷◌, ◌++◌, ltb, ◌==◌, if◌then◌else◌, ℤ, pos,
  negsuc, put_at, find, remove_first, u32_mod,
}
use fastrpc.DspQueue.State.{aee_ebadparm, aee_erpc}
use fastrpc.Context.{aee_ebaddomain}
use fastrpc.Session.{current_domain}
use fastrpc.Ioctl.{ioctl_mmap, ioctl_munmap, mmap_64, munmap_64, convert_kernel_to_user_error}
use fastrpc.Mem.{RemoteMap, Env, Mem, Result, failed, do_ioctl, in_domain, in_session, once}
use fastrpc.Mem.Static.{mmap_internal, munmap_internal}

-- At `bail`: an error becomes a user error.
abbrev pub to_user : Result → Result
to_user r =
    if r.code == 0 then r else record r { code = convert_kernel_to_user_error r.code r.mem.errno }

-- `remote_mem_map`, where the output pointer is not null; REMOTE_MAP_MAX_FLAG is 1.
unfoldable pub remote_mem_map : Env → Mem → ℤ → ℤ → ℤ → ℕ → ℕ → Result
remote_mem_map c m domain fd (negsuc n) vaddr size = to_user (once c (failed aee_ebadparm) m)
remote_mem_map c m domain (negsuc n) (pos flags) vaddr size =
    to_user (once c (failed aee_ebadparm) m)
remote_mem_map c m domain (pos fd) (pos flags) vaddr size =
    let r =
      in_domain domain aee_ebadparm
        (λ d dev m. do_ioctl c (ioctl_mmap dev mmap_64 flags 0 (pos fd) (pos 0) size vaddr) m) m in
    to_user (once c (λ m. if ltb flags 1 then r else failed aee_ebadparm m) m)

-- `remote_mem_unmap`
unfoldable pub remote_mem_unmap : Env → Mem → ℤ → ℕ → ℕ → Result
remote_mem_unmap c m domain raddr size =
    let r =
      in_domain domain aee_ebadparm
        (λ d dev m. do_ioctl c (ioctl_munmap dev munmap_64 (negsuc 0) size raddr) m) m in
    to_user (once c (λ m. if raddr == 0 then failed aee_ebadparm m else r) m)

abbrev pub adsp_mmap_add_pages : ℕ
adsp_mmap_add_pages = 4096

abbrev pub adsp_mmap_remote_heap_addr : ℕ
adsp_mmap_remote_heap_addr = 8

-- The flags for which the driver is called directly.
abbrev pub is_heap : ℕ → Bool
is_heap flags = flags == adsp_mmap_add_pages || flags == adsp_mmap_remote_heap_addr

-- The entry that `remote_mmap64_internal` appends to `memlist`, if there is memory for it.
unfoldable pub remember : Env → ℕ → ℕ → Result → Result
remember c d flags r =
    let entry : RemoteMap = record { vadsp = r.out; flags = flags } in
    let m' = record r.mem { memlist = put_at r.mem.memlist d (r.mem.memlist d ++ entry ∷ []) } in
    if c.has_memory r.mem.requests then record r { mem = m' } else r

-- `remote_mmap64_internal` within the session: `size` is the 64-bit pattern of the `int64_t`.
unfoldable pub remote_map_body : Env → ℤ → ℕ → ℕ → ℕ → ℕ → Option ℕ → Mem → Result
unfolding remember
remote_map_body c fd flags vaddrin size d none m = failed aee_erpc m
remote_map_body c fd flags vaddrin size d (some dev) m =
    let direct = do_ioctl c (ioctl_mmap (some dev) mmap_64 flags 0 fd (pos 0) size vaddrin) m in
    let mapped = mmap_internal c m (pos d) fd vaddrin (pos 0) size flags in
    if is_heap flags
    then remember c d flags direct
    else (if mapped.code == 0 then remember c d flags mapped else record mapped { out = 0 })

-- `remote_mmap64_internal`
unfoldable pub remote_mmap64_internal : Env → Mem → ℤ → ℕ → ℕ → ℕ → Result
remote_mmap64_internal c m fd flags vaddrin size =
    let d = current_domain m.proc in
    to_user (once c (in_session d (remote_map_body c fd flags vaddrin size d)) m)

-- `remote_mmap64`, where the output pointer is not null; `size` is negative or not.
unfoldable pub remote_mmap64 : Env → Mem → ℤ → ℕ → ℕ → ℤ → Result
remote_mmap64 c m (negsuc n) flags vaddrin size = once c (failed aee_ebadparm) m
remote_mmap64 c m (pos fd) flags vaddrin (negsuc n) = once c (failed aee_ebadparm) m
remote_mmap64 c m (pos fd) flags vaddrin (pos size) =
    let r = remote_mmap64_internal c m (pos fd) flags vaddrin size in
    once c
      (λ m.
        if flags == 0
        then (if r.code == aee_ebaddomain then record r { code = aee_erpc } else r)
        else failed aee_ebadparm m)
      m

-- `remote_mmap`, whose address is cut to 32 bits.
unfoldable pub remote_mmap : Env → Mem → ℤ → ℕ → ℕ → ℤ → Result
remote_mmap c m fd flags vaddrin size =
    let r = remote_mmap64 c m fd flags vaddrin size in record r { out = r.out % u32_mod }

abbrev pub has_vadsp : ℕ → RemoteMap → Bool
has_vadsp vadsp e = e.vadsp == vadsp

abbrev pub set_memlist : ℕ → List RemoteMap → Mem → Mem
set_memlist d entries m = record m { memlist = put_at m.memlist d entries }

-- `fastrpc_remote_map_lookup`: the first entry of the address, which leaves the list.
unfoldable pub remote_map_lookup : ℕ → ℕ → Mem → Option (RemoteMap × Mem)
remote_map_lookup d vadsp m = elim (find (has_vadsp vadsp) (m.memlist d)) [
  | none ↦ none
  | some e ↦ some (e, set_memlist d (remove_first (has_vadsp vadsp) (m.memlist d)) m)
]

-- After the unmapping of an entry: an entry that is still mapped goes to the end of the list.
unfoldable pub entry_done : ℕ → RemoteMap → Result → Result
entry_done d e r =
    if r.code == 0 then r else record r { mem = set_memlist d (r.mem.memlist d ++ e ∷ []) r.mem }

-- `remote_munmap64` within the session; `munmap_internal` does not read its length.
unfoldable pub remote_unmap_body : Env → ℕ → ℕ → ℕ → Option ℕ → Mem → Result
unfolding entry_done remote_map_lookup
remote_unmap_body c vaddrout size d dev m = elim (remote_map_lookup d vaddrout m) [
  | none ↦ do_ioctl c (ioctl_munmap dev munmap_64 (negsuc 0) size vaddrout) m
  | some (e, m') ↦
      let direct = do_ioctl c (ioctl_munmap dev munmap_64 (negsuc 0) size vaddrout) m' in
      let mapped = munmap_internal c m' (pos d) vaddrout in
      entry_done d e (if is_heap e.flags then direct else mapped)
]

-- `remote_munmap64`
unfoldable pub remote_munmap64 : Env → Mem → ℕ → ℕ → Result
remote_munmap64 c m vaddrout size =
    let d = current_domain m.proc in
    to_user (once c (in_session d (remote_unmap_body c vaddrout size d)) m)

-- `remote_munmap`
unfoldable pub remote_munmap : Env → Mem → ℕ → ℕ → Result
remote_munmap c m vaddrout size = remote_munmap64 c m (vaddrout % u32_mod) size
