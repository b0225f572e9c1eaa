-- ===== src/Mem/Static.antt =====
-- Static mappings of src/fastrpc_mem.c: `fastrpc_mmap`, `fastrpc_munmap` and their internal variants.
use fastrpc.Common.{
  ℕ, ◌+◌, ◌*◌, ◌/◌, ◌%◌, ◌&&◌, ◌||◌, not, Bool, false, Option, none, some, List, [], ◌∷◌, ◌++◌, ltb,
  ◌==◌, if◌then◌else◌, ℤ, pos, negsuc, put_at, find, remove_first, update_first,
}
use fastrpc.DspQueue.State.{
  StaticMap, aee_ebadparm, aee_efailed, aee_eunsupported, aee_enosuchmap, aee_erpc,
}
use fastrpc.Ioctl.{
  ioctl_mmap, ioctl_munmap, mem_map_type, mem_unmap_type, dsp_aee_eoffset, aee_enomemory,
}
use fastrpc.Mem.{Env, Mem, Result, failed, do_ioctl, in_domain, clear_errno, once}

abbrev pub aee_ealready : ℕ
aee_ealready = 26

abbrev pub enotty : ℕ
enotty = 25

abbrev pub einval : ℕ
einval = 22

abbrev pub has_fd : ℕ → StaticMap → Bool
has_fd fd n = n.fd == fd

abbrev pub has_vaddrout : ℕ → StaticMap → Bool
has_vaddrout raddr n = n.vaddrout == raddr

abbrev pub set_maps : ℕ → List StaticMap → Mem → Mem
set_maps d maps m = record m { maps = put_at m.maps d maps }

-- The mapping that the helper adds.
abbrev pub new_map : ℕ → ℕ → ℕ → ℕ → StaticMap
new_map fd vaddr length vaddrout = record {
  fd = fd;
  vaddr = vaddr;
  length = length;
  vaddrout = vaddrout;
  refs = 1;
}

-- The helper after the call of the driver.
unfoldable pub map_done : ℕ → ℕ → ℕ → ℕ → Result → Result
map_done d fd vaddr length r =
    if r.ioc_err == 0
    then record r {
      code = 0;
      mem = set_maps d (r.mem.maps d ++ new_map fd vaddr length r.out ∷ []) r.mem;
    }
    else if r.mem.errno == enotty || r.ioc_err == dsp_aee_eoffset + aee_eunsupported
    then record r { code = aee_eunsupported }
    else record r { code = aee_efailed }

-- The helper within the session.
unfoldable pub map_body : Env → ℕ → ℕ → ℤ → ℕ → ℕ → ℕ → ℕ → Option ℕ → Mem → Result
unfolding map_done
map_body c fd vaddr offset length flags attrs d none m = failed aee_erpc m
map_body c fd vaddr offset length flags attrs d (some dev) m = elim (find (has_fd fd) (m.maps d)) [
  | some n ↦ failed aee_ealready m
  | none ↦
      if c.has_memory m.requests
      then map_done d fd vaddr length (
          do_ioctl c (ioctl_mmap (some dev) mem_map_type flags attrs (pos fd) offset length vaddr)
            m)
      else failed aee_enomemory m
]

-- `fastrpc_mmap_helper`
unfoldable pub mmap_helper : Env → Mem → ℤ → ℕ → ℕ → ℤ → ℕ → ℕ → ℕ → Result
mmap_helper c m domain fd vaddr offset length flags attrs =
    clear_errno (in_domain domain aee_ebadparm (map_body c fd vaddr offset length flags attrs) m)

-- FASTRPC_MAP_FLAGS_MASK + 1
abbrev pub flags_span : ℕ
flags_span = 65536

abbrev pub map_max : ℕ
map_max = 17

abbrev pub map_reserved : ℕ
map_reserved = 1

abbrev pub map_static : ℕ
map_static = 0

abbrev pub is_zero : ℤ → Bool
is_zero (pos n) = n == 0
is_zero (negsuc n) = false

-- The checks of `fastrpc_mmap` on its flags, as a 32-bit pattern.
abbrev pub is_map_flags : ℕ → Bool
is_map_flags flags =
    flags / flags_span == 0
    && (ltb (flags % flags_span) map_max && not (flags % flags_span == map_reserved))

-- `fastrpc_mmap`
unfoldable pub fastrpc_mmap : Env → Mem → ℤ → ℤ → ℕ → ℤ → ℕ → ℕ → Result
fastrpc_mmap c m domain (negsuc n) vaddr offset length flags = once c (failed aee_ebadparm) m
fastrpc_mmap c m domain (pos fd) vaddr offset length flags =
    let r =
      mmap_helper c m domain fd vaddr offset length (flags % flags_span)
        (flags / flags_span * flags_span) in
    once c (λ m. if is_zero offset && is_map_flags flags then r else failed aee_ebadparm m) m

-- `fastrpc_mmap_internal`, where the output pointer is not null.
unfoldable pub mmap_internal : Env → Mem → ℤ → ℤ → ℕ → ℤ → ℕ → ℕ → Result
mmap_internal c m domain (negsuc n) vaddr offset length flags = once c (failed aee_ebadparm) m
mmap_internal c m domain (pos fd) vaddr offset length flags =
    let r =
      mmap_helper c m domain fd vaddr offset length (flags % flags_span)
        (flags / flags_span * flags_span) in
    once c (λ m. if is_zero offset && flags / flags_span == 0 then r else failed aee_ebadparm m) m

abbrev pub set_refs : ℕ → StaticMap → StaticMap
set_refs refs n = record n { refs = refs }

-- After the call of the driver, on the mapping that passes the test, whose count is 0 by then.
unfoldable pub unmap_done : (StaticMap → Bool) → ℕ → Result → Result
unmap_done test d r =
    let maps = r.mem.maps d in
    if r.ioc_err == 0
    then record r { code = 0; mem = set_maps d (remove_first test maps) r.mem }
    else if r.mem.errno == enotty || r.mem.errno == einval
    then record r { code = aee_eunsupported }
    else record r {
      code = aee_efailed;
      mem = set_maps d (update_first test (set_refs 1) maps) r.mem;
    }

-- `fastrpc_munmap` within the session, on the first mapping that passes the test.
unfoldable pub unmap_body : Env → (StaticMap → Bool) → ℕ → Option ℕ → Mem → Result
unfolding unmap_done
unmap_body c test d dev m = elim (find test (m.maps d)) [
  | none ↦ failed aee_enosuchmap m
  | some n ↦
      if ltb 1 n.refs
      then failed aee_ebadparm m
      else unmap_done test d (
          do_ioctl c (ioctl_munmap dev mem_unmap_type (pos n.fd) n.length n.vaddrout)
            (set_maps d (update_first test (set_refs 0) (m.maps d)) m))
]

-- `fastrpc_munmap`
unfoldable pub fastrpc_munmap : Env → Mem → ℤ → ℤ → Result
fastrpc_munmap c m domain (negsuc n) = clear_errno (once c (failed aee_ebadparm) m)
fastrpc_munmap c m domain (pos fd) =
    clear_errno (once c (in_domain domain aee_ebadparm (unmap_body c (has_fd fd))) m)

-- `fastrpc_munmap_internal`
unfoldable pub munmap_internal : Env → Mem → ℤ → ℕ → Result
munmap_internal c m domain raddr =
    clear_errno (once c (in_domain domain aee_ebadparm (unmap_body c (has_vaddrout raddr))) m)
