-- ===== src/Ioctl.antt =====
-- The calls of the driver that map and unmap memory, and the codes that their errors become:
-- src/fastrpc_ioctl.c and inc/fastrpc_internal.h.
use fastrpc.Common.{
  ℕ, ◌+◌, ◌-◌, ◌%◌, ◌^◌, ◌||◌, ◌&&◌, Bool, false, Option, List, [], ◌∷◌, ltb, leb, ◌==◌,
  if◌then◌else◌, ℤ, u32_mod, u64_mod,
}
use fastrpc.DspQueue.State.{aee_success, aee_ebadparm, aee_erpc, aee_eexpired, aee_eunsupported}

-- `struct fastrpc_ioctl_mem_map`
pub record MemMap : Type 0 where
  pub fd : ℤ
  pub offset : ℤ
  pub flags : ℕ
  pub vaddrin : ℕ
  pub length : ℕ
  pub attrs : ℕ

-- `struct fastrpc_ioctl_req_mmap`
pub record ReqMmap : Type 0 where
  pub fd : ℤ
  pub flags : ℕ
  pub vaddrin : ℕ
  pub size : ℕ

-- `struct fastrpc_ioctl_mem_unmap`
pub record MemUnmap : Type 0 where
  pub fd : ℤ
  pub vaddr : ℕ
  pub length : ℕ

-- `struct fastrpc_ioctl_req_munmap`
pub record ReqMunmap : Type 0 where
  pub vaddrout : ℕ
  pub size : ℕ

-- The argument of `ioctl`.
pub data Args : Type 0 where
  mem_map : MemMap → Args
  req_mmap : ReqMmap → Args
  mem_unmap : MemUnmap → Args
  req_munmap : ReqMunmap → Args

-- A call of `ioctl`; `dev` is `none` for a negative descriptor.
pub record Request : Type 0 where
  pub dev : Option ℕ
  pub args : Args

-- What `ioctl` leaves: its result as a 32-bit pattern, `errno`, and the `vaddrout` of its argument.
pub record Reply : Type 0 where
  pub code : ℕ
  pub errno : ℕ
  pub vaddrout : ℕ

-- The driver answers a request by the requests before it, newest first.
abbrev pub Driver : Type 0
Driver = List Request → Request → Reply

-- `enum fastrpc_map_type`
pub data MapType : Type 0 where
  mmap munmap mmap_64 munmap_64 mem_map_type mem_unmap_type munmap_fd : MapType

-- A call of the driver, or the code for a request type that the function does not know.
pub data Call : Type 0 where
  call : Request → Call
  unknown : ℕ → Call

-- `ioctl_mmap`, up to the call.
unfoldable pub ioctl_mmap : Option ℕ → MapType → ℕ → ℕ → ℤ → ℤ → ℕ → ℕ → Call
ioctl_mmap dev type flags attr fd offset len vaddrin =
    let map : MemMap = record {
      fd = fd;
      offset = offset;
      flags = flags;
      vaddrin = vaddrin;
      length = len;
      attrs = attr;
    } in
    let req : ReqMmap = record { fd = fd; flags = flags; vaddrin = vaddrin; size = len } in
    elim type [
      | mem_map_type ↦ call (record { dev = dev; args = mem_map map })
      | mmap ↦ call (record { dev = dev; args = req_mmap req })
      | mmap_64 ↦ call (record { dev = dev; args = req_mmap req })
      | munmap ↦ unknown aee_ebadparm
      | munmap_64 ↦ unknown aee_ebadparm
      | mem_unmap_type ↦ unknown aee_ebadparm
      | munmap_fd ↦ unknown aee_ebadparm
    ]

-- A `size_t` as the `int` parameter `len`, and that as a `uint64_t` again.
unfoldable pub int_len : ℕ → ℕ
int_len n = let low = n % u32_mod in if ltb low (2 ^ 31) then low else low + (u64_mod - u32_mod)

-- `ioctl_munmap`, up to the call.
unfoldable pub ioctl_munmap : Option ℕ → MapType → ℤ → ℕ → ℕ → Call
unfolding int_len
ioctl_munmap dev type fd len vaddr =
    let unmap : MemUnmap = record { fd = fd; vaddr = vaddr; length = int_len len } in
    let req : ReqMunmap = record { vaddrout = vaddr; size = int_len len } in
    elim type [
      | mem_unmap_type ↦ call (record { dev = dev; args = mem_unmap unmap })
      | munmap_fd ↦ call (record { dev = dev; args = mem_unmap unmap })
      | munmap ↦ call (record { dev = dev; args = req_munmap req })
      | munmap_64 ↦ call (record { dev = dev; args = req_munmap req })
      | mmap ↦ unknown aee_success
      | mmap_64 ↦ unknown aee_success
      | mem_map_type ↦ unknown aee_success
    ]

-- AEE_EUNKNOWN, -1.
abbrev pub aee_eunknown : ℕ
aee_eunknown = 4294967295

abbrev pub aee_enomemory : ℕ
aee_enomemory = 2

abbrev pub aee_econnreset : ℕ
aee_econnreset = 104

-- DSP_AEE_EOFFSET
abbrev pub dsp_aee_eoffset : ℕ
dsp_aee_eoffset = 2147484672

abbrev pub aee_enosuchdevice : ℕ
aee_enosuchdevice = 67

abbrev pub aee_econnrefused : ℕ
aee_econnrefused = 114

abbrev pub aee_efile : ℕ
aee_efile = 513

abbrev pub aee_ebadperms : ℕ
aee_ebadperms = 78

-- The number is one of the list.
unfoldable pub is_one_of : ℕ → List ℕ → Bool
is_one_of n [] = false
is_one_of n (x ∷ xs) = n == x || is_one_of n xs

-- The `switch` of `convert_kernel_to_user_error`: the cases ENOENT and EBUSY fall through to the default.
unfoldable pub errno_to_user : ℕ → ℕ
errno_to_user e =
    if is_one_of e (5 ∷ 109 ∷ 99 ∷ 25 ∷ 56 ∷ [])
    then aee_erpc
    else if is_one_of e (14 ∷ 44 ∷ 77 ∷ 22 ∷ 9 ∷ 52 ∷ 53 ∷ 75 ∷ 112 ∷ 17 ∷ 74 ∷ [])
    then aee_ebadparm
    else if is_one_of e (6 ∷ 19 ∷ 126 ∷ [])
    then aee_enosuchdevice
    else if is_one_of e (105 ∷ 12 ∷ [])
    then aee_enomemory
    else if is_one_of e (63 ∷ 122 ∷ 110 ∷ 87 ∷ 108 ∷ [])
    then aee_eexpired
    else if is_one_of e (107 ∷ 111 ∷ [])
    then aee_econnrefused
    else if is_one_of e (104 ∷ 32 ∷ [])
    then aee_econnreset
    else if e == 93
    then aee_eunsupported
    else if e == 27
    then aee_efile
    else if is_one_of e (13 ∷ 1 ∷ [])
    then aee_ebadperms
    else aee_erpc

-- `convert_kernel_to_user_error`
unfoldable pub convert_kernel_to_user_error : ℕ → ℕ → ℕ
unfolding errno_to_user
convert_kernel_to_user_error code errno =
    if code == aee_eunknown && (ltb 0 errno && leb errno 135) then errno_to_user errno else code
