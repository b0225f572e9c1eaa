-- ===== src/Mem.antt =====
-- The state of src/fastrpc_mem.c, less the DMA handles, and the bracket that its calls of a session
-- share: take a reference, look up the device, and give the reference back at `bail`.
pub mod Static
pub mod Remote
pub mod Registry
pub mod Handles
pub mod Balance
pub mod Outcomes
pub mod Mapping
pub mod Fds
pub mod Willing
pub mod Buffers
pub mod Unmapping
pub mod Roundtrip
pub mod Invariant
mod Tests
use fastrpc.Common.{ℕ, ◌&&◌, not, Bool, Option, none, some, List, ◌∷◌, ◌==◌, if◌then◌else◌, ℤ}
use fastrpc.DspQueue.State.{StaticMap, aee_ebadparm}
use fastrpc.Session.{Process, effective_domain, session_get, session_put, session_dev}
use fastrpc.Ioctl.{Request, Reply, Driver, Call, call, unknown}

-- `struct fastrpc_remote_map`
pub record RemoteMap : Type 0 where
  pub vadsp : ℕ
  pub flags : ℕ

-- `struct mem_to_fd`
pub record MemToFd : Type 0 where
  pub buf : ℕ
  pub size : ℕ
  pub fd : ℤ
  pub nova : Bool
  pub attr : ℕ
  pub refcount : ℕ
  pub mapped : ℕ → Bool

-- The process, `errno`, the requests that the driver got, newest first, and the lists `smaplst`,
-- `memlist` and `fdlist`.
pub record Mem : Type 0 where
  pub proc : Process
  pub errno : ℕ
  pub requests : List Request
  pub maps : ℕ → List StaticMap
  pub memlist : ℕ → List RemoteMap
  pub fdlist : List MemToFd

-- What a call relies on: the code of `fastrpc_init_once`, whether an allocation after these requests
-- succeeds, and the driver.
pub record Env : Type 0 where
  pub init_once : ℕ
  pub has_memory : List Request → Bool
  pub ioctl : Driver

-- The code, `iocErr`, what the call writes through its output pointer (0 where it writes nothing), and
-- the state.
pub record Result : Type 0 where
  pub code : ℕ
  pub ioc_err : ℕ
  pub out : ℕ
  pub mem : Mem

-- An end before any call of the driver.
abbrev pub failed : ℕ → Mem → Result
failed code m = record { code = code; ioc_err = 0; out = 0; mem = m }

-- A call of `ioctl`, whose result becomes `iocErr` and the code.
unfoldable pub do_ioctl : Env → Call → Mem → Result
do_ioctl c (unknown code) m = record { code = code; ioc_err = code; out = 0; mem = m }
do_ioctl c (call req) m =
    let r = c.ioctl m.requests req in
    record {
      code = r.code;
      ioc_err = r.code;
      out = r.vaddrout;
      mem = record m { errno = r.errno; requests = req ∷ m.requests };
    }

-- FASTRPC_PUT_REF at `bail`.
abbrev pub put_session : ℕ → Result → Result
put_session d r = record r { mem = record r.mem { proc = session_put d r.mem.proc } }

-- FASTRPC_GET_REF, `fastrpc_session_dev`, the body, and FASTRPC_PUT_REF.
unfoldable pub in_session : ℕ → (Option ℕ → Mem → Result) → Mem → Result
in_session d body m =
    let got = session_get d m.proc in
    let m' = record m { proc = got.1 } in
    let dev = session_dev d got.1 in
    if got.0 == 0
    then put_session d (if dev.0 == 0 then body (dev.1) m' else failed (dev.0) m')
    else failed (got.0) m'

-- The same on a domain argument, with the code for an invalid one.
unfoldable pub in_domain : ℤ → ℕ → (ℕ → Option ℕ → Mem → Result) → Mem → Result
in_domain domain code body m = elim (effective_domain m.proc domain) [
  | none ↦ failed code m
  | some d ↦ in_session d (body d) m
]

-- The end of a call at `bail`: after an error before the driver was called, `errno` is cleared.
abbrev pub clear_errno : Result → Result
clear_errno r =
    if not (r.code == 0) && r.ioc_err == 0 then record r { mem = record r.mem { errno = 0 } } else r

-- After `fastrpc_init_once`.
abbrev pub once : Env → (Mem → Result) → Mem → Result
once c body m = if c.init_once == 0 then body m else failed c.init_once m
