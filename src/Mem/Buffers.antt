-- ===== src/Mem/Buffers.antt =====
-- Registered buffers of src/fastrpc_mem.c: finding a buffer's file descriptor.
pub mod Registration
use fastrpc.Common.{
  ℕ, ◌+◌, ◌-◌, ◌%◌, ◌<◌, ◌≤◌, ◌≡◌, refl, ap, ◌∙◌, Bool, true, false, Bool-cases, Option, none, some,
  inl, inr, List, [], ◌∷◌, ◌++◌, ltb, leb, ◌==◌, ◌&&◌, ◌||◌, not, if◌then◌else◌, if_keeps, ℤ, pos,
  negsuc, u64_mod, put_at, find, find-append, remove_first-append, remove_first, arith, has_bit,
}
use fastrpc.DspQueue.State.{ret, aee_ebadparm}
use fastrpc.DspQueue.Refs.{num_domains_extend}
use fastrpc.Session.{session_get, session_dev}
use fastrpc.Ioctl.{Call, call, unknown, ioctl_munmap, munmap_fd}
use fastrpc.Mem.{Mem, Env, MemToFd, Result, failed, do_ioctl, once}
use fastrpc.Mem.Static.{fastrpc_mmap, fastrpc_munmap, map_static}
use fastrpc.Mem.Mapping.{fastrpc_mmap-MapsOne}
use fastrpc.Mem.Mapping.Removal.{fastrpc_munmap-UnmapsOne}
use fastrpc.Mem.Registry.{
  unmap_fd_one, unmap_fd, Mapped, try_map_one, try_map_buffer, try_unmap_one, try_unmap_buffer,
  is_registered, is_buffer, new_entry, add_entry, register_buf, release, deregister_buf,
  register_buf_common, std_between, fd_from_buf, same_fd, attr_try_map_static, attr_keep_map,
  reserved,
}
use fastrpc.Mem.Invariant.Buffers.{for_domains_keeps}

-- No registered range wraps around.
abbrev pub NoWrap : List MemToFd → Type 0
NoWrap [] = Unit {0}
NoWrap (e ∷ es) = (e.buf + e.size < u64_mod) × NoWrap es

-- The address is in the registered range.
abbrev pub is_inside : ℕ → MemToFd → Bool
is_inside buf e = leb e.buf buf && ltb buf (e.buf + e.size)

-- The answer for the first range that the address is in: it is found if the whole buffer is in it.
abbrev pub answer : ℕ → Option MemToFd → ℕ × Option MemToFd
answer end none = (0, none)
answer end (some e) = if leb end (e.buf + e.size) then (0, some e) else (aee_ebadparm, none)

between_start :
    (buf lo size : ℕ)
    → lo + size < u64_mod
    → buf < u64_mod
    → std_between buf lo ((lo + size) % u64_mod) ≡ (leb lo buf && ltb buf (lo + size))
between_start buf lo size h hb = ground arith

between_end :
    (buf len lo size : ℕ)
    → lo + size < u64_mod
    → lo ≤ buf
    → 0 < len
    → buf + len ≤ u64_mod
    → std_between ((buf + len + u64_mod - 1) % u64_mod) lo ((lo + size) % u64_mod)
      ≡ leb (buf + len) (lo + size)
between_end buf len lo size h hlo hlen hb = ground arith

-- For a buffer that is not empty and does not wrap around, and registered ranges that do not:
-- `fdlist_fd_from_buf` looks at the first range in list order that the buffer's address is in, and finds
-- it if the whole buffer is in it; else the buffer is refused; with no such range none is found.
pub fd_from_buf-answer :
    (es : List MemToFd) (buf len : ℕ)
    → NoWrap es
    → 0 < len
    → buf + len ≤ u64_mod
    → fd_from_buf es buf len ≡ answer (buf + len) (find (is_inside buf) es)
unfolding fd_from_buf find
fd_from_buf-answer [] buf len h hlen hb = refl
fd_from_buf-answer (e ∷ es) buf len h hlen hb =
    let here = between_start buf e.buf e.size h.0 (omega arith) in
    elim (Bool-cases (is_inside buf e)) [
      | inr f ↦ rw (fd_from_buf, here ∙ f, f) (fd_from_buf-answer es buf len h.1 hlen hb)
      | inl t ↦
          let low : e.buf ≤ buf = ground arith in
          let end = between_end buf len e.buf e.size h.0 low hlen hb in
          rw (fd_from_buf, here ∙ t, t, end) refl
    ]
