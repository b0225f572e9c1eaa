-- ===== src/WakeLock.antt =====
-- src/fastrpc_pm.c: one wake lock of the kernel, shared by counting.
pub mod Failing
pub mod Runs
pub mod Held
mod Tests
use fastrpc.Common.{
  ℕ, zero, suc, ◌+◌, ◌-◌, ◌%◌, Bool, true, false, not, ◌&&◌, Option, none, some, ltb, ◌==◌,
  if◌then◌else◌, ℤ, pos, negsuc, u32_mod,
}
use fastrpc.DspQueue.State.{aee_erpc}

abbrev pub aee_eunsupportedapi : ℕ
aee_eunsupportedapi = 108

-- `wmut`, before `pthread_mutex_init`, after it, and after `pthread_mutex_destroy`.
pub data Mutex : Type 0 where
  unset live destroyed : Mutex

-- `struct wake_lock` less the name, `wakelock_wmut_int`, whether the kernel holds the wake lock of this
-- name, and how many calls of the system were made.
pub record WakeLock : Type 0 where
  pub lock : ℤ
  pub unlock : ℤ
  pub wmut : Mutex
  pub count : ℕ
  pub init_done : Bool
  pub deinit_started : Bool
  pub wmut_int : Bool
  pub held : Bool
  pub calls : ℕ

-- What the system answers, by the number of the calls before: whether `write` wrote something, what
-- `open` returns, the code of `close`, whether `snprintf` prints a name, whether `pthread_mutex_init`
-- succeeds, and whether `errno` is ENOENT after an error.
pub record System : Type 0 where
  pub write : ℕ → Bool
  pub open_file : ℕ → ℤ
  pub close : ℕ → ℕ
  pub prints : ℕ → Bool
  pub mutex_init : ℕ → ℕ
  pub no_entry : ℕ → Bool

abbrev pub is_file : ℤ → Bool
is_file (pos fd) = ltb 0 fd
is_file (negsuc n) = false

abbrev pub called : WakeLock → WakeLock
called w = record w { calls = w.calls + 1 }

-- The code and the state; `none` where a mutex is locked or unlocked that is not initialised.
abbrev pub Locked : Type 0
Locked = Option (ℕ × WakeLock)

abbrev pub with_mutex : Mutex → ℕ × WakeLock → Locked
with_mutex unset r = none
with_mutex live r = some r
with_mutex destroyed r = none

-- The write to `wake_lock`, and the count.
unfoldable pub take_lock : System → WakeLock → ℕ × WakeLock
take_lock s w =
    let more = λ (v : WakeLock). record v { count = (v.count + 1) % u32_mod } in
    if w.count == 0 && is_file w.lock
    then (if s.write w.calls
        then (0, more (record (called w) { held = true }))
        else (aee_erpc, called w))
    else (0, more w)

-- `fastrpc_wake_lock`
unfoldable pub wake_lock : System → WakeLock → Locked
wake_lock s w =
    let body = if w.deinit_started then (aee_erpc, w) else take_lock s w in
    if w.init_done then with_mutex w.wmut body else some (aee_erpc, w)

-- The count, and the write to `wake_unlock` with the last reference.
unfoldable pub drop_lock : System → WakeLock → ℕ × WakeLock
drop_lock s w =
    let less = record w { count = w.count - 1 } in
    if w.count == 0
    then (0, w)
    else if less.count == 0 && is_file w.unlock
    then (if s.write w.calls
        then (0, record (called less) { held = false })
        else (aee_erpc, record (called less) { count = (less.count + 1) % u32_mod }))
    else (0, less)

-- `fastrpc_wake_unlock`
unfoldable pub wake_unlock : System → WakeLock → Locked
wake_unlock s w = if w.init_done then with_mutex w.wmut (drop_lock s w) else some (aee_erpc, w)

-- `fastrpc_wake_lock_release`, at most once for each reference.
unfoldable pub release_loop : ℕ → System → WakeLock → WakeLock
release_loop zero s w = w
release_loop (suc n) s w =
    let r = drop_lock s w in
    let rest = release_loop n s (r.1) in if w.count == 0 then w else if r.0 == 0 then rest else r.1

-- `close` of a file, and what the variable holds then.
abbrev pub close_file : System → ℤ → ℕ → ℕ × ℤ
close_file s fd n = if s.close n == 0 then (0, pos 0) else (s.close n, fd)

-- The two files closed, first `lock`.
unfoldable pub close_files : System → WakeLock → ℕ × WakeLock
close_files s w =
    let a = close_file s w.lock w.calls in
    let w1 = if is_file w.lock then record (called w) { lock = a.1 } else w in
    let b = close_file s w1.unlock w1.calls in
    let w2 = if is_file w1.unlock then record (called w1) { unlock = b.1 } else w1 in
    (if is_file w1.unlock then b.0 else if is_file w.lock then a.0 else 0, w2)

-- The end of `fastrpc_wake_lock_init` after an error.
unfoldable pub init_failed : System → ℕ → WakeLock → ℕ × WakeLock
unfolding close_files
init_failed s code w = (
  if code == aee_erpc && s.no_entry w.calls then aee_eunsupportedapi else code,
  record (close_files s w).1 { wmut = destroyed },
)

-- The files of `fastrpc_wake_lock_init`, under the mutex.
unfoldable pub open_files : System → WakeLock → ℕ × WakeLock
open_files s w =
    let w1 = record (called w) { lock = s.open_file w.calls } in
    let w2 = record (called w1) { unlock = s.open_file w1.calls } in
    if not (s.prints w.calls)
    then init_failed s aee_erpc w
    else if not (is_file w1.lock)
    then init_failed s aee_erpc w1
    else if not (is_file w2.unlock)
    then init_failed s aee_erpc w2
    else (0, record w2 { init_done = true })

-- `fastrpc_wake_lock_init`
unfoldable pub wake_lock_init : System → WakeLock → Locked
wake_lock_init s w =
    let w1 = record w { deinit_started = false } in
    let code = s.mutex_init w1.calls in
    let w2 = record (called w1) { wmut_int = true; wmut = if code == 0 then live else w1.wmut } in
    if w.init_done
    then some (0, w)
    else if w.wmut_int
    then with_mutex w1.wmut (open_files s w1)
    else with_mutex w2.wmut (if code == 0 then open_files s w2 else init_failed s code w2)

-- `fastrpc_wake_lock_deinit`
unfoldable pub wake_lock_deinit : System → WakeLock → Locked
wake_lock_deinit s w =
    let w1 = record w { deinit_started = true } in
    let w2 = release_loop w1.count s w1 in
    let r = close_files s w2 in
    if w.init_done then with_mutex w.wmut (r.0, record (r.1) { init_done = false }) else some (0, w)
