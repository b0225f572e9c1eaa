-- ===== src/WakeLock/Tests.antt =====
-- The properties of src/fastrpc_pm.c at concrete inputs.
use fastrpc.Common.{◌≡◌, refl, true, false, none, some, pos, negsuc, arith}
use fastrpc.WakeLock.Held.{IsConsistent}
use fastrpc.WakeLock.Runs.{here, next, initialised, locked, idle, Reach-IsConsistent}
use fastrpc.WakeLock.Failing.{init_after_failed_init}
use fastrpc.WakeLock.{
  WakeLock, System, live, destroyed, wake_lock_init, wake_lock, open_files, init_failed,
  close_files, take_lock,
}

abbrev system : System
system = record {
  write = λ n. true;
  open_file = λ n. pos 9;
  close = λ n. 0;
  prints = λ n. true;
  mutex_init = λ n. 0;
  no_entry = λ n. false;
}

abbrev ready : WakeLock
ready = record idle {
  lock = pos 9;
  unlock = pos 9;
  wmut = live;
  init_done = true;
  wmut_int = true;
  calls = 3;
}

abbrev taken : WakeLock
taken = record ready { count = 1; held = true; calls = 4 }

made_ready : wake_lock_init system idle ≡ some (0, ready)
unfolding wake_lock_init open_files
made_ready = refl

made_taken : wake_lock system ready ≡ some (0, taken)
unfolding wake_lock take_lock
made_taken = refl

Reach-IsConsistent_example : IsConsistent taken
Reach-IsConsistent_example = Reach-IsConsistent {s = system} (
    next (next here (initialised idle (0, ready) made_ready))
      (locked ready (0, taken) (omega arith) made_taken))

-- No file can be opened.
abbrev no_files : System
no_files = record system { open_file = λ n. negsuc 0 }

abbrev failed : WakeLock
failed = record idle { lock = negsuc 0; wmut = destroyed; wmut_int = true; calls = 2 }

made_failed : wake_lock_init no_files idle ≡ some (512, failed)
unfolding wake_lock_init open_files init_failed close_files
made_failed = refl

init_after_failed_init_example : (failed.wmut ≡ destroyed) × (wake_lock_init no_files failed ≡ none)
init_after_failed_init_example =
    init_after_failed_init no_files idle (512, failed) refl refl refl made_failed (omega arith)
