-- ===== src/WakeLock/Held.antt =====
-- What the parts of src/fastrpc_pm.c keep: the kernel holds the wake lock exactly while the count is not
-- zero.
use fastrpc.Common.{
  ℕ, zero, suc, ◌+◌, ◌<◌, ◌≡◌, inl, inr, ◌∙◌, true, false, not, Bool-cases, ◌==◌, u32_mod, arith,
}
use fastrpc.DspQueue.State.{aee_erpc}
use fastrpc.WakeLock.{
  live, destroyed, WakeLock, System, is_file, called, take_lock, drop_lock, release_loop,
  close_files, init_failed, open_files,
}

-- The kernel's lock goes with the count, which fits its word; an initialised wake lock has its files
-- and its mutex.
pub record IsConsistent (w : WakeLock) : Type 0 where
  pub held_counted : w.held ≡ not (w.count == 0)
  pub fits : w.count < u32_mod
  pub lock_open : w.init_done ≡ true → is_file w.lock ≡ true
  pub unlock_open : w.init_done ≡ true → is_file w.unlock ≡ true
  pub mutex_live : w.init_done ≡ true → w.wmut ≡ live

pub take_lock-IsConsistent :
    (s : System) (w : WakeLock)
    → w.init_done ≡ true
    → w.count + 1 < u32_mod
    → IsConsistent w
    → IsConsistent (take_lock s w).1
unfolding take_lock
take_lock-IsConsistent s w i room h = ground arith

pub drop_lock-IsConsistent :
    (s : System) (w : WakeLock)
    → w.init_done ≡ true
    → IsConsistent w
    → IsConsistent (drop_lock s w).1 × ((drop_lock s w).1.init_done ≡ true)
unfolding drop_lock
drop_lock-IsConsistent s w i h = ground arith

pub release_loop-IsConsistent :
    (n : ℕ) (s : System) (w : WakeLock)
    → w.init_done ≡ true
    → IsConsistent w
    → IsConsistent (release_loop n s w)
unfolding release_loop
release_loop-IsConsistent zero s w i h = h
release_loop-IsConsistent (suc n) s w i h =
    let d = drop_lock-IsConsistent s w i h in
    let rest = release_loop-IsConsistent n s (drop_lock s w).1 (d.1) (d.0) in
    elim (Bool-cases (w.count == 0)) [
      | inl z ↦ rw z h
      | inr k ↦ rw k (elim (Bool-cases ((drop_lock s w).0 == 0)) [
        | inl ok ↦ rw ok rest
        | inr bad ↦ rw bad (d.0)
      ])
    ]

-- Closing the files leaves the count and the kernel's lock.
pub close_files-keeps :
    (s : System) (w : WakeLock)
    → let r = (close_files s w).1 in
      (r.held ≡ w.held) × (r.count ≡ w.count) × (r.init_done ≡ w.init_done)
unfolding close_files
close_files-keeps s w = ground arith

pub init_failed-keeps :
    (s : System) (code : ℕ) (w : WakeLock)
    → let r = (init_failed s code w).1 in
      (r.held ≡ w.held)
      × (r.count ≡ w.count)
      × (r.init_done ≡ w.init_done)
      × (r.wmut ≡ destroyed)
      × (r.wmut_int ≡ w.wmut_int)
unfolding init_failed close_files
init_failed-keeps s code w = ground arith

pub uninit-IsConsistent :
    (w v : WakeLock)
    → IsConsistent w
    → v.init_done ≡ false
    → v.held ≡ w.held
    → v.count ≡ w.count
    → IsConsistent v
uninit-IsConsistent w v h i e c = ground arith

pub deinit_started-IsConsistent :
    (w : WakeLock) → IsConsistent w → IsConsistent (record w { deinit_started = true })
deinit_started-IsConsistent w h = ground arith

pub open_files-IsConsistent :
    (s : System) (w : WakeLock)
    → w.init_done ≡ false
    → w.wmut ≡ live
    → IsConsistent w
    → IsConsistent (open_files s w).1
unfolding open_files
open_files-IsConsistent s w i m h =
    let w1 = record (called w) { lock = s.open_file w.calls } in
    let w2 = record (called w1) { unlock = s.open_file w1.calls } in
    let f = init_failed-keeps s aee_erpc w in
    let f1 = init_failed-keeps s aee_erpc w1 in
    let f2 = init_failed-keeps s aee_erpc w2 in
    elim (Bool-cases (s.prints w.calls)) [
      | inr n ↦ rw n (uninit-IsConsistent w (init_failed s aee_erpc w).1 h (f.2 ∙ i) (f.0) (f.1))
      | inl p ↦ rw p (elim (Bool-cases (is_file w1.lock)) [
        | inr n ↦
            rw n (uninit-IsConsistent w (init_failed s aee_erpc w1).1 h (f1.2 ∙ i) (f1.0) (f1.1))
        | inl a ↦ rw a (elim (Bool-cases (is_file w2.unlock)) [
          | inr n ↦
              rw n (uninit-IsConsistent w (init_failed s aee_erpc w2).1 h (f2.2 ∙ i) (f2.0) (f2.1))
          | inl b ↦ rw b (record {
            held_counted = h.held_counted;
            fits = h.fits;
            lock_open = λ e. a;
            unlock_open = λ e. b;
            mutex_live = λ e. m;
          })
        ])
      ])
    ]
