-- ===== src/WakeLock/Failing.antt =====
-- Initialisations of src/fastrpc_pm.c that fail.
use fastrpc.Common.{
  ℕ, ◌≡◌, ◌≢◌, inl, inr, refl, ◌∙◌, subst, true, false, Bool-cases, none, some, ◌==◌, arith,
}
use fastrpc.DspQueue.State.{aee_erpc}
use fastrpc.WakeLock.{
  live, destroyed, WakeLock, System, is_file, called, init_failed, open_files, wake_lock_init,
}
use fastrpc.WakeLock.Held.{init_failed-keeps}

pair_result : (x r : ℕ × WakeLock) → some x ≡ some r → x ≡ r
pair_result x r e = cc

-- What a failure of `open_files` leaves.
abbrev Failed : WakeLock → ℕ × WakeLock → Type 0
Failed w x =
    x.0 ≢ 0 → (x.1.wmut ≡ destroyed) × (x.1.init_done ≡ w.init_done) × (x.1.wmut_int ≡ w.wmut_int)

init_failed-Failed : (s : System) (w : WakeLock) → Failed w (init_failed s aee_erpc w)
init_failed-Failed s w x = let f = init_failed-keeps s aee_erpc w in (f.3, f.2, f.4)

open_files-Failed : (s : System) (w : WakeLock) → Failed w (open_files s w)
unfolding open_files
open_files-Failed s w =
    let w1 = record (called w) { lock = s.open_file w.calls } in
    let w2 = record (called w1) { unlock = s.open_file w1.calls } in
    elim (Bool-cases (s.prints w.calls)) [
      | inr n ↦ rw n (init_failed-Failed s w)
      | inl p ↦ rw p (elim (Bool-cases (is_file w1.lock)) [
        | inr n ↦ rw n (init_failed-Failed s w1)
        | inl a ↦ rw a (elim (Bool-cases (is_file w2.unlock)) [
          | inr n ↦ rw n (init_failed-Failed s w2)
          | inl b ↦ rw b (λ x. absurd (x refl))
        ])
      ])
    ]

locks_destroyed :
    (s : System) (w : WakeLock)
    → w.wmut ≡ destroyed
    → w.init_done ≡ false
    → w.wmut_int ≡ true
    → wake_lock_init s w ≡ none
unfolding wake_lock_init
locks_destroyed s w m i first = ground arith

-- Where the first initialisation sets the mutex up and then fails, the next one locks a mutex that was
-- destroyed.
pub init_after_failed_init :
    (s : System) (w : WakeLock) (r : ℕ × WakeLock)
    → w.wmut_int ≡ false
    → w.init_done ≡ false
    → s.mutex_init w.calls ≡ 0
    → wake_lock_init s w ≡ some r
    → r.0 ≢ 0
    → (r.1.wmut ≡ destroyed) × (wake_lock_init s (r.1) ≡ none)
unfolding wake_lock_init
init_after_failed_init s w r first fresh ok e failed =
    let w2 = record (called w) { deinit_started = false; wmut_int = true; wmut = live } in
    let yes_ok : (s.mutex_init w.calls == 0) ≡ true = ground arith in
    let e2 : some (open_files s w2) ≡ some r = ground arith in
    let same = pair_result (open_files s w2) r e2 in
    let f = subst (Failed w2) same (open_files-Failed s w2) failed in
    (f.0, locks_destroyed s (r.1) (f.0) (f.1 ∙ fresh) (f.2))
