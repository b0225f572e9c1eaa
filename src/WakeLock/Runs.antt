-- ===== src/WakeLock/Runs.antt =====
-- Over all sequences of the operations of src/fastrpc_pm.c.
use fastrpc.Common.{
  ℕ, ◌+◌, ◌<◌, ◌≡◌, inl, inr, refl, ◌∙◌, ap, subst, true, false, Bool-cases, some, ◌==◌,
  if◌then◌else◌, if_keeps, pos, u32_mod, arith,
}
use fastrpc.DspQueue.State.{aee_erpc}
use fastrpc.WakeLock.{
  Mutex, unset, live, destroyed, WakeLock, System, called, with_mutex, take_lock, wake_lock,
  drop_lock, wake_unlock, release_loop, close_files, init_failed, open_files, wake_lock_init,
  wake_lock_deinit,
}
use fastrpc.WakeLock.Held.{
  IsConsistent, take_lock-IsConsistent, drop_lock-IsConsistent, release_loop-IsConsistent,
  close_files-keeps, init_failed-keeps, uninit-IsConsistent, deinit_started-IsConsistent,
  open_files-IsConsistent,
}

-- A step: a call that returns. A lock does not wrap the count.
pub data Step (s : System) : WakeLock → WakeLock → Type 0 where
  locked :
      (w : WakeLock) (r : ℕ × WakeLock)
      → w.count + 1 < u32_mod
      → wake_lock s w ≡ some r
      → Step s w (r.1)
  unlocked : (w : WakeLock) (r : ℕ × WakeLock) → wake_unlock s w ≡ some r → Step s w (r.1)
  initialised : (w : WakeLock) (r : ℕ × WakeLock) → wake_lock_init s w ≡ some r → Step s w (r.1)
  deinitialised : (w : WakeLock) (r : ℕ × WakeLock) → wake_lock_deinit s w ≡ some r → Step s w (r.1)

pub data Reach (s : System) (v : WakeLock) : WakeLock → Type 0 where
  here : Reach s v v
  next : {w u : WakeLock} → Reach s v w → Step s w u → Reach s v u

result : (x r : ℕ × WakeLock) → some x ≡ some r → x.1 ≡ r.1
result x r e = let same : x ≡ r = cc in ap (λ (y : ℕ × WakeLock). y.1) same

-- What a call under the mutex returns.
with_mutex-result :
    (m : Mutex) (x r : ℕ × WakeLock) → with_mutex m x ≡ some r → (x.1 ≡ r.1) × (m ≡ live)
with_mutex-result unset x r e = absurd (ground arith)
with_mutex-result live x r e = (result x r e, refl)
with_mutex-result destroyed x r e = absurd (ground arith)

-- A call that starts with the test of `init_done`.
guarded-IsConsistent :
    (w : WakeLock) (x r : ℕ × WakeLock)
    → IsConsistent w
    → (w.init_done ≡ true → IsConsistent (x.1))
    → (if w.init_done then with_mutex w.wmut x else some (aee_erpc, w)) ≡ some r
    → IsConsistent (r.1)
guarded-IsConsistent w x r h k e = elim (Bool-cases w.init_done) [
  | inl y ↦ subst IsConsistent (with_mutex-result w.wmut x r (ground arith)).0 (k y)
  | inr n ↦ subst IsConsistent (result (aee_erpc, w) r (ground arith)) h
]

wake_lock-IsConsistent :
    (s : System) (w : WakeLock) (r : ℕ × WakeLock)
    → w.count + 1 < u32_mod
    → IsConsistent w
    → wake_lock s w ≡ some r
    → IsConsistent (r.1)
unfolding wake_lock
wake_lock-IsConsistent s w r room h =
    guarded-IsConsistent w (if w.deinit_started then (aee_erpc, w) else take_lock s w) r h (λ i.
      if_keeps (λ (x : ℕ × WakeLock). IsConsistent (x.1)) w.deinit_started (aee_erpc, w)
        (take_lock s w) h (take_lock-IsConsistent s w i room h))

wake_unlock-IsConsistent :
    (s : System) (w : WakeLock) (r : ℕ × WakeLock)
    → IsConsistent w
    → wake_unlock s w ≡ some r
    → IsConsistent (r.1)
unfolding wake_unlock
wake_unlock-IsConsistent s w r h =
    guarded-IsConsistent w (drop_lock s w) r h (λ i. (drop_lock-IsConsistent s w i h).0)

wake_lock_init-IsConsistent :
    (s : System) (w : WakeLock) (r : ℕ × WakeLock)
    → IsConsistent w
    → wake_lock_init s w ≡ some r
    → IsConsistent (r.1)
unfolding wake_lock_init
wake_lock_init-IsConsistent s w r h e =
    let w1 = record w { deinit_started = false } in
    let code = s.mutex_init w1.calls in
    let w2 = record (called w1) { wmut_int = true; wmut = if code == 0 then live else w1.wmut } in
    elim (Bool-cases w.init_done) [
      | inl y ↦ subst IsConsistent (result (0, w) r (ground arith)) h
      | inr n ↦ elim (Bool-cases w.wmut_int) [
        | inl again ↦
            let q = with_mutex-result w1.wmut (open_files s w1) r (ground arith) in
            subst IsConsistent (q.0)
              (open_files-IsConsistent s w1 n (q.1) (uninit-IsConsistent w w1 h n refl refl))
        | inr first ↦ elim (Bool-cases (code == 0)) [
          | inl ok ↦
              let q = with_mutex-result w2.wmut (open_files s w2) r (ground arith) in
              subst IsConsistent (q.0)
                (open_files-IsConsistent s w2 n (q.1) (uninit-IsConsistent w w2 h n refl refl))
          | inr bad ↦
              let f = init_failed-keeps s code w2 in
              subst IsConsistent (result (init_failed s code w2) r (ground arith))
                (uninit-IsConsistent w (init_failed s code w2).1 h (f.2 ∙ n) (f.0) (f.1))
        ]
      ]
    ]

wake_lock_deinit-IsConsistent :
    (s : System) (w : WakeLock) (r : ℕ × WakeLock)
    → IsConsistent w
    → wake_lock_deinit s w ≡ some r
    → IsConsistent (r.1)
unfolding wake_lock_deinit
wake_lock_deinit-IsConsistent s w r h e =
    let w1 = record w { deinit_started = true } in
    let w2 = release_loop w1.count s w1 in
    let c = close_files s w2 in
    let x : ℕ × WakeLock = (c.0, record (c.1) { init_done = false }) in
    elim (Bool-cases w.init_done) [
      | inr n ↦ subst IsConsistent (result (0, w) r (ground arith)) h
      | inl y ↦
          let k = close_files-keeps s w2 in
          let h2 = release_loop-IsConsistent w1.count s w1 y (deinit_started-IsConsistent w h) in
          subst IsConsistent (with_mutex-result w.wmut x r (ground arith)).0
            (uninit-IsConsistent w2 (x.1) h2 refl (k.0) (k.1))
    ]

Step-IsConsistent : {s : System} {w u : WakeLock} → Step s w u → IsConsistent w → IsConsistent u
Step-IsConsistent {s} (locked w r room e) h = wake_lock-IsConsistent s w r room h e
Step-IsConsistent {s} (unlocked w r e) h = wake_unlock-IsConsistent s w r h e
Step-IsConsistent {s} (initialised w r e) h = wake_lock_init-IsConsistent s w r h e
Step-IsConsistent {s} (deinitialised w r e) h = wake_lock_deinit-IsConsistent s w r h e

-- Before any call.
abbrev pub idle : WakeLock
idle = record {
  lock = pos 0;
  unlock = pos 0;
  wmut = unset;
  count = 0;
  init_done = false;
  deinit_started = false;
  wmut_int = false;
  held = false;
  calls = 0;
}

-- Over all sequences of initialisations, locks, unlocks and deinitialisations that return, whatever
-- system calls fail, with counts that do not wrap: the kernel holds the wake lock exactly while the
-- count is not zero, and while the wake lock is initialised both files are open and the mutex is live.
pub Reach-IsConsistent : {s : System} {w : WakeLock} → Reach s idle w → IsConsistent w
Reach-IsConsistent here = ground arith
Reach-IsConsistent (next r step) = Step-IsConsistent step (Reach-IsConsistent r)
