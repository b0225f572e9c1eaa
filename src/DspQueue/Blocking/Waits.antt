-- ===== src/DspQueue/Blocking/Waits.antt =====
-- What the blocking calls promise: the wait counter is balanced, and the result is that of an attempt or
-- of a wait.
use fastrpc.Common.{
  ℕ, ◌<◌, ◌≡◌, ◌≢◌, ◌⊎◌, refl, ap, subst, ◌∙◌, inl, inr, Bool, true, false, Bool-cases, not, ◌&&◌,
  Option, none, some, List, [], ◌∷◌, arith, ◌==◌, if◌then◌else◌, add_u32, u32_mod, align8, Bytes,
}
use fastrpc.DspQueue.State.{Queue, Outcome, ret, abort, aee_ebadparm, aee_efailed, aee_ewouldblock}
use fastrpc.DspQueue.Refs.{ref_buffers}
use fastrpc.DspQueue.Write.{
  buffers_at, packet_length, Driver, Packet, write_noblock, write_reserved, finish_write, publish,
  notify_reader, undo_refs, emit, reserve, check_packet, Reserved, room, would_block, failed_assert,
}
use fastrpc.DspQueue.Blocking.{
  Attempt, done, crash, unfinished, Wait, Env, bail, or_block, wait_loop, timed_loop,
  dspqueue_write, write_attempt, raise_write_wait, lower_write_wait, timeout_none,
}

-- A property of the queue and the code that a call returns; a call that fails an `assert` or has not
-- returned is left out.
abbrev pub OnReturn {ℓ} : {A : Type 0} → (ℕ → Queue → A → Type ℓ) → Attempt A → Type ℓ
OnReturn P (done code q a) = P code q a
OnReturn P crash = Unit
OnReturn P (unfinished q) = Unit

-- A property of every wait.
abbrev pub AllWaits {ℓ} : (Wait → Type ℓ) → List Wait → Type ℓ
AllWaits P [] = Unit
AllWaits P (e ∷ es) = P e × AllWaits P es

-- An attempt ends in a state from which it can be repeated, or in one that is final.
abbrev Tried {ℓ κ} :
    {A : Type 0} → (Queue → Type ℓ) → (ℕ → Queue → A → Type κ) → Attempt A → Type (ℓ ⊔ κ)
Tried Inv P =
    OnReturn (λ code q a. (code ≡ aee_ewouldblock → Inv q) × (code ≢ aee_ewouldblock → P code q a))

module _ {A : Type 0} (try : Queue → Attempt A) (nothing : A) (Inv : Queue → Type 0)
    (P : ℕ → Queue → A → Type 0) (tries : (q : Queue) → Inv q → Tried Inv P (try q)) where
  or_block-Return :
      (r : Attempt A) (next : Queue → Attempt A)
      → Tried Inv P r
      → ((q : Queue) → Inv q → OnReturn P (next q))
      → OnReturn P (or_block r next)
  unfolding or_block
  or_block-Return (done code q a) next h k = elim (Bool-cases (code == aee_ewouldblock)) [
    | inl e ↦ rw e (k q (h.0 (ground arith)))
    | inr e ↦ rw e (h.1 (ground arith))
  ]
  or_block-Return crash next h k = tt
  or_block-Return (unfinished q) next h k = tt

  -- A wait keeps the state, and may end the call.
  abbrev Waited : Wait → Type 0
  Waited e = (q : Queue) → Inv q → Inv (e.change q) × (e.code ≢ 0 → P e.code (e.change q) nothing)

  wait_loop-Return :
      (es : List Wait) (q : Queue)
      → AllWaits Waited es
      → Inv q
      → OnReturn P (wait_loop try nothing es q)
  unfolding wait_loop
  wait_loop-Return [] q ws h = tt
  wait_loop-Return (e ∷ es) q (w, ws) h =
      let again = λ (x : Queue) (y : Inv x). wait_loop-Return es x ws y in
      elim (Bool-cases (e.code == 0)) [
        | inl t ↦ rw t (
            or_block-Return (try (e.change q)) (wait_loop try nothing es)
              (tries (e.change q) (w q h).0) again)
        | inr t ↦ rw t ((w q h).1 (ground arith))
      ]

  timed_loop-Return :
      (env : Env) (timeout_us : ℕ) (q : Queue)
      → AllWaits Waited env.waits
      → ((q : Queue) → Inv q → P aee_efailed q nothing)
      → Inv q
      → OnReturn P (timed_loop try nothing env timeout_us q)
  unfolding timed_loop
  timed_loop-Return env timeout_us q ws expiry h =
      elim (Bool-cases (not (timeout_us == timeout_none) && not env.clock_works)) [
        | inl t ↦ rw t (expiry q h)
        | inr t ↦ rw t (wait_loop-Return env.waits q ws h)
      ]

-- The counter of writers that wait for space.
abbrev pub write_waits : Queue → ℕ
write_waits q = q.req.write_wait_count

-- A wait that ends without AEE_EWOULDBLOCK, during which the other side leaves the counter alone.
abbrev pub IsFair : Wait → Type 0
IsFair e = (e.code ≢ aee_ewouldblock) × ((q : Queue) → write_waits (e.change q) ≡ write_waits q)

-- A call that returns this has counted `n` waiting writers at its end, does not say that it would
-- block, and has succeeded, if at all, by a successful attempt that left the queue `q`.
abbrev Settled : Driver → Packet → ℕ → ℕ → Queue → Unit {0} → Type 0
Settled driver p n code q a =
    (write_waits q ≡ n)
    × (code ≢ aee_ewouldblock)
    × (code ≡ 0 → (q₀ : Queue) × (write_noblock driver q₀ p ≡ ret 0 q))

-- The queue that a write returns has counted `n` waiting writers.
abbrev CountsWaits : ℕ → Outcome Queue → Type 0
CountsWaits n (ret code q) = write_waits q ≡ n
CountsWaits n abort = Unit

if-CountsWaits :
    (n : ℕ) (b : Bool) (x y : Outcome Queue)
    → CountsWaits n x
    → CountsWaits n y
    → CountsWaits n (if b then x else y)
if-CountsWaits n true x y hx hy = hx
if-CountsWaits n false x y hx hy = hy

notify_reader-waits :
    (driver : Driver) (q : Queue) → write_waits (notify_reader driver q).1 ≡ write_waits q
unfolding notify_reader
notify_reader-waits driver q = ground arith

module _ (driver : Driver) (p : Packet) where
  finish_write-CountsWaits :
      (q : Queue) (handled : ℕ) (r : Option (Bytes × ℕ))
      → CountsWaits (write_waits q) (finish_write driver q p handled r)
  unfolding finish_write publish undo_refs
  finish_write-CountsWaits q handled none = tt
  finish_write-CountsWaits q handled (some (bytes, w)) =
      let sent = notify_reader driver (publish q bytes w) in
      if-CountsWaits (write_waits q) (sent.0 == 0) _ _
        (notify_reader-waits driver (publish q bytes w))
        (notify_reader-waits driver (publish q bytes w))

  write_reserved-CountsWaits :
      (q : Queue) (r : Reserved) → CountsWaits (write_waits q) (write_reserved driver q p r)
  unfolding write_reserved undo_refs
  write_reserved-CountsWaits q failed_assert = tt
  write_reserved-CountsWaits q would_block = refl
  write_reserved-CountsWaits q (room w wrap) =
      let refs = ref_buffers aee_ebadparm q.domain q.maps 0 p.num_buffers (buffers_at p) in
      if-CountsWaits (write_waits q) (refs.code == 0) _ _
        (finish_write-CountsWaits (record q { maps = refs.maps }) refs.buf_refs
          (emit q.req w wrap q.seq_no p))
        refl

  write_noblock-CountsWaits : (q : Queue) → CountsWaits (write_waits q) (write_noblock driver q p)
  unfolding write_noblock
  write_noblock-CountsWaits q =
      if-CountsWaits (write_waits q) (check_packet q.req.queue_length p) _ _
        (if-CountsWaits (write_waits q) (q.header_queue_count == q.queue_count) _ _
          (write_reserved-CountsWaits q (reserve q.req (align8 (packet_length p)))) refl)
        refl

  write_attempt-Tried :
      (n : ℕ) (q : Queue) (r : Outcome Queue)
      → write_noblock driver q p ≡ r
      → CountsWaits n r
      → Tried (λ q. write_waits q ≡ n) (Settled driver p n) (write_attempt r)
  write_attempt-Tried n q (ret code q') e k =
      (λ _. k, λ ne. (k, ne, λ z. (q, e ∙ ap (λ c. ret c q') z)))
  write_attempt-Tried n q abort e k = tt

  try_write-Tried :
      (n : ℕ) (q : Queue)
      → write_waits q ≡ n
      → Tried
          (λ q. write_waits q ≡ n)
          (Settled driver p n)
          (write_attempt (write_noblock driver q p))
  try_write-Tried n q h =
      write_attempt-Tried n q (write_noblock driver q p) refl
        (subst (λ m. CountsWaits m (write_noblock driver q p)) h (write_noblock-CountsWaits q))

  -- The loop of waits and attempts, with any number of waiting writers counted.
  waits-Settled :
      (n : ℕ) (env : Env) (timeout_us : ℕ) (q : Queue)
      → AllWaits IsFair env.waits
      → write_waits q ≡ n
      → OnReturn
          (Settled driver p n)
          (timed_loop (λ q. write_attempt (write_noblock driver q p)) tt env timeout_us q)
  waits-Settled n env timeout_us q fair h =
      timed_loop-Return (λ q. write_attempt (write_noblock driver q p)) tt (λ q. write_waits q ≡ n)
        (Settled driver p n) (try_write-Tried n) env timeout_us q (all_fair env.waits fair)
        (λ q h. (h, omega arith, λ z. absurd (omega arith))) h
    where
      all_fair :
          (es : List Wait)
          → AllWaits IsFair es
          → AllWaits
              (λ e.
                (q : Queue)
                → write_waits q ≡ n
                → (write_waits (e.change q) ≡ n)
                  × (e.code ≢ 0 → Settled driver p n e.code (e.change q) tt))
              es
      all_fair [] fair = tt
      all_fair (e ∷ es) (f, fair) =
          (λ q h. (f.1 q ∙ h, λ ne. (f.1 q ∙ h, f.0, λ z. absurd (ne z))), all_fair es fair)

-- What is known of each return is known after a weakening, and after `bail`.
OnReturn-map :
    {A : Type 0} {P Q : ℕ → Queue → A → Type 0} (r : Attempt A)
    → ((code : ℕ) (q : Queue) (a : A) → P code q a → Q code q a)
    → OnReturn P r
    → OnReturn Q r
OnReturn-map (done code q a) f h = f code q a h
OnReturn-map crash f h = tt
OnReturn-map (unfinished q) f h = tt

OnReturn-bail :
    {A : Type 0} {P : ℕ → Queue → A → Type 0} (Q : ℕ → Queue → A → Type 0) (undo : Queue → Queue)
    (r : Attempt A)
    → ((code : ℕ) (q : Queue) (a : A) → P code q a → Q code (undo q) a)
    → OnReturn P r
    → OnReturn Q (bail undo r)
unfolding bail
OnReturn-bail Q undo (done code q a) f h = f code q a h
OnReturn-bail Q undo crash f h = tt
OnReturn-bail Q undo (unfinished q) f h = tt

OnReturn-if :
    {A : Type 0} (P : ℕ → Queue → A → Type 0) (b : Bool) (x y : Attempt A)
    → OnReturn P x
    → OnReturn P y
    → OnReturn P (if b then x else y)
OnReturn-if P true x y hx hy = hx
OnReturn-if P false x y hx hy = hy

-- The counter is `n`, the code is not AEE_EWOULDBLOCK, and a success is that of an attempt, after which
-- only the counter may have been lowered.
abbrev pub Returned : Driver → Packet → ℕ → ℕ → Queue → Unit {0} → Type 0
Returned driver p n code q' a =
    (write_waits q' ≡ n)
    × (code ≢ aee_ewouldblock)
    × (code ≡ 0
        → (q₀ : Queue) × (q₁ : Queue) × (write_noblock driver q₀ p ≡ ret 0 q₁)
          × ((q' ≡ q₁) ⊎ (q' ≡ lower_write_wait q₁)))

Settled-Returned :
    (driver : Driver) (p : Packet) (n code : ℕ) (q : Queue) (a : Unit {0})
    → Settled driver p n code q a
    → Returned driver p n code q a
Settled-Returned driver p n code q a (h, ne, s) =
    (h, ne, λ z. let w = s z in (w.0, q, w.1, inl refl))

Settled-lowered :
    (driver : Driver) (p : Packet) (n code : ℕ) (q : Queue) (a : Unit {0})
    → n < u32_mod
    → Settled driver p (add_u32 n 1) code q a
    → Returned driver p n code (lower_write_wait q) a
Settled-lowered driver p n code q a low (h, ne, s) =
    (omega arith, ne, λ z. let w = s z in (w.0, q, w.1, inr refl))

-- `dspqueue_write` with any timeout, where waits end by codes other than AEE_EWOULDBLOCK and the other
-- side leaves the wait counter alone: whenever the call returns, the counter of waiting writers is
-- what it was, so a raised counter is always lowered again; the code is not AEE_EWOULDBLOCK; and on
-- success the packet went in by a successful attempt, after which only that counter changed.
pub dspqueue_write-Settled :
    (driver : Driver) (p : Packet) (env : Env) (timeout_us : ℕ) (q : Queue)
    → AllWaits IsFair env.waits
    → write_waits q < u32_mod
    → OnReturn (Returned driver p (write_waits q)) (dspqueue_write driver p env timeout_us q)
unfolding dspqueue_write
dspqueue_write-Settled driver p env timeout_us q fair low =
    let n = write_waits q in
    let try = λ (q : Queue). write_attempt (write_noblock driver q p) in
    or_block-Return try tt (λ q. write_waits q ≡ n) (Returned driver p n)
      (λ x h.
        OnReturn-map (try x)
          (λ code q a t. (t.0, λ ne. Settled-Returned driver p n code q a (t.1 ne)))
          (try_write-Tried driver p n x h))
      (try q) _
      (OnReturn-map (try q)
        (λ code q a t. (t.0, λ ne. Settled-Returned driver p n code q a (t.1 ne)))
        (try_write-Tried driver p n q refl))
      (λ q1 h.
        OnReturn-if (Returned driver p n) q1.have_wait_counts _ _
          (OnReturn-bail (Returned driver p n) lower_write_wait
            (or_block (try (raise_write_wait q1)) (timed_loop try tt env timeout_us))
            (λ code q a s. Settled-lowered driver p n code q a low s)
            (or_block-Return try tt (λ q. write_waits q ≡ add_u32 n 1)
              (Settled driver p (add_u32 n 1)) (try_write-Tried driver p (add_u32 n 1))
              (try (raise_write_wait q1)) (timed_loop try tt env timeout_us)
              (try_write-Tried driver p (add_u32 n 1) (raise_write_wait q1)
                (ap (λ k. add_u32 k 1) h))
              (λ q2 h2. waits-Settled driver p (add_u32 n 1) env timeout_us q2 fair h2)))
          (OnReturn-map (timed_loop try tt env timeout_us q1) (Settled-Returned driver p n)
            (waits-Settled driver p n env timeout_us q1 fair h)))
