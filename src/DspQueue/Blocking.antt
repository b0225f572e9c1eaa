-- ===== src/DspQueue/Blocking.antt =====
-- The blocking calls `dspqueue_write`, `dspqueue_read` and `dspqueue_peek`: attempts without blocking,
-- the wait counter that asks the other side for a signal, and the wait.
pub mod Waits
pub mod Ends
use fastrpc.Common.{
  ℕ, zero, suc, ◌+◌, ◌-◌, ◌*◌, ◌/◌, ◌%◌, ◌^◌, ◌≤◌, ◌<◌, ◌≡◌, ◌≢◌, ◌⊎◌, refl, ap, ◌∙◌, inl, inr,
  Bool, true, false, Bool-cases, not, ◌&&◌, Option, none, some, List, [], ◌∷◌, arith, leb, ltb,
  ◌==◌, if◌then◌else◌, add_u32, sub_u32, u32_mod,
}
use fastrpc.DspQueue.State.{PacketQueue, Queue, Outcome, ret, abort, aee_efailed, aee_ewouldblock}
use fastrpc.DspQueue.Header.{Peeked}
use fastrpc.DspQueue.Write.{Driver, Packet, write_noblock}
use fastrpc.DspQueue.Read.{Room, Received, ReadResult, peek_noblock}
use fastrpc.DspQueue.Wakeup.{Poll, Reading, returned, still_polling, read_noblock}

-- One attempt, or the whole call: a code with the queue and what is handed out, a failed `assert`, or
-- a call that has not returned within the events given.
pub data Attempt (A : Type 0) : Type 0 where
  done : ℕ → Queue → A → Attempt A
  crash : Attempt A
  unfinished : Queue → Attempt A

-- How a call of `wait_signal_locked` ends: its code, and what the other side has done to the queue
-- in the meantime.
pub record Wait : Type 0 where
  pub code : ℕ
  pub change : Queue → Queue

-- What the call finds: whether the clock can be read, and the waits in their order.
pub record Env : Type 0 where
  pub clock_works : Bool
  pub waits : List Wait

-- DSPQUEUE_TIMEOUT_NONE
abbrev pub timeout_none : ℕ
timeout_none = 2 ^ 32 - 1

module _ {A : Type 0} where
  -- `bail`: the wait counter is taken back.
  unfoldable pub bail : (Queue → Queue) → Attempt A → Attempt A
  bail undo (done code q a) = done code (undo q) a
  bail undo crash = crash
  bail undo (unfinished q) = unfinished q

  -- Goes on with `next` if the attempt would block.
  unfoldable pub or_block : Attempt A → (Queue → Attempt A) → Attempt A
  or_block (done code q a) next = if code == aee_ewouldblock then next q else done code q a
  or_block crash next = crash
  or_block (unfinished q) next = unfinished q

  -- `while (1)`: a wait, then an attempt.
  unfoldable pub wait_loop : (Queue → Attempt A) → A → List Wait → Queue → Attempt A
  wait_loop try nothing [] q = unfinished q
  wait_loop try nothing (e ∷ es) q =
      let again = wait_loop try nothing es in
      if e.code == 0 then or_block (try (e.change q)) again else done e.code (e.change q) nothing

  -- The timeout's expiry is computed, if there is one; then the loop.
  unfoldable pub timed_loop : (Queue → Attempt A) → A → Env → ℕ → Queue → Attempt A
  timed_loop try nothing env timeout_us q =
      if not (timeout_us == timeout_none) && not env.clock_works
      then done aee_efailed q nothing
      else wait_loop try nothing env.waits q

  -- The shape of the three calls: an attempt; if it would block, the wait counter is raised and the
  -- attempt repeated, then the waits follow; at `bail` the counter is lowered again.
  unfoldable pub blocking :
      (Queue → Queue) → (Queue → Queue) → (Queue → Attempt A) → A → Env → ℕ → Queue → Attempt A
  blocking raise lower try nothing env timeout_us q = or_block (try q) λ q1.
      if q1.have_wait_counts
      then bail lower (or_block (try (raise q1)) (timed_loop try nothing env timeout_us))
      else timed_loop try nothing env timeout_us q1

-- `atomic_fetch_add` and `atomic_fetch_sub` on the counter of a writer that waits for space.
abbrev pub raise_write_wait : Queue → Queue
raise_write_wait q = record q {
  req = record (q.req) { write_wait_count = add_u32 q.req.write_wait_count 1 };
}

abbrev pub lower_write_wait : Queue → Queue
lower_write_wait q = record q {
  req = record (q.req) { write_wait_count = sub_u32 q.req.write_wait_count 1 };
}

-- The same on the counter of a reader that waits for a packet.
abbrev pub raise_read_wait : Queue → Queue
raise_read_wait q = record q {
  resp = record (q.resp) { read_wait_count = add_u32 q.resp.read_wait_count 1 };
}

abbrev pub lower_read_wait : Queue → Queue
lower_read_wait q = record q {
  resp = record (q.resp) { read_wait_count = sub_u32 q.resp.read_wait_count 1 };
}

abbrev pub write_attempt : Outcome Queue → Attempt (Unit {0})
write_attempt (ret code q) = done code q tt
write_attempt abort = crash

abbrev pub read_attempt : Reading → Attempt (Option Received)
read_attempt (returned (ret code (q, got))) = done code q got
read_attempt (returned abort) = crash
read_attempt (still_polling q) = unfinished q

abbrev pub peek_attempt : Queue → Outcome (Option Peeked) → Attempt (Option Peeked)
peek_attempt q (ret code got) = done code q got
peek_attempt q abort = crash

-- `dspqueue_write` on the queue of one domain.
unfoldable pub dspqueue_write : Driver → Packet → Env → ℕ → Queue → Attempt (Unit {0})
unfolding blocking
dspqueue_write driver p =
    blocking raise_write_wait lower_write_wait (λ q. write_attempt (write_noblock driver q p)) tt

-- `dspqueue_read`. An attempt may poll: `start` and `polls` are what an attempt on a queue meets.
unfoldable pub dspqueue_read :
    Driver
    → Room
    → (Queue → Option ℕ)
    → (Queue → List Poll)
    → Env
    → ℕ
    → Queue
    → Attempt (Option Received)
unfolding blocking
dspqueue_read driver room start polls =
    blocking raise_read_wait lower_read_wait
      (λ q. read_attempt (read_noblock driver q room (start q) (polls q))) none

-- `dspqueue_peek`
unfoldable pub dspqueue_peek : Env → ℕ → Queue → Attempt (Option Peeked)
unfolding blocking
dspqueue_peek = blocking raise_read_wait lower_read_wait (λ q. peek_attempt q (peek_noblock q)) none
