-- ===== src/DspQueue/Multidomain.antt =====
-- `dspqueue_multidomain_write` and `dspqueue_multidomain_read`: one queue for each domain, served in
-- order.
pub mod Order
use fastrpc.Common.{
  ℕ, ◌+◌, ◌≤◌, ◌<◌, ◌≡◌, ◌≢◌, ◌⊎◌, refl, ap, ◌∙◌, inl, inr, Bool, true, false, Bool-cases, not,
  ◌&&◌, Option, none, some, List, [], ◌∷◌, ◌++◌, arith, leb, ltb, ◌==◌, if◌then◌else◌, length,
}
use fastrpc.DspQueue.State.{
  Queue, aee_ebadstate, aee_ewouldblock, aee_eunsupported, aee_einvaliditem,
}
use fastrpc.DspQueue.Blocking.{Attempt, done, crash, unfinished}

-- `struct dspqueue_multidomain` with the queues that its handles stand for.
pub record Multidomain : Type 0 where
  pub is_mdq : Bool
  pub queues : List Queue

-- What a call comes to: a code, all the queues, and what is handed out; or the outcome of a call on one
-- queue that did not return.
pub data Served (A : Type 0) : Type 0 where
  served : ℕ → List Queue → A → Served A
  crashed : Served A
  unserved : Served A

module _ {A : Type 0} where
  abbrev pub put_first : Queue → Served A → Served A
  put_first q (served code qs a) = served code (q ∷ qs) a
  put_first q crashed = crashed
  put_first q unserved = unserved

  -- After the call on one queue: on with the rest, or out with the error.
  unfoldable pub write_next : List Queue → A → Attempt A → Served A → Served A
  write_next qs nothing (done code q' a) rest =
      if code == 0 then put_first q' rest else served code (q' ∷ qs) nothing
  write_next qs nothing crash rest = crashed
  write_next qs nothing (unfinished q') rest = unserved

  -- The loop of `dspqueue_multidomain_write`: it stops at the first failure.
  unfoldable pub write_each : (Queue → Attempt A) → A → List Queue → Served A
  write_each try nothing [] = served 0 [] nothing
  write_each try nothing (q ∷ qs) = write_next qs nothing (try q) (write_each try nothing qs)

  -- At the end any error becomes AEE_EBADSTATE.
  abbrev pub bad_state : Served A → Served A
  bad_state (served code qs a) = served (if code == 0 then 0 else aee_ebadstate) qs a
  bad_state crashed = crashed
  bad_state unserved = unserved

  -- `dspqueue_multidomain_write`, where `try` is the blocking or the non-blocking write of the packet.
  unfoldable pub multidomain_write : (Queue → Attempt A) → A → Multidomain → Served A
  multidomain_write try nothing m = bad_state (
      if m.is_mdq
      then write_each try nothing m.queues
      else served aee_einvaliditem m.queues nothing)

  unfoldable pub read_next : List Queue → Attempt A → Served A → Served A
  read_next qs (done code q' a) next =
      if code == aee_ewouldblock then put_first q' next else served code (q' ∷ qs) a
  read_next qs crash next = crashed
  read_next qs (unfinished q') next = unserved

  -- The loop of `dspqueue_multidomain_read`: the first queue with a packet, or with an error other than
  -- AEE_EWOULDBLOCK, ends it; `last` is the code so far.
  unfoldable pub read_first : (Queue → Attempt A) → A → ℕ → List Queue → Served A
  read_first try nothing last [] = served last [] nothing
  read_first try nothing last (q ∷ qs) =
      read_next qs (try q) (read_first try nothing aee_ewouldblock qs)

  -- `dspqueue_multidomain_read` for a read or a peek that blocks or not.
  unfoldable pub multidomain_read : Bool → (Queue → Attempt A) → A → Multidomain → Served A
  multidomain_read block try nothing m =
      if m.is_mdq
      then (if block && ltb 1 (length m.queues)
          then served aee_eunsupported m.queues nothing
          else read_first try nothing 0 m.queues)
      else served aee_einvaliditem m.queues nothing
