-- ===== src/DspQueue/Blocking/Ends.antt =====
-- That a blocking write returns.
use fastrpc.Common.{
  ℕ, ◌≡◌, ◌≢◌, ◌⊎◌, inl, inr, refl, sym, subst, Bool, true, false, not, ◌&&◌, List, [], ◌∷◌, ◌++◌,
  arith, ◌==◌, if◌then◌else◌,
}
use fastrpc.DspQueue.State.{PacketQueue, Queue, Outcome, ret, abort, aee_ewouldblock, aee_efailed}
use fastrpc.DspQueue.Position.{used}
use fastrpc.DspQueue.Write.{Driver, Packet, write_noblock}
use fastrpc.DspQueue.Contents.{Item}
use fastrpc.DspQueue.Delivery.{item_of}
use fastrpc.DspQueue.Fifo.{IsFifo, WriteEffect, write_noblock-Effect}
use fastrpc.DspQueue.Blocking.{
  Attempt, done, crash, unfinished, Wait, Env, bail, or_block, wait_loop, timed_loop,
  dspqueue_write, write_attempt, raise_write_wait, lower_write_wait, timeout_none,
}
use fastrpc.DspQueue.Blocking.Waits.{AllWaits}

-- The request queue holds some packets.
abbrev pub HasFifo : Queue → Type 0
HasFifo q = (its : List Item) × IsFifo q.req its

-- The other side leaves a queue of packets behind.
abbrev pub KeepsFifo : Wait → Type 0
KeepsFifo e = (q : Queue) → HasFifo q → HasFifo (e.change q)

-- Some wait ends with an error, as a wait with a timeout does when it expires.
abbrev pub AnyFails : List Wait → Type 0
AnyFails [] = ⊥
AnyFails (e ∷ es) = (e.code ≢ 0) ⊎ AnyFails es

-- The call returns a code and leaves a queue of packets: no assertion fails and no event is missing.
abbrev pub Ends : Attempt (Unit {0}) → Type 0
Ends (done code q a) = HasFifo q
Ends crash = ⊥
Ends (unfinished q) = ⊥

if-Ends :
    (b : Bool) (x y : Attempt (Unit {0}))
    → (b ≡ true → Ends x)
    → (b ≡ false → Ends y)
    → Ends (if b then x else y)
if-Ends true x y hx hy = hx refl
if-Ends false x y hx hy = hy refl

-- The counter of waiting writers is no part of the packets.
counted-IsFifo :
    {pq : PacketQueue} {its : List Item} (n : ℕ)
    → IsFifo pq its
    → IsFifo (record pq { write_wait_count = n }) its
unfolding used
counted-IsFifo n f = record {
  aligned =
      let v = f.aligned in
      record {
        length_low = v.length_low;
        length_high = v.length_high;
        length_aligned = v.length_aligned;
        read_inside = v.read_inside;
        read_aligned = v.read_aligned;
        write_inside = v.write_inside;
        write_aligned = v.write_aligned;
      };
  holds = f.holds;
}

or_block-Ends :
    (r : Attempt (Unit {0})) (next : Queue → Attempt (Unit {0}))
    → Ends r
    → ((q : Queue) → HasFifo q → Ends (next q))
    → Ends (or_block r next)
unfolding or_block
or_block-Ends (done code q a) next h k =
    if-Ends (code == aee_ewouldblock) (next q) (done code q a) (λ _. k q h) (λ _. h)
or_block-Ends crash next h k = absurd h
or_block-Ends (unfinished q) next h k = absurd h

bail-Ends : (r : Attempt (Unit {0})) → Ends r → Ends (bail lower_write_wait r)
unfolding bail
bail-Ends (done code q a) h = (h.0, counted-IsFifo _ h.1)
bail-Ends crash h = h
bail-Ends (unfinished q) h = h

attempt-Ends :
    (its : List Item) (pq : PacketQueue) (written requests : ℕ) (p : Packet) (r : Outcome Queue)
    → IsFifo pq its
    → WriteEffect its pq written requests p r
    → Ends (write_attempt r)
attempt-Ends its pq written requests p (ret code q') f (inl d) = (its ++ item_of p ∷ [], d.fifo)
attempt-Ends its pq written requests p (ret code q') f (inr u) =
    (its, subst (λ pq. IsFifo pq its) (sym u.1) f)
attempt-Ends its pq written requests p abort f h = absurd h

module _ (driver : Driver) (p : Packet) where
  try_write-Ends : (q : Queue) → HasFifo q → Ends (write_attempt (write_noblock driver q p))
  try_write-Ends q (its, f) =
      attempt-Ends its q.req q.write_packet_count q.req_packet_count p (write_noblock driver q p) f
        (write_noblock-Effect driver q p f)

  wait_loop-Ends :
      (es : List Wait) (q : Queue)
      → AllWaits KeepsFifo es
      → AnyFails es
      → HasFifo q
      → Ends (wait_loop (λ q. write_attempt (write_noblock driver q p)) tt es q)
  unfolding wait_loop
  wait_loop-Ends [] q ks fails h = absurd fails
  wait_loop-Ends (e ∷ es) q (k, ks) fails h =
      if-Ends (e.code == 0) _ (done e.code (e.change q) tt)
        (λ woken.
          or_block-Ends (write_attempt (write_noblock driver (e.change q) p)) _
            (try_write-Ends (e.change q) (k q h))
            (λ x y. wait_loop-Ends es x ks (later fails woken) y))
        (λ _. k q h)
    where
      later : (e.code ≢ 0) ⊎ AnyFails es → (e.code == 0) ≡ true → AnyFails es
      later (inl ne) t = absurd (ne (ground arith))
      later (inr more) t = more

  timed_loop-Ends :
      (env : Env) (timeout_us : ℕ) (q : Queue)
      → AllWaits KeepsFifo env.waits
      → AnyFails env.waits
      → HasFifo q
      → Ends (timed_loop (λ q. write_attempt (write_noblock driver q p)) tt env timeout_us q)
  unfolding timed_loop
  timed_loop-Ends env timeout_us q ks fails h =
      if-Ends (not (timeout_us == timeout_none) && not env.clock_works) (done aee_efailed q tt) _
        (λ _. h) (λ _. wait_loop-Ends env.waits q ks fails h)

  -- `dspqueue_write` on a queue that holds packets, where the other side leaves it such a queue at each
  -- wait and some wait ends with an error, as it does when a timeout expires: the call returns, with
  -- no failed assertion, and leaves a queue that holds packets.
  pub dspqueue_write-Ends :
      (env : Env) (timeout_us : ℕ) (q : Queue)
      → AllWaits KeepsFifo env.waits
      → AnyFails env.waits
      → HasFifo q
      → Ends (dspqueue_write driver p env timeout_us q)
  unfolding dspqueue_write
  dspqueue_write-Ends env timeout_us q ks fails h =
      or_block-Ends (write_attempt (write_noblock driver q p)) _ (try_write-Ends q h) λ q1 h1.
        if-Ends q1.have_wait_counts _ _
          (λ _. bail-Ends _ (
            or_block-Ends (write_attempt (write_noblock driver (raise_write_wait q1) p)) _
              (try_write-Ends (raise_write_wait q1) (h1.0, counted-IsFifo _ h1.1))
              (λ q2 h2. timed_loop-Ends env timeout_us q2 ks fails h2)))
          (λ _. timed_loop-Ends env timeout_us q1 ks fails h1)
