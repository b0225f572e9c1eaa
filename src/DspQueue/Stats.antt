-- ===== src/DspQueue/Stats.antt =====
-- `dspqueue_get_stat`: the statistics of a queue, and of a multi-domain queue.
use fastrpc.Common.{
  ℕ, ◌-◌, ◌≡◌, refl, ap, true, Option, none, some, List, [], ◌∷◌, arith, ltb, if◌then◌else◌,
  sub_u32, length,
}
use fastrpc.DspQueue.State.{
  PacketQueue, Queue, Outcome, ret, abort, aee_ebadparm, aee_eunsupported, aee_einvaliditem,
}
use fastrpc.DspQueue.Position.{
  IsAligned, used, get_queue_state_write, get_queue_state_read, queue_states_agree,
}
use fastrpc.DspQueue.Multidomain.{Multidomain, Served, served, crashed}

-- `enum dspqueue_stat`, and any other number.
pub data Stat : Type 0 where
  read_queue_packets : Stat
  read_queue_bytes : Stat
  write_queue_packets : Stat
  write_queue_bytes : Stat
  early_wakeup_wait_time : Stat
  early_wakeup_miss_count : Stat
  signaling_perf : Stat
  other_stat : Stat

abbrev pub reduced_signaling : ℕ
reduced_signaling = 100

abbrev pub optimized_signaling : ℕ
optimized_signaling = 1000

-- `dspqueue_get_stat` on the queue of one domain; `none` where `*value` is not written.
unfoldable pub get_stat : Queue → Stat → Outcome (Queue × Option ℕ)
get_stat q early_wakeup_wait_time =
    ret 0 (record q { early_wakeup_wait = 0 }, some q.early_wakeup_wait)
get_stat q early_wakeup_miss_count =
    ret 0 (record q { early_wakeup_misses = 0 }, some q.early_wakeup_misses)
get_stat q read_queue_packets =
    ret 0 (q, some (sub_u32 q.resp.write_packet_count q.read_packet_count))
get_stat q write_queue_packets =
    ret 0 (q, some (sub_u32 q.write_packet_count q.req.read_packet_count))
get_stat q read_queue_bytes = elim (get_queue_state_read q.resp) [
  | none ↦ abort
  | some (b, r, w) ↦ ret 0 (q, some b)
]
get_stat q write_queue_bytes = elim (get_queue_state_write q.req) [
  | none ↦ abort
  | some (b, r, w) ↦ ret 0 (q, some (sub_u32 (sub_u32 q.req.queue_length b) 8))
]
get_stat q signaling_perf = ret 0 (
  q,
  some (
      if q.have_driver_signaling
      then optimized_signaling
      else if q.have_wait_counts
      then reduced_signaling
      else 0),
)
get_stat q other_stat = ret aee_ebadparm (q, none)

-- What a statistic of one queue is for all the queues, of which it was the first.
unfoldable pub served_stat : List Queue → Outcome (Queue × Option ℕ) → Served (Option ℕ)
served_stat rest (ret code (q, value)) = served code (q ∷ rest) value
served_stat rest abort = crashed

-- `dspqueue_multidomain_get_stat`. With no queue at all the code reads before an array that is empty,
-- which has no defined result; it stands here as a crash.
unfoldable pub multidomain_get_stat : Multidomain → Stat → Served (Option ℕ)
multidomain_get_stat m stat =
    if m.is_mdq
    then if ltb 1 (length m.queues)
      then served aee_eunsupported m.queues none
      else elim m.queues [ [] ↦ crashed | q ∷ rest ↦ served_stat rest (get_stat q stat) ]
    else served aee_einvaliditem m.queues none

-- The statistic asked for is read off the queue, and the queue is then `q'`.
abbrev pub Reads : Queue → Stat → ℕ → Queue → Type 0
Reads q stat value q' = get_stat q stat ≡ ret 0 (q', some value)

-- The bytes written and not yet read, from the space that is left.
bytes_written :
    {pq : PacketQueue}
    → IsAligned pq
    → sub_u32 (sub_u32 pq.queue_length (pq.queue_length - used pq - 8)) 8 ≡ used pq
bytes_written v = let a = v.length_high in ground (arith, (queue_states_agree v).2)

-- The statistics of a queue whose two directions are aligned: the bytes read and written are those in
-- use, no assertion fails; the two counters of early wakeups are handed out and start again at
-- zero, so that a second reading gives zero.
pub get_stat_lem :
    (q : Queue)
    → IsAligned q.req
    → IsAligned q.resp
    → Reads q read_queue_bytes (used q.resp) q
      × Reads q write_queue_bytes (used q.req) q
      × ((q' : Queue) × Reads q early_wakeup_wait_time q.early_wakeup_wait q'
          × Reads q' early_wakeup_wait_time 0 q')
      × ((q' : Queue) × Reads q early_wakeup_miss_count q.early_wakeup_misses q'
          × Reads q' early_wakeup_miss_count 0 q')
unfolding get_stat
get_stat_lem q vq vr = (
  rw (get_stat, (queue_states_agree vr).1) refl,
  rw (get_stat, (queue_states_agree vq).0) (ap (λ n. ret 0 (q, some n)) (bytes_written vq)),
  (record q { early_wakeup_wait = 0 }, refl, refl),
  (record q { early_wakeup_misses = 0 }, refl, refl),
)

-- A multi-domain queue of one domain has the statistics of that domain's queue; with more domains
-- they are not supported, and no queue changes.
pub multidomain_get_stat_lem :
    (m : Multidomain) (stat : Stat) (q : Queue) (rest : List Queue)
    → m.is_mdq ≡ true
    → m.queues ≡ q ∷ rest
    → multidomain_get_stat m stat ≡ (elim rest [
      | [] ↦ served_stat [] (get_stat q stat)
      | next ∷ more ↦ served aee_eunsupported (q ∷ next ∷ more) none
    ])
unfolding multidomain_get_stat
multidomain_get_stat_lem m stat q [] h e = rw (h, e) refl
multidomain_get_stat_lem m stat q (next ∷ more) h e =
    let many : ltb 1 (length (q ∷ next ∷ more)) ≡ true = ground arith in rw (h, e, many) refl
