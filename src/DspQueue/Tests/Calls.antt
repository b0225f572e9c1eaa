-- ===== src/DspQueue/Tests/Calls.antt =====
-- Blocking calls, times, and the queues of several domains.
use fastrpc.Common.{refl, inl, inr, true, [], ◌∷◌, arith}
use fastrpc.DspQueue.State.{Queue, aee_eexpired}
use fastrpc.DspQueue.Time.{Timespec}
use fastrpc.DspQueue.Write.{write_noblock}
use fastrpc.DspQueue.Blocking.{Attempt, Env, dspqueue_write, write_attempt}
use fastrpc.DspQueue.Blocking.Waits.{OnReturn, Returned, dspqueue_write-Settled}
use fastrpc.DspQueue.Blocking.Ends.{Ends, dspqueue_write-Ends}
use fastrpc.DspQueue.Multidomain.{Multidomain, multidomain_write}
use fastrpc.DspQueue.Multidomain.Order.{WriteEnd, multidomain_write-End}
use fastrpc.DspQueue.Tests.{fresh, hello, obliging, empty_pq-IsFifo}

-- Half a second before the end of a second.
abbrev half_past : Timespec
half_past = record { tv_sec = 10; tv_nsec = 500000000 }

-- A wait that is answered, then one that expires.
abbrev two_waits : Env
two_waits = record {
  clock_works = true;
  waits =
      record { code = 0; change = λ q. q } ∷ record { code = aee_eexpired; change = λ q. q } ∷ [];
}

dspqueue_write-Settled_example :
    OnReturn (Returned obliging hello 0) (dspqueue_write obliging hello two_waits 1000 fresh)
dspqueue_write-Settled_example =
    dspqueue_write-Settled obliging hello two_waits 1000 fresh
      ((omega arith, λ q. refl), ((omega arith, λ q. refl), tt)) (omega arith)

dspqueue_write-Ends_example : Ends (dspqueue_write obliging hello two_waits 1000 fresh)
dspqueue_write-Ends_example =
    dspqueue_write-Ends obliging hello two_waits 1000 fresh ((λ q h. h), ((λ q h. h), tt))
      (inr (inl (omega arith))) ([], empty_pq-IsFifo)

abbrev two_domains : Multidomain
two_domains = record { is_mdq = true; queues = fresh ∷ record fresh { domain = 4 } ∷ [] }

abbrev write_hello : Queue → Attempt (Unit {0})
write_hello q = write_attempt (write_noblock obliging q hello)

multidomain_write-End_example :
    WriteEnd write_hello (two_domains.queues) (multidomain_write write_hello tt two_domains)
multidomain_write-End_example = multidomain_write-End write_hello tt two_domains refl
