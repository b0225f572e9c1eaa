-- ===== src/DspQueue/Multidomain/Order.antt =====
-- In which order a multi-domain queue serves its domains, and where it stops.
use fastrpc.Common.{
  ℕ, ◌≡◌, ◌≢◌, ◌⊎◌, refl, ap, ◌∙◌, inl, inr, true, Bool-cases, List, [], ◌∷◌, ◌++◌, arith, ◌==◌,
}
use fastrpc.DspQueue.State.{Queue, aee_ebadstate, aee_ewouldblock}
use fastrpc.DspQueue.Blocking.{Attempt, done, crash, unfinished}
use fastrpc.DspQueue.Multidomain.{
  Multidomain, Served, served, crashed, unserved, put_first, write_next, write_each, bad_state,
  multidomain_write, read_next, read_first,
}

module _ {A : Type 0} (try : Queue → Attempt A) where
  -- Each queue of the second list is what a call with result `code` has made of the one in its place.
  abbrev pub AllEnd : ℕ → List Queue → List Queue → Type 0
  AllEnd code [] [] = Unit
  AllEnd code [] (q' ∷ qs') = ⊥
  AllEnd code (q ∷ qs) [] = ⊥
  AllEnd code (q ∷ qs) (q' ∷ qs') = ((a : A) × (try q ≡ done code q' a)) × AllEnd code qs qs'

  -- The calls on the queues before the one that stopped the loop ended with `before`, that one ended
  -- with `code`, and the queues behind it are as they were.
  pub record StoppedAt (before code : ℕ) (qs qs' : List Queue) (a : A) : Type 0 where
    pub front : List Queue
    pub front' : List Queue
    pub stop : Queue
    pub stop' : Queue
    pub behind : List Queue
    pub split : qs ≡ front ++ stop ∷ behind
    pub split' : qs' ≡ front' ++ stop' ∷ behind
    pub passed : AllEnd before front front'
    pub stopped : try stop ≡ done code stop' a
    pub differs : code ≢ before

  -- Some call failed an `assert`, or has not returned.
  abbrev pub AnyCrash : Type 0
  AnyCrash = (q : Queue) × (try q ≡ crash)

  abbrev pub AnyOpen : Type 0
  AnyOpen = (q : Queue) × (q' : Queue) × (try q ≡ unfinished q')

  -- The loop of the writes.
  abbrev pub WriteServed : List Queue → Served A → Type 0
  WriteServed qs (served code qs' a) =
      ((code ≡ 0) × AllEnd 0 qs qs') ⊎ ((b : A) × StoppedAt 0 code qs qs' b)
  WriteServed qs crashed = AnyCrash
  WriteServed qs unserved = AnyOpen

  one_more :
      (before code : ℕ) (q q' : Queue) (qs qs' : List Queue) (a b : A)
      → try q ≡ done before q' b
      → StoppedAt before code qs qs' a
      → StoppedAt before code (q ∷ qs) (q' ∷ qs') a
  one_more before code q q' qs qs' a b e s = record {
    front = q ∷ s.front;
    front' = q' ∷ s.front';
    stop = s.stop;
    stop' = s.stop';
    behind = s.behind;
    split = ap (λ t. q ∷ t) s.split;
    split' = ap (λ t. q' ∷ t) s.split';
    passed = ((b, e), s.passed);
    stopped = s.stopped;
    differs = s.differs;
  }

  write_passed :
      (q q' : Queue) (qs : List Queue) (a : A) (rest : Served A)
      → try q ≡ done 0 q' a
      → WriteServed qs rest
      → WriteServed (q ∷ qs) (put_first q' rest)
  write_passed q q' qs a (served c qs' b) e (inl u) = inl (u.0, ((a, e), u.1))
  write_passed q q' qs a (served c qs' b) e (inr u) =
      inr (u.0, one_more 0 c q q' qs qs' u.0 a e u.1)
  write_passed q q' qs a crashed e h = h
  write_passed q q' qs a unserved e h = h

  -- The loop stops at the queue `q`.
  stops_here :
      (before code : ℕ) (q q' : Queue) (qs : List Queue) (a : A)
      → try q ≡ done code q' a
      → code ≢ before
      → StoppedAt before code (q ∷ qs) (q' ∷ qs) a
  stops_here before code q q' qs a e ne = record {
    front = [];
    front' = [];
    stop = q;
    stop' = q';
    behind = qs;
    split = refl;
    split' = refl;
    passed = tt;
    stopped = e;
    differs = ne;
  }

  write_next-Served :
      (q : Queue) (qs : List Queue) (nothing : A) (r : Attempt A) (rest : Served A)
      → try q ≡ r
      → WriteServed qs rest
      → WriteServed (q ∷ qs) (write_next qs nothing r rest)
  unfolding write_next
  write_next-Served q qs nothing (done code q' a) rest e h = elim (Bool-cases (code == 0)) [
    | inl t ↦ rw t (write_passed q q' qs a rest (e ∙ ap (λ c. done c q' a) (ground arith)) h)
    | inr t ↦ rw t (inr (a, stops_here 0 code q q' qs a e (ground arith)))
  ]
  write_next-Served q qs nothing crash rest e h = (q, e)
  write_next-Served q qs nothing (unfinished q') rest e h = (q, q', e)

  write_each-Served : (nothing : A) (qs : List Queue) → WriteServed qs (write_each try nothing qs)
  unfolding write_each
  write_each-Served nothing [] = inl (refl, tt)
  write_each-Served nothing (q ∷ qs) =
      write_next-Served q qs nothing (try q) (write_each try nothing qs) refl
        (write_each-Served nothing qs)

  -- What a write to a multi-domain queue comes to.
  abbrev pub WriteEnd : List Queue → Served A → Type 0
  WriteEnd qs (served code qs' a) =
      ((code ≡ 0) × AllEnd 0 qs qs')
      ⊎ ((code ≡ aee_ebadstate) × ((c : ℕ) × (b : A) × StoppedAt 0 c qs qs' b))
  WriteEnd qs crashed = AnyCrash
  WriteEnd qs unserved = AnyOpen

  bad_state-End : (qs : List Queue) (r : Served A) → WriteServed qs r → WriteEnd qs (bad_state r)
  bad_state-End qs (served c qs' b) (inl u) = inl (ground arith, u.1)
  bad_state-End qs (served c qs' b) (inr u) =
      let ne = u.1.differs in inr (ground arith, (c, u.0, u.1))
  bad_state-End qs crashed h = h
  bad_state-End qs unserved h = h

  -- A write to a multi-domain queue, by any way `try` of writing to one queue: the code is zero and
  -- each queue has taken the packet with success; or the code is AEE_EBADSTATE, the queues up to some
  -- point have taken it with success, the queue at that point has refused it with an error, and the
  -- queues behind it are untouched. It fails an `assert`, or does not return, only if the write to
  -- some queue does.
  pub multidomain_write-End :
      (nothing : A) (m : Multidomain)
      → m.is_mdq ≡ true
      → WriteEnd m.queues (multidomain_write try nothing m)
  unfolding multidomain_write
  multidomain_write-End nothing m h = rw h (
      bad_state-End m.queues (write_each try nothing m.queues) (write_each-Served nothing m.queues))

  -- What a read comes to: no queue had a packet, or the first one that did not say that it would block
  -- has given the result.
  abbrev pub ReadEnd : A → ℕ → List Queue → Served A → Type 0
  ReadEnd nothing last qs (served code qs' a) =
      ((code ≡ (elim qs [ [] ↦ last | q ∷ rest ↦ aee_ewouldblock ]))
        × AllEnd aee_ewouldblock qs qs'
        × (a ≡ nothing))
      ⊎ StoppedAt aee_ewouldblock code qs qs' a
  ReadEnd nothing last qs crashed = AnyCrash
  ReadEnd nothing last qs unserved = AnyOpen

  read_passed :
      (nothing : A) (last : ℕ) (q q' : Queue) (qs : List Queue) (a : A) (rest : Served A)
      → try q ≡ done aee_ewouldblock q' a
      → ReadEnd nothing aee_ewouldblock qs rest
      → ReadEnd nothing last (q ∷ qs) (put_first q' rest)
  read_passed nothing last q q' [] a (served c qs' b) e (inl u) = inl (u.0, ((a, e), u.1), u.2)
  read_passed nothing last q q' (x ∷ qs) a (served c qs' b) e (inl u) =
      inl (u.0, ((a, e), u.1), u.2)
  read_passed nothing last q q' qs a (served c qs' b) e (inr u) =
      inr (one_more aee_ewouldblock c q q' qs qs' b a e u)
  read_passed nothing last q q' qs a crashed e h = h
  read_passed nothing last q q' qs a unserved e h = h

  read_next-End :
      (nothing : A) (last : ℕ) (q : Queue) (qs : List Queue) (r : Attempt A) (rest : Served A)
      → try q ≡ r
      → ReadEnd nothing aee_ewouldblock qs rest
      → ReadEnd nothing last (q ∷ qs) (read_next qs r rest)
  unfolding read_next
  read_next-End nothing last q qs (done code q' a) rest e h =
      elim (Bool-cases (code == aee_ewouldblock)) [
        | inl t ↦
            rw t
              (read_passed nothing last q q' qs a rest (e ∙ ap (λ c. done c q' a) (ground arith)) h)
        | inr t ↦ rw t (inr (stops_here aee_ewouldblock code q q' qs a e (ground arith)))
      ]
  read_next-End nothing last q qs crash rest e h = (q, e)
  read_next-End nothing last q qs (unfinished q') rest e h = (q, q', e)

  -- The loop of `dspqueue_multidomain_read`: the packet, or the error, of the first queue that does not
  -- say that it would block is the result, with the queues before it as their calls left them and the
  -- queues behind it untouched; if there is no such queue, nothing is handed out and the code is
  -- AEE_EWOULDBLOCK, or the code given at the start if there is no queue at all. It fails an
  -- `assert`, or does not return, only if the call on some queue does.
  pub read_first-End :
      (nothing : A) (last : ℕ) (qs : List Queue)
      → ReadEnd nothing last qs (read_first try nothing last qs)
  unfolding read_first
  read_first-End nothing last [] = inl (refl, tt, refl)
  read_first-End nothing last (q ∷ qs) =
      read_next-End nothing last q qs (try q) (read_first try nothing aee_ewouldblock qs) refl
        (read_first-End nothing aee_ewouldblock qs)
