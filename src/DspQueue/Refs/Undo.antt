-- ===== src/DspQueue/Refs/Undo.antt =====
-- The undo loop of `dspqueue_write_noblock` over the reference counts of mapped buffers.
use fastrpc.Common.{
  ℕ, zero, suc, ◌+◌, ◌≤◌, ◌<◌, ◌≡◌, ◌≢◌, refl, ◌∙◌, true, false, Bool-cases, ◌⊎◌, inl, inr, List,
  [], ◌∷◌, arith, ltb, lt→ltb, ◌==◌, has_bit,
}
use fastrpc.DspQueue.State.{Buffer, StaticMap, buffer_flag_ref, buffer_flag_deref}
use fastrpc.DspQueue.Refs.{
  RefChange, gain, keep, lose, other, ref_list, buffer_ref, ref_one, ref_buffers, undo_one,
  undo_buffers,
}

-- A change that is not a loss.
abbrev IsHold : RefChange → Type 0
IsHold gain = Unit {0}
IsHold keep = Unit
IsHold lose = ⊥
IsHold other = ⊥

-- The mappings once a reference of `fd` is given up.
abbrev without : List StaticMap → ℕ → List StaticMap
without maps fd = (ref_list maps fd lose).maps

-- A reference of `fd` can be given up.
abbrev CanLose : List StaticMap → ℕ → Type 0
CanLose maps fd = (ref_list maps fd lose).code ≡ 0

-- A refused call changes no count.
refused_kept :
    (maps : List StaticMap) (fd : ℕ) (c : RefChange)
    → (ref_list maps fd c).code ≢ 0
    → (ref_list maps fd c).maps ≡ maps
unfolding ref_list
refused_kept [] fd c h = refl
refused_kept (m ∷ ms) fd c h = ground (arith, refused_kept ms fd c)

keep_kept : (maps : List StaticMap) (fd : ℕ) → (ref_list maps fd keep).maps ≡ maps
unfolding ref_list
keep_kept [] fd = refl
keep_kept (m ∷ ms) fd = ground (arith, keep_kept ms fd)

-- A reference that was gained can be given up, and then the counts are as before.
gain_back :
    (maps : List StaticMap) (fd : ℕ)
    → (ref_list maps fd gain).code ≡ 0
    → CanLose (ref_list maps fd gain).maps fd × (without (ref_list maps fd gain).maps fd ≡ maps)
unfolding ref_list
gain_back [] fd h = ground arith
gain_back (m ∷ ms) fd h = ground (arith, gain_back ms fd)

-- Giving up a reference of `a` first makes no difference to a gain or a look at `b`.
lose_first :
    (maps : List StaticMap) (a b : ℕ) (c : RefChange)
    → IsHold c
    → CanLose maps a
    → ((ref_list (without maps a) b c).code ≡ (ref_list maps b c).code)
      × ((ref_list (without maps a) b c).out ≡ (ref_list maps b c).out)
      × CanLose (ref_list maps b c).maps a
      × (without (ref_list maps b c).maps a ≡ (ref_list (without maps a) b c).maps)
unfolding ref_list
lose_first [] a b c hc h = ground arith
lose_first (m ∷ ms) a b gain hc h = ground (arith, lose_first ms a b gain hc)
lose_first (m ∷ ms) a b keep hc h = ground (arith, lose_first ms a b keep hc)
lose_first (m ∷ ms) a b lose hc h = absurd hc
lose_first (m ∷ ms) a b other hc h = absurd hc

-- A buffer that gives up no reference.
abbrev pub NoDeref : Buffer → Type 0
NoDeref b = has_bit b.flags buffer_flag_deref ≡ false

module _ (range_code domain : ℕ) (hd : ltb domain 32 ≡ true) where
  ref_one_first :
      (maps : List StaticMap) (a i : ℕ) (b : Buffer)
      → NoDeref b
      → CanLose maps a
      → ((ref_one range_code domain (without maps a) i b).code
          ≡ (ref_one range_code domain maps i b).code)
        × ((ref_one range_code domain (without maps a) i b).buf_refs
            ≡ (ref_one range_code domain maps i b).buf_refs)
        × CanLose (ref_one range_code domain maps i b).maps a
        × (without (ref_one range_code domain maps i b).maps a
            ≡ (ref_one range_code domain (without maps a) i b).maps)
  unfolding ref_one
  ref_one_first maps a i b hb h =
      ground (arith, lose_first maps a b.fd gain tt h, lose_first maps a b.fd keep tt h)

  -- The loop, with a reference given up before or after it.
  ref_buffers_first :
      (n : ℕ) (maps : List StaticMap) (a i : ℕ) (bs : ℕ → Buffer)
      → ((j : ℕ) → j < n → NoDeref (bs j))
      → CanLose maps a
      → (without (ref_buffers range_code domain maps i n bs).maps a
          ≡ (ref_buffers range_code domain (without maps a) i n bs).maps)
        × ((ref_buffers range_code domain (without maps a) i n bs).buf_refs
            ≡ (ref_buffers range_code domain maps i n bs).buf_refs)
  unfolding ref_buffers
  ref_buffers_first zero maps a i bs hb h = (refl, refl)
  ref_buffers_first (suc n) maps a i bs hb h =
      let x = ref_one range_code domain maps i (bs 0) in
      let f = ref_one_first maps a i (bs 0) (hb 0 (omega arith)) h in
      ground (
        arith,
        f,
        ref_buffers_first n x.maps a x.buf_refs (λ k. bs (suc k)) (λ j p. hb (suc j) (omega arith))
            f.2,
      )

  buf_refs-ge :
      (n : ℕ) (maps : List StaticMap) (i : ℕ) (bs : ℕ → Buffer)
      → i ≤ (ref_buffers range_code domain maps i n bs).buf_refs
  unfolding ref_buffers ref_one
  buf_refs-ge zero maps i bs = omega arith
  buf_refs-ge (suc n) maps i bs =
      let r = ref_one range_code domain maps i (bs 0) in
      ground (arith, buf_refs-ge n r.maps r.buf_refs (λ k. bs (suc k)))

  -- One round: a reference is not taken and no count has changed, or it is taken and can be undone.
  ref_one_undone :
      (maps : List StaticMap) (i : ℕ) (b : Buffer)
      → NoDeref b
      → let x = ref_one range_code domain maps i b in
        ((x.code ≢ 0) × (x.buf_refs ≡ i) × (x.maps ≡ maps))
        ⊎ ((x.buf_refs ≡ i + 1)
            × ((undo_one domain x.maps b).maps ≡ maps)
            × (has_bit b.flags buffer_flag_ref ≡ true → CanLose x.maps b.fd))
  unfolding ref_one
  ref_one_undone maps i b hb = elim (Bool-cases (has_bit b.flags buffer_flag_ref)) [
    | inl r ↦ ground (arith, gain_back maps b.fd, refused_kept maps b.fd gain)
    | inr r ↦ ground (arith, keep_kept maps b.fd)
  ]

  -- A reference of the first buffer may be given up before the other buffers are handled.
  undo_one_first :
      (n : ℕ) (x maps : List StaticMap) (i : ℕ) (b : Buffer) (bs : ℕ → Buffer)
      → NoDeref b
      → ((j : ℕ) → j < n → NoDeref (bs j))
      → (undo_one domain x b).maps ≡ maps
      → (has_bit b.flags buffer_flag_ref ≡ true → CanLose x b.fd)
      → ((undo_one domain (ref_buffers range_code domain x i n bs).maps b).maps
          ≡ (ref_buffers range_code domain maps i n bs).maps)
        × ((ref_buffers range_code domain maps i n bs).buf_refs
            ≡ (ref_buffers range_code domain x i n bs).buf_refs)
  unfolding buffer_ref
  undo_one_first n x maps i b bs hb hs e can = elim (Bool-cases (has_bit b.flags buffer_flag_ref)) [
    | inl r ↦ ground (arith, ref_buffers_first n x b.fd i bs hs (can r))
    | inr r ↦ ground arith
  ]

  -- Where no buffer of the packet gives up a reference, the undo loop takes back what the loop did,
  -- wherever the loop stopped.
  undo-ref_buffers_from :
      (n : ℕ) (maps : List StaticMap) (i k : ℕ) (bs : ℕ → Buffer)
      → ((j : ℕ) → j < n → NoDeref (bs j))
      → (ref_buffers range_code domain maps i n bs).buf_refs ≡ i + k
      → undo_buffers domain (ref_buffers range_code domain maps i n bs).maps k bs ≡ maps
  unfolding ref_buffers undo_buffers
  undo-ref_buffers_from zero maps i zero bs hb e = refl
  undo-ref_buffers_from zero maps i (suc k) bs hb e = absurd (omega arith)
  undo-ref_buffers_from (suc n) maps i zero bs hb e =
      let x = ref_one range_code domain maps i (bs 0) in
      ground (
        arith,
        ref_one_undone maps i (bs 0) (hb 0 (omega arith)),
        buf_refs-ge n x.maps x.buf_refs (λ k. bs (suc k)),
      )
  undo-ref_buffers_from (suc n) maps i (suc k) bs hb e =
      let x = ref_one range_code domain maps i (bs 0) in
      let bs' = λ (j : ℕ). bs (suc j) in
      let hb' = λ (j : ℕ) (p : j < n). hb (suc j) (omega arith) in
      elim (ref_one_undone maps i (bs 0) (hb 0 (omega arith))) [
        | inl u ↦ absurd (ground arith)
        | inr u ↦
            let f =
              undo_one_first n x.maps maps x.buf_refs (bs 0) bs' (hb 0 (omega arith)) hb' u.1 u.2 in
            elim (Bool-cases (x.code == 0)) [
              | inl t ↦
                  rw (t, f.0)
                    (undo-ref_buffers_from n maps x.buf_refs k bs' hb'
                      (f.1 ∙ omega (arith, rw t at e, u.0)))
              | inr t ↦
                  let none_left : k ≡ 0 = omega (arith, rw t at e, u.0) in rw (t, u.1, none_left)
            ]
      ]

-- On a valid domain, where no buffer of the packet has the DEREF flag: wherever the loop over the
-- buffers of a packet stops, the undo loop over the `buf_refs` buffers that it handled gives every
-- mapping the reference count that it had before the write.
pub undo-ref_buffers :
    (range_code domain n : ℕ) (maps : List StaticMap) (bs : ℕ → Buffer)
    → domain < 32
    → ((j : ℕ) → j < n → NoDeref (bs j))
    → let r = ref_buffers range_code domain maps 0 n bs in
      undo_buffers domain r.maps r.buf_refs bs ≡ maps
undo-ref_buffers range_code domain n maps bs hd hb =
    undo-ref_buffers_from range_code domain (lt→ltb domain 32 hd) n maps 0 _ bs hb (omega arith)
