-- ===== src/DspQueue/Placed.antt =====
-- The buffers that `dspqueue_read_noblock` of src/dspqueue/dspqueue_cpu.c hands out, by the mappings
-- that they lie in.
use fastrpc.Common.{
  ℕ, zero, suc, ◌+◌, ◌≤◌, ◌<◌, ◌≡◌, ◌⊎◌, inl, inr, refl, sym, ap, subst, ◌∙◌, true, false,
  Bool-cases, Option, none, some, List, [], ◌∷◌, arith, ◌==◌, if◌then◌else◌,
}
use fastrpc.DspQueue.State.{Buffer, StaticMap, aee_ebaditem}
use fastrpc.DspQueue.Refs.{
  RefChange, ref_list, buffer_ref, ref_one, ref_buffers, within_map, change_of, place_buffer,
  place_buffers, plain_buffers,
}

-- Where the first mapping of a file descriptor is, and its length.
unfoldable pub located : List StaticMap → ℕ → Option (ℕ × ℕ)
located [] fd = none
located (m ∷ ms) fd = if m.fd == fd then some (m.vaddr, m.length) else located ms fd

-- `got` is the packet's buffer `b` in this process: it lies within the first mapping of its file
-- descriptor, at its offset, with the whole length of the mapping if `b` names no size.
pub record IsPlaced (maps : List StaticMap) (b got : Buffer) : Type 0 where
  pub base : ℕ
  pub room : ℕ
  pub mapped : located maps b.fd ≡ some (base, room)
  pub fd_eq : got.fd ≡ b.fd
  pub flags_eq : got.flags ≡ b.flags
  pub offset_eq : got.offset ≡ b.offset
  pub address_eq : got.address ≡ base + b.offset
  pub size_eq : got.size ≡ (if b.size == 0 then room else b.size)
  pub within : b.offset + got.size ≤ room

-- Each of the first `n` buffers is placed.
abbrev pub AllPlaced : List StaticMap → ℕ → (ℕ → Buffer) → List Buffer → Type 0
AllPlaced maps zero bs got = got ≡ []
AllPlaced maps (suc n) bs [] = ⊥
AllPlaced maps (suc n) bs (g ∷ got) =
    IsPlaced maps (bs 0) g × AllPlaced maps n (λ k. bs (suc k)) got

-- The first ones are placed, and the rest are as they stand in the packet.
abbrev pub SomePlaced : List StaticMap → ℕ → (ℕ → Buffer) → List Buffer → Type 0
SomePlaced maps zero bs got = got ≡ []
SomePlaced maps (suc n) bs [] = ⊥
SomePlaced maps (suc n) bs (g ∷ got) =
    ((g ∷ got) ≡ plain_buffers (suc n) bs)
    ⊎ (IsPlaced maps (bs 0) g × SomePlaced maps n (λ k. bs (suc k)) got)

-- A reference hands out the mapping, and leaves every mapping where it is.
ref_list-located :
    (maps : List StaticMap) (fd : ℕ) (c : RefChange)
    → (ref_list maps fd c).code ≡ 0
    → (ref_list maps fd c).out ≡ located maps fd
unfolding ref_list located
ref_list-located [] fd c h = ground arith
ref_list-located (m ∷ ms) fd c h = ground (arith, ref_list-located ms fd c)

located-ref_list :
    (maps : List StaticMap) (fd other_fd : ℕ) (c : RefChange)
    → located (ref_list maps fd c).maps other_fd ≡ located maps other_fd
unfolding ref_list located
located-ref_list [] fd other_fd c = refl
located-ref_list (m ∷ ms) fd other_fd c = ground (arith, located-ref_list ms fd other_fd c)

in_mapping :
    (maps : List StaticMap) (b : Buffer) (o : Option (ℕ × ℕ))
    → o ≡ located maps b.fd
    → within_map b o ≡ true
    → IsPlaced maps b (place_buffer b o)
in_mapping maps b none e h = absurd (ground arith)
in_mapping maps b (some (va, len)) e h = elim (Bool-cases (b.size == 0)) [
  | inl t ↦
      let none_off : (b.offset == 0) ≡ true = rw t at h in
      rw t (record {
        base = va;
        room = len;
        mapped = sym e;
        fd_eq = refl;
        flags_eq = refl;
        offset_eq = refl;
        address_eq = ground arith;
        size_eq = rw t refl;
        within = ground arith;
      })
  | inr n ↦ rw n (record {
    base = va;
    room = len;
    mapped = sym e;
    fd_eq = refl;
    flags_eq = refl;
    offset_eq = refl;
    address_eq = refl;
    size_eq = rw n refl;
    within = ground (arith, rw n at h);
  })
]

module _ (domain : ℕ) where
  located-ref_one :
      (maps : List StaticMap) (i fd : ℕ) (b : Buffer)
      → located (ref_one aee_ebaditem domain maps i b).maps fd ≡ located maps fd
  unfolding ref_one buffer_ref
  located-ref_one maps i fd b = ground (arith, located-ref_list maps b.fd fd (change_of b))

  accepted_out :
      (maps : List StaticMap) (i : ℕ) (b : Buffer)
      → (ref_one aee_ebaditem domain maps i b).code ≡ 0
      → ((ref_one aee_ebaditem domain maps i b).out ≡ located maps b.fd)
        × (within_map b (ref_one aee_ebaditem domain maps i b).out ≡ true)
  unfolding ref_one buffer_ref
  accepted_out maps i b h = ground (arith, ref_list-located maps b.fd (change_of b))

  -- An accepted buffer is placed in its mapping.
  place_buffer-IsPlaced :
      (maps : List StaticMap) (i : ℕ) (b : Buffer)
      → (ref_one aee_ebaditem domain maps i b).code ≡ 0
      → IsPlaced maps b (place_buffer b (ref_one aee_ebaditem domain maps i b).out)
  place_buffer-IsPlaced maps i b h =
      let a = accepted_out maps i b h in
      in_mapping maps b (ref_one aee_ebaditem domain maps i b).out (a.0) (a.1)

  ref_one-place :
      (maps : List StaticMap) (i : ℕ) (b : Buffer)
      → ((ref_one aee_ebaditem domain maps i b).code ≡ (ref_one aee_ebaditem domain maps 0 b).code)
        × ((ref_one aee_ebaditem domain maps i b).maps
            ≡ (ref_one aee_ebaditem domain maps 0 b).maps)
  unfolding ref_one
  ref_one-place maps i b = ground arith

  moved :
      (maps maps' : List StaticMap) (b g : Buffer)
      → ((fd : ℕ) → located maps' fd ≡ located maps fd)
      → IsPlaced maps' b g
      → IsPlaced maps b g
  moved maps maps' b g e p = record {
    base = p.base;
    room = p.room;
    mapped = sym (e b.fd) ∙ p.mapped;
    fd_eq = p.fd_eq;
    flags_eq = p.flags_eq;
    offset_eq = p.offset_eq;
    address_eq = p.address_eq;
    size_eq = p.size_eq;
    within = p.within;
  }

  pub plain_buffers-congr :
      (n : ℕ) (xs ys : ℕ → Buffer)
      → ((k : ℕ) → k < n → xs k ≡ ys k)
      → plain_buffers n xs ≡ plain_buffers n ys
  unfolding plain_buffers
  plain_buffers-congr zero xs ys e = refl
  plain_buffers-congr (suc n) xs ys e =
      ap (λ b. b ∷ plain_buffers n (λ k. xs (suc k))) (e 0 (omega arith))
      ∙ ap (λ bs. ys 0 ∷ bs)
          (plain_buffers-congr n (λ k. xs (suc k)) (λ k. ys (suc k))
            (λ k p. e (suc k) (omega arith)))

  -- The loop over the buffers `xs`, which are those of the packet, `ys`.
  pub place_buffers-placed :
      (n i : ℕ) (maps maps' : List StaticMap) (xs ys : ℕ → Buffer)
      → ((k : ℕ) → k < n → xs k ≡ ys k)
      → ((fd : ℕ) → located maps' fd ≡ located maps fd)
      → SomePlaced maps n ys (place_buffers aee_ebaditem domain maps' n xs)
        × ((ref_buffers aee_ebaditem domain maps' i n xs).code ≡ 0
            → AllPlaced maps n ys (place_buffers aee_ebaditem domain maps' n xs))
  unfolding place_buffers ref_buffers plain_buffers
  place_buffers-placed zero i maps maps' xs ys e same = (refl, λ h. refl)
  place_buffers-placed (suc n) i maps maps' xs ys e same =
      let r = ref_one aee_ebaditem domain maps' i (xs 0) in
      let r0 = ref_one aee_ebaditem domain maps' 0 (xs 0) in
      let p = ref_one-place maps' i (xs 0) in
      let rest =
        place_buffers-placed n r.buf_refs maps r0.maps (λ k. xs (suc k)) (λ k. ys (suc k))
          (λ k h. e (suc k) (omega arith)) (λ fd. located-ref_one maps' 0 fd (xs 0) ∙ same fd) in
      elim (Bool-cases (r0.code == 0)) [
        | inr bad ↦
            let refused : (r.code == 0) ≡ false = ap (λ c. c == 0) (p.0) ∙ bad in
            rw (bad, refused)
              (inl (plain_buffers-congr (suc n) xs ys e), λ h. absurd (ground arith))
        | inl ok ↦
            let accepted : (r.code == 0) ≡ true = ap (λ c. c == 0) (p.0) ∙ ok in
            let first : IsPlaced maps (ys 0) (place_buffer (xs 0) r0.out) =
              subst (λ b. IsPlaced maps b (place_buffer (xs 0) r0.out)) (e 0 (omega arith))
                (moved maps maps' (xs 0) (place_buffer (xs 0) r0.out) same
                  (place_buffer-IsPlaced maps' 0 (xs 0) (ground arith))) in
            rw (ok, accepted, p.1) (inr (first, rest.0), λ h. (first, rest.1 h))
      ]

  -- Whether a buffer is refused depends on the packet's buffers alone.
  pub ref_buffers-congr :
      (n i : ℕ) (maps : List StaticMap) (xs ys : ℕ → Buffer)
      → ((k : ℕ) → k < n → xs k ≡ ys k)
      → ref_buffers aee_ebaditem domain maps i n xs ≡ ref_buffers aee_ebaditem domain maps i n ys
  unfolding ref_buffers
  ref_buffers-congr zero i maps xs ys e = refl
  ref_buffers-congr (suc n) i maps xs ys e =
      let r = ref_one aee_ebaditem domain maps i (xs 0) in
      let rest =
        ref_buffers-congr n r.buf_refs r.maps (λ k. xs (suc k)) (λ k. ys (suc k))
          (λ k p. e (suc k) (omega arith)) in
      ap (λ t. if r.code == 0 then t else r) rest
      ∙ ap
          (λ b.
            let s = ref_one aee_ebaditem domain maps i b in
            if s.code == 0
            then ref_buffers aee_ebaditem domain s.maps s.buf_refs n (λ k. ys (suc k))
            else s)
          (e 0 (omega arith))
