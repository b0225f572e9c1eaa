-- ===== src/Mem/Handles/Cut.antt =====
-- The entries that `unregister_dma_handle` cuts off hold nothing.
use fastrpc.Common.{
  ℕ, zero, suc, ◌+◌, ◌-◌, ◌≤◌, ◌<◌, ◌≡◌, refl, sym, ap, ◌∙◌, subst, false, Bool-cases, some, inl,
  inr, ◌⊎◌, List, [], ◌∷◌, if◌then◌else◌, update_first, length, arith,
}
use fastrpc.Mem.Handles.{DmaHandle, holds, is_free, take_handles, seek, use_less}
use fastrpc.Mem.Handles.Counts.{uses}

-- The entries that `unregister_dma_handle` cuts off are not in use.
seek_le :
    (fd i last_used : ℕ) (hs : List DmaHandle) (i' l : ℕ) (h : DmaHandle)
    → last_used ≤ i
    → seek fd i last_used hs ≡ some (i', (l, h))
    → last_used ≤ l
unfolding seek
seek_le fd i last_used [] i' l h b e = ground arith
seek_le fd i last_used (x ∷ xs) i' l h b e = elim (Bool-cases (holds fd x)) [
  | inl t ↦ ground arith
  | inr f ↦
      let now = if is_free x then last_used else i in
      let here : now ≤ i + 1 = ground arith in
      let above : last_used ≤ now = ground arith in
      let later : seek fd (i + 1) now xs ≡ some (i', (l, h)) = ground arith in
      let rest = seek_le fd (i + 1) now xs i' l h here later in omega arith
]

-- An entry at the end that falls out of use, whether it stays or not.
found_last :
    (fd' k : ℕ) (x : DmaHandle) (xs : List DmaHandle)
    → x.used ≡ 1
    → length xs ≡ 0
    → uses fd' (take_handles k (use_less x ∷ xs)) ≡ uses fd' (use_less x ∷ xs)
unfolding uses take_handles
found_last fd' zero x [] one z = ground arith
found_last fd' (suc zero) x [] one z = ground arith
found_last fd' (suc (suc k)) x [] one z = ground arith
found_last fd' k x (y ∷ ys) one z = ground arith

-- An entry before the cut, or an unused one after it.
step_uses :
    (fd' k k' : ℕ) (x : DmaHandle) (ys : List DmaHandle)
    → (k ≡ suc k') ⊎ ((k ≡ 0) × ((k' ≡ 0) × (x.used ≡ 0)))
    → uses fd' (take_handles k' ys) ≡ uses fd' ys
    → uses fd' (take_handles k (x ∷ ys)) ≡ uses fd' (x ∷ ys)
unfolding uses take_handles
step_uses fd' k k' x ys (inl e) h = rw e (ap (λ n. if holds fd' x then x.used else n) h)
step_uses fd' k k' x ys (inr (e, (e', z))) h =
    let none_left : 0 ≡ uses fd' ys =
      subst (λ k. uses fd' (take_handles k ys) ≡ uses fd' ys) e' h in
    let f : holds fd' x ≡ false = ground arith in rw (e, f) none_left

-- Where the entry is the last one and falls out of use, the entries from `last_used + 1` on hold nothing.
pub cut_uses :
    (fd fd' i last_used : ℕ) (hs : List DmaHandle) (i' l : ℕ) (h : DmaHandle)
    → (last_used < i) ⊎ ((last_used ≡ 0) × (i ≡ 0))
    → seek fd i last_used hs ≡ some (i', (l, h))
    → i' + 1 ≡ i + length hs
    → h.used ≡ 1
    → uses fd' (take_handles (l + 1 - i) (update_first (holds fd) use_less hs))
      ≡ uses fd' (update_first (holds fd) use_less hs)
unfolding seek update_first
cut_uses fd fd' i last_used [] i' l h b e end one = ground arith
cut_uses fd fd' i last_used (x ∷ xs) i' l h b e end one = elim (Bool-cases (holds fd x)) [
  | inl t ↦
      let here : x ≡ h = ground arith in
      let only : length xs ≡ 0 = ground arith in
      let once : x.used ≡ 1 = ap (λ y. y.used) here ∙ one in
      let first : update_first (holds fd) use_less (x ∷ xs) ≡ use_less x ∷ xs =
        rw (update_first, t) refl in
      subst (λ ys. uses fd' (take_handles (l + 1 - i) ys) ≡ uses fd' ys) (sym first)
        (found_last fd' (l + 1 - i) x xs once only)
  | inr f ↦
      let now = if is_free x then last_used else i in
      let later : seek fd (i + 1) now xs ≡ some (i', (l, h)) = ground arith in
      let low : now < i + 1 = ground arith in
      let above : now ≤ l = seek_le fd (i + 1) now xs i' l h (omega arith) later in
      let rest = cut_uses fd fd' (i + 1) now xs i' l h (inl low) later (omega arith) one in
      let next : update_first (holds fd) use_less (x ∷ xs)
          ≡ x ∷ update_first (holds fd) use_less xs =
        rw (update_first, f) refl in
      let step : (l + 1 - i ≡ suc (l + 1 - (i + 1)))
          ⊎ ((l + 1 - i ≡ 0) × ((l + 1 - (i + 1) ≡ 0) × (x.used ≡ 0))) =
        ground arith in
      subst (λ ys. uses fd' (take_handles (l + 1 - i) ys) ≡ uses fd' ys) (sym next)
        (step_uses fd' (l + 1 - i) (l + 1 - (i + 1)) x (update_first (holds fd) use_less xs) step
          rest)
]
