-- ===== src/Common/Updates.antt =====
-- Arrays as functions of the index, with the update of one place, and the first match of a list.
use Prim.Native.Nat.{ℕ}
use mathlib.Core.Path.{◌≡◌, refl, ap, ◌∙◌, fun_ext}
use mathlib.Core.Logic.{◌≢◌, inl, inr}
use mathlib.Core.Bool.{Bool, true}
use mathlib.Core.List.{List, [], ◌∷◌, ◌++◌}
use mathlib.Core.Option.{Option, none, some}
use native.Mathlib.Omega.{arith}
use fastrpc.Common.Tests.{◌==◌, Bool-cases, if◌then◌else◌}

module _ {ℓ} {A : Type ℓ} where
  -- `f[i] = x`
  unfoldable pub put_at : (ℕ → A) → ℕ → A → ℕ → A
  put_at f i x j = if j == i then x else f j

  pub put_at_there : (f : ℕ → A) (i : ℕ) (x : A) → put_at f i x i ≡ x
  unfolding put_at
  put_at_there f i x = ground arith

  pub put_at_elsewhere : (f : ℕ → A) (i : ℕ) (x : A) (j : ℕ) → j ≢ i → put_at f i x j ≡ f j
  unfolding put_at
  put_at_elsewhere f i x j h = ground arith

  -- An update that is taken back.
  pub put_at_back : (f : ℕ → A) (i : ℕ) (x y : A) → y ≡ f i → put_at (put_at f i x) i y ≡ f
  unfolding put_at
  put_at_back f i x y h = fun_ext (λ j. ground arith)

  pub put_at_same : (f : ℕ → A) (i : ℕ) → put_at f i (f i) ≡ f
  unfolding put_at
  put_at_same f i = fun_ext (λ j. ground arith)

  -- The first element that passes the test.
  unfoldable pub find : (A → Bool) → List A → Option A
  find p [] = none
  find p (x ∷ xs) = let rest = find p xs in if p x then some x else rest

  -- The list without its first element that passes the test.
  unfoldable pub remove_first : (A → Bool) → List A → List A
  remove_first p [] = []
  remove_first p (x ∷ xs) = let rest = remove_first p xs in if p x then xs else x ∷ rest

  -- The list with its first element that passes the test changed.
  unfoldable pub update_first : (A → Bool) → (A → A) → List A → List A
  update_first p f [] = []
  update_first p f (x ∷ xs) = let rest = update_first p f xs in if p x then f x ∷ xs else x ∷ rest

  pub put_at_twice : (f : ℕ → A) (i : ℕ) (x y : A) → put_at (put_at f i x) i y ≡ put_at f i y
  unfolding put_at
  put_at_twice f i x y = fun_ext (λ j. ground arith)

  -- A change that the test does not see, and a removal or another change of the same element.
  pub remove-update :
      (p : A → Bool) (f : A → A) (xs : List A)
      → ((x : A) → p (f x) ≡ p x)
      → remove_first p (update_first p f xs) ≡ remove_first p xs
  unfolding remove_first update_first
  remove-update p f [] st = refl
  remove-update p f (x ∷ xs) st = elim (Bool-cases (p x)) [
    | inl t ↦ rw t (rw (st x ∙ t) refl)
    | inr n ↦ rw n (rw n (ap (λ ys. x ∷ ys) (remove-update p f xs st)))
  ]

  pub update_twice :
      (p : A → Bool) (f g : A → A) (xs : List A)
      → ((x : A) → p (f x) ≡ p x)
      → update_first p g (update_first p f xs) ≡ update_first p (λ x. g (f x)) xs
  unfolding update_first
  update_twice p f g [] st = refl
  update_twice p f g (x ∷ xs) st = elim (Bool-cases (p x)) [
    | inl t ↦ rw t (rw (st x ∙ t) refl)
    | inr n ↦ rw n (rw n (ap (λ ys. x ∷ ys) (update_twice p f g xs st)))
  ]

  -- The first match at the end of a list that has none before.
  pub find-append :
      (p : A → Bool) (xs : List A) (x : A)
      → find p xs ≡ none
      → p x ≡ true
      → find p (xs ++ x ∷ []) ≡ some x
  unfolding find
  find-append p [] x h t = rw t refl
  find-append p (y ∷ ys) x h t = elim (Bool-cases (p y)) [
    | inl u ↦ absurd (ground arith)
    | inr f ↦ rw f (find-append p ys x (ground arith) t)
  ]

  pub remove_first-append :
      (p : A → Bool) (xs : List A) (x : A)
      → find p xs ≡ none
      → p x ≡ true
      → remove_first p (xs ++ x ∷ []) ≡ xs
  unfolding find remove_first
  remove_first-append p [] x h t = rw t refl
  remove_first-append p (y ∷ ys) x h t = elim (Bool-cases (p y)) [
    | inl u ↦ absurd (ground arith)
    | inr f ↦ rw f (ap (λ zs. y ∷ zs) (remove_first-append p ys x (ground arith) t))
  ]
