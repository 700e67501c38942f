-- ===== src/Prelude/Sort.antt =====
-- Python's `sorted` and `list.sort`: stable, by a test `le x y` that x may stand before y.
use Prim.Native.Nat.{ℕ, zero, suc, ◌+◌}
use mathlib.Core.Path.{◌≡◌, refl}
use mathlib.Core.Bool.{Bool, true, false}
use mathlib.Core.Logic.{inl, inr}
use mathlib.Core.List.{List, [], ◌∷◌}
use native.Mathlib.Omega.{arith}
use homelab_agent.Prelude.Tests.{if◌then◌else◌, Bool-cases}
use homelab_agent.Prelude.Lists.{length, count_if, sum_by, All, All-take, take, drop}

module _ {ℓ} {A : Type ℓ} (le : A → A → Bool) where
  unfoldable pub insert : A → List A → List A
  insert x [] = x ∷ []
  insert x (y ∷ ys) = let rest = insert x ys in if le x y then x ∷ y ∷ ys else y ∷ rest

  unfoldable pub sort : List A → List A
  unfolding insert
  sort [] = []
  sort (x ∷ xs) = insert x (sort xs)

  count_if-insert :
      (p : A → Bool) (x : A) (xs : List A) → count_if p (insert x xs) ≡ count_if p (x ∷ xs)
  unfolding insert count_if
  count_if-insert p x [] = refl
  count_if-insert p x (y ∷ ys) = ground (arith, count_if-insert p x ys)

  pub count_if-sort : (p : A → Bool) (xs : List A) → count_if p (sort xs) ≡ count_if p xs
  unfolding sort count_if
  count_if-sort p [] = refl
  count_if-sort p (x ∷ xs) = ground (arith, count_if-insert p x (sort xs), count_if-sort p xs)

  sum_by-insert : (f : A → ℕ) (x : A) (xs : List A) → sum_by f (insert x xs) ≡ f x + sum_by f xs
  unfolding insert sum_by
  sum_by-insert f x [] = refl
  sum_by-insert f x (y ∷ ys) = ground (arith, sum_by-insert f x ys)

  pub sum_by-sort : (f : A → ℕ) (xs : List A) → sum_by f (sort xs) ≡ sum_by f xs
  unfolding sort sum_by
  sum_by-sort f [] = refl
  sum_by-sort f (x ∷ xs) = ground (arith, sum_by-insert f x (sort xs), sum_by-sort f xs)

  length-insert : (x : A) (xs : List A) → length (insert x xs) ≡ suc (length xs)
  unfolding insert
  length-insert x [] = refl
  length-insert x (y ∷ ys) = ground (arith, length-insert x ys)

  pub length-sort : (xs : List A) → length (sort xs) ≡ length xs
  unfolding sort
  length-sort [] = refl
  length-sort (x ∷ xs) = ground (arith, length-insert x (sort xs), length-sort xs)

  All-insert {κ} : (P : A → Type κ) (x : A) (xs : List A) → P x → All P xs → All P (insert x xs)
  unfolding insert
  All-insert P x [] h hs = (h, tt)
  All-insert P x (y ∷ ys) h hs =
      elim (le x y) as (λ b. All P (if b then x ∷ y ∷ ys else y ∷ insert x ys)) [
        | true ↦ (h, hs)
        | false ↦ (hs.0, All-insert P x ys h hs.1)
      ]

  pub All-sort {κ} : (P : A → Type κ) (xs : List A) → All P xs → All P (sort xs)
  unfolding sort
  All-sort P [] hs = hs
  All-sort P (x ∷ xs) hs = All-insert P x (sort xs) hs.0 (All-sort P xs hs.1)

module _ {ℓ} {A : Type ℓ} (le : A → A → Bool) where
  -- no item stands after one that it may not follow
  abbrev pub Ordered : List A → Type 0
  Ordered [] = Unit
  Ordered (x ∷ xs) = All (λ y. le x y ≡ true) xs × Ordered xs

  module _ (total : (x y : A) → le x y ≡ false → le y x ≡ true)
      (trans : (x y z : A) → le x y ≡ true → le y z ≡ true → le x z ≡ true) where
    All-trans :
        (x y : A) (zs : List A)
        → le x y ≡ true
        → All (λ z. le y z ≡ true) zs
        → All (λ z. le x z ≡ true) zs
    All-trans x y [] h hs = tt
    All-trans x y (z ∷ zs) h (hz, hs) = (trans x y z h hz, All-trans x y zs h hs)

    insert-Ordered : (x : A) (xs : List A) → Ordered xs → Ordered (insert le x xs)
    unfolding insert
    insert-Ordered x [] o = (tt, tt)
    insert-Ordered x (y ∷ ys) (first, o) = elim (Bool-cases (le x y)) [
      | inl here ↦ rw here ((here, All-trans x y ys here first), (first, o))
      | inr later ↦
          rw later
            (All-insert le (λ z. le y z ≡ true) x ys (total x y later) first, insert-Ordered x ys o)
    ]

    pub sort-Ordered : (xs : List A) → Ordered (sort le xs)
    unfolding sort
    sort-Ordered [] = tt
    sort-Ordered (x ∷ xs) = insert-Ordered x (sort le xs) (sort-Ordered xs)

  pub take-Ordered : (n : ℕ) (xs : List A) → Ordered xs → Ordered (take n xs)
  take-Ordered zero xs o = tt
  take-Ordered (suc n) [] o = tt
  take-Ordered (suc n) (x ∷ xs) (first, o) =
      (All-take (λ y. le x y ≡ true) n xs first, take-Ordered n xs o)

  All-drop {κ} : (P : A → Type κ) (n : ℕ) (xs : List A) → All P xs → All P (drop n xs)
  All-drop P zero xs h = h
  All-drop P (suc n) [] h = tt
  All-drop P (suc n) (x ∷ xs) (hx, h) = All-drop P n xs h

  -- What is cut off may follow whatever is kept.
  pub take-drop-Ordered :
      (n : ℕ) (xs : List A)
      → Ordered xs
      → All (λ x. All (λ y. le x y ≡ true) (drop n xs)) (take n xs)
  take-drop-Ordered zero xs o = tt
  take-drop-Ordered (suc n) [] o = tt
  take-drop-Ordered (suc n) (x ∷ xs) (first, o) =
      (All-drop (λ y. le x y ≡ true) n xs first, take-drop-Ordered n xs o)
