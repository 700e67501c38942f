-- ===== src/Prelude/Distinct.antt =====
-- Lists of records with distinct keys.
use Prim.Native.Nat.{ℕ, zero, suc}
use mathlib.Core.Path.{◌≡◌, refl, ◌∙◌}
use mathlib.Core.Bool.{Bool, false}
use mathlib.Core.Logic.{inl, inr}
use mathlib.Core.List.{List, [], ◌∷◌, map}
use native.Mathlib.Omega.{arith}
use homelab_agent.Prelude.Tests.{Bool-cases}
use homelab_agent.Prelude.Lists.{take, keep_if}
use homelab_agent.Prelude.Equality.{HasEq, contains, ==_sym}
use homelab_agent.Prelude.Sort.{insert, sort}
use homelab_agent.Prelude.Keys.{DistinctKeys}

module _ {ℓ κ} {A : Type ℓ} {K : Type κ} ⦃e : HasEq K⦄ (key : A → K) where
  contains-insert :
      (le : A → A → Bool) (x : A) (xs : List A) (k : K)
      → contains (map key (insert le x xs)) k ≡ contains (map key (x ∷ xs)) k
  unfolding contains insert
  contains-insert le x [] k = refl
  contains-insert le x (y ∷ ys) k = ground (arith, contains-insert le x ys k)

  contains-sort :
      (le : A → A → Bool) (xs : List A) (k : K)
      → contains (map key (sort le xs)) k ≡ contains (map key xs) k
  unfolding contains sort
  contains-sort le [] k = refl
  contains-sort le (x ∷ xs) k =
      contains-insert le x (sort le xs) k ∙ ground (arith, contains-sort le xs k)

  DistinctKeys-insert :
      (le : A → A → Bool) (x : A) (xs : List A)
      → contains (map key xs) (key x) ≡ false
      → DistinctKeys (map key xs)
      → DistinctKeys (map key (insert le x xs))
  unfolding insert
  DistinctKeys-insert le x [] c d = (c, d)
  DistinctKeys-insert le x (y ∷ ys) c (cy, d) = elim (Bool-cases (le x y)) [
    | inl here ↦ rw here (c, (cy, d))
    | inr later ↦ rw later (apart, DistinctKeys-insert le x ys (unfold contains in ground arith) d)
  ]
    where
      apart : contains (map key (insert le x ys)) (key y) ≡ false
      apart =
          contains-insert le x ys (key y)
          ∙ (unfold contains in ground (arith, ==_sym (key x) (key y)))

  pub DistinctKeys-sort :
      (le : A → A → Bool) (xs : List A)
      → DistinctKeys (map key xs)
      → DistinctKeys (map key (sort le xs))
  unfolding sort
  DistinctKeys-sort le [] d = d
  DistinctKeys-sort le (x ∷ xs) (c, d) =
      DistinctKeys-insert le x (sort le xs) (contains-sort le xs (key x) ∙ c)
        (DistinctKeys-sort le xs d)

  contains-take :
      (n : ℕ) (xs : List A) (k : K)
      → contains (map key xs) k ≡ false
      → contains (map key (take n xs)) k ≡ false
  unfolding contains
  contains-take zero xs k h = refl
  contains-take (suc n) [] k h = refl
  contains-take (suc n) (x ∷ xs) k h = ground (arith, contains-take n xs k)

  pub DistinctKeys-take :
      (n : ℕ) (xs : List A) → DistinctKeys (map key xs) → DistinctKeys (map key (take n xs))
  DistinctKeys-take zero xs d = tt
  DistinctKeys-take (suc n) [] d = tt
  DistinctKeys-take (suc n) (x ∷ xs) (c, d) =
      (contains-take n xs (key x) c, DistinctKeys-take n xs d)

  contains-keep_if :
      (p : A → Bool) (xs : List A) (k : K)
      → contains (map key xs) k ≡ false
      → contains (map key (keep_if p xs)) k ≡ false
  unfolding contains keep_if
  contains-keep_if p [] k h = refl
  contains-keep_if p (x ∷ xs) k h = ground (arith, contains-keep_if p xs k)

  pub DistinctKeys-keep_if :
      (p : A → Bool) (xs : List A)
      → DistinctKeys (map key xs)
      → DistinctKeys (map key (keep_if p xs))
  unfolding keep_if
  DistinctKeys-keep_if p [] d = d
  DistinctKeys-keep_if p (x ∷ xs) (c, d) = elim (Bool-cases (p x)) [
    | inl kept ↦ rw kept (contains-keep_if p xs (key x) c, DistinctKeys-keep_if p xs d)
    | inr dropped ↦ rw dropped (DistinctKeys-keep_if p xs d)
  ]
