-- ===== src/Prelude/Named.antt =====
-- Dictionaries of records that stand under their own ids, and the deletion of some of them by id.
use homelab_agent.Prelude.Dict.{Dict, get, set, remove}
use homelab_agent.Prelude.Keys.{values, remove_all, UniqueKeys, DistinctKeys, Holding}
use mathlib.Core.Path.{◌≡◌, refl, ◌∙◌, sym}
use mathlib.Core.Bool.{Bool, true, false}
use mathlib.Core.Logic.{inl, inr}
use mathlib.Core.Option.{some}
use mathlib.Core.List.{List, [], ◌∷◌, map}
use native.Mathlib.Omega.{arith}
use homelab_agent.Prelude.Tests.{is_some, Bool-cases}
use homelab_agent.Prelude.Lists.{All, keep_if}
use homelab_agent.Prelude.Equality.{HasEq, ◌==◌, contains}

module _ {ℓ κ} {K : Type ℓ} {V : Type κ} ⦃e : HasEq K⦄ (id : V → K) where
  -- Each value stands under its own id.
  abbrev pub Named : Dict K V → Type ℓ
  Named [] = Unit
  Named ((k, v) ∷ d) = (id v ≡ k) × Named d

  pub Named-set : (d : Dict K V) (k : K) (v : V) → id v ≡ k → Named d → Named (set d k v)
  unfolding set
  Named-set [] k v h n = (h, tt)
  Named-set ((j, w) ∷ d) k v h (i, n) = elim (Bool-cases (j == k)) [
    | inl hit ↦ rw hit ((h ∙ sym ((e.same_iff j k).0 hit)), n)
    | inr miss ↦ rw miss (i, Named-set d k v h n)
  ]

  pub Named-remove : (d : Dict K V) (k : K) → Named d → Named (remove d k)
  unfolding remove
  Named-remove [] k n = tt
  Named-remove ((j, w) ∷ d) k (i, n) = elim (Bool-cases (j == k)) [
    | inl hit ↦ rw hit n
    | inr miss ↦ rw miss (i, Named-remove d k n)
  ]

  pub Named-remove_all : (d : Dict K V) (ks : List K) → Named d → Named (remove_all d ks)
  unfolding remove_all
  Named-remove_all d [] n = n
  Named-remove_all d (k ∷ ks) n = Named-remove_all (remove d k) ks (Named-remove d k n)

  pub Named-get : (d : Dict K V) (k : K) (v : V) → Named d → get d k ≡ some v → id v ≡ k
  unfolding get
  Named-get [] k v n h = cc
  Named-get ((j, w) ∷ d) k v (i, n) h = ground (arith, e.same_iff j k, Named-get d k v n)

  -- what the dictionary holds under its own id
  abbrev pub Held : Dict K V → V → Type κ
  Held d v = get d (id v) ≡ some v

  Held-cons :
      (j : K) (w : V) (d : Dict K V) (xs : List V)
      → is_some (get d j) ≡ false
      → All (Held d) xs
      → All (Held ((j, w) ∷ d)) xs
  unfolding get
  Held-cons j w d [] u h = tt
  Held-cons j w d (x ∷ xs) u (hx, h) = (ground (arith, e.same_iff j (id x)), Held-cons j w d xs u h)

  pub values-Held : (d : Dict K V) → UniqueKeys d → Named d → All (Held d) (values d)
  unfolding get values
  values-Held [] u n = tt
  values-Held ((j, w) ∷ d) (u, us) (i, n) =
      (ground (arith, e.same_iff j (id w)), Held-cons j w d (values d) u (values-Held d us n))

  contains-ids :
      (d : Dict K V) (k : K)
      → Named d
      → is_some (get d k) ≡ false
      → contains (map id (values d)) k ≡ false
  unfolding get values contains
  contains-ids [] k n h = refl
  contains-ids ((j, w) ∷ d) k (i, n) h =
      rw i (ground (arith, e.same_iff j k, e.same_iff k j, contains-ids d k n))

  pub ids-DistinctKeys : (d : Dict K V) → UniqueKeys d → Named d → DistinctKeys (map id (values d))
  unfolding values
  ids-DistinctKeys [] u n = tt
  ids-DistinctKeys ((j, w) ∷ d) (u, us) (i, n) =
      (rw i (contains-ids d j n u), ids-DistinctKeys d us n)

  -- the held values that pass a test
  abbrev pub Passing : (V → Bool) → Dict K V → V → Type κ
  Passing p d v = Held d v × (p v ≡ true)

  pub keep_if-Passing :
      (p : V → Bool) (d : Dict K V) (xs : List V)
      → All (Held d) xs
      → All (Passing p d) (keep_if p xs)
  unfolding keep_if
  keep_if-Passing p d [] h = tt
  keep_if-Passing p d (x ∷ xs) (hx, h) = elim (Bool-cases (p x)) [
    | inl pass ↦ rw pass ((hx, pass), keep_if-Passing p d xs h)
    | inr fail ↦ rw fail (keep_if-Passing p d xs h)
  ]

  pub Passing-Holding :
      (p : V → Bool) (d : Dict K V) (xs : List V) → All (Passing p d) xs → Holding p d (map id xs)
  Passing-Holding p d [] h = tt
  Passing-Holding p d (x ∷ xs) ((held, pass), h) = ((x, held, pass), Passing-Holding p d xs h)

  -- A value that fails the test is not among those that pass it.
  pub Passing-contains :
      (p : V → Bool) (d : Dict K V) (xs : List V) (k : K) (v : V)
      → All (Passing p d) xs
      → get d k ≡ some v
      → p v ≡ false
      → contains (map id xs) k ≡ false
  unfolding contains
  Passing-contains p d [] k v h at fail = refl
  Passing-contains p d (x ∷ xs) k v ((held, pass), h) at fail = elim (Bool-cases (k == id x)) [
    | inl hit ↦ let same : k ≡ id x = (e.same_iff k (id x)).0 hit in ground (arith, rw same at at)
    | inr miss ↦ rw (miss, contains) (Passing-contains p d xs k v h at fail)
  ]
