-- ===== src/Prelude/Keys.antt =====
-- Dictionaries whose keys are distinct, as Python's are, and how many entries deletions leave.
use homelab_agent.Prelude.Dict.{Dict, get, set, remove, get-set}
use Prim.Native.Nat.{ℕ, ◌+◌, ◌≤◌}
use mathlib.Core.Path.{◌≡◌, refl, ap, ◌∙◌, sym}
use mathlib.Core.Bool.{Bool, true, false}
use mathlib.Core.Logic.{inl, inr}
use mathlib.Core.Option.{none, some}
use mathlib.Core.List.{List, [], ◌∷◌}
use native.Mathlib.Omega.{arith}
use homelab_agent.Prelude.Tests.{if◌then◌else◌, is_some, Bool-cases}
use homelab_agent.Prelude.Lists.{length, sum_by, All}
use homelab_agent.Prelude.Equality.{HasEq, ◌==◌, contains, ==_sym, ==_refl}

module _ {ℓ κ} {K : Type ℓ} {V : Type κ} where
  -- list(d), list(d.values())
  unfoldable pub keys : Dict K V → List K
  keys [] = []
  keys ((k, v) ∷ d) = k ∷ keys d

  unfoldable pub values : Dict K V → List V
  values [] = []
  values ((k, v) ∷ d) = v ∷ values d

  -- how many values pass a test
  abbrev pub tally : (V → Bool) → Dict K V → ℕ
  tally p [] = 0
  tally p ((k, v) ∷ d) = (if p v then 1 else 0) + tally p d

module _ {ℓ} {K : Type ℓ} ⦃e : HasEq K⦄ where
  -- the keys, each once
  abbrev pub DistinctKeys : List K → Type 0
  DistinctKeys [] = Unit
  DistinctKeys (k ∷ ks) = (contains ks k ≡ false) × DistinctKeys ks

module _ {ℓ κ} {K : Type ℓ} {V : Type κ} ⦃e : HasEq K⦄ where
  -- `for k in ks: del d[k]`
  unfoldable pub remove_all : Dict K V → List K → Dict K V
  remove_all d [] = d
  remove_all d (k ∷ ks) = remove_all (remove d k) ks

  abbrev pub UniqueKeys : Dict K V → Type 0
  UniqueKeys [] = Unit
  UniqueKeys ((k, v) ∷ d) = (is_some (get d k) ≡ false) × UniqueKeys d

  get-remove_ne : (d : Dict K V) (k j : K) → (k == j) ≡ false → get (remove d k) j ≡ get d j
  unfolding get remove
  get-remove_ne [] k j h = refl
  get-remove_ne ((i, v) ∷ d) k j h =
      ground (arith, get-remove_ne d k j h, e.same_iff i k, e.same_iff i j, e.same_iff k j)

  pub get-remove :
      (d : Dict K V) (k j : K)
      → UniqueKeys d
      → get (remove d k) j ≡ (if k == j then none else get d j)
  unfolding get remove
  get-remove [] k j u = ground arith
  get-remove ((i, v) ∷ d) k j u =
      ground (arith, get-remove d k j u.1, e.same_iff i k, e.same_iff i j, e.same_iff k j)

  pub UniqueKeys-remove : (d : Dict K V) (k : K) → UniqueKeys d → UniqueKeys (remove d k)
  unfolding remove
  UniqueKeys-remove [] k u = tt
  UniqueKeys-remove ((i, v) ∷ d) k (h, u) = elim (Bool-cases (i == k)) [
    | inl hit ↦ rw hit u
    | inr miss ↦
        rw miss (ap is_some (get-remove_ne d k i (==_sym k i ∙ miss)) ∙ h, UniqueKeys-remove d k u)
  ]

  pub UniqueKeys-set : (d : Dict K V) (k : K) (v : V) → UniqueKeys d → UniqueKeys (set d k v)
  unfolding get set
  UniqueKeys-set [] k v u = (refl, tt)
  UniqueKeys-set ((i, w) ∷ d) k v (h, u) = elim (Bool-cases (i == k)) [
    | inl hit ↦ rw hit (h, u)
    | inr miss ↦ rw miss (fresh miss, UniqueKeys-set d k v u)
  ]
    where
      fresh : (i == k) ≡ false → is_some (get (set d k v) i) ≡ false
      fresh miss = rw (get-set d k i v) (rw (==_sym k i ∙ miss) h)

  pub UniqueKeys-remove_all :
      (d : Dict K V) (ks : List K) → UniqueKeys d → UniqueKeys (remove_all d ks)
  unfolding remove_all
  UniqueKeys-remove_all d [] u = u
  UniqueKeys-remove_all d (k ∷ ks) u =
      UniqueKeys-remove_all (remove d k) ks (UniqueKeys-remove d k u)

  pub tally-remove :
      (p : V → Bool) (d : Dict K V) (k : K) (v : V)
      → get d k ≡ some v
      → tally p (remove d k) + (if p v then 1 else 0) ≡ tally p d
  unfolding get remove
  tally-remove p [] k v h = ground arith
  tally-remove p ((i, w) ∷ d) k v h = ground (arith, tally-remove p d k v)

  tally-remove_le : (p : V → Bool) (d : Dict K V) (k : K) → tally p (remove d k) ≤ tally p d
  unfolding remove
  tally-remove_le p [] k = ground arith
  tally-remove_le p ((i, w) ∷ d) k = ground (arith, tally-remove_le p d k)

  pub tally-remove_all_le :
      (p : V → Bool) (d : Dict K V) (ks : List K) → tally p (remove_all d ks) ≤ tally p d
  unfolding remove_all
  tally-remove_all_le p d [] = omega arith
  tally-remove_all_le p d (k ∷ ks) =
      omega (arith, tally-remove_all_le p (remove d k) ks, tally-remove_le p d k)

  pub tally-set :
      (p : V → Bool) (d : Dict K V) (k : K) (v : V)
      → get d k ≡ none
      → tally p (set d k v) ≡ tally p d + (if p v then 1 else 0)
  unfolding get set
  tally-set p [] k v h = ground arith
  tally-set p ((i, w) ∷ d) k v h = ground (arith, tally-set p d k v)

  -- Writing over an old value counts the new one in its place.
  pub tally-set_over :
      (p : V → Bool) (d : Dict K V) (k : K) (v w : V)
      → get d k ≡ some w
      → tally p (set d k v) + (if p w then 1 else 0) ≡ tally p d + (if p v then 1 else 0)
  unfolding get set
  tally-set_over p [] k v w h = ground arith
  tally-set_over p ((i, u) ∷ d) k v w h = ground (arith, tally-set_over p d k v w)

  pub length-eq-tally : (d : Dict K V) → tally (λ _. true) d ≡ length d
  length-eq-tally [] = refl
  length-eq-tally (x ∷ d) = omega (arith, length-eq-tally d)

  pub tally-le-length : (p : V → Bool) (d : Dict K V) → tally p d ≤ length d
  tally-le-length p [] = omega arith
  tally-le-length p ((k, v) ∷ d) = ground (arith, tally-le-length p d)

  pub get-remove_all :
      (d : Dict K V) (ks : List K) (k : K)
      → contains ks k ≡ false
      → get (remove_all d ks) k ≡ get d k
  unfolding remove_all contains
  get-remove_all d [] k h = refl
  get-remove_all d (j ∷ ks) k h =
      get-remove_all (remove d j) ks k (ground arith)
      ∙ get-remove_ne d j k (ground (arith, ==_sym j k))

  get-cons_ne :
      (d : Dict K V) (k j : K) (v w : V)
      → is_some (get d k) ≡ false
      → get d j ≡ some w
      → get ((k, v) ∷ d) j ≡ some w
  unfolding get
  get-cons_ne d k j v w h at = elim (Bool-cases (k == j)) [
    | inr miss ↦ rw miss at
    | inl hit ↦
        let same : get d k ≡ some w = ap (get d) ((e.same_iff k j).0 hit) ∙ at in
        let clash : true ≡ false = ap is_some (sym same) ∙ h in ground arith
  ]

  -- What holds of each value that a key has holds of all values.
  pub All-values {μ} :
      (P : V → Type μ) (d : Dict K V)
      → UniqueKeys d
      → ((k : K) (v : V) → get d k ≡ some v → P v)
      → All P (values d)
  unfolding values get
  All-values P [] u h = tt
  All-values P ((k, v) ∷ d) (fresh, u) h = (
    h k v (rw (==_refl k) refl),
    All-values P d u (λ j w at. h j w (get-cons_ne d k j v w fresh at)),
  )

  pub sum_by-set :
      (f : V → ℕ) (d : Dict K V) (k : K) (v : V)
      → get d k ≡ none
      → sum_by f (values (set d k v)) ≡ sum_by f (values d) + f v
  unfolding get set values sum_by
  sum_by-set f [] k v h = ground arith
  sum_by-set f ((i, w) ∷ d) k v h = ground (arith, sum_by-set f d k v)

  pub sum_by-set_over :
      (f : V → ℕ) (d : Dict K V) (k : K) (v w : V)
      → get d k ≡ some w
      → sum_by f (values (set d k v)) + f w ≡ sum_by f (values d) + f v
  unfolding get set values sum_by
  sum_by-set_over f [] k v w h = ground arith
  sum_by-set_over f ((i, u) ∷ d) k v w h = ground (arith, sum_by-set_over f d k v w)

  -- Each key is that of a value that passes the test.
  abbrev pub Holding : (V → Bool) → Dict K V → List K → Type κ
  Holding p d [] = Unit
  Holding p d (k ∷ ks) = ((v : V) × (get d k ≡ some v) × (p v ≡ true)) × Holding p d ks

  Holding-remove :
      (p : V → Bool) (d : Dict K V) (k : K) (ks : List K)
      → UniqueKeys d
      → contains ks k ≡ false
      → Holding p d ks
      → Holding p (remove d k) ks
  unfolding contains
  Holding-remove p d k [] u c h = tt
  Holding-remove p d k (j ∷ ks) u c ((v, at, ok), h) =
      ((v, rw (get-remove d k j u) (ground arith), ok), Holding-remove p d k ks u (ground arith) h)

  -- Deleting keys of values that pass a test leaves so many fewer of them.
  pub tally-remove_all :
      (p : V → Bool) (d : Dict K V) (ks : List K)
      → UniqueKeys d
      → DistinctKeys ks
      → Holding p d ks
      → tally p (remove_all d ks) + length ks ≡ tally p d
  unfolding remove_all
  tally-remove_all p d [] u c h = omega arith
  tally-remove_all p d (k ∷ ks) u (c, cs) ((v, at, ok), h) =
      let step : tally p (remove_all (remove d k) ks) + length ks ≡ tally p (remove d k) =
        tally-remove_all p (remove d k) ks (UniqueKeys-remove d k u) cs
          (Holding-remove p d k ks u c h) in
      ground (arith, step, tally-remove p d k v at)
