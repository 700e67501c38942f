-- ===== src/Prelude/Dict.antt =====
-- Python's `dict`, as an association list in insertion order.
use Prim.Native.Nat.{suc}
use mathlib.Core.Path.{◌≡◌, refl}
use mathlib.Core.Option.{Option, none, some}
use mathlib.Core.List.{List, [], ◌∷◌}
use native.Mathlib.Omega.{arith}
use homelab_agent.Prelude.Tests.{if◌then◌else◌, is_some}
use homelab_agent.Prelude.Lists.{length}
use homelab_agent.Prelude.Equality.{HasEq, ◌==◌}

abbrev pub Dict {ℓ κ} : Type ℓ → Type κ → Type (ℓ ⊔ κ)
Dict K V = List (K × V)

module _ {ℓ κ} {K : Type ℓ} {V : Type κ} ⦃e : HasEq K⦄ where
  -- d.get(k)
  unfoldable pub get : Dict K V → K → Option V
  get [] k = none
  get ((j, v) ∷ d) k = if j == k then some v else get d k

  -- d[k] = v: an old key keeps its place, a new one goes to the end
  unfoldable pub set : Dict K V → K → V → Dict K V
  set [] k v = (k, v) ∷ []
  set ((j, w) ∷ d) k v = let rest = set d k v in if j == k then (j, v) ∷ d else (j, w) ∷ rest

  -- del d[k], d.pop(k, None)
  unfoldable pub remove : Dict K V → K → Dict K V
  remove [] k = []
  remove ((j, w) ∷ d) k = let rest = remove d k in if j == k then d else (j, w) ∷ rest

  pub get-set :
      (d : Dict K V) (k j : K) (v : V) → get (set d k v) j ≡ (if k == j then some v else get d j)
  unfolding get set
  get-set [] k j v = refl
  get-set ((i, w) ∷ d) k j v =
      ground (arith, get-set d k j v, e.same_iff i k, e.same_iff i j, e.same_iff k j)

  pub length-set :
      (d : Dict K V) (k : K) (v : V)
      → length (set d k v) ≡ (if is_some (get d k) then length d else suc (length d))
  unfolding get set
  length-set [] k v = refl
  length-set ((i, w) ∷ d) k v = ground (arith, length-set d k v)

  pub length-remove :
      (d : Dict K V) (k : K)
      → (if is_some (get d k) then suc (length (remove d k)) else length (remove d k)) ≡ length d
  unfolding get remove
  length-remove [] k = refl
  length-remove ((i, w) ∷ d) k = ground (arith, length-remove d k)
