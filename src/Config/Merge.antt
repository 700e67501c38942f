-- ===== src/Config/Merge.antt =====
-- config.py: what `{**before, **cleaned}`, the filter on blank values and the order of the file do
-- to the entry of a key.
use homelab_agent.Prelude.{
  ◌≡◌, refl, sym, ap, ◌∙◌, inl, inr, Bool, true, false, Option, none, some, [], ◌∷◌, if◌then◌else◌,
  is_some, ◌==◌, keep_if, arith, nat_eq, list_eq, HasEq, Bool-cases, Option-cases, ==_sym,
}
use homelab_agent.Prelude.Text.{Text}
use homelab_agent.Prelude.Dict.{Dict, get, set, get-set}
use homelab_agent.Prelude.Keys.{UniqueKeys, UniqueKeys-set}
use homelab_agent.Prelude.Sort.{insert, sort}
use homelab_agent.Config.Store.{Stored, Saved, string, merge, drop_blanks, is_kept}

abbrev pub over : Option Text → Option Stored → Option Stored
over none before = before
over (some v) before = some (string v)

abbrev pub unless_blank : Option Stored → Option Stored
unless_blank none = none
unless_blank (some v) = if is_kept v then some v else none

pub get-merge :
    (before : Saved) (cleaned : Dict Text Text) (k : Text)
    → UniqueKeys cleaned
    → get (merge before cleaned) k ≡ over (get cleaned k) (get before k)
unfolding merge get
get-merge before [] k u = refl
get-merge before ((j, v) ∷ cleaned) k (fresh, u) =
    get-merge (set before j (string v)) cleaned k u
    ∙ ap (over (get cleaned k)) (get-set before j k (string v))
    ∙ (elim (Bool-cases (j == k)) [
      | inl same ↦
          let here : get cleaned k ≡ none = elim (Option-cases (get cleaned k)) [
            | inl absent ↦ absent
            | inr (w, found) ↦
                let there : get cleaned j ≡ some w =
                  ap (get cleaned) ((list_eq.same_iff j k).0 same) ∙ found in
                let clash : true ≡ false = ap is_some (sym there) ∙ fresh in ground arith
          ] in
          rw same (rw here refl)
      | inr other ↦ rw other refl
    ])

pub UniqueKeys-merge :
    (before : Saved) (cleaned : Dict Text Text)
    → UniqueKeys before
    → UniqueKeys (merge before cleaned)
unfolding merge
UniqueKeys-merge before [] u = u
UniqueKeys-merge before ((k, v) ∷ cleaned) u =
    UniqueKeys-merge (set before k (string v)) cleaned (UniqueKeys-set before k (string v) u)

absent-drop_blanks :
    (saved : Saved) (k : Text)
    → is_some (get saved k) ≡ false
    → is_some (get (drop_blanks saved) k) ≡ false
unfolding get keep_if
absent-drop_blanks [] k h = refl
absent-drop_blanks ((j, v) ∷ saved) k h = ground (arith, absent-drop_blanks saved k)

none_of_absent : (o : Option Stored) → is_some o ≡ false → o ≡ none
none_of_absent none h = refl
none_of_absent (some v) h = ground arith

pub get-drop_blanks :
    (saved : Saved) (k : Text)
    → UniqueKeys saved
    → get (drop_blanks saved) k ≡ unless_blank (get saved k)
unfolding get keep_if
get-drop_blanks [] k u = refl
get-drop_blanks ((j, v) ∷ saved) k (fresh, u) = elim (Bool-cases (is_kept v)) [
  | inl kept ↦ elim (Bool-cases (j == k)) [
    | inl same ↦ rw kept (rw same (rw kept refl))
    | inr other ↦ rw kept (rw other (get-drop_blanks saved k u))
  ]
  | inr blank ↦ elim (Bool-cases (j == k)) [
    | inl same ↦ rw blank (
        rw same (
          rw blank (
            none_of_absent (get (drop_blanks saved) k) (
              absent-drop_blanks saved k
                (ap (λ i. is_some (get saved i)) (sym ((list_eq.same_iff j k).0 same)) ∙ fresh)))))
    | inr other ↦ rw blank (rw other (get-drop_blanks saved k u))
  ]
]

pub UniqueKeys-drop_blanks : (saved : Saved) → UniqueKeys saved → UniqueKeys (drop_blanks saved)
unfolding keep_if
UniqueKeys-drop_blanks [] u = tt
UniqueKeys-drop_blanks ((k, v) ∷ saved) (fresh, u) = elim (Bool-cases (is_kept v)) [
  | inl kept ↦ rw kept (absent-drop_blanks saved k fresh, UniqueKeys-drop_blanks saved u)
  | inr blank ↦ rw blank (UniqueKeys-drop_blanks saved u)
]

-- Sorting a dictionary by any order keeps every entry.
module _ {ℓ κ} {K : Type ℓ} {V : Type κ} ⦃e : HasEq K⦄ (le : K × V → K × V → Bool) where
  get-insert :
      (k : K) (v : V) (d : Dict K V) (j : K)
      → is_some (get d k) ≡ false
      → get (insert le (k, v) d) j ≡ (if k == j then some v else get d j)
  unfolding get insert
  get-insert k v [] j h = refl
  get-insert k v ((i, w) ∷ d) j h =
      ground (arith, get-insert k v d j, e.same_iff k j, e.same_iff i j, e.same_iff i k)

  absent-insert :
      (k : K) (v : V) (d : Dict K V) (j : K)
      → is_some (get d j) ≡ false
      → (k == j) ≡ false
      → is_some (get (insert le (k, v) d) j) ≡ false
  unfolding get insert
  absent-insert k v [] j h other = ground arith
  absent-insert k v ((i, w) ∷ d) j h other = ground (arith, absent-insert k v d j)

  UniqueKeys-insert :
      (k : K) (v : V) (d : Dict K V)
      → is_some (get d k) ≡ false
      → UniqueKeys d
      → UniqueKeys (insert le (k, v) d)
  unfolding get insert
  UniqueKeys-insert k v [] h u = (h, tt)
  UniqueKeys-insert k v ((i, w) ∷ d) h (fresh, u) = elim (Bool-cases (le (k, v) (i, w))) [
    | inl first ↦ rw first (h, (fresh, u))
    | inr later ↦ rw later (
      absent-insert k v d i fresh (ground (arith, ==_sym i k)),
      UniqueKeys-insert k v d (ground arith) u,
    )
  ]

  absent-sort :
      (d : Dict K V) (j : K) → is_some (get d j) ≡ false → is_some (get (sort le d) j) ≡ false
  unfolding get sort
  absent-sort [] j h = refl
  absent-sort ((k, v) ∷ d) j h =
      absent-insert k v (sort le d) j (absent-sort d j (ground arith)) (ground arith)

  pub UniqueKeys-sort : (d : Dict K V) → UniqueKeys d → UniqueKeys (sort le d)
  unfolding sort
  UniqueKeys-sort [] u = tt
  UniqueKeys-sort ((k, v) ∷ d) (fresh, u) =
      UniqueKeys-insert k v (sort le d) (absent-sort d k fresh) (UniqueKeys-sort d u)

  pub get-sort : (d : Dict K V) (j : K) → UniqueKeys d → get (sort le d) j ≡ get d j
  unfolding get sort
  get-sort [] j u = refl
  get-sort ((k, v) ∷ d) j (fresh, u) =
      get-insert k v (sort le d) j (absent-sort d k fresh) ∙ rw (get-sort d j u) refl
