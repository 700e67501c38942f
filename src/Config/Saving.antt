-- ===== src/Config/Saving.antt =====
-- config.py: what the part of `update` after the loop makes of the settings.
use mathlib.Core.Path.{subst}
use homelab_agent.Prelude.{
  ◌≡◌, refl, sym, ap, ◌∙◌, inl, inr, Bool, true, false, Option, none, some, [], ◌∷◌, ◌==◌, keep_if,
  arith, nat_eq, list_eq, list_beq, Bool-cases, ==-eq_of_true,
}
use homelab_agent.Prelude.Text.{Text, strip, strip_left, is_space}
use homelab_agent.Prelude.Dict.{Dict, get}
use homelab_agent.Prelude.Keys.{UniqueKeys}
use homelab_agent.Prelude.Result.{ok, err}
use homelab_agent.Config.Store.{
  Stored, null, string, odd, Saved, Store, Environment, Answer, held, or_empty, overlay, differs,
  applied, merge, drop_blanks, by_name, save, current,
}
use homelab_agent.Config.Merge.{
  over, unless_blank, get-merge, get-drop_blanks, UniqueKeys-merge, UniqueKeys-drop_blanks,
  get-sort,
}

-- the settings that `_load` answers
abbrev pub saved_of : Store → Saved
saved_of store = held store.cache store.file

-- The process and the file agree, and each has a key once.
abbrev pub IsSaved : Store → Type 0
IsSaved store =
    UniqueKeys (saved_of store)
    × ((k : Text) → get (saved_of store) k ≡ get (or_empty store.file) k)

overlay-unless_blank : (o : Option Stored) → overlay (unless_blank o) ≡ overlay o
overlay-unless_blank none = refl
overlay-unless_blank (some null) = unfold strip strip_left is_space list_beq in refl
overlay-unless_blank (some (string s)) = elim (Bool-cases (strip s == [])) [
  | inl blank ↦ rw blank refl
  | inr kept ↦ rw kept (rw kept refl)
]
overlay-unless_blank (some (odd s)) = elim (Bool-cases (strip s == [])) [
  | inl blank ↦ rw blank refl
  | inr kept ↦ rw kept (rw kept refl)
]

overlay_of_same :
    (o : Option Stored) (v : Text) → differs o v ≡ false → overlay o ≡ overlay (some (string v))
overlay_of_same none v h =
    let empty : v ≡ [] = ==-eq_of_true v [] (ground arith) in
    subst (λ t. none ≡ overlay (some (string t))) (sym empty)
      (unfold strip strip_left list_beq in refl)
overlay_of_same (some null) v h = ground arith
overlay_of_same (some (odd s)) v h = ground arith
overlay_of_same (some (string s)) v h =
    ap (λ t. overlay (some (string t))) (==-eq_of_true s v (ground arith))

same_of_unapplied :
    (before : Saved) (cleaned : Dict Text Text) (k v : Text)
    → (applied before cleaned == []) ≡ true
    → get cleaned k ≡ some v
    → differs (get before k) v ≡ false
unfolding keep_if get list_beq
same_of_unapplied before [] k v h found = ground arith
same_of_unapplied before ((j, w) ∷ cleaned) k v h found = elim (Bool-cases (j == k)) [
  | inl same ↦ elim (Bool-cases (differs (get before j) w)) [
    | inl differ ↦ ground arith
    | inr alike ↦
        let value : w ≡ v = ground arith in
        subst (λ i. differs (get before i) v ≡ false) (==-eq_of_true j k same)
          (subst (λ x. differs (get before j) x ≡ false) value alike)
  ]
  | inr other ↦ same_of_unapplied before cleaned k v (ground arith) (ground arith)
]

overlay_of_unapplied :
    (before : Saved) (cleaned : Dict Text Text) (k : Text) (o : Option Text)
    → (applied before cleaned == []) ≡ true
    → get cleaned k ≡ o
    → overlay (get before k) ≡ overlay (over o (get before k))
overlay_of_unapplied before cleaned k none h found = refl
overlay_of_unapplied before cleaned k (some v) h found =
    overlay_of_same (get before k) v (same_of_unapplied before cleaned k v h found)

-- An error changes nothing; an answer comes after every clean value is laid over what was saved.
abbrev pub IsLaid : Dict Text Text → Store → Answer × Store → Type 0
IsLaid cleaned store (err e, after) = (saved_of after ≡ saved_of store) × (after.file ≡ store.file)
IsLaid cleaned store (ok answer, after) =
    (k : Text)
    → overlay (get (saved_of after) k) ≡ overlay (over (get cleaned k) (get (saved_of store) k))

pub save-IsLaid :
    (environ : Environment) (saves : Bool) (cleaned : Dict Text Text) (store : Store)
    → UniqueKeys cleaned
    → UniqueKeys (saved_of store)
    → IsLaid cleaned store (save environ saves cleaned store)
unfolding save current
save-IsLaid environ saves cleaned store c u =
    elim (Bool-cases (applied (saved_of store) cleaned == [])) [
      | inl same ↦
          rw same (λ k. overlay_of_unapplied (saved_of store) cleaned k (get cleaned k) same refl)
      | inr differ ↦ rw differ (elim (Bool-cases saves) [
        | inr broken ↦ rw broken (refl, refl)
        | inl written ↦ rw written (λ k.
            ap overlay (
              get-drop_blanks (merge (saved_of store) cleaned) k
                (UniqueKeys-merge (saved_of store) cleaned u))
            ∙ overlay-unless_blank (get (merge (saved_of store) cleaned) k)
            ∙ ap overlay (get-merge (saved_of store) cleaned k c))
      ])
    ]

pub save-IsSaved :
    (environ : Environment) (saves : Bool) (cleaned : Dict Text Text) (store : Store)
    → IsSaved store
    → IsSaved (save environ saves cleaned store).1
unfolding save current
save-IsSaved environ saves cleaned store (u, agree) =
    elim (Bool-cases (applied (saved_of store) cleaned == [])) [
      | inl same ↦ rw same (u, agree)
      | inr differ ↦ rw differ (elim (Bool-cases saves) [
        | inr broken ↦ rw broken (u, agree)
        | inl written ↦
            let unique : UniqueKeys (drop_blanks (merge (saved_of store) cleaned)) =
              UniqueKeys-drop_blanks (merge (saved_of store) cleaned)
                (UniqueKeys-merge (saved_of store) cleaned u) in
            rw written (
              unique,
              λ k. sym (get-sort by_name (drop_blanks (merge (saved_of store) cleaned)) k unique),
            )
      ])
    ]
