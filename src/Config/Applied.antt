-- ===== src/Config/Applied.antt =====
-- config.py: what `update` makes of a request.
use mathlib.Core.Path.{subst}
use homelab_agent.Prelude.{
  ◌≡◌, refl, sym, ap, ◌∙◌, inl, inr, Bool, true, false, Option, none, some, [], ◌∷◌, is_some, ◌==◌,
  arith, nat_eq, list_eq, Bool-cases, ==-eq_of_true,
}
use homelab_agent.Prelude.Text.{Text}
use homelab_agent.Prelude.Dict.{Dict, get, set, get-set}
use homelab_agent.Prelude.Keys.{UniqueKeys, UniqueKeys-set}
use homelab_agent.Prelude.Result.{Result, ok, err, ◌>>◌, ◌>>=◌, require, present}
use homelab_agent.Config.Settings.{Setting, by_key, is_live}
use homelab_agent.Config.Clean.{Floats, Value, ConfigError, not_accepted, fixed, clean}
use homelab_agent.Config.Store.{clean_all}

-- one change that was taken, and the clean value
abbrev pub IsAccepted : Floats → Text → Value → Text → Type 0
IsAccepted floats k value v =
    (s : Setting) × (by_key k ≡ some s) × (is_live s.scope ≡ true) × (clean floats s value ≡ ok v)

-- what a request says of a key, and the clean values before and after it
abbrev pub Accepts : Floats → Text → Option Value → Option Text → Option Text → Type 0
Accepts floats k none before after = after ≡ before
Accepts floats k (some value) before after =
    (v : Text) × IsAccepted floats k value v × (after ≡ some v)

module _ (floats : Floats) (key : Text) (value : Value) (changes : Dict Text Value)
    (acc cleaned : Dict Text Text) where
  abbrev IsTaken : Type 0
  IsTaken =
      (v : Text) × IsAccepted floats key value v
      × (clean_all floats changes (set acc key v) ≡ ok cleaned)

  step_of :
      (s : Setting) (b : Bool) (r : Result ConfigError Text)
      → by_key key ≡ some s
      → is_live s.scope ≡ b
      → clean floats s value ≡ r
      → (require b fixed >> r >>= λ v. clean_all floats changes (set acc key v)) ≡ ok cleaned
      → IsTaken
  step_of s false r known at answer h = ground arith
  step_of s true (err e) known at answer h = ground arith
  step_of s true (ok v) known at answer h = (v, (s, known, at, answer), h)

  find_step :
      (o : Option Setting)
      → by_key key ≡ o
      → (present o not_accepted >>= λ s.
          require (is_live s.scope) fixed >> clean floats s value >>= λ v.
          clean_all floats changes (set acc key v))
        ≡ ok cleaned
      → IsTaken
  find_step none known h = ground arith
  find_step (some s) known h = step_of s (is_live s.scope) (clean floats s value) known refl refl h

  clean_all-IsTaken : clean_all floats ((key, value) ∷ changes) acc ≡ ok cleaned → IsTaken
  unfolding clean_all
  clean_all-IsTaken h = find_step (by_key key) refl h

none_of_fresh : (o : Option Value) → is_some o ≡ false → o ≡ none
none_of_fresh none h = refl
none_of_fresh (some v) h = ground arith

pub clean_all-Accepts :
    (floats : Floats) (changes : Dict Text Value) (acc cleaned : Dict Text Text)
    → UniqueKeys changes
    → clean_all floats changes acc ≡ ok cleaned
    → (k : Text) → Accepts floats k (get changes k) (get acc k) (get cleaned k)
unfolding get
clean_all-Accepts floats [] acc cleaned u h k =
    unfold clean_all in ap (λ d. get d k) (sym (ground arith))
clean_all-Accepts floats ((key, value) ∷ changes) acc cleaned (fresh, u) h k =
    let (v, (s, known, at, answer), rest) =
      clean_all-IsTaken floats key value changes acc cleaned h in
    let after : Accepts floats k (get changes k) (get (set acc key v) k) (get cleaned k) =
      clean_all-Accepts floats changes (set acc key v) cleaned u rest k in
    elim (Bool-cases (key == k)) [
      | inl same ↦
          let here : key ≡ k = ==-eq_of_true key k same in
          let absent : get changes k ≡ none =
            none_of_fresh (get changes k) (ap (λ i. is_some (get changes i)) (sym here) ∙ fresh) in
          let kept : get cleaned k ≡ get (set acc key v) k =
            subst (λ o. Accepts floats k o (get (set acc key v) k) (get cleaned k)) absent after in
          rw same (
            v,
            (s, ap by_key (sym here) ∙ known, at, answer),
            kept ∙ get-set acc key k v ∙ rw same refl,
          )
      | inr other ↦ rw other (
          subst (λ o. Accepts floats k (get changes k) o (get cleaned k))
            (get-set acc key k v ∙ rw other refl) after)
    ]

pub clean_all-UniqueKeys :
    (floats : Floats) (changes : Dict Text Value) (acc cleaned : Dict Text Text)
    → UniqueKeys acc
    → clean_all floats changes acc ≡ ok cleaned
    → UniqueKeys cleaned
clean_all-UniqueKeys floats [] acc cleaned u h =
    let same : acc ≡ cleaned = unfold clean_all in ground arith in subst UniqueKeys same u
clean_all-UniqueKeys floats ((key, value) ∷ changes) acc cleaned u h =
    let (v, accepted, rest) = clean_all-IsTaken floats key value changes acc cleaned h in
    clean_all-UniqueKeys floats changes (set acc key v) cleaned (UniqueKeys-set acc key v u) rest
