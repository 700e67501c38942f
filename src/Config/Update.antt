-- ===== src/Config/Update.antt =====
-- config.py: `update` as its callers see it, through `get`.
use homelab_agent.Prelude.{
  ◌≡◌, refl, sym, ap, ◌∙◌, inl, inr, Bool, Option, none, some, [], nat_eq, list_eq, Bool-cases,
}
use homelab_agent.Prelude.Text.{Text}
use homelab_agent.Prelude.Dict.{Dict, get}
use homelab_agent.Prelude.Keys.{UniqueKeys}
use homelab_agent.Prelude.Result.{ok, err, Result-cases}
use homelab_agent.Config.Clean.{Floats, Value}
use homelab_agent.Config.Store.{
  Saved, Store, Environment, Answer, string, overlay, or_else, getenv, reload, get_setting,
  clean_all, save, update, writable,
}
use homelab_agent.Config.Merge.{over}
use homelab_agent.Config.Applied.{IsAccepted, Accepts, clean_all-Accepts, clean_all-UniqueKeys}
use homelab_agent.Config.Saving.{saved_of, IsSaved, IsLaid, save-IsLaid, save-IsSaved}

-- What a request makes of a key: nothing if it does not name it, otherwise the clean value, where a
-- blank one is as good as none.
abbrev IsChanged : Floats → Saved → Saved → Text → Option Value → Type 0
IsChanged floats before after k none = overlay (get after k) ≡ overlay (get before k)
IsChanged floats before after k (some value) =
    (v : Text) × IsAccepted floats k value v × (overlay (get after k) ≡ overlay (some (string v)))

abbrev pub IsApplied : Floats → Dict Text Value → Store → Answer × Store → Type 0
IsApplied floats changes store (err e, after) =
    (saved_of after ≡ saved_of store) × (after.file ≡ store.file)
IsApplied floats changes store (ok answer, after) =
    (k : Text) → IsChanged floats (saved_of store) (saved_of after) k (get changes k)

Accepts-IsChanged :
    (floats : Floats) (before after : Saved) (k : Text) (change : Option Value)
    (clean : Option Text)
    → Accepts floats k change none clean
    → overlay (get after k) ≡ overlay (over clean (get before k))
    → IsChanged floats before after k change
Accepts-IsChanged floats before after k none clean accepts laid =
    laid ∙ ap (λ o. overlay (over o (get before k))) accepts
Accepts-IsChanged floats before after k (some value) clean (v, accepted, taken) laid =
    (v, accepted, laid ∙ ap (λ o. overlay (over o (get before k))) taken)

IsLaid-IsApplied :
    (floats : Floats) (changes : Dict Text Value) (cleaned : Dict Text Text) (store : Store)
    → UniqueKeys changes
    → clean_all floats changes [] ≡ ok cleaned
    → (result : Answer × Store) → IsLaid cleaned store result
    → IsApplied floats changes store result
IsLaid-IsApplied floats changes cleaned store u h (err e, after) laid = laid
IsLaid-IsApplied floats changes cleaned store u h (ok answer, after) laid = λ k.
    Accepts-IsChanged floats (saved_of store) (saved_of after) k (get changes k) (get cleaned k)
      (unfold get in clean_all-Accepts floats changes [] cleaned u h k) (laid k)

-- A request is all or nothing: after an error the settings and the file are what they were; after
-- an answer each key that it names is one that may be changed, and has its clean value, a blank one
-- being none, while every other key is as before.
pub update-IsApplied :
    (floats : Floats) (environ : Environment) (saves : Bool) (changes : Dict Text Value)
    (store : Store)
    → UniqueKeys changes
    → UniqueKeys (saved_of store)
    → IsApplied floats changes store (update floats environ saves (some changes) store)
unfolding update
update-IsApplied floats environ saves changes store c u = elim (Bool-cases (writable environ)) [
  | inr may_not ↦ rw may_not (refl, refl)
  | inl may ↦ rw may (elim (Result-cases (clean_all floats changes [])) [
    | inl (e, broken) ↦ rw broken (refl, refl)
    | inr (cleaned, h) ↦ rw h (
        IsLaid-IsApplied floats changes cleaned store c h (save environ saves cleaned store) (
          save-IsLaid environ saves cleaned store
            (clean_all-UniqueKeys floats changes [] cleaned tt h) u))
  ])
]

update-IsSaved :
    (floats : Floats) (environ : Environment) (saves : Bool) (changes : Option (Dict Text Value))
    (store : Store)
    → IsSaved store
    → IsSaved (update floats environ saves changes store).1
unfolding update
update-IsSaved floats environ saves none store s = s
update-IsSaved floats environ saves (some changes) store s = elim (Bool-cases (writable environ)) [
  | inr may_not ↦ rw may_not s
  | inl may ↦ rw may (elim (Result-cases (clean_all floats changes [])) [
    | inl (e, broken) ↦ rw broken s
    | inr (cleaned, h) ↦ rw h (save-IsSaved environ saves cleaned store s)
  ])
]

-- Where the process and the file agree, they still do after any request, so that `get` answers
-- every name after a restart as it did before it.
pub get_setting-reload :
    (floats : Floats) (environ : Environment) (saves : Bool) (changes : Option (Dict Text Value))
    (store : Store)
    → IsSaved store
    → IsSaved (update floats environ saves changes store).1
      × ((name default : Text)
          → (get_setting environ name default
              (reload (update floats environ saves changes store).1)).0
            ≡ (get_setting environ name default (update floats environ saves changes store).1).0)
unfolding get_setting
get_setting-reload floats environ saves changes store s =
    let (unique, agree) = update-IsSaved floats environ saves changes store s in
    (
      (unique, agree),
      λ name default.
          ap (λ o. or_else (overlay o) (getenv environ name default)) (sym (agree name)),
    )
