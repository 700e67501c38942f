-- ===== src/Config/View.antt =====
-- config.py: what `current` hands back.
use homelab_agent.Prelude.{
  ◌≡◌, ◌≢◌, refl, ap, inl, inr, not, Option, none, some, List, [], ◌∷◌, if◌then◌else◌, ◌==◌, map,
  All, nat_eq, list_eq, list_beq, Bool-cases,
}
use homelab_agent.Prelude.Text.{Text, strip, strip_left}
use homelab_agent.Prelude.Dict.{get}
use homelab_agent.Config.Settings.{Setting, settings, is_secret}
use homelab_agent.Config.Store.{
  Stored, Saved, Store, Environment, Row, null, string, odd, overlay, or_else, getenv, get_setting,
  row_of, current, shown_or_blank,
}
use homelab_agent.Config.Saving.{saved_of}

-- what `get` would answer, with its spaces stripped
abbrev value_of : Environment → Saved → Text → Text
value_of environ saved key = strip (or_else (overlay (get saved key)) (getenv environ key []))

-- the row tells what `get` answers, and of a secret only whether there is one
abbrev pub IsShown : Environment → Store → Row → Type 0
IsShown environ store row =
    let value = strip (get_setting environ row.setting.key [] store).0 in
    (row.value ≡ (if is_secret row.setting.kind then [] else value))
    × (row.is_set ≡ not (value == []))

abbrev value_shown : Text → Text → Text
value_shown overlaid env = if overlaid == [] then env else overlaid

value_shown-overlay :
    (o : Option Stored) (env : Text)
    → o ≢ some null
    → value_shown (strip (shown_or_blank o)) (strip env) ≡ strip (or_else (overlay o) env)
value_shown-overlay none env h = unfold strip strip_left list_beq in refl
value_shown-overlay (some null) env h = elim (h refl) [ ]
value_shown-overlay (some (string s)) env h = elim (Bool-cases (strip s == [])) [
  | inl blank ↦ rw blank refl
  | inr kept ↦ rw kept refl
]
value_shown-overlay (some (odd s)) env h = elim (Bool-cases (strip s == [])) [
  | inl blank ↦ rw blank refl
  | inr kept ↦ rw kept refl
]

row_of-IsShown :
    (environ : Environment) (store : Store) (s : Setting)
    → ((k : Text) → get (saved_of store) k ≢ some null)
    → IsShown environ store (row_of environ (saved_of store) s)
unfolding row_of get_setting
row_of-IsShown environ store s h =
    let same : value_shown (strip (shown_or_blank (get (saved_of store) s.key)))
          (strip (getenv environ s.key []))
        ≡ value_of environ (saved_of store) s.key =
      value_shown-overlay (get (saved_of store) s.key) (getenv environ s.key []) (h s.key) in
    (ap (λ t. if is_secret s.kind then [] else t) same, ap (λ t. not (t == [])) same)

rows-IsShown :
    (environ : Environment) (store : Store) (ss : List Setting)
    → ((k : Text) → get (saved_of store) k ≢ some null)
    → All (IsShown environ store) (map (row_of environ (saved_of store)) ss)
rows-IsShown environ store [] h = tt
rows-IsShown environ store (s ∷ ss) h =
    (row_of-IsShown environ store s h, rows-IsShown environ store ss h)

settings_of :
    (environ : Environment) (saved : Saved) (ss : List Setting)
    → map (λ row. row.setting) (map (row_of environ saved) ss) ≡ ss
unfolding row_of
settings_of environ saved [] = refl
settings_of environ saved (s ∷ ss) = ap (λ rest. s ∷ rest) (settings_of environ saved ss)

-- `current` has one row for each setting, in their order. Where no saved value is null, each row has the
-- value that `get` answers for its setting, without spaces around it, and tells whether there is one; of a
-- secret it tells only that.
pub current-IsShown :
    (environ : Environment) (store : Store)
    → ((k : Text) → get (saved_of store) k ≢ some null)
    → (map (λ row. row.setting) (current environ store).0 ≡ settings)
      × All (IsShown environ store) (current environ store).0
unfolding current
current-IsShown environ store h =
    (settings_of environ (saved_of store) settings, rows-IsShown environ store settings h)
