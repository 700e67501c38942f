-- ===== src/Config/Store.antt =====
-- config.py: the saved settings over the environment, `get`, `update`, `reload` and `current`.
-- What `json` reads back is what it wrote; a file that cannot be read, or is no object, is `none`.
use homelab_agent.Prelude.{
  Bool, true, not, ◌&&◌, Option, none, some, List, [], ◌∷◌, if◌then◌else◌, ◌==◌, contains, map,
  keep_if, nat_eq, list_eq,
}
use homelab_agent.Prelude.Text.{Text, text, strip, lower, text_le}
use homelab_agent.Prelude.Dict.{Dict, get, set}
use homelab_agent.Prelude.Sort.{sort}
use homelab_agent.Prelude.Result.{Result, ok, err, ◌>>◌, ◌>>=◌, require, present}
use homelab_agent.Config.Settings.{Setting, settings, by_key, is_live, is_secret}
use homelab_agent.Config.Clean.{
  Floats, Value, ConfigError, not_writable, not_an_object, not_accepted, fixed, not_saved, truthy,
  clean,
}

-- a value of the JSON file: null, a string, or what `str` makes of anything else
pub data Stored : Type 0 where
  null : Stored
  string : Text → Stored
  odd : Text → Stored

abbrev pub Saved : Type 0
Saved = Dict Text Stored

-- `_cache` and CONFIG_FILE
pub record Store : Type 0 where
  pub cache : Option Saved
  pub file : Option Saved

-- os.environ
abbrev pub Environment : Type 0
Environment = Text → Option Text

abbrev pub getenv : Environment → Text → Text → Text
getenv environ name default = elim (environ name) [ none ↦ default | some s ↦ s ]

abbrev pub or_empty : Option Saved → Saved
or_empty none = []
or_empty (some saved) = saved

abbrev pub held : Option Saved → Option Saved → Saved
held none file = or_empty file
held (some saved) file = saved

-- _load
abbrev pub load : Store → Saved × Store
load store = let saved = held store.cache store.file in (saved, record store { cache = some saved })

abbrev pub reload : Store → Store
reload store = record store { cache = none }

-- str(v)
abbrev pub shown : Stored → Text
shown null = text "None"
shown (string s) = s
shown (odd s) = s

-- what `get` takes from the saved settings
abbrev pub overlay : Option Stored → Option Text
overlay none = none
overlay (some null) = none
overlay (some (string s)) = if strip s == [] then none else some s
overlay (some (odd s)) = if strip s == [] then none else some s

abbrev pub or_else : Option Text → Text → Text
or_else none s = s
or_else (some t) s = t

-- get
unfoldable pub get_setting : Environment → Text → Text → Store → Text × Store
get_setting environ name default store =
    let loaded = load store in
    (or_else (overlay (get loaded.0 name)) (getenv environ name default), loaded.1)

unfoldable pub writable : Environment → Bool
writable environ = contains truthy (lower (strip (getenv environ (text "CONFIG_WRITABLE") [])))

pub record Row : Type 0 where
  pub setting : Setting
  pub value : Text
  pub is_set : Bool
  pub source : Text
  pub editable : Bool

abbrev pub shown_or_blank : Option Stored → Text
shown_or_blank none = []
shown_or_blank (some v) = shown v

unfoldable pub row_of : Environment → Saved → Setting → Row
unfolding writable
row_of environ saved s =
    let overlaid = strip (shown_or_blank (get saved s.key)) in
    let env = strip (getenv environ s.key []) in
    let value = if overlaid == [] then env else overlaid in
    record {
      setting = s;
      value = if is_secret s.kind then [] else value;
      is_set = not (value == []);
      source =
          if not (overlaid == [])
          then text "dashboard"
          else if not (env == [])
          then text "environment"
          else text "unset";
      editable = is_live s.scope && writable environ;
    }

unfoldable pub current : Environment → Store → List Row × Store
unfolding row_of
current environ store =
    let loaded = load store in (map (row_of environ loaded.0) settings, loaded.1)

-- the loop over the changes
unfoldable pub clean_all :
    Floats → Dict Text Value → Dict Text Text → Result ConfigError (Dict Text Text)
clean_all floats [] cleaned = ok cleaned
clean_all floats ((key, value) ∷ changes) cleaned = present (by_key key) not_accepted >>= λ s.
    require (is_live s.scope) fixed >> clean floats s value >>= λ v.
    clean_all floats changes (set cleaned key v)

-- before.get(k, "") != v
abbrev pub differs : Option Stored → Text → Bool
differs none v = not (v == [])
differs (some (string s)) v = not (s == v)
differs (some _) v = true

abbrev pub applied : Saved → Dict Text Text → List Text
applied before cleaned =
    map (λ entry. entry.0) (keep_if (λ entry. differs (get before entry.0) entry.1) cleaned)

-- {**before, **cleaned}
unfoldable pub merge : Saved → Dict Text Text → Saved
merge before [] = before
merge before ((k, v) ∷ cleaned) = merge (set before k (string v)) cleaned

abbrev pub is_kept : Stored → Bool
is_kept v = not (strip (shown v) == [])

abbrev pub drop_blanks : Saved → Saved
drop_blanks = keep_if (λ entry. is_kept entry.1)

-- sort_keys=True
abbrev pub by_name : Text × Stored → Text × Stored → Bool
by_name entry next = text_le entry.0 next.0

abbrev pub Answer : Type 0
Answer = Result ConfigError (List Text × List Row)

-- what follows the loop; `saves` tells whether the file is written without an OSError
unfoldable pub save : Environment → Bool → Dict Text Text → Store → Answer × Store
unfolding current merge
save environ saves cleaned store =
    let loaded = load store in
    let names = applied loaded.0 cleaned in
    let merged = drop_blanks (merge loaded.0 cleaned) in
    let kept = current environ loaded.1 in
    let after =
      current environ (record { cache = some merged; file = some (sort by_name merged) }) in
    if names == []
    then (ok ([], kept.0), kept.1)
    else if saves
    then (ok (sort text_le names, after.0), after.1)
    else (err not_saved, loaded.1)

-- update, with `none` for changes that are not an object
unfoldable pub update :
    Floats → Environment → Bool → Option (Dict Text Value) → Store → Answer × Store
unfolding writable clean_all save
update floats environ saves none store =
    (if writable environ then err not_an_object else err not_writable, store)
update floats environ saves (some changes) store =
    if not (writable environ)
    then (err not_writable, store)
    else elim (clean_all floats changes []) [
      | err e ↦ (err e, store)
      | ok cleaned ↦ save environ saves cleaned store
    ]
