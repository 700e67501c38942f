-- ===== src/Config/Examples.antt =====
-- config.py on a few requests.
use homelab_agent.Prelude.{
  ◌≡◌, ◌≢◌, refl, true, false, none, some, [], ◌∷◌, ltb, All, ◌==◌, map, contains, keep_if, any,
  list_beq, arith, nat_eq, list_eq,
}
use homelab_agent.Prelude.Text.{
  Text, text, strip, strip_left, is_space, is_decimal, int, int_from, is_digit, lower, to_lower,
  starts_with, split_on, text_le,
}
use homelab_agent.Prelude.Dict.{Dict, get, set}
use homelab_agent.Prelude.Sort.{insert, sort}
use homelab_agent.Prelude.Result.{ok, err}
use homelab_agent.Disk.Path.{join_with, strip_slashes, rstrip_slashes}
use homelab_agent.Config.Settings
use homelab_agent.Config.Settings.{Setting, settings, find_setting, by_key}
use homelab_agent.Config.Clean.{
  Floats, Value, other, flag, has_parent, system_directory, split_entries, or_root, clean_entry,
  clean_entries, clean_paths, clean_number, is_clock, clean_url, clean_as, clean,
}
use homelab_agent.Config.Store.{
  Store, Saved, Environment, string, null, get_setting, writable, row_of, current, clean_all, merge,
  save, update, reload,
}
use homelab_agent.Config.Saving.{IsSaved, saved_of}
use homelab_agent.Config.Update.{IsApplied, update-IsApplied, get_setting-reload}
use homelab_agent.Config.View.{IsShown, current-IsShown}

running : Unit {0}
unfolding strip strip_left is_space is_decimal int_from is_digit lower to_lower starts_with split_on
    text_le get set insert sort join_with strip_slashes rstrip_slashes find_setting split_entries
    or_root clean_entry clean_entries clean_paths clean_number is_clock clean_url clean_as clean
    get_setting writable row_of current clean_all merge save update contains keep_if any list_beq
running = tt

-- whole numbers, as their digits
abbrev digits : Floats
digits = record {
  Float = Text;
  float = λ s. elim (is_decimal s) [ true ↦ some s | false ↦ none ];
  is_below = λ x low. ltb (int x) low;
  is_above = λ x high. ltb high (int x);
  is_integer = λ x. true;
  int_text = λ x. x;
  float_text = λ x. x;
}

-- a host that takes settings and has a token
abbrev environ : Environment
environ name = elim (name == text "CONFIG_WRITABLE") [
  | true ↦ some (text " Yes ")
  | false ↦ elim (name == text "GITHUB_TOKEN") [ true ↦ some (text "old") | false ↦ none ]
]

abbrev saved : Saved
saved = (text "HOURS", string (text "6")) ∷ (text "BACKUP_DIRS", string (text "/mnt/a")) ∷ []

abbrev store : Store
store = record { cache = none; file = some saved }

abbrev changes : Dict Text Value
changes =
    (text "BACKUP_DIRS", other (text ""))
    ∷ (text "AUTO_UPDATE_AT", other (text " 03:30 "))
    ∷ (text "REBUILD_ENABLED", flag true)
    ∷ []

abbrev after : Store
after = (update digits environ true (some changes) store).1

abbrev folders : Setting
folders = record {
  key = text "STACK_DIRS";
  kind = Settings.paths;
  scope = Settings.live;
  low = none;
  high = none;
}

config_tests :
    (clean digits folders (other (text "/srv/a/:, /b")) ≡ ok (text "/srv/a,/b"))
    × (clean digits folders (other (text "/etc/")) ≡ err system_directory)
    × (clean digits folders (other (text "//etc")) ≡ ok (text "//etc"))
    × (clean digits folders (other (text "/a/../etc")) ≡ err has_parent)
    × ((get_setting environ (text "AUTO_UPDATE_AT") [] after).0 ≡ text "03:30")
    × ((get_setting environ (text "BACKUP_DIRS") (text "none") after).0 ≡ text "none")
    × ((get_setting environ (text "GITHUB_TOKEN") [] after).0 ≡ text "old")
unfolding running
config_tests = (refl, refl, refl, refl, refl, refl, refl)

update-IsApplied_example :
    IsApplied digits changes store (update digits environ true (some changes) store)
unfolding running
update-IsApplied_example =
    update-IsApplied digits environ true changes store (refl, (refl, (refl, tt))) (refl, (refl, tt))

get_setting-reload_example :
    IsSaved (update digits environ true (some changes) store).1
    × ((name default : Text)
        → (get_setting environ name default
            (reload (update digits environ true (some changes) store).1)).0
          ≡ (get_setting environ name default
              (update digits environ true (some changes) store).1).0)
unfolding running
get_setting-reload_example =
    get_setting-reload digits environ true (some changes) store ((refl, (refl, tt)), λ k. refl)

no_nulls : (k : Text) → get (saved_of store) k ≢ some null
unfolding get
no_nulls k h = ground arith

current-IsShown_example :
    (map (λ row. row.setting) (current environ store).0 ≡ settings)
    × All (IsShown environ store) (current environ store).0
current-IsShown_example = current-IsShown environ store no_nulls
