-- ===== src/Config/Settings.antt =====
-- config.py: `SETTINGS` and `BY_KEY`. Groups, labels and help texts are for people and left out.
use homelab_agent.Prelude.{
  ℕ, Bool, true, false, Option, none, some, List, [], ◌∷◌, if◌then◌else◌, ◌==◌, nat_eq, list_eq,
}
use homelab_agent.Prelude.Text.{Text, text}

pub data Kind : Type 0 where
  paths path secret url plain number boolean time : Kind

pub data Scope : Type 0 where
  live host : Scope

pub record Setting : Type 0 where
  pub key : Text
  pub kind : Kind
  pub scope : Scope
  pub low : Option ℕ
  pub high : Option ℕ

abbrev pub is_secret : Kind → Bool
is_secret secret = true
is_secret _ = false

abbrev pub is_live : Scope → Bool
is_live live = true
is_live host = false

-- a setting without "min" and "max"
abbrev setting : Text → Kind → Scope → Setting
setting key kind scope = record { key = key; kind = kind; scope = scope; low = none; high = none }

abbrev pub settings : List Setting
settings =
    setting (text "BACKUP_SOURCE_DIRS") paths live
    ∷ setting (text "BACKUP_PASSPHRASE") secret live
    ∷ setting (text "BACKUP_DIRS") paths live
    ∷ setting (text "BACKUP_PUBLIC_URL") url live
    ∷ setting (text "BACKUP_HOST_DIR") path host
    ∷ setting (text "FILES_WRITABLE_PATHS") paths live
    ∷ setting (text "BACKUP_REPO") plain live
    ∷ setting (text "GITHUB_TOKEN") secret live
    ∷ record {
      key = text "BACKUP_INTERVAL_HOURS";
      kind = number;
      scope = live;
      low = some 1;
      high = some 168;
    }
    ∷ setting (text "STACK_DIRS") paths live
    ∷ setting (text "REBUILD_ENABLED") boolean live
    ∷ setting (text "AI_REBUILD_ANY") boolean live
    ∷ setting (text "TERMINAL_ENABLED") boolean live
    ∷ setting (text "AUTO_UPDATE_AT") time live
    ∷ setting (text "CONNECTIONS_ENABLED") boolean live
    ∷ setting (text "HOST_NAME") plain host
    ∷ setting (text "AGENT_RUNTIME") plain host
    ∷ setting (text "AGENT_TOKEN") secret host
    ∷ setting (text "LOG_LEVEL") plain host
    ∷ []

unfoldable pub find_setting : List Setting → Text → Option Setting
find_setting [] key = none
find_setting (s ∷ ss) key = if s.key == key then some s else find_setting ss key

-- BY_KEY.get(key)
abbrev pub by_key : Text → Option Setting
by_key = find_setting settings
