-- ===== src/Config/Forms.antt =====
-- config.py: the form of the values that `_clean` answers, for each kind of setting.
use homelab_agent.Prelude.{
  ℕ, ◌≤◌, ◌<◌, ◌≡◌, ◌⊎◌, true, false, some, [], ◌++◌, if◌then◌else◌, length, nat_eq, list_eq,
}
use homelab_agent.Prelude.Text.{Text, text, starts_with, int}
use homelab_agent.Disk.Path.{rstrip_slashes}
use homelab_agent.Config.Settings.{
  Kind, Setting, paths, path, secret, url, plain, number, boolean, time,
}
use homelab_agent.Config.Clean.{Floats}
use homelab_agent.Config.Entries.{IsEntries}

-- an hour and a minute of the day
abbrev pub IsTime : Text → Type 0
IsTime s =
    (hour : Text) × (minute : Text) × (s ≡ hour ++ text ":" ++ minute)
    × (int hour < 24)
    × (int minute < 60)
    × (length minute ≡ 2)

-- a text that begins like a web address, without a slash at the end
abbrev pub IsAddress : Text → Type 0
IsAddress s =
    ((starts_with s (text "http:") ≡ true) ⊎ (starts_with s (text "https:") ≡ true))
    × (rstrip_slashes s ≡ s)

-- a number that Python reads, that it does not find below the least or above the greatest
abbrev pub IsNumber : Floats → Setting → Text → Type 0
IsNumber floats setting s =
    (x : floats.Float) × ((n : ℕ) → setting.low ≡ some n → floats.is_below x n ≡ false)
    × ((n : ℕ) → setting.high ≡ some n → floats.is_above x n ≡ false)
    × (s ≡ (if floats.is_integer x then floats.int_text x else floats.float_text x))

abbrev pub IsOfKind : Floats → Setting → Kind → Text → Type 0
IsOfKind floats setting paths s = IsEntries s
IsOfKind floats setting path s = IsEntries s
IsOfKind floats setting boolean s = (s ≡ []) ⊎ (s ≡ text "1")
IsOfKind floats setting number s = (s ≡ []) ⊎ IsNumber floats setting s
IsOfKind floats setting time s = (s ≡ []) ⊎ IsTime s
IsOfKind floats setting url s = (s ≡ []) ⊎ IsAddress s
IsOfKind floats setting secret s = length s ≤ 500
IsOfKind floats setting plain s = length s ≤ 500
