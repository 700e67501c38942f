-- ===== src/Config/Clean.antt =====
-- config.py: `_clean_paths` and `_clean`. An error keeps its reason without the texts for people.
-- Floating-point numbers are a parameter: Python's `float` and what `_clean` asks of its result.
use homelab_agent.Prelude.{
  ℕ, Bool, true, false, not, ◌&&◌, ◌||◌, Option, none, some, List, [], ◌∷◌, if◌then◌else◌, leb, eqb,
  length, ◌==◌, contains, nat_eq, list_eq,
}
use homelab_agent.Prelude.Text.{Text, text, strip, lower, is_digit, starts_with, split_on}
use homelab_agent.Prelude.Result.{Result, ok, ◌>>◌, ◌>>=◌, require, present}
use homelab_agent.Disk.Path.{slash, join_with, rstrip_slashes}
use homelab_agent.Config.Settings.{
  Kind, Setting, paths, path, secret, url, plain, number, boolean, time,
}

pub record Floats : Type 1 where
  pub Float : Type 0
  -- float(s), with `none` for its ValueError
  pub float : Text → Option Float
  pub is_below : Float → ℕ → Bool
  pub is_above : Float → ℕ → Bool
  pub is_integer : Float → Bool
  -- str(int(x)) and str(x)
  pub int_text : Float → Text
  pub float_text : Float → Text

-- a value of the JSON request: null, a Boolean, or what `str` makes of anything else
pub data Value : Type 0 where
  null : Value
  flag : Bool → Value
  other : Text → Value

pub data ConfigError : Type 0 where
  not_writable not_an_object not_accepted fixed not_absolute has_parent system_directory
        not_a_number too_low too_high no_time no_url too_long not_saved :
      ConfigError

abbrev pub truthy : List Text
truthy = text "1" ∷ text "true" ∷ text "yes" ∷ text "on" ∷ []

abbrev pub forbidden_paths : List Text
forbidden_paths =
    text "/"
    ∷ text "/bin"
    ∷ text "/boot"
    ∷ text "/dev"
    ∷ text "/etc"
    ∷ text "/lib"
    ∷ text "/lib64"
    ∷ text "/proc"
    ∷ text "/root"
    ∷ text "/run"
    ∷ text "/sbin"
    ∷ text "/sys"
    ∷ text "/usr"
    ∷ text "/var"
    ∷ text "/var/run"
    ∷ text "/var/lib/docker"
    ∷ []

abbrev pub is_separator : ℕ → Bool
is_separator c = eqb c 58 || eqb c 44 || eqb c 10

-- re.split(r"[:,\n]", value)
unfoldable pub split_entries : Text → List Text
split_entries [] = [] ∷ []
split_entries (c ∷ s) =
    let rest = split_entries s in
    if is_separator c then [] ∷ rest else (elim rest [ [] ↦ (c ∷ []) ∷ [] | w ∷ ws ↦ (c ∷ w) ∷ ws ])

-- trimmed.rstrip("/") or "/"
unfoldable pub or_root : Text → Text
or_root trimmed = let bare = rstrip_slashes trimmed in if bare == [] then text "/" else bare

-- one entry that is not blank
unfoldable pub clean_entry : Text → Result ConfigError Text
unfolding or_root
clean_entry trimmed =
    let entry = or_root trimmed in
    require (starts_with entry (text "/")) not_absolute
    >> require (not (contains (split_on slash entry) (text ".."))) has_parent
    >> require (not (contains forbidden_paths entry || entry == text "/")) system_directory
    >> ok entry

unfoldable pub clean_entries : List Text → Result ConfigError (List Text)
clean_entries [] = ok []
clean_entries (raw ∷ raws) = elim (strip raw == []) [
  | true ↦ clean_entries raws
  | false ↦ clean_entry (strip raw) >>= λ entry. clean_entries raws >>= λ out. ok (entry ∷ out)
]

unfoldable pub clean_paths : Text → Result ConfigError Text
unfolding clean_entries
clean_paths value = clean_entries (split_entries value) >>= λ out. ok (join_with (text ",") out)

abbrev pub text_of : Value → Text
text_of null = []
text_of (flag true) = text "True"
text_of (flag false) = text "False"
text_of (other s) = strip s

abbrev pub one_if : Bool → Text
one_if true = text "1"
one_if false = []

abbrev pub clean_boolean : Value → Text
clean_boolean (flag b) = one_if b
clean_boolean value = one_if (contains truthy (lower (text_of value)))

abbrev pub fails_low : (floats : Floats) → floats.Float → Option ℕ → Bool
fails_low floats x none = false
fails_low floats x (some low) = floats.is_below x low

abbrev pub fails_high : (floats : Floats) → floats.Float → Option ℕ → Bool
fails_high floats x none = false
fails_high floats x (some high) = floats.is_above x high

unfoldable pub clean_number : Floats → Setting → Text → Result ConfigError Text
clean_number floats setting s =
    if s == []
    then ok []
    else present (floats.float s) not_a_number >>= λ x.
        require (not (fails_low floats x setting.low)) too_low
        >> require (not (fails_high floats x setting.high)) too_high
        >> ok (if floats.is_integer x then floats.int_text x else floats.float_text x)

-- re.fullmatch(r"([01]?\d|2[0-3]):[0-5]\d", s)
unfoldable pub is_clock : Text → Bool
unfolding is_digit
is_clock (h ∷ c ∷ m ∷ n ∷ []) = is_digit h && eqb c 58 && (leb 48 m && leb m 53 && is_digit n)
is_clock (g ∷ h ∷ c ∷ m ∷ n ∷ []) =
    ((eqb g 48 || eqb g 49) && is_digit h || eqb g 50 && leb 48 h && leb h 51)
    && eqb c 58
    && (leb 48 m && leb m 53 && is_digit n)
is_clock _ = false

unfoldable pub clean_url : Text → Result ConfigError Text
clean_url s =
    require (s == [] || starts_with s (text "http://") || starts_with s (text "https://")) no_url
    >> ok (rstrip_slashes s)

-- the branch of `_clean` for a kind
unfoldable pub clean_as : Floats → Setting → Kind → Value → Result ConfigError Text
unfolding clean_paths clean_number is_clock clean_url
clean_as floats setting paths value = clean_paths (text_of value)
clean_as floats setting path value =
    let s = text_of value in if s == [] then ok [] else clean_paths s
clean_as floats setting boolean value = ok (clean_boolean value)
clean_as floats setting number value = clean_number floats setting (text_of value)
clean_as floats setting time value =
    let s = text_of value in require (s == [] || is_clock s) no_time >> ok s
clean_as floats setting url value = clean_url (text_of value)
clean_as floats setting secret value =
    let s = text_of value in require (leb (length s) 500) too_long >> ok s
clean_as floats setting plain value =
    let s = text_of value in require (leb (length s) 500) too_long >> ok s

unfoldable pub clean : Floats → Setting → Value → Result ConfigError Text
unfolding clean_as
clean floats setting value = clean_as floats setting setting.kind value
