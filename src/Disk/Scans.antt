-- ===== src/Disk/Scans.antt =====
-- disk_usage.py: the registry of scans, with `usage`, `known_bytes`, `forget_path` and `Scan.view`.
-- What a scan finds is `Disk.Walk`'s; texts and times that are only shown are left out.
use homelab_agent.Prelude.{
  ℕ, ◌-◌, Bool, true, false, not, ◌&&◌, ◌||◌, Option, none, some, List, [], ◌∷◌, if◌then◌else◌, ltb,
  eqb, ◌==◌, length, take, drop, sum_by, nat_eq, list_eq,
}
use homelab_agent.Prelude.Text.{Text, text, text_le}
use homelab_agent.Prelude.Dict.{Dict, get, set}
use homelab_agent.Prelude.Sort.{sort}
use homelab_agent.Prelude.Result.{Result, ok, ◌>>=◌}
use homelab_agent.Disk.Path.{PathError, normalize, dirname, is_above_text}

abbrev pub cache_seconds : ℕ
cache_seconds = 600

abbrev pub max_entries : ℕ
max_entries = 300

pub data RowKind : Type 0 where
  link mount dir file other : RowKind

pub record Row : Type 0 where
  pub name : Text
  pub path : Text
  pub kind : RowKind
  pub bytes : Option ℕ
  pub files : Option ℕ
  pub pending : Bool

pub data ScanState : Type 0 where
  scanning done failed : ScanState

abbrev pub is_scanning : ScanState → Bool
is_scanning scanning = true
is_scanning _ = false

pub record Scan : Type 0 where
  pub path : Text
  pub state : ScanState
  pub finished_at : Option ℕ
  pub items : ℕ
  pub entries : List Row

abbrev pub Scans : Type 0
Scans = Dict Text Scan

-- Scan(path)
abbrev pub new_scan : Text → Scan
new_scan path = record {
  path = path;
  state = scanning;
  finished_at = none;
  items = 0;
  entries = [];
}

-- older than the cache keeps it
abbrev pub is_old : ℕ → Option ℕ → Bool
is_old now none = false
is_old now (some finished) = ltb cache_seconds (now - finished)

abbrev pub is_stale : ℕ → Bool → Option Scan → Bool
is_stale now refresh none = true
is_stale now refresh (some scan) =
    refresh && not (is_scanning scan.state)
    || not (is_scanning scan.state) && is_old now scan.finished_at

pub record Usage : Type 0 where
  pub scans : Scans
  pub scan : Scan
  pub is_started : Bool

-- the scan that answers, from the registry or fresh
unfoldable pub look_up : Scans → ℕ → Bool → Text → Option Scan → Usage
look_up scans now refresh path none = record {
  scans = set scans path (new_scan path);
  scan = new_scan path;
  is_started = true;
}
look_up scans now refresh path (some scan) =
    if is_stale now refresh (some scan)
    then record { scans = set scans path (new_scan path); scan = new_scan path; is_started = true }
    else record { scans = scans; scan = scan; is_started = false }

unfoldable pub usage : Scans → ℕ → Text → Bool → Result PathError Usage
unfolding look_up
usage scans now path refresh = do
  key ← normalize path
  ok (look_up scans now refresh key (get scans key))

-- `r["bytes"] or 0`
abbrev pub known : Option ℕ → ℕ
known none = 0
known (some bytes) = bytes

abbrev pub row_bytes : Row → ℕ
row_bytes row = known row.bytes

-- known_bytes, from its loop on
unfoldable pub find_bytes : Text → List Row → Option ℕ
find_bytes path [] = none
find_bytes path (row ∷ rows) =
    let rest = find_bytes path rows in
    if row.path == path && not row.pending then row.bytes else rest

-- posixpath.dirname(path) or "/"
abbrev pub folder_of : Text → Text
folder_of path = if dirname path == [] then text "/" else dirname path

abbrev pub bytes_in : Text → Option Scan → Option ℕ
bytes_in path none = none
bytes_in path (some scan) = find_bytes path scan.entries

unfoldable pub known_bytes : Scans → Text → Option ℕ
known_bytes scans path = bytes_in path (get scans (folder_of path))

-- what `forget_path` does to the rows of a scan above the path
unfoldable pub shrink_rows : Text → ℕ → List Row → List Row
shrink_rows path freed [] = []
shrink_rows path freed (row ∷ rows) =
    let rest = shrink_rows path freed rows in
    if row.path == path
    then rest
    else if is_above_text row.path path
    then record row { bytes = shrink row.bytes } ∷ rest
    else row ∷ rest
  where
    shrink : Option ℕ → Option ℕ
    shrink none = none
    shrink (some bytes) = some (bytes - freed)

unfoldable pub forget_path : Text → Option ℕ → Scans → Scans
forget_path path freed [] = []
forget_path path freed ((key, scan) ∷ scans) =
    let rest = forget_path path freed scans in
    if key == path || is_above_text path key
    then rest
    else if not (key == text "/" || is_above_text key path)
    then (key, scan) ∷ rest
    else (elim freed [
      | none ↦ rest
      | some bytes ↦ (key, record scan { entries = shrink_rows path bytes scan.entries }) ∷ rest
    ])

-- the order of `rows.sort(key=…)` in `view`: the biggest first, and by name where they are as big
unfoldable pub is_bigger : Row → Row → Bool
is_bigger r q =
    ltb (row_bytes q) (row_bytes r) || eqb (row_bytes q) (row_bytes r) && text_le r.name q.name

-- how many rows are not shown, and their bytes
abbrev pub hidden : List Row → Option (ℕ × ℕ)
hidden [] = none
hidden (row ∷ rows) = some (length (row ∷ rows), sum_by row_bytes (row ∷ rows))

pub record View : Type 0 where
  pub total_bytes : ℕ
  pub entries : List Row
  pub more : Option (ℕ × ℕ)

unfoldable pub ranked : Scan → List Row
unfolding is_bigger
ranked scan = sort is_bigger scan.entries

unfoldable pub view : Scan → View
unfolding ranked
view scan =
    let rows = ranked scan in
    record {
      total_bytes = sum_by row_bytes rows;
      entries = take max_entries rows;
      more = hidden (drop max_entries rows);
    }
