-- ===== src/Disk/Usage.antt =====
-- disk_usage.py: which scan `usage` answers with, and what `view` shows of it.
use Prim.Native.Nat.{min}
use homelab_agent.Prelude.{
  ℕ, ◌+◌, ◌-◌, ◌≤◌, ◌⊎◌, ◌≡◌, refl, sym, ap, ◌∙◌, inl, inr, Bool, true, false, Option, none, some,
  List, [], ◌∷◌, All, arith, nat_eq, list_eq, Bool-cases, ==_refl, sum_by, take, drop, length,
  length-take, sum_by-append, take-append-drop,
}
use mathlib.Core.Option.{some-injective}
use homelab_agent.Prelude.Text.{Text}
use homelab_agent.Prelude.TextOrder.{text_le_total, text_le_trans}
use homelab_agent.Prelude.Dict.{get, get-set}
use homelab_agent.Prelude.Result.{ok}
use homelab_agent.Prelude.Sort.{sum_by-sort, Ordered, sort-Ordered, take-Ordered, take-drop-Ordered}
use homelab_agent.Disk.Path.{normalize}
use homelab_agent.Disk.Scans.{
  Row, Scan, Scans, ScanState, scanning, done, failed, is_old, Usage, usage, look_up, is_stale,
  is_scanning, new_scan, row_bytes, is_bigger, ranked, view, hidden, max_entries,
}

-- how much `view` says is not shown
abbrev pub hidden_bytes : Option (ℕ × ℕ) → ℕ
hidden_bytes none = 0
hidden_bytes (some (count, bytes)) = bytes

hidden_bytes-hidden : (rows : List Row) → hidden_bytes (hidden rows) ≡ sum_by row_bytes rows
unfolding sum_by
hidden_bytes-hidden [] = refl
hidden_bytes-hidden (row ∷ rows) = refl

is_bigger_total : (r q : Row) → is_bigger r q ≡ false → is_bigger q r ≡ true
unfolding is_bigger
is_bigger_total r q h = ground (arith, text_le_total r.name q.name)

is_bigger_trans : (r q s : Row) → is_bigger r q ≡ true → is_bigger q s ≡ true → is_bigger r s ≡ true
unfolding is_bigger
is_bigger_trans r q s h k = ground (arith, text_le_trans r.name q.name s.name)

-- `view` shows the biggest rows first, as many as fit, none left out is bigger than one that is shown,
-- and what is shown and what is not add up to the total, which is that of all rows of the scan.
pub view-Ordered :
    (scan : Scan)
    → Ordered is_bigger (view scan).entries
      × (length (view scan).entries ≡ min max_entries (length (ranked scan)))
      × All
          (λ r. All (λ q. is_bigger r q ≡ true) (drop max_entries (ranked scan)))
          (view scan).entries
      × (sum_by row_bytes (view scan).entries + hidden_bytes (view scan).more
          ≡ (view scan).total_bytes)
      × ((view scan).total_bytes ≡ sum_by row_bytes scan.entries)
unfolding view ranked
view-Ordered scan =
    let order : Ordered is_bigger (ranked scan) =
      sort-Ordered is_bigger is_bigger_total is_bigger_trans scan.entries in
    (
      take-Ordered is_bigger max_entries (ranked scan) order,
      length-take max_entries (ranked scan),
      take-drop-Ordered is_bigger max_entries (ranked scan) order,
      ap (λ n. sum_by row_bytes (take max_entries (ranked scan)) + n)
            (hidden_bytes-hidden (drop max_entries (ranked scan)))
          ∙ sym (
              sum_by-append row_bytes (take max_entries (ranked scan))
                (drop max_entries (ranked scan)))
          ∙ ap (sum_by row_bytes) (take-append-drop max_entries (ranked scan)),
      sum_by-sort is_bigger row_bytes scan.entries,
    )

-- a scan that runs, or that was not to be renewed and ended at most ten minutes ago, if it has an end
abbrev pub IsFresh : ℕ → Bool → Scan → Type 0
IsFresh now refresh scan =
    (scan.state ≡ scanning)
    ⊎ ((refresh ≡ false) × ((at : ℕ) → scan.finished_at ≡ some at → now - at ≤ 600))

-- the answer stands in the registry under the key and is fresh, and a running scan keeps its place
abbrev pub IsCurrent : Scans → ℕ → Bool → Text → Usage → Type 0
IsCurrent scans now refresh key used =
    (get used.scans key ≡ some used.scan)
    × IsFresh now refresh used.scan
    × ((old : Scan) → get scans key ≡ some old → old.state ≡ scanning → used.scan ≡ old)

is_scanning_lem : (state : ScanState) → is_scanning state ≡ true → state ≡ scanning
is_scanning_lem scanning h = refl
is_scanning_lem done h = ground arith
is_scanning_lem failed h = ground arith

is_stale-IsFresh :
    (now : ℕ) (refresh : Bool) (scan : Scan)
    → is_stale now refresh (some scan) ≡ false
    → IsFresh now refresh scan
is_stale-IsFresh now refresh scan h = elim (Bool-cases (is_scanning scan.state)) [
  | inl running ↦ inl (is_scanning_lem scan.state running)
  | inr over ↦ inr (
    ground arith,
    λ at ended.
        let young : is_old now scan.finished_at ≡ false = ground arith in
        let within : is_old now (some at) ≡ false = ap (is_old now) (sym ended) ∙ young in
        ground arith,
  )
]

look_up-IsCurrent :
    (scans : Scans) (now : ℕ) (refresh : Bool) (key : Text) (held : Option Scan)
    → get scans key ≡ held
    → IsCurrent scans now refresh key (look_up scans now refresh key held)
unfolding look_up
look_up-IsCurrent scans now refresh key none at = (
  rw (get-set scans key key (new_scan key), ==_refl key) refl,
  inl refl,
  λ old held running. let clash : none ≡ some old = sym at ∙ held in ground arith,
)
look_up-IsCurrent scans now refresh key (some scan) at =
    elim (Bool-cases (is_stale now refresh (some scan))) [
      | inl stale ↦ rw stale (
        rw (get-set scans key key (new_scan key), ==_refl key) refl,
        inl refl,
        λ old held running.
            let same : scan ≡ old = some-injective scan old (sym at ∙ held) in
            let busy : is_scanning scan.state ≡ true =
              ap (λ s. is_scanning s.state) same ∙ ap is_scanning running in
            ground arith,
      )
      | inr fresh ↦ rw fresh (
        at,
        is_stale-IsFresh now refresh scan fresh,
        λ old held running. some-injective scan old (sym at ∙ held),
      )
    ]

-- For a path that `normalize` takes, `usage` answers with the scan that then stands in the registry under
-- it. It is running, or no new one was asked for and it ended at most ten minutes ago or has no time of
-- its end. A scan that was running keeps its place.
pub usage-Current :
    (scans : Scans) (now : ℕ) (path key : Text) (refresh : Bool)
    → normalize path ≡ ok key
    → (used : Usage) × (usage scans now path refresh ≡ ok used)
      × IsCurrent scans now refresh key used
unfolding usage look_up
usage-Current scans now path key refresh at = (
  look_up scans now refresh key (get scans key),
  rw at refl,
  look_up-IsCurrent scans now refresh key (get scans key) refl,
)
