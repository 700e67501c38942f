-- ===== src/Netwatch/Raise.antt =====
-- netwatch.py, `_raise`: the table of findings stays bounded, and what is reported is there to see.

use homelab_agent.Prelude.{
  ℕ, suc, ◌+◌, ◌≤◌, ◌<◌, ◌≡◌, refl, ◌∙◌, Bool, true, false, not, Option, none, some, [], ◌∷◌, arith,
  length, ◌==◌, nat_eq, list_eq, list_beq_iff, Option-cases, inl, inr,
}
use homelab_agent.Prelude.Text.{Text}
use homelab_agent.Prelude.Dict.{get, set, length-set, get-set}
use homelab_agent.Prelude.Keys.{tally, tally-set, tally-set_over, UniqueKeys-set}
use homelab_agent.Prelude.Named.{Named-set, Named-get}
use homelab_agent.Netwatch.Findings.{at_least}
use homelab_agent.Netwatch.Eviction.{IsTable, evict-IsTable, evict-bounded, get-evict, tally-evict}
use homelab_agent.Netwatch.Detector.{
  id_of, Finding, Findings, is_info, rank, evict, Report, new_finding, raise, max_findings,
  max_info_findings,
}

-- what holds of the table between two calls
pub record IsBounded (fs : Findings) : Type 0 where
  pub table : IsTable fs
  pub bounded : length fs ≤ max_findings
  pub info_bounded : tally is_info fs ≤ max_info_findings

seen_again : Finding → ℕ → Finding
seen_again f now = record f { last = now; count = f.count + 1 }

raise-some :
    (id : Text) (r : Report) (now : ℕ) (fs : Findings) (f : Finding)
    → get fs id ≡ some f
    → raise id r now fs ≡ set fs id (seen_again f now)
unfolding raise seen_again
raise-some id r now fs f at = rw (at, raise) refl

raise-none :
    (id : Text) (r : Report) (now : ℕ) (fs : Findings)
    → get fs id ≡ none
    → raise id r now fs ≡ evict (set fs id (new_finding id r now))
unfolding raise
raise-none id r now fs at = rw (at, raise) refl

set-IsTable :
    (fs : Findings) (id : Text) (f : Finding) → f.id ≡ id → IsTable fs → IsTable (set fs id f)
set-IsTable fs id f h t = record {
  unique = UniqueKeys-set fs id f t.unique;
  named = Named-set id_of fs id f h t.named;
}

new_finding-IsTable :
    (fs : Findings) (id : Text) (r : Report) (now : ℕ)
    → IsTable fs
    → IsTable (set fs id (new_finding id r now))
unfolding new_finding
new_finding-IsTable fs id r now t = set-IsTable fs id (new_finding id r now) refl t

seen_again-IsBounded :
    (fs : Findings) (id : Text) (f : Finding) (now : ℕ)
    → get fs id ≡ some f
    → IsBounded fs
    → IsBounded (set fs id (seen_again f now))
unfolding seen_again
seen_again-IsBounded fs id f now at b = record {
  table = set-IsTable fs id (seen_again f now) (Named-get id_of fs id f b.table.named at) b.table;
  bounded = rw (length-set fs id (seen_again f now)) (rw at b.bounded);
  info_bounded =
      omega (arith, b.info_bounded, tally-set_over is_info fs id (seen_again f now) f at);
}

-- Whatever is reported, `_raise` keeps the table of findings well formed and within its bounds.
pub raise-IsBounded :
    (id : Text) (r : Report) (now : ℕ) (fs : Findings)
    → IsBounded fs
    → IsBounded (raise id r now fs)
raise-IsBounded id r now fs b = elim (Option-cases (get fs id)) [
  | inr (f, at) ↦ rw (raise-some id r now fs f at) (seen_again-IsBounded fs id f now at b)
  | inl at ↦ rw (raise-none id r now fs at) (record {
    table = evict-IsTable (set fs id (new_finding id r now)) table;
    bounded = (evict-bounded (set fs id (new_finding id r now)) table).0;
    info_bounded = (evict-bounded (set fs id (new_finding id r now)) table).1;
  })
]
  where
    table : IsTable (set fs id (new_finding id r now))
    table = new_finding-IsTable fs id r now b.table

-- a warning or an alert
abbrev pub is_alert : Finding → Bool
is_alert f = not (is_info f)

tally-at_least-le :
    (f : Finding) (fs : Findings)
    → is_info f ≡ false
    → tally (at_least (rank f)) fs ≤ tally is_alert fs
tally-at_least-le f [] h = omega arith
tally-at_least-le f ((k, g) ∷ fs) h = ground (arith, tally-at_least-le f fs h)

tally-alert_set :
    (fs : Findings) (k : Text) (f : Finding)
    → get fs k ≡ none
    → tally is_alert (set fs k f) ≤ suc (tally is_alert fs)
tally-alert_set fs k f at = ground (arith, tally-set is_alert fs k f at)

-- While the table holds fewer than MAX_FINDINGS warnings and alerts, `_raise` keeps every one of
-- them that stands under another id.
pub raise-keeps :
    (id : Text) (r : Report) (now : ℕ) (fs : Findings) (k : Text) (f : Finding)
    → IsBounded fs
    → tally is_alert fs < max_findings
    → get fs k ≡ some f
    → is_alert f ≡ true
    → (id == k) ≡ false
    → get (raise id r now fs) k ≡ some f
raise-keeps id r now fs k f b few at severe apart = elim (Option-cases (get fs id)) [
  | inr (g, old) ↦
      rw (raise-some id r now fs g old) (get-set fs id k (seen_again g now) ∙ rw apart at)
  | inl new ↦
      let added = set fs id (new_finding id r now) in
      rw (raise-none id r now fs new) (
        get-evict added k f table (get-set fs id k (new_finding id r now) ∙ rw apart at)
          (ground arith)
          (omega (
            arith,
            few,
            tally-at_least-le f added (ground arith),
            tally-alert_set fs id (new_finding id r now) new,
          )))
]
  where
    table : IsTable (set fs id (new_finding id r now))
    table = new_finding-IsTable fs id r now b.table

-- the finding that stands after a report: a fresh one, or the one that stood, counted once more
abbrev pub noted : Option Finding → Finding → Finding
noted none fresh = fresh
noted (some old) fresh = record old { last = fresh.last; count = old.count + 1 }

-- A warning or an alert that `_raise` is given while the table holds fewer than MAX_FINDINGS of
-- them stands in the table afterwards.
pub get-raise :
    (id : Text) (r : Report) (now : ℕ) (fs : Findings)
    → IsBounded fs
    → tally is_alert fs < max_findings
    → is_alert (new_finding id r now) ≡ true
    → get (raise id r now fs) id ≡ some (noted (get fs id) (new_finding id r now))
unfolding seen_again
get-raise id r now fs b few severe = elim (Option-cases (get fs id)) [
  | inr (g, old) ↦
      rw (raise-some id r now fs g old)
        (hit (seen_again g now) ∙ (unfold new_finding in rw old refl))
  | inl new ↦ rw (raise-none id r now fs new) (stays new ∙ rw new refl)
]
  where
    hit : (g : Finding) → get (set fs id g) id ≡ some g
    hit g = get-set fs id id g ∙ rw ((list_beq_iff id id).1 refl) refl

    added : Findings
    added = set fs id (new_finding id r now)

    table : IsTable added
    table = new_finding-IsTable fs id r now b.table

    stays : get fs id ≡ none → get (evict added) id ≡ some (new_finding id r now)
    stays new =
        get-evict added id (new_finding id r now) table (hit (new_finding id r now)) (ground arith)
          (omega (
            arith,
            few,
            tally-at_least-le (new_finding id r now) added (ground arith),
            tally-alert_set fs id (new_finding id r now) new,
          ))

-- A note does not add a warning or an alert.
pub tally-raise_note :
    (id : Text) (r : Report) (now : ℕ) (fs : Findings)
    → IsBounded fs
    → is_alert (new_finding id r now) ≡ false
    → tally is_alert (raise id r now fs) ≤ tally is_alert fs
unfolding seen_again
tally-raise_note id r now fs b note = elim (Option-cases (get fs id)) [
  | inr (f, at) ↦
      rw (raise-some id r now fs f at)
        (ground (arith, tally-set_over is_alert fs id (seen_again f now) f at))
  | inl at ↦ rw (raise-none id r now fs at) (
      ground (
        arith,
        tally-evict is_alert (set fs id (new_finding id r now))
            (new_finding-IsTable fs id r now b.table),
        tally-set is_alert fs id (new_finding id r now) at,
      ))
]
