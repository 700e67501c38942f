-- ===== src/Netwatch/Eviction.antt =====
-- netwatch.py, `_evict` and `_raise`: the table of findings stays bounded and well formed, and no
-- alert goes while there is a note to drop.
use homelab_agent.Prelude.{
  ℕ, zero, suc, ◌+◌, ◌≤◌, ◌<◌, ◌≡◌, refl, Bool, true, false, some, arith, length, nat_eq, list_eq,
  ltb, Bool-cases, inl, inr,
}
use homelab_agent.Prelude.Text.{Text}
use homelab_agent.Prelude.Dict.{get}
use homelab_agent.Prelude.Named.{Named}
use homelab_agent.Prelude.Keys.{UniqueKeys, tally}
use homelab_agent.Netwatch.Findings.{
  at_least, drop_least-UniqueKeys, drop_least-Named, tally-drop_least, length-drop_least,
  get-drop_least,
}
use homelab_agent.Netwatch.Notes.{
  tally-drop_info, drop_info-UniqueKeys, drop_info-Named, drop_info_bounded, get-drop_info,
}
use homelab_agent.Netwatch.Detector.{
  id_of, Finding, Findings, is_info, rank, drop_info, drop_least, drop_excess, evict, max_findings,
  max_info_findings,
}

-- a table of findings with distinct keys, each finding under its own id
pub record IsTable (fs : Findings) : Type 0 where
  pub unique : UniqueKeys fs
  pub named : Named id_of fs

drop_least-IsTable : (fs : Findings) → IsTable fs → 0 < length fs → IsTable (drop_least fs)
drop_least-IsTable fs t many = record {
  unique = drop_least-UniqueKeys fs t.unique t.named many;
  named = drop_least-Named fs t.unique t.named many;
}

drop_info-IsTable : (fs : Findings) → IsTable fs → IsTable (drop_info fs)
drop_info-IsTable fs t = record {
  unique = drop_info-UniqueKeys fs t.unique t.named;
  named = drop_info-Named fs t.unique t.named;
}

drop_excess_many :
    (n : ℕ) (fs : Findings)
    → ltb max_findings (length fs) ≡ true
    → drop_excess (suc n) fs ≡ drop_excess n (drop_least fs)
unfolding drop_excess
drop_excess_many n fs many = rw (many, drop_excess) refl

drop_excess_few :
    (n : ℕ) (fs : Findings) → ltb max_findings (length fs) ≡ false → drop_excess (suc n) fs ≡ fs
unfolding drop_excess
drop_excess_few n fs few = rw (few, drop_excess) refl

drop_excess-IsTable : (n : ℕ) (fs : Findings) → IsTable fs → IsTable (drop_excess n fs)
unfolding drop_excess
drop_excess-IsTable zero fs t = t
drop_excess-IsTable (suc n) fs t = elim (Bool-cases (ltb max_findings (length fs))) [
  | inl many ↦
      rw (drop_excess_many n fs many)
        (drop_excess-IsTable n (drop_least fs) (drop_least-IsTable fs t (ground arith)))
  | inr few ↦ rw (drop_excess_few n fs few) t
]

-- As many rounds as there are findings are enough.
length-drop_excess :
    (n : ℕ) (fs : Findings)
    → IsTable fs
    → length fs ≤ n + max_findings
    → length (drop_excess n fs) ≤ max_findings
unfolding drop_excess
length-drop_excess zero fs t le = le
length-drop_excess (suc n) fs t le = elim (Bool-cases (ltb max_findings (length fs))) [
  | inl many ↦
      let some_left : 0 < length fs = ground arith in
      rw (drop_excess_many n fs many) (
        length-drop_excess n (drop_least fs) (drop_least-IsTable fs t some_left)
          (omega (arith, length-drop_least fs t.unique t.named some_left)))
  | inr few ↦ rw (drop_excess_few n fs few) (ground arith)
]

tally-drop_excess :
    (p : Finding → Bool) (n : ℕ) (fs : Findings)
    → IsTable fs
    → tally p (drop_excess n fs) ≤ tally p fs
unfolding drop_excess
tally-drop_excess p zero fs t = omega arith
tally-drop_excess p (suc n) fs t = elim (Bool-cases (ltb max_findings (length fs))) [
  | inl many ↦
      let some_left : 0 < length fs = ground arith in
      let rest = tally-drop_excess p n (drop_least fs) (drop_least-IsTable fs t some_left) in
      rw (drop_excess_many n fs many)
        (omega (arith, rest, tally-drop_least fs t.unique t.named some_left p))
  | inr few ↦ rw (drop_excess_few n fs few) (omega arith)
]

get-drop_excess :
    (n : ℕ) (fs : Findings) (k : Text) (f : Finding)
    → IsTable fs
    → get fs k ≡ some f
    → tally (at_least (rank f)) fs ≤ max_findings
    → get (drop_excess n fs) k ≡ some f
unfolding drop_excess
get-drop_excess zero fs k f t at few = at
get-drop_excess (suc n) fs k f t at few = elim (Bool-cases (ltb max_findings (length fs))) [
  | inl many ↦
      let some_left : 0 < length fs = ground arith in
      rw (drop_excess_many n fs many) (
        get-drop_excess n (drop_least fs) k f (drop_least-IsTable fs t some_left)
          (get-drop_least fs t.unique t.named some_left k f at (ground (arith, few)))
          (omega (arith, tally-drop_least fs t.unique t.named some_left (at_least (rank f)))))
  | inr small ↦ rw (drop_excess_few n fs small) at
]

pub evict-IsTable : (fs : Findings) → IsTable fs → IsTable (evict fs)
unfolding evict
evict-IsTable fs t = drop_excess-IsTable _ (drop_info fs) (drop_info-IsTable fs t)

-- Whatever table of findings `_evict` is given, at most MAX_FINDINGS findings are left, and at
-- most MAX_INFO_FINDINGS of them are notes.
pub evict-bounded :
    (fs : Findings)
    → IsTable fs
    → (length (evict fs) ≤ max_findings) × (tally is_info (evict fs) ≤ max_info_findings)
unfolding evict
evict-bounded fs t = (
  length-drop_excess (length (drop_info fs)) (drop_info fs) (drop_info-IsTable fs t) (omega arith),
  omega (
    arith,
    tally-drop_excess is_info (length (drop_info fs)) (drop_info fs) (drop_info-IsTable fs t),
    drop_info_bounded fs t.unique t.named,
  ),
)

-- A warning or an alert is still there after `_evict`, while the table holds at most MAX_FINDINGS
-- findings that are at least as severe, however many notes there are.
pub get-evict :
    (fs : Findings) (k : Text) (f : Finding)
    → IsTable fs
    → get fs k ≡ some f
    → is_info f ≡ false
    → tally (at_least (rank f)) fs ≤ max_findings
    → get (evict fs) k ≡ some f
unfolding evict
get-evict fs k f t at severe few =
    get-drop_excess (length (drop_info fs)) (drop_info fs) k f (drop_info-IsTable fs t)
      (get-drop_info fs t.unique t.named k f at severe)
      (omega (arith, few, tally-drop_info fs t.unique t.named (at_least (rank f))))

pub tally-evict :
    (p : Finding → Bool) (fs : Findings) → IsTable fs → tally p (evict fs) ≤ tally p fs
unfolding evict
tally-evict p fs t = omega (
  arith,
  tally-drop_excess p (length (drop_info fs)) (drop_info fs) (drop_info-IsTable fs t),
  tally-drop_info fs t.unique t.named p,
)
