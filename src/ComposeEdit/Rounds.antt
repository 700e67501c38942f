-- ===== src/ComposeEdit/Rounds.antt =====
-- compose_edit.py: what one round of `watch` has seen when it finds nothing wrong.
use homelab_agent.Prelude.{
  ℕ, ◌≤◌, ◌++◌, ap, true, if◌then◌else◌, Bool-cases, ==-eq_of_true, ◌≡◌, refl, sym, ◌∙◌, Bool,
  false, ◌||◌, Option, none, some, List, [], ◌∷◌, arith, All, ◌==◌, nat_eq, list_eq, option_eq,
  Option-cases, inl, inr, ◌⊎◌,
}
use homelab_agent.Prelude.Text.{Text, text}
use homelab_agent.Prelude.Dict.{get, get-set}
use homelab_agent.ComposeEdit.Watch.{
  Seen, Failure, Why, Baseline, set_default, wrong_with, is_starting, Round, found, fine, look,
}

-- the restarts of a container when it was first seen, in the order of time
unfoldable pub first_restarts : Text → List Seen → Option ℕ
first_restarts name [] = none
first_restarts name (s ∷ seen) =
    if s.name == name then some s.restarts else first_restarts name seen

-- not dead and not restarting, not stopped but with 0 or no exit code, not unhealthy, and not restarted
-- since it was first seen
pub record IsUp (before : List Seen) (s : Seen) : Type 0 where
  pub alive : (s.status == some (text "dead")) ≡ false
  pub settled : (s.status == some (text "restarting")) ≡ false
  pub no_error :
      (s.status == some (text "exited")) ≡ true → (code : ℕ) → s.exit_code ≡ some code → code ≡ 0
  pub no_alarm : (s.health == some (text "unhealthy")) ≡ false
  pub no_restart : (n : ℕ) → first_restarts s.name before ≡ some n → s.restarts ≤ n

-- each container of a round is up, after those seen before it
abbrev pub AllUp : List Seen → List (Option Seen) → Type 0
AllUp before [] = Unit
AllUp before (none ∷ seen) = AllUp before seen
AllUp before (some s ∷ seen) = IsUp before s × AllUp (before ++ s ∷ []) seen

-- what has been seen after a round
unfoldable pub add_seen : List Seen → List (Option Seen) → List Seen
add_seen before [] = before
add_seen before (none ∷ seen) = add_seen before seen
add_seen before (some s ∷ seen) = add_seen (before ++ s ∷ []) seen

abbrev pub Settled : Option Seen → Type 0
Settled none = Unit
Settled (some s) = is_starting s ≡ false

-- the baseline holds what was seen first
abbrev pub Holds : Baseline → List Seen → Type 0
Holds baseline before = (name : Text) → get baseline name ≡ first_restarts name before

abbrev or_first : Option ℕ → Option ℕ → Option ℕ
or_first none later = later
or_first (some n) later = some n

or_first-none : (o : Option ℕ) → or_first o none ≡ o
or_first-none none = refl
or_first-none (some n) = refl

-- the restarts of a container, if it has this name
abbrev restarts_of : Text → Seen → Option ℕ
restarts_of name s = if s.name == name then some s.restarts else none

first_restarts-snoc :
    (name : Text) (before : List Seen) (s : Seen)
    → first_restarts name (before ++ s ∷ [])
      ≡ or_first (first_restarts name before) (restarts_of name s)
unfolding first_restarts
first_restarts-snoc name [] s = refl
first_restarts-snoc name (t ∷ before) s = elim (Bool-cases (t.name == name)) [
  | inl same ↦ rw same refl
  | inr other ↦ rw other (first_restarts-snoc name before s)
]

get-set_default :
    (baseline : Baseline) (s : Seen) (name : Text)
    → get (set_default baseline s.name s.restarts) name
      ≡ or_first (get baseline name) (restarts_of name s)
unfolding set_default get
get-set_default baseline s name = elim (Option-cases (get baseline s.name)) [
  | inl absent ↦
      rw (absent, set_default)
        (get-set baseline s.name name s.restarts ∙ (elim (Bool-cases (s.name == name)) [
          | inl same ↦
              let here : get baseline name ≡ none =
                ap (get baseline) (sym (==-eq_of_true s.name name same)) ∙ absent in
              rw (here, same) refl
          | inr other ↦ rw other (sym (or_first-none (get baseline name)))
        ]))
  | inr (n, held) ↦
      rw (held, set_default)
        (elim (Bool-cases (s.name == name)) [
          | inl same ↦
              let here : get baseline name ≡ some n =
                ap (get baseline) (sym (==-eq_of_true s.name name same)) ∙ held in
              rw here refl
          | inr other ↦ rw other (sym (or_first-none (get baseline name)))
        ])
]

set_default-Holds :
    (baseline : Baseline) (before : List Seen) (s : Seen)
    → Holds baseline before
    → Holds (set_default baseline s.name s.restarts) (before ++ s ∷ [])
set_default-Holds baseline before s h name =
    get-set_default baseline s name
    ∙ ap (λ o. or_first o (restarts_of name s)) (h name)
    ∙ sym (first_restarts-snoc name before s)

wrong_with-IsUp :
    (baseline : Baseline) (before : List Seen) (s : Seen)
    → Holds baseline before
    → wrong_with baseline s ≡ none
    → IsUp before s
unfolding wrong_with
wrong_with-IsUp baseline before s h well = record {
  alive = ground arith;
  settled = ground arith;
  no_error = λ exited code at. ground arith;
  no_alarm = ground arith;
  no_restart =
      λ n first. let held : get baseline s.name ≡ some n = h s.name ∙ first in ground arith;
}

look-good :
    (s : Seen) (seen : List (Option Seen)) (baseline : Baseline) (waiting : Bool)
    → wrong_with baseline s ≡ none
    → look (some s ∷ seen) baseline waiting
      ≡ look seen (set_default baseline s.name s.restarts) (waiting || is_starting s)
unfolding look
look-good s seen baseline waiting h = rw (h, look) refl

look-bad :
    (s : Seen) (seen : List (Option Seen)) (baseline : Baseline) (waiting : Bool) (why : Why)
    → wrong_with baseline s ≡ some why
    → look (some s ∷ seen) baseline waiting ≡ found (record { name = s.name; why = why })
unfolding look
look-bad s seen baseline waiting why h = rw (h, look) refl

-- A round that finds nothing wrong has seen every container up.
pub look-AllUp :
    (seen : List (Option Seen)) (before : List Seen) (baseline after : Baseline)
    (waiting more : Bool)
    → Holds baseline before
    → look seen baseline waiting ≡ fine after more
    → AllUp before seen × Holds after (add_seen before seen)
unfolding look add_seen
look-AllUp [] before baseline after waiting more holds h =
    let same : baseline ≡ after = ground arith in
    (tt, λ name. ap (λ b. get b name) (sym same) ∙ holds name)
look-AllUp (none ∷ seen) before baseline after waiting more holds h =
    look-AllUp seen before baseline after waiting more holds h
look-AllUp (some s ∷ seen) before baseline after waiting more holds h =
    elim (Option-cases (wrong_with baseline s)) [
      | inr (why, bad) ↦
          let clash : found (record { name = s.name; why = why }) ≡ fine after more =
            sym (look-bad s seen baseline waiting why bad) ∙ h in
          ground arith
      | inl good ↦
          let (up, held) =
            look-AllUp seen (before ++ s ∷ []) (set_default baseline s.name s.restarts) after
              (waiting || is_starting s) more (set_default-Holds baseline before s holds)
              (sym (look-good s seen baseline waiting good) ∙ h) in
          ((wrong_with-IsUp baseline before s holds good, up), held)
    ]

pub look-Settled :
    (seen : List (Option Seen)) (baseline after : Baseline) (waiting : Bool)
    → look seen baseline waiting ≡ fine after false
    → (waiting ≡ false) × All Settled seen
unfolding look
look-Settled [] baseline after waiting h = (ground arith, tt)
look-Settled (none ∷ seen) baseline after waiting h =
    let rest = look-Settled seen baseline after waiting h in (rest.0, (tt, rest.1))
look-Settled (some s ∷ seen) baseline after waiting h =
    elim (Option-cases (wrong_with baseline s)) [
      | inr (why, bad) ↦
          let clash : found (record { name = s.name; why = why }) ≡ fine after false =
            sym (look-bad s seen baseline waiting why bad) ∙ h in
          ground arith
      | inl good ↦
          let rest =
            look-Settled seen (set_default baseline s.name s.restarts) after
              (waiting || is_starting s) (sym (look-good s seen baseline waiting good) ∙ h) in
          let calm : (waiting || is_starting s) ≡ false = rest.0 in
          (ground arith, (ground arith, rest.1))
    ]

pub Round-cases :
    (r : Round) → ((f : Failure) × (r ≡ found f)) ⊎ ((b : Baseline) × (w : Bool) × (r ≡ fine b w))
Round-cases (found f) = inl (f, refl)
Round-cases (fine b w) = inr (b, w, refl)
