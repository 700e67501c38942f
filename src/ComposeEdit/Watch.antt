-- ===== src/ComposeEdit/Watch.antt =====
-- compose_edit.py: `watch`. What the daemon answers in the rounds of the loop, and the seconds that
-- have passed in each, are two functions of the round; a container that `reload` fails for is none.
use homelab_agent.Prelude.{
  ℕ, zero, suc, ◌+◌, Bool, false, not, ◌&&◌, ◌||◌, Option, none, some, List, [], ◌∷◌, ◌==◌, nat_eq,
  list_eq, option_eq, leb, ltb, eqb, if◌then◌else◌,
}
use homelab_agent.Prelude.Text.{Text, text}
use homelab_agent.Prelude.Dict.{Dict, get, set}

abbrev pub watch_seconds : ℕ
watch_seconds = 45

abbrev pub health_grace_seconds : ℕ
health_grace_seconds = 120

-- `_state`
pub record Seen : Type 0 where
  pub name : Text
  pub status : Option Text
  pub exit_code : Option ℕ
  pub health : Option Text
  pub restarts : ℕ

pub data Why : Type 0 where
  keeps_restarting unhealthy never_healthy : Why
  exited_with : ℕ → Why
  up_failed : ℕ → Why

pub record Failure : Type 0 where
  pub name : Text
  pub why : Why

abbrev pub Baseline : Type 0
Baseline = Dict Text ℕ

-- `baseline.setdefault(name, restarts)`
unfoldable pub set_default : Baseline → Text → ℕ → Baseline
set_default baseline name restarts = elim (get baseline name) [
  | none ↦ set baseline name restarts
  | some n ↦ baseline
]

abbrev pub baseline_of : Baseline → Seen → ℕ
baseline_of baseline s = elim (get baseline s.name) [ none ↦ s.restarts | some n ↦ n ]

abbrev pub is_restarting : Baseline → Seen → Bool
is_restarting baseline s =
    s.status == some (text "dead")
    || s.status == some (text "restarting")
    || ltb (baseline_of baseline s) s.restarts

abbrev pub bad_exit : Seen → Option ℕ
bad_exit s =
    if s.status == some (text "exited")
    then (elim s.exit_code [ none ↦ none | some code ↦ if eqb code 0 then none else some code ])
    else none

-- what is wrong with a container
unfoldable pub wrong_with : Baseline → Seen → Option Why
wrong_with baseline s =
    if is_restarting baseline s then some keeps_restarting else (elim (bad_exit s) [
      | some code ↦ some (exited_with code)
      | none ↦ if s.health == some (text "unhealthy") then some unhealthy else none
    ])

abbrev pub is_starting : Seen → Bool
is_starting s = s.health == some (text "starting")

pub data Round : Type 0 where
  found : Failure → Round
  fine : Baseline → Bool → Round

-- `for container in _project_containers(…)`
unfoldable pub look : List (Option Seen) → Baseline → Bool → Round
look [] baseline waiting = fine baseline waiting
look (none ∷ rest) baseline waiting = look rest baseline waiting
look (some s ∷ rest) baseline waiting =
    let next = look rest (set_default baseline s.name s.restarts) (waiting || is_starting s) in
    elim (wrong_with baseline s) [
      | some why ↦ found (record { name = s.name; why = why })
      | none ↦ next
    ]

pub data Watched : Type 0 where
  all_up : Watched
  went_wrong : Failure → Watched
  out_of_fuel : Watched

module _ (project : Text) (seconds : ℕ) (polls : ℕ → List (Option Seen)) (elapsed : ℕ → ℕ) where
  -- `while True`, from a round on
  unfoldable pub watch_from : ℕ → ℕ → Baseline → Watched
  watch_from zero round baseline = out_of_fuel
  watch_from (suc fuel) round baseline = elim (look (polls round) baseline false) [
    | found failure ↦ went_wrong failure
    | fine after waiting ↦
        if leb seconds (elapsed round) && not waiting
        then all_up
        else if leb (seconds + health_grace_seconds) (elapsed round)
        then went_wrong (record { name = project; why = never_healthy })
        else watch_from fuel (suc round) after
  ]

  -- `watch`, with a round for every second: the loop sleeps 3 seconds in each
  unfoldable pub watch : Watched
  watch = watch_from (suc (seconds + health_grace_seconds)) 0 []
