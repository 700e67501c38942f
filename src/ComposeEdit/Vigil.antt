-- ===== src/ComposeEdit/Vigil.antt =====
-- compose_edit.py: what it takes for `watch` to find everything up, and that its loop ends.
use homelab_agent.Prelude.{
  ℕ, zero, suc, ◌+◌, ◌≤◌, ◌≡◌, ◌≢◌, refl, sym, ◌∙◌, Bool, true, false, not, ◌&&◌, Option, List, [],
  arith, All, nat_eq, list_eq, option_eq, leb, if◌then◌else◌, Bool-cases, inl, inr,
}
use homelab_agent.Prelude.Text.{Text}
use homelab_agent.Prelude.Dict.{get}
use homelab_agent.ComposeEdit.Watch.{
  Seen, Failure, never_healthy, Baseline, found, fine, look, Watched, all_up, went_wrong,
  out_of_fuel, watch_from, watch, health_grace_seconds,
}
use homelab_agent.ComposeEdit.Rounds.{
  Round-cases, Settled, AllUp, Holds, add_seen, first_restarts, look-AllUp, look-Settled,
}

module _ (project : Text) (seconds : ℕ) (polls : ℕ → List (Option Seen)) (elapsed : ℕ → ℕ) where
  -- From a round on, before which these were seen, every container is up in each round, until one in
  -- which the time has passed and none is still starting.
  pub data Quiet : List Seen → ℕ → Type 0 where
    last :
        (before : List Seen) (round : ℕ)
        → AllUp before (polls round)
        → All Settled (polls round)
        → seconds ≤ elapsed round
        → Quiet before round
    more :
        (before : List Seen) (round : ℕ)
        → AllUp before (polls round)
        → Quiet (add_seen before (polls round)) (suc round)
        → Quiet before round

  goes_on : Baseline → Bool → ℕ → ℕ → Watched
  goes_on after waiting fuel round =
      if leb seconds (elapsed round) && not waiting
      then all_up
      else if leb (seconds + health_grace_seconds) (elapsed round)
      then went_wrong (record { name = project; why = never_healthy })
      else watch_from project seconds polls elapsed fuel (suc round) after

  watch_from-found :
      (fuel round : ℕ) (baseline : Baseline) (f : Failure)
      → look (polls round) baseline false ≡ found f
      → watch_from project seconds polls elapsed (suc fuel) round baseline ≡ went_wrong f
  unfolding watch_from
  watch_from-found fuel round baseline f h = rw (h, watch_from) refl

  watch_from-fine :
      (fuel round : ℕ) (baseline after : Baseline) (waiting : Bool)
      → look (polls round) baseline false ≡ fine after waiting
      → watch_from project seconds polls elapsed (suc fuel) round baseline
        ≡ goes_on after waiting fuel round
  unfolding watch_from goes_on
  watch_from-fine fuel round baseline after waiting h = rw (h, watch_from) refl

  is_done : Bool → ℕ → Bool
  is_done waiting round = leb seconds (elapsed round) && not waiting

  is_late : ℕ → Bool
  is_late round = leb (seconds + health_grace_seconds) (elapsed round)

  goes_on-done :
      (after : Baseline) (waiting : Bool) (fuel round : ℕ)
      → is_done waiting round ≡ true
      → goes_on after waiting fuel round ≡ all_up
  unfolding goes_on is_done
  goes_on-done after waiting fuel round d = rw d refl

  goes_on-late :
      (after : Baseline) (waiting : Bool) (fuel round : ℕ)
      → is_done waiting round ≡ false
      → is_late round ≡ true
      → goes_on after waiting fuel round
        ≡ went_wrong (record { name = project; why = never_healthy })
  unfolding goes_on is_done is_late
  goes_on-late after waiting fuel round d l = rw d (rw l refl)

  goes_on-again :
      (after : Baseline) (waiting : Bool) (fuel round : ℕ)
      → is_done waiting round ≡ false
      → is_late round ≡ false
      → goes_on after waiting fuel round
        ≡ watch_from project seconds polls elapsed fuel (suc round) after
  unfolding goes_on is_done is_late
  goes_on-again after waiting fuel round d l = rw d (rw l refl)

  goes_on-ne-out_of_fuel :
      (after : Baseline) (waiting : Bool) (fuel round : ℕ)
      → (is_late round ≡ false
          → watch_from project seconds polls elapsed fuel (suc round) after ≢ out_of_fuel)
      → goes_on after waiting fuel round ≢ out_of_fuel
  goes_on-ne-out_of_fuel after waiting fuel round again =
      elim (Bool-cases (is_done waiting round)) [
        | inl d ↦ rw (goes_on-done after waiting fuel round d) (λ e. ground arith)
        | inr d ↦ elim (Bool-cases (is_late round)) [
          | inl l ↦ rw (goes_on-late after waiting fuel round d l) (λ e. ground arith)
          | inr l ↦ rw (goes_on-again after waiting fuel round d l) (again l)
        ]
      ]

  round-ne-out_of_fuel :
      (fuel round : ℕ) (baseline : Baseline)
      → ((after : Baseline)
          → is_late round ≡ false
          → watch_from project seconds polls elapsed fuel (suc round) after ≢ out_of_fuel)
      → watch_from project seconds polls elapsed (suc fuel) round baseline ≢ out_of_fuel
  round-ne-out_of_fuel fuel round baseline again =
      elim (Round-cases (look (polls round) baseline false)) [
        | inl (f, h) ↦ rw (watch_from-found fuel round baseline f h) (λ e. ground arith)
        | inr (after, waiting, h) ↦
            rw (watch_from-fine fuel round baseline after waiting h)
              (goes_on-ne-out_of_fuel after waiting fuel round (again after))
      ]

  watch_from-ne-out_of_fuel :
      (fuel round : ℕ) (baseline : Baseline)
      → ((r : ℕ) → r ≤ elapsed r)
      → seconds + health_grace_seconds ≤ fuel + round
      → watch_from project seconds polls elapsed (suc fuel) round baseline ≢ out_of_fuel
  unfolding is_late
  watch_from-ne-out_of_fuel zero round baseline passes enough =
      round-ne-out_of_fuel zero round baseline (λ after early e. ground (arith, passes round))
  watch_from-ne-out_of_fuel (suc fuel) round baseline passes enough =
      round-ne-out_of_fuel (suc fuel) round baseline
        (λ after early. watch_from-ne-out_of_fuel fuel (suc round) after passes (omega arith))

  -- `watch` ends, if the clock moves on by at least a second in each round.
  pub watch-ne-out_of_fuel :
      ((r : ℕ) → r ≤ elapsed r) → watch project seconds polls elapsed ≢ out_of_fuel
  unfolding watch
  watch-ne-out_of_fuel passes =
      watch_from-ne-out_of_fuel (seconds + health_grace_seconds) 0 [] passes (omega arith)

  watch_from-Quiet :
      (fuel round : ℕ) (baseline : Baseline) (before : List Seen)
      → Holds baseline before
      → watch_from project seconds polls elapsed fuel round baseline ≡ all_up
      → Quiet before round
  unfolding watch_from is_done
  watch_from-Quiet zero round baseline before holds h = ground arith
  watch_from-Quiet (suc fuel) round baseline before holds h =
      elim (Round-cases (look (polls round) baseline false)) [
        | inl (f, at) ↦
            let clash : went_wrong f ≡ all_up =
              sym (watch_from-found fuel round baseline f at) ∙ h in
            ground arith
        | inr (after, waiting, at) ↦
            let on : goes_on after waiting fuel round ≡ all_up =
              sym (watch_from-fine fuel round baseline after waiting at) ∙ h in
            let (up, held) =
              look-AllUp (polls round) before baseline after false waiting holds at in
            elim (Bool-cases (is_done waiting round)) [
              | inl d ↦
                  let calm : waiting ≡ false = ground arith in
                  last before round up
                    (look-Settled (polls round) baseline after false (rw calm at at)).1
                    (ground arith)
              | inr d ↦ elim (Bool-cases (is_late round)) [
                | inl l ↦
                    let clash : went_wrong (record { name = project; why = never_healthy })
                        ≡ all_up =
                      sym (goes_on-late after waiting fuel round d l) ∙ on in
                    ground arith
                | inr l ↦ more before round up (
                    watch_from-Quiet fuel (suc round) after (add_seen before (polls round)) held
                      (sym (goes_on-again after waiting fuel round d l) ∙ on))
              ]
            ]
      ]

  -- When `watch` reports that all is well, then in every round, until one after the seconds in which none
  -- was starting, each container that could be seen was not dead or restarting, had not exited with a
  -- code other than 0, was not unhealthy, and had no more restarts than when it was first seen.
  pub watch-Quiet : watch project seconds polls elapsed ≡ all_up → Quiet [] 0
  unfolding watch first_restarts get
  watch-Quiet = watch_from-Quiet _ 0 [] [] (λ name. refl)
