-- ===== src/ComposeEdit/Examples.antt =====
-- compose_edit.py on a concrete project: a change that stays up, and one whose container exits.
use homelab_agent.Prelude.{
  ℕ, ◌≡◌, ◌≢◌, refl, true, false, Option, none, some, List, [], ◌∷◌, ◌++◌, arith, list_beq, list_eq,
  nat_eq,
}
use homelab_agent.Prelude.Text.{Text, text}
use homelab_agent.Prelude.Dict.{get, set}
use homelab_agent.Prelude.Result.{ok}
use homelab_agent.ComposeEdit.Watch.{
  Seen, Failure, exited_with, watch, watch_from, look, wrong_with, set_default, all_up, went_wrong,
  out_of_fuel,
}
use homelab_agent.ComposeEdit.Apply.{
  Job, Answers, running, done, failed, rolled_back, apply, bring_up, roll_back, finish, read_lines,
}
use homelab_agent.ComposeEdit.Vigil.{Quiet, watch-ne-out_of_fuel, watch-Quiet}
use homelab_agent.ComposeEdit.Settled.{IsSettled, apply-IsSettled}
use homelab_agent.ComposeEdit.Save.{save, seen_as, save-IsWriter}
use homelab_agent.Files.Write.{File, Site, Run, ran, write_file, write_entry, place, place_script}

abbrev alone : Run
alone = record {
  appeared = none;
  meanwhile = none;
  cat_stops = none;
  rm_fails = false;
  mv_fails = false;
  output = [];
}

abbrev site : Site
site = record { is_name = true; is_writable = true; is_folder = true; upload = ran alone; now = 9 }

abbrev before : File
before = record { content = text "old"; modified = 7 }

abbrev on_windows : File
on_windows = record { content = text "a" ++ 13 ∷ 10 ∷ text "b"; modified = 7 }

abbrev job : Job
job = record { project = text "web"; state = running; error = none; steps = []; failed = none }

abbrev answers : Option Failure → Answers
answers failure = record {
  check = ok none;
  readable = ok tt;
  first_up = ok (0, []);
  watched = ok failure;
  second_up = ok (0, []);
}

abbrev crash : Failure
crash = record { name = text "web-1"; why = exited_with 3 }

abbrev seen : Text → Seen
seen status = record {
  name = text "web-1";
  status = some status;
  exit_code = some 3;
  health = none;
  restarts = 0;
}

abbrev polls_of : Text → ℕ → List (Option Seen)
polls_of status round = some (seen status) ∷ none ∷ []

running_tests : Unit {0}
unfolding apply bring_up roll_back finish save seen_as write_file write_entry place place_script
    read_lines watch watch_from look wrong_with set_default get set list_beq
running_tests = tt

run_tests :
    ((apply (save site) (answers none) (text "new") (some 7) job before).0.state ≡ done)
    × ((apply (save site) (answers none) (text "new") (some 7) job before).1.content ≡ text "new")
    × ((apply (save site) (answers (some crash)) (text "new") (some 7) job before).0.state
        ≡ rolled_back)
    × ((apply (save site) (answers (some crash)) (text "new") (some 7) job before).1.content
        ≡ text "old")
    × ((apply (save site) (answers none) (text "new") (some 4) job before).0.state ≡ failed)
    × ((apply (save site) (answers (some crash)) (text "new") (some 7) job on_windows).1.content
        ≡ text "a" ++ 10 ∷ text "b")
    × (watch (text "web") 3 (polls_of (text "exited")) (λ r. r) ≡ went_wrong crash)
    × (watch (text "web") 3 (polls_of (text "running")) (λ r. r) ≡ all_up)
unfolding running_tests
run_tests = (refl, refl, refl, refl, refl, refl, refl, refl)

apply-IsSettled_example :
    IsSettled
      (text "old")
      (text "new")
      (apply (save site) (answers (some crash)) (text "new") (some 7) job before).0.state
      (apply (save site) (answers (some crash)) (text "new") (some 7) job before).1.content
apply-IsSettled_example =
    apply-IsSettled (save site) (answers (some crash)) (text "new") (some 7) job before
      (save-IsWriter site refl)

watch-ne-out_of_fuel_example :
    watch (text "web") 3 (polls_of (text "running")) (λ r. r) ≢ out_of_fuel
watch-ne-out_of_fuel_example =
    watch-ne-out_of_fuel (text "web") 3 (polls_of (text "running")) (λ r. r) (λ r. omega arith)

watch-Quiet_example : Quiet (text "web") 3 (polls_of (text "running")) (λ r. r) [] 0
unfolding running_tests
watch-Quiet_example = watch-Quiet (text "web") 3 (polls_of (text "running")) (λ r. r) refl
