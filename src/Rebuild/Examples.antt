-- ===== src/Rebuild/Examples.antt =====
-- rebuild.py on a concrete host: one rebuild that is asked for twice, and a directory with a quote in
-- its name.
use homelab_agent.Prelude.{
  ◌≡◌, refl, true, false, none, some, [], ◌∷◌, ◌++◌, any, map, contains, list_beq, list_eq, nat_eq,
  all,
}
use homelab_agent.Prelude.Text.{Text, text, lower, has_infix, starts_with, is_digit}
use homelab_agent.Prelude.Dict.{get, set}
use homelab_agent.Prelude.Keys.{values}
use homelab_agent.Prelude.Result.{ok, err}
use homelab_agent.Rebuild.Shell.{quote, script, escape, is_safe}
use homelab_agent.Rebuild.Failure.{classify_failure, disk_full, exited, failures, first_match}
use homelab_agent.Rebuild.Jobs.{
  Job, Jobs, Target, start, already_running, cannot_pull, new_job, record_job, any_running, run_job,
  launched, exit, done, ended, finish, add_step, rebuild, settle,
}
use homelab_agent.Rebuild.Registry.{IsRegistry}
use homelab_agent.Rebuild.Runs.{Reachable, first, started, Reachable-IsRegistry}
use homelab_agent.Rebuild.Threads.{IsOver, outcome, run_job-IsOver, verdict}
use homelab_agent.Rebuild.Quoting.{shell_word, plain, ends_word, shell_word-script}

abbrev garden : Target
garden = record {
  project = text "garden";
  service = none;
  working_dir = text "/srv/gard'en";
  fetch_url = some (text "https://git/g.git");
  can_pull = true;
}

abbrev job : Job
job = new_job (text "a1") 100 none true garden

abbrev jobs : Jobs
jobs = record_job job []

running : Unit {0}
unfolding start any_running record_job any values get set run_job rebuild settle finish add_step
    list_beq outcome verdict classify_failure failures first_match has_infix starts_with lower quote
    escape all is_safe is_digit contains shell_word ends_word
running = tt

job_started : start (text "a1") 100 none true garden [] ≡ ok (job, jobs)
unfolding running
job_started = refl

run_tests :
    (start (text "b2") 101 none true garden jobs ≡ err already_running)
    × (start (text "b2") 101 none true (record garden { can_pull = false }) jobs ≡ err cannot_pull)
    × (map (λ j. j.state) (values (run_job launched (exit 0 []) 200 job jobs)) ≡ done ∷ [])
    × (map
          (λ j. j.error)
          (values (run_job launched (exit 1 (text "No space left on device")) 200 job jobs))
        ≡ some (ended disk_full) ∷ [])
    × (classify_failure (text "make: error 2") 2 ≡ exited 2)
    × (quote (text "a'b") ≡ text "'a'\"'\"'b'")
unfolding running
run_tests = (refl, refl, refl, refl, refl, refl)

jobs-Reachable : Reachable jobs
jobs-Reachable = started (text "a1") 100 none true garden job first job_started

Reachable-IsRegistry_example : IsRegistry jobs
Reachable-IsRegistry_example = Reachable-IsRegistry jobs jobs-Reachable

run_job-IsOver_example :
    IsOver
      (text "a1")
      (outcome job launched (exit 1 []))
      200
      (run_job launched (exit 1 []) 200 job jobs)
unfolding running
run_job-IsOver_example =
    run_job-IsOver launched (exit 1 []) 200 job job jobs (Reachable-IsRegistry jobs jobs-Reachable)
      refl refl

shell_word-script_example :
    (after : Text) × (script (text "/srv/gard'en") none
      ≡ text "__owner=$(stat -c %u:%g " ++ (quote (text "/srv/gard'en") ++ after))
    × (shell_word plain (quote (text "/srv/gard'en") ++ after) ≡ some (text "/srv/gard'en", after))
shell_word-script_example = shell_word-script (text "/srv/gard'en") none
