-- ===== src/Rebuild/Threads.antt =====
-- rebuild.py: what the thread of a job leaves behind.
use homelab_agent.Prelude.{
  ℕ, zero, suc, ==_refl, ◌≤◌, ◌≡◌, refl, ◌∙◌, Bool, true, false, Option, none, some, [], ◌∷◌, arith,
  any, nat_eq, list_eq, eqb, Bool-cases, Option-cases, inl, inr,
}
use homelab_agent.Prelude.Text.{Text}
use homelab_agent.Prelude.Dict.{get, set, get-set}
use homelab_agent.Prelude.Keys.{values, tally, tally-set_over}
use homelab_agent.Rebuild.Jobs.{
  Job, Jobs, State, done, failed, handed_off, Problem, raised, Step, is_running, any_running,
  finished, finish, stepped, add_step, Launch, refused, launched, Ending, lost, exit, script_of,
  settle, rebuild, run_job,
}
use homelab_agent.Rebuild.Registry.{IsRegistry}
use homelab_agent.Rebuild.Runs.{update-some, is_over}

-- the state that a rebuild ends in
unfoldable pub verdict : Bool → Launch → Ending → State
verdict replaces_self (refused _) ending = failed
verdict true launched ending = handed_off
verdict false launched (lost _) = failed
verdict false launched (exit zero _) = done
verdict false launched (exit (suc _) _) = failed

-- The job stands in its last state, and no job runs.
pub record IsOver (id : Text) (last : State) (now : ℕ) (jobs : Jobs) : Type 0 where
  pub job : Job
  pub at : get jobs id ≡ some job
  pub state : job.state ≡ last
  pub finished_at : job.finished_at ≡ some now
  pub freed : any_running jobs ≡ false

any_running-tally : (jobs : Jobs) → tally is_running jobs ≡ 0 → any_running jobs ≡ false
unfolding any_running any values
any_running-tally [] h = refl
any_running-tally ((k, job) ∷ jobs) h = ground (arith, any_running-tally jobs)

-- the only running job of the registry
record IsOnly (id : Text) (jobs : Jobs) : Type 0 where
  job : Job
  at : get jobs id ≡ some job
  busy : is_running job ≡ true
  only : tally is_running jobs ≤ 1

finish-IsOver :
    (id : Text) (state : State) (error : Option Problem) (now : ℕ) (jobs : Jobs)
    → IsOnly id jobs
    → is_over state ≡ true
    → IsOver id state now (finish id state error now jobs)
unfolding finish
finish-IsOver id state error now jobs o over =
    let last = finished state error now o.job in
    rw (update-some id (finished state error now) jobs o.job o.at) (record {
      job = last;
      at = get-set jobs id id last ∙ rw (==_refl id) refl;
      state = refl;
      finished_at = refl;
      freed =
          any_running-tally (set jobs id last)
            (ground (arith, tally-set_over is_running jobs id last o.job o.at, o.only, o.busy));
    })

add_step-IsOnly :
    (id : Text) (step : Step) (jobs : Jobs) → IsOnly id jobs → IsOnly id (add_step id step jobs)
unfolding add_step
add_step-IsOnly id step jobs o =
    let next = stepped step o.job in
    rw (update-some id (stepped step) jobs o.job o.at) (record {
      job = next;
      at = get-set jobs id id next ∙ rw (==_refl id) refl;
      busy = o.busy;
      only = ground (arith, tally-set_over is_running jobs id next o.job o.at, o.only);
    })

settle-IsOver :
    (command : Text) (ending : Ending) (now : ℕ) (job : Job) (jobs : Jobs)
    → IsOnly job.id jobs
    → IsOver job.id (verdict false launched ending) now (settle command ending now job jobs)
unfolding settle verdict
settle-IsOver command (lost error) now job jobs o = finish-IsOver job.id failed _ now jobs o refl
settle-IsOver command (exit zero output) now job jobs o =
    finish-IsOver job.id done none now _ (add_step-IsOnly job.id _ jobs o) refl
settle-IsOver command (exit (suc code) output) now job jobs o =
    let other : eqb (suc code) 0 ≡ false = ground arith in
    rw other (finish-IsOver job.id failed _ now _ (add_step-IsOnly job.id _ jobs o) refl)

rebuild-IsOver :
    (command : Text) (launch : Launch) (ending : Ending) (now : ℕ) (job : Job) (jobs : Jobs)
    → IsOnly job.id jobs
    → IsOver job.id
        (verdict job.replaces_self launch ending)
        now
        (rebuild command launch ending now job jobs)
unfolding rebuild verdict
rebuild-IsOver command (refused error) ending now job jobs o =
    finish-IsOver job.id failed _ now jobs o refl
rebuild-IsOver command launched ending now job jobs o = elim (Bool-cases job.replaces_self) [
  | inl own ↦
      simp own (finish-IsOver job.id handed_off none now _ (add_step-IsOnly job.id _ jobs o) refl)
  | inr other ↦ simp other (settle-IsOver command ending now job jobs o)
]

-- the state that the whole thread ends in; without a URL to pull from, there is no script
unfoldable pub outcome : Job → Launch → Ending → State
outcome job launch ending = elim (script_of job) [
  | none ↦ failed
  | some command ↦ verdict job.replaces_self launch ending
]

-- The thread of a running job leaves it failed when it could not be scripted, launched or followed,
-- handed off when it replaces this agent, and otherwise done if the helper exited with 0 and failed
-- if not. No job runs afterwards.
pub run_job-IsOver :
    (launch : Launch) (ending : Ending) (now : ℕ) (job current : Job) (jobs : Jobs)
    → IsRegistry jobs
    → get jobs job.id ≡ some current
    → is_running current ≡ true
    → IsOver job.id (outcome job launch ending) now (run_job launch ending now job jobs)
unfolding run_job outcome
run_job-IsOver launch ending now job current jobs r at busy = elim (Option-cases (script_of job)) [
  | inl unscripted ↦
      rw (unscripted, run_job, outcome)
        (finish-IsOver job.id failed (some raised) now jobs only refl)
  | inr (command, scripted) ↦
      rw (scripted, run_job, outcome) (rebuild-IsOver command launch ending now job jobs only)
]
  where
    only : IsOnly job.id jobs
    only = record { job = current; at = at; busy = busy; only = r.one_running }
