-- ===== src/Rebuild/Runs.antt =====
-- rebuild.py: requests and job threads in any order, each holding the lock for one operation.
use homelab_agent.Prelude.{
  ℕ, ◌≡◌, refl, sym, ap, ◌∙◌, Bool, true, false, not, ◌&&◌, Option, some, [], arith, nat_eq,
  list_eq, Option-cases, inl, inr,
}
use homelab_agent.Prelude.Text.{Text}
use homelab_agent.Prelude.Dict.{get, set, length-set}
use homelab_agent.Prelude.Keys.{UniqueKeys-set, tally-set_over}
use homelab_agent.Prelude.Named.{Named-set, Named-get}
use homelab_agent.Prelude.Result.{ok}
use homelab_agent.Rebuild.Jobs.{
  Job, Jobs, State, running, Problem, Step, Target, id_of, is_running, any_running, record_job,
  start, new_job, update, finished, finish, stepped, add_step,
}
use homelab_agent.Rebuild.Registry.{IsRegistry, record_job-IsRegistry, get-record_job}

-- a state that `_finish` is called with
abbrev pub is_over : State → Bool
is_over running = false
is_over _ = true

pub data Reachable : Jobs → Type 0 where
  first : Reachable []
  started :
      {jobs after : Jobs} (id : Text) (now : ℕ) (own : Option Text) (pull : Bool) (target : Target)
      (job : Job)
      → Reachable jobs
      → start id now own pull target jobs ≡ ok (job, after)
      → Reachable after
  noted :
      {jobs : Jobs} (id : Text) (step : Step) → Reachable jobs → Reachable (add_step id step jobs)
  ended_as :
      {jobs : Jobs} (id : Text) (state : State) (error : Option Problem) (now : ℕ)
      → is_over state ≡ true
      → Reachable jobs
      → Reachable (finish id state error now jobs)

pub update-some :
    (id : Text) (change : Job → Job) (jobs : Jobs) (job : Job)
    → get jobs id ≡ some job
    → update id change jobs ≡ set jobs id (change job)
update-some id change jobs job at = rw (at, update) refl

module _ (change : Job → Job) (keeps : (job : Job) → (change job).id ≡ job.id)
    (calm : (job : Job) → is_running job ≡ false → is_running (change job) ≡ false) where
  update-IsRegistry :
      (id : Text) (jobs : Jobs) → IsRegistry jobs → IsRegistry (update id change jobs)
  update-IsRegistry id jobs r = elim (Option-cases (get jobs id)) [
    | inl absent ↦ rw (absent, update) r
    | inr (job, at) ↦ rw (update-some id change jobs job at) (record {
      unique = UniqueKeys-set jobs id (change job) r.unique;
      named =
          Named-set id_of jobs id (change job) (keeps job ∙ Named-get id_of jobs id job r.named at)
            r.named;
      one_running =
          ground
            (arith, tally-set_over is_running jobs id (change job) job at, calm job, r.one_running);
      bounded = rw (length-set jobs id (change job)) (rw at r.bounded);
    })
  ]

module _ (id : Text) (now : ℕ) (own : Option Text) (pull : Bool) (target : Target)
    (jobs after : Jobs) (job : Job) (h : start id now own pull target jobs ≡ ok (job, after)) where
  start-idle : any_running jobs ≡ false
  unfolding start
  start-idle = ground arith

  start-after : after ≡ record_job job jobs
  unfolding start
  start-after = ground arith

  start-job : job ≡ new_job id now own pull target
  unfolding start
  start-job = ground arith

-- However requests and threads take turns, at most one job runs, each job stands under its own id,
-- and at most one job more than MAX_JOBS is kept.
pub Reachable-IsRegistry : (jobs : Jobs) → Reachable jobs → IsRegistry jobs
unfolding finish add_step
Reachable-IsRegistry jobs first = record {
  unique = tt;
  named = tt;
  one_running = omega arith;
  bounded = omega arith;
}
Reachable-IsRegistry after (started {jobs} id now own pull target job r h) =
    rw (start-after id now own pull target jobs after job h) (
      record_job-IsRegistry job jobs (Reachable-IsRegistry jobs r)
        (start-idle id now own pull target jobs after job h))
Reachable-IsRegistry _ (noted {jobs} id step r) =
    update-IsRegistry (stepped step) (λ job. refl) (λ job h. h) id jobs
      (Reachable-IsRegistry jobs r)
Reachable-IsRegistry _ (ended_as {jobs} id state error now over r) =
    update-IsRegistry (finished state error now) (λ job. refl) (λ job h. ground arith) id jobs
      (Reachable-IsRegistry jobs r)

-- A request that is taken finds no job running, and its job stands in the registry, running.
pub start-IsRunning :
    (id : Text) (now : ℕ) (own : Option Text) (pull : Bool) (target : Target) (jobs after : Jobs)
    (job : Job)
    → IsRegistry jobs
    → start id now own pull target jobs ≡ ok (job, after)
    → (any_running jobs ≡ false)
      × (get after id ≡ some job)
      × (is_running job ≡ true)
      × ((pull && not target.can_pull) ≡ false)
unfolding start
start-IsRunning id now own pull target jobs after job r h =
    let same : job ≡ new_job id now own pull target =
      start-job id now own pull target jobs after job h in
    let busy : is_running job ≡ true = rw same refl in
    let named : job.id ≡ id = rw same refl in
    (
      start-idle id now own pull target jobs after job h,
      rw (start-after id now own pull target jobs after job h) (
          ap (get (record_job job jobs)) (sym named)
          ∙ get-record_job job jobs r (start-idle id now own pull target jobs after job h) busy),
      busy,
      ground arith,
    )
