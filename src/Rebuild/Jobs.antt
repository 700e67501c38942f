-- ===== src/Rebuild/Jobs.antt =====
-- rebuild.py: the registry `_jobs` and what is done to it. Times are of one clock, that may be set
-- back; a job's id is the hexadecimal digits of a UUID; `own` is what `self_project` finds.
use homelab_agent.Prelude.{
  ℕ, ◌-◌, Bool, true, false, not, ◌&&◌, Option, none, some, List, [], ◌∷◌, ◌++◌, map, length, take,
  keep_if, any, ◌==◌, nat_eq, list_eq, leb, ltb, eqb, if◌then◌else◌,
}
use homelab_agent.Prelude.Text.{Text}
use homelab_agent.Prelude.Dict.{Dict, get, set}
use homelab_agent.Prelude.Keys.{values, remove_all}
use homelab_agent.Prelude.Sort.{sort}
use homelab_agent.Prelude.Result.{Result, ok, err}
use homelab_agent.Rebuild.Shell.{script}
use homelab_agent.Rebuild.Failure.{Cause, classify_failure}

abbrev pub max_jobs : ℕ
max_jobs = 20

pub data State : Type 0 where
  running done failed handed_off : State

-- what a job failed of
pub data Problem : Type 0 where
  not_started : Text → Problem
  lost_track : Text → Problem
  raised : Problem
  ended : Cause → Problem

pub record Step : Type 0 where
  pub command : Text
  pub exit_code : Option ℕ

pub record Job : Type 0 where
  pub id : Text
  pub project : Text
  pub service : Option Text
  pub working_dir : Text
  pub fetch_url : Option Text
  pub pull : Bool
  pub replaces_self : Bool
  pub state : State
  pub started_at : ℕ
  pub finished_at : Option ℕ
  pub steps : List Step
  pub error : Option Problem

-- what `target_for` gives
pub record Target : Type 0 where
  pub project : Text
  pub service : Option Text
  pub working_dir : Text
  pub fetch_url : Option Text
  pub can_pull : Bool

abbrev pub Jobs : Type 0
Jobs = Dict Text Job

abbrev pub is_running : Job → Bool
is_running job = elim job.state [
  | running ↦ true
  | done ↦ false
  | failed ↦ false
  | handed_off ↦ false
]

-- `_running`
unfoldable pub any_running : Jobs → Bool
any_running jobs = any is_running (values jobs)

abbrev pub id_of : Job → Text
id_of job = job.id

abbrev pub earlier : Job → Job → Bool
earlier j k = leb j.started_at k.started_at

-- `_record`
unfoldable pub record_job : Job → Jobs → Jobs
record_job job jobs =
    let all_jobs = set jobs job.id job in
    if ltb max_jobs (length all_jobs)
    then remove_all all_jobs (
        map id_of (
          keep_if (λ j. not (is_running j))
            (take (length all_jobs - max_jobs) (sort earlier (values all_jobs)))))
    else all_jobs

pub data StartError : Type 0 where
  cannot_pull already_running : StartError

abbrev is_own : Text → Option Text → Bool
is_own [] own = false
is_own (c ∷ s) none = false
is_own (c ∷ s) (some p) = (c ∷ s) == p

abbrev pub new_job : Text → ℕ → Option Text → Bool → Target → Job
new_job id now own pull target = record {
  id = id;
  project = target.project;
  service = target.service;
  working_dir = target.working_dir;
  fetch_url = target.fetch_url;
  pull = pull;
  replaces_self = is_own target.project own;
  state = running;
  started_at = now;
  finished_at = none;
  steps = [];
  error = none;
}

-- `start`, as far as the registry goes; `_rebuild` is what its thread does
unfoldable pub start :
    Text → ℕ → Option Text → Bool → Target → Jobs → Result StartError (Job × Jobs)
start id now own pull target jobs =
    if pull && not target.can_pull
    then err cannot_pull
    else if any_running jobs
    then err already_running
    else ok (new_job id now own pull target, record_job (new_job id now own pull target) jobs)

-- what a thread does to its job, which the registry shares as long as it has it
abbrev pub update : Text → (Job → Job) → Jobs → Jobs
update id change jobs = elim (get jobs id) [ none ↦ jobs | some job ↦ set jobs id (change job) ]

abbrev pub finished : State → Option Problem → ℕ → Job → Job
finished state error now job = record job { state = state; error = error; finished_at = some now }

-- `_finish`
unfoldable pub finish : Text → State → Option Problem → ℕ → Jobs → Jobs
finish id state error now jobs = update id (finished state error now) jobs

abbrev pub stepped : Step → Job → Job
stepped step job = record job { steps = job.steps ++ (step ∷ []) }

-- `_add_step`
unfoldable pub add_step : Text → Step → Jobs → Jobs
add_step id step jobs = update id (stepped step) jobs

-- `status`
abbrev pub status : Text → Jobs → Option Job
status id jobs = get jobs id

-- `recent`: the newest first
unfoldable pub recent : Jobs → List Job
recent jobs = sort (λ j k. leb k.started_at j.started_at) (values jobs)

-- what Docker answers to `containers.run`, and to waiting for the helper and reading its log
pub data Launch : Type 0 where
  refused : Text → Launch
  launched : Launch

pub data Ending : Type 0 where
  lost : Text → Ending
  exit : ℕ → Text → Ending

-- `shlex.quote` takes no None: then `_script` raises
abbrev pub script_of : Job → Option Text
script_of job =
    if job.pull
    then (elim job.fetch_url [ none ↦ none | some url ↦ some (script job.working_dir (some url)) ])
    else some (script job.working_dir none)

unfoldable pub settle : Text → Ending → ℕ → Job → Jobs → Jobs
settle command (lost error) now job jobs = finish job.id failed (some (lost_track error)) now jobs
settle command (exit code output) now job jobs =
    let after = add_step job.id (record { command = command; exit_code = some code }) jobs in
    if eqb code 0
    then finish job.id done none now after
    else finish job.id failed (some (ended (classify_failure output code))) now after

-- `_rebuild`, after `_script`
unfoldable pub rebuild : Text → Launch → Ending → ℕ → Job → Jobs → Jobs
rebuild command (refused error) ending now job jobs =
    finish job.id failed (some (not_started error)) now jobs
rebuild command launched ending now job jobs =
    if job.replaces_self
    then finish job.id handed_off none now
        (add_step job.id (record { command = command; exit_code = none }) jobs)
    else settle command ending now job jobs

-- `_run_job`
unfoldable pub run_job : Launch → Ending → ℕ → Job → Jobs → Jobs
run_job launch ending now job jobs = elim (script_of job) [
  | none ↦ finish job.id failed (some raised) now jobs
  | some command ↦ rebuild command launch ending now job jobs
]
