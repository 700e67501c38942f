-- ===== src/Rebuild/Registry.antt =====
-- rebuild.py: what holds of the registry of jobs, however the requests and the threads of the jobs
-- take turns.
use homelab_agent.Prelude.{
  ℕ, zero, suc, ==_refl, ◌+◌, ◌-◌, ◌≤◌, ◌≡◌, refl, ◌∙◌, Bool, true, false, not, some, List, [], ◌∷◌,
  arith, map, length, length-take, length-map, length-keep_if, take, keep_if, count_if, any, All,
  All-take, nat_eq, list_eq, ltb, Bool-cases, Option-cases, inl, inr,
}
use homelab_agent.Prelude.Text.{Text}
use homelab_agent.Prelude.Dict.{get, set, get-set}
use homelab_agent.Prelude.Distinct
use homelab_agent.Prelude.Keys.{
  values, remove_all, UniqueKeys, UniqueKeys-set, UniqueKeys-remove_all, DistinctKeys, Holding,
  tally, tally-set, tally-set_over, tally-remove_all, tally-remove_all_le, get-remove_all,
}
use homelab_agent.Prelude.Named.{
  Named, Held, Named-set, Named-remove_all, values-Held, ids-DistinctKeys, keep_if-Passing,
  Passing-Holding, Passing-contains,
}
use homelab_agent.Prelude.Sort.{sort, All-sort, length-sort, count_if-sort}
use homelab_agent.Rebuild.Jobs.{
  Job, Jobs, id_of, is_running, any_running, earlier, record_job, max_jobs,
}

-- the jobs beyond the bound, the oldest first
excess : Jobs → List Job
excess jobs = take (length jobs - max_jobs) (sort earlier (values jobs))

idle : Job → Bool
idle job = not (is_running job)

module _ (jobs : Jobs) (u : UniqueKeys jobs) (n : Named id_of jobs) where
  excess-Held : All (Held id_of jobs) (excess jobs)
  unfolding excess
  excess-Held =
      All-take (Held id_of jobs) (length jobs - max_jobs) _
        (All-sort earlier (Held id_of jobs) _ (values-Held id_of jobs u n))

  gone : List Text
  gone = map id_of (keep_if idle (excess jobs))

  gone-Holding : Holding idle jobs gone
  unfolding gone
  gone-Holding =
      Passing-Holding id_of idle jobs _ (keep_if-Passing id_of idle jobs (excess jobs) excess-Held)

  gone-DistinctKeys : DistinctKeys gone
  unfolding gone excess
  gone-DistinctKeys = Distinct.DistinctKeys-keep_if id_of idle (excess jobs) (
      Distinct.DistinctKeys-take id_of (length jobs - max_jobs) _
        (Distinct.DistinctKeys-sort id_of earlier (values jobs) (ids-DistinctKeys id_of jobs u n)))

  tally-gone : tally idle (remove_all jobs gone) + length gone ≡ tally idle jobs
  tally-gone = tally-remove_all idle jobs gone u gone-DistinctKeys gone-Holding

  -- A running job is never dropped.
  get-gone :
      (k : Text) (job : Job)
      → get jobs k ≡ some job
      → is_running job ≡ true
      → get (remove_all jobs gone) k ≡ some job
  unfolding gone idle
  get-gone k job at busy =
      get-remove_all jobs gone k (
        Passing-contains id_of idle jobs _ k job
          (keep_if-Passing id_of idle jobs (excess jobs) excess-Held) at (ground arith))
      ∙ at

tally-split : (jobs : Jobs) → tally idle jobs + tally is_running jobs ≡ length jobs
unfolding idle
tally-split [] = omega arith
tally-split ((k, job) ∷ jobs) = ground (arith, tally-split jobs)

count_if-split : (xs : List Job) → count_if idle xs + count_if is_running xs ≡ length xs
unfolding idle count_if
count_if-split [] = omega arith
count_if-split (x ∷ xs) = ground (arith, count_if-split xs)

count_if-take-le : (p : Job → Bool) (n : ℕ) (xs : List Job) → count_if p (take n xs) ≤ count_if p xs
unfolding count_if
count_if-take-le p zero xs = omega arith
count_if-take-le p (suc n) [] = omega arith
count_if-take-le p (suc n) (x ∷ xs) = ground (arith, count_if-take-le p n xs)

count_if-values : (p : Job → Bool) (jobs : Jobs) → count_if p (values jobs) ≡ tally p jobs
unfolding count_if values
count_if-values p [] = refl
count_if-values p ((k, job) ∷ jobs) = ground (arith, count_if-values p jobs)

length-values : (jobs : Jobs) → length (values jobs) ≡ length jobs
unfolding values
length-values [] = refl
length-values ((k, job) ∷ jobs) = omega (arith, length-values jobs)

tally-any : (jobs : Jobs) → any_running jobs ≡ false → tally is_running jobs ≡ 0
unfolding any_running any values
tally-any [] h = refl
tally-any ((k, job) ∷ jobs) h = ground (arith, tally-any jobs)

length-gone-ge :
    (jobs : Jobs) (u : UniqueKeys jobs) (n : Named id_of jobs)
    → length jobs - max_jobs ≤ length (gone jobs u n) + tally is_running jobs
unfolding gone excess
length-gone-ge jobs u n = omega (
  arith,
  length-map id_of (keep_if idle old),
  length-keep_if idle old,
  count_if-split old,
  length-take (length jobs - max_jobs) (sort earlier (values jobs)),
  length-sort earlier (values jobs),
  length-values jobs,
  count_if-take-le is_running (length jobs - max_jobs) (sort earlier (values jobs)),
  count_if-sort earlier is_running (values jobs),
  count_if-values is_running jobs,
)
  where
    old : List Job
    old = take (length jobs - max_jobs) (sort earlier (values jobs))

-- what holds of the registry whenever its lock is free
pub record IsRegistry (jobs : Jobs) : Type 0 where
  pub unique : UniqueKeys jobs
  pub named : Named id_of jobs
  pub one_running : tally is_running jobs ≤ 1
  pub bounded : length jobs ≤ suc max_jobs

drop-IsRegistry :
    (jobs : Jobs) (u : UniqueKeys jobs) (n : Named id_of jobs)
    → tally is_running jobs ≤ 1
    → IsRegistry (remove_all jobs (gone jobs u n))
drop-IsRegistry jobs u n one = record {
  unique = UniqueKeys-remove_all jobs (gone jobs u n) u;
  named = Named-remove_all id_of jobs (gone jobs u n) n;
  one_running = omega (arith, tally-remove_all_le is_running jobs (gone jobs u n));
  bounded = omega (
    arith,
    tally-remove_all_le is_running jobs (gone jobs u n),
    tally-gone jobs u n,
    length-gone-ge jobs u n,
    tally-split jobs,
    tally-split (remove_all jobs (gone jobs u n)),
  );
}

module _ (job : Job) (jobs : Jobs) (r : IsRegistry jobs)
    (none_running : any_running jobs ≡ false) where
  with_job : Jobs
  with_job = set jobs job.id job

  with_job_UniqueKeys : UniqueKeys with_job
  unfolding with_job
  with_job_UniqueKeys = UniqueKeys-set jobs job.id job r.unique

  with_job_Named : Named id_of with_job
  unfolding with_job
  with_job_Named = Named-set id_of jobs job.id job refl r.named

  with_job_one : tally is_running with_job ≤ 1
  unfolding with_job
  with_job_one = elim (Option-cases (get jobs job.id)) [
    | inl at ↦ ground (arith, tally-set is_running jobs job.id job at, tally-any jobs none_running)
    | inr (old, at) ↦
        ground
          (arith, tally-set_over is_running jobs job.id job old at, tally-any jobs none_running)
  ]

  record_many :
      ltb max_jobs (length with_job) ≡ true
      → record_job job jobs ≡ remove_all with_job (gone with_job with_job_UniqueKeys with_job_Named)
  unfolding record_job with_job gone excess idle
  record_many h = rw (h, record_job) refl

  record_few : ltb max_jobs (length with_job) ≡ false → record_job job jobs ≡ with_job
  unfolding record_job with_job
  record_few h = rw (h, record_job) refl

  pub record_job-IsRegistry : IsRegistry (record_job job jobs)
  record_job-IsRegistry = elim (Bool-cases (ltb max_jobs (length with_job))) [
    | inl many ↦
        rw (record_many many)
          (drop-IsRegistry with_job with_job_UniqueKeys with_job_Named with_job_one)
    | inr few ↦ rw (record_few few) (record {
      unique = with_job_UniqueKeys;
      named = with_job_Named;
      one_running = with_job_one;
      bounded = ground arith;
    })
  ]

  pub get-record_job : is_running job ≡ true → get (record_job job jobs) job.id ≡ some job
  unfolding with_job
  get-record_job busy = elim (Bool-cases (ltb max_jobs (length with_job))) [
    | inl many ↦
        rw (record_many many)
          (get-gone with_job with_job_UniqueKeys with_job_Named job.id job hit busy)
    | inr few ↦ rw (record_few few) hit
  ]
    where
      hit : get (set jobs job.id job) job.id ≡ some job
      hit = get-set jobs job.id job.id job ∙ rw (==_refl job.id) refl
