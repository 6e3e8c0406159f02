-- ===== src/Executor/Tests.antt =====
-- The executor of pkg/executor over a simple queue of jobs.
use kube_trigger.Base.{
  ◌≤◌, ℕ, ◌+◌, ◌/◌, ◌≡◌, refl, true, false, Option, none, some, List, [], ◌∷◌, ◌++◌, arith, ite,
  if_pos, if_neg, has, length, length-append, ℕ_discrete,
}
use kube_trigger.Base.Int.{pos}
use kube_trigger.Executor.{
  Executor, Jobs, JobQueue, active, get_job_status, start, finish, push_job,
}
use kube_trigger.Executor.Adding
use kube_trigger.Executor.Race.{free, runs, Reach, after_gets, both_run}

-- Jobs are numbers below 100 with an identifier in front: 201 and 207 have the identifier 2.
abbrev jobs : Jobs ℕ ℕ
jobs = record { id = λ j. j / 100; allow_concurrency = λ j. false; is_nil = λ j. false }

-- The waiting jobs, and for each job how often it was requeued.
abbrev Line : Type 0
Line = List ℕ × (ℕ → ℕ)

abbrev set_count : (ℕ → ℕ) → ℕ → ℕ → ℕ → ℕ
set_count f j n k = ite (ℕ_discrete k j) n (f k)

set_count_same : (f : ℕ → ℕ) (j n : ℕ) → set_count f j n j ≡ n
set_count_same f j n = if_pos (ℕ_discrete j j) refl n (f j)

set_count_other : (f : ℕ → ℕ) (j n k : ℕ) → ¬ (k ≡ j) → set_count f j n k ≡ f k
set_count_other f j n k ne = if_neg (ℕ_discrete k j) ne n (f k)

abbrev front : List ℕ → Option ℕ
front [] = none
front (j ∷ js) = some j

abbrev behind : List ℕ → List ℕ
behind [] = []
behind (j ∷ js) = js

length-behind : (js : List ℕ) → length (behind js) ≤ length js
length-behind [] = omega arith
length-behind (j ∷ js) = omega arith

abbrev line : JobQueue Line ℕ
line = record {
  len = λ q. length q.0;
  add = λ q j. (q.0 ++ j ∷ [], q.1);
  add_rate_limited = λ q j. (q.0 ++ j ∷ [], set_count q.1 j (q.1 j + 1));
  forget = λ q j. (q.0, set_count q.1 j 0);
  num_requeues = λ q j. q.1 j;
  get = λ q. ((behind q.0, q.1), front q.0);
  done = λ q j. q;
  len-add = λ q j. omega (arith, length-append q.0 (j ∷ []));
  len-get = λ q. length-behind q.0;
  requeues-add = λ q j k. refl;
  requeues-get = λ q k. refl;
  requeues-done = λ q j k. refl;
  requeues-forget = λ q j. set_count_same q.1 j 0;
  requeues-forget_ne = λ q j k n. set_count_other q.1 j 0 k n;
  requeues-limited = λ q j. set_count_same q.1 j (q.1 j + 1);
  requeues-limited_ne = λ q j k n. set_count_other q.1 j (q.1 j + 1) k n;
}

abbrev executor : Executor Line ℕ
executor = record {
  workers = pos 2;
  max_queue_size = pos 3;
  max_retries = pos 1;
  allow_retries = true;
  timeout = pos 10;
  running_jobs = [];
  queue = (201 ∷ 207 ∷ [], λ j. 0);
}

-- The job 201 fails once, is retried, and fails again.
abbrev once : Executor Line ℕ
once = (finish ℕ_discrete jobs line executor 201 true active).0

-- The queue is then over its limit of three jobs.
over_the_limit : length (push_job line (push_job line executor 302) 301).queue.0 ≡ 4
unfolding push_job
over_the_limit = refl

both_run_example :
    Reach ℕ_discrete jobs line
      (record { executor = executor; phases = free ∷ free ∷ [] })
      (record {
        executor =
            start ℕ_discrete jobs
              (start ℕ_discrete jobs (after_gets ℕ_discrete jobs line executor) 201)
              207;
        phases = runs 201 ∷ runs 207 ∷ [];
      })
unfolding get_job_status has
both_run_example = both_run ℕ_discrete jobs line executor 201 207 refl refl refl refl refl refl
