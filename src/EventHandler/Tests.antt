-- ===== src/EventHandler/Tests.antt =====
-- Handlers of pkg/eventhandler over an executor whose queue is a list of jobs.
use kube_trigger.Base.{
  ◌≤◌, ◌↔◌, ℕ, ◌+◌, ◌≡◌, refl, Bool, true, false, ◌⊎◌, Option, none, some, List, [], ◌∷◌, ◌++◌,
  arith, length, length-append, ite, if_pos, if_neg, ℕ_discrete,
}
use kube_trigger.Base.Int.{pos}
use kube_trigger.Base.Text.{String-discrete}
use kube_trigger.Executor.{Executor, JobQueue, add_job}
use kube_trigger.Action.{Job, Created, created}
use kube_trigger.Filter.{FilterError}
use kube_trigger.EventHandler.{HandlerError, new_from_config}
use kube_trigger.EventHandler.Laws.{Adds, new_from_config_lem}

abbrev head : {J : Type 0} → List J → Option J
head [] = none
head (j ∷ js) = some j

abbrev tail : {J : Type 0} → List J → List J
tail [] = []
tail (j ∷ js) = js

pub Job-discrete : Discrete (Job ℕ ℕ)
Job-discrete = hlevel (String-discrete, ℕ_discrete)

-- The waiting jobs, and for each job how often it was requeued.
abbrev pub Line : Type 0
Line = List (Job ℕ ℕ) × (Job ℕ ℕ → ℕ)

abbrev set_count : (Job ℕ ℕ → ℕ) → Job ℕ ℕ → ℕ → Job ℕ ℕ → ℕ
set_count f j n k = ite (Job-discrete k j) n (f k)

pub set_count_same : (f : Job ℕ ℕ → ℕ) (j : Job ℕ ℕ) (n : ℕ) → set_count f j n j ≡ n
set_count_same f j n = if_pos (Job-discrete j j) refl n (f j)

pub set_count_other :
    (f : Job ℕ ℕ → ℕ) (j : Job ℕ ℕ) (n : ℕ) (k : Job ℕ ℕ) → ¬ (k ≡ j) → set_count f j n k ≡ f k
set_count_other f j n k ne = if_neg (Job-discrete k j) ne n (f k)

pub length-tail : (js : List (Job ℕ ℕ)) → length (tail js) ≤ length js
length-tail [] = omega arith
length-tail (j ∷ js) = omega arith

abbrev pub line : JobQueue Line (Job ℕ ℕ)
line = record {
  len = λ q. length q.0;
  add = λ q j. (q.0 ++ j ∷ [], q.1);
  add_rate_limited = λ q j. (q.0 ++ j ∷ [], set_count q.1 j (q.1 j + 1));
  forget = λ q j. (q.0, set_count q.1 j 0);
  num_requeues = λ q j. q.1 j;
  get = λ q. ((tail q.0, q.1), head q.0);
  done = λ q j. q;
  len-add = λ q j. omega (arith, length-append q.0 (j ∷ []));
  len-get = λ q. length-tail q.0;
  requeues-add = λ q j k. refl;
  requeues-get = λ q k. refl;
  requeues-done = λ q j k. refl;
  requeues-forget = λ q j. set_count_same q.1 j 0;
  requeues-forget_ne = λ q j k n. set_count_other q.1 j 0 k n;
  requeues-limited = λ q j. set_count_same q.1 j (q.1 j + 1);
  requeues-limited_ne = λ q j k n. set_count_other q.1 j (q.1 j + 1) k n;
}

abbrev pub executor : Executor Line ℕ
executor = record {
  workers = pos 1;
  max_queue_size = pos 1;
  max_retries = pos 1;
  allow_retries = false;
  timeout = pos 10;
  running_jobs = [];
  queue = ([], λ j. 0);
}

abbrev pub greet : ℕ → Job ℕ ℕ
greet n = record { source_type = "greet"; id = "g"; context = n; properties = 0; template = "" }

-- The filter keeps every event, and the action greets.
abbrev keeps : ℕ → Bool × Option FilterError
keeps n = (true, none)

abbrev greets : ℕ → Created (Job ℕ ℕ)
greets n = created (greet n)

new_from_config_lem_example :
    (((new_from_config line keeps greets 7 executor).1 ≡ none) ↔ Adds line keeps greets 7 executor)
    × ((((new_from_config line keeps greets 7 executor).1 ≡ none)
          × ((j : Job ℕ ℕ) × (created (greet 7) ≡ created j)
              × ((new_from_config line keeps greets 7 executor).0 ≡ (add_job line executor j).0)))
        ⊎ ((e : HandlerError) × ((new_from_config line keeps greets 7 executor).1 ≡ some e)
            × ((new_from_config line keeps greets 7 executor).0 ≡ executor)))
new_from_config_lem_example = new_from_config_lem line keeps greets 7 executor
