-- ===== src/Pipeline/Tests.antt =====
-- Two events of a watched resource, one of which a trigger turns into a job.
use Prim.Native.String.{String}
use kube_trigger.Base.{ℕ, ◌≡◌, refl, Option, none, some, List, [], ◌∷◌, ◌++◌, has, ◌==◌}
use kube_trigger.Base.Text.{String-discrete}
use kube_trigger.Action.{created}
use kube_trigger.EventHandler.Tests.{line, executor, greet}
use kube_trigger.Source.Watcher.{Config}
use kube_trigger.Source.Controller.{InformerEvent, Objects, RateLimiting, run_worker, setup}
use kube_trigger.Source.Controller.Worker.{asked, taken}
use kube_trigger.Pipeline.{Rule, handlers, submit, requested, jobs_of, job_of, run_worker-submit}

-- The data of an event is its object, and objects are the times of their creation.
abbrev context : String → InformerEvent ℕ → ℕ → ℕ
context source e n = e.object

abbrev times : Objects ℕ
times = record { created_at = λ t. t }

abbrev head : {A : Type 0} → List A → Option A
head [] = none
head (e ∷ es) = some e

abbrev tail : {A : Type 0} → List A → List A
tail [] = []
tail (e ∷ es) = es

abbrev queue : RateLimiting (List (InformerEvent ℕ)) (InformerEvent ℕ)
queue = record {
  add = λ q e. q ++ e ∷ [];
  get = λ q. (tail q, head q);
  done = λ q e. q;
  forget = λ q e. q;
  add_rate_limited = λ q e. q ++ e ∷ [];
  num_requeues = λ q e. 0;
}

abbrev pods : Config
pods = record {
  api_version = "v1";
  kind = "Pod";
  namespace = "";
  events = [];
  matching_labels = none;
  clusters = [];
}

-- The filter keeps the object 12, and the action greets it.
abbrev greets : Rule ℕ ℕ
greets = record { filter = λ c. (c == 12, none); action = λ c. created (greet c) }

abbrev event : ℕ → InformerEvent ℕ
event n = record { kind = "update"; cluster = "local"; object = n }

run_worker-submit_example :
    (run_worker queue times
      (setup pods (handlers line context (greets ∷ [])))
      (10 ∷ 20 ∷ [])
      (event 12 ∷ event 13 ∷ [])
      (record { executor = executor; readings = 0 })).1.executor
    ≡ submit line executor (
        requested context
          (asked times pods)
          (greets ∷ [])
          (taken queue (10 ∷ 20 ∷ []) (event 12 ∷ event 13 ∷ []))
          0)
run_worker-submit_example =
    run_worker-submit line context queue times pods (greets ∷ []) (10 ∷ 20 ∷ [])
      (event 12 ∷ event 13 ∷ []) executor

one_greeting :
    requested context
      (asked times pods)
      (greets ∷ [])
      (taken queue (10 ∷ 20 ∷ []) (event 12 ∷ event 13 ∷ []))
      0
    ≡ greet 12 ∷ []
unfolding requested jobs_of job_of asked taken has String-discrete
one_greeting = refl
