-- ===== src/Pipeline.antt =====
-- From an event of a watched resource to the jobs of the executor: the worker of
-- pkg/source/builtin/k8sresourcewatcher/controller/controller.go with the handlers that
-- pkg/eventhandler/event_handler.go makes for the triggers, over pkg/executor/executor.go.
mod Tests
use Prim.Native.String.{String}
use kube_trigger.Base.{
  ℕ, zero, suc, ◌+◌, ◌≡◌, refl, sym, ap, ◌∙◌, Bool, true, false, Bool-cases, Option, none, some,
  inl, inr, List, [], ◌∷◌, ◌++◌, arith, if◌then◌else◌, length,
}
use mathlib.Core.List.{append_assoc}
use kube_trigger.Executor.{Executor, JobQueue, add_job}
use kube_trigger.Action.{Job, Created, created, failed}
use kube_trigger.Filter.{FilterError}
use kube_trigger.EventHandler.{HandlerError, new_from_config, run_action}
use kube_trigger.Source.Watcher.{Config}
use kube_trigger.Source.Controller.{
  InformerEvent, Objects, RateLimiting, Controller, call_handlers, call_event_handler, run_worker,
  setup,
}
use kube_trigger.Source.Controller.Worker.{asked, taken, delivered, run_worker-asked}

-- What a trigger makes of the data of an event: whether its filter keeps it, and the job of its action.
pub record Rule (P C : Type 0) : Type 0 where
  pub filter : C → Bool × Option FilterError
  pub action : C → Created (Job P C)

-- The executor, and how often the clock was read for the timestamp of an event's data.
pub record Running (Q I : Type 0) : Type 0 where
  pub executor : Executor Q I
  pub readings : ℕ

abbrev is_error : {E : Type 0} → Option E → Bool
is_error none = false
is_error (some e) = true

abbrev created_job : {P C : Type 0} → Created (Job P C) → List (Job P C)
created_job (created j) = j ∷ []
created_job (failed e) = []

-- The job of a trigger for an event, if its filter keeps the event.
unfoldable pub job_of : {P C : Type 0} → Rule P C → C → List (Job P C)
job_of r c = if (r.filter c).0 then created_job (r.action c) else []

-- `context` is the map that the handler builds: from the type of the source, the event with its object,
-- and the reading of the clock.
module _ {P C O : Type 0} (context : String → InformerEvent O → ℕ → C) where
  -- The jobs of all triggers for an event, in their order; each reads the clock once.
  unfoldable pub jobs_of : List (Rule P C) → String → InformerEvent O → ℕ → List (Job P C)
  unfolding job_of
  jobs_of [] source e n = []
  jobs_of (r ∷ rs) source e n = job_of r (context source e n) ++ jobs_of rs source e (suc n)

  -- The jobs for the events that are asked for, each given with the start time that is read for it.
  unfoldable pub requested :
      (ℕ → InformerEvent O → Bool)
      → List (Rule P C)
      → List (ℕ × InformerEvent O)
      → ℕ
      → List (Job P C)
  requested p rs [] n = []
  requested p rs ((t, e) ∷ es) n =
      if p t e
      then jobs_of rs "resource-watcher" e n ++ requested p rs es (length rs + n)
      else requested p rs es n

module _ {Q P C I : Type 0} (ops : JobQueue Q (Job P C)) where
  -- The specification: calls of `AddJob`, one after another, whatever they return.
  unfoldable pub submit : Executor Q I → List (Job P C) → Executor Q I
  submit x [] = x
  submit x (j ∷ js) = submit (add_job ops x j).0 js

  submit-append :
      (x : Executor Q I) (js ks : List (Job P C)) → submit x (js ++ ks) ≡ submit (submit x js) ks
  unfolding submit
  submit-append x [] ks = refl
  submit-append x (j ∷ js) ks = submit-append (add_job ops x j).0 js ks

  run_action-submit :
      (r : Created (Job P C)) (x : Executor Q I) → (run_action ops r x).0 ≡ submit x (created_job r)
  unfolding run_action submit
  run_action-submit (failed e) x = refl
  run_action-submit (created j) x = refl

module _ {Q P C I O : Type 0} (ops : JobQueue Q (Job P C))
    (context : String → InformerEvent O → ℕ → C) where
  -- The function that `NewFromConfig` returns for a trigger.
  unfoldable pub handler : Rule P C → String → InformerEvent O → Running Q I → Running Q I × Bool
  handler r source e w =
      let x = new_from_config ops r.filter r.action (context source e w.readings) w.executor in
      (record { executor = x.0; readings = suc w.readings }, is_error x.1)

  unfoldable pub handlers :
      List (Rule P C) → List (String → InformerEvent O → Running Q I → Running Q I × Bool)
  unfolding handler
  handlers [] = []
  handlers (r ∷ rs) = handler r ∷ handlers rs

  new_from_config-submit :
      (r : Rule P C) (c : C) (x : Executor Q I)
      → (new_from_config ops r.filter r.action c x).0 ≡ submit ops x (job_of r c)
  unfolding new_from_config job_of submit
  new_from_config-submit r c x = elim (Bool-cases (r.filter c).0) [
    | inl kept ↦ rw (kept) (run_action-submit ops (r.action c) x)
    | inr dropped ↦ rw (dropped) refl
  ]

  abbrev Runs : Running Q I → Executor Q I → ℕ → Type 0
  Runs w x n = (w.executor ≡ x) × (w.readings ≡ n)

  call_handlers-submit :
      (source : String) (e : InformerEvent O) (rs : List (Rule P C)) (w : Running Q I)
      → Runs
          (call_handlers source e (handlers rs) w)
          (submit ops w.executor (jobs_of context rs source e w.readings))
          (length rs + w.readings)
  unfolding call_handlers handlers jobs_of submit handler
  call_handlers-submit source e [] w = (refl, omega arith)
  call_handlers-submit source e (r ∷ rs) w =
      let v = (handler r source e w).0 in
      let (jobs, reads) = call_handlers-submit source e rs v in
      let rest = jobs_of context rs source e (suc w.readings) in
      (
        jobs
            ∙ ap (λ x. submit ops x rest)
                (new_from_config-submit r (context source e w.readings) w.executor)
            ∙ sym (submit-append ops w.executor (job_of r (context source e w.readings)) rest),
        omega (arith, reads),
      )

  delivered-submit :
      (p : ℕ → InformerEvent O → Bool) (conf : Config) (rs : List (Rule P C))
      (es : List (ℕ × InformerEvent O)) (w : Running Q I)
      → (delivered p (setup conf (handlers rs)) es w).executor
        ≡ submit ops w.executor (requested context p rs es w.readings)
  unfolding delivered requested submit setup call_event_handler
  delivered-submit p conf rs [] w = refl
  delivered-submit p conf rs ((t, e) ∷ es) w = elim (Bool-cases (p t e)) [
    | inl yes_ ↦
        let v = call_handlers "resource-watcher" e (handlers rs) w in
        let (jobs, reads) = call_handlers-submit "resource-watcher" e rs w in
        let now = jobs_of context rs "resource-watcher" e w.readings in
        rw (yes_, delivered)
          (delivered-submit p conf rs es v
            ∙ ap (λ x. submit ops x (requested context p rs es v.readings)) jobs
            ∙ ap (λ n. submit ops (submit ops w.executor now) (requested context p rs es n)) reads
            ∙ sym (
                submit-append ops w.executor now
                  (requested context p rs es (length rs + w.readings))))
    | inr no_ ↦ rw (no_, delivered) (delivered-submit p conf rs es w)
  ]

  -- The jobs that a watched resource leads to: after any number of turns of the worker of a controller,
  -- whatever start time each turn reads, the executor is the one in which `AddJob` was called, in order,
  -- for the jobs of all triggers for the events handed out by the queue that are of a type that the
  -- configuration names, or of any type if it names none, but for creations that are not after the start
  -- time that their turn reads: for each event and trigger one job, if the trigger's filter keeps the
  -- event and its action makes a job, and none otherwise. Nobody else uses queue and executor meanwhile.
  pub run_worker-submit :
      {D : Type 0} (rl : RateLimiting D (InformerEvent O)) (objects : Objects O) (conf : Config)
      (rs : List (Rule P C)) (ts : List ℕ) (q : D) (x : Executor Q I)
      → (run_worker rl objects
          (setup conf (handlers rs))
          ts
          q
          (record { executor = x; readings = 0 })).1.executor
        ≡ submit ops x (requested context (asked objects conf) rs (taken rl ts q) 0)
  run_worker-submit rl objects conf rs ts q x =
      ap (λ w. w.executor)
        (run_worker-asked objects rl conf (handlers rs) ts q
          (record { executor = x; readings = 0 }))
      ∙ delivered-submit (asked objects conf) conf rs (taken rl ts q)
          (record { executor = x; readings = 0 })
