-- ===== src/Source/Controller.antt =====
-- pkg/source/builtin/k8sresourcewatcher/controller/controller.go: the controller that turns the
-- events of an informer into calls of event handlers.
pub mod Delivery
pub mod Requeues
pub mod Start
pub mod Worker
use Prim.Native.String.{String}
use text.Mathlib.Text.{◌==◌}
use kube_trigger.Base.{
  ℕ, zero, suc, ◌≡◌, Bool, true, false, not, ◌&&◌, Option, none, some, List, [], ◌∷◌, ltb,
  if◌then◌else◌, length, has, ◌==◌ as nat_eq,
}
use kube_trigger.Base.Text.{String-discrete}
use kube_trigger.Workqueue.Items.{insert}
use kube_trigger.Source.Watcher.{Config, Labels}

-- `Event`, and `InformerEvent` with its object.
pub record InformerEvent (O : Type 0) : Type 0 where
  pub kind : String
  pub cluster : String
  pub object : O

-- What the controller reads of an object: the time of its creation, in seconds.
pub record Objects (O : Type 0) : Type 0 where
  pub created_at : O → ℕ

-- The calls of `workqueue.RateLimitingInterface`; `K` are the items.
pub record RateLimiting (Q K : Type 0) : Type 0 where
  pub add : Q → K → Q
  pub get : Q → Q × Option K
  pub done : Q → K → Q
  pub forget : Q → K → Q
  pub add_rate_limited : Q → K → Q
  pub num_requeues : Q → K → ℕ

-- `Controller`; the time of its start is a variable of the package, which `Run` of every controller
-- overwrites: what reads it has its value as an argument. `W` is the world that handlers change, and a handler tells whether it failed.
pub record Controller (W O : Type 0) : Type 0 where
  pub event_handlers : List (String → InformerEvent O → W → W × Bool)
  pub listen_events : List String
  pub controller_type : String

abbrev pub max_retries : ℕ
max_retries = 5

-- The three functions that `newResourceController` registers with the informer.
pub data Notice (O : Type 0) : Type 0 where
  on_add on_update on_delete : O → Notice O

unfoldable pub informer_event : {O : Type 0} → String → Notice O → InformerEvent O
informer_event cluster (on_add o) = record { kind = "create"; cluster = cluster; object = o }
informer_event cluster (on_update o) = record { kind = "update"; cluster = cluster; object = o }
informer_event cluster (on_delete o) = record { kind = "delete"; cluster = cluster; object = o }

module _ {Q O : Type 0} (ops : RateLimiting Q (InformerEvent O)) where
  unfoldable pub notify : Q → String → Notice O → Q
  notify q cluster n = ops.add q (informer_event cluster n)

  unfoldable pub settle : Q → InformerEvent O → Bool → Q
  settle q e failed =
      if failed
      then if ltb (ops.num_requeues q e) max_retries
        then ops.add_rate_limited q e
        else ops.forget q e
      else ops.forget q e

module _ {W O : Type 0} where
  -- `callEventHandler` logs the errors of the handlers and goes on.
  unfoldable pub call_handlers :
      String → InformerEvent O → List (String → InformerEvent O → W → W × Bool) → W → W
  call_handlers t e [] w = w
  call_handlers t e (f ∷ fs) w = call_handlers t e fs (f t e w).0

  unfoldable pub call_event_handler : Controller W O → InformerEvent O → W → W
  unfolding call_handlers
  call_event_handler c e w = call_handlers c.controller_type e c.event_handlers w

  -- `processItem`; the Boolean tells whether there is an error.
  unfoldable pub process_item : Objects O → ℕ → Controller W O → InformerEvent O → W → W × Bool
  process_item objects start_time c e w =
      if not (nat_eq (length c.listen_events) 0) && not (has String-discrete e.kind c.listen_events)
      then (w, false)
      else if e.kind == "create"
      then if ltb start_time (objects.created_at e.object)
        then (call_event_handler c e w, false)
        else (w, false)
      else (call_event_handler c e w, false)

  module _ {Q : Type 0} (ops : RateLimiting Q (InformerEvent O)) where
    -- `processNextItem`; the Boolean tells whether the worker goes on.
    unfoldable pub process_next_item : Objects O → ℕ → Controller W O → Q → W → Q × W × Bool
    process_next_item objects start_time c q w = elim (ops.get q).1 [
      | none ↦ ((ops.get q).0, w, false)
      | some e ↦
          let r = process_item objects start_time c e w in
          (ops.done (settle ops (ops.get q).0 e r.1) e, r.0, true)
    ]

    -- The first turns of `runWorker`, with the start time that each of them reads; the Boolean tells
    -- whether it goes on.
    unfoldable pub run_worker : Objects O → Controller W O → List ℕ → Q → W → Q × W × Bool
    run_worker objects c [] q w = (q, w, true)
    run_worker objects c (t ∷ ts) q w =
        let r = process_next_item objects t c q w in
        let rest = run_worker objects c ts r.0 r.1 in if r.2 then rest else r

-- The loop of `Setup` over the events of the configuration, into a map.
unfoldable pub listened : List String → List String → List String
listened acc [] = acc
listened acc (e ∷ es) = listened (insert String-discrete e acc) es

-- `Setup`.
unfoldable pub setup :
    {W O : Type 0} → Config → List (String → InformerEvent O → W → W × Bool) → Controller W O
unfolding listened
setup conf eh = record {
  event_handlers = eh;
  listen_events = listened [] conf.events;
  controller_type = "resource-watcher";
}

-- The label selector of the informer's calls; `format_labels` is that of apimachinery.
unfoldable pub label_selector : (Labels → String) → Config → Option String
label_selector format_labels conf = elim conf.matching_labels [
  | none ↦ none
  | some ls ↦ if nat_eq (length ls) 0 then none else some (format_labels ls)
]
