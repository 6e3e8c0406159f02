-- ===== src/EventHandler.antt =====
-- pkg/eventhandler/event_handler.go: what happens with an event that a source raises.
pub mod Laws
pub mod Tests
use Prim.Native.String.{String}
use kube_trigger.Base.{
  ℕ, ◌≡◌, refl, Bool, true, false, ◌⊎◌, inl, inr, Option, none, some, List, [], ◌∷◌, arith,
  if◌then◌else◌, Option-cases, Bool-cases,
}
use kube_trigger.Executor.{Executor, JobQueue, add_job}
use kube_trigger.Action.{Job, ActionMeta, ActionError, Created, created, failed}
use kube_trigger.Filter.{FilterError}

-- A handler gets an event, changes the world, and may return an error.
abbrev pub Handler : Type 0 → Type 0 → Type 0 → Type 0
Handler W A E = A → W → W × Option E

unfoldable pub chain : {W E : Type 0} → W × Option E → (W → W × Option E) → W × Option E
chain (w, some e) next = (w, some e)
chain (w, none) next = next w

module _ {W A E : Type 0} where
  unfoldable pub new : Handler W A E
  new a w = (w, none)

  unfoldable pub add_handler_before : Handler W A E → Handler W A E → Handler W A E
  unfolding chain
  add_handler_before e eh a w = chain (eh a w) (e a)

  unfoldable pub add_handler_after : Handler W A E → Handler W A E → Handler W A E
  unfolding chain
  add_handler_after e eh a w = chain (e a w) (eh a)

pub data HandlerError : Type 0 where
  filtered_out : HandlerError
  bad_action : ActionError → HandlerError
  queue_full : HandlerError

-- The data of an event, as the filter and the action see it: `C`; the filter's and the action's
-- outcome on it are given, the executor is the world.
module _ {Q P C I : Type 0} (ops : JobQueue Q (Job P C)) where
  unfoldable pub run_action : Created (Job P C) → Executor Q I → Executor Q I × Option HandlerError
  run_action (failed e) x = (x, some (bad_action e))
  run_action (created j) x = let r = add_job ops x j in (r.0, if r.1 then none else some queue_full)

  -- `NewFromConfig`; an error of the filter is logged, and its Boolean decides.
  unfoldable pub new_from_config :
      (C → Bool × Option FilterError)
      → (C → Created (Job P C))
      → Handler (Executor Q I) C HandlerError
  new_from_config filter action c x =
      if (filter c).0 then run_action (action c) x else (x, some filtered_out)
