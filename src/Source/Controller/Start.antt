-- ===== src/Source/Controller/Start.antt =====
-- `Run` of pkg/source/builtin/k8sresourcewatcher/controller/controller.go, and the time at which the
-- controllers say that they started, a variable of the package.
use kube_trigger.Base.{
  ℕ, ◌≡◌, ◌<◌, ◌≤◌, Bool, true, false, not, Option, none, some, List, [], ◌∷◌, arith, if◌then◌else◌,
  has,
}
use kube_trigger.Base.Text.{String-discrete}
use Prim.Native.String.{String}
use kube_trigger.Source.Controller.{
  InformerEvent, Objects, RateLimiting, Controller, on_add, informer_event, process_item,
  call_event_handler, run_worker,
}

-- The start times that successive turns read, from the one of before and, for each turn, what `Run` of
-- another controller has written to the variable since the turn before it, if it has.
unfoldable pub readings : ℕ → List (Option ℕ) → List ℕ
readings t [] = []
readings t (none ∷ os) = t ∷ readings t os
readings t (some u ∷ os) = u ∷ readings u os

-- The value after all of them.
unfoldable pub last_reading : ℕ → List (Option ℕ) → ℕ
last_reading t [] = t
last_reading t (none ∷ os) = last_reading t os
last_reading t (some u ∷ os) = last_reading u os

module _ {W O : Type 0} where
  module _ {Q : Type 0} (ops : RateLimiting Q (InformerEvent O)) (shut_down : Q → Q) where
    -- `wait.Until` calls `runWorker` until the controller is stopped; each call is given by what is
    -- written to the start time before each of its turns.
    unfoldable pub until_stopped :
        Objects O → Controller W O → ℕ → List (List (Option ℕ)) → Q → W → Q × W
    unfolding readings last_reading
    until_stopped objects c t [] q w = (q, w)
    until_stopped objects c t (os ∷ calls) q w =
        let r = run_worker ops objects c (readings t os) q w in
        until_stopped objects c (last_reading t os) calls r.0 r.1

    -- `Run` at a time, which it writes to the start time; `synced` is what `WaitForCacheSync` says. The
    -- queue is shut down at the end.
    unfoldable pub run :
        Objects O → Controller W O → ℕ → Bool → List (List (Option ℕ)) → Q → W → Q × W
    unfolding until_stopped
    run objects c now synced calls q w =
        if not synced
        then (shut_down q, w)
        else let r = until_stopped objects c now calls q w in (shut_down r.0, r.1)

  -- A controller that listens to creations calls its handlers for an object created after its start.
  -- Once another controller is run, at the time of the creation or later, the first one takes the
  -- object for an old one, and calls no handler for it.
  pub process_item-restarted :
      (objects : Objects O) (c : Controller W O) (cluster : String) (o : O) (started now : ℕ)
      (w : W)
      → has String-discrete "create" c.listen_events ≡ true
      → started < objects.created_at o
      → objects.created_at o ≤ now
      → (process_item objects started c (informer_event cluster (on_add o)) w
          ≡ (call_event_handler c (informer_event cluster (on_add o)) w, false))
        × (process_item objects now c (informer_event cluster (on_add o)) w ≡ (w, false))
  unfolding process_item informer_event
  process_item-restarted objects c cluster o started now w listens after before =
      (ground arith, ground arith)
