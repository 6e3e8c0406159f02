-- ===== src/Executor/Adding.antt =====
-- Callers of `AddJob` of pkg/executor/executor.go side by side: each tests the length of the queue, and
-- adds its job later.
use kube_trigger.Base.{ℕ, ◌+◌, ◌<◌, ◌≡◌, true, List, ◌∷◌, ◌++◌, length}
use kube_trigger.Base.Int.{pos}
use kube_trigger.Executor.{Executor, JobQueue, has_room, push_job}

-- `pending` are the jobs of the callers that found room and have not added their job.
pub record Callers (Q J I : Type 0) : Type 0 where
  pub executor : Executor Q I
  pub pending : List J

module _ {Q J I : Type 0} (ops : JobQueue Q J) where
  -- With so many callers at most. A caller that finds no room returns and changes nothing.
  pub data Step (callers : ℕ) (w v : Callers Q J I) : Type 0 where
    tests :
        (j : J)
        → length w.pending < callers
        → has_room ops w.executor ≡ true
        → v ≡ record w { pending = j ∷ w.pending }
        → Step callers w v
    adds :
        (before after : List J) (j : J)
        → w.pending ≡ before ++ j ∷ after
        → v ≡ record { executor = push_job ops w.executor j; pending = before ++ after }
        → Step callers w v
    -- A worker takes a job.
    takes :
        v ≡ record w { executor = record w.executor { queue = (ops.get w.executor.queue).0 } }
        → Step callers w v

  pub data Reach (callers : ℕ) (w : Callers Q J I) : Callers Q J I → Type 0 where
    here : Reach callers w w
    next : {u v : Callers Q J I} → Reach callers w u → Step callers u v → Reach callers w v

  -- The jobs in the queue and those that are still to be added.
  abbrev size : Callers Q J I → ℕ
  size w = ops.len w.executor.queue + length w.pending

  abbrev Fits : ℕ → ℕ → Callers Q J I → Type 0
  Fits callers limit w = (w.executor.max_queue_size ≡ pos limit) × (size w < limit + callers)
