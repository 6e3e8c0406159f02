-- ===== src/Executor.antt =====
-- pkg/executor/executor.go: a queue of jobs with concurrent workers, retries and a limit on its size.
pub mod Adding
pub mod Race
mod Tests
pub mod Retries
use kube_trigger.Base.{
  ℕ, ◌+◌, ◌*◌, ◌≤◌, ◌≡◌, Bool, true, false, not, ◌&&◌, ◌||◌, Option, none, some, List, [], ◌∷◌, ite,
  ltb, leb, ◌==◌, if◌then◌else◌, has,
}
use kube_trigger.Base.Int.{ℤ, pos, ltb_ℤ, eqb_ℤ, wrap64, ◌*ℤ◌}
use kube_trigger.Workqueue.Items.{insert, delete}

-- The interface `Job`; `is_nil` is the test of an interface value against nil.
pub record Jobs (J I : Type 0) : Type 0 where
  pub id : J → I
  pub allow_concurrency : J → Bool
  pub is_nil : J → Bool

-- The calls of `workqueue.TypedRateLimitingInterface` of k8s.io/client-go, with what its
-- documentation says of the number of requeues and of the length.
pub record JobQueue (Q J : Type 0) : Type 0 where
  pub len : Q → ℕ
  pub add : Q → J → Q
  pub add_rate_limited : Q → J → Q
  pub forget : Q → J → Q
  pub num_requeues : Q → J → ℕ
  pub get : Q → Q × Option J
  pub done : Q → J → Q
  pub len-add : (q : Q) (j : J) → len (add q j) ≤ len q + 1
  pub len-get : (q : Q) → len (get q).0 ≤ len q
  pub requeues-add : (q : Q) (j k : J) → num_requeues (add q j) k ≡ num_requeues q k
  pub requeues-get : (q : Q) (k : J) → num_requeues (get q).0 k ≡ num_requeues q k
  pub requeues-done : (q : Q) (j k : J) → num_requeues (done q j) k ≡ num_requeues q k
  pub requeues-forget : (q : Q) (j : J) → num_requeues (forget q j) j ≡ 0
  pub requeues-forget_ne :
      (q : Q) (j k : J) → ¬ (k ≡ j) → num_requeues (forget q j) k ≡ num_requeues q k
  pub requeues-limited :
      (q : Q) (j : J) → num_requeues (add_rate_limited q j) j ≡ num_requeues q j + 1
  pub requeues-limited_ne :
      (q : Q) (j k : J) → ¬ (k ≡ j) → num_requeues (add_rate_limited q j) k ≡ num_requeues q k

-- `Config`; the durations are in nanoseconds. `New` compares the integers with zero alone, so that they
-- may be negative.
pub record Config : Type 0 where
  pub queue_size : ℤ
  pub workers : ℤ
  pub max_job_retries : ℤ
  pub base_retry_delay : ℤ
  pub retry_job_after_failure : Bool
  pub per_worker_qps : ℤ
  pub timeout : ℤ

-- The struct `Executor`; `running_jobs` are the keys of the map of that name.
pub record Executor (Q I : Type 0) : Type 0 where
  pub workers : ℤ
  pub max_queue_size : ℤ
  pub max_retries : ℤ
  pub allow_retries : Bool
  pub timeout : ℤ
  pub running_jobs : List I
  pub queue : Q

-- `maxRetryDelay`: 1200 seconds.
abbrev pub max_retry_delay : ℤ
max_retry_delay = pos 1_200_000_000_000

-- `new_queue` makes the queue from the base and the greatest delay, the overall rate and the burst.
unfoldable pub new : {Q I : Type 0} → (ℤ → ℤ → ℤ → ℤ → Q) → Config → Option (Executor Q I)
new new_queue c =
    if eqb_ℤ c.queue_size (pos 0)
      || eqb_ℤ c.workers (pos 0)
      || eqb_ℤ c.base_retry_delay (pos 0)
      || eqb_ℤ c.timeout (pos 0)
      || eqb_ℤ c.per_worker_qps (pos 0)
    then none
    else some (record {
      workers = c.workers;
      max_queue_size = c.queue_size;
      max_retries = c.max_job_retries;
      allow_retries = c.retry_job_after_failure;
      timeout = c.timeout;
      running_jobs = [];
      queue =
          new_queue c.base_retry_delay max_retry_delay (wrap64 (c.workers *ℤ c.per_worker_qps))
            c.queue_size;
    })

-- The error of a context, if it has one.
pub data CtxErr : Type 0 where
  active canceled deadline_exceeded : CtxErr

module _ {Q J I : Type 0} (dec : Discrete I) (jobs : Jobs J I) where
  unfoldable pub set_job_status : Executor Q I → J → Bool → Executor Q I
  set_job_status e j status =
      if status
      then record e { running_jobs = insert dec (jobs.id j) e.running_jobs }
      else record e { running_jobs = delete dec (jobs.id j) e.running_jobs }

  unfoldable pub set_job_running : Executor Q I → J → Executor Q I
  unfolding set_job_status
  set_job_running e j = set_job_status e j true

  unfoldable pub set_job_finished : Executor Q I → J → Executor Q I
  unfolding set_job_status
  set_job_finished e j = set_job_status e j false

  unfoldable pub get_job_status : Executor Q I → J → Bool
  get_job_status e j = has dec (jobs.id j) e.running_jobs

  unfoldable pub start : Executor Q I → J → Executor Q I
  unfolding set_job_running
  start e j = set_job_running e j

module _ {Q J I : Type 0} (ops : JobQueue Q J) where
  unfoldable pub requeue_job : Executor Q I → J → Executor Q I
  requeue_job e j =
      if ltb_ℤ (pos (ops.num_requeues e.queue j)) e.max_retries
      then record e { queue = ops.add_rate_limited e.queue j }
      else record e { queue = ops.forget e.queue j }

  -- `AddJob` tests the length of the queue and adds the job under two locks.
  unfoldable pub has_room : Executor Q I → Bool
  has_room e = ltb_ℤ (pos (ops.len e.queue)) e.max_queue_size

  unfoldable pub push_job : Executor Q I → J → Executor Q I
  push_job e j = record e { queue = ops.add e.queue j }

  -- `AddJob` when nothing happens to the queue between the two; the Boolean tells whether there is no
  -- error.
  unfoldable pub add_job : Executor Q I → J → Executor Q I × Bool
  unfolding has_room push_job
  add_job e j = if not (has_room e) then (e, false) else (push_job e j, true)

  -- After `Run`: whether it failed, and the error of the context with the timeout. The Boolean is
  -- the result of `runJob`, whether the worker goes on.
  unfoldable pub conclude : Executor Q I → J → Bool → CtxErr → Executor Q I × Bool
  conclude e j failed canceled = (e, false)
  conclude e j false active = (record e { queue = ops.forget e.queue j }, true)
  conclude e j true active = (if e.allow_retries then requeue_job e j else e, true)
  conclude e j failed deadline_exceeded = (if e.allow_retries then requeue_job e j else e, true)

-- `runJob` lets go of the worker between the test of the job's status, the mark and the end of the
-- run; these are its parts. What `pick` comes to:
pub data Picked (J : Type 0) : Type 0 where
  exits : Picked J
  skips : Picked J
  checked : J → Picked J

module _ {Q J I : Type 0} (dec : Discrete I) (jobs : Jobs J I) (ops : JobQueue Q J) where
  -- The test for a run of the same job, and the requeueing with the deferred `Done`.
  unfoldable pub check : Executor Q I → J → Executor Q I × Picked J
  check e j =
      if jobs.is_nil j
      then (record e { queue = ops.done e.queue j }, skips)
      else if not (jobs.allow_concurrency j) && get_job_status dec jobs e j
      then (record e { queue = ops.done (requeue_job ops e j).queue j }, skips)
      else (e, checked j)

  unfoldable pub pick : Executor Q I → CtxErr → Executor Q I × Picked J
  pick e active = elim (ops.get e.queue).1 [
    | none ↦ (record e { queue = (ops.get e.queue).0 }, exits)
    | some j ↦ check (record e { queue = (ops.get e.queue).0 }) j
  ]
  pick e canceled = (e, exits)
  pick e deadline_exceeded = (e, exits)

  -- With the deferred `Done`.
  unfoldable pub finish : Executor Q I → J → Bool → CtxErr → Executor Q I × Bool
  unfolding conclude set_job_finished
  finish e j failed ctx =
      let r = conclude ops (set_job_finished dec jobs e j) j failed ctx in
      (record r.0 { queue = ops.done (r.0).queue j }, r.1)
