-- ===== src/Workqueue/Queue.antt =====
-- pkg/workqueue/queue.go: the queue `Type`, which keeps an item from being queued twice and from
-- being processed by two workers at once.
pub mod Run
pub mod Wakeup
pub mod Drain
pub mod Invariant
pub mod Status
use kube_trigger.Base.{
  ℕ, Bool, true, false, not, ◌&&◌, List, [], ◌∷◌, ◌++◌, if◌then◌else◌, length, has, ◌==◌,
}
use kube_trigger.Workqueue.Items.{insert, delete}

-- The interface `queueMetrics`, which the queue calls under its lock.
pub record Metrics (M K : Type 0) : Type 0 where
  pub on_add : M → K → M
  pub on_get : M → K → M
  pub on_done : M → K → M
  pub update_unfinished_work : M → M

-- The struct `Type`; the lock and the condition variable are modelled in the child `Wakeup`.
pub record Queue (M K : Type 0) : Type 0 where
  pub items : List K
  pub dirty : List K
  pub processing : List K
  pub shutting_down : Bool
  pub drain : Bool
  pub metrics : M

-- What a call of `Get` comes to when it holds the lock.
pub data Got (K : Type 0) : Type 0 where
  wait : Got K
  closed : Got K
  item : K → Got K

-- What an operation does to the condition variable.
pub data Notify : Type 0 where
  silent signal broadcast : Notify

abbrev pub Effect : Type 0 → Type 0 → Type 0
Effect M K = Queue M K × Notify

unfoldable pub new_queue : {M K : Type 0} → M → Queue M K
new_queue m = record {
  items = [];
  dirty = [];
  processing = [];
  shutting_down = false;
  drain = false;
  metrics = m;
}

module _ {M K : Type 0} (dec : Discrete K) (ops : Metrics M K) where
  unfoldable pub add : Queue M K → K → Effect M K
  add q x =
      if q.shutting_down
      then (q, silent)
      else if has dec x q.dirty
      then (q, silent)
      else if has dec x q.processing
      then (record q { dirty = insert dec x q.dirty; metrics = ops.on_add q.metrics x }, silent)
      else (
        record q {
          items = q.items ++ x ∷ [];
          dirty = insert dec x q.dirty;
          metrics = ops.on_add q.metrics x;
        },
        signal,
      )

  unfoldable pub take_head : Queue M K → List K → Queue M K × Got K
  take_head q [] = (q, if q.shutting_down then closed else wait)
  take_head q (x ∷ rest) = (
    record q {
      items = rest;
      dirty = delete dec x q.dirty;
      processing = insert dec x q.processing;
      metrics = ops.on_get q.metrics x;
    },
    item x,
  )

  -- One round of the loop of `Get`.
  unfoldable pub get : Queue M K → Queue M K × Got K
  unfolding take_head
  get q = take_head q q.items

  unfoldable pub done : Queue M K → K → Effect M K
  done q x =
      if has dec x q.dirty
      then (
        record q {
          items = q.items ++ x ∷ [];
          processing = delete dec x q.processing;
          metrics = ops.on_done q.metrics x;
        },
        signal,
      )
      else (
        record q { processing = delete dec x q.processing; metrics = ops.on_done q.metrics x },
        if length (delete dec x q.processing) == 0 then signal else silent,
      )

module _ {M K : Type 0} where
  unfoldable pub length_of : Queue M K → ℕ
  length_of q = length q.items

  unfoldable pub is_processing : Queue M K → Bool
  is_processing q = not (length q.processing == 0)

  unfoldable pub set_drain : Queue M K → Bool → Queue M K
  set_drain q b = record q { drain = b }

  unfoldable pub should_drain : Queue M K → Bool
  should_drain q = q.drain

  unfoldable pub shutdown : Queue M K → Effect M K
  shutdown q = (record q { shutting_down = true }, broadcast)

  unfoldable pub shutting_down : Queue M K → Bool
  shutting_down q = q.shutting_down

  unfoldable pub shut_down : Queue M K → Effect M K
  unfolding shutdown set_drain
  shut_down q = shutdown (set_drain q false)

  -- The part of `ShutDownWithDrain` before its loop, and the test of the loop.
  unfoldable pub start_drain : Queue M K → Effect M K
  unfolding shutdown set_drain
  start_drain q = shutdown (set_drain q true)

  unfoldable pub must_drain : Queue M K → Bool
  unfolding is_processing should_drain
  must_drain q = is_processing q && should_drain q

  -- One tick of `updateUnfinishedWorkLoop`; the Boolean tells whether the loop goes on.
  unfoldable pub update_unfinished_work_tick : Metrics M K → Queue M K → Queue M K × Bool
  update_unfinished_work_tick ops q =
      if q.shutting_down
      then (q, false)
      else (record q { metrics = ops.update_unfinished_work q.metrics }, true)
