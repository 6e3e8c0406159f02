-- ===== src/Workqueue/DelayingQueue.antt =====
-- pkg/workqueue/delaying_queue.go: a queue that takes items after a delay, over an inner queue.
pub mod Channel
pub mod Early
pub mod Handed
pub mod Kept
mod Tests
use kube_trigger.Base.{
  ℕ, suc, ◌+◌, ◌≡◌, Bool, true, false, Option, none, some, List, [], ◌∷◌, ◌++◌, ltb, if◌then◌else◌,
  length,
}
use kube_trigger.Base.Int.{ℤ, pos, negsuc, ltb_ℤ}
use kube_trigger.Workqueue.Queue.{Queue, Metrics}
use kube_trigger.Workqueue.Queue
use kube_trigger.Workqueue.Metrics.{retry, new_retry_metrics}
use kube_trigger.Workqueue.Indexer.{Pending, nothing, send, channel_cap, add_duration}
use kube_trigger.Workqueue.PriorityQueue.{Waiting}
use kube_trigger.Workqueue.WaitingLoop.{Host}

-- The interface `Interface`: `I` is the inner queue.
pub record Inner (I K : Type 0) : Type 0 where
  pub add : I → K → I
  pub len : I → ℕ
  pub shut_down : I → I
  pub shutting_down : I → Bool

-- `Type` implements it.
unfoldable pub of_queue : {M K : Type 0} → Discrete K → Metrics M K → Inner (Queue M K) K
of_queue dec ops = record {
  add = λ q x. (Queue.add dec ops q x).0;
  len = Queue.length_of;
  shut_down = λ q. (Queue.shut_down q).0;
  shutting_down = Queue.shutting_down;
}

-- `delayingType`: `stopped` tells whether `stopOnce` has run, so that `stopCh` is closed; `retries` is
-- the counter of `retryMetrics`. The heap belongs to the waiting loop.
pub record DelayingQueue (I K : Type 0) : Type 0 where
  pub inner : I
  pub stopped : Bool
  pub waiting_for_add : List (K × ℕ)
  pub retries : Option ℕ

-- `newDelayingQueue`: the Boolean says whether the name is empty.
unfoldable pub new_delaying_queue : {I K : Type 0} → Bool → I → DelayingQueue I K
new_delaying_queue unnamed q = record {
  inner = q;
  stopped = false;
  waiting_for_add = [];
  retries = new_retry_metrics unnamed;
}

module _ {I K : Type 0} (ops : Inner I K) where
  -- `Len` of the queue and the heap of its loop.
  unfoldable pub length_of : DelayingQueue I K → Waiting K → ℕ
  length_of q w = length q.waiting_for_add + w.queue.size + ops.len q.inner

  unfoldable pub shut_down : DelayingQueue I K → DelayingQueue I K
  shut_down q = if q.stopped then q else record q { inner = ops.shut_down q.inner; stopped = true }

  -- `AddAfter` up to its `select`, at the time that its call of the clock gives.
  unfoldable pub add_after : DelayingQueue I K → K → ℤ → ℕ → DelayingQueue I K × Pending K
  add_after q x duration now =
      if ops.shutting_down q.inner
      then (q, nothing)
      else if ltb_ℤ (pos 0) duration
      then (record q { retries = retry q.retries }, send x (add_duration now duration))
      else (record q { retries = retry q.retries; inner = ops.add q.inner x }, nothing)

  -- The `select` of `AddAfter`: either case that can go on may be taken.
  pub data Sends (q : DelayingQueue I K) (x : K) (t : ℕ) (r : DelayingQueue I K) : Type 0 where
    stops : q.stopped ≡ true → r ≡ q → Sends q x t r
    queues :
        ltb (length q.waiting_for_add) channel_cap ≡ true
        → r ≡ record q { waiting_for_add = q.waiting_for_add ++ (x, t) ∷ [] }
        → Sends q x t r

  -- What the waiting loop uses.
  unfoldable pub loop_host : Host (DelayingQueue I K) K
  loop_host = record {
    is_down = λ q. ops.shutting_down q.inner;
    is_stopped = λ q. q.stopped;
    channel = λ q. q.waiting_for_add;
    set_channel = λ c q. record q { waiting_for_add = c };
    hand = λ q x now. record q { inner = ops.add q.inner x };
  }
