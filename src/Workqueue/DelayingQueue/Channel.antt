-- ===== src/Workqueue/DelayingQueue/Channel.antt =====
-- The channel to the waiting loop of pkg/workqueue/delaying_queue.go, under the calls that do not send.
use kube_trigger.Base.{ℕ, ◌≡◌, arith}
use kube_trigger.Base.Int.{ℤ}
use kube_trigger.Workqueue.DelayingQueue.{Inner, DelayingQueue, add_after, shut_down}

module _ {I K : Type 0} (ops : Inner I K) where
  pub add_after-channel :
      (q : DelayingQueue I K) (x : K) (d : ℤ) (now : ℕ)
      → (add_after ops q x d now).0.waiting_for_add ≡ q.waiting_for_add
  unfolding add_after
  add_after-channel q x d now = ground arith

  pub shut_down-channel :
      (q : DelayingQueue I K) → (shut_down ops q).waiting_for_add ≡ q.waiting_for_add
  unfolding shut_down
  shut_down-channel q = ground arith
