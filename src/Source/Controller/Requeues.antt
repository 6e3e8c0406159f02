-- ===== src/Source/Controller/Requeues.antt =====
-- The controller of pkg/source/builtin/k8sresourcewatcher/controller/controller.go on the queue of
-- pkg/workqueue/rate_limiting_queue.go.
use kube_trigger.Base.{ℕ, ◌≡◌, ap, ◌∙◌, some, ite}
use kube_trigger.Base.Int.{ℤ}
use kube_trigger.Workqueue.RateLimiter.Counting.{num_requeues-forget}
use kube_trigger.Workqueue.RateLimitingQueue.{
  Delaying, RateLimitingQueue, add_rate_limited, num_requeues, forget,
}
use kube_trigger.Source.Controller.{
  InformerEvent, Objects, RateLimiting, Controller, process_next_item,
}
use kube_trigger.Source.Controller.Delivery.{process_next_item-wanted}

-- The methods of `rateLimitingType`, those of the delaying queue that it embeds included.
abbrev pub on_delaying :
    {D B K : Type 0} → (D → D) → RateLimitingQueue D B K → RateLimitingQueue D B K
on_delaying f q = record q { delaying = f q.delaying }

module _ {D B K : Type 0} (dec : Discrete K) (ops : Delaying D K) (reserve : B → B × ℤ)
    (convert : ℕ → ℤ) where
  abbrev pub rate_limiting : RateLimiting (RateLimitingQueue D B K) K
  rate_limiting = record {
    add = λ q x. on_delaying (λ d. ops.add d x) q;
    get = λ q. (on_delaying (λ d. (ops.get d).0) q, (ops.get q.delaying).1);
    done = λ q x. on_delaying (λ d. ops.done d x) q;
    forget = forget dec;
    add_rate_limited = add_rate_limited dec ops reserve convert;
    num_requeues = num_requeues dec;
  }

module _ {D B W O : Type 0} (dec : Discrete (InformerEvent O)) (ops : Delaying D (InformerEvent O))
    (reserve : B → B × ℤ) (convert : ℕ → ℤ) where
  -- When a worker has dealt with an event, the rate limiter has no failure of that event on record,
  -- whatever the handlers returned, and as many of every other event as before.
  pub process_next_item-requeues :
      (objects : Objects O) (start_time : ℕ) (c : Controller W O)
      (q : RateLimitingQueue D B (InformerEvent O)) (w : W) (e y : InformerEvent O)
      → (ops.get q.delaying).1 ≡ some e
      → num_requeues dec
          (process_next_item (rate_limiting dec ops reserve convert) objects start_time c q w).0
          y
        ≡ ite (dec y e) 0 (num_requeues dec q y)
  unfolding num_requeues forget
  process_next_item-requeues objects start_time c q w e y got =
      ap (λ r. num_requeues dec r.0 y)
        (process_next_item-wanted objects start_time c (rate_limiting dec ops reserve convert) q w e
          got)
      ∙ num_requeues-forget dec q.limiter e y
