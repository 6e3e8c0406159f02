-- ===== src/Workqueue/RateLimitingQueue.antt =====
-- pkg/workqueue/rate_limiting_queue.go: a delaying queue with a rate limiter.
pub mod Retries
mod Tests
use kube_trigger.Base.{ℕ, Option}
use kube_trigger.Base.Int.{ℤ}
use kube_trigger.Workqueue.RateLimiter.{Limiter}
use kube_trigger.Workqueue.RateLimiter

-- The interface `DelayingInterface`, which the queue embeds.
pub record Delaying (D K : Type 0) : Type 0 where
  pub add : D → K → D
  pub get : D → D × Option K
  pub done : D → K → D
  pub add_after : D → K → ℤ → D

-- `rateLimitingType`.
pub record RateLimitingQueue (D B K : Type 0) : Type 0 where
  pub delaying : D
  pub limiter : Limiter B K

-- `reserve` and `convert` are those of the limiters.
module _ {D B K : Type 0} (dec : Discrete K) (ops : Delaying D K) (reserve : B → B × ℤ)
    (convert : ℕ → ℤ) where
  unfoldable pub add_rate_limited : RateLimitingQueue D B K → K → RateLimitingQueue D B K
  add_rate_limited q x =
      let r = RateLimiter.when dec reserve convert q.limiter x in
      record { delaying = ops.add_after q.delaying x r.1; limiter = r.0 }

module _ {D B K : Type 0} (dec : Discrete K) where
  unfoldable pub num_requeues : RateLimitingQueue D B K → K → ℕ
  num_requeues q x = RateLimiter.num_requeues dec q.limiter x

  unfoldable pub forget : RateLimitingQueue D B K → K → RateLimitingQueue D B K
  forget q x = record q { limiter = RateLimiter.forget dec q.limiter x }

module _ {D B K : Type 0} where
  -- `NewRateLimitingQueue`, with the new delaying queue as an argument.
  unfoldable pub new_rate_limiting_queue : D → Limiter B K → RateLimitingQueue D B K
  new_rate_limiting_queue d l = record { delaying = d; limiter = l }
