-- ===== src/Workqueue/RateLimitingQueue/Retries.antt =====
-- Items that pkg/workqueue/rate_limiting_queue.go takes again and again.
use kube_trigger.Base.{ℕ, zero, suc, ◌*◌, ◌^◌, ◌≡◌, refl, ap, ◌∙◌, ltb, if◌then◌else◌}
use kube_trigger.Base.Int.{ℤ, pos}
use kube_trigger.Workqueue.RateLimiter.{when, default_item_based_rate_limiter}
use kube_trigger.Workqueue.RateLimiter.Backoff.{
  ConvertsInRange, after_failures, default_item_based-backoff,
}
use kube_trigger.Workqueue.RateLimitingQueue.{
  Delaying, RateLimitingQueue, add_rate_limited, new_rate_limiting_queue,
}

module _ {D B K : Type 0} (dec : Discrete K) (ops : Delaying D K) (reserve : B → B × ℤ)
    (convert : ℕ → ℤ) where
  -- As many calls of `AddRateLimited` for one item.
  pub retries : ℕ → RateLimitingQueue D B K → K → RateLimitingQueue D B K
  retries zero q x = q
  retries (suc n) q x = retries n (add_rate_limited dec ops reserve convert q x) x

  retries-limiter :
      (n : ℕ) (q : RateLimitingQueue D B K) (x : K)
      → (retries n q x).limiter ≡ after_failures dec reserve convert n q.limiter x
  unfolding retries after_failures add_rate_limited
  retries-limiter zero q x = refl
  retries-limiter (suc n) q x = retries-limiter n (add_rate_limited dec ops reserve convert q x) x

  -- In a new queue with the default limiter of an item, an item that was added n times through
  -- `AddRateLimited` is handed on, at the next such call, with a delay of 1 ms doubled n times and cut
  -- off at 1000 s, provided that the conversion to int64 is exact in range.
  pub add_rate_limited-backoff :
      (n : ℕ) (d : D) (x : K)
      → ConvertsInRange convert
      → (let q = retries n (new_rate_limiting_queue d default_item_based_rate_limiter) x in
          (add_rate_limited dec ops reserve convert q x).delaying
          ≡ ops.add_after q.delaying x (
              pos (
                if ltb 1_000_000_000_000 (1_000_000 * 2 ^ n)
                then 1_000_000_000_000
                else 1_000_000 * 2 ^ n)))
  unfolding add_rate_limited new_rate_limiting_queue
  add_rate_limited-backoff n d x exact =
      let q = retries n (new_rate_limiting_queue d default_item_based_rate_limiter) x in
      ap (ops.add_after q.delaying x) (
        ap (λ l. (when dec reserve convert l x).1)
          (retries-limiter n (new_rate_limiting_queue d default_item_based_rate_limiter) x)
        ∙ default_item_based-backoff dec reserve convert n x exact)
