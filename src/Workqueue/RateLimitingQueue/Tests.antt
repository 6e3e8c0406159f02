-- ===== src/Workqueue/RateLimitingQueue/Tests.antt =====
-- The queue of pkg/workqueue/rate_limiting_queue.go over a list of the calls of `AddAfter`.
use kube_trigger.Base.{
  ℕ, ◌+◌, ◌*◌, ◌^◌, ◌≡◌, none, List, [], ◌∷◌, ltb, if◌then◌else◌, arith, ℕ_discrete,
}
use kube_trigger.Base.Int.{ℤ, pos, negsuc}
use kube_trigger.Workqueue.RateLimiter.{default_item_based_rate_limiter}
use kube_trigger.Workqueue.RateLimiter.Backoff.{ConvertsInRange}
use kube_trigger.Workqueue.RateLimitingQueue.{Delaying, add_rate_limited, new_rate_limiting_queue}
use kube_trigger.Workqueue.RateLimitingQueue.Retries.{retries, add_rate_limited-backoff}

abbrev Calls : Type 0
Calls = List (ℕ × ℤ)

abbrev log : Delaying Calls ℕ
log = record {
  add = λ d x. (x, pos 0) ∷ d;
  get = λ d. (d, none);
  done = λ d x. d;
  add_after = λ d x delay. (x, delay) ∷ d;
}

abbrev convert : ℕ → ℤ
convert n = if ltb n (2 ^ 63) then pos n else negsuc 0

convert-ConvertsInRange : ConvertsInRange convert
convert-ConvertsInRange n h = ground arith

abbrev reserve : ℕ → ℕ × ℤ
reserve n = (n + 1, pos 7)

add_rate_limited-backoff_example :
    (add_rate_limited ℕ_discrete log reserve convert
      (retries ℕ_discrete log reserve convert 5
        (new_rate_limiting_queue [] default_item_based_rate_limiter)
        4)
      4).delaying
    ≡ (
      4,
      pos (
          if ltb 1_000_000_000_000 (1_000_000 * 2 ^ 5)
          then 1_000_000_000_000
          else 1_000_000 * 2 ^ 5),
    )
      ∷ (retries ℕ_discrete log reserve convert 5
          (new_rate_limiting_queue [] default_item_based_rate_limiter)
          4).delaying
add_rate_limited-backoff_example =
    add_rate_limited-backoff ℕ_discrete log reserve convert 5 [] 4 convert-ConvertsInRange
