-- ===== src/Workqueue/RateLimiter/Tests.antt =====
-- Delays of the rate limiters of pkg/workqueue at concrete failures.
use kube_trigger.Base.{ℕ, ◌+◌, ◌-◌, ◌^◌, ◌≡◌, refl, ltb, if◌then◌else◌, [], ◌∷◌, arith, ℕ_discrete}
use kube_trigger.Base.Dict
use kube_trigger.Base.Int.{ℤ, pos, negsuc}
use kube_trigger.Workqueue.RateLimiter.{
  Limiter, bucket, exponential, max_of, nil, cons, when, backoff_delay, failures_of,
}
use kube_trigger.Workqueue.RateLimiter.Backoff.{ConvertsInRange}

-- A conversion to int64 as on amd64: what is out of range becomes the least integer.
abbrev convert : ℕ → ℤ
convert n = if ltb n (2 ^ 63) then pos n else negsuc (2 ^ 63 - 1)

convert-ConvertsInRange : ConvertsInRange convert
convert-ConvertsInRange n h = ground arith

-- A bucket that makes every caller wait for 7 ns.
abbrev reserve : ℕ → ℕ × ℤ
reserve n = (n + 1, pos 7)

abbrev limiter : Limiter ℕ ℕ
limiter = max_of (cons (exponential ((4, 2) ∷ []) 3 100) (cons (bucket 0) nil))

third_failure : (when ℕ_discrete reserve convert limiter 4).1 ≡ pos 12
unfolding when backoff_delay failures_of Dict.get ℕ_discrete
third_failure = refl
