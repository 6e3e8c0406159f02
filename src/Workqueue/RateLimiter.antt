-- ===== src/Workqueue/RateLimiter.antt =====
-- pkg/workqueue/default_rate_limiters.go: the rate limiters, one constructor for each type that
-- implements the interface `RateLimiter`. Durations are in nanoseconds.
pub mod Backoff
pub mod Counting
mod Tests
use kube_trigger.Base.{
  ℕ, zero, suc, ◌+◌, ◌*◌, ◌^◌, ◌≡◌, Bool, true, false, Option, none, some, List, [], ◌∷◌, ltb, leb,
  if◌then◌else◌,
}
use kube_trigger.Base.Dict
use kube_trigger.Base.Int.{ℤ, pos, negsuc, ltb_ℤ}

-- The map `failures` of a limiter, with Go's zero for a missing key.
abbrev pub Failures : Type 0 → Type 0
Failures K = List (K × ℕ)

-- `B` is the type of `rate.Limiter` of golang.org/x/time.
mutual
  pub data Limiter (B K : Type 0) : Type 0 where
    bucket : B → Limiter B K
    exponential : Failures K → (base max : ℕ) → Limiter B K
    fast_slow : Failures K → (attempts : ℕ) → (fast slow : ℤ) → Limiter B K
    max_of : Limiters B K → Limiter B K
    with_max_wait : Limiter B K → ℤ → Limiter B K

  pub data Limiters (B K : Type 0) : Type 0 where
    nil : Limiters B K
    cons : Limiter B K → Limiters B K → Limiters B K

-- float64(math.MaxInt64), to which the constant is rounded.
abbrev pub float_max_int64 : ℕ
float_max_int64 = 2 ^ 63

abbrev pub or_zero : Option ℕ → ℕ
or_zero none = 0
or_zero (some n) = n

abbrev pub greater : ℤ → ℤ → ℤ
greater curr ret = if ltb_ℤ ret curr then curr else ret

module _ {K : Type 0} (dec : Discrete K) where
  unfoldable pub failures_of : Failures K → K → ℕ
  failures_of f x = or_zero (Dict.get dec x f)

  unfoldable pub count_failure : Failures K → K → Failures K
  unfolding failures_of
  count_failure f x = Dict.put dec x (failures_of f x + 1) f

-- `convert` is the conversion of an integral float64 to int64, which Go leaves open out of range.
-- The product of the floats is exact: a power of two scales `base`, which is below 2 ^ 53.
unfoldable pub backoff_delay : (ℕ → ℤ) → ℕ → ℕ → ℕ → ℤ
backoff_delay convert base max exp =
    let backoff = base * 2 ^ exp in
    if ltb float_max_int64 backoff
    then pos max
    else if ltb_ℤ (pos max) (convert backoff)
    then pos max
    else convert backoff

unfoldable pub fast_slow_delay : ℕ → ℤ → ℤ → ℕ → ℤ
fast_slow_delay attempts fast slow n = if leb n attempts then fast else slow

-- `reserve` is `Reserve().Delay()` of a bucket, of a library that the program only calls.
module _ {B K : Type 0} (dec : Discrete K) (reserve : B → B × ℤ) (convert : ℕ → ℤ) where
  unfoldable mutual
    pub when : Limiter B K → K → Limiter B K × ℤ
    when (bucket b) x = (bucket (reserve b).0, (reserve b).1)
    when (exponential f base max) x = (
      exponential (count_failure dec f x) base max,
      backoff_delay convert base max (failures_of dec f x),
    )
    when (fast_slow f attempts fast slow) x = (
      fast_slow (count_failure dec f x) attempts fast slow,
      fast_slow_delay attempts fast slow (failures_of dec (count_failure dec f x) x),
    )
    when (max_of ls) x = let r = when_all ls x (pos 0) in (max_of r.0, r.1)
    when (with_max_wait l max) x =
        let r = when l x in (with_max_wait r.0 max, if ltb_ℤ max r.1 then max else r.1)

    pub when_all : Limiters B K → K → ℤ → Limiters B K × ℤ
    when_all nil x ret = (nil, ret)
    when_all (cons l ls) x ret =
        let curr = when l x in
        let rest = when_all ls x (greater curr.1 ret) in (cons curr.0 rest.0, rest.1)

module _ {B K : Type 0} (dec : Discrete K) where
  unfoldable mutual
    pub num_requeues : Limiter B K → K → ℕ
    num_requeues (bucket b) x = 0
    num_requeues (exponential f base max) x = failures_of dec f x
    num_requeues (fast_slow f attempts fast slow) x = failures_of dec f x
    num_requeues (max_of ls) x = num_requeues_all ls x 0
    num_requeues (with_max_wait l max) x = num_requeues l x

    pub num_requeues_all : Limiters B K → K → ℕ → ℕ
    num_requeues_all nil x ret = ret
    num_requeues_all (cons l ls) x ret =
        let curr = num_requeues l x in num_requeues_all ls x (if ltb ret curr then curr else ret)

  unfoldable mutual
    pub forget : Limiter B K → K → Limiter B K
    forget (bucket b) x = bucket b
    forget (exponential f base max) x = exponential (Dict.remove dec x f) base max
    forget (fast_slow f attempts fast slow) x = fast_slow (Dict.remove dec x f) attempts fast slow
    forget (max_of ls) x = max_of (forget_all ls x)
    forget (with_max_wait l max) x = with_max_wait (forget l x) max

    pub forget_all : Limiters B K → K → Limiters B K
    forget_all nil x = nil
    forget_all (cons l ls) x = cons (forget l x) (forget_all ls x)

module _ {B K : Type 0} where
  unfoldable pub new_item_exponential_failure_rate_limiter : ℕ → ℕ → Limiter B K
  new_item_exponential_failure_rate_limiter base max = exponential [] base max

  -- A millisecond, and 1000 seconds.
  unfoldable pub default_item_based_rate_limiter : Limiter B K
  unfolding new_item_exponential_failure_rate_limiter
  default_item_based_rate_limiter =
      new_item_exponential_failure_rate_limiter 1_000_000 1_000_000_000_000

  unfoldable pub new_item_fast_slow_rate_limiter : ℤ → ℤ → ℕ → Limiter B K
  new_item_fast_slow_rate_limiter fast slow attempts = fast_slow [] attempts fast slow

  -- The bucket of 10 per second and 100 at once is the argument.
  unfoldable pub default_controller_rate_limiter : B → Limiter B K
  unfolding new_item_exponential_failure_rate_limiter
  default_controller_rate_limiter b = max_of (
      cons (new_item_exponential_failure_rate_limiter 5_000_000 1_000_000_000_000)
        (cons (bucket b) nil))
