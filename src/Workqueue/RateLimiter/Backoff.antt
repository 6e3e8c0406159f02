-- ===== src/Workqueue/RateLimiter/Backoff.antt =====
-- The delays of pkg/workqueue/default_rate_limiters.go: exponential backoff and the worst case of
-- several limiters.
use native.Mathlib.Nat.{pow-le-pow_right}
use kube_trigger.Base.{
  ℕ, zero, suc, ◌+◌, ◌*◌, ◌^◌, ◌≤◌, ◌<◌, ◌≡◌, ◌≢◌, refl, if_pos, ◌∙◌, ap, arith, if◌then◌else◌, ltb,
  ◌⊎◌, inl, List, [], ◌∷◌, dec_le,
}
use kube_trigger.Base.Dict
use kube_trigger.Workqueue.RateLimiter.Counting.{failures_of-count}
use kube_trigger.Base.Int.{ℤ, pos, ◌≤ℤ◌, ltb_ℤ}
use kube_trigger.Workqueue.RateLimiter.{
  Limiter, Limiters, Failures, nil, cons, max_of, exponential, failures_of, count_failure,
  default_item_based_rate_limiter, when, when_all, greater, backoff_delay,
}

-- What Go documents of the conversion to int64: it is exact in range.
abbrev pub ConvertsInRange : (ℕ → ℤ) → Type 0
ConvertsInRange convert = (n : ℕ) → n < 2 ^ 63 → convert n ≡ pos n

module _ (convert : ℕ → ℤ) where
  capped :
      (backoff max : ℕ)
      → (backoff < 2 ^ 63 → convert backoff ≡ pos backoff)
      → backoff ≢ 2 ^ 63
      → max < 2 ^ 63
      → (if ltb (2 ^ 63) backoff
          then pos max
          else if ltb_ℤ (pos max) (convert backoff)
          then pos max
          else convert backoff)
        ≡ pos (if ltb max backoff then max else backoff)
  capped backoff max exact h m = ground arith

  -- The backoff is the base delay doubled once per failure and cut off at the maximum, for every
  -- count of failures at which the doubled delay is not exactly 2 ^ 63 nanoseconds, provided that
  -- the conversion to int64 is exact in range and the maximum fits.
  pub backoff_delay-min :
      (base max exp : ℕ)
      → ConvertsInRange convert
      → base * 2 ^ exp ≢ 2 ^ 63
      → max < 2 ^ 63
      → backoff_delay convert base max exp
        ≡ pos (if ltb max (base * 2 ^ exp) then max else base * 2 ^ exp)
  unfolding backoff_delay
  backoff_delay-min base max exp exact h m =
      capped (base * 2 ^ exp) max (exact (base * 2 ^ exp)) h m

-- A millisecond never doubles to exactly 2 ^ 63 ns.
one_ms_uneven : (exp : ℕ) → 1_000_000 * 2 ^ exp ≢ 2 ^ 63
one_ms_uneven exp = elim (dec_le exp 43) [
  | yes h ↦ omega (arith, pow-le-pow_right {n = 2} (omega arith) h)
  | no h ↦
      let up : 44 ≤ exp = omega arith in omega (arith, pow-le-pow_right {n = 2} (omega arith) up)
]

-- The delays that the members of a list of limiters ask for.
module _ {B K : Type 0} (dec : Discrete K) (reserve : B → B × ℤ) (convert : ℕ → ℤ) where
  pub delays : Limiters B K → K → List ℤ
  delays nil x = []
  delays (cons l ls) x = (when dec reserve convert l x).1 ∷ delays ls x

  abbrev pub AllBelow : ℤ → List ℤ → Type 0
  AllBelow r [] = Unit {0}
  AllBelow r (d ∷ ds) = (d ≤ℤ r) × AllBelow r ds

  abbrev pub OneOf : ℤ → List ℤ → Type 0
  OneOf r [] = ⊥
  OneOf r (d ∷ ds) = (r ≡ d) ⊎ OneOf r ds

  when_all-worst :
      (ls : Limiters B K) (x : K) (r : ℤ)
      → (r ≤ℤ (when_all dec reserve convert ls x r).1)
        × AllBelow (when_all dec reserve convert ls x r).1 (delays ls x)
        × (((when_all dec reserve convert ls x r).1 ≡ r)
            ⊎ OneOf (when_all dec reserve convert ls x r).1 (delays ls x))
  unfolding when_all delays
  when_all-worst nil x r = (omega arith, tt, inl refl)
  when_all-worst (cons l ls) x r =
      let d = (when dec reserve convert l x).1 in
      let (up, all, one) = when_all-worst ls x (greater d r) in
      (ground arith, (ground arith, all), ground arith)

  -- The combination of limiters asks for the longest of the delays that its members ask for, and
  -- for none if all are negative or there is no member.
  pub when-max_of :
      (ls : Limiters B K) (x : K)
      → (pos 0 ≤ℤ (when dec reserve convert (max_of ls) x).1)
        × AllBelow (when dec reserve convert (max_of ls) x).1 (delays ls x)
        × (((when dec reserve convert (max_of ls) x).1 ≡ pos 0)
            ⊎ OneOf (when dec reserve convert (max_of ls) x).1 (delays ls x))
  unfolding when
  when-max_of ls x = when_all-worst ls x (pos 0)

  -- The limiter after an item has failed a number of times.
  unfoldable pub after_failures : ℕ → Limiter B K → K → Limiter B K
  after_failures zero l x = l
  after_failures (suc n) l x = after_failures n (when dec reserve convert l x).0 x

  after_failures_delay :
      (base max n : ℕ) (f : Failures K) (x : K)
      → (when dec reserve convert (after_failures n (exponential f base max) x) x).1
        ≡ backoff_delay convert base max (failures_of dec f x + n)
  unfolding after_failures when
  after_failures_delay base max zero f x = ap (backoff_delay convert base max) (omega arith)
  after_failures_delay base max (suc n) f x =
      after_failures_delay base max n (count_failure dec f x) x
      ∙ ap (backoff_delay convert base max)
          (omega (arith, failures_of-count dec f x x ∙ if_pos (dec x x) refl _ _))

  -- The default limiter of an item makes it wait for 1 ms after its first failure and twice as long
  -- after each further one, up to 1000 s: the guard against overflow never lets a value pass that
  -- does not fit, provided that the conversion to int64 is exact in range.
  pub default_item_based-backoff :
      (n : ℕ) (x : K)
      → ConvertsInRange convert
      → (when dec reserve convert (after_failures n default_item_based_rate_limiter x) x).1
        ≡ pos (
            if ltb 1_000_000_000_000 (1_000_000 * 2 ^ n)
            then 1_000_000_000_000
            else 1_000_000 * 2 ^ n)
  unfolding default_item_based_rate_limiter failures_of Dict.get
  default_item_based-backoff n x exact =
      after_failures_delay 1_000_000 1_000_000_000_000 n [] x
      ∙ ap (backoff_delay convert 1_000_000 1_000_000_000_000) (omega arith)
      ∙ backoff_delay-min convert 1_000_000 1_000_000_000_000 n exact (one_ms_uneven n)
          (omega arith)
