-- ===== src/Workqueue/RateLimiter/Counting.antt =====
-- The counts of failures of pkg/workqueue/default_rate_limiters.go, through any nesting of the
-- limiters.
use mathlib.Core.Bool.{or_assoc}
use kube_trigger.Base.{
  ℕ, ◌+◌, ◌≡◌, refl, sym, ◌∙◌, Bool, true, false, ◌||◌, arith, if◌then◌else◌, ltb, ite,
}
use kube_trigger.Base.Dict
use kube_trigger.Base.Dict.{get-put, get-remove}
use kube_trigger.Base.Int.{ℤ, pos}
use kube_trigger.Workqueue.RateLimiter.{
  Limiter, Limiters, Failures, bucket, exponential, fast_slow, max_of, with_max_wait, nil, cons,
  failures_of, count_failure, when, when_all, num_requeues, num_requeues_all, forget, forget_all,
  greater,
}

module _ {K : Type 0} (dec : Discrete K) where
  failures_of-remove :
      (f : Failures K) (x y : K)
      → failures_of dec (Dict.remove dec x f) y ≡ ite (dec y x) 0 (failures_of dec f y)
  unfolding failures_of
  failures_of-remove f x y = ground (arith, get-remove dec y x f)

  pub failures_of-count :
      (f : Failures K) (x y : K)
      → failures_of dec (count_failure dec f x) y
        ≡ ite (dec y x) (failures_of dec f y + 1) (failures_of dec f y)
  unfolding failures_of count_failure
  failures_of-count f x y = ground (arith, get-put dec y x (failures_of dec f x + 1) f)

-- One round of the loop of `NumRequeues`, before and after a failure is counted.
larger :
    {P : Type 0} (d : Dec P) (c k : Bool) (r s m n : ℕ)
    → r ≡ (if c then ite d (s + 1) s else s)
    → (c ≡ false → s ≡ 0)
    → m ≡ (if k then ite d (n + 1) n else n)
    → (k ≡ false → n ≡ 0)
    → (if ltb r m then m else r) ≡ (
        if c || k
        then ite d ((if ltb s n then n else s) + 1) (if ltb s n then n else s)
        else (if ltb s n then n else s))
larger d c k r s m n h z g w = ground arith

-- Whether a limiter counts failures at all: a bucket does not.
unfoldable mutual
  pub counts : {B K : Type 0} → Limiter B K → Bool
  counts (bucket b) = false
  counts (exponential f base max) = true
  counts (fast_slow f a u v) = true
  counts (max_of ls) = counts_all ls
  counts (with_max_wait l max) = counts l

  pub counts_all : {B K : Type 0} → Limiters B K → Bool
  counts_all nil = false
  counts_all (cons l ls) = counts l || counts_all ls

module _ {B K : Type 0} (dec : Discrete K) where
  mutual
    unfolding num_requeues forget

    num_requeues-forget_any :
        (l : Limiter B K) (x y : K)
        → num_requeues dec (forget dec l x) y ≡ ite (dec y x) 0 (num_requeues dec l y)
    num_requeues-forget_any (bucket b) x y = ground arith
    num_requeues-forget_any (exponential f base max) x y = failures_of-remove dec f x y
    num_requeues-forget_any (fast_slow f a u v) x y = failures_of-remove dec f x y
    num_requeues-forget_any (max_of ls) x y = num_requeues_all-forget ls x y 0 0 (ground arith)
    num_requeues-forget_any (with_max_wait l max) x y = num_requeues-forget_any l x y

    num_requeues_all-forget :
        (ls : Limiters B K) (x y : K) (r s : ℕ)
        → r ≡ ite (dec y x) 0 s
        → num_requeues_all dec (forget_all dec ls x) y r
          ≡ ite (dec y x) 0 (num_requeues_all dec ls y s)
    num_requeues_all-forget nil x y r s h = h
    num_requeues_all-forget (cons l ls) x y r s h =
        num_requeues_all-forget ls x y _ _ (ground (arith, num_requeues-forget_any l x y))

  -- `Forget` resets the count of the item that it is given, and of no other, in every limiter and
  -- through every nesting of limiters.
  pub num_requeues-forget :
      (l : Limiter B K) (x y : K)
      → num_requeues dec (forget dec l x) y ≡ ite (dec y x) 0 (num_requeues dec l y)
  num_requeues-forget l x y = num_requeues-forget_any l x y

  mutual
    unfolding num_requeues counts

    uncounted : (l : Limiter B K) (x : K) → counts l ≡ false → num_requeues dec l x ≡ 0
    uncounted (bucket b) x h = refl
    uncounted (exponential f base max) x h = cc
    uncounted (fast_slow f a u v) x h = cc
    uncounted (max_of ls) x h = uncounted_all ls x 0 h
    uncounted (with_max_wait l max) x h = uncounted l x h

    uncounted_all :
        (ls : Limiters B K) (x : K) (s : ℕ)
        → counts_all ls ≡ false
        → num_requeues_all dec ls x s ≡ s
    uncounted_all nil x s h = refl
    uncounted_all (cons l ls) x s h =
        let none_here : num_requeues dec l x ≡ 0 = uncounted l x (ground arith) in
        rw none_here (ground (arith, uncounted_all ls x s))

module _ {B K : Type 0} (dec : Discrete K) (reserve : B → B × ℤ) (convert : ℕ → ℤ) where
  mutual
    unfolding num_requeues when counts

    num_requeues-when_any :
        (l : Limiter B K) (x y : K)
        → num_requeues dec (when dec reserve convert l x).0 y ≡ (
            if counts l
            then ite (dec y x) (num_requeues dec l y + 1) (num_requeues dec l y)
            else num_requeues dec l y)
    num_requeues-when_any (bucket b) x y = refl
    num_requeues-when_any (exponential f base max) x y = failures_of-count dec f x y
    num_requeues-when_any (fast_slow f a u v) x y = failures_of-count dec f x y
    num_requeues-when_any (max_of ls) x y =
        num_requeues_all-when ls x y (pos 0) false 0 0 (ground arith) (λ _. refl)
    num_requeues-when_any (with_max_wait l max) x y = num_requeues-when_any l x y

    num_requeues_all-when :
        (ls : Limiters B K) (x y : K) (d : ℤ) (c : Bool) (r s : ℕ)
        → r ≡ (if c then ite (dec y x) (s + 1) s else s)
        → (c ≡ false → s ≡ 0)
        → num_requeues_all dec (when_all dec reserve convert ls x d).0 y r ≡ (
            if c || counts_all ls
            then ite (dec y x) (num_requeues_all dec ls y s + 1) (num_requeues_all dec ls y s)
            else num_requeues_all dec ls y s)
    num_requeues_all-when nil x y d c r s h z = ground arith
    num_requeues_all-when (cons l ls) x y d c r s h z =
        rw (sym (or_assoc c (counts l) (counts_all ls))) (
          num_requeues_all-when ls x y (greater (when dec reserve convert l x).1 d) (c || counts l)
            _ (if ltb s (num_requeues dec l y) then num_requeues dec l y else s)
            (larger (dec y x) c (counts l) r s _ _ h z (num_requeues-when_any l x y)
              (uncounted dec l y))
            (λ e. ground (arith, uncounted dec l y, z)))

  -- `When` adds one to the count of the item that it is given, in every limiter that counts
  -- failures, and changes no other count; a nesting of limiters shows the count plus one.
  pub num_requeues-when :
      (l : Limiter B K) (x y : K)
      → counts l ≡ true
      → num_requeues dec (when dec reserve convert l x).0 y
        ≡ ite (dec y x) (num_requeues dec l y + 1) (num_requeues dec l y)
  num_requeues-when l x y h = num_requeues-when_any l x y ∙ rw h
