-- ===== src/Workqueue/Parallelizer/Pieces.antt =====
-- How often pkg/workqueue/parallelizer.go works on each piece.
mod Total
use native.Mathlib.Omega.{div_any}
use native.Mathlib.Nat.{mod-lt}
use kube_trigger.Base.{
  ℕ, zero, suc, ◌+◌, ◌-◌, ◌*◌, ◌^◌, ◌≤◌, ◌<◌, ◌≡◌, refl, sym, ap, ◌∙◌, subst, Bool, true, false,
  ◌&&◌, List, [], ◌∷◌, ◌++◌, ltb, leb, ◌==◌, if◌then◌else◌, arith,
}
use kube_trigger.Base.Int.{ℤ, pos, negsuc}
use kube_trigger.Workqueue.Parallelizer.{
  Pool, Phase, idle, finished, working, numbers, spawn, ceil_div, start_pool, end_of, at_least_one,
  apply_all, parallelize, Settings, Step, takes, works, ends, returns, stops, Reach, here, next,
}
unfoldable pub use Total.{times, ahead, stored}
use Total.{
  within, lesser, ahead-append, total, split_range, chunks_cover, ceil_div_enough, change,
  takes-total, works-total, ends-total, returns-total, stops-total,
}

same : (a b : ℕ) {P : Type 0} → a ≡ b → (a ≤ b) × (P → a ≡ b)
same a b e = (omega arith, λ h. e)

Step-total :
    (may_stop : Bool) (p : ℕ) (w v : Pool)
    → Step may_stop w v
    → (total p v ≤ total p w) × (may_stop ≡ false → total p v ≡ total p w)
Step-total may_stop p w v (takes before after c cs old chunks new) =
    rw (new) (same _ _ (takes-total p w before after c cs old chunks))
Step-total may_stop p w v (works before after a b old more new) =
    rw (new) (same _ _ (works-total p w before after a b old more))
Step-total may_stop p w v (ends before after a b old no_more new) =
    rw (new) (same _ _ (ends-total p w before after a b old no_more))
Step-total may_stop p w v (returns before after old empty new) =
    rw (new) (same _ _ (returns-total p w before after old))
Step-total may_stop p w v (stops before after a b may old more new) =
    rw (new) (stops-total p w before after a b old, λ never. cc)

Reach-total :
    (may_stop : Bool) (p : ℕ) (w v : Pool)
    → Reach may_stop w v
    → (total p v ≤ total p w) × (may_stop ≡ false → total p v ≡ total p w)
Reach-total may_stop p w v here = same _ _ refl
Reach-total may_stop p w v (next {u} r s) =
    let (le, eq) = Reach-total may_stop p w u r in
    let (le', eq') = Step-total may_stop p u v s in (omega arith, λ never. eq' never ∙ eq never)

abbrev is_finished : Phase → Bool
is_finished idle = false
is_finished finished = true
is_finished (working a b) = false

-- `wg.Wait()` returns when every goroutine has ended.
unfoldable pub all_finished : List Phase → Bool
all_finished [] = true
all_finished (f ∷ fs) = is_finished f && all_finished fs

all_finished-append :
    (before after : List Phase) (f : Phase)
    → all_finished (before ++ f ∷ after) ≡ true
    → is_finished f ≡ true
unfolding all_finished
all_finished-append [] after f h = ground arith
all_finished-append (g ∷ gs) after f h = all_finished-append gs after f (ground arith)

-- Goroutines end only when the channel is empty.
Drained : Pool → Type 0
Drained w = all_finished w.phases ≡ true → w.to_process ≡ []

unfinished-Drained :
    (w : Pool) (before after : List Phase) (f : Phase)
    → w.phases ≡ before ++ f ∷ after
    → is_finished f ≡ false
    → Drained w
unfolding Drained
unfinished-Drained w before after f at busy h =
    let over = all_finished-append before after f (rw (sym at) h) in absurd (cc)

Step-Drained : (w v : Pool) → Step false w v → Drained v
unfolding Drained
Step-Drained w v (takes before after c cs old chunks new) =
    unfinished-Drained v before after (working _ _) (ap (λ x. x.phases) new) refl
Step-Drained w v (works before after a b old more new) =
    unfinished-Drained v before after (working (suc a) b) (ap (λ x. x.phases) new) refl
Step-Drained w v (ends before after a b old no_more new) =
    unfinished-Drained v before after idle (ap (λ x. x.phases) new) refl
Step-Drained w v (returns before after old empty new) = λ h. ap (λ x. x.to_process) new ∙ empty
Step-Drained w v (stops before after a b may old more new) = absurd (cc)

Reach-Drained : (w v : Pool) → Drained w → Reach false w v → Drained v
Reach-Drained w v d here = d
Reach-Drained w v d (next {u} r s) = Step-Drained u v s

ahead_finished : (p : ℕ) (fs : List Phase) → all_finished fs ≡ true → ahead p fs ≡ 0
unfolding ahead all_finished
ahead_finished p [] h = refl
ahead_finished p (idle ∷ fs) h = absurd (ground arith)
ahead_finished p (finished ∷ fs) h = ahead_finished p fs (ground arith)
ahead_finished p (working a b ∷ fs) h = absurd (ground arith)

ahead_spawned : (p n : ℕ) → ahead p (spawn n) ≡ 0
unfolding ahead spawn
ahead_spawned p zero = refl
ahead_spawned p (suc n) = ahead_spawned p n

one_at_least : (c : ℤ) → 0 < at_least_one c
unfolding at_least_one
one_at_least (pos n) = ground arith
one_at_least (negsuc n) = omega arith

start_pool-total :
    (workers pieces size p : ℕ)
    → 0 < size
    → (total p (start_pool workers pieces size) ≤ (if ltb p pieces then 1 else 0))
      × (pieces + size - 1 < 2 ^ 63
          → total p (start_pool workers pieces size) ≡ (if ltb p pieces then 1 else 0))
unfolding total start_pool times
start_pool-total workers pieces size p some =
    let chunks = ceil_div pieces size in
    let spawned = ahead_spawned p (if ltb chunks workers then chunks else workers) in
    let cover = chunks_cover size pieces p 0 chunks in
    (
      ground (arith, spawned, cover),
      λ fits. ground (arith, spawned, cover, ceil_div_enough pieces size some fits),
    )

spawn-busy : (n : ℕ) → all_finished (spawn n) ≡ true → n ≡ 0
unfolding all_finished spawn
spawn-busy zero h = refl
spawn-busy (suc n) h = absurd (cc)

no_numbers : (i n : ℕ) → n ≡ 0 → numbers i n ≡ []
unfolding numbers
no_numbers i zero e = refl
no_numbers i (suc n) e = absurd (omega arith)

start_pool-Drained :
    (workers pieces size : ℕ) → 0 < workers → Drained (start_pool workers pieces size)
unfolding Drained start_pool
start_pool-Drained workers pieces size some h =
    let chunks = ceil_div pieces size in
    let none = spawn-busy (if ltb chunks workers then chunks else workers) h in
    no_numbers 0 chunks (ground arith)

-- The size of the chunks that the options ask for.
abbrev pub size_of : List (Settings → Settings) → ℕ
size_of opts = at_least_one (apply_all opts (record { chunk_size = pos 0 })).chunk_size

parallelize_some :
    (workers n : ℕ) (opts : List (Settings → Settings))
    → parallelize workers (suc n) opts ≡ start_pool workers (suc n) (size_of opts)
unfolding parallelize
parallelize_some workers n opts =
    let positive : (suc n == 0) ≡ false = ground arith in rw (positive)

parallelize-total :
    (workers pieces : ℕ) (opts : List (Settings → Settings)) (p : ℕ)
    → (total p (parallelize workers pieces opts) ≤ (if ltb p pieces then 1 else 0))
      × (pieces + size_of opts - 1 < 2 ^ 63
          → total p (parallelize workers pieces opts) ≡ (if ltb p pieces then 1 else 0))
unfolding parallelize total times ahead stored
parallelize-total workers zero opts p = (ground arith, λ fits. ground arith)
parallelize-total workers (suc n) opts p = rw (parallelize_some workers n opts) (
    start_pool-total workers (suc n) (size_of opts) p
      (one_at_least (apply_all opts (record { chunk_size = pos 0 })).chunk_size))

parallelize-Drained :
    (workers pieces : ℕ) (opts : List (Settings → Settings))
    → 0 < workers
    → Drained (parallelize workers pieces opts)
unfolding parallelize Drained
parallelize-Drained workers zero opts some = λ h. refl
parallelize-Drained workers (suc n) opts some =
    subst Drained (sym (parallelize_some workers n opts))
      (start_pool-Drained workers (suc n) (size_of opts) some)

-- However the goroutines interleave, and whenever the context is cancelled, no piece is worked on
-- twice, and nothing is worked on that is no piece.
pub pieces_at_most_once :
    (may_stop : Bool) (workers pieces : ℕ) (opts : List (Settings → Settings)) (p : ℕ) (v : Pool)
    → Reach may_stop (parallelize workers pieces opts) v
    → times p v.processed ≤ (if ltb p pieces then 1 else 0)
unfolding total
pieces_at_most_once may_stop workers pieces opts p v r =
    let (le, eq) = Reach-total may_stop p (parallelize workers pieces opts) v r in
    let (most, exact) = parallelize-total workers pieces opts p in omega arith

-- With one worker at least and without a cancellation, when all goroutines have ended each piece has
-- been worked on exactly once, whatever the size of the chunks, if the number of pieces and that size,
-- less one, together fit an `int`.
pub pieces_exactly_once :
    (workers pieces : ℕ) (opts : List (Settings → Settings)) (p : ℕ) (v : Pool)
    → 0 < workers
    → pieces + size_of opts - 1 < 2 ^ 63
    → Reach false (parallelize workers pieces opts) v
    → all_finished v.phases ≡ true
    → times p v.processed ≡ (if ltb p pieces then 1 else 0)
unfolding total stored Drained
pieces_exactly_once workers pieces opts p v some fits r over =
    let (le, eq) = Reach-total false p (parallelize workers pieces opts) v r in
    let (most, exact) = parallelize-total workers pieces opts p in
    let empty = Reach-Drained _ v (parallelize-Drained workers pieces opts some) r over in
    let nothing = ahead_finished p v.phases over in
    omega (arith, exact fits, eq refl, nothing, ap (stored v.chunk_size v.pieces p) empty)
