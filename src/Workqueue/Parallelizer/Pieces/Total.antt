-- ===== src/Workqueue/Parallelizer/Pieces/Total.antt =====
-- How many goroutines and chunks of pkg/workqueue/parallelizer.go still have a piece before them.
use native.Mathlib.Omega.{div_any}
use native.Mathlib.Nat.{mod-lt}
use kube_trigger.Base.{
  ℕ, zero, suc, ◌+◌, ◌-◌, ◌*◌, ◌^◌, ◌≤◌, ◌<◌, ◌≡◌, refl, true, false, ◌&&◌, List, [], ◌∷◌, ◌++◌,
  ltb, leb, ◌==◌, if◌then◌else◌, arith, ◌/◌,
}
use kube_trigger.Workqueue.Parallelizer.{
  Pool, Phase, idle, finished, working, numbers, ceil_div, end_of,
}

-- How often a piece is in a list.
unfoldable pub times : ℕ → List ℕ → ℕ
times p [] = 0
times p (x ∷ xs) = let rest = times p xs in if p == x then suc rest else rest

-- One for a number from the first bound on and below the second, and else zero.
abbrev pub within : ℕ → ℕ → ℕ → ℕ
within a b p = if leb a p && ltb p b then 1 else 0

-- How many goroutines have a piece before them, and how many chunks in the channel hold it.
unfoldable pub ahead : ℕ → List Phase → ℕ
ahead p [] = 0
ahead p (idle ∷ fs) = ahead p fs
ahead p (finished ∷ fs) = ahead p fs
ahead p (working a b ∷ fs) = within a b p + ahead p fs

unfoldable pub stored : ℕ → ℕ → ℕ → List ℕ → ℕ
stored size pieces p [] = 0
stored size pieces p (c ∷ cs) =
    within (c * size) (end_of size pieces (c * size)) p + stored size pieces p cs

pub ahead-append :
    (p : ℕ) (before : List Phase) (f : Phase) (after : List Phase)
    → ahead p (before ++ f ∷ after) ≡ ahead p (f ∷ []) + ahead p (before ++ after)
unfolding ahead
ahead-append p [] idle after = omega arith
ahead-append p [] finished after = omega arith
ahead-append p [] (working a b) after = omega arith
ahead-append p (idle ∷ fs) f after = ahead-append p fs f after
ahead-append p (finished ∷ fs) f after = ahead-append p fs f after
ahead-append p (working a b ∷ fs) f after = omega (arith, ahead-append p fs f after)

-- All that becomes of a piece.
unfoldable pub total : ℕ → Pool → ℕ
total p w = times p w.processed + (ahead p w.phases + stored w.chunk_size w.pieces p w.to_process)

-- The smaller of two bounds.
abbrev pub lesser : ℕ → ℕ → ℕ
lesser a b = if ltb a b then a else b

pub split_range :
    (size pieces p a b : ℕ)
    → a + size ≤ b
    → within a (end_of size pieces a) p + within (a + size) (lesser pieces b) p
      ≡ within a (lesser pieces b) p
unfolding end_of
split_range size pieces p a b h = ground arith

pub chunks_cover :
    (size pieces p i n : ℕ)
    → stored size pieces p (numbers i n) ≡ within (i * size) (lesser pieces (i * size + n * size)) p
unfolding stored numbers
chunks_cover size pieces p i zero = ground arith
chunks_cover size pieces p i (suc n) =
    let here : suc i * size ≡ i * size + size = omega arith in
    let there : i * size + size + n * size ≡ i * size + suc n * size = omega arith in
    rw (chunks_cover size pieces p (suc i) n, here, there)
      (split_range size pieces p (i * size) (i * size + suc n * size) (omega arith))

quotient_enough : (a b : ℕ) → 0 < b → a ≤ ((a + b - 1) / b) * b
quotient_enough a b h = omega (arith, div_any (a + b - 1) b, mod-lt (a + b - 1) h)

pub ceil_div_enough : (a b : ℕ) → 0 < b → a + b - 1 < 2 ^ 63 → a ≤ ceil_div a b * b
unfolding ceil_div
ceil_div_enough a b h fits =
    let fit : ltb (a + b - 1) (2 ^ 63) ≡ true = ground arith in rw (fit) (quotient_enough a b h)

-- The goroutine in the middle changes.
pub change :
    (p : ℕ) (before after : List Phase) (f g : Phase) (fs gs : List Phase)
    → fs ≡ before ++ f ∷ after
    → gs ≡ before ++ g ∷ after
    → ahead p gs + ahead p (f ∷ []) ≡ ahead p fs + ahead p (g ∷ [])
change p before after f g fs gs old new =
    rw (old, new) (omega (arith, ahead-append p before f after, ahead-append p before g after))

-- A step that is no stop keeps the total of each piece.
pub takes-total :
    (p : ℕ) (w : Pool) (before after : List Phase) (c : ℕ) (cs : List ℕ)
    → w.phases ≡ before ++ idle ∷ after
    → w.to_process ≡ c ∷ cs
    → total p (record w {
      to_process = cs;
      phases =
          before
          ++ working (c * w.chunk_size) (end_of w.chunk_size w.pieces (c * w.chunk_size)) ∷ after;
    })
      ≡ total p w
unfolding total ahead stored
takes-total p w before after c cs old chunks =
    let size = w.chunk_size in
    let f = working (c * size) (end_of size w.pieces (c * size)) in
    let moved = change p before after idle f w.phases (before ++ f ∷ after) old refl in
    rw (chunks) (omega (arith, moved))

pub works-total :
    (p : ℕ) (w : Pool) (before after : List Phase) (a b : ℕ)
    → w.phases ≡ before ++ working a b ∷ after
    → ltb a b ≡ true
    → total p
        (record w { phases = before ++ working (suc a) b ∷ after; processed = a ∷ w.processed })
      ≡ total p w
unfolding total ahead times
works-total p w before after a b old more =
    let moved = change p before after (working a b) (working (suc a) b) w.phases _ old refl in
    ground (arith, moved)

pub ends-total :
    (p : ℕ) (w : Pool) (before after : List Phase) (a b : ℕ)
    → w.phases ≡ before ++ working a b ∷ after
    → ltb a b ≡ false
    → total p (record w { phases = before ++ idle ∷ after }) ≡ total p w
unfolding total ahead
ends-total p w before after a b old no_more =
    let moved = change p before after (working a b) idle w.phases _ old refl in
    ground (arith, moved)

pub returns-total :
    (p : ℕ) (w : Pool) (before after : List Phase)
    → w.phases ≡ before ++ idle ∷ after
    → total p (record w { phases = before ++ finished ∷ after }) ≡ total p w
unfolding total ahead
returns-total p w before after old =
    let moved = change p before after idle finished w.phases _ old refl in omega (arith, moved)

pub stops-total :
    (p : ℕ) (w : Pool) (before after : List Phase) (a b : ℕ)
    → w.phases ≡ before ++ working a b ∷ after
    → total p (record w { phases = before ++ finished ∷ after }) ≤ total p w
unfolding total ahead
stops-total p w before after a b old =
    let moved = change p before after (working a b) finished w.phases _ old refl in
    ground (arith, moved)
