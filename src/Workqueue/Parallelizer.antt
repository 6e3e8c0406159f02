-- ===== src/Workqueue/Parallelizer.antt =====
-- pkg/workqueue/parallelizer.go: `ParallelizeUntil` shares pieces of work out to goroutines. The
-- numbers of pieces and workers are not negative here: the Go code panics if they are.
pub mod Pieces
mod Tests
use kube_trigger.Base.{
  ℕ, zero, suc, ◌+◌, ◌-◌, ◌*◌, ◌/◌, ◌^◌, ◌≡◌, Bool, true, false, List, [], ◌∷◌, ◌++◌, ltb, ◌==◌,
  if◌then◌else◌,
}
use kube_trigger.Base.Int.{ℤ, pos, negsuc}

-- The struct `options`.
pub record Settings : Type 0 where
  pub chunk_size : ℤ

unfoldable pub with_chunk_size : ℤ → Settings → Settings
with_chunk_size c o = record { chunk_size = c }

unfoldable pub apply_all : List (Settings → Settings) → Settings → Settings
apply_all [] o = o
apply_all (f ∷ fs) o = apply_all fs (f o)

-- A chunk has one piece at least.
unfoldable pub at_least_one : ℤ → ℕ
at_least_one (pos n) = if ltb n 1 then 1 else n
at_least_one (negsuc n) = 1

-- A sum that does not fit an `int` wraps to a negative number, and so does the quotient or it is zero:
-- then `ParallelizeUntil` has no chunks, or it panics before it starts a goroutine. Both are zero here.
unfoldable pub ceil_div : ℕ → ℕ → ℕ
ceil_div a b = if ltb (a + b - 1) (2 ^ 63) then (a + b - 1) / b else 0

-- The numbers from the first on, as many as the second: what the channel of chunks is filled with.
unfoldable pub numbers : ℕ → ℕ → List ℕ
numbers i zero = []
numbers i (suc n) = i ∷ numbers (suc i) n

-- Where a goroutine is: before it takes a chunk, in the loop over the pieces of a chunk with the next
-- piece and the end, or at its end.
pub data Phase : Type 0 where
  idle finished : Phase
  working : (piece end : ℕ) → Phase

unfoldable pub spawn : ℕ → List Phase
spawn zero = []
spawn (suc n) = idle ∷ spawn n

-- `processed` are the pieces for which `doWorkPiece` was called, the last one first.
pub record Pool : Type 0 where
  pub chunk_size : ℕ
  pub pieces : ℕ
  pub to_process : List ℕ
  pub phases : List Phase
  pub processed : List ℕ

unfoldable pub start_pool : ℕ → ℕ → ℕ → Pool
start_pool workers pieces size =
    let chunks = ceil_div pieces size in
    record {
      chunk_size = size;
      pieces = pieces;
      to_process = numbers 0 chunks;
      phases = spawn (if ltb chunks workers then chunks else workers);
      processed = [];
    }

-- `ParallelizeUntil` up to the start of its goroutines.
unfoldable pub parallelize : ℕ → ℕ → List (Settings → Settings) → Pool
unfolding start_pool
parallelize workers pieces opts =
    let size = at_least_one (apply_all opts (record { chunk_size = pos 0 })).chunk_size in
    if pieces == 0
    then record { chunk_size = size; pieces = 0; to_process = []; phases = []; processed = [] }
    else start_pool workers pieces size

unfoldable pub end_of : ℕ → ℕ → ℕ → ℕ
end_of size pieces start = if ltb pieces (start + size) then pieces else start + size

-- One goroutine moves on, those before and after it in the list stay; the context is cancelled at any
-- time if `may_stop` holds, and never otherwise.
pub data Step (may_stop : Bool) (w v : Pool) : Type 0 where
  takes :
      (before after : List Phase) (chunk : ℕ) (chunks : List ℕ)
      → w.phases ≡ before ++ idle ∷ after
      → w.to_process ≡ chunk ∷ chunks
      → v ≡ record w {
        to_process = chunks;
        phases =
            before
            ++ working (chunk * w.chunk_size) (end_of w.chunk_size w.pieces (chunk * w.chunk_size))
              ∷ after;
      }
      → Step may_stop w v
  works :
      (before after : List Phase) (p end : ℕ)
      → w.phases ≡ before ++ working p end ∷ after
      → ltb p end ≡ true
      → v ≡ record w { phases = before ++ working (suc p) end ∷ after; processed = p ∷ w.processed }
      → Step may_stop w v
  ends :
      (before after : List Phase) (p end : ℕ)
      → w.phases ≡ before ++ working p end ∷ after
      → ltb p end ≡ false
      → v ≡ record w { phases = before ++ idle ∷ after }
      → Step may_stop w v
  returns :
      (before after : List Phase)
      → w.phases ≡ before ++ idle ∷ after
      → w.to_process ≡ []
      → v ≡ record w { phases = before ++ finished ∷ after }
      → Step may_stop w v
  stops :
      (before after : List Phase) (p end : ℕ)
      → may_stop ≡ true
      → w.phases ≡ before ++ working p end ∷ after
      → ltb p end ≡ true
      → v ≡ record w { phases = before ++ finished ∷ after }
      → Step may_stop w v

pub data Reach (may_stop : Bool) (w : Pool) : Pool → Type 0 where
  here : Reach may_stop w w
  next : {u v : Pool} → Reach may_stop w u → Step may_stop u v → Reach may_stop w v
