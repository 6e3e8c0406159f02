-- ===== src/Workqueue/Parallelizer/Tests.antt =====
-- A run of pkg/workqueue/parallelizer.go with one piece.
use kube_trigger.Base.{◌≤◌, ◌≡◌, refl, true, false, [], ◌∷◌, arith}
use kube_trigger.Base.Int.{pos}
use kube_trigger.Workqueue.Parallelizer.{
  Pool, finished, parallelize, with_chunk_size, apply_all, at_least_one, ceil_div, numbers, spawn,
  end_of, Reach, here, next, takes, works, ends, returns, stops,
}
use kube_trigger.Workqueue.Parallelizer.Pieces.{
  times, all_finished, pieces_at_most_once, pieces_exactly_once,
}

abbrev over : Pool
over = record {
  chunk_size = 1;
  pieces = 1;
  to_process = [];
  phases = finished ∷ [];
  processed = 0 ∷ [];
}

over-Reach : Reach false (parallelize 1 1 []) over
unfolding parallelize apply_all at_least_one ceil_div numbers spawn end_of
over-Reach =
    next
      (next (next (next here (takes [] [] 0 [] refl refl refl)) (works [] [] 0 1 refl refl refl))
        (ends [] [] 1 1 refl refl refl))
      (returns [] [] refl refl refl)

pieces_exactly_once_example : times 0 over.processed ≡ 1
unfolding all_finished at_least_one apply_all
pieces_exactly_once_example =
    pieces_exactly_once 1 1 [] 0 over (omega arith) (omega arith) over-Reach refl

-- Two pieces in one chunk, and a stop after the first one.
abbrev stopped : Pool
stopped = record {
  chunk_size = 2;
  pieces = 2;
  to_process = [];
  phases = finished ∷ [];
  processed = 0 ∷ [];
}

stopped-Reach : Reach true (parallelize 1 2 (with_chunk_size (pos 2) ∷ [])) stopped
unfolding parallelize apply_all at_least_one ceil_div numbers spawn end_of with_chunk_size
stopped-Reach =
    next (next (next here (takes [] [] 0 [] refl refl refl)) (works [] [] 0 2 refl refl refl))
      (stops [] [] 1 2 refl refl refl refl)

pieces_at_most_once_example : times 1 stopped.processed ≤ 1
pieces_at_most_once_example =
    pieces_at_most_once true 1 2 (with_chunk_size (pos 2) ∷ []) 1 stopped stopped-Reach
