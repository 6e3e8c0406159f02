-- ===== src/Workqueue/Metrics/Depth.antt =====
-- What the metrics of pkg/workqueue/metrics.go say of the queue that reports to them.
use kube_trigger.Base.{
  length, ℕ, ◌+◌, ◌≡◌, refl, Bool, true, false, Option, none, some, List, [], ◌∷◌, arith, has,
  has_self, sym, ◌∙◌, ap, ◌&&◌, not, IsDistinct,
}
use kube_trigger.Base.Dict
use kube_trigger.Base.Dict.{get-put, get-remove}
use kube_trigger.Workqueue.Items.{
  has-insert, has-delete, insert-IsDistinct, delete-IsDistinct, length-insert, length-delete,
}
use kube_trigger.Workqueue.Queue.{
  Queue, Metrics, add as queue_add, get as queue_get, done as queue_done, take_head, new_queue,
  shut_down, start_drain,
}
use kube_trigger.Workqueue.Queue.Run.{
  Call, adds, gets, dones, shuts, drains, step, run, LegalRun, step-IsValid,
}
use kube_trigger.Workqueue.Queue.Invariant.{IsValid, new-IsValid}
use kube_trigger.Workqueue.Metrics.{
  DefaultMetrics, add, get, done, update_unfinished_work, now, fresh_metrics,
}

abbrev pub known : {V : Type 0} → Option V → Bool
known none = false
known (some v) = true

-- The queue that reports to these metrics.
abbrev pub Reporting : Type 0 → Type 0
Reporting K = Queue (DefaultMetrics K) K

abbrev pub default_ops : {K : Type 0} → Discrete K → Metrics (DefaultMetrics K) K
default_ops dec = record {
  on_add = add dec;
  on_get = get dec;
  on_done = done dec;
  update_unfinished_work = update_unfinished_work;
}

-- The depth gauge shows the number of dirty items, and each of the two tables of times has an entry
-- for exactly the items that are dirty, or in a worker's hands.
pub record Tracks {K : Type 0} (dec : Discrete K) (q : Reporting K) : Type 0 where
  pub distinct_dirty : IsDistinct dec q.dirty
  pub counted : q.metrics.incs ≡ q.metrics.decs + length q.dirty
  pub waiting : (x : K) → known (Dict.get dec x q.metrics.add_times) ≡ has dec x q.dirty
  pub working : (x : K) → known (Dict.get dec x q.metrics.start_times) ≡ has dec x q.processing

module _ {K : Type 0} (dec : Discrete K) where
  add-Tracks :
      (q : Reporting K) (x : K) → Tracks dec q → Tracks dec (queue_add dec (default_ops dec) q x).0
  unfolding queue_add add
  add-Tracks q x t = record {
    distinct_dirty = ground (arith, insert-IsDistinct dec x q.dirty);
    counted = ground (arith, length-insert dec x q.dirty);
    waiting = λ y. ground (
      arith,
      has-insert dec y x q.dirty,
      t.waiting y,
      t.waiting x,
      get-put dec y x (now q.metrics) q.metrics.add_times,
    );
    working = λ y. ground (arith, t.working y);
  }

  get-Tracks :
      (q : Reporting K) (x : K) (rest : List K)
      → has dec x q.dirty ≡ true
      → Tracks dec q
      → Tracks dec (take_head dec (default_ops dec) q (x ∷ rest)).0
  unfolding take_head get
  get-Tracks q x rest h t = record {
    distinct_dirty = ground (arith, delete-IsDistinct dec x q.dirty t.distinct_dirty);
    counted = ground (arith, length-delete dec x q.dirty, t.waiting x);
    waiting = λ y. ground (
      arith,
      has-delete dec y x q.dirty,
      t.waiting y,
      t.waiting x,
      get-remove dec y x q.metrics.add_times,
    );
    working = λ y. ground (
      arith,
      has-insert dec y x q.processing,
      t.working y,
      t.waiting x,
      get-put dec y x (now q.metrics) q.metrics.start_times,
    );
  }

  done-Tracks :
      (q : Reporting K) (x : K) → Tracks dec q → Tracks dec (queue_done dec (default_ops dec) q x).0
  unfolding queue_done done
  done-Tracks q x t = record {
    distinct_dirty = ground (arith, t.distinct_dirty);
    counted = ground (arith, t.counted);
    waiting = λ y. ground (arith, t.waiting y);
    working = λ y. ground (
      arith,
      has-delete dec y x q.processing,
      t.working y,
      t.working x,
      get-remove dec y x q.metrics.start_times,
    );
  }

  head-dirty :
      (q : Reporting K) (x : K) (rest : List K)
      → IsValid dec q
      → q.items ≡ x ∷ rest
      → has dec x q.dirty ≡ true
  head-dirty q x rest v e =
      let queued : (true ≡ (has dec x q.dirty && not (has dec x q.processing))) =
        sym (has_self dec x rest) ∙ ap (has dec x) (sym e) ∙ v.queued x in
      ground arith

  next-Tracks :
      (q : Reporting K) (xs : List K)
      → q.items ≡ xs
      → IsValid dec q
      → Tracks dec q
      → Tracks dec (take_head dec (default_ops dec) q xs).0
  unfolding take_head
  next-Tracks q [] e v t = t
  next-Tracks q (x ∷ rest) e v t = get-Tracks q x rest (head-dirty q x rest v e) t

  step-Tracks :
      (q : Reporting K) (c : Call K)
      → IsValid dec q
      → Tracks dec q
      → Tracks dec (step dec (default_ops dec) q c)
  unfolding queue_get shut_down start_drain
  step-Tracks q (adds x) v t = add-Tracks q x t
  step-Tracks q gets v t = next-Tracks q q.items refl v t
  step-Tracks q (dones x) v t = done-Tracks q x t
  step-Tracks q shuts v t = record {
    distinct_dirty = t.distinct_dirty;
    counted = t.counted;
    waiting = t.waiting;
    working = t.working;
  }
  step-Tracks q drains v t = record {
    distinct_dirty = t.distinct_dirty;
    counted = t.counted;
    waiting = t.waiting;
    working = t.working;
  }

  run_from-Tracks :
      (q : Reporting K) (cs : List (Call K))
      → LegalRun dec (default_ops dec) q cs
      → IsValid dec q
      → Tracks dec q
      → Tracks dec (run dec (default_ops dec) q cs)
  unfolding run
  run_from-Tracks q [] l v t = t
  run_from-Tracks q (c ∷ cs) l v t =
      run_from-Tracks (step dec (default_ops dec) q c) cs l.1
        (step-IsValid dec (default_ops dec) q c l.0 v) (step-Tracks q c v t)

  -- After any history in which `Done` is called only for items that are being processed, the depth
  -- gauge of a queue with fresh metrics shows the number of dirty items, and there is a time of
  -- addition for exactly the dirty items and a start time for exactly those being processed.
  pub run-Tracks :
      (clock : ℕ → ℕ) (cs : List (Call K))
      → LegalRun dec (default_ops dec) (new_queue (fresh_metrics clock)) cs
      → Tracks dec (run dec (default_ops dec) (new_queue (fresh_metrics clock)) cs)
  unfolding new_queue has Dict.get
  run-Tracks clock cs l =
      run_from-Tracks (new_queue (fresh_metrics clock)) cs l (new-IsValid dec _) (record {
        distinct_dirty = tt;
        counted = omega arith;
        waiting = λ x. refl;
        working = λ x. refl;
      })
