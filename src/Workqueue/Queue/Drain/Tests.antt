-- ===== src/Workqueue/Queue/Drain/Tests.antt =====
-- Drains of pkg/workqueue/queue.go while a worker has an item.
use kube_trigger.Base.{ℕ, ◌≡◌, refl, true, [], ◌∷◌, arith, has, ℕ_discrete}
use kube_trigger.Workqueue.Items.{insert, delete}
use kube_trigger.Workqueue.Queue.{
  Queue, Metrics, new_queue, add, take_head, get, done, shutdown, set_drain, is_processing,
  must_drain,
}
use kube_trigger.Workqueue.Queue.Wakeup.{
  World, new_world, nobody, drainer, everybody, adds, gets, shuts, sets_drain, drain_enters,
  drain_waits, drain_leaves,
}
use kube_trigger.Workqueue.Queue.Drain.{
  ReachIn, OneDrains, no_stuck_drain, Quiet, IsStuck, second_drain_IsStuck,
}
use kube_trigger.Workqueue.Queue.Drain

abbrev quiet : Metrics (Unit {0}) ℕ
quiet = record {
  on_add = λ m x. m;
  on_get = λ m x. m;
  on_done = λ m x. m;
  update_unfinished_work = λ m. m;
}

-- A worker has the item 7, and the queue is to drain.
abbrev busy : Queue (Unit {0}) ℕ
busy = record {
  items = [];
  dirty = [];
  processing = 7 ∷ [];
  shutting_down = true;
  drain = true;
  metrics = tt;
}

abbrev drains : ℕ → ℕ → World (Unit {0}) ℕ
drains asleep awake = record {
  queue = busy;
  asleep = 0;
  woken = 0;
  drain_asleep = asleep;
  drain_awake = awake;
}

one-ReachIn : ReachIn ℕ_discrete quiet OneDrains (new_world tt) (drains 1 0)
unfolding new_world new_queue add get take_head shutdown set_drain is_processing has insert delete
    ℕ_discrete
one-ReachIn =
    Drain.ReachIn.next
      (Drain.ReachIn.next
        (Drain.ReachIn.next
          (Drain.ReachIn.next
            (Drain.ReachIn.next
              (Drain.ReachIn.next Drain.ReachIn.here (adds 7 (nobody refl refl refl)) (omega arith))
              (gets refl) (omega arith))
            (sets_drain true refl) (omega arith))
          (shuts (everybody refl)) (omega arith))
        (drain_enters refl refl) (omega arith))
      (drain_waits 0 refl refl refl) (omega arith)

no_stuck_drain_example : is_processing busy ≡ true
no_stuck_drain_example = no_stuck_drain ℕ_discrete quiet tt (drains 1 0) one-ReachIn (omega arith)

-- The item is done with, one of the two is woken, and it leaves.
abbrev over : ℕ → World (Unit {0}) ℕ
over awake = record (drains 1 awake) { queue = record busy { processing = [] } }

over-Quiet : Quiet ℕ_discrete quiet (over 1) (over 0)
unfolding must_drain is_processing Drain.is_shutdown
over-Quiet = Drain.Quiet.next Drain.Quiet.here (drain_leaves 0 refl refl refl) refl

second_drain_IsStuck_example : IsStuck ℕ_discrete quiet (over 0)
unfolding done has delete ℕ_discrete
second_drain_IsStuck_example =
    second_drain_IsStuck ℕ_discrete quiet (drains 2 0) (over 1) (over 0) 7 refl refl refl refl refl
      (drainer 1 refl refl) over-Quiet
