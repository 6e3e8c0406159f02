-- ===== src/Workqueue/Tests.antt =====
-- Runs of pkg/workqueue on small inputs, and its theorems at concrete histories.
use kube_trigger.Base.{
  if◌then◌else◌, ℕ, ◌*◌, ◌≡◌, refl, ite, false, List, [], ◌∷◌, arith, has, ℕ_discrete,
}
use kube_trigger.Base.Dict
use kube_trigger.Workqueue.Items.{insert, delete}
use kube_trigger.Workqueue.Queue.{Queue, Metrics, item, new_queue, add, take_head, get, done}
use kube_trigger.Workqueue.Queue.Invariant.{IsValid}
use kube_trigger.Workqueue.Queue.Run.{Call, adds, gets, dones, run, run-IsValid}
use kube_trigger.Workqueue.Queue.Status.{
  queued, running, status, on_add, on_done, is_idle, is_queued, is_rerun, status-add, status-get,
  status-done,
}
use kube_trigger.Workqueue.Queue.Wakeup.{
  World, new_world, Reach, Step, here, next, settle, no_lost_wakeup,
}
use kube_trigger.Workqueue.Queue.Wakeup
use kube_trigger.Workqueue.Metrics.{DefaultMetrics, fresh_metrics, update_unfinished_work}
use kube_trigger.Workqueue.Metrics as Gauges
use kube_trigger.Workqueue.Metrics.Depth.{Tracks, default_ops, run-Tracks}

-- Metrics that do nothing.
abbrev quiet : Metrics (Unit {0}) ℕ
quiet = record {
  on_add = λ m x. m;
  on_get = λ m x. m;
  on_done = λ m x. m;
  update_unfinished_work = λ m. m;
}

-- An item is added again while a worker has it, and done.
abbrev history : List (Call ℕ)
history = adds 1 ∷ adds 2 ∷ gets ∷ adds 1 ∷ dones 1 ∷ []

abbrev start : Queue (Unit {0}) ℕ
start = new_queue tt

requeued : (run ℕ_discrete quiet start history).items ≡ 2 ∷ 1 ∷ []
unfolding run new_queue add get take_head done has insert delete ℕ_discrete
requeued = refl

run-IsValid_example : IsValid ℕ_discrete (run ℕ_discrete quiet start history)
unfolding new_queue add get take_head done has insert delete ℕ_discrete
run-IsValid_example = run-IsValid ℕ_discrete quiet tt history (tt, (tt, (tt, (tt, (refl, tt)))))

-- One item queued.
abbrev one : Queue (Unit {0}) ℕ
one = record {
  items = 7 ∷ [];
  dirty = 7 ∷ [];
  processing = [];
  shutting_down = false;
  drain = false;
  metrics = tt;
}

one-IsValid : IsValid ℕ_discrete one
unfolding has
one-IsValid = record { distinct = (refl, tt); distinct_processing = tt; queued = λ x. ground arith }

status-add_example :
    (status ℕ_discrete (add ℕ_discrete quiet one 5).0 5
      ≡ ite (ℕ_discrete 5 5) (on_add (status ℕ_discrete one 5)) (status ℕ_discrete one 5))
    × (has ℕ_discrete 5 (add ℕ_discrete quiet one 5).0.items
        ≡ is_queued (status ℕ_discrete (add ℕ_discrete quiet one 5).0 5))
    × ((add ℕ_discrete quiet one 5).0.items
        ≡ (if is_idle (status ℕ_discrete one 5) then 7 ∷ 5 ∷ [] else 7 ∷ []))
status-add_example = status-add ℕ_discrete quiet one 5 5 one-IsValid

status-get_example :
    ((get ℕ_discrete quiet one).1 ≡ item 7)
    × ((get ℕ_discrete quiet one).0.items ≡ [])
    × (status ℕ_discrete one 7 ≡ queued)
    × (status ℕ_discrete (get ℕ_discrete quiet one).0 7
        ≡ ite (ℕ_discrete 7 7) running (status ℕ_discrete one 7))
status-get_example = status-get ℕ_discrete quiet one 7 [] 7 one-IsValid refl

abbrev busy : Queue (Unit {0}) ℕ
busy = record one { items = []; processing = 7 ∷ [] }

busy-IsValid : IsValid ℕ_discrete busy
unfolding has ℕ_discrete
busy-IsValid = record {
  distinct = tt;
  distinct_processing = (refl, tt);
  queued = λ x. ground arith;
}

status-done_example :
    (status ℕ_discrete (done ℕ_discrete quiet busy 7).0 7
      ≡ ite (ℕ_discrete 7 7) (on_done (status ℕ_discrete busy 7)) (status ℕ_discrete busy 7))
    × (has ℕ_discrete 7 (done ℕ_discrete quiet busy 7).0.items
        ≡ is_queued (status ℕ_discrete (done ℕ_discrete quiet busy 7).0 7))
    × ((done ℕ_discrete quiet busy 7).0.items
        ≡ (if is_rerun (status ℕ_discrete busy 7) then 7 ∷ [] else []))
unfolding has ℕ_discrete
status-done_example = status-done ℕ_discrete quiet busy 7 7 busy-IsValid refl

-- A goroutine waits in `Get`.
abbrev sleeping : World (Unit {0}) ℕ
sleeping = record { queue = start; asleep = 1; woken = 0; drain_asleep = 0; drain_awake = 0 }

sleeping-Reach : Reach ℕ_discrete quiet (new_world tt) sleeping
unfolding new_world new_queue get take_head
sleeping-Reach = next here (Wakeup.gets refl)

no_lost_wakeup_example : (sleeping.queue.items ≡ []) × (sleeping.queue.shutting_down ≡ false)
no_lost_wakeup_example =
    no_lost_wakeup ℕ_discrete quiet tt sleeping sleeping-Reach (omega arith) refl

abbrev ticking : ℕ → ℕ
ticking n = n * 10

run-Tracks_example :
    Tracks ℕ_discrete
      (run ℕ_discrete (default_ops ℕ_discrete) (new_queue (fresh_metrics ticking)) history)
unfolding new_queue add get take_head done has insert delete ℕ_discrete Gauges.add Gauges.get
    Gauges.done Gauges.observe_latency Dict.get Dict.put Dict.remove
run-Tracks_example = run-Tracks ℕ_discrete ticking history (tt, (tt, (tt, (tt, (refl, tt)))))
