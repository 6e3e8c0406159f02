-- ===== src/Workqueue/DelayingQueue/Handed/Tests.antt =====
-- An item of pkg/workqueue/delaying_queue.go that is handed out.
use kube_trigger.Base.{ℕ, ◌≤◌, refl, false, List, [], ℕ_discrete}
use kube_trigger.Workqueue.WaitingLoop.{Loop, Reach}
use kube_trigger.Workqueue.WaitingLoop.Progress.{Alone}
use kube_trigger.Workqueue.DelayingQueue.Kept.{Logged, Waits}
use kube_trigger.Workqueue.DelayingQueue.Kept.Tests.{items, host, asleep_again, again-Reach}
use kube_trigger.Workqueue.DelayingQueue.Handed.{all_handed}

all_handed_example :
    (v : Loop (Logged (List ℕ) ℕ) ℕ) × Reach ℕ_discrete host Alone asleep_again v
    × ((k : ℕ) (t : ℕ) → t ≤ 5 → ¬ Waits k t v.host.log)
all_handed_example =
    all_handed items ℕ_discrete 0 false [] asleep_again 5 (λ q x. refl) again-Reach (λ e. cc) refl
