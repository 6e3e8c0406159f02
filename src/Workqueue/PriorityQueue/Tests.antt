-- ===== src/Workqueue/PriorityQueue/Tests.antt =====
-- The heap of pkg/workqueue/delaying_queue.go with a few keys.
use kube_trigger.Base.{ℕ, ◌≤◌, ◌≡◌, refl, arith, some, ℕ_discrete, [], ◌∷◌}
use kube_trigger.Base.Dict
use kube_trigger.Workqueue.PriorityQueue.{
  Waiting, key, empty_queue, less, swap, push, pop, peek, up, down, smaller_child, heapify,
  heap_init, heap_push, heap_pop, allocate, new_waiting, insert, take_first,
}
use kube_trigger.Workqueue.PriorityQueue.Mapped.{IsValid}
use kube_trigger.Workqueue.PriorityQueue.Due.{due}
use kube_trigger.Workqueue.PriorityQueue.Insertion.{Inserts, insert-Inserts}
use kube_trigger.Workqueue.PriorityQueue.Removal.{Removes, take_first-Removes}
use kube_trigger.Workqueue.WaitingLoop.{expire, is_settled}
use kube_trigger.Workqueue.WaitingLoop.Expiry.{Expires, expire-Expires}
use kube_trigger.Workqueue.WaitingLoop.Invariant.{new_waiting-IsValid}

abbrev one : Waiting ℕ
one = insert ℕ_discrete (new_waiting 0) 7 30

abbrev three : Waiting ℕ
three = insert ℕ_discrete (insert ℕ_discrete one 8 20) 9 40

one-IsValid : IsValid ℕ_discrete one
one-IsValid = (insert-Inserts ℕ_discrete (new_waiting 0) 7 30 (new_waiting-IsValid ℕ_discrete 0)).0

three-IsValid : IsValid ℕ_discrete three
three-IsValid =
    (insert-Inserts ℕ_discrete (insert ℕ_discrete one 8 20) 9 40
      (insert-Inserts ℕ_discrete one 8 20 one-IsValid).0).0

-- The last key is moved up to the front.
insert-Inserts_example : Inserts ℕ_discrete three 9 10 (insert ℕ_discrete three 9 10)
insert-Inserts_example = insert-Inserts ℕ_discrete three 9 10 three-IsValid

take_first-Removes_example :
    Removes ℕ_discrete three (take_first ℕ_discrete three).1 (take_first ℕ_discrete three).0
    × (due ℕ_discrete three (take_first ℕ_discrete three).1 ≡ some (key three.queue 0))
    × ((j : ℕ) (t : ℕ) → due ℕ_discrete three j ≡ some t → key three.queue 0 ≤ t)
    × ((take_first ℕ_discrete three).0.queue.size ≡ 2)
unfolding insert new_waiting heap_init heapify empty_queue heap_push allocate push up less swap
    Dict.get Dict.put ℕ_discrete
take_first-Removes_example = take_first-Removes ℕ_discrete three 2 three-IsValid refl

expire-Expires_example : Expires ℕ_discrete 30 three (expire ℕ_discrete 3 30 three)
unfolding insert new_waiting heap_init heapify empty_queue heap_push allocate push up less swap
    Dict.get Dict.put ℕ_discrete
expire-Expires_example = expire-Expires ℕ_discrete 3 30 three three-IsValid (omega arith)

handed_in_order : (expire ℕ_discrete 3 30 three).1 ≡ 8 ∷ 7 ∷ []
unfolding insert new_waiting heap_init heapify empty_queue heap_push allocate push up less swap
    Dict.get Dict.put ℕ_discrete expire is_settled peek take_first heap_pop pop down smaller_child
    Dict.remove
handed_in_order = refl
