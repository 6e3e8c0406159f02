-- ===== src/Workqueue/DelayingQueue/Kept/Tests.antt =====
-- An item of pkg/workqueue/delaying_queue.go that waits on the heap.
use kube_trigger.Base.{ℕ, ◌<◌, ◌≡◌, refl, inl, some, ℕ_discrete, List, [], ◌∷◌, ◌++◌, length, false}
use kube_trigger.Base.Int.{pos}
use kube_trigger.Workqueue.Metrics.{retry, new_retry_metrics}
use kube_trigger.Workqueue.PriorityQueue.{
  empty_queue, less, swap, push, peek, up, heapify, heap_init, heap_push, insert, new_waiting,
  allocate,
}
use kube_trigger.Workqueue.PriorityQueue.Due.{due}
use kube_trigger.Base.Dict
use kube_trigger.Workqueue.WaitingLoop.{
  Loop, Host, new_loop, draining, selecting, is_settled, accept, Reach, here, next, begins, settles,
  receives, drained, others,
}
use kube_trigger.Workqueue.DelayingQueue.{
  Inner, DelayingQueue, new_delaying_queue, add_after, queues, loop_host,
}
use kube_trigger.Workqueue.DelayingQueue.Kept.{
  sent, Logged, Held, logged_host, Other, calls, sends, new_logged, never_lost,
}

-- The inner queue is the list of the items added.
abbrev pub items : Inner (List ℕ) ℕ
items = record {
  add = λ q x. q ++ x ∷ [];
  len = λ q. length q;
  shut_down = λ q. q;
  shutting_down = λ q. false;
}

abbrev pub host : Host (Logged (List ℕ) ℕ) ℕ
host = logged_host items

abbrev pub queue : List (ℕ × ℕ) → DelayingQueue (List ℕ) ℕ
queue c = record { inner = []; stopped = false; waiting_for_add = c; retries = some 1 }

abbrev pub start : Loop (Logged (List ℕ) ℕ) ℕ
start = new_loop 0 (new_logged items false [])

abbrev pub full : Logged (List ℕ) ℕ
full = record { queue = queue ((7, 5) ∷ []); log = sent 7 5 ∷ [] }

abbrev pub asleep : Loop (Logged (List ℕ) ℕ) ℕ
asleep = record start { host = full; phase = selecting 0 }

abbrev pub received : Loop (Logged (List ℕ) ℕ) ℕ
received =
    accept ℕ_discrete host (record asleep { host = host.set_channel [] full; phase = draining }) 7 5

abbrev pub asleep_again : Loop (Logged (List ℕ) ℕ) ℕ
asleep_again = record received { phase = selecting 0 }

pub again-Reach : Reach ℕ_discrete host (Other items) start asleep_again
unfolding new_loop new_logged new_delaying_queue new_retry_metrics add_after retry logged_host
    loop_host is_settled peek accept insert new_waiting heap_init heapify empty_queue heap_push
    allocate push up less swap Dict.get Dict.put ℕ_discrete
again-Reach =
    next
      (next
        (next
          (next
            (next
              (next
                (next
                  (next here
                    (others (record { queue = queue []; log = [] }) (calls 7 (pos 5) refl) refl))
                  (others full (sends 7 5 (queues refl refl) refl) refl))
                (begins refl refl refl))
              (settles 0 refl refl refl))
            (receives 0 7 5 [] (inl refl) refl refl))
          (drained refl refl refl))
        (begins refl refl refl))
      (settles 0 refl refl refl)

never_lost_example :
    Held items ℕ_discrete asleep_again 7 5
    × ((now : ℕ)
        → asleep_again.phase ≡ selecting now
        → (j : ℕ) (s : ℕ) → due ℕ_discrete asleep_again.waiting j ≡ some s
        → now < s)
unfolding accept logged_host loop_host insert new_waiting heap_init heapify empty_queue heap_push
    allocate push up less swap Dict.get Dict.put ℕ_discrete new_loop new_logged new_delaying_queue
never_lost_example =
    never_lost items ℕ_discrete 0 false [] asleep_again 7 5 again-Reach (inl (refl, refl))
