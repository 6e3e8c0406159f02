-- ===== src/Workqueue/DelayingQueue/Tests.antt =====
-- A run of pkg/workqueue/delaying_queue.go with one item.
use kube_trigger.Base.{
  In, ℕ, ◌≤◌, ◌≡◌, refl, inl, some, ℕ_discrete, List, [], ◌∷◌, ◌++◌, length, false,
}
use kube_trigger.Base.Dict
use kube_trigger.Base.Int.{pos}
use kube_trigger.Workqueue.PriorityQueue.{
  empty_queue, less, swap, push, pop, peek, up, down, smaller_child, heapify, heap_init, heap_push,
  heap_pop, allocate, new_waiting, insert, take_first,
}
use kube_trigger.Workqueue.Metrics.{new_retry_metrics, retry}
use kube_trigger.Workqueue.WaitingLoop.{
  Loop, Host, new_loop, draining, expiring, selecting, is_settled, accept, expire_one, Reach, here,
  next, begins, expires, settles, receives, drained, passes, others,
}
use kube_trigger.Workqueue.DelayingQueue.{
  Inner, DelayingQueue, new_delaying_queue, add_after, queues, loop_host,
}
use kube_trigger.Workqueue.DelayingQueue.Early.{
  Request, ready_of, Traced, traced_host, Other, asks, sends, new_traced, never_early,
}

-- The inner queue is the list of the items added.
abbrev items : Inner (List ℕ) ℕ
items = record {
  add = λ q x. q ++ x ∷ [];
  len = λ q. length q;
  shut_down = λ q. q;
  shutting_down = λ q. false;
}

abbrev host : Host (Traced (List ℕ) ℕ) ℕ
host = traced_host items

abbrev request : Request ℕ
request = record { payload = 7; asked_at = 0; delay = pos 5 }

abbrev queue : List (ℕ × ℕ) → DelayingQueue (List ℕ) ℕ
queue c = record { inner = []; stopped = false; waiting_for_add = c; retries = some 1 }

abbrev start : Loop (Traced (List ℕ) ℕ) ℕ
start = new_loop 0 (new_traced items false [])

-- The item is asked for with a delay of 5, and its entry sent; the loop sleeps and receives it.
abbrev asked : Loop (Traced (List ℕ) ℕ) ℕ
asked = record start {
  host = record { queue = queue []; requests = request ∷ []; pending = (7, 5) ∷ []; handed = [] };
}

abbrev sent : Traced (List ℕ) ℕ
sent = record {
  queue = queue ((7, 5) ∷ []);
  requests = request ∷ [];
  pending = (7, 5) ∷ [];
  handed = [];
}

abbrev asleep : Loop (Traced (List ℕ) ℕ) ℕ
asleep = record start { host = sent; phase = selecting 0 }

abbrev received : Loop (Traced (List ℕ) ℕ) ℕ
received =
    accept ℕ_discrete host (record asleep { host = host.set_channel [] sent; phase = draining }) 7 5

-- At 6 the loop takes the entry.
abbrev awake : Loop (Traced (List ℕ) ℕ) ℕ
awake = record received { phase = expiring 6; time = 6 }

abbrev finished : Loop (Traced (List ℕ) ℕ) ℕ
finished = expire_one ℕ_discrete host awake

finished-Reach : Reach ℕ_discrete host (Other items) start finished
unfolding new_loop new_traced new_delaying_queue new_retry_metrics add_after retry traced_host
    loop_host is_settled peek accept insert new_waiting heap_init heapify empty_queue heap_push
    allocate push up less swap Dict.get Dict.put ℕ_discrete
finished-Reach =
    next
      (next
        (next
          (next
            (next
              (next
                (next
                  (next (next here (others asked.host (asks 7 (pos 5) 5 refl refl) refl)) (
                    others sent (sends 7 5 (queue ((7, 5) ∷ [])) (inl refl) (queues refl refl) refl)
                      refl))
                  (begins refl refl refl))
                (settles 0 refl refl refl))
              (receives 0 7 5 [] (inl refl) refl refl))
            (drained refl refl refl))
          (passes 6 refl))
        (begins refl refl refl))
      (expires 6 refl refl refl)

never_early_example :
    (r : Request ℕ) × In r finished.host.requests × (r.payload ≡ 7) × (ready_of r ≤ 6)
unfolding expire_one traced_host loop_host accept insert new_waiting take_first heap_init heapify
    empty_queue heap_push heap_pop pop allocate push up down less swap smaller_child Dict.get
    Dict.put ℕ_discrete new_loop new_traced new_delaying_queue
never_early_example = never_early items ℕ_discrete 0 false [] finished 7 6 finished-Reach (inl refl)
