-- ===== src/Workqueue/Indexer/Lost/Tests.antt =====
-- How a key of pkg/workqueue/indexer_delaying_queue.go comes to be lost, by calls of its methods.
use kube_trigger.Base.{ℕ, refl, arith, none, some, ℕ_discrete, has}
use kube_trigger.Base.Dict
use kube_trigger.Base.Int.{pos}
use kube_trigger.Workqueue.Items
use kube_trigger.Workqueue.Queue.{Metrics}
use kube_trigger.Workqueue.PriorityQueue.{
  Waiting, empty_queue, less, swap, push, pop, up, down, smaller_child, heapify, heap_init,
  heap_push, heap_pop, fix_up, fix_at, allocate, sooner, new_waiting, insert, take_first,
}
use kube_trigger.Workqueue.PriorityQueue.Insertion.{insert-Inserts}
use kube_trigger.Workqueue.WaitingLoop.{Loop, expiring, here, next, passes, expire_one}
use kube_trigger.Workqueue.WaitingLoop.Invariant.{new_waiting-IsValid}
use kube_trigger.Workqueue.Indexer.{
  Indexer, Keyed, new_indexer, register, renew, outdated, take_entry, take_head, get, finish, done,
  dispatch, add_after,
}
use kube_trigger.Workqueue.Indexer
use kube_trigger.Workqueue.Indexer.Stranded.{IsStranded, indexer_host}
use kube_trigger.Workqueue.Indexer.Lost.{IsLost, expired_early_IsLost}

-- Items are their keys.
abbrev keys : Keyed ℕ ℕ
keys = record { key_func = λ x. some x; less_or_equal = λ a b. none }

abbrev quiet : Metrics ℕ ℕ
quiet = record {
  on_add = λ m k. m;
  on_get = λ m k. m;
  on_done = λ m k. m;
  update_unfinished_work = λ m. m;
}

-- Key 7 is asked for 10, so that it waits on the heap until then.
abbrev asked : Indexer ℕ ℕ ℕ
asked = (add_after ℕ_discrete quiet keys (new_indexer 0) 7 (pos 10) (0, 0, 0)).0

-- At 1 it is asked for at once: it is pushed, processed and done with.
abbrev processed : Indexer ℕ ℕ ℕ
processed =
    let pushed = (add_after ℕ_discrete quiet keys asked 7 (pos 0) (1, 2, 2)).0 in
    done ℕ_discrete quiet keys (get ℕ_discrete pushed).0 7

-- At 5 it is asked for 25.
abbrev asked_again : Indexer ℕ ℕ ℕ
asked_again = (add_after ℕ_discrete quiet keys processed 7 (pos 20) (5, 5, 5)).0

-- The loop has received both times: `insert` has dropped the later one. It takes the key at 10.
abbrev heap : Waiting ℕ
heap = insert ℕ_discrete (insert ℕ_discrete (new_waiting 0) 7 10) 7 25

abbrev loop : Loop (Indexer ℕ ℕ ℕ) ℕ
loop = record { host = asked_again; waiting = heap; phase = expiring 10; time = 10 }

stranded : IsStranded ℕ_discrete 7 25 asked_again
unfolding add_after register renew outdated dispatch Indexer.push take_entry take_head get finish
    done new_indexer has Items.insert Items.delete ℕ_discrete Dict.get Dict.put Dict.remove
stranded = record { registered = (7, refl); not_dirty = refl; not_queued = refl; not_sent = tt }

-- At 110 it still is not handed out.
abbrev afterwards : Loop (Indexer ℕ ℕ ℕ) ℕ
afterwards = record (expire_one ℕ_discrete (indexer_host ℕ_discrete quiet) loop) { time = 110 }

expired_early_IsLost_example : IsLost ℕ_discrete quiet keys 7 25 afterwards
unfolding insert sooner fix_at fix_up new_waiting heap_init heapify empty_queue heap_push allocate
    push up less swap take_first heap_pop pop down smaller_child Dict.get Dict.put ℕ_discrete
    expire_one
expired_early_IsLost_example =
    expired_early_IsLost ℕ_discrete quiet keys 7 25 0 loop afterwards
      (insert-Inserts ℕ_discrete (insert ℕ_discrete (new_waiting 0) 7 10) 7 25
        (insert-Inserts ℕ_discrete (new_waiting 0) 7 10 (new_waiting-IsValid ℕ_discrete 0)).0).0
      refl refl (omega arith) stranded (next here (passes 100 refl))
