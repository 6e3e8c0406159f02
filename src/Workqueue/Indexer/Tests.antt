-- ===== src/Workqueue/Indexer/Tests.antt =====
-- Runs of the queue of pkg/workqueue/indexer_delaying_queue.go on small inputs.
use kube_trigger.Base.{ℕ, ◌≡◌, refl, some, List, [], ◌∷◌, has, ℕ_discrete, leb}
use kube_trigger.Base.Dict
use kube_trigger.Workqueue.Items.{insert, delete}
use kube_trigger.Workqueue.Queue.{Metrics}
use kube_trigger.Workqueue.Indexer.{
  Indexer, Keyed, item, new_indexer, register, renew, outdated, push, take_entry, take_head, get,
  finish, done,
}
use kube_trigger.Workqueue.Indexer.Invariant.{IsValid}
use kube_trigger.Workqueue.Indexer.Run.{Call, registers, pushes, gets, dones, run, Hands, run-Hands}

-- Items are a key and a version.
abbrev versions : Keyed ℕ (ℕ × ℕ)
versions = record { key_func = λ x. some x.0; less_or_equal = λ a b. some (leb a.1 b.1) }

abbrev quiet : Metrics ℕ ℕ
quiet = record {
  on_add = λ m k. m;
  on_get = λ m k. m;
  on_done = λ m k. m;
  update_unfinished_work = λ m. m;
}

abbrev start : Indexer ℕ ℕ (ℕ × ℕ)
start = new_indexer 0

-- A newer version arrives before the first one is handed out, and another while it is processed.
abbrev history : List (Call ℕ (ℕ × ℕ))
history =
    registers 1 (1, 5) 10
    ∷ pushes 1 11
    ∷ registers 1 (1, 6) 12
    ∷ gets
    ∷ registers 1 (1, 7) 13
    ∷ pushes 1 14
    ∷ dones (1, 6)
    ∷ []

newest : (get ℕ_discrete (run ℕ_discrete quiet versions start history)).1 ≡ item (1, 7)
unfolding run new_indexer register renew outdated push take_entry take_head get finish done has
    insert delete ℕ_discrete Dict.get Dict.put Dict.remove
newest = refl

run-Hands_example :
    IsValid ℕ_discrete versions (run ℕ_discrete quiet versions start history)
    × Hands ℕ_discrete quiet versions
        (run ℕ_discrete quiet versions start history)
        (run ℕ_discrete quiet versions start history).queue
        (get ℕ_discrete (run ℕ_discrete quiet versions start history)).1
unfolding new_indexer register renew outdated push take_entry take_head get finish done has insert
    delete ℕ_discrete Dict.get Dict.put Dict.remove
run-Hands_example =
    run-Hands ℕ_discrete quiet versions 0 history
      (refl, (tt, (refl, (tt, (refl, (tt, (refl, tt)))))))
