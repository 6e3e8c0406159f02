-- ===== src/Workqueue/Queue/Run.antt =====
-- Histories of calls on the queue of pkg/workqueue/queue.go.
use kube_trigger.Base.{◌≡◌, true, List, [], ◌∷◌, has}
use kube_trigger.Workqueue.Queue.{Queue, Metrics, new_queue, add, get, done, shut_down, start_drain}
use kube_trigger.Workqueue.Queue.Invariant.{
  IsValid, new-IsValid, add-IsValid, get-IsValid, done-IsValid, shut_down-IsValid,
  start_drain-IsValid,
}

pub data Call (K : Type 0) : Type 0 where
  adds : K → Call K
  gets : Call K
  dones : K → Call K
  shuts drains : Call K

module _ {M K : Type 0} (dec : Discrete K) (ops : Metrics M K) where
  abbrev pub step : Queue M K → Call K → Queue M K
  step q (adds x) = (add dec ops q x).0
  step q gets = (get dec ops q).0
  step q (dones x) = (done dec ops q x).0
  step q shuts = (shut_down q).0
  step q drains = (start_drain q).0

  unfoldable pub run : Queue M K → List (Call K) → Queue M K
  run q [] = q
  run q (c ∷ cs) = run (step q c) cs

  -- The contract of the callers: `Done` is called for an item that `Get` gave out.
  abbrev pub Legal : Queue M K → Call K → Type 0
  Legal q (dones x) = has dec x q.processing ≡ true
  Legal q _ = Unit {0}

  abbrev pub LegalRun : Queue M K → List (Call K) → Type 0
  LegalRun q [] = Unit {0}
  LegalRun q (c ∷ cs) = Legal q c × LegalRun (step q c) cs

  pub step-IsValid :
      (q : Queue M K) (c : Call K) → Legal q c → IsValid dec q → IsValid dec (step q c)
  step-IsValid q (adds x) l v = add-IsValid dec ops q x v
  step-IsValid q gets l v = get-IsValid dec ops q v
  step-IsValid q (dones x) l v = done-IsValid dec ops q x l v
  step-IsValid q shuts l v = shut_down-IsValid dec q v
  step-IsValid q drains l v = start_drain-IsValid dec q v

  run_from-IsValid :
      (q : Queue M K) (cs : List (Call K)) → LegalRun q cs → IsValid dec q → IsValid dec (run q cs)
  unfolding run
  run_from-IsValid q [] l v = v
  run_from-IsValid q (c ∷ cs) l v = run_from-IsValid (step q c) cs l.1 (step-IsValid q c l.0 v)

  -- After any history of calls from a new queue in which `Done` is called only for items that are
  -- being processed, the queue holds, once each, exactly the dirty items that no worker has.
  pub run-IsValid :
      (m : M) (cs : List (Call K)) → LegalRun (new_queue m) cs → IsValid dec (run (new_queue m) cs)
  run-IsValid m cs l = run_from-IsValid (new_queue m) cs l (new-IsValid dec m)
