-- ===== src/Workqueue/Queue/Status.antt =====
-- What the queue of pkg/workqueue/queue.go promises for each item: a machine of four states.
use kube_trigger.Base.{
  ◌≡◌, sym, ◌∙◌, ite, Bool, true, false, not, ◌&&◌, List, [], ◌∷◌, ◌++◌, refl, arith, if◌then◌else◌,
  has, has_self, ap,
}
use kube_trigger.Workqueue.Items.{has-insert, has-delete}
use kube_trigger.Workqueue.Queue.{Queue, Metrics, item, add, take_head, get, done}
use kube_trigger.Workqueue.Queue.Invariant.{IsValid, add-IsValid, done-IsValid}

-- `rerun` is the state of an item that was added again while a worker has it.
pub data Status : Type 0 where
  idle queued running rerun : Status

abbrev pub status_of : Bool → Bool → Status
status_of false false = idle
status_of true false = queued
status_of false true = running
status_of true true = rerun

unfoldable pub status : {M K : Type 0} → Discrete K → Queue M K → K → Status
status dec q x = status_of (has dec x q.dirty) (has dec x q.processing)

abbrev pub on_add : Status → Status
on_add idle = queued
on_add running = rerun
on_add s = s

abbrev pub on_done : Status → Status
on_done running = idle
on_done rerun = queued
on_done s = s

abbrev pub is_idle : Status → Bool
is_idle idle = true
is_idle s = false

abbrev pub is_queued : Status → Bool
is_queued queued = true
is_queued s = false

abbrev pub is_rerun : Status → Bool
is_rerun rerun = true
is_rerun s = false

is_queued-status_of : (d p : Bool) → (d && not p) ≡ is_queued (status_of d p)
is_queued-status_of false false = refl
is_queued-status_of true false = refl
is_queued-status_of false true = refl
is_queued-status_of true true = refl

module _ {M K : Type 0} (dec : Discrete K) (ops : Metrics M K) where
  -- On a valid queue `Add` moves the item it is given from idle to queued, or from running to rerun,
  -- and leaves every other item where it is; after a shutdown it changes no item. An item that was idle
  -- goes to the end of the queue, which is else as before, and the queue holds exactly the queued items.
  pub status-add :
      (q : Queue M K) (x y : K)
      → IsValid dec q
      → (status dec (add dec ops q x).0 y ≡ (
          if q.shutting_down
          then status dec q y
          else ite (dec y x) (on_add (status dec q y)) (status dec q y)))
        × (has dec y (add dec ops q x).0.items ≡ is_queued (status dec (add dec ops q x).0 y))
        × ((add dec ops q x).0.items ≡ (
            if not q.shutting_down && is_idle (status dec q x) then q.items ++ x ∷ [] else q.items))
  unfolding status
  status-add q x y v = (
    (unfold add in ground (arith, has-insert dec y x q.dirty)),
    (add-IsValid dec ops q x v).queued y ∙ is_queued-status_of _ _,
    (unfold add in ground arith),
  )

  -- On a valid queue `Get` hands out the oldest item, which was queued, so no worker had it, and
  -- which is running from then on; every other item stays where it is.
  pub status-get :
      (q : Queue M K) (x : K) (rest : List K) (y : K)
      → IsValid dec q
      → q.items ≡ x ∷ rest
      → ((get dec ops q).1 ≡ item x)
        × ((get dec ops q).0.items ≡ rest)
        × (status dec q x ≡ queued)
        × (status dec (get dec ops q).0 y ≡ ite (dec y x) running (status dec q y))
  unfolding status get
  status-get q x rest y v e =
      let queued_x : (true ≡ (has dec x q.dirty && not (has dec x q.processing))) =
        sym (has_self dec x rest) ∙ ap (has dec x) (sym e) ∙ v.queued x in
      (
        rw (e, take_head),
        rw (e, take_head),
        ground arith,
        rw (e, take_head)
            (ground (arith, has-delete dec y x q.dirty, has-insert dec y x q.processing)),
      )

  -- On a valid queue `Done` ends the run of an item: it is idle then, or queued once more, at the end of
  -- the queue, if it was added in the meantime. Every other item stays where it is, the queue is else as
  -- before, and it holds exactly the queued items.
  pub status-done :
      (q : Queue M K) (x y : K)
      → IsValid dec q
      → has dec x q.processing ≡ true
      → (status dec (done dec ops q x).0 y
          ≡ ite (dec y x) (on_done (status dec q y)) (status dec q y))
        × (has dec y (done dec ops q x).0.items ≡ is_queued (status dec (done dec ops q x).0 y))
        × ((done dec ops q x).0.items
            ≡ (if is_rerun (status dec q x) then q.items ++ x ∷ [] else q.items))
  unfolding status
  status-done q x y v held = (
    (unfold done in ground (arith, has-delete dec y x q.processing)),
    (done-IsValid dec ops q x held v).queued y ∙ is_queued-status_of _ _,
    (unfold done in ground arith),
  )
