-- ===== src/Workqueue/Queue/Invariant.antt =====
-- The invariant of the queue of pkg/workqueue/queue.go, kept by every operation.
use kube_trigger.Base.{
  ◌≡◌, refl, sym, ap, ◌∙◌, subst, true, false, not, ◌&&◌, List, [], ◌∷◌, arith, has, has-cons,
  has-snoc, IsDistinct, snoc-IsDistinct,
}
use kube_trigger.Workqueue.Items.{
  insert, delete, has-insert, has-delete, insert-IsDistinct, delete-IsDistinct,
}
use kube_trigger.Workqueue.Queue.{
  Queue, Metrics, new_queue, add, take_head, get, done, shut_down, start_drain,
}

-- The queue holds, once each, exactly the dirty items that no worker has.
pub record IsValid {M K : Type 0} (dec : Discrete K) (q : Queue M K) : Type 0 where
  pub distinct : IsDistinct dec q.items
  pub distinct_processing : IsDistinct dec q.processing
  pub queued : (x : K) → has dec x q.items ≡ (has dec x q.dirty && not (has dec x q.processing))

module _ {M K : Type 0} (dec : Discrete K) where
  pub new-IsValid : (m : M) → IsValid dec (new_queue {K = K} m)
  unfolding new_queue has
  new-IsValid m = record { distinct = tt; distinct_processing = tt; queued = λ x. refl }

  module _ (ops : Metrics M K) where
    add-queued :
        (q : Queue M K) (x y : K)
        → has dec x q.items ≡ (has dec x q.dirty && not (has dec x q.processing))
        → has dec y q.items ≡ (has dec y q.dirty && not (has dec y q.processing))
        → has dec y (add dec ops q x).0.items
          ≡ (has dec y (add dec ops q x).0.dirty && not (has dec y (add dec ops q x).0.processing))
    unfolding add
    add-queued q x y hx hy = ground (arith, has-snoc dec y x q.items, has-insert dec y x q.dirty)

    add-IsDistinct :
        (q : Queue M K) (x : K) → IsValid dec q → IsDistinct dec (add dec ops q x).0.items
    unfolding add
    add-IsDistinct q x v = ground (arith, v.queued x, snoc-IsDistinct dec x q.items)

    add-processing : (q : Queue M K) (x : K) → (add dec ops q x).0.processing ≡ q.processing
    unfolding add
    add-processing q x = ground arith

    -- `Add` keeps the invariant, whatever the state of the item.
    pub add-IsValid : (q : Queue M K) (x : K) → IsValid dec q → IsValid dec (add dec ops q x).0
    add-IsValid q x v = record {
      distinct = add-IsDistinct q x v;
      distinct_processing = rw (add-processing q x) v.distinct_processing;
      queued = λ y. add-queued q x y (v.queued x) (v.queued y);
    }

    take_head-queued :
        (q : Queue M K) (x : K) (rest : List K) (y : K)
        → has dec x rest ≡ false
        → has dec y (x ∷ rest) ≡ (has dec y q.dirty && not (has dec y q.processing))
        → has dec y rest
          ≡ (has dec y (delete dec x q.dirty) && not (has dec y (insert dec x q.processing)))
    take_head-queued q x rest y absent h =
        ground (
          arith,
          has-cons dec y x rest,
          has-delete dec y x q.dirty,
          has-insert dec y x q.processing,
        )

    take_head-IsValid :
        (q : Queue M K) (xs : List K)
        → q.items ≡ xs
        → IsValid dec q
        → IsValid dec (take_head dec ops q xs).0
    unfolding take_head
    take_head-IsValid q [] e v = v
    take_head-IsValid q (x ∷ rest) e v =
        let d : IsDistinct dec (x ∷ rest) = subst (IsDistinct dec) e v.distinct in
        record {
          distinct = d.1;
          distinct_processing = insert-IsDistinct dec x q.processing v.distinct_processing;
          queued = λ y. take_head-queued q x rest y d.0 (ap (has dec y) (sym e) ∙ v.queued y);
        }

    pub get-IsValid : (q : Queue M K) → IsValid dec q → IsValid dec (get dec ops q).0
    unfolding get
    get-IsValid q v = take_head-IsValid q q.items refl v

    done-queued :
        (q : Queue M K) (x y : K)
        → has dec x q.processing ≡ true
        → has dec y q.items ≡ (has dec y q.dirty && not (has dec y q.processing))
        → has dec y (done dec ops q x).0.items ≡ (
            has dec y (done dec ops q x).0.dirty && not (has dec y (done dec ops q x).0.processing))
    unfolding done
    done-queued q x y running hy =
        ground (arith, has-snoc dec y x q.items, has-delete dec y x q.processing)

    done-IsDistinct :
        (q : Queue M K) (x : K)
        → has dec x q.processing ≡ true
        → IsValid dec q
        → IsDistinct dec (done dec ops q x).0.items
    unfolding done
    done-IsDistinct q x running v =
        ground (arith, v.queued x, v.distinct, snoc-IsDistinct dec x q.items)

    done-processing :
        (q : Queue M K) (x : K) → (done dec ops q x).0.processing ≡ delete dec x q.processing
    unfolding done
    done-processing q x = ground arith

    pub done-IsValid :
        (q : Queue M K) (x : K)
        → has dec x q.processing ≡ true
        → IsValid dec q
        → IsValid dec (done dec ops q x).0
    done-IsValid q x running v = record {
      distinct = done-IsDistinct q x running v;
      distinct_processing =
          rw (done-processing q x) (delete-IsDistinct dec x q.processing v.distinct_processing);
      queued = λ y. done-queued q x y running (v.queued y);
    }

  pub shut_down-IsValid : (q : Queue M K) → IsValid dec q → IsValid dec (shut_down q).0
  unfolding shut_down
  shut_down-IsValid q v = record {
    distinct = v.distinct;
    distinct_processing = v.distinct_processing;
    queued = v.queued;
  }

  pub start_drain-IsValid : (q : Queue M K) → IsValid dec q → IsValid dec (start_drain q).0
  unfolding start_drain
  start_drain-IsValid q v = record {
    distinct = v.distinct;
    distinct_processing = v.distinct_processing;
    queued = v.queued;
  }
