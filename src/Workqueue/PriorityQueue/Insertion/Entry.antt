-- ===== src/Workqueue/PriorityQueue/Insertion/Entry.antt =====
-- A new entry of the heap of pkg/workqueue/delaying_queue.go.
use kube_trigger.Base.{
  some-injective, ℕ, suc, ◌<◌, ◌≡◌, sym, ap, ◌∙◌, arith, ltb, none, some, Bool-cases, inl, inr,
  if_pos, if_neg, List,
}
use kube_trigger.Base.Dict
use kube_trigger.Base.Dict.{get-put, get-put_self}
use kube_trigger.Workqueue.PriorityQueue.{PriorityQueue, push, allocate}
use kube_trigger.Workqueue.PriorityQueue.Order.{parent, IsHeap}
use kube_trigger.Workqueue.PriorityQueue.Mapped.{IsMapped}
use kube_trigger.Workqueue.PriorityQueue.Up.{UpInv}

absurd_some : {A : Type 0} {x : A} → some x ≡ none → ⊥
absurd_some e = cc

abbrev pub added : {K : Type 0} → PriorityQueue K → K → ℕ → PriorityQueue K
added q k t = push (allocate q k t) q.allocated

module _ {K : Type 0} (dec : Discrete K) where
  -- A new entry at the end of the slice, and in the map.
  pub push-IsMapped :
      (q : PriorityQueue K) (known : List (K × ℕ)) (k : K) (t : ℕ)
      → Dict.get dec k known ≡ none
      → IsMapped dec q known
      → IsMapped dec (added q k t) (Dict.put dec k q.allocated known)
  unfolding push allocate
  push-IsMapped q known k t new v = record {
    indexed = λ i h. ground (arith, v.indexed i, v.owned i);
    owned = λ i h. ground (arith, v.owned i);
    mapped = λ i h. elim (Bool-cases (ltb i q.size)) [
      | inl old ↦
          let below : i < q.size = ground arith in
          let at : (added q k t).slot i ≡ q.slot i = ground arith in
          let named : (added q k t).payload (q.slot i) ≡ q.payload (q.slot i) =
            ground (arith, v.owned i below) in
          let other : ¬ (q.payload (q.slot i) ≡ k) =
            λ e. absurd_some (sym (v.mapped i below) ∙ ap (λ x. Dict.get dec x known) e ∙ new) in
          rw (at, named, get-put dec (q.payload (q.slot i)) k q.allocated known)
            (if_neg (dec (q.payload (q.slot i)) k) other _ _ ∙ v.mapped i below)
      | inr last ↦
          let at : (added q k t).slot i ≡ q.allocated = ground arith in
          let named : (added q k t).payload q.allocated ≡ k = ground arith in
          rw (at, named) (get-put_self dec k q.allocated known)
    ];
    backed = λ j p found. elim (dec j k) [
      | yes e ↦
          let at : q.allocated ≡ p =
            some-injective _ _
              (sym (if_pos (dec j k) e _ _) ∙ sym (get-put dec j k q.allocated known) ∙ found) in
          (q.size, omega arith, ground arith, ground arith)
      | no n ↦
          let (i, less, at, named) =
            v.backed j p
              (sym (if_neg (dec j k) n _ _) ∙ sym (get-put dec j k q.allocated known) ∙ found) in
          (i, omega arith, ground (arith, at), ground (arith, v.owned i less, at, named))
    ];
  }

  pub push-UpInv :
      (q : PriorityQueue K) (known : List (K × ℕ)) (k : K) (t : ℕ)
      → IsHeap q.size q
      → IsMapped dec q known
      → UpInv (suc q.size) (added q k t) q.size
  unfolding push allocate
  push-UpInv q known k t heap v = record {
    inside = omega arith;
    edges = λ c p l ne. ground (arith, heap c, v.owned c, v.owned (parent c));
    bridged = λ c p l e z. absurd (ground arith);
  }
