-- ===== src/Workqueue/PriorityQueue/Insertion.antt =====
-- `insert` of pkg/workqueue/delaying_queue.go.
mod Entry
use kube_trigger.Base.{
  some-injective, ℕ, suc, ◌≤◌, ◌<◌, ◌≡◌, refl, sym, ap, ◌∙◌, subst, arith, ltb, if◌then◌else◌,
  Option, none, some, Option-cases, Bool-cases, inl, inr, ite, if_pos, if_neg, false, List,
}
use kube_trigger.Base.Dict
use kube_trigger.Base.Dict.{get-put, get-put_self}
use kube_trigger.Workqueue.PriorityQueue.{
  PriorityQueue, Waiting, key, write, push, up, heap_push, fix_up, heap_fix, fix_at, sooner,
  allocate, insert, down,
}
use kube_trigger.Workqueue.PriorityQueue.Order.{parent, IsHeap}
use kube_trigger.Workqueue.PriorityQueue.Sifted.{IsIndexed, Sifted}
use kube_trigger.Workqueue.PriorityQueue.Mapped.{IsMapped, IsValid, Sifted-IsMapped}
use kube_trigger.Workqueue.PriorityQueue.Due.{due, due-some, due-none, due_kept, apart}
use kube_trigger.Workqueue.PriorityQueue.Up.{UpInv, up-IsHeap}
use kube_trigger.Workqueue.PriorityQueue.Down.{down-settled}
use Entry.{added, push-IsMapped, push-UpInv}

-- The earlier of a time that there may be and another.
abbrev pub earliest : Option ℕ → ℕ → ℕ
earliest none t = t
earliest (some s) t = if ltb t s then t else s

module _ {K : Type 0} (dec : Discrete K) where
  sooner-UpInv :
      (q : PriorityQueue K) (i t : ℕ)
      → IsHeap q.size q
      → IsIndexed q
      → i < q.size
      → t < key q i
      → UpInv q.size (record q { ready_at = write q.ready_at (q.slot i) t }) i
  sooner-UpInv q i t heap indexed h less = record {
    inside = h;
    edges = λ c p l ne. ground (arith, heap c, heap i, indexed c, indexed i, indexed (parent c));
    bridged = λ c p l e z. ground (arith, heap c, heap i, indexed c, indexed i, indexed (parent i));
  }

  -- What a map with the earlier of the two times for the key holds.
  abbrev pub Inserts : Waiting K → K → ℕ → Waiting K → Type 0
  Inserts w k t v =
      IsValid dec v
      × ((j : K) → due dec v j ≡ ite (dec j k) (some (earliest (due dec w k) t)) (due dec w j))

  sooner-heap :
      (q : PriorityQueue K) (known : List (K × ℕ)) (i t : ℕ)
      → IsHeap q.size q
      → IsMapped dec q known
      → i < q.size
      → t < key q i
      → (r : PriorityQueue K) × (sooner q (q.slot i) t ≡ r)
        × IsHeap q.size r
        × Sifted q.size (record q { ready_at = write q.ready_at (q.slot i) t }) r
  unfolding sooner fix_at heap_fix fix_up
  sooner-heap q known i t heap v h before =
      let changed = record q { ready_at = write q.ready_at (q.slot i) t } in
      let inv = sooner-UpInv q i t heap v.indexed h before in
      let stays : down q.size changed i q.size ≡ (changed, i) =
        down-settled q.size q.size changed i
          (λ c p l e. ground (arith, heap c, v.indexed c, v.indexed i)) in
      let (done, same) = up-IsHeap (suc i) q.size changed i (omega arith) (omega arith) inv in
      let here : ltb i i ≡ false = ground arith in
      (up (suc i) changed i, rw (v.indexed i h, sooner, stays, here), done, same)

  retimed-IsMapped :
      (q : PriorityQueue K) (known : List (K × ℕ)) (times : ℕ → ℕ)
      → IsMapped dec q known
      → IsMapped dec (record q { ready_at = times }) known
  retimed-IsMapped q known times v = record {
    indexed = v.indexed;
    owned = v.owned;
    mapped = v.mapped;
    backed = v.backed;
  }

  sooner-Inserts :
      (w : Waiting K) (k : K) (t p : ℕ)
      → IsValid dec w
      → Dict.get dec k w.known ≡ some p
      → t < w.queue.ready_at p
      → Inserts w k t (record w { queue = sooner w.queue p t })
  sooner-Inserts w k t p v found before =
      let (i, h, at, named) = v.mapped.backed k p found in
      let (r, is, heap, same) =
        sooner-heap w.queue w.known i t v.heap v.mapped h
          (subst (λ x. t < w.queue.ready_at x) (sym at) before) in
      let is' : sooner w.queue p t ≡ r = subst (λ x. sooner w.queue x t ≡ r) at is in
      let times : r.ready_at ≡ write w.queue.ready_at p t =
        subst (λ x. r.ready_at ≡ write w.queue.ready_at x t) at same.ready_at in
      rw (is') (
        record {
          heap = rw (same.size) heap;
          mapped = Sifted-IsMapped dec _ r w.known same (
              retimed-IsMapped w.queue w.known (write w.queue.ready_at (w.queue.slot i) t)
                v.mapped);
        },
        λ j. elim (dec j k) [
          | yes e ↦
              let new : Waiting K = record { queue = r; known = w.known } in
              let first : earliest (due dec w k) t ≡ t =
                rw (due-some dec w k p found) (ground arith) in
              let now : r.ready_at p ≡ t = rw (times) (ground arith) in
              ap (due dec new) e
              ∙ due-some dec new k p found
              ∙ ap some (now ∙ sym first)
              ∙ sym (if_pos (dec j k) e _ _)
          | no n ↦
              due_kept dec (record { queue = r; known = w.known }) w j refl
                (λ s there.
                  let other = apart dec w.queue w.known j k s p v.mapped there found n in
                  rw (times) (ground (arith, other)))
              ∙ sym (if_neg (dec j k) n _ _)
        ],
      )

  push-Inserts :
      (w : Waiting K) (k : K) (t : ℕ)
      → IsValid dec w
      → Dict.get dec k w.known ≡ none
      → Inserts w k t (record {
        queue = heap_push (allocate w.queue k t) w.queue.allocated;
        known = Dict.put dec k w.queue.allocated w.known;
      })
  unfolding heap_push up allocate
  push-Inserts w k t v new =
      let q = w.queue in
      let inv = push-UpInv dec q w.known k t v.heap v.mapped in
      let fits : suc q.size ≤ (added q k t).size = unfold push allocate in omega arith in
      let (heap, same) =
        up-IsHeap (suc q.size) (suc q.size) (added q k t) q.size (omega arith) fits inv in
      let r = up (suc q.size) (added q k t) q.size in
      let done : Waiting K = record { queue = r; known = Dict.put dec k q.allocated w.known } in
      let times : r.ready_at ≡ write q.ready_at q.allocated t =
        same.ready_at ∙ (unfold push allocate in refl) in
      (
        record {
          heap = rw (same.size) (unfold push allocate in heap);
          mapped =
              Sifted-IsMapped dec (added q k t) r (Dict.put dec k q.allocated w.known)
                (unfold push allocate in same) (push-IsMapped dec q w.known k t new v.mapped);
        },
        λ j. elim (dec j k) [
          | yes e ↦
              let first : earliest (due dec w k) t ≡ t = rw (due-none dec w k new) in
              let now : r.ready_at q.allocated ≡ t = rw (times) (ground arith) in
              ap (due dec done) e
              ∙ due-some dec done k q.allocated (get-put_self dec k q.allocated w.known)
              ∙ ap some (now ∙ sym first)
              ∙ sym (if_pos (dec j k) e _ _)
          | no n ↦
              due_kept dec done w j (get-put dec j k q.allocated w.known ∙ if_neg (dec j k) n _ _)
                (λ s there.
                  let (i, less, at, _) = v.mapped.backed j s there in
                  rw (times) (ground (arith, v.mapped.owned i less, at)))
              ∙ sym (if_neg (dec j k) n _ _)
        ],
      )

  keep-Inserts :
      (w : Waiting K) (k : K) (t p : ℕ)
      → IsValid dec w
      → Dict.get dec k w.known ≡ some p
      → w.queue.ready_at p ≤ t
      → Inserts w k t w
  keep-Inserts w k t p v found later = (
    v,
    λ j. elim (dec j k) [
      | yes e ↦
          let first : earliest (due dec w k) t ≡ w.queue.ready_at p =
            rw (due-some dec w k p found) (ground arith) in
          ap (due dec w) e
          ∙ due-some dec w k p found
          ∙ ap some (sym first)
          ∙ sym (if_pos (dec j k) e _ _)
      | no n ↦ sym (if_neg (dec j k) n _ _)
    ],
  )

  -- On a valid heap `insert` is an update of a map from keys to times: the key is due at the earlier
  -- of its time, if it has one, and the new one, every other key when it was, and the heap is valid.
  pub insert-Inserts :
      (w : Waiting K) (k : K) (t : ℕ) → IsValid dec w → Inserts w k t (insert dec w k t)
  unfolding insert
  insert-Inserts w k t v = elim (Option-cases (Dict.get dec k w.known)) [
    | inl new ↦ rw (new, insert) (push-Inserts w k t v new)
    | inr (p, found) ↦ elim (Bool-cases (ltb t (w.queue.ready_at p))) [
      | inl before ↦ rw (found, insert, before) (sooner-Inserts w k t p v found (ground arith))
      | inr later ↦ rw (found, insert, later) (keep-Inserts w k t p v found (ground arith))
    ]
  ]
