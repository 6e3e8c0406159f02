-- ===== src/Workqueue/PriorityQueue/Removal.antt =====
-- Taking the first entry from the heap of pkg/workqueue/delaying_queue.go.
use kube_trigger.Base.{
  some-injective, ℕ, suc, ◌-◌, ◌≤◌, ◌<◌, ◌≡◌, ◌≢◌, refl, sym, ap, ◌∙◌, subst, arith, ltb, none,
  some, Option-cases, Bool-cases, inl, inr, ite, if_pos, if_neg, List,
}
use kube_trigger.Base.Dict
use kube_trigger.Base.Dict.{get-remove}
use kube_trigger.Workqueue.PriorityQueue.{
  PriorityQueue, Waiting, key, swap, down, pop, heap_pop, take_first,
}
use kube_trigger.Workqueue.PriorityQueue.Order.{parent, IsHeap, key-swap, root_least}
use kube_trigger.Workqueue.PriorityQueue.Sifted.{Sifted, Sifted-chain, swap-Sifted}
use kube_trigger.Workqueue.PriorityQueue.Mapped.{IsMapped, IsValid, Sifted-IsMapped}
use kube_trigger.Workqueue.PriorityQueue.Due.{due, due-some, due-none, due_kept}
use kube_trigger.Workqueue.PriorityQueue.Down.{DownInv, down-IsHeap}

module _ {K : Type 0} where
  -- Slots that sifting leaves alone may be counted in.
  Sifted-wider : (n m : ℕ) (q r : PriorityQueue K) → n ≤ m → Sifted n q r → Sifted m q r
  Sifted-wider n m q r le s = record {
    size = s.size;
    payload = s.payload;
    ready_at = s.ready_at;
    allocated = s.allocated;
    above = λ k h. s.above k (omega arith);
    from_old = λ k h. elim (Bool-cases (ltb k n)) [
      | inl below ↦ let (l, less, e) = s.from_old k (ground arith) in (l, omega arith, e)
      | inr out ↦ (k, h, s.above k (ground arith))
    ];
    to_new = λ k h. elim (Bool-cases (ltb k n)) [
      | inl below ↦ let (l, less, e) = s.to_new k (ground arith) in (l, omega arith, e)
      | inr out ↦ (k, h, sym (s.above k (ground arith)))
    ];
    indexed = s.indexed;
  }

  -- The heap before `Pop`: the old root is last, and the rest is in order.
  rooted :
      (q : PriorityQueue K) (n : ℕ)
      → q.size ≡ suc n
      → IsHeap q.size q
      → (r : PriorityQueue K) × (r ≡ (down n (swap q 0 n) 0 n).0)
        × IsHeap n r
        × Sifted (suc n) q r
        × (r.slot n ≡ q.slot 0)
  rooted q n size heap =
      let at = key-swap q 0 n in
      let swapped = swap-Sifted (suc n) q 0 n (omega arith) (omega arith) (omega arith) in
      let inv : DownInv n (swap q 0 n) 0 = record {
        edges = λ c p l ne. ground (arith, at c, at (parent c), heap c);
        bridged = λ c p l e z. absurd (omega arith);
      } in
      let (ordered, sunk) =
        down-IsHeap n n (swap q 0 n) 0 (omega arith) (omega (arith, swapped.size)) inv in
      (
        (down n (swap q 0 n) 0 n).0,
        refl,
        ordered,
        Sifted-chain (suc n) _ _ _ swapped (Sifted-wider n (suc n) _ _ (omega arith) sunk),
        sunk.above n (omega arith) ∙ (unfold swap in ground arith),
      )

module _ {K : Type 0} (dec : Discrete K) where
  -- `Pop` and the deletion from the map.
  pop-IsMapped :
      (q : PriorityQueue K) (known : List (K × ℕ)) (n : ℕ)
      → q.size ≡ suc n
      → IsMapped dec q known
      → IsMapped dec (pop q).0 (Dict.remove dec (q.payload (q.slot n)) known)
  unfolding pop
  pop-IsMapped q known n size v =
      let last : q.slot (q.size - 1) ≡ q.slot n = ap q.slot (omega arith) in
      let k = q.payload (q.slot n) in
      record {
        indexed = λ i h. ground (arith, last, v.indexed i, v.indexed n);
        owned = λ i h. v.owned i (omega arith);
        mapped = λ i h.
            let own = v.mapped i (omega arith) in
            let other : ¬ (q.payload (q.slot i) ≡ k) = λ e.
              let one : q.slot i ≡ q.slot n =
                cc (own, v.mapped n (omega arith), ap (λ x. Dict.get dec x known) e) in
              ground (arith, one, v.indexed i, v.indexed n) in
            get-remove dec (q.payload (q.slot i)) k known
            ∙ if_neg (dec (q.payload (q.slot i)) k) other _ _
            ∙ own;
        backed = λ j p found. elim (dec j k) [
          | yes e ↦ absurd (cc (sym found ∙ get-remove dec j k known ∙ if_pos (dec j k) e _ _))
          | no ne ↦
              let (i, less, at, named) =
                v.backed j p
                  (sym (if_neg (dec j k) ne _ _) ∙ sym (get-remove dec j k known) ∙ found) in
              let inner : i ≢ n = λ e. ne (sym named ∙ ap q.payload (sym at ∙ ap q.slot e)) in
              (i, omega (arith, inner), at, named)
        ];
      }

  -- What a map without the key holds.
  abbrev pub Removes : Waiting K → K → Waiting K → Type 0
  Removes w k v = IsValid dec v × ((j : K) → due dec v j ≡ ite (dec j k) none (due dec w j))

  pop-Removes :
      (w : Waiting K) (r : PriorityQueue K) (n : ℕ)
      → w.queue.size ≡ suc n
      → IsValid dec w
      → IsHeap n r
      → Sifted (suc n) w.queue r
      → Removes w
          (r.payload (r.slot n))
          (record { queue = (pop r).0; known = Dict.remove dec (r.payload (r.slot n)) w.known })
  unfolding pop
  pop-Removes w r n size v heap same =
      let k = r.payload (r.slot n) in
      let after : Waiting K = record { queue = (pop r).0; known = Dict.remove dec k w.known } in
      let size_r : r.size ≡ suc n = same.size ∙ size in
      let mapped =
        Sifted-IsMapped dec w.queue r w.known (subst (λ m. Sifted m w.queue r) (sym size) same)
          v.mapped in
      (
        record {
          heap = λ c p l. heap c p (omega arith);
          mapped = pop-IsMapped r w.known n size_r mapped;
        },
        λ j. elim (dec j k) [
          | yes e ↦
              due-none dec after j (get-remove dec j k w.known ∙ if_pos (dec j k) e _ _)
              ∙ sym (if_pos (dec j k) e _ _)
          | no ne ↦
              due_kept dec after w j (get-remove dec j k w.known ∙ if_neg (dec j k) ne _ _)
                (λ p there. ap (λ (f : ℕ → ℕ). f p) same.ready_at)
              ∙ sym (if_neg (dec j k) ne _ _)
        ],
      )

  -- Every time that a key is due is one of an entry of the heap.
  pub due-entry :
      (w : Waiting K) (j : K) (t : ℕ)
      → IsValid dec w
      → due dec w j ≡ some t
      → (i : ℕ) × (i < w.queue.size) × (key w.queue i ≡ t)
  due-entry w j t v h = elim (Option-cases (Dict.get dec j w.known)) [
    | inl absent ↦ absurd (cc (h, due-none dec w j absent))
    | inr (p, there) ↦
        let (i, less, at, _) = v.mapped.backed j p there in
        (i, less, ap w.queue.ready_at at ∙ some-injective _ _ (sym (due-some dec w j p there) ∙ h))
  ]

  -- The result of taking the first entry, by the heap before `Pop`.
  taken :
      (w : Waiting K) (n : ℕ) (r : PriorityQueue K)
      → w.queue.size ≡ suc n
      → r ≡ (down n (swap w.queue 0 n) 0 n).0
      → Sifted (suc n) w.queue r
      → take_first dec w ≡ (
        record { queue = (pop r).0; known = Dict.remove dec (r.payload (r.slot n)) w.known },
        r.payload (r.slot n),
      )
  unfolding take_first heap_pop pop
  taken w n r size is same =
      let last : w.queue.size - 1 ≡ n = omega arith in
      let popped : heap_pop w.queue ≡ pop r =
        ap (λ m. pop (down m (swap w.queue 0 m) 0 m).0) last ∙ ap pop (sym is) in
      let at : (pop r).1 ≡ r.slot n = ap r.slot (omega (arith, same.size)) in
      let k : w.queue.payload (heap_pop w.queue).1 ≡ r.payload (r.slot n) =
        ap (λ (f : ℕ → K). f (heap_pop w.queue).1) (sym same.payload)
        ∙ ap r.payload (ap (λ x. x.1) popped ∙ at) in
      λ i. (record { queue = (popped i).0; known = Dict.remove dec (k i) w.known }, k i)

  -- On a valid heap that is not empty, taking the first entry takes the key that is due first, at the
  -- time that the root shows, out of the map from keys to times: every other key is due when it was,
  -- and not before the one taken, and the heap is valid and one smaller.
  pub take_first-Removes :
      (w : Waiting K) (n : ℕ)
      → IsValid dec w
      → w.queue.size ≡ suc n
      → Removes w (take_first dec w).1 (take_first dec w).0
        × (due dec w (take_first dec w).1 ≡ some (key w.queue 0))
        × ((j : K) (t : ℕ) → due dec w j ≡ some t → key w.queue 0 ≤ t)
        × ((take_first dec w).0.queue.size ≡ n)
  take_first-Removes w n v size =
      let (r, is, heap, same, root) = rooted w.queue n size v.heap in
      let e = taken w n r size is same in
      let k : w.queue.payload (w.queue.slot 0) ≡ r.payload (r.slot n) =
        ap w.queue.payload (sym root) ∙ ap (λ (f : ℕ → K). f (r.slot n)) (sym same.payload) in
      let root_there = v.mapped.mapped 0 (omega arith) in
      rw (e) (
        pop-Removes w r n size v heap same,
        ap (due dec w) (sym k) ∙ due-some dec w _ _ root_there,
        (λ j t h.
            let (i, less, at) = due-entry w j t v h in
            omega (arith, root_least w.queue.size w.queue i v.heap less, at)),
        (unfold pop in omega (arith, same.size)),
      )
