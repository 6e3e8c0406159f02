-- ===== src/Workqueue/PriorityQueue/Down.antt =====
-- `down` of container/heap, which pkg/workqueue/delaying_queue.go calls when it takes the first entry.
use kube_trigger.Base.{
  ℕ, zero, suc, ◌+◌, ◌*◌, ◌≤◌, ◌<◌, ◌≡◌, ◌≢◌, ◌⊎◌, refl, arith, true, leb, not, Bool-cases, inl,
  inr,
}
use kube_trigger.Workqueue.PriorityQueue.{PriorityQueue, key, less, swap, smaller_child, down}
use kube_trigger.Workqueue.PriorityQueue.Order.{parent, IsHeap, IsBridged, key-swap}
use kube_trigger.Workqueue.PriorityQueue.Sifted.{Sifted, Sifted-same, Sifted-chain, swap-Sifted}

-- Only the edges below `i` may be out of order.
pub record DownInv {K : Type 0} (n : ℕ) (q : PriorityQueue K) (i : ℕ) : Type 0 where
  pub edges : (c : ℕ) → 0 < c → c < n → parent c ≢ i → key q (parent c) ≤ key q c
  pub bridged : IsBridged n q i

-- `m` is the child of `i` that is ready first.
record IsFirstChild {K : Type 0} (n : ℕ) (q : PriorityQueue K) (i m : ℕ) : Type 0 where
  inside : m < n
  child : (m ≡ 2 * i + 1) ⊎ (m ≡ 2 * i + 2)
  least : (c : ℕ) → 0 < c → c < n → parent c ≡ i → key q m ≤ key q c

children : (c i : ℕ) → 0 < c → parent c ≡ i → (c ≡ 2 * i + 1) ⊎ (c ≡ 2 * i + 2)
children c i p e = ground arith

module _ {K : Type 0} where
  smaller_child-IsFirstChild :
      (n : ℕ) (q : PriorityQueue K) (i : ℕ)
      → 2 * i + 1 < n
      → IsFirstChild n q i (smaller_child q i n)
  unfolding smaller_child less
  smaller_child-IsFirstChild n q i h = record {
    inside = ground arith;
    child = ground arith;
    least = λ c p l e. elim (children c i p e) [
      | inl left ↦ rw left (ground arith)
      | inr right ↦ rw right (ground arith)
    ];
  }

  swap-DownInv :
      (n : ℕ) (q : PriorityQueue K) (i m : ℕ)
      → DownInv n q i
      → IsFirstChild n q i m
      → key q m < key q i
      → DownInv n (swap q i m) m
  swap-DownInv n q i m v s below =
      let at = key-swap q i m in
      record {
        edges = λ c p l ne.
            ground
              (arith, at c, at (parent c), v.edges c, v.bridged m, s.least c, s.child, s.inside);
        bridged = λ c p l e z. ground (arith, at c, at (parent m), v.edges c, s.child);
      }

  -- With fuel for every index from `i` on, `down` makes a heap of the same entries.
  pub down-IsHeap :
      (f n : ℕ) (q : PriorityQueue K) (i : ℕ)
      → n ≤ f + i
      → n ≤ q.size
      → DownInv n q i
      → IsHeap n (down f q i n).0 × Sifted n q (down f q i n).0
  unfolding down
  down-IsHeap zero n q i enough fits v = (λ c p l. v.edges c p l (omega arith), Sifted-same n q)
  down-IsHeap (suc f) n q i enough fits v = elim (Bool-cases (leb n (2 * i + 1))) [
    | inl leaf ↦ rw (leaf, down) (λ c p l. v.edges c p l (ground arith), Sifted-same n q)
    | inr has_child ↦
        let m = smaller_child q i n in
        let s = smaller_child-IsFirstChild n q i (ground arith) in
        elim (Bool-cases (not (less q m i))) [
          | inl settled ↦
              rw (has_child, down, settled)
                ((λ c p l. unfold less in ground (arith, v.edges c, s.least c)), Sifted-same n q)
          | inr sinks ↦
              let step = swap-Sifted n q i m (ground (arith, s.child)) s.inside fits in
              let (heap, rest) =
                down-IsHeap f n (swap q i m) m (ground (arith, s.child)) (omega (arith, step.size))
                  (swap-DownInv n q i m v s (unfold less in ground arith)) in
              rw (has_child, down, sinks) (heap, Sifted-chain n _ _ _ step rest)
        ]
  ]

  -- Where no child is ready before its parent, `down` does nothing.
  pub down-settled :
      (f n : ℕ) (q : PriorityQueue K) (i : ℕ)
      → ((c : ℕ) → 0 < c → c < n → parent c ≡ i → key q i ≤ key q c)
      → down f q i n ≡ (q, i)
  unfolding down
  down-settled zero n q i h = refl
  down-settled (suc f) n q i h = elim (Bool-cases (leb n (2 * i + 1))) [
    | inl leaf ↦ rw (leaf, down)
    | inr has_child ↦
        let m = smaller_child q i n in
        let s = smaller_child-IsFirstChild n q i (ground arith) in
        let stays : not (less q m i) ≡ true =
          unfold less in ground (arith, h m, s.child, s.inside) in
        rw (has_child, down, stays)
  ]
