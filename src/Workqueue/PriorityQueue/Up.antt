-- ===== src/Workqueue/PriorityQueue/Up.antt =====
-- `up` of container/heap, which pkg/workqueue/delaying_queue.go calls for a new entry.
use kube_trigger.Base.{
  ℕ, zero, suc, ◌≤◌, ◌<◌, ◌≡◌, ◌≢◌, arith, true, ◌==◌, not, ◌||◌, Bool-cases, inl, inr,
}
use kube_trigger.Workqueue.PriorityQueue.{PriorityQueue, key, less, swap, up}
use kube_trigger.Workqueue.PriorityQueue.Order.{parent, IsHeap, IsBridged, key-swap}
use kube_trigger.Workqueue.PriorityQueue.Sifted.{Sifted, Sifted-same, Sifted-chain, swap-Sifted}

-- Only the edge above `j` may be out of order.
pub record UpInv {K : Type 0} (n : ℕ) (q : PriorityQueue K) (j : ℕ) : Type 0 where
  pub inside : j < n
  pub edges : (c : ℕ) → 0 < c → c < n → c ≢ j → key q (parent c) ≤ key q c
  pub bridged : IsBridged n q j

module _ {K : Type 0} where
  swap-UpInv :
      (n : ℕ) (q : PriorityQueue K) (j : ℕ)
      → UpInv n q j
      → 0 < j
      → key q j < key q (parent j)
      → UpInv n (swap q (parent j) j) (parent j)
  swap-UpInv n q j v pos below =
      let at = key-swap q (parent j) j in
      record {
        inside = omega (arith, v.inside);
        edges = λ c p l ne. ground (arith, at c, at (parent c), v.edges c, v.edges j, v.bridged c);
        bridged = λ c p l e z.
            ground
              (arith, at c, at (parent (parent j)), v.edges c, v.edges (parent j), v.bridged c);
      }

  up-settled :
      (n : ℕ) (q : PriorityQueue K) (j : ℕ)
      → UpInv n q j
      → (parent j == j || not (less q j (parent j))) ≡ true
      → IsHeap n q
  unfolding less
  up-settled n q j v stop c p l = ground (arith, v.edges c)

  -- With fuel for every level above `j`, `up` makes a heap of the same entries.
  pub up-IsHeap :
      (f n : ℕ) (q : PriorityQueue K) (j : ℕ)
      → j < f
      → n ≤ q.size
      → UpInv n q j
      → IsHeap n (up f q j) × Sifted n q (up f q j)
  unfolding up
  up-IsHeap zero n q j enough fits v = absurd (omega arith)
  up-IsHeap (suc f) n q j enough fits v =
      elim (Bool-cases (parent j == j || not (less q j (parent j)))) [
        | inl stop ↦ rw (stop, up) (up-settled n q j v stop, Sifted-same n q)
        | inr go ↦
            let rises : (0 < j) × (key q j < key q (parent j)) = unfold less in ground arith in
            let step = swap-Sifted n q (parent j) j (omega (arith, v.inside)) v.inside fits in
            let (heap, rest) =
              up-IsHeap f n (swap q (parent j) j) (parent j) (omega arith)
                (omega (arith, step.size)) (swap-UpInv n q j v rises.0 rises.1) in
            rw (go, up) (heap, Sifted-chain n _ _ _ step rest)
      ]
