-- ===== src/Workqueue/PriorityQueue/Order.antt =====
-- The heap order of pkg/workqueue/delaying_queue.go, and what a swap does to it.
use kube_trigger.Base.{ℕ, zero, suc, ◌-◌, ◌/◌, ◌≤◌, ◌<◌, ◌≡◌, arith, ◌==◌, if◌then◌else◌}
use kube_trigger.Workqueue.PriorityQueue.{PriorityQueue, key, swap}

abbrev pub parent : ℕ → ℕ
parent c = (c - 1) / 2

-- Below `n` no entry is ready before its parent.
abbrev pub IsHeap : {K : Type 0} → ℕ → PriorityQueue K → Type 0
IsHeap n q = (c : ℕ) → 0 < c → c < n → key q (parent c) ≤ key q c

-- The edges past `i`, from its parent to its children.
abbrev pub IsBridged : {K : Type 0} → ℕ → PriorityQueue K → ℕ → Type 0
IsBridged n q i = (c : ℕ) → 0 < c → c < n → parent c ≡ i → 0 < i → key q (parent i) ≤ key q c

module _ {K : Type 0} where
  pub key-swap :
      (q : PriorityQueue K) (i j k : ℕ)
      → key (swap q i j) k ≡ (if k == j then key q i else if k == i then key q j else key q k)
  unfolding swap
  key-swap q i j k = ground arith

  root_least_below :
      (f n : ℕ) (q : PriorityQueue K) (i : ℕ) → IsHeap n q → i < f → i < n → key q 0 ≤ key q i
  root_least_below zero n q i h b p = absurd (omega arith)
  root_least_below (suc f) n q i h b p = ground (arith, h i, root_least_below f n q (parent i) h)

  -- The root of a heap is ready first.
  pub root_least : (n : ℕ) (q : PriorityQueue K) (i : ℕ) → IsHeap n q → i < n → key q 0 ≤ key q i
  root_least n q i h p = root_least_below (suc i) n q i h (omega arith) p
