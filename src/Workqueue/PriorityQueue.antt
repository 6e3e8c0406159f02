-- ===== src/Workqueue/PriorityQueue.antt =====
-- The heap of pkg/workqueue/delaying_queue.go: `waitForPriorityQueue`, the functions of Go's
-- container/heap on it, and `insert`. Entries are pointers, which are numbers here; the fields of an
-- entry are functions of its pointer, so that a write through any copy of it is seen by all.
pub mod Order
pub mod Sifted
pub mod Mapped
pub mod Up
pub mod Down
pub mod Due
pub mod Insertion
pub mod Removal
mod Tests
use kube_trigger.Base.{
  ℕ, zero, suc, ◌+◌, ◌-◌, ◌*◌, ◌/◌, ◌≡◌, Bool, true, false, not, ◌&&◌, ◌||◌, Option, none, some,
  List, [], ◌∷◌, ltb, leb, ◌==◌, if◌then◌else◌,
}
use kube_trigger.Base.Dict
use kube_trigger.Base.Int.{ℤ, pos, negsuc}

-- The slice, the three fields of `waitFor`, and the pointers that were handed out so far.
pub record PriorityQueue (K : Type 0) : Type 0 where
  pub size : ℕ
  pub slot : ℕ → ℕ
  pub payload : ℕ → K
  pub ready_at : ℕ → ℕ
  pub index : ℕ → ℤ
  pub allocated : ℕ

abbrev pub write : {A : Type 0} → (ℕ → A) → ℕ → A → ℕ → A
write f i v k = if k == i then v else f k

abbrev pub key : {K : Type 0} → PriorityQueue K → ℕ → ℕ
key q i = q.ready_at (q.slot i)

module _ {K : Type 0} where
  -- `nil` is the value of an entry that does not exist.
  unfoldable pub empty_queue : K → PriorityQueue K
  empty_queue nil = record {
    size = 0;
    slot = λ i. 0;
    payload = λ p. nil;
    ready_at = λ p. 0;
    index = λ p. negsuc 0;
    allocated = 0;
  }

  unfoldable pub less : PriorityQueue K → ℕ → ℕ → Bool
  less q i j = ltb (key q i) (key q j)

  unfoldable pub swap : PriorityQueue K → ℕ → ℕ → PriorityQueue K
  swap q i j = record q {
    slot = write (write q.slot i (q.slot j)) j (q.slot i);
    index = write (write q.index (q.slot j) (pos i)) (q.slot i) (pos j);
  }

  unfoldable pub push : PriorityQueue K → ℕ → PriorityQueue K
  push q p = record q {
    size = suc q.size;
    slot = write q.slot q.size p;
    index = write q.index p (pos q.size);
  }

  unfoldable pub pop : PriorityQueue K → PriorityQueue K × ℕ
  pop q =
      let p = q.slot (q.size - 1) in
      (record q { size = q.size - 1; index = write q.index p (negsuc 0) }, p)

  unfoldable pub peek : PriorityQueue K → ℕ
  peek q = q.slot 0

  -- `up`, whose loop goes to the parent; the first argument is fuel.
  unfoldable pub up : ℕ → PriorityQueue K → ℕ → PriorityQueue K
  up zero q j = q
  up (suc f) q j =
      let rest = up f (swap q ((j - 1) / 2) j) ((j - 1) / 2) in
      if (j - 1) / 2 == j || not (less q j ((j - 1) / 2)) then q else rest

  -- The child that `down` compares with, below `n`.
  unfoldable pub smaller_child : PriorityQueue K → ℕ → ℕ → ℕ
  smaller_child q i n =
      if ltb (2 * i + 2) n && less q (2 * i + 2) (2 * i + 1) then 2 * i + 2 else 2 * i + 1

  -- `down`, with the index at which it ends.
  unfoldable pub down : ℕ → PriorityQueue K → ℕ → ℕ → PriorityQueue K × ℕ
  down zero q i n = (q, i)
  down (suc f) q i n =
      let j = smaller_child q i n in
      let rest = down f (swap q i j) j n in
      if leb n (2 * i + 1) then (q, i) else if not (less q j i) then (q, i) else rest

  -- The loop of `heap.Init`, from the parent before the first argument on down to the root.
  unfoldable pub heapify : ℕ → PriorityQueue K → PriorityQueue K
  heapify zero q = q
  heapify (suc i) q = heapify i (down q.size q i q.size).0

  unfoldable pub heap_init : PriorityQueue K → PriorityQueue K
  heap_init q = heapify (q.size / 2) q

  unfoldable pub heap_push : PriorityQueue K → ℕ → PriorityQueue K
  heap_push q p = up (suc q.size) (push q p) q.size

  unfoldable pub heap_pop : PriorityQueue K → PriorityQueue K × ℕ
  heap_pop q = let n = q.size - 1 in pop (down n (swap q 0 n) 0 n).0

  unfoldable pub fix_up : ℕ → PriorityQueue K × ℕ → PriorityQueue K
  fix_up i (q, j) = if ltb i j then q else up (suc i) q i

  unfoldable pub heap_fix : PriorityQueue K → ℕ → PriorityQueue K
  heap_fix q i = fix_up i (down q.size q i q.size)

-- The heap with `waitingEntryByData`.
pub record Waiting (K : Type 0) : Type 0 where
  pub queue : PriorityQueue K
  pub known : List (K × ℕ)

module _ {K : Type 0} where
  unfoldable pub new_waiting : K → Waiting K
  new_waiting nil = record { queue = heap_init (empty_queue nil); known = [] }

  -- `heap.Fix` at an index below zero does nothing.
  unfoldable pub fix_at : PriorityQueue K → ℤ → PriorityQueue K
  fix_at q (pos i) = heap_fix q i
  fix_at q (negsuc n) = q

  -- The new entry: its pointer is the next one.
  unfoldable pub allocate : PriorityQueue K → K → ℕ → PriorityQueue K
  allocate q k t = record q {
    payload = write q.payload q.allocated k;
    ready_at = write q.ready_at q.allocated t;
    allocated = suc q.allocated;
  }

  unfoldable pub sooner : PriorityQueue K → ℕ → ℕ → PriorityQueue K
  sooner q p t = fix_at (record q { ready_at = write q.ready_at p t }) (q.index p)

module _ {K : Type 0} (dec : Discrete K) where
  unfoldable pub insert : Waiting K → K → ℕ → Waiting K
  insert w k t = elim (Dict.get dec k w.known) [
    | some p ↦ if ltb t (w.queue.ready_at p) then record w { queue = sooner w.queue p t } else w
    | none ↦ record {
      queue = heap_push (allocate w.queue k t) w.queue.allocated;
      known = Dict.put dec k w.queue.allocated w.known;
    }
  ]

  -- The turn of the waiting loops that takes the first entry, and deletes it from the map.
  unfoldable pub take_first : Waiting K → Waiting K × K
  take_first w =
      let r = heap_pop w.queue in
      let k = w.queue.payload r.1 in (record { queue = r.0; known = Dict.remove dec k w.known }, k)
