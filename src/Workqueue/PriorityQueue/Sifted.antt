-- ===== src/Workqueue/PriorityQueue/Sifted.antt =====
-- What sifting in pkg/workqueue/delaying_queue.go keeps: the entries, and the index that each has of
-- itself.
use kube_trigger.Base.{ℕ, ◌≤◌, ◌<◌, ◌≡◌, refl, ◌∙◌, arith, ◌==◌, if◌then◌else◌}
use kube_trigger.Base.Int.{pos}
use kube_trigger.Workqueue.PriorityQueue.{PriorityQueue, swap}

-- Every entry of the slice knows where it is.
abbrev pub IsIndexed : {K : Type 0} → PriorityQueue K → Type 0
IsIndexed q = (i : ℕ) → i < q.size → q.index (q.slot i) ≡ pos i

-- `r` has below `n` the entries of `q`, and from `n` on the same slots.
pub record Sifted {K : Type 0} (n : ℕ) (q r : PriorityQueue K) : Type 0 where
  pub size : r.size ≡ q.size
  pub payload : r.payload ≡ q.payload
  pub ready_at : r.ready_at ≡ q.ready_at
  pub allocated : r.allocated ≡ q.allocated
  pub above : (k : ℕ) → n ≤ k → r.slot k ≡ q.slot k
  pub from_old : (k : ℕ) → k < n → (m : ℕ) × (m < n) × (r.slot k ≡ q.slot m)
  pub to_new : (k : ℕ) → k < n → (m : ℕ) × (m < n) × (q.slot k ≡ r.slot m)
  pub indexed : IsIndexed q → IsIndexed r

-- Where an entry goes in a swap, and comes from.
abbrev moved : ℕ → ℕ → ℕ → ℕ
moved i j k = if k == j then i else if k == i then j else k

module _ {K : Type 0} where
  pub Sifted-same : (n : ℕ) (q : PriorityQueue K) → Sifted n q q
  Sifted-same n q = record {
    size = refl;
    payload = refl;
    ready_at = refl;
    allocated = refl;
    above = λ k h. refl;
    from_old = λ k h. (k, h, refl);
    to_new = λ k h. (k, h, refl);
    indexed = λ v. v;
  }

  pub Sifted-chain : (n : ℕ) (q r s : PriorityQueue K) → Sifted n q r → Sifted n r s → Sifted n q s
  Sifted-chain n q r s a b = record {
    size = b.size ∙ a.size;
    payload = b.payload ∙ a.payload;
    ready_at = b.ready_at ∙ a.ready_at;
    allocated = b.allocated ∙ a.allocated;
    above = λ k h. b.above k h ∙ a.above k h;
    from_old = λ k h.
        let (m, less, e) = b.from_old k h in
        let (l, less', e') = a.from_old m less in (l, less', e ∙ e');
    to_new = λ k h.
        let (m, less, e) = a.to_new k h in
        let (l, less', e') = b.to_new m less in (l, less', e ∙ e');
    indexed = λ v. b.indexed (a.indexed v);
  }

  slot-swap : (q : PriorityQueue K) (i j k : ℕ) → (swap q i j).slot k ≡ q.slot (moved i j k)
  unfolding swap
  slot-swap q i j k = ground arith

  slot-swap_back : (q : PriorityQueue K) (i j k : ℕ) → q.slot k ≡ (swap q i j).slot (moved i j k)
  unfolding swap
  slot-swap_back q i j k = ground arith

  swap-IsIndexed :
      (q : PriorityQueue K) (i j : ℕ)
      → i < q.size
      → j < q.size
      → IsIndexed q
      → IsIndexed (swap q i j)
  unfolding swap
  swap-IsIndexed q i j hi hj v k hk = ground (arith, v i, v j, v k)

  pub swap-Sifted :
      (n : ℕ) (q : PriorityQueue K) (i j : ℕ) → i < n → j < n → n ≤ q.size → Sifted n q (swap q i j)
  unfolding swap
  swap-Sifted n q i j hi hj fits = record {
    size = refl;
    payload = refl;
    ready_at = refl;
    allocated = refl;
    above = λ k h. ground arith;
    from_old = λ k h. (moved i j k, ground arith, slot-swap q i j k);
    to_new = λ k h. (moved i j k, ground arith, slot-swap_back q i j k);
    indexed = swap-IsIndexed q i j (omega arith) (omega arith);
  }
