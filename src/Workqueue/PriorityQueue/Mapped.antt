-- ===== src/Workqueue/PriorityQueue/Mapped.antt =====
-- The heap of pkg/workqueue/delaying_queue.go and the map `waitingEntryByData`: they have the same
-- entries.
use kube_trigger.Base.{ℕ, ◌<◌, ◌≡◌, sym, ◌∙◌, arith, some, List}
use kube_trigger.Base.Dict
use kube_trigger.Workqueue.PriorityQueue.{PriorityQueue, Waiting}
use kube_trigger.Workqueue.PriorityQueue.Order.{IsHeap}
use kube_trigger.Workqueue.PriorityQueue.Sifted.{IsIndexed, Sifted}

module _ {K : Type 0} (dec : Discrete K) where
  -- The entries know where they are, and the map holds just these entries, each under its payload.
  pub record IsMapped (q : PriorityQueue K) (known : List (K × ℕ)) : Type 0 where
    pub indexed : IsIndexed q
    pub owned : (i : ℕ) → i < q.size → q.slot i < q.allocated
    pub mapped : (i : ℕ) → i < q.size → Dict.get dec (q.payload (q.slot i)) known ≡ some (q.slot i)
    pub backed :
        (k : K) (p : ℕ)
        → Dict.get dec k known ≡ some p
        → (i : ℕ) × (i < q.size) × (q.slot i ≡ p) × (q.payload p ≡ k)

  pub record IsValid (w : Waiting K) : Type 0 where
    pub heap : IsHeap w.queue.size w.queue
    pub mapped : IsMapped w.queue w.known

  pub Sifted-IsMapped :
      (q r : PriorityQueue K) (known : List (K × ℕ))
      → Sifted q.size q r
      → IsMapped q known
      → IsMapped r known
  Sifted-IsMapped q r known s v = record {
    indexed = s.indexed v.indexed;
    owned = λ i h.
        let (m, less, at) = s.from_old i (omega (arith, s.size)) in
        rw (at, s.allocated) (v.owned m less);
    mapped = λ i h.
        let (m, less, at) = s.from_old i (omega (arith, s.size)) in
        rw (at, s.payload) (v.mapped m less);
    backed = λ k p found.
        let (i, less, at, named) = v.backed k p found in
        let (m, below, moved) = s.to_new i less in
        (m, rw (s.size) below, sym moved ∙ at, rw (s.payload) named);
  }
