-- ===== src/Workqueue/Indexer/Run.antt =====
-- Histories of the locked sections of pkg/workqueue/indexer_delaying_queue.go: goroutines interleave
-- between those, so that `AddAfter` is two of them and the waiting loop is calls of `push`.
use kube_trigger.Base.{
  ℕ, ◌≡◌, refl, Bool, true, false, ◌⊎◌, Option, none, some, List, [], ◌∷◌, arith,
}
use kube_trigger.Base.Dict
use kube_trigger.Workqueue.Queue.{Metrics}
use kube_trigger.Workqueue.Indexer.{
  Indexer, Keyed, Entry, known_in, new_indexer, register, push, take_entry, take_head, get, done,
  shut_down, start_drain, shutdown, set_drain, Got, wait, closed, item,
}
use kube_trigger.Workqueue.Indexer.Invariant.{
  IsValid, new-IsValid, register-IsValid, push-IsValid, head-entry, take_entry-IsValid,
  finish-IsValid,
}

pub data Call (K X : Type 0) : Type 0 where
  registers : K → X → ℕ → Call K X
  pushes : K → ℕ → Call K X
  gets : Call K X
  dones : X → Call K X
  shuts drains : Call K X

module _ {M K X : Type 0} (dec : Discrete K) (ops : Metrics M K) (keyed : Keyed K X) where
  abbrev pub step : Indexer M K X → Call K X → Indexer M K X
  step q (registers k x t) = (register dec ops keyed q k x t).0
  step q (pushes k now) = (push dec ops q k now).0
  step q gets = (get dec q).0
  step q (dones x) = done dec ops keyed q x
  step q shuts = shut_down q
  step q drains = start_drain q

  unfoldable pub run : Indexer M K X → List (Call K X) → Indexer M K X
  run q [] = q
  run q (c ∷ cs) = run (step q c) cs

  -- Whether a worker holds an item of this item's key.
  abbrev pub held : Indexer M K X → Option K → Bool
  held q none = true
  held q (some k) = known_in (Dict.get dec k q.processing)

  -- An item is registered under its key, and `Done` is called while a worker has its key, or for an
  -- item without one.
  abbrev pub Legal : Indexer M K X → Call K X → Type 0
  Legal q (registers k x t) = keyed.key_func x ≡ some k
  Legal q (dones x) = held q (keyed.key_func x) ≡ true
  Legal q _ = Unit {0}

  abbrev pub LegalRun : Indexer M K X → List (Call K X) → Type 0
  LegalRun q [] = Unit {0}
  LegalRun q (c ∷ cs) = Legal q c × LegalRun (step q c) cs

  -- What a valid queue hands out: the entry of the key at its head, if there is one.
  abbrev pub Hands : Indexer M K X → List K → Got X → Type 0
  Hands q [] g = (g ≡ wait) ⊎ (g ≡ closed)
  Hands q (k ∷ rest) g =
      (x : X) × (g ≡ item x)
      × (keyed.key_func x ≡ some k)
      × (known_in (Dict.get dec k q.processing) ≡ false)

  known-some : (o : Option (Entry X)) → known_in o ≡ true → (e : Entry X) × (o ≡ some e)
  known-some none h = absurd (cc)
  known-some (some e) h = (e, refl)

  take_head-IsValid :
      (q : Indexer M K X) (ks : List K)
      → q.queue ≡ ks
      → IsValid dec keyed q
      → IsValid dec keyed (take_head dec q ks).0 × Hands q ks (take_head dec q ks).1
  unfolding take_head take_entry
  take_head-IsValid q [] e v = (v, ground arith)
  take_head-IsValid q (k ∷ rest) e v =
      let (marked, free) = head-entry dec ops keyed q k rest v e in
      let (w, found) = known-some (Dict.get dec k q.known) (v.prepared k marked) in
      rw (found, take_head)
        (
          take_entry-IsValid dec ops keyed q k rest w e found v,
          (w.payload, refl, v.known_keys k w found, free),
        )

  -- The invariant speaks of the queue, the dirty keys and the two tables alone.
  same-IsValid :
      (q r : Indexer M K X)
      → r.queue ≡ q.queue
      → r.dirty ≡ q.dirty
      → r.known ≡ q.known
      → r.processing ≡ q.processing
      → IsValid dec keyed q
      → IsValid dec keyed r
  same-IsValid q r a b c d v = record {
    distinct = rw a v.distinct;
    queued = λ k. rw (a, b, d) (v.queued k);
    prepared = λ k. rw (b, c) (v.prepared k);
    known_keys = λ k e. rw c (v.known_keys k e);
    processing_keys = λ k e. rw d (v.processing_keys k e);
  }

  done-IsValid :
      (q : Indexer M K X) (x : X) (o : Option K)
      → keyed.key_func x ≡ o
      → held q o ≡ true
      → IsValid dec keyed q
      → IsValid dec keyed (done dec ops keyed q x)
  unfolding done
  done-IsValid q x none e h v = rw (e, done) v
  done-IsValid q x (some k) e h v = rw (e, done) (finish-IsValid dec ops keyed q k h v)

  step-IsValid :
      (q : Indexer M K X) (c : Call K X)
      → Legal q c
      → IsValid dec keyed q
      → IsValid dec keyed (step q c)
  unfolding get shut_down start_drain shutdown set_drain
  step-IsValid q (registers k x t) l v = register-IsValid dec ops keyed q k x t l v
  step-IsValid q (pushes k now) l v = push-IsValid dec ops keyed q k now v
  step-IsValid q gets l v = (take_head-IsValid q q.queue refl v).0
  step-IsValid q (dones x) l v = done-IsValid q x (keyed.key_func x) refl l v
  step-IsValid q shuts l v =
      same-IsValid q _ (ground arith) (ground arith) (ground arith) (ground arith) v
  step-IsValid q drains l v =
      same-IsValid q _ (ground arith) (ground arith) (ground arith) (ground arith) v

  run_from-IsValid :
      (q : Indexer M K X) (cs : List (Call K X))
      → LegalRun q cs
      → IsValid dec keyed q
      → IsValid dec keyed (run q cs)
  unfolding run
  run_from-IsValid q [] l v = v
  run_from-IsValid q (c ∷ cs) l v = run_from-IsValid (step q c) cs l.1 (step-IsValid q c l.0 v)

  -- After any interleaving of the locked sections from a new queue, in which items are registered
  -- under their keys and `Done` is called for a key only while a worker has it, the queue holds, once
  -- each, exactly the dirty keys that no worker has, every dirty key has an entry, and `Get` never
  -- dereferences nil: it hands out an item of the key at the head, which no worker has, and finds
  -- nothing only if the queue is empty.
  pub run-Hands :
      (m : M) (cs : List (Call K X))
      → LegalRun (new_indexer m) cs
      → IsValid dec keyed (run (new_indexer m) cs)
        × Hands
            (run (new_indexer m) cs)
            (run (new_indexer m) cs).queue
            (get dec (run (new_indexer m) cs)).1
  unfolding get
  run-Hands m cs l =
      let v = run_from-IsValid (new_indexer m) cs l (new-IsValid dec ops keyed m) in
      (v, (take_head-IsValid _ _ refl v).1)
