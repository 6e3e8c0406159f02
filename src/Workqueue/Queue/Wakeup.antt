-- ===== src/Workqueue/Queue/Wakeup.antt =====
-- The condition variable of pkg/workqueue/queue.go: goroutines that call `Get`, `Add`, `Done` and
-- the shutdowns, interleaved in any order. Each step is what one goroutine does under the lock.
use kube_trigger.Base.{
  ℕ, suc, ◌+◌, ◌≤◌, ◌<◌, ◌≡◌, refl, sym, ◌∙◌, Bool, true, false, ◌⊎◌, inl, inr, [], ◌∷◌, arith,
  length, length-append, has,
}
use kube_trigger.Workqueue.Queue.{
  Queue, Metrics, Got, wait, closed, item, Notify, silent, signal, broadcast, new_queue, add,
  take_head, get, done, set_drain, shutdown, is_processing, must_drain,
}

-- The queue with its waiting goroutines: those in `Get` that sleep on the condition variable or
-- were woken and have not run yet, and those in the loop of `ShutDownWithDrain`, asleep or awake.
pub record World (M K : Type 0) : Type 0 where
  pub queue : Queue M K
  pub asleep : ℕ
  pub woken : ℕ
  pub drain_asleep : ℕ
  pub drain_awake : ℕ

unfoldable pub new_world : {M K : Type 0} → M → World M K
new_world m = record {
  queue = new_queue m;
  asleep = 0;
  woken = 0;
  drain_asleep = 0;
  drain_awake = 0;
}

module _ {M K : Type 0} where
  -- `Signal` wakes one sleeper, if there is one, and does not say which.
  pub data Wakes (w : World M K) : Notify → World M K → Type 0 where
    nothing : {v : World M K} → v ≡ w → Wakes w silent v
    getter :
        {v : World M K} (n : ℕ)
        → w.asleep ≡ suc n
        → v ≡ record w { asleep = n; woken = suc w.woken }
        → Wakes w signal v
    drainer :
        {v : World M K} (n : ℕ)
        → w.drain_asleep ≡ suc n
        → v ≡ record w { drain_asleep = n; drain_awake = suc w.drain_awake }
        → Wakes w signal v
    nobody : {v : World M K} → w.asleep ≡ 0 → w.drain_asleep ≡ 0 → v ≡ w → Wakes w signal v
    everybody :
        {v : World M K}
        → v ≡ record w {
          asleep = 0;
          woken = w.woken + w.asleep;
          drain_asleep = 0;
          drain_awake = w.drain_awake + w.drain_asleep;
        }
        → Wakes w broadcast v

  -- Where the caller of `Get` goes: to sleep if it has to wait, and out of the world otherwise.
  abbrev pub settle : World M K → Queue M K × Got K → World M K
  settle w (q, wait) = record w { queue = q; asleep = suc w.asleep }
  settle w (q, closed) = record w { queue = q }
  settle w (q, item x) = record w { queue = q }

module _ {M K : Type 0} (dec : Discrete K) (ops : Metrics M K) where
  pub data Step (w v : World M K) : Type 0 where
    adds :
        (x : K)
        → Wakes (record w { queue = (add dec ops w.queue x).0 }) (add dec ops w.queue x).1 v
        → Step w v
    gets : v ≡ settle w (get dec ops w.queue) → Step w v
    regets :
        (n : ℕ)
        → w.woken ≡ suc n
        → v ≡ settle (record w { woken = n }) (get dec ops w.queue)
        → Step w v
    dones :
        (x : K)
        → has dec x w.queue.processing ≡ true
        → Wakes (record w { queue = (done dec ops w.queue x).0 }) (done dec ops w.queue x).1 v
        → Step w v
    sets_drain : (b : Bool) → v ≡ record w { queue = set_drain w.queue b } → Step w v
    shuts : Wakes (record w { queue = (shutdown w.queue).0 }) (shutdown w.queue).1 v → Step w v
    drain_enters :
        w.queue.shutting_down ≡ true → v ≡ record w { drain_awake = suc w.drain_awake } → Step w v
    drain_waits :
        (n : ℕ)
        → w.drain_awake ≡ suc n
        → is_processing w.queue ≡ true
        → v ≡ record w { drain_awake = n; drain_asleep = suc w.drain_asleep }
        → Step w v
    drain_leaves :
        (n : ℕ)
        → w.drain_awake ≡ suc n
        → must_drain w.queue ≡ false
        → v ≡ record w { drain_awake = n }
        → Step w v

  pub data Reach (w : World M K) : World M K → Type 0 where
    here : Reach w w
    next : {u v : World M K} → Reach w u → Step u v → Reach w v

  pub record Inv (w : World M K) : Type 0 where
    pub closed_awake : w.queue.shutting_down ≡ true → w.asleep ≡ 0
    pub open_undrained : w.queue.shutting_down ≡ false → w.drain_asleep + w.drain_awake ≡ 0
    pub served : (w.asleep ≡ 0) ⊎ (length w.queue.items ≤ w.woken)

  pub new-Inv : (m : M) → Inv (new_world m)
  unfolding new_world new_queue
  new-Inv m = ground arith

  -- What must hold before a notification, so that the invariant holds after it.
  abbrev Owed : Notify → World M K → Type 0
  Owed silent w = (w.asleep ≡ 0) ⊎ (length w.queue.items ≤ w.woken)
  Owed signal w = (w.asleep ≡ 0) ⊎ (length w.queue.items ≤ suc w.woken)
  Owed broadcast w = w.queue.shutting_down ≡ true

  Wakes-Inv :
      {w v : World M K} {k : Notify}
      → Wakes w k v
      → (w.queue.shutting_down ≡ true → (w.asleep ≡ 0) ⊎ (k ≡ broadcast))
      → (w.queue.shutting_down ≡ false → w.drain_asleep + w.drain_awake ≡ 0)
      → Owed k w
      → Inv v
  Wakes-Inv (nothing e) c o s = ground arith
  Wakes-Inv (getter n a e) c o s = ground arith
  Wakes-Inv (drainer n a e) c o s = ground arith
  Wakes-Inv (nobody a d e) c o s = ground arith
  Wakes-Inv (everybody e) c o s = ground arith

  add-Owed :
      (w : World M K) (x : K)
      → Inv w
      → Owed (add dec ops w.queue x).1 (record w { queue = (add dec ops w.queue x).0 })
  unfolding add
  add-Owed w x i = ground (arith, length-append w.queue.items (x ∷ []))

  add-shutting_down : (q : Queue M K) (x : K) → (add dec ops q x).0.shutting_down ≡ q.shutting_down
  unfolding add
  add-shutting_down q x = ground arith

  done-Owed :
      (w : World M K) (x : K)
      → Inv w
      → Owed (done dec ops w.queue x).1 (record w { queue = (done dec ops w.queue x).0 })
  unfolding done
  done-Owed w x i = ground (arith, length-append w.queue.items (x ∷ []))

  done-shutting_down :
      (q : Queue M K) (x : K) → (done dec ops q x).0.shutting_down ≡ q.shutting_down
  unfolding done
  done-shutting_down q x = ground arith

  settle-Inv :
      {w v : World M K} (n : ℕ)
      → v ≡ settle (record w { woken = n }) (get dec ops w.queue)
      → (w.woken ≡ n) ⊎ (w.woken ≡ suc n)
      → Inv w
      → Inv v
  unfolding get take_head
  settle-Inv n e k i = ground arith

  pub Step-Inv : {w v : World M K} → Step w v → Inv w → Inv v
  unfolding shutdown set_drain
  Step-Inv {w} (adds x s) i =
      Wakes-Inv s (λ c. inl (i.closed_awake (sym (add-shutting_down w.queue x) ∙ c)))
        (λ c. i.open_undrained (sym (add-shutting_down w.queue x) ∙ c)) (add-Owed w x i)
  Step-Inv {w} (gets e) i = settle-Inv w.woken e (inl refl) i
  Step-Inv (regets n k e) i = settle-Inv n e (inr k) i
  Step-Inv {w} (dones x h s) i =
      Wakes-Inv s (λ c. inl (i.closed_awake (sym (done-shutting_down w.queue x) ∙ c)))
        (λ c. i.open_undrained (sym (done-shutting_down w.queue x) ∙ c)) (done-Owed w x i)
  Step-Inv (sets_drain b e) i = ground arith
  Step-Inv (shuts s) i = Wakes-Inv s (λ c. inr refl) (λ c. cc) refl
  Step-Inv (drain_enters c e) i = ground arith
  Step-Inv (drain_waits n a p e) i = ground arith
  Step-Inv (drain_leaves n a p e) i = ground arith

  Reach-Inv : {w v : World M K} → Inv w → Reach w v → Inv v
  Reach-Inv i here = i
  Reach-Inv i (next r s) = Step-Inv s (Reach-Inv i r)

  -- No wake-up is lost: in every interleaving of calls from a new queue, if a goroutine sleeps in
  -- `Get` and none of those that were woken has still to run, then the queue has no item and no
  -- shutdown was requested.
  pub no_lost_wakeup :
      (m : M) (w : World M K)
      → Reach (new_world m) w
      → 0 < w.asleep
      → w.woken ≡ 0
      → (w.queue.items ≡ []) × (w.queue.shutting_down ≡ false)
  no_lost_wakeup m w r a n = let i : Inv w = Reach-Inv (new-Inv m) r in ground arith
