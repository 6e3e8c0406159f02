-- ===== src/Workqueue/Queue/Drain.antt =====
-- `ShutDownWithDrain` of pkg/workqueue/queue.go: the goroutines in its loop, which share the condition
-- variable with those in `Get`.
mod Tests
use kube_trigger.Base.{
  ℕ, zero, suc, ◌+◌, ◌≤◌, ◌<◌, ◌≡◌, refl, sym, ap, ◌∙◌, subst, Bool, true, false, not, ◌&&◌, List,
  [], ◌∷◌, arith, length, has, inl, inr, ◌⊎◌, ◌==◌, if◌then◌else◌, Bool-cases, if_pos,
}
use kube_trigger.Workqueue.Items.{insert, delete, length-insert}
use kube_trigger.Workqueue.Queue.{
  Queue, Metrics, Got, wait, closed, item, Notify, silent, signal, broadcast, new_queue, add,
  take_head, get, done, set_drain, shutdown, is_processing, must_drain,
}
use kube_trigger.Workqueue.Queue.Wakeup.{
  World, new_world, Wakes, nothing, getter, drainer, nobody, everybody, settle, Step, adds, gets,
  regets, dones, sets_drain, shuts, drain_enters, drain_waits, drain_leaves, Inv, new-Inv, Step-Inv,
}

module _ {M K : Type 0} where
  -- One goroutine at most is in `ShutDownWithDrain`.
  abbrev pub OneDrains : World M K → Type 0
  OneDrains w = w.drain_asleep + w.drain_awake ≤ 1

module _ {M K : Type 0} (dec : Discrete K) (ops : Metrics M K) where
  -- Interleavings that keep to worlds of a kind.
  pub data ReachIn (P : World M K → Type 0) (w : World M K) : World M K → Type 0 where
    here : ReachIn P w w
    next : {u v : World M K} → ReachIn P w u → Step dec ops u v → P v → ReachIn P w v

  -- If a goroutine sleeps in `ShutDownWithDrain`, an item is being processed.
  abbrev Due : World M K → Type 0
  Due w = 0 < w.drain_asleep → 0 < length w.queue.processing

  length-insert_any : (x : K) (s : List K) → length s ≤ length (insert dec x s)
  unfolding insert
  length-insert_any x s = ground arith

  -- A notification lets no one fall asleep in the drain.
  Wakes-asleep :
      {w v : World M K} {k : Notify}
      → Wakes w k v
      → (v.drain_asleep ≤ w.drain_asleep) × (v.queue ≡ w.queue)
  Wakes-asleep (nothing e) = rw (e) (ground arith, refl)
  Wakes-asleep (getter n a e) = rw (e) (ground arith, refl)
  Wakes-asleep (drainer n a e) = rw (e) (omega (arith, a), refl)
  Wakes-asleep (nobody a d e) = rw (e) (ground arith, refl)
  Wakes-asleep (everybody e) = rw (e) (ground arith, refl)

  -- A signal wakes the only drainer when nobody sleeps in `Get`.
  signal-asleep :
      {w v : World M K} → Wakes w signal v → w.asleep ≡ 0 → w.drain_asleep ≤ 1 → v.drain_asleep ≡ 0
  signal-asleep (getter n a e) none one = absurd (ground arith)
  signal-asleep (drainer n a e) none one = ground arith
  signal-asleep (nobody a d e) none one = ground arith

  settled :
      (w : World M K) (r : Queue M K × Got K)
      → ((settle w r).drain_asleep ≡ w.drain_asleep) × ((settle w r).queue ≡ r.0)
  settled w (q, wait) = (refl, refl)
  settled w (q, closed) = (refl, refl)
  settled w (q, item x) = (refl, refl)

  take-processing :
      (q : Queue M K) (xs : List K)
      → length q.processing ≤ length (take_head dec ops q xs).0.processing
  unfolding take_head
  take-processing q [] = omega arith
  take-processing q (x ∷ xs) = length-insert_any x q.processing

  get-Due : (w v : World M K) → v ≡ settle w (get dec ops w.queue) → Due w → Due v
  unfolding get
  get-Due w v e due =
      let (same, queue) = settled w (get dec ops w.queue) in
      let more = take-processing w.queue w.queue.items in
      rw (e, same, queue) (λ h. omega (arith, due h, more))

  add-Due :
      (w v : World M K) (x : K)
      → Wakes (record w { queue = (add dec ops w.queue x).0 }) (add dec ops w.queue x).1 v
      → Due w
      → Due v
  unfolding add
  add-Due w v x s due =
      let (fewer, queue) = Wakes-asleep s in
      let same : (add dec ops w.queue x).0.processing ≡ w.queue.processing = ground arith in
      rw (queue, same) (λ h. due (omega (arith, h, fewer)))

  done-signals :
      (q : Queue M K) (x : K)
      → ((done dec ops q x).1 ≡ signal) ⊎ (0 < length (done dec ops q x).0.processing)
  unfolding done
  done-signals q x = ground arith

  -- The last call of `Done` wakes the one that drains.
  done-Due :
      (w v : World M K) (x : K)
      → Wakes (record w { queue = (done dec ops w.queue x).0 }) (done dec ops w.queue x).1 v
      → Inv dec ops w
      → OneDrains w
      → Due w
      → Due v
  unfolding done
  done-Due w v x s i one due = elim (Bool-cases w.queue.shutting_down) [
    | inl down ↦ elim (done-signals w.queue x) [
      | inl signals ↦
          let woken =
            signal-asleep
              (subst (λ k. Wakes (record w { queue = (done dec ops w.queue x).0 }) k v) signals s)
              (i.closed_awake down) (omega (arith, one)) in
          λ h. absurd (omega (arith, h, woken))
      | inr some_left ↦ rw ((Wakes-asleep s).1) (λ h. some_left)
    ]
    | inr open_ ↦
        let fewer = (Wakes-asleep s).0 in
        let none = i.open_undrained open_ in λ h. absurd (omega (arith, h, fewer, none))
  ]

  Step-Due : {w v : World M K} → Step dec ops w v → Inv dec ops w → OneDrains w → Due w → Due v
  unfolding is_processing shutdown set_drain
  Step-Due {w} {v} (adds x s) i one due = add-Due w v x s due
  Step-Due {w} {v} (gets e) i one due = get-Due w v e due
  Step-Due {w} {v} (regets n k e) i one due = get-Due (record w { woken = n }) v e due
  Step-Due {w} {v} (dones x h s) i one due = done-Due w v x s i one due
  Step-Due (sets_drain b e) i one due = rw (e) due
  Step-Due (shuts (everybody e)) i one due = rw (e) (λ h. absurd (ground arith))
  Step-Due (drain_enters c e) i one due = rw (e) due
  Step-Due (drain_waits n a p e) i one due = rw (e) (λ h. ground (arith, p))
  Step-Due (drain_leaves n a p e) i one due = rw (e) due

  ReachIn-Due :
      {w v : World M K}
      → ReachIn OneDrains w v
      → OneDrains w
      → Inv dec ops w
      → Due w
      → Inv dec ops v × OneDrains v × Due v
  ReachIn-Due here one i due = (i, one, due)
  ReachIn-Due (next r step one) start i due =
      let (inv, before, kept) = ReachIn-Due r start i due in
      (Step-Inv dec ops step inv, one, Step-Due step inv before kept)

  -- No drain is stuck: in every interleaving of calls from a new queue in which one goroutine at most is
  -- in `ShutDownWithDrain`, if it sleeps there then an item is being processed, so that it is woken by
  -- the call of `Done` that is still to come.
  pub no_stuck_drain :
      (m : M) (w : World M K)
      → ReachIn OneDrains (new_world m) w
      → 0 < w.drain_asleep
      → is_processing w.queue ≡ true
  unfolding new_world is_processing
  no_stuck_drain m w reach asleep =
      let (i, one, due) =
        ReachIn-Due reach (omega arith) (new-Inv dec ops m) (λ h. absurd (omega arith)) in
      ground (arith, due asleep)

  pub is_shutdown : {u v : World M K} → Step dec ops u v → Bool
  is_shutdown (adds x s) = false
  is_shutdown (gets e) = false
  is_shutdown (regets n k e) = false
  is_shutdown (dones x h s) = false
  is_shutdown (sets_drain b e) = false
  is_shutdown (shuts s) = true
  is_shutdown (drain_enters c e) = false
  is_shutdown (drain_waits n a p e) = false
  is_shutdown (drain_leaves n a p e) = false

  -- Interleavings without another shutdown.
  pub data Quiet (w : World M K) : World M K → Type 0 where
    here : Quiet w w
    next :
        {u v : World M K} → Quiet w u → (s : Step dec ops u v) → is_shutdown s ≡ false → Quiet w v

  -- Someone sleeps in the drain of a queue that has nothing left.
  pub record IsStuck (w : World M K) : Type 0 where
    pub down : w.queue.shutting_down ≡ true
    pub empty : w.queue.items ≡ []
    pub idle : w.queue.processing ≡ []
    pub asleep : 0 < w.drain_asleep

  add_down : (q : Queue M K) (x : K) → q.shutting_down ≡ true → add dec ops q x ≡ (q, silent)
  unfolding add
  add_down q x down = rw (down, add) refl

  add-IsStuck :
      (w v : World M K) (x : K) (r : Queue M K × Notify)
      → r ≡ (w.queue, silent)
      → Wakes (record w { queue = r.0 }) r.1 v
      → IsStuck w
      → IsStuck v
  add-IsStuck w v x r same s stuck =
      let quiet : Wakes w silent v =
        subst (λ (p : Queue M K × Notify). Wakes (record w { queue = p.0 }) p.1 v) same s in
      elim quiet [ nothing e ↦ rw (e) stuck ]

  get-IsStuck :
      (w v : World M K) (q : Queue M K) (xs : List K)
      → xs ≡ []
      → w.queue ≡ q
      → q.shutting_down ≡ true
      → v ≡ settle w (take_head dec ops q xs)
      → IsStuck w
      → IsStuck v
  unfolding take_head
  get-IsStuck w v q [] none same down e stuck =
      rw (e, down)
        (record {
          down = refl;
          empty = sym (ap (λ p. p.items) same) ∙ stuck.empty;
          idle = sym (ap (λ p. p.processing) same) ∙ stuck.idle;
          asleep = stuck.asleep;
        })
  get-IsStuck w v q (x ∷ xs) none same down e stuck = absurd (cc)

  Step-IsStuck :
      {w v : World M K} (s : Step dec ops w v) → is_shutdown s ≡ false → IsStuck w → IsStuck v
  unfolding is_shutdown set_drain get has is_processing
  Step-IsStuck {w} {v} (adds x s) quiet stuck =
      add-IsStuck w v x (add dec ops w.queue x) (add_down w.queue x stuck.down) s stuck
  Step-IsStuck {w} {v} (gets e) quiet stuck =
      get-IsStuck w v w.queue w.queue.items stuck.empty refl stuck.down e stuck
  Step-IsStuck {w} {v} (regets n k e) quiet stuck =
      get-IsStuck (record w { woken = n }) v w.queue w.queue.items stuck.empty refl stuck.down e
        (record {
          down = stuck.down;
          empty = stuck.empty;
          idle = stuck.idle;
          asleep = stuck.asleep;
        })
  Step-IsStuck {w} (dones x h s) quiet stuck = absurd (cc (sym (ap (has dec x) stuck.idle) ∙ h))
  Step-IsStuck (sets_drain b e) quiet stuck =
      rw (e) (record {
        down = stuck.down;
        empty = stuck.empty;
        idle = stuck.idle;
        asleep = stuck.asleep;
      })
  Step-IsStuck (shuts s) quiet stuck = absurd (cc)
  Step-IsStuck (drain_enters c e) quiet stuck =
      rw (e) (record {
        down = stuck.down;
        empty = stuck.empty;
        idle = stuck.idle;
        asleep = stuck.asleep;
      })
  Step-IsStuck {w} (drain_waits n a p e) quiet stuck =
      absurd (cc (sym p ∙ ap (λ (xs : List K). not (length xs == 0)) stuck.idle))
  Step-IsStuck (drain_leaves n a p e) quiet stuck =
      rw (e) (record {
        down = stuck.down;
        empty = stuck.empty;
        idle = stuck.idle;
        asleep = stuck.asleep;
      })

  Quiet-IsStuck : {w v : World M K} → Quiet w v → IsStuck w → IsStuck v
  Quiet-IsStuck here stuck = stuck
  Quiet-IsStuck (next r s quiet) stuck = Step-IsStuck s quiet (Quiet-IsStuck r stuck)

  done_last :
      (q : Queue M K) (x : K)
      → q.processing ≡ x ∷ []
      → has dec x q.dirty ≡ false
      → done dec ops q x ≡ (record q { processing = []; metrics = ops.on_done q.metrics x }, signal)
  unfolding done delete
  done_last q x last clean =
      let gone : delete dec x (x ∷ []) ≡ [] = if_pos (dec x x) refl _ _ in
      rw (clean, done, last, gone) refl

  signal-IsStuck :
      {w u : World M K}
      → Wakes w signal u
      → w.queue.shutting_down ≡ true
      → w.queue.items ≡ []
      → w.queue.processing ≡ []
      → w.drain_asleep ≡ 2
      → IsStuck u
  signal-IsStuck (getter n a e) down empty idle two =
      rw (e) (record { down = down; empty = empty; idle = idle; asleep = omega (arith, two) })
  signal-IsStuck (drainer n a e) down empty idle two =
      rw (e) (record { down = down; empty = empty; idle = idle; asleep = omega (arith, two, a) })
  signal-IsStuck (nobody a d e) down empty idle two = absurd (omega (arith, two, d))

  -- Of two goroutines that sleep in `ShutDownWithDrain`, one is stuck: after the call of `Done` for the
  -- last item of a queue that was shut down, one of them sleeps on in every interleaving without
  -- another shutdown, although nothing is queued or processed.
  pub second_drain_IsStuck :
      (w u v : World M K) (x : K)
      → w.queue.shutting_down ≡ true
      → w.queue.items ≡ []
      → w.queue.processing ≡ x ∷ []
      → has dec x w.queue.dirty ≡ false
      → w.drain_asleep ≡ 2
      → Wakes (record w { queue = (done dec ops w.queue x).0 }) (done dec ops w.queue x).1 u
      → Quiet u v
      → IsStuck v
  second_drain_IsStuck w u v x down empty last clean two wakes quiet =
      let wakes' =
        subst (λ (p : Queue M K × Notify). Wakes (record w { queue = p.0 }) p.1 u)
          (done_last w.queue x last clean) wakes in
      Quiet-IsStuck quiet (signal-IsStuck wakes' down empty refl two)
