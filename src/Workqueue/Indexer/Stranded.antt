-- ===== src/Workqueue/Indexer/Stranded.antt =====
-- A key of pkg/workqueue/indexer_delaying_queue.go that has an entry, but is neither queued nor on its
-- way to the waiting loop; and what that loop uses of the queue.
use kube_trigger.Base.{
  ℕ, ◌<◌, ◌≡◌, refl, sym, ap, ◌∙◌, subst, arith, true, false, some, Option-cases, Bool-cases, inl,
  inr, List, [], ◌∷◌, if_pos, if_neg, has, has-snoc, ◌⊎◌,
}
use kube_trigger.Base.Dict
use kube_trigger.Base.Dict.{get-put, get-remove}
use kube_trigger.Workqueue.Items.{has-insert, has-delete}
use kube_trigger.Workqueue.Queue.{Metrics}
use kube_trigger.Workqueue.WaitingLoop.{Host}
use kube_trigger.Workqueue.Indexer.{
  is_shutting_down, Indexer, Entry, take_entry, take_head, get, push, finish,
}

module _ {K : Type 0} where
  -- The channel has no entry of the key.
  abbrev pub NotSent : K → List (K × ℕ) → Type 0
  NotSent k [] = Unit {0}
  NotSent k ((j, t) ∷ rest) = (¬ (k ≡ j)) × NotSent k rest

-- The key has an entry that is to be ready at `b`, but nothing will bring it into the queue.
pub record IsStranded {M K X : Type 0} (dec : Discrete K) (k : K) (b : ℕ) (q : Indexer M K X)
    : Type 0 where
  pub registered : (x : X) × (Dict.get dec k q.known ≡ some (record { payload = x; ready_at = b }))
  pub not_dirty : has dec k q.dirty ≡ false
  pub not_queued : has dec k q.queue ≡ false
  pub not_sent : NotSent k q.waiting_for_add

module _ {M K X : Type 0} (dec : Discrete K) (ops : Metrics M K) where
  -- What the waiting loop uses of the queue.
  unfoldable pub indexer_host : Host (Indexer M K X) K
  unfolding is_shutting_down
  indexer_host = record {
    is_down = λ q. is_shutting_down q;
    is_stopped = λ q. q.stopped;
    channel = λ q. q.waiting_for_add;
    set_channel = λ c q. record q { waiting_for_add = c };
    hand = λ q k now. (push dec ops q k now).0;
  }

  push-known : (q : Indexer M K X) (j : K) (t : ℕ) → (push dec ops q j t).0.known ≡ q.known
  unfolding push
  push-known q j t = ground arith

  push-sent :
      (q : Indexer M K X) (j : K) (t : ℕ)
      → (push dec ops q j t).0.waiting_for_add ≡ q.waiting_for_add
  unfolding push
  push-sent q j t = ground arith

  -- A key whose entry is not ready is not pushed.
  pub push-ignored :
      (q : Indexer M K X) (j : K) (t : ℕ) (e : Entry X)
      → Dict.get dec j q.known ≡ some e
      → t < e.ready_at
      → (push dec ops q j t).0 ≡ q
  unfolding push
  push-ignored q j t e there early = ground (arith, there)

  push-IsStranded_other :
      (k j : K) (b t : ℕ) (q : Indexer M K X)
      → ¬ (k ≡ j)
      → IsStranded dec k b q
      → IsStranded dec k b (push dec ops q j t).0
  unfolding push
  push-IsStranded_other k j b t q ne s = record {
    registered = (s.registered.0, ground (arith, s.registered.1));
    not_dirty = ground (arith, has-insert dec k j q.dirty, s.not_dirty);
    not_queued = ground (arith, has-snoc dec k j q.queue, s.not_queued);
    not_sent = subst (NotSent k) (sym (push-sent q j t)) s.not_sent;
  }

  pub push-IsStranded :
      (k j : K) (b t : ℕ) (q : Indexer M K X)
      → (t < b) ⊎ (¬ (k ≡ j))
      → IsStranded dec k b q
      → IsStranded dec k b (push dec ops q j t).0
  unfolding push
  push-IsStranded k j b t q (inl early) s = elim (dec k j) [
    | yes e ↦
        let there = sym (ap (λ x. Dict.get dec x q.known) e) ∙ s.registered.1 in
        subst (IsStranded dec k b)
          (sym (push-ignored q j t (record { payload = s.registered.0; ready_at = b }) there early))
          s
    | no ne ↦ push-IsStranded_other k j b t q ne s
  ]
  push-IsStranded k j b t q (inr ne) s = push-IsStranded_other k j b t q ne s

  take-IsStranded :
      (k : K) (b : ℕ) (q : Indexer M K X) (js : List K)
      → q.queue ≡ js
      → IsStranded dec k b q
      → IsStranded dec k b (take_head dec q js).0
  unfolding take_head take_entry has
  take-IsStranded k b q [] e s = s
  take-IsStranded k b q (j ∷ js) e s = elim (Option-cases (Dict.get dec j q.known)) [
    | inl absent ↦ rw (absent) s
    | inr (w, there) ↦
        let out : has dec k (j ∷ js) ≡ false = sym (ap (has dec k) e) ∙ s.not_queued in
        let other : ¬ (k ≡ j) =
          λ same. cc (sym (if_pos (dec k j) same true (has dec k js)) ∙ out) in
        rw (there) (record {
          registered = (
            s.registered.0,
            get-remove dec k j q.known ∙ if_neg (dec k j) other _ _ ∙ s.registered.1,
          );
          not_dirty = ground (arith, has-delete dec k j q.dirty, s.not_dirty);
          not_queued = sym (if_neg (dec k j) other true (has dec k js)) ∙ out;
          not_sent = s.not_sent;
        })
  ]

  pub get-IsStranded :
      (k : K) (b : ℕ) (q : Indexer M K X) → IsStranded dec k b q → IsStranded dec k b (get dec q).0
  unfolding get
  get-IsStranded k b q s = take-IsStranded k b q q.queue refl s

  pub finish-IsStranded :
      (k j : K) (b : ℕ) (q : Indexer M K X)
      → IsStranded dec k b q
      → IsStranded dec k b (finish dec ops q j)
  unfolding finish
  finish-IsStranded k j b q s = record {
    registered = (s.registered.0, ground (arith, s.registered.1));
    not_dirty = ground (arith, s.not_dirty);
    not_queued = elim (dec k j) [
      | yes e ↦
          let clean : has dec j q.dirty ≡ false =
            sym (ap (λ x. has dec x q.dirty) e) ∙ s.not_dirty in
          rw (clean) s.not_queued
      | no ne ↦ ground (arith, has-snoc dec k j q.queue, s.not_queued)
    ];
    not_sent = elim (Bool-cases (has dec j q.dirty)) [
      | inl again ↦ rw (again, finish) s.not_sent
      | inr clean ↦ rw (clean, finish) s.not_sent
    ];
  }
