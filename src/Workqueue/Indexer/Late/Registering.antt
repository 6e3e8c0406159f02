-- ===== src/Workqueue/Indexer/Late/Registering.antt =====
-- Calls of `AddAfter` of pkg/workqueue/indexer_delaying_queue.go that ask for no earlier time.
use kube_trigger.Base.{
  ℕ, ◌≤◌, ◌≡◌, refl, sym, ap, ◌∙◌, subst, arith, Bool, true, false, Option, none, some, Bool-cases,
  inl, inr, ltb, if◌then◌else◌, if_pos, if_neg, ◌⊎◌,
}
use kube_trigger.Base.Dict
use kube_trigger.Base.Dict.{get-put}
use kube_trigger.Workqueue.Queue.{Metrics}
use kube_trigger.Workqueue.Indexer.{Indexer, Entry, Keyed, renew, outdated, register, dispatch}
use kube_trigger.Workqueue.Indexer.Stranded.{IsStranded, push-IsStranded}

module _ {M K X : Type 0} (dec : Discrete K) (ops : Metrics M K) (keyed : Keyed K X) where
  abbrev pub Registers : K → K → ℕ → Indexer M K X × Bool → Type 0
  Registers k j b r = IsStranded dec k b r.0 × (k ≡ j → r.1 ≡ false)

  -- `register` with what it finds for the key, when the queue is not shutting down.
  abbrev found_in : Indexer M K X → K → X → ℕ → Option (Entry X) → Indexer M K X × Bool
  found_in q j x t none = if outdated keyed (Dict.get dec j q.processing) x then (q, false) else (
    record q {
      known = Dict.put dec j (record { payload = x; ready_at = t }) q.known;
      metrics = ops.on_add q.metrics j;
    },
    true,
  )
  found_in q j x t (some w) =
      (record q { known = Dict.put dec j (renew keyed w x t) q.known }, ltb t w.ready_at)

  register_lem :
      (q : Indexer M K X) (j : K) (x : X) (t : ℕ)
      → (register dec ops keyed q j x t ≡ (q, false))
        ⊎ (register dec ops keyed q j x t ≡ found_in q j x t (Dict.get dec j q.known))
  unfolding register
  register_lem q j x t = ground arith

  put_other-IsStranded :
      (k j : K) (b : ℕ) (q : Indexer M K X) (e : Entry X) (m : M)
      → ¬ (k ≡ j)
      → IsStranded dec k b q
      → IsStranded dec k b (record q { known = Dict.put dec j e q.known; metrics = m })
  put_other-IsStranded k j b q e m ne s = record {
    registered =
        (s.registered.0, get-put dec k j e q.known ∙ if_neg (dec k j) ne _ _ ∙ s.registered.1);
    not_dirty = s.not_dirty;
    not_queued = s.not_queued;
    not_sent = s.not_sent;
  }

  -- A later time than that of the entry changes the item at most, and asks for no push.
  again-IsStranded :
      (k j : K) (b t : ℕ) (q : Indexer M K X) (x : X) (w : Entry X)
      → k ≡ j
      → b ≤ t
      → w.ready_at ≡ b
      → IsStranded dec k b q
      → Registers k j b (found_in q j x t (some w))
  unfolding renew
  again-IsStranded k j b t q x w e le at s =
      let later : ltb t w.ready_at ≡ false = ground (arith, at) in
      let time : (renew keyed w x t).ready_at ≡ b = rw (later) at in
      (
        record {
          registered = (
            (renew keyed w x t).payload,
            get-put dec k j (renew keyed w x t) q.known
                ∙ if_pos (dec k j) e _ _
                ∙ ap (λ n. some (record { payload = (renew keyed w x t).payload; ready_at = n }))
                    time,
          );
          not_dirty = s.not_dirty;
          not_queued = s.not_queued;
          not_sent = s.not_sent;
        },
        λ same. later,
      )

  found_in-IsStranded :
      (k j : K) (b t : ℕ) (x : X) (q : Indexer M K X) (o : Option (Entry X))
      → (k ≡ j → b ≤ t)
      → Dict.get dec j q.known ≡ o
      → IsStranded dec k b q
      → Registers k j b (found_in q j x t o)
  found_in-IsStranded k j b t x q none late there s =
      let other : ¬ (k ≡ j) =
        λ e. cc (sym s.registered.1 ∙ ap (λ i. Dict.get dec i q.known) e ∙ there) in
      elim (Bool-cases (outdated keyed (Dict.get dec j q.processing) x)) [
        | inl old ↦ rw (old) (s, λ e. refl)
        | inr fresh ↦ rw (fresh) (put_other-IsStranded k j b q _ _ other s, λ e. absurd (other e))
      ]
  found_in-IsStranded k j b t x q (some w) late there s = elim (dec k j) [
    | yes e ↦
        let one : record { payload = s.registered.0; ready_at = b } ≡ w =
          cc (sym s.registered.1 ∙ ap (λ i. Dict.get dec i q.known) e ∙ there) in
        again-IsStranded k j b t q x w e (late e) (sym (ap (λ (f : Entry X). f.ready_at) one)) s
    | no ne ↦ (put_other-IsStranded k j b q _ q.metrics ne s, λ e. absurd (ne e))
  ]

  pub register-IsStranded :
      (k j : K) (b t : ℕ) (x : X) (q : Indexer M K X)
      → (k ≡ j → b ≤ t)
      → IsStranded dec k b q
      → Registers k j b (register dec ops keyed q j x t)
  register-IsStranded k j b t x q late s = elim (register_lem q j x t) [
    | inl same ↦ subst (Registers k j b) (sym same) (s, λ e. refl)
    | inr is ↦
        subst (Registers k j b) (sym is)
          (found_in-IsStranded k j b t x q (Dict.get dec j q.known) late refl s)
  ]

  pub dispatch-IsStranded :
      (k j : K) (b t now later : ℕ) (r : Indexer M K X × Bool)
      → Registers k j b r
      → IsStranded dec k b (dispatch dec ops keyed r j t now later).0
  unfolding dispatch
  dispatch-IsStranded k j b t now later (q, false) (s, quiet) = s
  dispatch-IsStranded k j b t now later (q, true) (s, quiet) = elim (Bool-cases (ltb t now)) [
    | inl past ↦ rw (past) (push-IsStranded dec ops k j b later q (inr (λ e. cc (quiet e))) s)
    | inr future ↦ rw (future) s
  ]
