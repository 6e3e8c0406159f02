-- ===== src/Workqueue/Indexer/Invariant.antt =====
-- The invariant of the queue of pkg/workqueue/indexer_delaying_queue.go, kept by every operation.
use kube_trigger.Base.{
  ℕ, ◌≡◌, refl, sym, ap, ◌∙◌, subst, true, false, not, ◌&&◌, inl, inr, some, List, ◌∷◌, arith, has,
  has-cons, has_self, has-snoc, IsDistinct, snoc-IsDistinct, Option-cases, Bool-cases,
}
use kube_trigger.Base.Dict
use kube_trigger.Base.Dict.{get-put, get-remove}
use kube_trigger.Workqueue.Items.{delete, has-insert, has-delete}
use kube_trigger.Workqueue.Queue.{Metrics}
use kube_trigger.Workqueue.Indexer.{
  Indexer, Keyed, Entry, known_in, new_indexer, renew, outdated, register, push, take_entry, finish,
}

-- The queue holds, once each, exactly the dirty keys that no worker has; every dirty key has an entry
-- to hand out; and every entry stands under the key of its item.
pub record IsValid {M K X : Type 0} (dec : Discrete K) (keyed : Keyed K X) (q : Indexer M K X)
    : Type 0 where
  pub distinct : IsDistinct dec q.queue
  pub queued :
      (k : K)
      → has dec k q.queue ≡ (has dec k q.dirty && not (known_in (Dict.get dec k q.processing)))
  pub prepared : (k : K) → has dec k q.dirty ≡ true → known_in (Dict.get dec k q.known) ≡ true
  pub known_keys :
      (k : K) (e : Entry X) → Dict.get dec k q.known ≡ some e → keyed.key_func e.payload ≡ some k
  pub processing_keys :
      (k : K) (e : Entry X)
      → Dict.get dec k q.processing ≡ some e
      → keyed.key_func e.payload ≡ some k

module _ {M K X : Type 0} (dec : Discrete K) (ops : Metrics M K) (keyed : Keyed K X) where
  pub new-IsValid : (m : M) → IsValid dec keyed (new_indexer {X = X} m)
  unfolding new_indexer has Dict.get
  new-IsValid m = record {
    distinct = tt;
    queued = λ k. refl;
    prepared = λ k h. cc;
    known_keys = λ k e h. cc;
    processing_keys = λ k e h. cc;
  }

  renew_key :
      (w : Entry X) (x : X) (t : ℕ) (k : K)
      → keyed.key_func w.payload ≡ some k
      → keyed.key_func x ≡ some k
      → keyed.key_func (renew keyed w x t).payload ≡ some k
  unfolding renew
  renew_key w x t k h g = ground arith

  put-known :
      (q : Indexer M K X) (k : K) (e : Entry X)
      → keyed.key_func e.payload ≡ some k
      → IsValid dec keyed q
      → (j : K) (f : Entry X) → Dict.get dec j (Dict.put dec k e q.known) ≡ some f
      → keyed.key_func f.payload ≡ some j
  put-known q k e h v j f g = ground (arith, get-put dec j k e q.known, v.known_keys j f)

  put-IsValid :
      (q : Indexer M K X) (k : K) (e : Entry X) (m : M)
      → keyed.key_func e.payload ≡ some k
      → IsValid dec keyed q
      → IsValid dec keyed (record q { known = Dict.put dec k e q.known; metrics = m })
  put-IsValid q k e m h v = record {
    distinct = v.distinct;
    queued = v.queued;
    prepared = λ j g. ground (arith, v.prepared j, get-put dec j k e q.known);
    known_keys = put-known q k e h v;
    processing_keys = v.processing_keys;
  }

  pub register-IsValid :
      (q : Indexer M K X) (k : K) (x : X) (t : ℕ)
      → keyed.key_func x ≡ some k
      → IsValid dec keyed q
      → IsValid dec keyed (register dec ops keyed q k x t).0
  unfolding register
  register-IsValid q k x t h v = elim (Bool-cases q.shutting_down) [
    | inl closing ↦ simp closing v
    | inr opened ↦ simp opened (elim (Option-cases (Dict.get dec k q.known)) [
      | inl new ↦
          rw (new, register)
            (elim (Bool-cases (outdated keyed (Dict.get dec k q.processing) x)) [
              | inl old ↦ rw old v
              | inr fresh ↦ rw fresh (put-IsValid q k _ _ h v)
            ])
      | inr (w, old) ↦
          rw (old, register)
            (put-IsValid q k _ q.metrics (renew_key w x t k (v.known_keys k w old) h) v)
    ])
  ]

  pub push-IsValid :
      (q : Indexer M K X) (k : K) (now : ℕ)
      → IsValid dec keyed q
      → IsValid dec keyed (push dec ops q k now).0
  unfolding push
  push-IsValid q k now v = record {
    distinct = ground (arith, v.distinct, v.queued k, snoc-IsDistinct dec k q.queue);
    queued = λ j. ground (arith, v.queued j, has-snoc dec j k q.queue, has-insert dec j k q.dirty);
    prepared = λ j h. ground (arith, v.prepared j, has-insert dec j k q.dirty);
    known_keys = λ j f h. ground (arith, v.known_keys j f);
    processing_keys = λ j f h. ground (arith, v.processing_keys j f);
  }

  removed-known :
      (q : Indexer M K X) (k : K)
      → IsValid dec keyed q
      → (j : K) (f : Entry X) → Dict.get dec j (Dict.remove dec k q.known) ≡ some f
      → keyed.key_func f.payload ≡ some j
  removed-known q k v j f g = ground (arith, get-remove dec j k q.known, v.known_keys j f)

  -- The head of the queue has an entry to hand out.
  pub head-entry :
      (q : Indexer M K X) (k : K) (rest : List K)
      → IsValid dec keyed q
      → q.queue ≡ k ∷ rest
      → (has dec k q.dirty ≡ true) × (known_in (Dict.get dec k q.processing) ≡ false)
  head-entry q k rest v e =
      let queued_k : (true ≡ (has dec k q.dirty && not (known_in (Dict.get dec k q.processing)))) =
        sym (has_self dec k rest) ∙ ap (has dec k) (sym e) ∙ v.queued k in
      ground arith

  pub take_entry-IsValid :
      (q : Indexer M K X) (k : K) (rest : List K) (e : Entry X)
      → q.queue ≡ k ∷ rest
      → Dict.get dec k q.known ≡ some e
      → IsValid dec keyed q
      → IsValid dec keyed (take_entry dec q k rest (some e)).0
  unfolding take_entry
  take_entry-IsValid q k rest e h g v =
      let d : IsDistinct dec (k ∷ rest) = subst (IsDistinct dec) h v.distinct in
      record {
        distinct = d.1;
        queued = λ j. taken j d.0 (ap (has dec j) (sym h) ∙ v.queued j);
        prepared = λ j f.
            ground (arith, v.prepared j, has-delete dec j k q.dirty, get-remove dec j k q.known);
        known_keys = removed-known q k v;
        processing_keys = λ j f z.
            ground (arith, get-put dec j k e q.processing, v.processing_keys j f, v.known_keys k e);
      }
    where
      taken :
          (j : K)
          → has dec k rest ≡ false
          → has dec j (k ∷ rest)
            ≡ (has dec j q.dirty && not (known_in (Dict.get dec j q.processing)))
          → has dec j rest ≡ (
              has dec j (delete dec k q.dirty)
              && not (known_in (Dict.get dec j (Dict.put dec k e q.processing))))
      taken j absent y =
          ground (
            arith,
            has-cons dec j k rest,
            has-delete dec j k q.dirty,
            get-put dec j k e q.processing,
          )

  pub finish-IsValid :
      (q : Indexer M K X) (k : K)
      → known_in (Dict.get dec k q.processing) ≡ true
      → IsValid dec keyed q
      → IsValid dec keyed (finish dec ops q k)
  unfolding finish
  finish-IsValid q k held v = record {
    distinct = ground (arith, v.distinct, v.queued k, snoc-IsDistinct dec k q.queue);
    queued =
        λ j. ground (arith, v.queued j, has-snoc dec j k q.queue, get-remove dec j k q.processing);
    prepared = λ j h. ground (arith, v.prepared j);
    known_keys = λ j f h. ground (arith, v.known_keys j f);
    processing_keys =
        λ j f h. ground (arith, get-remove dec j k q.processing, v.processing_keys j f);
  }
