-- ===== src/Workqueue/PriorityQueue/Due.antt =====
-- The heap of pkg/workqueue/delaying_queue.go as a map from keys to times.
use kube_trigger.Base.{ℕ, ◌≡◌, sym, ap, ◌∙◌, Option, none, some, Option-cases, inl, inr, List}
use kube_trigger.Base.Dict
use kube_trigger.Workqueue.PriorityQueue.{PriorityQueue, Waiting}
use kube_trigger.Workqueue.PriorityQueue.Mapped.{IsMapped}

module _ {K : Type 0} (dec : Discrete K) where
  -- A valid heap as a map: when the entry of a key is ready.
  unfoldable pub due : Waiting K → K → Option ℕ
  due w k = elim (Dict.get dec k w.known) [ none ↦ none | some p ↦ some (w.queue.ready_at p) ]

  pub due-some :
      (w : Waiting K) (k : K) (p : ℕ)
      → Dict.get dec k w.known ≡ some p
      → due w k ≡ some (w.queue.ready_at p)
  unfolding due
  due-some w k p found = rw (found, due)

  pub due-none : (w : Waiting K) (k : K) → Dict.get dec k w.known ≡ none → due w k ≡ none
  unfolding due
  due-none w k absent = rw (absent, due)

  -- A key whose entry is the same, and ready at the same time.
  pub due_kept :
      (v w : Waiting K) (j : K)
      → Dict.get dec j v.known ≡ Dict.get dec j w.known
      → ((p : ℕ) → Dict.get dec j w.known ≡ some p → v.queue.ready_at p ≡ w.queue.ready_at p)
      → due v j ≡ due w j
  due_kept v w j same times = elim (Option-cases (Dict.get dec j w.known)) [
    | inl absent ↦ due-none v j (same ∙ absent) ∙ sym (due-none w j absent)
    | inr (p, there) ↦
        due-some v j p (same ∙ there) ∙ ap some (times p there) ∙ sym (due-some w j p there)
  ]

  -- The pointer of another key is another pointer.
  pub apart :
      (q : PriorityQueue K) (known : List (K × ℕ)) (j k : K) (p r : ℕ)
      → IsMapped dec q known
      → Dict.get dec j known ≡ some p
      → Dict.get dec k known ≡ some r
      → ¬ (j ≡ k)
      → ¬ (p ≡ r)
  apart q known j k p r v a b ne e =
      let (_, _, _, named) = v.backed j p a in
      let (_, _, _, named') = v.backed k r b in ne (sym named ∙ ap q.payload e ∙ named')
