-- ===== src/Workqueue/Indexer/Lost.antt =====
-- A key of pkg/workqueue/indexer_delaying_queue.go that the waiting loop takes from its heap too early.
mod Tests
use kube_trigger.Base.{
  ℕ, zero, suc, ◌+◌, ◌≤◌, ◌<◌, ◌≡◌, ◌≢◌, refl, sym, ap, ◌∙◌, subst, arith, Bool, true, false, not,
  Option, none, some, Option-cases, Bool-cases, inl, inr, List, [], ◌∷◌, ◌++◌, ltb, if◌then◌else◌,
  ite, if_pos, if_neg, has, ◌⊎◌,
}
use kube_trigger.Base.Dict
use kube_trigger.Base.Dict.{get-put}
use kube_trigger.Base.Int.{ℤ, pos}
use kube_trigger.Workqueue.Queue.{Metrics}
use kube_trigger.Workqueue.PriorityQueue.{Waiting, take_first}
use kube_trigger.Workqueue.PriorityQueue
use kube_trigger.Workqueue.PriorityQueue.Mapped.{IsValid}
use kube_trigger.Workqueue.PriorityQueue.Due.{due}
use kube_trigger.Workqueue.PriorityQueue.Insertion.{insert-Inserts}
use kube_trigger.Workqueue.PriorityQueue.Removal.{take_first-Removes}
use kube_trigger.Workqueue.WaitingLoop.{
  Host, Loop, Step, Reach, begins, ends, expires, settles, wakes, receives, draining, drained,
  passes, others, here, next, accept, expire_one, is_settled,
}
use kube_trigger.Workqueue.Indexer.{
  Indexer, Entry, Keyed, Pending, nothing, send, add_duration, renew, outdated, get, push, finish,
  register, dispatch, add_after, done, shutdown, set_drain, shut_down, start_drain, Sends, stops,
  queues,
}
use kube_trigger.Workqueue.Indexer.Late.{Late, Late-IsStranded}
use kube_trigger.Workqueue.Indexer.Stranded.{
  NotSent, IsStranded, indexer_host, push-IsStranded, get-IsStranded, finish-IsStranded,
  push-ignored,
}

module _ {M K X : Type 0} (dec : Discrete K) (ops : Metrics M K) (keyed : Keyed K X) where
  -- The key is stranded, and the heap of the waiting loop, which is valid, does not have it.
  pub record IsLost (k : K) (b : ℕ) (l : Loop (Indexer M K X) K) : Type 0 where
    pub stranded : IsStranded dec k b l.host
    pub valid : IsValid dec l.waiting
    pub gone : due dec l.waiting k ≡ none

  expire_one-IsLost :
      (k : K) (b now n : ℕ) (l : Loop (Indexer M K X) K)
      → is_settled now l.waiting n ≡ false
      → l.waiting.queue.size ≡ n
      → IsLost k b l
      → IsLost k b (expire_one dec (indexer_host dec ops) l)
  unfolding expire_one indexer_host is_settled
  expire_one-IsLost k b now zero l open_ size v = absurd (cc)
  expire_one-IsLost k b now (suc n) l open_ size v =
      let ((valid, dues), first, _, _) = take_first-Removes dec l.waiting n v.valid size in
      let j = (take_first dec l.waiting).1 in
      let other : ¬ (k ≡ j) = λ e. cc (sym v.gone ∙ ap (due dec l.waiting) e ∙ first) in
      record {
        stranded = push-IsStranded dec ops k j b l.time l.host (inr other) v.stranded;
        valid = valid;
        gone = dues k ∙ if_neg (dec k j) other _ _ ∙ v.gone;
      }

  accept-IsLost :
      (k j : K) (b t : ℕ) (l : Loop (Indexer M K X) K)
      → ¬ (k ≡ j)
      → IsLost k b l
      → IsLost k b (accept dec (indexer_host dec ops) l j t)
  unfolding accept indexer_host
  accept-IsLost k j b t l ne v = elim (Bool-cases (ltb l.time t)) [
    | inl later ↦
        let (valid, dues) = insert-Inserts dec l.waiting j t v.valid in
        rw (later, accept)
          (record {
            stranded = v.stranded;
            valid = valid;
            gone = dues k ∙ if_neg (dec k j) ne _ _ ∙ v.gone;
          })
    | inr ready ↦
        rw (ready, accept)
          (record {
            stranded = push-IsStranded dec ops k j b l.time l.host (inr ne) v.stranded;
            valid = v.valid;
            gone = v.gone;
          })
  ]

  -- The parts of the loop that touch neither the queue nor the heap.
  same-IsLost :
      (k : K) (b : ℕ) (l v : Loop (Indexer M K X) K)
      → v.host ≡ l.host
      → v.waiting ≡ l.waiting
      → IsLost k b l
      → IsLost k b v
  same-IsLost k b l v host waiting s = record {
    stranded = subst (IsStranded dec k b) (sym host) s.stranded;
    valid = subst (IsValid dec) (sym waiting) s.valid;
    gone = ap (λ w. due dec w k) waiting ∙ s.gone;
  }

  received-IsLost :
      (k j : K) (b t : ℕ) (rest : List (K × ℕ)) (l v : Loop (Indexer M K X) K)
      → l.host.waiting_for_add ≡ (j, t) ∷ rest
      → v
        ≡ accept dec
            (indexer_host dec ops)
            (record l { host = (indexer_host dec ops).set_channel rest l.host; phase = draining })
            j
            t
      → IsLost k b l
      → IsLost k b v
  unfolding indexer_host
  received-IsLost k j b t rest l v at new s =
      let others : NotSent k ((j, t) ∷ rest) = subst (NotSent k) at s.stranded.not_sent in
      subst (IsLost k b) (sym new) (
        accept-IsLost k j b t _ others.0 (record {
          stranded = record {
            registered = s.stranded.registered;
            not_dirty = s.stranded.not_dirty;
            not_queued = s.stranded.not_queued;
            not_sent = others.1;
          };
          valid = s.valid;
          gone = s.gone;
        }))

  Step-IsLost :
      (k : K) (b : ℕ) (l v : Loop (Indexer M K X) K)
      → Step dec (indexer_host dec ops) (Late dec ops keyed k b) l v
      → IsLost k b l
      → IsLost k b v
  Step-IsLost k b l v (begins phase up new) s =
      same-IsLost k b l v (ap (λ x. x.host) new) (ap (λ x. x.waiting) new) s
  Step-IsLost k b l v (ends phase down new) s =
      same-IsLost k b l v (ap (λ x. x.host) new) (ap (λ x. x.waiting) new) s
  Step-IsLost k b l v (expires now phase open_ new) s =
      subst (IsLost k b) (sym new) (expire_one-IsLost k b now l.waiting.queue.size l open_ refl s)
  Step-IsLost k b l v (settles now phase over new) s =
      same-IsLost k b l v (ap (λ x. x.host) new) (ap (λ x. x.waiting) new) s
  Step-IsLost k b l v (wakes now phase new) s =
      same-IsLost k b l v (ap (λ x. x.host) new) (ap (λ x. x.waiting) new) s
  Step-IsLost k b l v (Step.stops now phase down new) s =
      same-IsLost k b l v (ap (λ x. x.host) new) (ap (λ x. x.waiting) new) s
  Step-IsLost k b l v (receives now j t rest phase at new) s =
      received-IsLost k j b t rest l v (unfold indexer_host in at) new s
  Step-IsLost k b l v (drained phase empty new) s =
      same-IsLost k b l v (ap (λ x. x.host) new) (ap (λ x. x.waiting) new) s
  Step-IsLost k b l v (passes n new) s =
      same-IsLost k b l v (ap (λ x. x.host) new) (ap (λ x. x.waiting) new) s
  Step-IsLost k b l v (others w other new) s = subst (IsLost k b) (sym new) (record {
    stranded = Late-IsStranded dec ops keyed k b l.time l.host w other s.stranded;
    valid = s.valid;
    gone = s.gone;
  })

  Reach-IsLost :
      (k : K) (b : ℕ) (l v : Loop (Indexer M K X) K)
      → Reach dec (indexer_host dec ops) (Late dec ops keyed k b) l v
      → IsLost k b l
      → IsLost k b v
  Reach-IsLost k b l v here s = s
  Reach-IsLost k b l v (next {u} r step) s = Step-IsLost k b u v step (Reach-IsLost k b l u r s)

  -- If the waiting loop takes a key from its heap before the time `b` at which the key's entry is to be
  -- ready, and the key is in neither the queue, the dirty set nor the channel, then the key is lost: in
  -- every interleaving from there, as long as no call of `AddAfter` for the key asks for an earlier time
  -- than `b`, and no goroutine that registered the key before has still to send or to push it, its entry
  -- stays registered for `b`, and it is neither in the heap nor in the channel nor in the queue.
  pub expired_early_IsLost :
      (k : K) (b n : ℕ) (l v : Loop (Indexer M K X) K)
      → IsValid dec l.waiting
      → l.waiting.queue.size ≡ suc n
      → (take_first dec l.waiting).1 ≡ k
      → l.time < b
      → IsStranded dec k b l.host
      → Reach dec
          (indexer_host dec ops)
          (Late dec ops keyed k b)
          (expire_one dec (indexer_host dec ops) l)
          v
      → IsLost k b v
  unfolding expire_one indexer_host
  expired_early_IsLost k b n l v valid size taken early stranded reach =
      let ((after, dues), _, _, _) = take_first-Removes dec l.waiting n valid size in
      Reach-IsLost k b (expire_one dec (indexer_host dec ops) l) v reach (record {
        stranded = push-IsStranded dec ops k _ b l.time l.host (inl early) stranded;
        valid = after;
        gone = dues k ∙ if_pos (dec k _) (sym taken) _ _;
      })
