-- ===== src/Workqueue/DelayingQueue/Kept.antt =====
-- What becomes of the items that pkg/workqueue/delaying_queue.go has taken for later: the queue with a
-- log of what was sent to its waiting loop and of what that loop added to the inner queue.
pub mod Tests
use kube_trigger.Base.{
  In, some-injective, ℕ, zero, suc, ◌≤◌, ◌<◌, ◌≡◌, ◌⊎◌, inl, inr, refl, sym, ap, ◌∙◌, subst, arith,
  Bool, false, Bool-cases, Option, none, some, if_pos, if_neg, if◌then◌else◌, ltb, List, [], ◌∷◌,
  ◌++◌,
}
use kube_trigger.Base.Int.{ℤ}
use kube_trigger.Workqueue.PriorityQueue.{
  Waiting, take_first, insert, new_waiting, heap_init, heapify, empty_queue,
}
use kube_trigger.Workqueue.PriorityQueue.Mapped.{IsValid}
use kube_trigger.Workqueue.PriorityQueue.Due.{due}
use kube_trigger.Workqueue.PriorityQueue.Insertion.{insert-Inserts, earliest}
use kube_trigger.Workqueue.PriorityQueue.Removal.{take_first-Removes}
use kube_trigger.Workqueue.WaitingLoop.{
  Host, Loop, new_loop, Step, Reach, here, next, begins, ends, expires, settles, wakes, stops,
  receives, drained, passes, others, accept, expire_one, is_settled, draining, selecting,
}
use kube_trigger.Workqueue.WaitingLoop.Keeps.{Keeps}
use kube_trigger.Workqueue.WaitingLoop.Invariant.{
  IsSound, Step-IsSound, Reach-IsSound, new_loop-IsSound,
}
use kube_trigger.Workqueue.DelayingQueue.{
  Inner, DelayingQueue, new_delaying_queue, add_after, shut_down, Sends, loop_host,
}
use kube_trigger.Workqueue.DelayingQueue.Channel.{add_after-channel, shut_down-channel}

pub data Event (K : Type 0) : Type 0 where
  sent : K → ℕ → Event K
  handed : K → ℕ → Event K

-- The latest event is the first of the log.
pub record Logged (I K : Type 0) : Type 0 where
  pub queue : DelayingQueue I K
  pub log : List (Event K)

-- The item was sent for the time, and has not been handed on since.
abbrev pub Waits : {K : Type 0} → K → ℕ → List (Event K) → Type 0
Waits k t [] = ⊥
Waits k t (sent j s ∷ es) = ((k ≡ j) × (t ≡ s)) ⊎ Waits k t es
Waits k t (handed j now ∷ es) = (¬ (k ≡ j)) × Waits k t es

earliest-le_new : (o : Option ℕ) (t : ℕ) → earliest o t ≤ t
earliest-le_new none t = omega arith
earliest-le_new (some s) t = ground arith

earliest-le_old : (s t : ℕ) → earliest (some s) t ≤ s
earliest-le_old s t = ground arith

In-append : {A : Type 0} (x : A) (xs ys : List A) → In x xs → In x (xs ++ ys)
In-append x [] ys p = elim p [ ]
In-append x (z ∷ zs) ys (inl e) = inl e
In-append x (z ∷ zs) ys (inr p) = inr (In-append x zs ys p)

In-last : {A : Type 0} (x : A) (xs : List A) → In x (xs ++ x ∷ [])
In-last x [] = inl refl
In-last x (z ∷ zs) = inr (In-last x zs)

module _ {I K : Type 0} (ops : Inner I K) where
  unfoldable pub logged_host : Host (Logged I K) K
  unfolding loop_host
  logged_host =
      let inner = loop_host ops in
      record {
        is_down = λ h. inner.is_down h.queue;
        is_stopped = λ h. inner.is_stopped h.queue;
        channel = λ h. inner.channel h.queue;
        set_channel = λ c h. record h { queue = inner.set_channel c h.queue };
        hand = λ h x now. record { queue = inner.hand h.queue x now; log = handed x now ∷ h.log };
      }

  abbrev pub with_entry : DelayingQueue I K → K → ℕ → DelayingQueue I K
  with_entry q x t = record q { waiting_for_add = q.waiting_for_add ++ (x, t) ∷ [] }

  -- The goroutines around the loop: those in `AddAfter` before its `select` and in it, when the entry
  -- goes into the channel, those in `ShutDown`, and those that use the inner queue.
  pub data Other (now : ℕ) (h g : Logged I K) : Type 0 where
    calls :
        (x : K) (d : ℤ) → g ≡ record h { queue = (add_after ops h.queue x d now).0 } → Other now h g
    sends :
        (x : K) (t : ℕ)
        → Sends ops h.queue x t (with_entry h.queue x t)
        → g ≡ record { queue = with_entry h.queue x t; log = sent x t ∷ h.log }
        → Other now h g
    shuts_down : g ≡ record h { queue = shut_down ops h.queue } → Other now h g
    uses_inner : (i : I) → g ≡ record h { queue = record h.queue { inner = i } } → Other now h g

  unfoldable pub new_logged : Bool → I → Logged I K
  new_logged unnamed i = record { queue = new_delaying_queue unnamed i; log = [] }

  abbrev pub Anything : Logged I K → Type 0
  Anything h = Unit {0}

  abbrev pub Whatever : Logged I K → K → ℕ → Type 0
  Whatever h k t = Unit {0}

  pub keeps : Keeps logged_host Other Anything Whatever
  keeps = record {
    head_asked = λ h k t rest v at. tt;
    tail_good = λ h k t rest v at. tt;
    tail_asked = λ h rest j s asked. tt;
    hand_good = λ h k t now v asked le. tt;
    hand_asked = λ h k now j s asked. tt;
    other_good = λ h g now other v. tt;
    other_asked = λ h g now j s other asked. tt;
  }

  module _ (dec : Discrete K) where
    -- An entry is in the channel, or its key is on the heap for its time or an earlier one.
    abbrev pub Held : Loop (Logged I K) K → K → ℕ → Type 0
    Held l k t =
        In (k, t) l.host.queue.waiting_for_add
        ⊎ ((s : ℕ) × (due dec l.waiting k ≡ some s) × (s ≤ t))

    abbrev pub Kept : Loop (Logged I K) K → Type 0
    Kept l = (k : K) (t : ℕ) → Waits k t l.host.log → Held l k t

    abbrev pub Sound : Loop (Logged I K) K → Type 0
    Sound = IsSound dec logged_host Other Anything Whatever keeps

    inserted :
        (w : Waiting K) (j k : K) (r s : ℕ)
        → IsValid dec w
        → due dec w k ≡ some s
        → (n : ℕ) × (due dec (insert dec w j r) k ≡ some n) × (n ≤ s)
    inserted w j k r s valid at =
        let (_, dues) = insert-Inserts dec w j r valid in
        elim (dec k j) [
          | yes e ↦ (
            earliest (some s) r,
            dues k
                ∙ if_pos (dec k j) e _ _
                ∙ ap (λ o. some (earliest o r)) (sym (ap (due dec w) e) ∙ at),
            earliest-le_old s r,
          )
          | no ne ↦ (s, dues k ∙ if_neg (dec k j) ne _ _ ∙ at, omega arith)
        ]

    entered :
        (w : Waiting K) (j k : K) (r : ℕ)
        → IsValid dec w
        → k ≡ j
        → (n : ℕ) × (due dec (insert dec w j r) k ≡ some n) × (n ≤ r)
    entered w j k r valid e =
        let (_, dues) = insert-Inserts dec w j r valid in
        (earliest (due dec w j) r, dues k ∙ if_pos (dec k j) e _ _, earliest-le_new (due dec w j) r)

    accept-Kept :
        (l : Loop (Logged I K) K) (j : K) (r : ℕ) (rest : List (K × ℕ))
        → Sound l
        → l.host.queue.waiting_for_add ≡ (j, r) ∷ rest
        → Kept l
        → Kept (
            accept dec logged_host
              (record l { host = logged_host.set_channel rest l.host; phase = draining })
              j
              r)
    unfolding accept logged_host loop_host
    accept-Kept l j r rest sound at kept = elim (Bool-cases (ltb l.time r)) [
      | inl later ↦
          rw (later, accept)
            (λ k t waits. elim (kept k t waits) [
              | inl there ↦ elim (subst (In (k, t)) at there) [
                | inl e ↦
                    let (n, now_due, le) = entered l.waiting j k r sound.valid (ap (λ x. x.0) e) in
                    inr (n, now_due, subst (λ x. n ≤ x) (sym (ap (λ x. x.1) e)) le)
                | inr behind ↦ inl behind
              ]
              | inr (s, was_due, le) ↦
                  let (n, now_due, less) = inserted l.waiting j k r s sound.valid was_due in
                  inr (n, now_due, omega (arith, less, le))
            ])
      | inr ready ↦
          rw (ready, accept)
            (λ k t (ne, waits). elim (kept k t waits) [
              | inl there ↦ elim (subst (In (k, t)) at there) [
                | inl e ↦ absurd (ne (ap (λ x. x.0) e))
                | inr behind ↦ inl behind
              ]
              | inr still ↦ inr still
            ])
    ]

    expire_one-Kept :
        (l : Loop (Logged I K) K) (now n : ℕ)
        → Sound l
        → is_settled now l.waiting n ≡ false
        → l.waiting.queue.size ≡ n
        → Kept l
        → Kept (expire_one dec logged_host l)
    unfolding expire_one logged_host loop_host is_settled
    expire_one-Kept l now zero sound open_ size kept = absurd (cc)
    expire_one-Kept l now (suc n) sound open_ size kept = λ k t (ne, waits).
        let ((_, dues), _, _, _) = take_first-Removes dec l.waiting n sound.valid size in
        elim (kept k t waits) [
          | inl there ↦ inl there
          | inr (s, at, le) ↦ inr (s, dues k ∙ if_neg (dec k _) ne _ _ ∙ at, le)
        ]

    other-Kept :
        (l : Loop (Logged I K) K) (g : Logged I K)
        → Other l.time l.host g
        → Kept l
        → Kept (record l { host = g })
    other-Kept l g (calls x d new) kept =
        rw (new) (λ k t waits. rw (add_after-channel ops l.host.queue x d l.time) (kept k t waits))
    other-Kept l g (sends x s into new) kept = rw (new) (λ k t waits. elim waits [
      | inl (named, at) ↦ inl (rw (named, at) (In-last (x, s) l.host.queue.waiting_for_add))
      | inr before ↦ elim (kept k t before) [
        | inl there ↦ inl (In-append (k, t) l.host.queue.waiting_for_add ((x, s) ∷ []) there)
        | inr still ↦ inr still
      ]
    ])
    other-Kept l g (shuts_down new) kept =
        rw (new) (λ k t waits. rw (shut_down-channel ops l.host.queue) (kept k t waits))
    other-Kept l g (uses_inner i new) kept = rw (new) kept

    Step-Kept :
        (l v : Loop (Logged I K) K) → Step dec logged_host Other l v → Sound l → Kept l → Kept v
    unfolding logged_host loop_host
    Step-Kept l v (begins phase up new) sound kept = rw (new) kept
    Step-Kept l v (ends phase down new) sound kept = rw (new) kept
    Step-Kept l v (expires now phase open_ new) sound kept =
        subst Kept (sym new) (expire_one-Kept l now l.waiting.queue.size sound open_ refl kept)
    Step-Kept l v (settles now phase over new) sound kept = rw (new) kept
    Step-Kept l v (wakes now phase new) sound kept = rw (new) kept
    Step-Kept l v (stops now phase down new) sound kept = rw (new) kept
    Step-Kept l v (receives now j r rest phase at new) sound kept =
        subst Kept (sym new) (accept-Kept l j r rest sound at kept)
    Step-Kept l v (drained phase empty new) sound kept = rw (new) kept
    Step-Kept l v (passes n new) sound kept = rw (new) kept
    Step-Kept l v (others g other new) sound kept = subst Kept (sym new) (other-Kept l g other kept)

    pub Reach-Kept :
        (l v : Loop (Logged I K) K)
        → Reach dec logged_host Other l v
        → Sound l
        → Kept l
        → Sound v × Kept v
    Reach-Kept l v here sound kept = (sound, kept)
    Reach-Kept l v (next {u} reach step) sound kept =
        let (before, held) = Reach-Kept l u reach sound kept in
        (
          Step-IsSound dec logged_host Other Anything Whatever keeps u v before step,
          Step-Kept u v step before held,
        )

    pub reached :
        (nil : K) (unnamed : Bool) (i : I) (l : Loop (Logged I K) K)
        → Reach dec logged_host Other (new_loop nil (new_logged unnamed i)) l
        → Sound l × Kept l
    unfolding new_logged new_loop
    reached nil unnamed i l reach =
        let start =
          new_loop-IsSound dec logged_host Other Anything Whatever keeps nil (new_logged unnamed i)
            tt in
        Reach-Kept _ l reach start (λ j s none. elim none [ ])

    -- In every interleaving of the waiting loop with the goroutines around it, no item is lost: an item
    -- that was sent to the loop and has not been handed to the inner queue since is in the channel, or
    -- on the heap for the time for which it was sent or an earlier one; and if the loop sleeps in its
    -- `select`, the items on the heap were not due at the time of its round.
    pub never_lost :
        (nil : K) (unnamed : Bool) (i : I) (l : Loop (Logged I K) K) (k : K) (t : ℕ)
        → Reach dec logged_host Other (new_loop nil (new_logged unnamed i)) l
        → Waits k t l.host.log
        → Held l k t
          × ((now : ℕ)
              → l.phase ≡ selecting now
              → (j : K) (s : ℕ) → due dec l.waiting j ≡ some s
              → now < s)
    never_lost nil unnamed i l k t reach waits =
        let (sound, kept) = reached nil unnamed i l reach in (kept k t waits, sound.asleep)
