-- ===== src/Workqueue/WaitingLoop/Invariant.antt =====
-- What holds of the waiting loops of pkg/workqueue in every interleaving.
use kube_trigger.Base.{
  some-injective, ℕ, zero, suc, ◌≤◌, ◌<◌, ◌≡◌, ◌⊎◌, refl, sym, ◌∙◌, subst, arith, false, List, ◌∷◌,
  ltb, Option, none, some, Bool-cases, inl, inr, if_pos, if_neg,
}
use kube_trigger.Base.Dict
use kube_trigger.Workqueue.PriorityQueue.{
  key, peek, take_first, new_waiting, heap_init, heapify, empty_queue,
}
use kube_trigger.Workqueue.PriorityQueue.Mapped.{IsValid}
use kube_trigger.Workqueue.PriorityQueue.Due.{due}
use kube_trigger.Workqueue.PriorityQueue.Insertion.{insert-Inserts, earliest}
use kube_trigger.Workqueue.PriorityQueue.Removal.{take_first-Removes}
use kube_trigger.Workqueue.WaitingLoop.{
  Host, Phase, starting, draining, returned, expiring, selecting, Loop, new_loop, is_settled,
  accept, expire_one, Step, begins, ends, expires, settles, wakes, stops, receives, drained, passes,
  others, Reach, here, next,
}
use kube_trigger.Workqueue.WaitingLoop.Expiry.{is_settled-due}
use kube_trigger.Workqueue.WaitingLoop.Keeps.{Keeps}

module _ {K : Type 0} (dec : Discrete K) where
  pub new_waiting-IsValid : (nil : K) → IsValid dec (new_waiting nil)
  unfolding new_waiting heap_init heapify empty_queue Dict.get
  new_waiting-IsValid nil = record {
    heap = λ c p l. absurd (omega arith);
    mapped = record {
      indexed = λ i h. absurd (omega arith);
      owned = λ i h. absurd (omega arith);
      mapped = λ i h. absurd (omega arith);
      backed = λ k p found. absurd (cc);
    };
  }

earliest_of : (o : Option ℕ) (t s : ℕ) → earliest o t ≡ s → (s ≡ t) ⊎ (o ≡ some s)
earliest_of none t s e = inl (sym e)
earliest_of (some r) t s e = ground arith

module _ {W K : Type 0} (dec : Discrete K) (host : Host W K) where
  module _ (Other : ℕ → W → W → Type 0) (Good : W → Type 0) (Asked : W → K → ℕ → Type 0)
      (keeps : Keeps host Other Good Asked) where
    -- The heap is valid, every entry in it was asked for, what is shared is good, the time of a round
    -- is past, and in the `select` no entry was due at the time of the round.
    pub record IsSound (l : Loop W K) : Type 0 where
      pub valid : IsValid dec l.waiting
      pub asked : (j : K) (t : ℕ) → due dec l.waiting j ≡ some t → Asked l.host j t
      pub good : Good l.host
      pub round : (now : ℕ) → l.phase ≡ expiring now → now ≤ l.time
      pub asleep :
          (now : ℕ)
          → l.phase ≡ selecting now
          → (j : K) (t : ℕ) → due dec l.waiting j ≡ some t
          → now < t

    accept-IsSound :
        (l : Loop W K) (k : K) (t : ℕ)
        → IsSound l
        → l.phase ≡ draining
        → Asked l.host k t
        → IsSound (accept dec host l k t)
    unfolding accept
    accept-IsSound l k t v phase asked = elim (Bool-cases (ltb l.time t)) [
      | inl later ↦
          let (valid, dues) = insert-Inserts dec l.waiting k t v.valid in
          rw (later, accept)
            (record {
              valid = valid;
              asked = λ j s h. elim (dec j k) [
                | yes e ↦
                    let time = sym (if_pos (dec j k) e _ _) ∙ sym (dues j) ∙ h in
                    elim (earliest_of (due dec l.waiting k) t s (some-injective _ _ time)) [
                      | inl new ↦ rw (e, new) asked
                      | inr old ↦ rw (e) (v.asked k s old)
                    ]
                | no ne ↦ v.asked j s (sym (if_neg (dec j k) ne _ _) ∙ sym (dues j) ∙ h)
              ];
              good = v.good;
              round = λ now e. absurd (cc);
              asleep = λ now e j s h. absurd (cc);
            })
      | inr ready ↦
          rw (ready, accept)
            (record {
              valid = v.valid;
              asked = λ j s h. keeps.hand_asked l.host k l.time j s (v.asked j s h);
              good = keeps.hand_good l.host k t l.time v.good asked (ground arith);
              round = λ now e. absurd (cc);
              asleep = λ now e j s h. absurd (cc);
            })
    ]

    expire_one-IsSound :
        (l : Loop W K) (now n : ℕ)
        → IsSound l
        → l.phase ≡ expiring now
        → l.waiting.queue.size ≡ n
        → is_settled now l.waiting n ≡ false
        → IsSound (expire_one dec host l)
    unfolding expire_one is_settled peek
    expire_one-IsSound l now zero v phase size open_ = absurd (cc)
    expire_one-IsSound l now (suc n) v phase size open_ =
        let ((valid, dues), first, _, _) = take_first-Removes dec l.waiting n v.valid size in
        let k = (take_first dec l.waiting).1 in
        record {
          valid = valid;
          asked = λ j s h. elim (dec j k) [
            | yes e ↦ absurd (cc (sym h ∙ dues j ∙ if_pos (dec j k) e _ _))
            | no ne ↦
                keeps.hand_asked l.host k l.time j s
                  (v.asked j s (sym (if_neg (dec j k) ne _ _) ∙ sym (dues j) ∙ h))
          ];
          good =
              keeps.hand_good l.host k (key l.waiting.queue 0) l.time v.good
                (v.asked k (key l.waiting.queue 0) first) (ground (arith, v.round now phase));
          round = v.round;
          asleep = λ m e j s h. absurd (cc);
        }

    -- A change of the phase to one without a time.
    rephased :
        (l : Loop W K) (p : Phase)
        → IsSound l
        → ((now : ℕ) → ¬ (p ≡ expiring now))
        → ((now : ℕ) → ¬ (p ≡ selecting now))
        → IsSound (record l { phase = p })
    rephased l p v not_expiring not_selecting = record {
      valid = v.valid;
      asked = v.asked;
      good = v.good;
      round = λ now e. absurd (not_expiring now e);
      asleep = λ now e j t h. absurd (not_selecting now e);
    }

    received-IsSound :
        (l : Loop W K) (k : K) (t : ℕ) (rest : List (K × ℕ))
        → IsSound l
        → host.channel l.host ≡ (k, t) ∷ rest
        → IsSound (
            accept dec host
              (record l { host = host.set_channel rest l.host; phase = draining })
              k
              t)
    received-IsSound l k t rest v at =
        let without : Loop W K = record l {
          host = host.set_channel rest l.host;
          phase = draining;
        } in
        accept-IsSound without k t
          (record {
            valid = v.valid;
            asked = λ j s h. keeps.tail_asked l.host rest j s (v.asked j s h);
            good = keeps.tail_good l.host k t rest v.good at;
            round = λ now e. absurd (cc);
            asleep = λ now e j s h. absurd (cc);
          })
          refl (keeps.tail_asked l.host rest k t (keeps.head_asked l.host k t rest v.good at))

    pub Step-IsSound : (l v : Loop W K) → IsSound l → Step dec host Other l v → IsSound v
    Step-IsSound l v s (begins phase up new) = rw (new) (record {
      valid = s.valid;
      asked = s.asked;
      good = s.good;
      round = λ now e. ground arith;
      asleep = λ now e j t h. absurd (cc);
    })
    Step-IsSound l v s (ends phase down new) =
        rw (new) (rephased l returned s (λ n e. cc) (λ n e. cc))
    Step-IsSound l v s (expires now phase open_ new) =
        rw (new) (expire_one-IsSound l now l.waiting.queue.size s phase refl open_)
    Step-IsSound l v s (settles now phase over new) = rw (new) (record {
      valid = s.valid;
      asked = s.asked;
      good = s.good;
      round = λ m e. absurd (cc);
      asleep = λ m e j t h.
          let same : now ≡ m = ground arith in
          subst (λ x. x < t) same
            (is_settled-due dec now l.waiting j t l.waiting.queue.size s.valid refl over h);
    })
    Step-IsSound l v s (wakes now phase new) =
        rw (new) (rephased l starting s (λ n e. cc) (λ n e. cc))
    Step-IsSound l v s (stops now phase down new) =
        rw (new) (rephased l returned s (λ n e. cc) (λ n e. cc))
    Step-IsSound l v s (receives now k t rest phase at new) =
        rw (new) (received-IsSound l k t rest s at)
    Step-IsSound l v s (drained phase empty new) =
        rw (new) (rephased l starting s (λ n e. cc) (λ n e. cc))
    Step-IsSound l v s (passes n new) = rw (new) (record {
      valid = s.valid;
      asked = s.asked;
      good = s.good;
      round = λ now e. omega (arith, s.round now e);
      asleep = s.asleep;
    })
    Step-IsSound l v s (others w other new) = rw (new) (record {
      valid = s.valid;
      asked = λ j t h. keeps.other_asked l.host w l.time j t other (s.asked j t h);
      good = keeps.other_good l.host w l.time other s.good;
      round = s.round;
      asleep = s.asleep;
    })

    -- In every interleaving of a waiting loop with the goroutines around it, if these keep what is
    -- good, so does the loop: it hands over only keys that were asked for, at a time that has come.
    -- Its heap stays valid, and when it sleeps in its `select` no entry was due at the time of the
    -- round.
    pub Reach-IsSound : (l v : Loop W K) → IsSound l → Reach dec host Other l v → IsSound v
    Reach-IsSound l v s here = s
    Reach-IsSound l v s (next {u} r step) = Step-IsSound u v (Reach-IsSound l u s r) step

    pub new_loop-IsSound : (nil : K) (w : W) → Good w → IsSound (new_loop nil w)
    unfolding new_loop
    new_loop-IsSound nil w good = record {
      valid = new_waiting-IsValid dec nil;
      asked =
          λ j t h. absurd (unfold new_waiting heap_init heapify empty_queue due Dict.get in cc h);
      good = good;
      round = λ now e. absurd (cc);
      asleep = λ now e j t h. absurd (cc);
    }
