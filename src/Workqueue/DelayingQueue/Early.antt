-- ===== src/Workqueue/DelayingQueue/Early.antt =====
-- When pkg/workqueue/delaying_queue.go hands items on: the queue with a record of what was asked of it
-- and of what its waiting loop added to the inner queue.
use kube_trigger.Base.{
  ◌+◌, arith, In, ℕ, ◌≤◌, ◌≡◌, ◌⊎◌, inl, inr, refl, sym, ap, ◌∙◌, subst, Bool, List, [], ◌∷◌, ◌++◌,
}
use kube_trigger.Base.Int.{ℤ, pos, negsuc}
use kube_trigger.Workqueue.Indexer.{nothing, send}
use kube_trigger.Workqueue.WaitingLoop.{Host, Loop, new_loop, Reach}
use kube_trigger.Workqueue.WaitingLoop.Keeps.{Keeps}
use kube_trigger.Workqueue.WaitingLoop.Invariant.{Reach-IsSound, new_loop-IsSound}
use kube_trigger.Workqueue.DelayingQueue.{
  Inner, DelayingQueue, new_delaying_queue, add_after, shut_down, Sends, stops, queues, loop_host,
}
use kube_trigger.Workqueue.DelayingQueue.Channel.{add_after-channel, shut_down-channel}

-- A call of `AddAfter` that went on to its `select`, with the time at which it read the clock.
pub record Request (K : Type 0) : Type 0 where
  pub payload : K
  pub asked_at : ℕ
  pub delay : ℤ

-- The time that has come when the delay of a request has passed; only positive delays come here.
abbrev pub ready_of : {K : Type 0} → Request K → ℕ
ready_of r = elim r.delay [ pos d ↦ r.asked_at + d | negsuc d ↦ r.asked_at ]

-- `pending` are the entries that `AddAfter` has made and its callers are about to send, with the times
-- that it computed; `handed` are the items that the waiting loop added to the inner queue, with the time.
pub record Traced (I K : Type 0) : Type 0 where
  pub queue : DelayingQueue I K
  pub requests : List (Request K)
  pub pending : List (K × ℕ)
  pub handed : List (K × ℕ)

In-snoc : {A : Type 0} (x y : A) (ys : List A) → In x (ys ++ y ∷ []) → In x ys ⊎ (x ≡ y)
In-snoc x y [] (inl e) = inr e
In-snoc x y [] (inr p) = elim p [ ]
In-snoc x y (z ∷ zs) (inl e) = inl (inl e)
In-snoc x y (z ∷ zs) (inr p) = elim (In-snoc x y zs p) [ inl q ↦ inl (inr q) | inr e ↦ inr e ]

module _ {I K : Type 0} (ops : Inner I K) where
  unfoldable pub traced_host : Host (Traced I K) K
  unfolding loop_host
  traced_host =
      let inner = loop_host ops in
      record {
        is_down = λ h. inner.is_down h.queue;
        is_stopped = λ h. inner.is_stopped h.queue;
        channel = λ h. inner.channel h.queue;
        set_channel = λ c h. record h { queue = inner.set_channel c h.queue };
        hand =
            λ h x now. record h { queue = inner.hand h.queue x now; handed = (x, now) ∷ h.handed };
      }

  -- The goroutines around the loop: those that call `AddAfter`, which may wait in its `select`, and
  -- `ShutDown`, and those that use the inner queue.
  pub data Other (now : ℕ) (h g : Traced I K) : Type 0 where
    asks :
        (x : K) (d : ℤ) (t : ℕ)
        → (add_after ops h.queue x d now).1 ≡ send x t
        → g ≡ record h {
          queue = (add_after ops h.queue x d now).0;
          requests = record { payload = x; asked_at = now; delay = d } ∷ h.requests;
          pending = (x, t) ∷ h.pending;
        }
        → Other now h g
    adds_now :
        (x : K) (d : ℤ)
        → (add_after ops h.queue x d now).1 ≡ nothing
        → g ≡ record h { queue = (add_after ops h.queue x d now).0 }
        → Other now h g
    sends :
        (x : K) (t : ℕ) (q : DelayingQueue I K)
        → In (x, t) h.pending
        → Sends ops h.queue x t q
        → g ≡ record h { queue = q }
        → Other now h g
    shuts_down : g ≡ record h { queue = shut_down ops h.queue } → Other now h g
    uses_inner : (i : I) → g ≡ record h { queue = record h.queue { inner = i } } → Other now h g

  unfoldable pub new_traced : Bool → I → Traced I K
  new_traced unnamed i = record {
    queue = new_delaying_queue unnamed i;
    requests = [];
    pending = [];
    handed = [];
  }

  abbrev pub Asked : Traced I K → K → ℕ → Type 0
  Asked h k t = (r : Request K) × In r h.requests × (r.payload ≡ k) × (ready_of r ≡ t)

  record IsGood (h : Traced I K) : Type 0 where
    made : (k : K) (t : ℕ) → In (k, t) h.pending → Asked h k t
    coming : (k : K) (t : ℕ) → In (k, t) h.queue.waiting_for_add → Asked h k t
    done : (k : K) (now : ℕ) → In (k, now) h.handed → (t : ℕ) × Asked h k t × (t ≤ now)

  -- What is on its way, is handed on and was requested may be kept or grow by requests.
  grows :
      (h g : Traced I K)
      → IsGood h
      → ((k : K) (t : ℕ) → In (k, t) g.queue.waiting_for_add → In (k, t) h.queue.waiting_for_add)
      → g.handed ≡ h.handed
      → g.pending ≡ h.pending
      → ((r : Request K) → In r h.requests → In r g.requests)
      → IsGood g
  grows h g v channel handed pending more = record {
    made = λ k t p.
        let (r, there, named, at) = v.made k t (subst (In (k, t)) pending p) in
        (r, more r there, named, at);
    coming = λ k t p.
        let (r, there, named, at) = v.coming k t (channel k t p) in (r, more r there, named, at);
    done = λ k now p.
        let (t, (r, there, named, at), le) = v.done k now (subst (In (k, now)) handed p) in
        (t, (r, more r there, named, at), le);
  }

  sends-IsGood :
      (h : Traced I K) (x : K) (t : ℕ) (q : DelayingQueue I K)
      → IsGood h
      → In (x, t) h.pending
      → Sends ops h.queue x t q
      → IsGood (record h { queue = q })
  sends-IsGood h x t q v there (stops down same) =
      rw (same) (record { made = v.made; coming = v.coming; done = v.done })
  sends-IsGood h x t q v there (queues room same) = rw (same) (record {
    made = v.made;
    coming = λ k s p. elim (In-snoc (k, s) (x, t) h.queue.waiting_for_add p) [
      | inl old ↦ v.coming k s old
      | inr e ↦ v.made k s (subst (λ y. In y h.pending) (sym e) there)
    ];
    done = v.done;
  })

  -- What `AddAfter` computes is the time at which the delay has passed.
  add_after-ready :
      (q : DelayingQueue I K) (x : K) (d : ℤ) (now t : ℕ)
      → (add_after ops q x d now).1 ≡ send x t
      → ready_of (record { payload = x; asked_at = now; delay = d }) ≡ t
  unfolding add_after
  add_after-ready q x (pos d) now t h = ground arith
  add_after-ready q x (negsuc d) now t h = absurd (ground arith)

  asks-IsGood :
      (h : Traced I K) (x : K) (d : ℤ) (t now : ℕ)
      → (add_after ops h.queue x d now).1 ≡ send x t
      → IsGood h
      → IsGood (record h {
        queue = (add_after ops h.queue x d now).0;
        requests = record { payload = x; asked_at = now; delay = d } ∷ h.requests;
        pending = (x, t) ∷ h.pending;
      })
  asks-IsGood h x d t now pending v = record {
    made = λ k s p. elim p [
      | inl e ↦ (
        record { payload = x; asked_at = now; delay = d },
        inl refl,
        sym (ap (λ y. y.0) e),
        add_after-ready h.queue x d now t pending ∙ sym (ap (λ y. y.1) e),
      )
      | inr old ↦ let (r, there, named, at) = v.made k s old in (r, inr there, named, at)
    ];
    coming = λ k s p.
        let (r, there, named, at) =
          v.coming k s (subst (In (k, s)) (add_after-channel ops h.queue x d now) p) in
        (r, inr there, named, at);
    done = λ k m p.
        let (s, (r, there, named, at), le) = v.done k m p in (s, (r, inr there, named, at), le);
  }

  other-IsGood : (h g : Traced I K) (now : ℕ) → Other now h g → IsGood h → IsGood g
  other-IsGood h g now (asks x d t pending new) v = rw (new) (asks-IsGood h x d t now pending v)
  other-IsGood h g now (adds_now x d pending new) v = rw (new) (
      grows h _ v (λ k s p. subst (In (k, s)) (add_after-channel ops h.queue x d now) p) refl refl
        (λ r p. p))
  other-IsGood h g now (sends x t q there sent new) v = rw (new) (sends-IsGood h x t q v there sent)
  other-IsGood h g now (shuts_down new) v = rw (new) (
      grows h _ v (λ k s p. subst (In (k, s)) (shut_down-channel ops h.queue) p) refl refl
        (λ r p. p))
  other-IsGood h g now (uses_inner i new) v =
      rw (new) (record { made = v.made; coming = v.coming; done = v.done })

  other-requests :
      (h g : Traced I K) (now : ℕ) (r : Request K)
      → Other now h g
      → In r h.requests
      → In r g.requests
  other-requests h g now r (asks x d t pending new) p = rw (new) (inr p)
  other-requests h g now r (adds_now x d pending new) p = rw (new) p
  other-requests h g now r (sends x t q there sent new) p = rw (new) p
  other-requests h g now r (shuts_down new) p = rw (new) p
  other-requests h g now r (uses_inner i new) p = rw (new) p

  keeps : Keeps traced_host Other IsGood Asked
  unfolding traced_host loop_host
  keeps = record {
    head_asked = λ h k t rest v at. v.coming k t (rw (at) (inl refl));
    tail_good = λ h k t rest v at. record {
      made = v.made;
      coming = λ j s p. v.coming j s (rw (at) (inr p));
      done = v.done;
    };
    tail_asked = λ h rest j s asked. asked;
    hand_good = λ h k t now v asked le. record {
      made = v.made;
      coming = v.coming;
      done = λ j m p. elim p [
        | inl e ↦ (
          t,
          (asked.0, asked.1, asked.2 ∙ sym (ap (λ x. x.0) e), asked.3),
          subst (λ x. t ≤ x) (sym (ap (λ x. x.1) e)) le,
        )
        | inr old ↦ v.done j m old
      ];
    };
    hand_asked = λ h k now j s asked. asked;
    other_good = λ h g now other v. other-IsGood h g now other v;
    other_asked = λ h g now j s other asked.
        (asked.0, other-requests h g now asked.0 other asked.1, asked.2, asked.3);
  }

  -- In every interleaving of the waiting loop with goroutines that call `AddAfter` and `ShutDown` or
  -- use the inner queue, every item that the loop hands to the inner queue was asked for, and its
  -- delay has passed since that call.
  pub never_early :
      (dec : Discrete K) (nil : K) (unnamed : Bool) (i : I) (l : Loop (Traced I K) K) (k : K)
      (now : ℕ)
      → Reach dec traced_host Other (new_loop nil (new_traced unnamed i)) l
      → In (k, now) l.host.handed
      → (r : Request K) × In r l.host.requests × (r.payload ≡ k) × (ready_of r ≤ now)
  unfolding new_traced new_delaying_queue new_loop
  never_early dec nil unnamed i l k now reach p =
      let start =
        new_loop-IsSound dec traced_host Other IsGood Asked keeps nil (new_traced unnamed i)
          (record {
            made = λ j t h. elim h [ ];
            coming = λ j t h. elim h [ ];
            done = λ j m h. elim h [ ];
          }) in
      let sound = Reach-IsSound dec traced_host Other IsGood Asked keeps _ l start reach in
      let (t, (r, there, named, at), le) = sound.good.done k now p in (r, there, named, rw (at) le)
