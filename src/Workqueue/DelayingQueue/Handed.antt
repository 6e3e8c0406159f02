-- ===== src/Workqueue/DelayingQueue/Handed.antt =====
-- That pkg/workqueue/delaying_queue.go can always hand out what was given to it for later.
mod Tests
use kube_trigger.Base.{
  In, ℕ, ◌≤◌, ◌<◌, ◌≡◌, ◌≢◌, refl, sym, ap, ◌∙◌, subst, arith, Bool, false, inl, inr, ◌⊎◌, some,
  List, [], ◌∷◌,
}
use kube_trigger.Workqueue.PriorityQueue.Due.{due}
use kube_trigger.Workqueue.WaitingLoop.{Host, Loop, new_loop, Reach, returned, selecting}
use kube_trigger.Workqueue.WaitingLoop.Progress.{Obeys, Alone, Done, Reach-Alone, can_finish}
use kube_trigger.Workqueue.WaitingLoop.Progress
use kube_trigger.Workqueue.DelayingQueue.{Inner, DelayingQueue, loop_host}
use kube_trigger.Workqueue.DelayingQueue.Kept.{
  Event, Logged, Waits, logged_host, Other, new_logged, Held, Sound, Kept, Reach-Kept, reached,
}

module _ {I K : Type 0} (ops : Inner I K) (dec : Discrete K) where
  -- The loop hands items to the inner queue only.
  logged_host-Obeys :
      ((i : I) (x : K) → ops.shutting_down (ops.add i x) ≡ ops.shutting_down i)
      → Obeys (logged_host ops)
  unfolding logged_host loop_host
  logged_host-Obeys keeps_down = record {
    hand_channel = λ w k now. refl;
    hand_down = λ w k now. keeps_down w.queue.inner k;
    set_channel = λ c w. refl;
    set_down = λ c w. refl;
  }

  alone : (l : Loop (Logged I K) K) → Sound ops dec l → Progress.Sound dec (logged_host ops) l
  alone l s = record {
    valid = s.valid;
    asked = λ j t h. tt;
    good = tt;
    round = s.round;
    asleep = s.asleep;
  }

  -- Nothing waits for a time that has passed when the loop sleeps with an empty channel.
  none-Waits :
      (b : ℕ) (l : Loop (Logged I K) K)
      → Sound ops dec l
      → Kept ops dec l
      → Done dec (logged_host ops) b l
      → (k : K) (t : ℕ) → t ≤ b
      → ¬ Waits k t l.host.log
  unfolding logged_host loop_host
  none-Waits b l sound kept done k t le waits = elim (kept k t waits) [
    | inl there ↦ subst (In (k, t)) done.empty there
    | inr (s, at, before) ↦
        absurd (omega (arith, sound.asleep done.now done.phase k s at, done.late))
  ]

  -- In every interleaving from a new queue, as long as the waiting loop has not returned and the inner
  -- queue is not shut down, the loop can go on, by itself, so that no item waits any more that was sent
  -- to it for a given time or an earlier one: it has handed them all to the inner queue. Adding to the
  -- inner queue must not shut it down.
  pub all_handed :
      (nil : K) (unnamed : Bool) (i : I) (l : Loop (Logged I K) K) (b : ℕ)
      → ((i : I) (x : K) → ops.shutting_down (ops.add i x) ≡ ops.shutting_down i)
      → Reach dec (logged_host ops) (Other ops) (new_loop nil (new_logged ops unnamed i)) l
      → l.phase ≢ returned
      → ops.shutting_down l.host.queue.inner ≡ false
      → (v : Loop (Logged I K) K) × Reach dec (logged_host ops) Alone l v
        × ((k : K) (t : ℕ) → t ≤ b → ¬ Waits k t v.host.log)
  unfolding logged_host loop_host
  all_handed nil unnamed i l b keeps_down reach going up =
      let (sound, kept) = reached ops dec nil unnamed i l reach in
      let (v, run, done) =
        can_finish dec (logged_host ops) (logged_host-Obeys keeps_down) b l (alone l sound) going
          up in
      let (later, held) =
        Reach-Kept ops dec l v (Reach-Alone dec (logged_host ops) (Other ops) l v run) sound kept in
      (v, run, none-Waits b v later held done)
