-- ===== src/Workqueue/Indexer/Late.antt =====
-- The goroutines around the waiting loop of pkg/workqueue/indexer_delaying_queue.go, where none asks for
-- an earlier time.
mod Registering
use kube_trigger.Base.{
  ℕ, ◌≤◌, ◌≡◌, refl, sym, ap, ◌∙◌, subst, arith, Bool, true, false, Option, none, some,
  Option-cases, Bool-cases, inl, inr, List, [], ◌∷◌, ◌++◌, ltb, if◌then◌else◌, if_pos, if_neg, ◌⊎◌,
}
use kube_trigger.Base.Dict
use kube_trigger.Base.Dict.{get-put}
use kube_trigger.Base.Int.{ℤ}
use kube_trigger.Workqueue.Queue.{Metrics}
use kube_trigger.Workqueue.Indexer.{
  Indexer, Entry, Keyed, add_duration, renew, outdated, get, register, dispatch, add_after, done,
  shutdown, set_drain, shut_down, start_drain, Sends, stops, queues,
}
use kube_trigger.Workqueue.Indexer.Stranded.{
  NotSent, IsStranded, push-IsStranded, get-IsStranded, finish-IsStranded,
}
use Registering.{register-IsStranded, dispatch-IsStranded}

NotSent-snoc :
    {K : Type 0} (k j : K) (t : ℕ) (c : List (K × ℕ))
    → ¬ (k ≡ j)
    → NotSent k c
    → NotSent k (c ++ (j, t) ∷ [])
NotSent-snoc k j t [] ne n = (ne, tt)
NotSent-snoc k j t ((i, s) ∷ c) ne n = (n.0, NotSent-snoc k j t c ne n.1)

module _ {M K X : Type 0} (dec : Discrete K) (ops : Metrics M K) (keyed : Keyed K X) where
  add_after-IsStranded :
      (k : K) (b : ℕ) (q : Indexer M K X) (x : X) (delay : ℤ) (start now later : ℕ)
      → (keyed.key_func x ≡ some k → b ≤ add_duration start delay)
      → IsStranded dec k b q
      → IsStranded dec k b (add_after dec ops keyed q x delay (start, now, later)).0
  unfolding add_after
  add_after-IsStranded k b q x delay start now later late s =
      elim (Option-cases (keyed.key_func x)) [
        | inl no_key ↦ rw (no_key, add_after) s
        | inr (j, named) ↦
            rw (named, add_after)
              (dispatch-IsStranded dec ops keyed k j b (add_duration start delay) now later _ (
                register-IsStranded dec ops keyed k j b (add_duration start delay) x q
                  (λ e. late (named ∙ ap some (sym e))) s))
      ]

  done-IsStranded :
      (k : K) (b : ℕ) (q : Indexer M K X) (x : X)
      → IsStranded dec k b q
      → IsStranded dec k b (done dec ops keyed q x)
  unfolding done
  done-IsStranded k b q x s = elim (Option-cases (keyed.key_func x)) [
    | inl no_key ↦ rw (no_key, done) s
    | inr (j, named) ↦ rw (named, done) (finish-IsStranded dec ops k j b q s)
  ]

  -- The goroutines around the loop, where no call of `AddAfter` for the key asks for an earlier time
  -- than `b`, and none is waiting to send one: they add, send, get, finish or shut down.
  pub data Late (k : K) (b now : ℕ) (q r : Indexer M K X) : Type 0 where
    adds :
        (x : X) (delay : ℤ) (start second later : ℕ)
        → (keyed.key_func x ≡ some k → b ≤ add_duration start delay)
        → r ≡ (add_after dec ops keyed q x delay (start, second, later)).0
        → Late k b now q r
    sends : (j : K) (t : ℕ) → ¬ (k ≡ j) → Sends q j t r → Late k b now q r
    gets : r ≡ (get dec q).0 → Late k b now q r
    dones : (x : X) → r ≡ done dec ops keyed q x → Late k b now q r
    shuts_down : r ≡ shut_down q → Late k b now q r
    drains : r ≡ start_drain q → Late k b now q r

  stop-IsStranded :
      (k : K) (b : ℕ) (q : Indexer M K X) (down drain stopped : Bool)
      → IsStranded dec k b q
      → IsStranded dec k b (record q { shutting_down = down; drain = drain; stopped = stopped })
  stop-IsStranded k b q down drain stopped s = record {
    registered = s.registered;
    not_dirty = s.not_dirty;
    not_queued = s.not_queued;
    not_sent = s.not_sent;
  }

  shut_down_lem :
      (q : Indexer M K X)
      → (shut_down q ≡ q)
        ⊎ (shut_down q ≡ record q { shutting_down = true; drain = q.drain; stopped = true })
  unfolding shut_down shutdown
  shut_down_lem q = ground arith

  start_drain_lem :
      (q : Indexer M K X)
      → (start_drain q ≡ q)
        ⊎ (start_drain q ≡ record q { shutting_down = true; drain = true; stopped = true })
  unfolding start_drain shutdown set_drain
  start_drain_lem q = ground arith

  Sends-IsStranded :
      (k j : K) (b t : ℕ) (q r : Indexer M K X)
      → ¬ (k ≡ j)
      → Sends q j t r
      → IsStranded dec k b q
      → IsStranded dec k b r
  Sends-IsStranded k j b t q r ne (stops closed same) s = rw (same) s
  Sends-IsStranded k j b t q r ne (queues room new) s = rw (new) (record {
    registered = s.registered;
    not_dirty = s.not_dirty;
    not_queued = s.not_queued;
    not_sent = NotSent-snoc k j t q.waiting_for_add ne s.not_sent;
  })

  pub Late-IsStranded :
      (k : K) (b now : ℕ) (q r : Indexer M K X)
      → Late k b now q r
      → IsStranded dec k b q
      → IsStranded dec k b r
  Late-IsStranded k b now q r (adds x delay start second later late new) s =
      rw (new) (add_after-IsStranded k b q x delay start second later late s)
  Late-IsStranded k b now q r (sends j t ne sent) s = Sends-IsStranded k j b t q r ne sent s
  Late-IsStranded k b now q r (gets new) s = rw (new) (get-IsStranded dec ops k b q s)
  Late-IsStranded k b now q r (dones x new) s = rw (new) (done-IsStranded k b q x s)
  Late-IsStranded k b now q r (shuts_down new) s = rw (new) (elim (shut_down_lem q) [
    | inl same ↦ subst (IsStranded dec k b) (sym same) s
    | inr is ↦ subst (IsStranded dec k b) (sym is) (stop-IsStranded k b q true q.drain true s)
  ])
  Late-IsStranded k b now q r (drains new) s = rw (new) (elim (start_drain_lem q) [
    | inl same ↦ subst (IsStranded dec k b) (sym same) s
    | inr is ↦ subst (IsStranded dec k b) (sym is) (stop-IsStranded k b q true true true s)
  ])
