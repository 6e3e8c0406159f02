-- ===== src/EventHandler/Laws.antt =====
-- How handlers of pkg/eventhandler/event_handler.go combine, and when one adds a job.
use kube_trigger.Base.{
  ◌≡◌, ◌↔◌, sym, ◌∙◌, refl, Bool, true, ◌⊎◌, inl, inr, Option, none, some, arith, Bool-cases,
}
use kube_trigger.Base.Int.{pos, ltb_ℤ}
use kube_trigger.Executor.{Executor, JobQueue, add_job}
use kube_trigger.Action.{Job, Created, created, failed}
use kube_trigger.Filter.{FilterError}
use kube_trigger.EventHandler.{
  Handler, new, chain, add_handler_before, add_handler_after, HandlerError, filtered_out,
  bad_action, queue_full, run_action, new_from_config,
}

module _ {W E : Type 0} where
  chain_assoc :
      (r : W × Option E) (f g : W → W × Option E)
      → chain (chain r f) g ≡ chain r (λ w. chain (f w) g)
  unfolding chain
  chain_assoc (w, none) f g = refl
  chain_assoc (w, some e) f g = refl

  chain-none : (r : W × Option E) → chain r (λ w. (w, none)) ≡ r
  unfolding chain
  chain-none (w, none) = refl
  chain-none (w, some e) = refl

module _ {W A E : Type 0} where
  -- Handlers form a monoid: adding one after another is adding the other before the one, the handler
  -- that does nothing is neutral on both sides, and longer chains do not depend on how they are built.
  pub handler_monoid :
      (f g h : Handler W A E) (a : A) (w : W)
      → (add_handler_after f g a w ≡ add_handler_before g f a w)
        × (add_handler_after f new a w ≡ f a w)
        × (add_handler_before f new a w ≡ f a w)
        × (add_handler_after (add_handler_after f g) h a w
            ≡ add_handler_after f (add_handler_after g h) a w)
  unfolding add_handler_after add_handler_before new chain
  handler_monoid f g h a w = (refl, chain-none (f a w), refl, chain_assoc (f a w) (g a) (h a))

module _ {Q P C I : Type 0} (ops : JobQueue Q (Job P C)) where
  run_action_lem :
      (r : Created (Job P C)) (x : Executor Q I)
      → (((run_action ops r x).1 ≡ none)
          × ((j : Job P C) × (r ≡ created j)
              × ((add_job ops x j).1 ≡ true)
              × ((run_action ops r x).0 ≡ (add_job ops x j).0)))
        ⊎ ((e : HandlerError) × ((run_action ops r x).1 ≡ some e) × ((run_action ops r x).0 ≡ x))
  unfolding run_action add_job
  run_action_lem (failed e) x = inr (bad_action e, refl, refl)
  run_action_lem (created j) x =
      elim (Bool-cases (ltb_ℤ (pos (ops.len x.queue)) x.max_queue_size)) [
        | inl room ↦ inl (ground arith, (j, refl, ground arith, refl))
        | inr full ↦ inr (queue_full, ground arith, ground arith)
      ]

  -- The filter keeps the event, and its action yields a job that the executor takes.
  abbrev pub Adds :
      (C → Bool × Option FilterError) → (C → Created (Job P C)) → C → Executor Q I → Type 0
  Adds filter action c x =
      ((filter c).0 ≡ true)
      × ((j : Job P C) × (action c ≡ created j) × ((add_job ops x j).1 ≡ true))

  run_action-none :
      (r : Created (Job P C)) (x : Executor Q I)
      → (j : Job P C) × (r ≡ created j) × ((add_job ops x j).1 ≡ true)
      → (run_action ops r x).1 ≡ none
  unfolding run_action
  run_action-none (failed e) x h = absurd (cc)
  run_action-none (created k) x (j, same, room) = let e : k ≡ j = cc in rw (e, room) refl

  -- The handler of a trigger returns no error exactly when the filter keeps the event, its action
  -- yields a job and the executor takes it; it has then added that job, and otherwise it leaves the
  -- executor as it was.
  pub new_from_config_lem :
      (filter : C → Bool × Option FilterError) (action : C → Created (Job P C)) (c : C)
      (x : Executor Q I)
      → (((new_from_config ops filter action c x).1 ≡ none) ↔ Adds filter action c x)
        × ((((new_from_config ops filter action c x).1 ≡ none)
              × ((j : Job P C) × (action c ≡ created j)
                  × ((new_from_config ops filter action c x).0 ≡ (add_job ops x j).0)))
            ⊎ ((e : HandlerError) × ((new_from_config ops filter action c x).1 ≡ some e)
                × ((new_from_config ops filter action c x).0 ≡ x)))
  unfolding new_from_config
  new_from_config_lem filter action c x = elim (Bool-cases (filter c).0) [
    | inl kept ↦
        rw (kept, new_from_config)
          (elim (run_action_lem (action c) x) [
            | inl (ok, (j, made, taken, state)) ↦
                (((λ h. (refl, (j, made, taken))), (λ a. ok)), inl (ok, (j, made, state)))
            | inr (e, fails, state) ↦ (
              ((λ h. absurd (cc (sym h ∙ fails))), (λ a. run_action-none (action c) x a.1)),
              inr (e, fails, state),
            )
          ])
    | inr dropped ↦
        rw (dropped, new_from_config)
          (((λ h. absurd (cc)), (λ a. absurd (cc))), inr (filtered_out, refl, refl))
  ]
