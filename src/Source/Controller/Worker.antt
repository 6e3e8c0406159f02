-- ===== src/Source/Controller/Worker.antt =====
-- What the worker of pkg/source/builtin/k8sresourcewatcher/controller/controller.go does with the events
-- of its queue, turn by turn.
use text.Mathlib.Text.{◌==◌}
use Prim.Native.String.{String}
use kube_trigger.Base.{
  has_self, ℕ, ◌≡◌, refl, ap, ◌∙◌, Bool, true, false, not, ◌&&◌, ◌||◌, none, some, Option-cases,
  inl, inr, List, [], ◌∷◌, arith, ltb, if◌then◌else◌, length, has, ◌==◌ as nat_eq,
}
use kube_trigger.Base.Text.{String-discrete}
use kube_trigger.Workqueue.Items.{insert, has-insert}
use kube_trigger.Source.Watcher.{Config}
use kube_trigger.Source.Controller.{
  InformerEvent, Objects, RateLimiting, Controller, call_event_handler, process_next_item,
  run_worker, listened, setup,
}
use kube_trigger.Source.Controller.Delivery.{wanted, process_next_item-wanted}

has-listened :
    (acc es : List String) (k : String)
    → has String-discrete k (listened acc es)
      ≡ (has String-discrete k acc || has String-discrete k es)
unfolding listened has
has-listened acc [] k = ground arith
has-listened acc (e ∷ es) k =
    ground
      (arith, has-listened (insert String-discrete e acc) es k, has-insert String-discrete k e acc)

-- What a configuration asks for.
unfoldable pub asked : {O : Type 0} → Objects O → Config → ℕ → InformerEvent O → Bool
asked objects conf started e =
    (nat_eq (length conf.events) 0 || has String-discrete e.kind conf.events)
    && (not (e.kind == "create") || ltb started (objects.created_at e.object))

not_empty :
    (k : String) (xs : List String) → has String-discrete k xs ≡ true → nat_eq (length xs) 0 ≡ false
unfolding has
not_empty k [] h = absurd (cc)
not_empty k (x ∷ xs) h = ground arith

length-listened : (es : List String) → nat_eq (length (listened [] es)) 0 ≡ nat_eq (length es) 0
unfolding listened has
length-listened [] = refl
length-listened (e ∷ es) =
    not_empty e (listened [] (e ∷ es)) (has-listened [] (e ∷ es) e ∙ has_self String-discrete e es)
    ∙ ground arith

-- The events that a queue hands out when each is forgotten and done with before the next, each with
-- the start time that is read for it.
unfoldable pub taken :
    {Q O : Type 0} → RateLimiting Q (InformerEvent O) → List ℕ → Q → List (ℕ × InformerEvent O)
taken ops [] q = []
taken ops (t ∷ ts) q = elim (ops.get q).1 [
  | none ↦ []
  | some e ↦ (t, e) ∷ taken ops ts (ops.done (ops.forget (ops.get q).0 e) e)
]

module _ {W O : Type 0} where
  -- What becomes of the world when the events that are asked for go to all handlers, in turn.
  unfoldable pub delivered :
      (ℕ → InformerEvent O → Bool) → Controller W O → List (ℕ × InformerEvent O) → W → W
  delivered p c [] w = w
  delivered p c ((t, e) ∷ es) w = delivered p c es (if p t e then call_event_handler c e w else w)

module _ {W O : Type 0} (objects : Objects O) where
  setup-asked :
      (conf : Config) (eh : List (String → InformerEvent O → W → W × Bool)) (started : ℕ)
      (e : InformerEvent O)
      → wanted objects started (setup conf eh) e ≡ asked objects conf started e
  unfolding wanted setup has asked
  setup-asked conf eh started e =
      let fresh = not (e.kind == "create") || ltb started (objects.created_at e.object) in
      ap (λ b. (b || has String-discrete e.kind (listened [] conf.events)) && fresh)
        (length-listened conf.events)
      ∙ ap (λ b. (nat_eq (length conf.events) 0 || b) && fresh) (has-listened [] conf.events e.kind)

  module _ {Q : Type 0} (ops : RateLimiting Q (InformerEvent O)) where
    run_worker-taken :
        (c : Controller W O) (ts : List ℕ) (q : Q) (w : W)
        → (run_worker ops objects c ts q w).1
          ≡ delivered (λ t e. wanted objects t c e) c (taken ops ts q) w
    unfolding run_worker taken delivered process_next_item
    run_worker-taken c [] q w = refl
    run_worker-taken c (t ∷ ts) q w = elim (Option-cases (ops.get q).1) [
      | inl closed ↦
          let step : process_next_item ops objects t c q w ≡ ((ops.get q).0, w, false) =
            rw (closed, process_next_item) refl in
          rw (step, run_worker, closed, taken) refl
      | inr (e, got) ↦
          let step = process_next_item-wanted objects t c ops q w e got in
          rw (step, run_worker, got, taken)
            (run_worker-taken c ts (ops.done (ops.forget (ops.get q).0 e) e)
              (if wanted objects t c e then call_event_handler c e w else w))
    ]

    delivered_same :
        (p r : ℕ → InformerEvent O → Bool) (c : Controller W O) (es : List (ℕ × InformerEvent O))
        (w : W)
        → ((t : ℕ) (e : InformerEvent O) → p t e ≡ r t e)
        → delivered p c es w ≡ delivered r c es w
    unfolding delivered
    delivered_same p r c [] w same = refl
    delivered_same p r c ((t, e) ∷ es) w same =
        delivered_same p r c es (if p t e then call_event_handler c e w else w) same
        ∙ ap (λ b. delivered r c es (if b then call_event_handler c e w else w)) (same t e)

    -- The worker of a controller that was set up for a configuration hands exactly the events that the
    -- configuration asks for to all handlers, in the order in which the queue hands them out: those of
    -- the types that it names, or of all types if it names none, but no creation that is not after the start time of its turn.
    pub run_worker-asked :
        (conf : Config) (eh : List (String → InformerEvent O → W → W × Bool)) (ts : List ℕ) (q : Q)
        (w : W)
        → (run_worker ops objects (setup conf eh) ts q w).1
          ≡ delivered (asked objects conf) (setup conf eh) (taken ops ts q) w
    run_worker-asked conf eh ts q w =
        run_worker-taken (setup conf eh) ts q w
        ∙ delivered_same (λ t e. wanted objects t (setup conf eh) e) (asked objects conf)
            (setup conf eh) (taken ops ts q) w (setup-asked conf eh)
