-- ===== src/Source/Controller/Delivery.antt =====
-- Which events pkg/source/builtin/k8sresourcewatcher/controller/controller.go hands to its handlers.
use text.Mathlib.Text.{◌==◌}
use kube_trigger.Base.{
  ℕ, ◌≡◌, Bool, true, false, not, ◌&&◌, ◌||◌, some, arith, ltb, if◌then◌else◌, length, has,
  ◌==◌ as nat_eq,
}
use kube_trigger.Base.Text.{String-discrete}
use kube_trigger.Source.Controller.{
  InformerEvent, Objects, RateLimiting, Controller, call_event_handler, process_item, settle,
  process_next_item,
}

-- What a user may ask for: the types of events, none meaning all, and of the created objects those
-- that are younger than the start time.
unfoldable pub wanted : {W O : Type 0} → Objects O → ℕ → Controller W O → InformerEvent O → Bool
wanted objects start_time c e =
    (nat_eq (length c.listen_events) 0 || has String-discrete e.kind c.listen_events)
    && (not (e.kind == "create") || ltb start_time (objects.created_at e.object))

module _ {W O : Type 0} (objects : Objects O) (start_time : ℕ) (c : Controller W O) where
  process_item-wanted :
      (e : InformerEvent O) (w : W)
      → process_item objects start_time c e w
        ≡ (if wanted objects start_time c e then (call_event_handler c e w, false) else (w, false))
  unfolding process_item wanted
  process_item-wanted e w = ground arith

  process_item-ok :
      (e : InformerEvent O) (w : W) → (process_item objects start_time c e w).1 ≡ false
  unfolding process_item
  process_item-ok e w = ground arith

  module _ {Q : Type 0} (ops : RateLimiting Q (InformerEvent O)) where
    -- A worker hands the event that it takes from the queue to all handlers if its type is asked for
    -- and it is no creation from before the start, and to none otherwise. Whatever the handlers
    -- return, it then forgets the event and is done with it: no event is ever retried.
    pub process_next_item-wanted :
        (q : Q) (w : W) (e : InformerEvent O)
        → (ops.get q).1 ≡ some e
        → process_next_item ops objects start_time c q w ≡ (
          ops.done (ops.forget (ops.get q).0 e) e,
          (if wanted objects start_time c e then call_event_handler c e w else w),
          true,
        )
    unfolding process_next_item settle
    process_next_item-wanted q w e got =
        rw (got, process_next_item, process_item-wanted e w) (ground arith)
