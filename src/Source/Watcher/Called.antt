-- ===== src/Source/Watcher/Called.antt =====
-- Which handlers a resource watcher of pkg/source/builtin/k8sresourcewatcher calls for a key.
use Prim.Native.String.{String}
use mathlib.Core.List.{append-nil}
use kube_trigger.Base.{
  ◌≡◌, refl, sym, ap, ◌∙◌, ◌⊎◌, Option, some, List, [], ◌∷◌, ◌++◌, Option-cases, inl, inr, ite,
  if_pos, if_neg,
}
use kube_trigger.Base.Dict
use kube_trigger.Base.Dict.{get-put, get-put_self}
use kube_trigger.Base.Text.{String-discrete}
use kube_trigger.Source.Watcher.{
  Watcher, Config, Labels, InitResult, ok, bad_properties, panics, key, merge, merge_into,
  add_handler, handlers_of, new_watcher,
}
use kube_trigger.Source.Watcher

module _ {H : Type 0} where
  -- The handlers that a watcher calls for the events of a key.
  abbrev pub called : Watcher H → String → List H
  called w k = handlers_of (Dict.get String-discrete k w.event_handlers)

  abbrev pub only_if : {A : Type 0} → Dec A → H → List H
  only_if d eh = ite d (eh ∷ []) []

  called-add_handler :
      (marshal : Labels → Option String) (w : Watcher H) (j k : String) (c : Config) (eh : H)
      → called (add_handler marshal w j c eh) k ≡ called w k ++ only_if (String-discrete k j) eh
  unfolding add_handler
  called-add_handler marshal w j k c eh = elim (String-discrete k j) [
    | yes e ↦
        ap handlers_of
          (get-put String-discrete k j _ w.event_handlers ∙ if_pos (String-discrete k j) e _ _)
        ∙ ap (λ x. called w x ++ eh ∷ []) (sym e)
        ∙ ap (λ hs. called w k ++ hs) (sym (if_pos (String-discrete k j) e _ _))
    | no n ↦
        ap handlers_of
          (get-put String-discrete k j _ w.event_handlers ∙ if_neg (String-discrete k j) n _ _)
        ∙ sym (append-nil (called w k))
        ∙ ap (λ hs. called w k ++ hs) (sym (if_neg (String-discrete k j) n _ _))
  ]

  -- A configuration that was read adds its handler, unless the labels cannot be merged.
  pub init_lem :
      (marshal : Labels → Option String) (w : Watcher H) (c : Config) (eh : H)
      → (Watcher.init marshal w (some c) eh ≡ panics)
        ⊎ ((v : Watcher H) × (Watcher.init marshal w (some c) eh ≡ ok v)
            × ((k : String)
                → called v k ≡ called w k ++ only_if (String-discrete k (key marshal c)) eh))
  unfolding Watcher.init merge_into
  init_lem marshal w c eh =
      let added =
        λ (m : Config) (k : String). called-add_handler marshal w (key marshal c) k m eh in
      elim (Option-cases (Dict.get String-discrete (key marshal c) w.configs)) [
        | inl new ↦
            inr (add_handler marshal w (key marshal c) c eh, rw (new, merge_into) refl, added c)
        | inr (orig, known) ↦ elim (Option-cases (merge orig c)) [
          | inl broken ↦ inl (rw (known, merge_into, broken) refl)
          | inr (m, merged) ↦ inr (
            add_handler marshal w (key marshal c) m eh,
            rw (known, merge_into, merged) refl,
            added m,
          )
        ]
      ]
