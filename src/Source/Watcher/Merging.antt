-- ===== src/Source/Watcher/Merging.antt =====
-- What becomes of configurations that share a key, in pkg/source/builtin/k8sresourcewatcher.
use Prim.Native.String.{String}
use kube_trigger.Base.{
  ◌≡◌, ◌≢◌, ◌⊎◌, refl, ◌∙◌, Bool, ◌||◌, Option, none, some, List, [], ◌∷◌, ◌++◌, arith,
  if◌then◌else◌, has, has-snoc, IsDistinct, snoc-IsDistinct, Option-cases, inl, inr,
}
use kube_trigger.Base.Dict
use kube_trigger.Base.Dict.{get-put, get-put_self}
use kube_trigger.Base.Text.{String-discrete}
use kube_trigger.Source.Watcher.{
  Config, Labels, Watcher, ok, key, merge_events, merge_labels, or_no_labels, merge, add_handler,
  merge_into, init, handlers_of,
}

abbrev pub listed : String → List String → Bool
listed = has String-discrete

has-merge_events :
    (cur new : List String) (e : String)
    → listed e (merge_events cur new) ≡ (listed e cur || listed e new)
unfolding merge_events has
has-merge_events cur [] e = ground arith
has-merge_events cur (x ∷ xs) e = ground (
  arith,
  has-merge_events (if listed x cur then cur else cur ++ x ∷ []) xs e,
  has-snoc String-discrete e x cur,
)

merge_events-IsDistinct :
    (cur new : List String)
    → IsDistinct String-discrete cur
    → IsDistinct String-discrete (merge_events cur new)
unfolding merge_events
merge_events-IsDistinct cur [] d = d
merge_events-IsDistinct cur (x ∷ xs) d =
    merge_events-IsDistinct (if listed x cur then cur else cur ++ x ∷ []) xs
      (ground (arith, snoc-IsDistinct String-discrete x cur))

abbrev pub label : String → Labels → Option String
label = Dict.get String-discrete

-- The first of two values, if there is one.
abbrev pub first : {A : Type 0} → Option A → Option A → Option A
first none b = b
first (some a) b = some a

merge_labels-some :
    (cur new : Labels)
    → (ls : Labels) × (merge_labels (some cur) new ≡ some (some ls))
      × ((k : String) → label k ls ≡ first (label k cur) (label k new))
unfolding merge_labels Dict.get
merge_labels-some cur [] = (cur, refl, λ k. ground arith)
merge_labels-some cur ((j, v) ∷ rest) = elim (Option-cases (label j cur)) [
  | inl new ↦
      let (ls, e, g) = merge_labels-some (Dict.put String-discrete j v cur) rest in
      (ls, rw (new, merge_labels) e, λ k. g k ∙ ground (arith, get-put String-discrete k j v cur))
  | inr (w, old) ↦
      let (ls, e, g) = merge_labels-some cur rest in
      (ls, rw (old, merge_labels) e, λ k. g k ∙ ground arith)
]

-- Labels can be merged unless they would have to be written to a nil map.
abbrev pub CanMerge : Config → Config → Type 0
CanMerge c new = (c.matching_labels ≢ none) ⊎ (or_no_labels new.matching_labels ≡ [])

merge_labels-or_no_labels :
    (cur : Option Labels) (new : Labels)
    → (cur ≢ none) ⊎ (new ≡ [])
    → (ls : Option Labels) × (merge_labels cur new ≡ some ls)
      × ((k : String)
          → label k (or_no_labels ls) ≡ first (label k (or_no_labels cur)) (label k new))
unfolding merge_labels Dict.get
merge_labels-or_no_labels (some cur) new h =
    let (ls, e, g) = merge_labels-some cur new in (some ls, e, g)
merge_labels-or_no_labels none [] h = (none, refl, λ k. refl)
merge_labels-or_no_labels none (kv ∷ rest) (inl some_map) = absurd (some_map refl)
merge_labels-or_no_labels none (kv ∷ rest) (inr e) = absurd (cc)

-- What a configuration is after a merge: its events are those of both, a label keeps its first value,
-- and all else, the clusters too, stays as it was.
pub record Merges (orig c m : Config) : Type 0 where
  pub api_version : m.api_version ≡ orig.api_version
  pub kind : m.kind ≡ orig.kind
  pub namespace : m.namespace ≡ orig.namespace
  pub clusters : m.clusters ≡ orig.clusters
  pub events : (e : String) → listed e m.events ≡ (listed e orig.events || listed e c.events)
  pub labels :
      (k : String)
      → label k (or_no_labels m.matching_labels)
        ≡ first
            (label k (or_no_labels orig.matching_labels))
            (label k (or_no_labels c.matching_labels))

merge-Merges :
    (orig c : Config) → CanMerge orig c → (m : Config) × (merge orig c ≡ some m) × Merges orig c m
unfolding merge
merge-Merges orig c h =
    let (ls, e, g) =
      merge_labels-or_no_labels orig.matching_labels (or_no_labels c.matching_labels) h in
    (
      record orig { events = merge_events orig.events c.events; matching_labels = ls },
      rw (merge, e) refl,
      record {
        api_version = refl;
        kind = refl;
        namespace = refl;
        clusters = refl;
        events = has-merge_events orig.events c.events;
        labels = g;
      },
    )

module _ {H : Type 0} (marshal : Labels → Option String) where
  -- Initialising a watcher with a second configuration of a known key, if the labels can be merged,
  -- adds the handler behind the earlier ones of that key, and keeps the first configuration, the
  -- clusters included, but for the events of the second one and the labels that it did not have.
  pub init_known :
      (w : Watcher H) (orig c : Config) (eh : H)
      → Dict.get String-discrete (key marshal c) w.configs ≡ some orig
      → CanMerge orig c
      → (w' : Watcher H) × (m : Config) × (init marshal w (some c) eh ≡ ok w')
        × (Dict.get String-discrete (key marshal c) w'.configs ≡ some m)
        × Merges orig c m
        × (Dict.get String-discrete (key marshal c) w'.event_handlers
            ≡ some (
                handlers_of (Dict.get String-discrete (key marshal c) w.event_handlers) ++ eh ∷ []))
  unfolding init merge_into add_handler
  init_known w orig c eh known h =
      let (m, merged, merges) = merge-Merges orig c h in
      (
        add_handler marshal w (key marshal c) m eh,
        m,
        rw (known, init, merge_into, merged) refl,
        get-put_self String-discrete (key marshal c) m w.configs,
        merges,
        get-put_self String-discrete (key marshal c) _ w.event_handlers,
      )
