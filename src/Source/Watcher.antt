-- ===== src/Source/Watcher.antt =====
-- pkg/source/builtin/k8sresourcewatcher: the source that watches Kubernetes resources, and its
-- configurations (types/types.go, k8s_resource_watcher.go).
pub mod Merging
pub mod Called
pub mod Clusters
pub mod Order
pub mod Secrets
mod Tests
use Prim.Native.String.{String, ◌++◌ as join}
use kube_trigger.Base.{
  ℕ, ◌≡◌, Bool, true, false, Option, none, some, List, [], ◌∷◌, ◌++◌, if◌then◌else◌, length, has,
  ◌==◌,
}
use kube_trigger.Base.Dict
use kube_trigger.Base.Text.{String-discrete}
use kube_trigger.Source.Watcher.Clusters.{
  Access, Clients, new_multi_clusters_getter, get_dynamic_client_and_mapper,
}

abbrev pub Labels : Type 0
Labels = List (String × String)

-- `Config`; a nil map of labels is `none`.
pub record Config : Type 0 where
  pub api_version : String
  pub kind : String
  pub namespace : String
  pub events : List String
  pub matching_labels : Option Labels
  pub clusters : List String

abbrev pub or_empty : Option String → String
or_empty none = ""
or_empty (some s) = s

-- `marshal` is `json.Marshal` on a map of labels.
unfoldable pub labels_key : (Labels → Option String) → Option Labels → String
labels_key marshal none = ""
labels_key marshal (some ls) = if length ls == 0 then "" else or_empty (marshal ls)

unfoldable pub key : (Labels → Option String) → Config → String
unfolding labels_key
key marshal c = join c.api_version (
    join "-"
      (join c.kind (join "-" (join c.namespace (join "-" (labels_key marshal c.matching_labels))))))

unfoldable pub merge_events : List String → List String → List String
merge_events cur [] = cur
merge_events cur (e ∷ es) =
    merge_events (if has String-discrete e cur then cur else cur ++ e ∷ []) es

-- A write to a nil map panics: `none`.
unfoldable pub merge_labels : Option Labels → Labels → Option (Option Labels)
merge_labels cur [] = some cur
merge_labels none (kv ∷ rest) = none
merge_labels (some ls) ((k, v) ∷ rest) =
    merge_labels
      (some (elim (Dict.get String-discrete k ls) [
        | none ↦ Dict.put String-discrete k v ls
        | some _ ↦ ls
      ]))
      rest

abbrev pub or_no_labels : Option Labels → Labels
or_no_labels none = []
or_no_labels (some ls) = ls

unfoldable pub merge : Config → Config → Option Config
unfolding merge_events
merge c new = elim (merge_labels c.matching_labels (or_no_labels new.matching_labels)) [
  | none ↦ none
  | some ls ↦ some (record c { events = merge_events c.events new.events; matching_labels = ls })
]

-- `K8sResourceWatcher`; `H` are event handlers.
pub record Watcher (H : Type 0) : Type 0 where
  pub configs : List (String × Config)
  pub event_handlers : List (String × List H)

unfoldable pub new_watcher : {H : Type 0} → Watcher H
new_watcher = record { configs = []; event_handlers = [] }

-- What `Init` comes to: the error of the parser, a panic in `Merge`, or the new state.
pub data InitResult (W : Type 0) : Type 0 where
  ok : W → InitResult W
  bad_properties panics : InitResult W

abbrev pub handlers_of : {H : Type 0} → Option (List H) → List H
handlers_of none = []
handlers_of (some hs) = hs

module _ {H : Type 0} (marshal : Labels → Option String) where
  unfoldable pub add_handler : Watcher H → String → Config → H → Watcher H
  add_handler w k c eh = record {
    configs = Dict.put String-discrete k c w.configs;
    event_handlers =
        Dict.put String-discrete k
          (handlers_of (Dict.get String-discrete k w.event_handlers) ++ eh ∷ []) w.event_handlers;
  }

  unfoldable pub merge_into : Watcher H → Config → H → Option Config → InitResult (Watcher H)
  merge_into w c eh none = ok (add_handler w (key marshal c) c eh)
  merge_into w c eh (some orig) = elim (merge orig c) [
    | none ↦ panics
    | some merged ↦ ok (add_handler w (key marshal c) merged eh)
  ]

  -- `properties` are parsed already: `none` is an error of `MarshalJSON` or `json.Unmarshal`.
  unfoldable pub init : Watcher H → Option Config → H → InitResult (Watcher H)
  init w none eh = bad_properties
  init w (some c) eh = merge_into w c eh (Dict.get String-discrete (key marshal c) w.configs)

-- `defaultCluster`.
abbrev pub default_clusters : List String → List String
default_clusters [] = "local" ∷ []
default_clusters (c ∷ cs) = c ∷ cs

pub record Started (H : Type 0) : Type 0 where
  pub cluster : String
  pub clients : Clients
  pub config : Config
  pub handlers : List H

module _ {H : Type 0} (clients_of : String → Option Clients) where
  -- The inner loop of `Run`, over the clusters of a configuration. It stops at the first cluster
  -- without a client; the Boolean tells whether it did.
  unfoldable pub start_all :
      List String → Config → List H → List (Started H) → List (Started H) × Bool
  start_all [] c hs acc = (acc, false)
  start_all (cluster ∷ rest) c hs acc = elim (clients_of cluster) [
    | none ↦ (acc, true)
    | some cli ↦
        start_all rest c hs
          (acc ++ record { cluster = cluster; clients = cli; config = c; handlers = hs } ∷ [])
  ]

  unfoldable pub run_configs :
      Watcher H → List (String × Config) → List (Started H) → List (Started H) × Bool
  run_configs w [] acc = (acc, false)
  run_configs w ((k, c) ∷ rest) acc =
      let clusters = default_clusters c.clusters in
      let r =
        start_all clusters (record c { clusters = clusters })
          (handlers_of (Dict.get String-discrete k w.event_handlers)) acc in
      let more = run_configs w rest r.0 in if r.1 then r else more

-- `Run` for a type of getter: the controllers that it starts, and whether it fails.
unfoldable pub run : {H : Type 0} → Access → String → Watcher H → List (Started H) × Bool
unfolding run_configs start_all
run access typ w = elim (new_multi_clusters_getter access typ) [
  | none ↦ ([], true)
  | some getter ↦ run_configs (get_dynamic_client_and_mapper access getter) w w.configs []
]
