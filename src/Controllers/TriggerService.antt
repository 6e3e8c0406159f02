-- ===== src/Controllers/TriggerService.antt =====
-- controllers/triggerservice/triggerservice_controller.go: the reconciler of TriggerService objects.
pub mod Cluster
pub mod Reconciled
mod Tests
use Prim.Native.String.{String, ◌++◌ as join}
use text.Mathlib.Text.{◌==◌}
use kube_trigger.Base.{
  ◌≡◌, Bool, true, false, not, ◌&&◌, Option, none, some, List, [], ◌∷◌, ◌++◌, if◌then◌else◌, has,
  Bool-cases, inl, inr,
}
use kube_trigger.Base.Dict
use kube_trigger.Base.Text.{String-discrete}

-- `TriggerService`, without what is only copied; `spec` is the JSON text of its field of that name,
-- `none` if it cannot be marshalled, and `P` are the properties of a worker.
pub record Worker (P : Type 0) : Type 0 where
  pub template : String
  pub properties : P

pub record TriggerService (P : Type 0) : Type 0 where
  pub name : String
  pub namespace : String
  pub uid : String
  pub is_deleting : Bool
  pub finalizers : List String
  pub spec : Option String
  pub worker : Option (Worker P)

-- `SetOwnerReference` of controllers/utils/utils.go: the name and the UID of the owner; the group, the
-- kind and the blocking of its deletion are constants.
pub record OwnerReference : Type 0 where
  pub name : String
  pub uid : String

unfoldable pub owner_reference : {P : Type 0} → TriggerService P → List OwnerReference
owner_reference ts = record { name = ts.name; uid = ts.uid } ∷ []

-- The objects that the reconciler reads and writes; a nil map of data is `none`.
pub record ConfigMap : Type 0 where
  pub name : String
  pub namespace : String
  pub content : Option (List (String × String))
  pub owners : List OwnerReference

pub record Subject : Type 0 where
  pub kind : String
  pub api_group : String
  pub name : String
  pub namespace : String

pub record ServiceAccount : Type 0 where
  pub name : String
  pub namespace : String
  pub owners : List OwnerReference

-- What a read of the API server answers.
pub data Fetched (A : Type 0) : Type 0 where
  found : A → Fetched A
  not_found failed : Fetched A

-- The client of the API server: `W` is the state of the cluster, a write tells whether it succeeded.
-- `R` are the rendered values of a worker's template, `D` deployments and `O` pods.
pub record Client (W P R D O : Type 0) : Type 0 where
  pub get_service : W → String → Fetched (TriggerService P)
  pub update_service : TriggerService P → W → W × Bool
  pub get_config_map : W → String → String → Fetched ConfigMap
  pub create_config_map : ConfigMap → W → W × Bool
  pub update_config_map : ConfigMap → W → W × Bool
  pub list_pods : W → String → String → Option (List O)
  pub delete_pod : O → W → W × Bool
  pub list_deployments : W → String → Option (List D)
  pub create_deployment : D → List OwnerReference → W → W × Bool
  pub get_service_account : W → String → String → Fetched ServiceAccount
  pub create_service_account : ServiceAccount → W → W × Bool
  pub get_role_subjects : W → Fetched (List Subject)
  pub update_role_subjects : List Subject → W → W × Bool
  pub load_template : String → Option String
  pub compile : String → TriggerService P → Option P → Option R
  pub service_account_name : R → Option String
  pub deployment : R → Option D

-- How a part of the reconciliation ends.
pub data Outcome : Type 0 where
  success error panic : Outcome

abbrev pub Action : Type 0 → Type 0
Action W = W → W × Outcome

-- The next part runs only after a success.
infixl 5 ◌>>◌
unfoldable pub ◌>>◌ : {W : Type 0} → W × Outcome → Action W → W × Outcome
(w, success) >> next = next w
(w, error) >> next = (w, error)
(w, panic) >> next = (w, panic)

-- A write, with its error.
abbrev pub attempt : {W : Type 0} → W × Bool → W × Outcome
attempt (w, b) = (w, if b then success else error)

abbrev pub trigger_service_finalizer : String
trigger_service_finalizer = "trigger.oam.dev/trigger-service-finalizer"

unfoldable pub subject_eq : Subject → Subject → Bool
subject_eq a b =
    a.kind == b.kind
    && (a.api_group == b.api_group && (a.name == b.name && a.namespace == b.namespace))

unfoldable pub account_subject : String → String → Subject
account_subject namespace name = record {
  kind = "ServiceAccount";
  api_group = "";
  name = name;
  namespace = namespace;
}

-- `slices.Contains`.
unfoldable pub contains : List Subject → Subject → Bool
unfolding subject_eq
contains [] s = false
contains (t ∷ ts) s = if subject_eq t s then true else contains ts s

-- The object that `Get` leaves untouched when there is none of the name.
abbrev pub empty_service : {P : Type 0} → TriggerService P
empty_service = record {
  name = "";
  namespace = "";
  uid = "";
  is_deleting = false;
  finalizers = [];
  spec = some "{\"triggers\":null}";
  worker = none;
}

module _ {W P R D O : Type 0} (client : Client W P R D O) where
  unfoldable pub delete_pods : List O → Action W
  delete_pods [] w = (w, success)
  delete_pods (p ∷ ps) w =
      let rest = delete_pods ps (client.delete_pod p w).0 in
      if (client.delete_pod p w).1 then rest else ((client.delete_pod p w).0, error)

  unfoldable pub restart_pod : TriggerService P → Action W
  unfolding delete_pods
  restart_pod ts w = elim (client.list_pods w ts.namespace ts.name) [
    | none ↦ (w, error)
    | some pods ↦ delete_pods pods w
  ]

  -- The entry of the service in the config map that was found.
  unfoldable pub write_entry :
      TriggerService P → String → ConfigMap → Option (List (String × String)) → Action W
  write_entry ts json cm none w = (w, panic)
  write_entry ts json cm (some entries) w =
      attempt (
        client.update_config_map
          (record cm {
            content = some (Dict.put String-discrete (join ts.name ".json") json entries);
          })
          w)
      >> restart_pod ts

  unfoldable pub save_config : TriggerService P → String → Fetched ConfigMap → Action W
  save_config ts json (found cm) w = write_entry ts json cm cm.content w
  save_config ts json not_found w = attempt (
      client.create_config_map
        (record {
          name = ts.name;
          namespace = ts.namespace;
          content = some ((join ts.name ".json", json) ∷ []);
          owners = owner_reference ts;
        })
        w)
  save_config ts json failed w = (w, error)

  unfoldable pub handle_trigger_config : TriggerService P → Action W
  handle_trigger_config ts w = elim ts.spec [
    | none ↦ (w, error)
    | some json ↦ save_config ts json (client.get_config_map w ts.namespace ts.name) w
  ]

  -- The end of `createRoles`, from the read of the cluster role binding on.
  unfoldable pub bind_subject : Subject → Fetched (List Subject) → Action W
  bind_subject s (found subjects) w =
      if contains subjects s
      then (w, success)
      else attempt (client.update_role_subjects (subjects ++ s ∷ []) w)
  bind_subject s not_found w = (w, error)
  bind_subject s failed w = (w, error)

  unfoldable pub bind_role : TriggerService P → String → Action W
  bind_role ts sa w = bind_subject (account_subject ts.namespace sa) (client.get_role_subjects w) w

  -- `createRoles` after the name of the service account. If the account is there, the branch `else`
  -- returns its error, which is nil.
  unfoldable pub ensure_account : TriggerService P → String → Fetched ServiceAccount → Action W
  ensure_account ts sa (found a) w = (w, success)
  ensure_account ts sa not_found w =
      attempt (
        client.create_service_account
          (record { name = sa; namespace = ts.namespace; owners = owner_reference ts }) w)
      >> bind_role ts sa
  ensure_account ts sa failed w = bind_role ts sa w

  unfoldable pub create_roles : TriggerService P → R → Action W
  create_roles ts r w = elim (client.service_account_name r) [
    | none ↦ (w, error)
    | some sa ↦ ensure_account ts sa (client.get_service_account w ts.namespace sa) w
  ]

  unfoldable pub template_name : Option (Worker P) → String
  template_name none = "default"
  template_name (some k) = if k.template == "" then "default" else k.template

  abbrev pub parameters : Option (Worker P) → Option P
  parameters none = none
  parameters (some k) = some k.properties

  unfoldable pub deploy : TriggerService P → Option D → Action W
  deploy ts none w = (w, error)
  deploy ts (some d) w = attempt (client.create_deployment d (owner_reference ts) w)

  unfoldable pub create_worker : TriggerService P → Action W
  create_worker ts w = elim (client.load_template (template_name ts.worker)) [
    | none ↦ (w, error)
    | some t ↦ elim (client.compile t ts (parameters ts.worker)) [
      | none ↦ (w, error)
      | some r ↦ create_roles ts r w >> deploy ts (client.deployment r)
    ]
  ]

  unfoldable pub ensure_worker : TriggerService P → Action W
  ensure_worker ts w = elim (client.list_deployments w ts.name) [
    | none ↦ (w, error)
    | some [] ↦ create_worker ts w
    | some (d ∷ ds) ↦ (w, success)
  ]

  -- `Reconcile` after the read of the object.
  unfoldable pub reconcile_service : TriggerService P → Action W
  reconcile_service ts w =
      if ts.is_deleting && not (has String-discrete trigger_service_finalizer ts.finalizers)
      then attempt (
          client.update_service
            (record ts { finalizers = ts.finalizers ++ trigger_service_finalizer ∷ [] }) w)
      else handle_trigger_config ts w >> ensure_worker ts

  unfoldable pub reconcile_fetched : Fetched (TriggerService P) → Action W
  reconcile_fetched (found ts) w = reconcile_service ts w
  reconcile_fetched not_found w = reconcile_service empty_service w
  reconcile_fetched failed w = (w, error)

  unfoldable pub reconcile : String → Action W
  reconcile request w = reconcile_fetched (client.get_service w request) w
