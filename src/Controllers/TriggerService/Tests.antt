-- ===== src/Controllers/TriggerService/Tests.antt =====
-- The reconciler of controllers/triggerservice against a cluster of one config map and one role binding.
use Prim.Native.String.{String}
use text.Mathlib.Text.{◌==◌}
use text.Mathlib.TextEquality.{eq_iff}
use kube_trigger.Base.{
  ℕ, ◌≡◌, refl, sym, ap, true, false, ◌&&◌, Option, none, some, List, [], ◌∷◌, arith, if◌then◌else◌,
}
use kube_trigger.Base.Dict
use kube_trigger.Controllers.TriggerService.{
  TriggerService, ConfigMap, Subject, Fetched, found, not_found, Client, ◌>>◌, account_subject,
  contains, delete_pods, restart_pod, write_entry, save_config, handle_trigger_config, bind_subject,
  bind_role, ensure_account, create_roles, reconcile, reconcile_fetched, reconcile_service,
  ensure_worker, create_worker, template_name, deploy,
}
use kube_trigger.Controllers.TriggerService.Cluster.{IsLawful, create_roles_missing, Saved}
use kube_trigger.Controllers.TriggerService.Reconciled.{KeepsMaps, Working, reconcile-Working}

-- The config map, and the subjects of the role binding.
abbrev State : Type 0
State = Option ConfigMap × List Subject

-- The config map of a name.
config_map_of : Option ConfigMap → String → String → Fetched ConfigMap
config_map_of none namespace name = not_found
config_map_of (some cm) namespace name =
    if cm.namespace == namespace && cm.name == name then found cm else not_found

config_map_of-same : (cm : ConfigMap) → config_map_of (some cm) cm.namespace cm.name ≡ found cm
unfolding config_map_of
config_map_of-same cm = ground (arith, eq_iff cm.namespace cm.namespace, eq_iff cm.name cm.name)

config_map_of-name :
    (o : Option ConfigMap) (namespace name : String) (cm : ConfigMap)
    → config_map_of o namespace name ≡ found cm
    → (cm.namespace ≡ namespace) × (cm.name ≡ name)
unfolding config_map_of
config_map_of-name none namespace name cm h = absurd (cc)
config_map_of-name (some there) namespace name cm h =
    ground (arith, eq_iff there.namespace namespace, eq_iff there.name name)

abbrev service : TriggerService ℕ
service = record {
  name = "demo";
  namespace = "apps";
  uid = "1";
  is_deleting = false;
  finalizers = [];
  spec = some "{}";
  worker = none;
}

-- Properties and rendered values are numbers, deployments names, and there is one pod. One
-- service is found, no account, and a deployment for the service without a name only.
abbrev client : Client State ℕ ℕ String ℕ
client = record {
  get_service = λ w request. if request == "demo" then found service else not_found;
  update_service = λ ts w. (w, true);
  get_config_map = λ w namespace name. config_map_of w.0 namespace name;
  create_config_map = λ cm w. ((some cm, w.1), true);
  update_config_map = λ cm w. ((some cm, w.1), true);
  list_pods = λ w namespace name. some (1 ∷ []);
  delete_pod = λ o w. (w, true);
  list_deployments = λ w name. if name == "" then some ("worker" ∷ []) else some [];
  create_deployment = λ d owners w. (w, true);
  get_service_account = λ w namespace name. not_found;
  create_service_account = λ a w. (w, true);
  get_role_subjects = λ w. found w.1;
  update_role_subjects = λ ss w. ((w.0, ss), true);
  load_template = λ name. some name;
  compile = λ template ts p. some 0;
  service_account_name = λ r. some "trigger";
  deployment = λ r. some "worker";
}

lawful : IsLawful client
lawful = record {
  get-update_config_map = λ cm w v h. rw (sym (ap (λ r. r.0) h)) (config_map_of-same cm);
  get-create_config_map = λ cm w v h. rw (sym (ap (λ r. r.0) h)) (config_map_of-same cm);
  config_map_name = λ w namespace name cm. config_map_of-name w.0 namespace name cm;
  config_map-delete_pod = λ o w namespace name. refl;
  subjects-update = λ ss w v h. rw (sym (ap (λ r. r.0) h)) refl;
}

abbrev stored : ConfigMap
stored = record { name = "demo"; namespace = "apps"; content = some []; owners = [] }

abbrev after : State
after = (
  some (record stored { content = some (("demo.json", "{}") ∷ []) }),
  account_subject "apps" "trigger" ∷ [],
)

keeps : KeepsMaps client
keeps = record {
  account_written = λ a w namespace name. refl;
  subjects_written = λ ss w namespace name. refl;
  deployment_written = λ d owners w namespace name. refl;
}

reconcile-Working_example :
    Saved client lawful service "{}" after × Working client keeps service after
unfolding reconcile reconcile_fetched reconcile_service handle_trigger_config save_config
    write_entry restart_pod delete_pods ◌>>◌ config_map_of Dict.put ensure_worker create_worker
    template_name create_roles ensure_account bind_role bind_subject contains deploy
reconcile-Working_example =
    reconcile-Working client keeps lawful "demo" service "{}" (some stored, []) after refl refl refl
      refl

create_roles_missing_example :
    (ss : List Subject) × (found (account_subject "apps" "trigger" ∷ []) ≡ found ss)
    × (contains ss (account_subject "apps" "trigger") ≡ true)
unfolding create_roles ensure_account bind_role bind_subject contains ◌>>◌
create_roles_missing_example =
    create_roles_missing client lawful service 0 "trigger" (none, [])
      (none, account_subject "apps" "trigger" ∷ []) refl refl refl
