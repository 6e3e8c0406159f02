-- ===== src/Controllers/TriggerService/Cluster.antt =====
-- What controllers/triggerservice/triggerservice_controller.go leaves in the cluster.
use Prim.Native.String.{String, ◌++◌ as join}
use kube_trigger.Base.{
  ◌≡◌, refl, sym, ap, ◌∙◌, Bool, true, false, Option, none, some, List, [], ◌∷◌, ◌++◌, arith,
  Bool-cases, Option-cases, inl, inr,
}
use text.Mathlib.TextEquality.{eq_iff}
use kube_trigger.Base.Dict
use kube_trigger.Base.Dict.{get-put, get-put_self}
use kube_trigger.Base.Text.{String-discrete}
use kube_trigger.Controllers.TriggerService.{
  TriggerService, ConfigMap, Subject, Fetched, found, not_found, failed, Client, Outcome, success,
  error, panic, Action, ◌>>◌, attempt, owner_reference, subject_eq, account_subject, contains,
  delete_pods, restart_pod, write_entry, save_config, handle_trigger_config, bind_subject,
  bind_role, ensure_account, create_roles,
}

-- What the API server documents of its reads and writes.
pub record IsLawful {W P R D O : Type 0} (client : Client W P R D O) : Type 0 where
  pub get-update_config_map :
      (cm : ConfigMap) (w v : W)
      → client.update_config_map cm w ≡ (v, true)
      → client.get_config_map v cm.namespace cm.name ≡ found cm
  pub get-create_config_map :
      (cm : ConfigMap) (w v : W)
      → client.create_config_map cm w ≡ (v, true)
      → client.get_config_map v cm.namespace cm.name ≡ found cm
  pub config_map_name :
      (w : W) (namespace name : String) (cm : ConfigMap)
      → client.get_config_map w namespace name ≡ found cm
      → (cm.namespace ≡ namespace) × (cm.name ≡ name)
  pub config_map-delete_pod :
      (o : O) (w : W) (namespace name : String)
      → client.get_config_map (client.delete_pod o w).0 namespace name
        ≡ client.get_config_map w namespace name
  pub subjects-update :
      (ss : List Subject) (w v : W)
      → client.update_role_subjects ss w ≡ (v, true)
      → client.get_role_subjects v ≡ found ss

subject_eq_self : (s : Subject) → subject_eq s s ≡ true
unfolding subject_eq
subject_eq_self s = ground (
  arith,
  eq_iff s.kind s.kind,
  eq_iff s.api_group s.api_group,
  eq_iff s.name s.name,
  eq_iff s.namespace s.namespace,
)

contains-snoc : (ss : List Subject) (s : Subject) → contains (ss ++ s ∷ []) s ≡ true
unfolding contains
contains-snoc [] s = rw (subject_eq_self s)
contains-snoc (t ∷ ts) s = ground (arith, contains-snoc ts s)

pub >>-success :
    {W : Type 0} (r : W × Outcome) (next : Action W) (v : W)
    → (r >> next) ≡ (v, success)
    → (u : W) × (r ≡ (u, success)) × (next u ≡ (v, success))
unfolding ◌>>◌
>>-success (u, success) next v h = (u, refl, h)
>>-success (u, error) next v h = absurd (ground arith)
>>-success (u, panic) next v h = absurd (ground arith)

pub attempt-success : {W : Type 0} (r : W × Bool) (u : W) → attempt r ≡ (u, success) → r ≡ (u, true)
attempt-success (w, true) u h = ground arith
attempt-success (w, false) u h = absurd (ground arith)

module _ {W P R D O : Type 0} (client : Client W P R D O) where
  create_roles_steps :
      (ts : TriggerService P) (r : R) (sa : String) (w : W)
      → client.service_account_name r ≡ some sa
      → client.get_service_account w ts.namespace sa ≡ not_found
      → create_roles client ts r w ≡ (
          attempt (
            client.create_service_account
              (record { name = sa; namespace = ts.namespace; owners = owner_reference ts })
              w)
          >> bind_role client ts sa)
  unfolding create_roles ensure_account
  create_roles_steps ts r sa w named missing = rw (named, create_roles, missing)

  module _ (lawful : IsLawful client) where
    bind_subject-bound :
        (s : Subject) (o : Fetched (List Subject)) (w v : W)
        → client.get_role_subjects w ≡ o
        → bind_subject client s o w ≡ (v, success)
        → (ss : List Subject) × (client.get_role_subjects v ≡ found ss) × (contains ss s ≡ true)
    unfolding bind_subject
    bind_subject-bound s (found ss) w v e h = elim (Bool-cases (contains ss s)) [
      | inl there ↦ (ss, ground arith, there)
      | inr absent ↦ (
        ss ++ s ∷ [],
        lawful.subjects-update (ss ++ s ∷ []) w v (ground arith),
        contains-snoc ss s,
      )
    ]
    bind_subject-bound s not_found w v e h = absurd (cc)
    bind_subject-bound s failed w v e h = absurd (cc)

    -- If the service account is missing and the reconciler succeeds, the account is among the subjects
    -- of the cluster role binding afterwards.
    pub create_roles_missing :
        (ts : TriggerService P) (r : R) (sa : String) (w v : W)
        → client.service_account_name r ≡ some sa
        → client.get_service_account w ts.namespace sa ≡ not_found
        → create_roles client ts r w ≡ (v, success)
        → (ss : List Subject) × (client.get_role_subjects v ≡ found ss)
          × (contains ss (account_subject ts.namespace sa) ≡ true)
    unfolding bind_role
    create_roles_missing ts r sa w v named missing h =
        let steps = sym (create_roles_steps ts r sa w named missing) ∙ h in
        let (u, made, bound) = >>-success _ (bind_role client ts sa) v steps in
        bind_subject-bound _ _ u v refl bound

    -- The entry of the service in its config map, after a success.
    abbrev pub Saved : TriggerService P → String → W → Type 0
    Saved ts json w =
        (cm : ConfigMap) × (entries : List (String × String)) × (client.get_config_map w
            ts.namespace ts.name
          ≡ found cm)
        × (cm.content ≡ some entries)
        × (Dict.get String-discrete (join ts.name ".json") entries ≡ some json)

    pods-config_map :
        (os : List O) (w v : W) (namespace name : String)
        → delete_pods client os w ≡ (v, success)
        → client.get_config_map v namespace name ≡ client.get_config_map w namespace name
    unfolding delete_pods
    pods-config_map [] w v namespace name h = ground arith
    pods-config_map (o ∷ os) w v namespace name h =
        pods-config_map os (client.delete_pod o w).0 v namespace name (ground arith)
        ∙ lawful.config_map-delete_pod o w namespace name

    restart-config_map :
        (ts : TriggerService P) (w v : W) (namespace name : String)
        → restart_pod client ts w ≡ (v, success)
        → client.get_config_map v namespace name ≡ client.get_config_map w namespace name
    unfolding restart_pod
    restart-config_map ts w v namespace name h =
        elim (Option-cases (client.list_pods w ts.namespace ts.name)) [
          | inl unlisted ↦ absurd (ground arith)
          | inr (os, listed) ↦ pods-config_map os w v namespace name (ground arith)
        ]

    write_entry-Saved :
        (ts : TriggerService P) (json : String) (cm : ConfigMap)
        (content : Option (List (String × String))) (w v : W)
        → client.get_config_map w ts.namespace ts.name ≡ found cm
        → write_entry client ts json cm content w ≡ (v, success)
        → Saved ts json v
    unfolding write_entry
    write_entry-Saved ts json cm none w v there h = absurd (cc)
    write_entry-Saved ts json cm (some entries) w v there h =
        let changed = Dict.put String-discrete (join ts.name ".json") json entries in
        let (u, written, restarted) = >>-success _ (restart_pod client ts) v h in
        let (in_namespace, named) = lawful.config_map_name w ts.namespace ts.name cm there in
        let stored =
          lawful.get-update_config_map (record cm { content = some changed }) w u
            (attempt-success _ u written) in
        (
          record cm { content = some changed },
          changed,
          restart-config_map ts u v ts.namespace ts.name restarted
              ∙ ap (λ n. client.get_config_map u n ts.name) (sym in_namespace)
              ∙ ap (λ n. client.get_config_map u cm.namespace n) (sym named)
              ∙ stored,
          refl,
          get-put_self String-discrete _ json entries,
        )

    save_config-Saved :
        (ts : TriggerService P) (json : String) (o : Fetched ConfigMap) (w v : W)
        → client.get_config_map w ts.namespace ts.name ≡ o
        → save_config client ts json o w ≡ (v, success)
        → Saved ts json v
    unfolding save_config Dict.put
    save_config-Saved ts json (found cm) w v e h = write_entry-Saved ts json cm cm.content w v e h
    save_config-Saved ts json not_found w v e h = (
      _,
      (join ts.name ".json", json) ∷ [],
      lawful.get-create_config_map _ w v (attempt-success _ v h),
      refl,
      get-put_self String-discrete _ json [],
    )
    save_config-Saved ts json failed w v e h = absurd (cc)

    -- When the reconciler has handled the configuration of a service with success, the config map of
    -- the service's name holds the service's specification under the name of the file that the worker
    -- reads, whether the map was created or updated and whatever pods were deleted.
    pub handle_trigger_config-Saved :
        (ts : TriggerService P) (json : String) (w v : W)
        → ts.spec ≡ some json
        → handle_trigger_config client ts w ≡ (v, success)
        → Saved ts json v
    unfolding handle_trigger_config
    handle_trigger_config-Saved ts json w v spec h =
        save_config-Saved ts json _ w v refl (ground arith)
