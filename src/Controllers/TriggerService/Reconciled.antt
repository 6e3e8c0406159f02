-- ===== src/Controllers/TriggerService/Reconciled.antt =====
-- What a reconciliation of controllers/triggerservice/triggerservice_controller.go as a whole leaves in
-- the cluster.
use Prim.Native.String.{String}
use text.Mathlib.Text.{◌==◌}
use text.Mathlib.TextEquality.{eq_iff}
use kube_trigger.Base.{
  ◌≡◌, ◌≢◌, ◌⊎◌, refl, sym, ap, ◌∙◌, Bool, true, false, Bool-cases, ◌&&◌, not, has, Option, none,
  some, Option-cases, inl, inr, List, [], ◌∷◌, ◌++◌, arith,
}
use kube_trigger.Base.Text.{String-discrete}
use kube_trigger.Controllers.TriggerService.{
  TriggerService, Worker, ServiceAccount, Subject, OwnerReference, Fetched, found, not_found,
  failed, Client, success, ◌>>◌, attempt, owner_reference, contains, bind_subject, bind_role,
  ensure_account, create_roles, deploy, create_worker, ensure_worker, handle_trigger_config,
  reconcile_service, reconcile_fetched, reconcile, trigger_service_finalizer, template_name,
  parameters,
}
use kube_trigger.Controllers.TriggerService.Cluster.{
  IsLawful, Saved, >>-success, attempt-success, handle_trigger_config-Saved,
}

-- The API server keeps config maps when something else is written.
pub record KeepsMaps {W P R D O : Type 0} (client : Client W P R D O) : Type 0 where
  pub account_written :
      (a : ServiceAccount) (w : W) (namespace name : String)
      → client.get_config_map (client.create_service_account a w).0 namespace name
        ≡ client.get_config_map w namespace name
  pub subjects_written :
      (ss : List Subject) (w : W) (namespace name : String)
      → client.get_config_map (client.update_role_subjects ss w).0 namespace name
        ≡ client.get_config_map w namespace name
  pub deployment_written :
      (d : D) (owners : List OwnerReference) (w : W) (namespace name : String)
      → client.get_config_map (client.create_deployment d owners w).0 namespace name
        ≡ client.get_config_map w namespace name

-- The template and the properties that a service asks for: those of its worker, but the template
-- "default" if that names none, and without a worker the default template and no properties.
pub data AsksFor {P : Type 0} (ts : TriggerService P) (name : String) (properties : Option P)
    : Type 0 where
  named :
      (k : Worker P)
      → ts.worker ≡ some k
      → k.template ≢ ""
      → name ≡ k.template
      → properties ≡ some k.properties
      → AsksFor ts name properties
  unnamed :
      (k : Worker P)
      → ts.worker ≡ some k
      → k.template ≡ ""
      → name ≡ "default"
      → properties ≡ some k.properties
      → AsksFor ts name properties
  no_worker : ts.worker ≡ none → name ≡ "default" → properties ≡ none → AsksFor ts name properties

module _ {W P R D O : Type 0} (client : Client W P R D O) (keeps : KeepsMaps client) where
  -- The config maps are those of before.
  abbrev Same : W → W → Type 0
  Same w v =
      (namespace name : String)
      → client.get_config_map v namespace name ≡ client.get_config_map w namespace name

  unchanged : (w v : W) → w ≡ v → Same w v
  unchanged w v e namespace name = ap (λ x. client.get_config_map x namespace name) (sym e)

  attempt-Same : (w : W) (r : W × Bool) (v : W) → Same w r.0 → attempt r ≡ (v, success) → Same w v
  attempt-Same w r v same h namespace name =
      ap (λ x. client.get_config_map x.0 namespace name) (sym (attempt-success r v h))
      ∙ same namespace name

  bind_subject-Same :
      (s : Subject) (o : Fetched (List Subject)) (w v : W)
      → bind_subject client s o w ≡ (v, success)
      → Same w v
  unfolding bind_subject
  bind_subject-Same s (found ss) w v h = elim (Bool-cases (contains ss s)) [
    | inl there ↦ (let e : w ≡ v = ground arith in unchanged w v e)
    | inr absent ↦
        attempt-Same w (client.update_role_subjects (ss ++ s ∷ []) w) v
          (keeps.subjects_written (ss ++ s ∷ []) w) (ground arith)
  ]
  bind_subject-Same s not_found w v h = absurd (cc)
  bind_subject-Same s failed w v h = absurd (cc)

  ensure_account-Same :
      (ts : TriggerService P) (sa : String) (o : Fetched ServiceAccount) (w v : W)
      → ensure_account client ts sa o w ≡ (v, success)
      → Same w v
  unfolding ensure_account bind_role
  ensure_account-Same ts sa (found a) w v h = unchanged w v (cc)
  ensure_account-Same ts sa not_found w v h =
      let (u, made, bound) = >>-success _ (bind_role client ts sa) v h in
      λ namespace name.
        bind_subject-Same _ _ u v bound namespace name
        ∙ attempt-Same w _ u (keeps.account_written _ w) made namespace name
  ensure_account-Same ts sa failed w v h = bind_subject-Same _ _ w v h

  create_roles-Same :
      (ts : TriggerService P) (r : R) (w v : W)
      → create_roles client ts r w ≡ (v, success)
      → Same w v
  unfolding create_roles
  create_roles-Same ts r w v h = elim (Option-cases (client.service_account_name r)) [
    | inl missing ↦ absurd (ground arith)
    | inr (sa, there) ↦
        ensure_account-Same ts sa (client.get_service_account w ts.namespace sa) w v (ground arith)
  ]

  worker-AsksFor :
      (ts : TriggerService P) (o : Option (Worker P))
      → ts.worker ≡ o
      → AsksFor ts (template_name client o) (parameters client o)
  unfolding template_name
  worker-AsksFor ts none e = no_worker e refl refl
  worker-AsksFor ts (some k) e = elim (Bool-cases (k.template == "")) [
    | inl empty ↦ unnamed k e ((eq_iff k.template "").0 empty) (ground arith) refl
    | inr other ↦ named k e (λ empty. ground (arith, eq_iff k.template "")) (ground arith) refl
  ]

  -- The deployment that the template gives which the service asks for, with its properties.
  abbrev pub IsRendered : TriggerService P → D → Type 0
  IsRendered ts d =
      (name t : String) × (properties : Option P) × (r : R) × AsksFor ts name properties
      × (client.load_template name ≡ some t)
      × (client.compile t ts properties ≡ some r)
      × (client.deployment r ≡ some d)

  -- There is a deployment for the service, or the last write created the one of its template.
  abbrev pub Working : TriggerService P → W → Type 0
  Working ts v =
      ((d : D) × (ds : List D) × (client.list_deployments v ts.name ≡ some (d ∷ ds)))
      ⊎ ((d : D) × (u : W) × IsRendered ts d
          × (client.create_deployment d (owner_reference ts) u ≡ (v, true)))

  deploy-Working :
      (ts : TriggerService P) (o : Option D) (w v : W)
      → ((d : D) → o ≡ some d → IsRendered ts d)
      → deploy client ts o w ≡ (v, success)
      → Same w v × Working ts v
  unfolding deploy
  deploy-Working ts none w v of h = absurd (cc)
  deploy-Working ts (some d) w v of h =
      let r = client.create_deployment d (owner_reference ts) w in
      (
        attempt-Same w r v (keeps.deployment_written d (owner_reference ts) w) h,
        inr (d, w, of d refl, attempt-success r v h),
      )

  rendered-Working :
      (ts : TriggerService P) (r : R) (w v : W)
      → ((d : D) → client.deployment r ≡ some d → IsRendered ts d)
      → (create_roles client ts r w >> deploy client ts (client.deployment r)) ≡ (v, success)
      → Same w v × Working ts v
  rendered-Working ts r w v of h =
      let (u, roles, deployed) = >>-success _ (deploy client ts (client.deployment r)) v h in
      let (same, working) = deploy-Working ts (client.deployment r) u v of deployed in
      (
        (λ namespace name. same namespace name ∙ create_roles-Same ts r w u roles namespace name),
        working,
      )

  create_worker-Working :
      (ts : TriggerService P) (w v : W)
      → create_worker client ts w ≡ (v, success)
      → Same w v × Working ts v
  unfolding create_worker
  create_worker-Working ts w v h =
      elim (Option-cases (client.load_template (template_name client ts.worker))) [
        | inl unknown ↦ absurd (ground arith)
        | inr (t, loaded) ↦
            elim (Option-cases (client.compile t ts (parameters client ts.worker))) [
              | inl broken ↦ absurd (ground arith)
              | inr (r, compiled) ↦
                  rendered-Working ts r w v
                    (λ d of. (_, t, _, r, worker-AsksFor ts ts.worker refl, loaded, compiled, of))
                    (ground arith)
            ]
      ]

  ensure_worker-Working :
      (ts : TriggerService P) (o : Option (List D)) (w v : W)
      → client.list_deployments w ts.name ≡ o
      → ensure_worker client ts w ≡ (v, success)
      → Same w v × Working ts v
  unfolding ensure_worker
  ensure_worker-Working ts none w v e h = absurd (ground arith)
  ensure_worker-Working ts (some []) w v e h = create_worker-Working ts w v (ground arith)
  ensure_worker-Working ts (some (d ∷ ds)) w v e h =
      let same : w ≡ v = ground arith in
      (unchanged w v same, inl (d, ds, ap (λ x. client.list_deployments x ts.name) (sym same) ∙ e))

  module _ (lawful : IsLawful client) where
    service-Working :
        (ts : TriggerService P) (json : String) (w v : W)
        → (ts.is_deleting && not (has String-discrete trigger_service_finalizer ts.finalizers))
          ≡ false
        → ts.spec ≡ some json
        → reconcile_service client ts w ≡ (v, success)
        → Saved client lawful ts json v × Working ts v
    unfolding reconcile_service
    service-Working ts json w v living spec h =
        let steps : (handle_trigger_config client ts w >> ensure_worker client ts) ≡ (v, success) =
          ground arith in
        let (u, handled, ensured) = >>-success _ (ensure_worker client ts) v steps in
        let (cm, entries, there, content, entry) =
          handle_trigger_config-Saved client lawful ts json w u spec handled in
        let (same, working) = ensure_worker-Working ts _ u v refl ensured in
        ((cm, entries, same ts.namespace ts.name ∙ there, content, entry), working)

    -- When the reconciliation of a service succeeds that is not being deleted, or that is and has the
    -- finalizer, the config map of the service's name holds its specification under the name of the
    -- file that the worker reads, and there is a deployment for the service, or the last write created
    -- the one that its template gives, the default one if it names none, for its properties.
    pub reconcile-Working :
        (request : String) (ts : TriggerService P) (json : String) (w v : W)
        → client.get_service w request ≡ found ts
        → (ts.is_deleting && not (has String-discrete trigger_service_finalizer ts.finalizers))
          ≡ false
        → ts.spec ≡ some json
        → reconcile client request w ≡ (v, success)
        → Saved client lawful ts json v × Working ts v
    unfolding reconcile reconcile_fetched
    reconcile-Working request ts json w v there living spec h =
        service-Working ts json w v living spec (ground arith)
