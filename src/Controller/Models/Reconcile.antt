-- ===== src/Controller/Models/Reconcile.antt =====
-- maasmodelref_controller.go: `Reconcile` of a model reference, its deletion and its status.
pub mod Ready
use models_as_a_service_mids.Prelude.{
  Text, codes, ◌==◌, List, [], ◌∷◌, ◌++◌, Option, none, some, Bool, true, false, ◌||◌, not, is_nil,
  Result, ok, err, if◌then◌else◌,
}
use models_as_a_service_mids.Controller.Types.{ClientError, missing, broken, error_text, model_key}
use models_as_a_service_mids.Controller.Run.{
  Run, pure, raise, observe, perform, wrap, attempt, ◌>>=◌, ◌>>◌, for_each,
}
use models_as_a_service_mids.Controller.Cluster.{
  Labels, StatusCondition, Policy, is_managed, PolicyListError, absent, list_failed,
}
use models_as_a_service_mids.Controller.Routes.{
  Backend, llmisvc, external, backend_of, router_labels,
}
use models_as_a_service_mids.Controller.Models.{
  ModelStatus, MaasModelRef, HttpRoute, Gateway, LlmService, find_gateway, is_gateway_accepted,
  is_llm_ready, https_url, gateway_host, endpoint_from_llm,
}
use models_as_a_service_mids.Controller.Models.Backends.{
  PolicyKind, auth_policy, token_rate_limit_policy, kind_name, ModelCall, delete_generated,
  update_model, update_model_status, ModelClient, RouteFailure, no_route, route_failed,
  cleanup_finalizer, with_status, reconcile_route, endpoint_of,
}

module _ {W : Type 0} (client : ModelClient W) where
  -- The status and the reason of the Ready condition.
  unfoldable pub ready_reason : (phase : Text) → Text × Text
  unfolding codes ◌==◌
  ready_reason phase =
      if phase == codes "Ready"
      then (codes "True", codes "Reconciled")
      else if phase == codes "Failed"
      then (codes "False", codes "ReconcileFailed")
      else (codes "False", codes "BackendNotReady")

  unfoldable pub with_model_phase : MaasModelRef → (phase message : Text) → MaasModelRef
  unfolding codes ready_reason
  with_model_phase model phase message = record model {
    status = record model.status {
      phase = phase;
      conditions = client.set_condition model.status.conditions (record {
        type_name = codes "Ready";
        status = (ready_reason phase).0;
        reason = (ready_reason phase).1;
        message = message;
        observed_generation = model.generation;
      });
    };
  }

  -- An error of the write is logged only.
  unfoldable pub send_model_status : MaasModelRef → Run W ModelCall Text (Unit {0})
  send_model_status written =
      attempt (perform (update_model_status written) (client.send_status written)) >> pure tt

  -- `updateStatus`
  unfoldable pub update_model_status_of :
      MaasModelRef
      → (phase message : Text) → (snapshot : ModelStatus) → Run W ModelCall Text (Unit {0})
  unfolding with_model_phase send_model_status
  update_model_status_of model phase message snapshot =
      let written = with_model_phase model phase message in
      if client.same_status snapshot written.status then pure tt else send_model_status written

  abbrev pub with_endpoint : MaasModelRef → Text → MaasModelRef
  with_endpoint model endpoint = record model {
    status = record model.status { endpoint = endpoint };
  }

  -- `Reconcile` from the outcome of `Status` on.
  unfoldable pub report_endpoint :
      MaasModelRef
      → (snapshot : ModelStatus) → Result Text (Option Text)
      → Run W ModelCall Text (Unit {0})
  unfolding codes update_model_status_of
  report_endpoint model snapshot (err e) =
      update_model_status_of (with_endpoint model []) (codes "Failed")
        (codes "Failed to update model status: " ++ e) snapshot
      >> raise e
  report_endpoint model snapshot (ok none) =
      update_model_status_of (with_endpoint model []) (codes "Pending")
        (codes "Waiting for backend to become ready") snapshot
  report_endpoint model snapshot (ok (some endpoint)) =
      let chosen = if is_nil model.endpoint_override then endpoint else model.endpoint_override in
      update_model_status_of (with_endpoint model chosen) (codes "Ready")
        (codes "Successfully reconciled") snapshot

  -- `Reconcile` from the outcome of `ReconcileRoute` on.
  unfoldable pub report_route :
      Backend
      → MaasModelRef
      → (snapshot : ModelStatus) → ModelStatus × Option RouteFailure
      → Run W ModelCall Text (Unit {0})
  unfolding codes update_model_status_of endpoint_of report_endpoint
  report_route backend model snapshot (status, some (no_route _)) =
      update_model_status_of (with_endpoint (with_status model status) []) (codes "Pending")
        (codes "Waiting for HTTPRoute to be created") snapshot
  report_route backend model snapshot (status, some (route_failed e)) =
      update_model_status_of (with_status model status) (codes "Failed")
        (codes "Failed to reconcile HTTPRoute: " ++ e) snapshot
      >> raise e
  report_route backend model snapshot (status, none) =
      attempt (endpoint_of client backend (with_status model status))
      >>= report_endpoint (with_status model status) snapshot

  unfoldable pub reconcile_backend : MaasModelRef → Option Backend → Run W ModelCall Text (Unit {0})
  unfolding codes update_model_status_of reconcile_route report_route
  reconcile_backend model none =
      update_model_status_of model (codes "Failed") (codes "unknown kind: " ++ model.kind)
        model.status
  reconcile_backend model (some backend) =
      reconcile_route client backend model >>= report_route backend model model.status

  unfoldable pub check_generated_deleted :
      PolicyKind → Policy → Result ClientError (Unit {0}) → Run W ModelCall Text (Unit {0})
  unfolding codes kind_name model_key
  check_generated_deleted kind p (ok _) = pure tt
  check_generated_deleted kind p (err (missing _)) = pure tt
  check_generated_deleted kind p (err (broken e)) = raise (
      codes "failed to delete "
      ++ (kind_name kind ++ (codes " " ++ (model_key p.namespace p.name ++ (codes ": " ++ e)))))

  unfoldable pub delete_generated_policy : PolicyKind → Policy → Run W ModelCall Text (Unit {0})
  unfolding check_generated_deleted
  delete_generated_policy kind p =
      if is_managed p
      then attempt (perform (delete_generated kind p) (client.send_delete kind p))
        >>= check_generated_deleted kind p
      else pure tt

  unfoldable pub delete_listed :
      PolicyKind
      → (model_name : Text) → Result PolicyListError (List Policy)
      → Run W ModelCall Text (Unit {0})
  unfolding codes kind_name delete_generated_policy
  delete_listed kind model_name (err absent) = pure tt
  delete_listed kind model_name (err (list_failed e)) = raise (
      codes "failed to list "
      ++ (kind_name kind ++ (codes " resources for model " ++ (model_name ++ (codes ": " ++ e)))))
  delete_listed kind model_name (ok policies) = for_each (delete_generated_policy kind) policies

  unfoldable pub generated_labels : Text → Labels
  unfolding codes
  generated_labels model_name =
      (codes "maas.opendatahub.io/model", model_name)
      ∷ (codes "app.kubernetes.io/managed-by", codes "maas-controller")
      ∷ []

  unfoldable pub delete_generated_policies_by_label :
      (model_namespace model_name : Text) → PolicyKind → Run W ModelCall Text (Unit {0})
  unfolding generated_labels delete_listed
  delete_generated_policies_by_label model_namespace model_name kind =
      attempt (observe (client.list_generated kind model_namespace (generated_labels model_name)))
      >>= delete_listed kind model_name

  unfoldable pub released_model : MaasModelRef → MaasModelRef
  unfolding cleanup_finalizer
  released_model model = record model {
    finalizers = client.remove_finalizer model.finalizers cleanup_finalizer;
  }

  unfoldable pub release_model : MaasModelRef → Run W ModelCall Text (Unit {0})
  unfolding released_model
  release_model model =
      perform (update_model (released_model model)) (client.send_model (released_model model))
      >> pure tt

  -- `handleDeletion`; the backends have nothing of their own to clean up.
  unfoldable pub handle_model_deletion : MaasModelRef → Run W ModelCall Text (Unit {0})
  unfolding cleanup_finalizer delete_generated_policies_by_label release_model
  handle_model_deletion model =
      let clean_up =
        delete_generated_policies_by_label model.namespace model.name auth_policy
        >> (delete_generated_policies_by_label model.namespace model.name token_rate_limit_policy
            >> release_model model) in
      if client.has_finalizer model.finalizers cleanup_finalizer then clean_up else pure tt

  unfoldable pub hold_model : MaasModelRef → Run W ModelCall Text MaasModelRef
  unfolding cleanup_finalizer
  hold_model model =
      let held = record model {
        finalizers = client.add_finalizer model.finalizers cleanup_finalizer;
      } in
      if client.has_finalizer model.finalizers cleanup_finalizer
      then pure model
      else perform (update_model held) (client.send_model held)

  unfoldable pub reconcile_held : MaasModelRef → Run W ModelCall Text (Unit {0})
  unfolding backend_of reconcile_backend
  reconcile_held model = reconcile_backend model (backend_of model.kind)

  unfoldable pub found_model : Result ClientError MaasModelRef → Run W ModelCall Text (Unit {0})
  unfolding handle_model_deletion hold_model reconcile_held
  found_model (err (missing _)) = pure tt
  found_model (err (broken e)) = raise e
  found_model (ok model) =
      let live = hold_model model >>= reconcile_held in
      if model.is_deleting then handle_model_deletion model else live

  unfoldable pub reconcile_model : (namespace name : Text) → Run W ModelCall Text (Unit {0})
  unfolding found_model
  reconcile_model namespace name =
      attempt (observe (client.get_model namespace name)) >>= found_model
