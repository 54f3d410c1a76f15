-- ===== src/Controller/Models/Reconcile/Ready.antt =====
-- What the reconciler of model references writes and deletes.
use models_as_a_service_mids.Prelude.{
  Text, codes, ◌≡◌, ◌≢◌, List, [], ◌∷◌, Option, none, some, is_nil, Result, ok, err, arith,
  if◌then◌else◌,
}
use models_as_a_service_mids.Controller.Types.{ClientError, missing, broken}
use models_as_a_service_mids.Controller.Run.Logs.{
  Calls, Calls-pure, Calls-raise, Calls-observe, Calls-perform, Calls-attempt, Calls-bind,
  Calls-for_each, Calls-if, Calls-attempt_of,
}
use models_as_a_service_mids.Controller.Cluster.{
  Policy, is_managed, PolicyListError, absent, list_failed,
}
use models_as_a_service_mids.Controller.Routes.{Backend, backend_of}
use models_as_a_service_mids.Controller.Models.{ModelStatus, MaasModelRef}
use models_as_a_service_mids.Controller.Models.Backends.{
  PolicyKind, auth_policy, token_rate_limit_policy, delete_generated, update_model,
  update_model_status, ModelClient, RouteFailure, no_route, route_failed, with_status, endpoint_of,
  cleanup_finalizer,
}
use models_as_a_service_mids.Controller.Models.Reconcile.{
  with_model_phase, send_model_status, update_model_status_of, with_endpoint, report_endpoint,
  report_route, reconcile_backend, check_generated_deleted, delete_generated_policy, delete_listed,
  delete_generated_policies_by_label, released_model, release_model, handle_model_deletion,
  hold_model, reconcile_held, found_model, reconcile_model,
}
use models_as_a_service_mids.Controller.Models.Backends.Known.{
  IsSound, IsKnown, endpoint_of-Gives, endpoint_of-Calls, reconcile_route-Calls,
}

failed_text : codes "Failed" ≢ codes "Ready"
unfolding codes
failed_text e = absurd (ground (arith, e))

pending_text : codes "Pending" ≢ codes "Ready"
unfolding codes
pending_text e = absurd (ground (arith, e))

module _ {W : Type 0} (client : ModelClient W) where
  send_model_status-IsSound :
      (model : MaasModelRef)
      → IsSound (update_model_status model)
      → Calls IsSound (send_model_status client model)
  unfolding send_model_status
  send_model_status-IsSound model h =
      Calls-bind _ _ _
        (Calls-attempt _ _
          (Calls-perform _ (update_model_status model) (client.send_status model) h))
        (λ _. Calls-pure _ _)

  update-IsSound :
      (model : MaasModelRef) (phase message : Text) (snapshot : ModelStatus)
      → (phase ≡ codes "Ready" → model.status.endpoint ≢ [])
      → Calls IsSound (update_model_status_of client model phase message snapshot)
  unfolding update_model_status_of with_model_phase IsSound
  update-IsSound model phase message snapshot h =
      Calls-if _ (client.same_status snapshot (with_model_phase client model phase message).status)
        _ _ (λ same. Calls-pure _ _)
        (λ other. send_model_status-IsSound (with_model_phase client model phase message) h)

  chosen-ne :
      (override endpoint : Text)
      → endpoint ≢ []
      → (if is_nil override then endpoint else override) ≢ []
  chosen-ne [] endpoint h = h
  chosen-ne (c ∷ t) endpoint h = λ e. absurd (ground (arith, e))

  report_endpoint-known :
      (model : MaasModelRef) (snapshot : ModelStatus) (o : Option Text)
      → IsKnown o
      → Calls IsSound (report_endpoint client model snapshot (ok o))
  unfolding report_endpoint IsKnown
  report_endpoint-known model snapshot none h =
      update-IsSound (with_endpoint client model []) (codes "Pending") _ snapshot
        (λ e. absurd (pending_text e))
  report_endpoint-known model snapshot (some endpoint) h =
      update-IsSound
        (with_endpoint client model
          (if is_nil model.endpoint_override then endpoint else model.endpoint_override))
        (codes "Ready") _ snapshot (λ _. chosen-ne model.endpoint_override endpoint h)

  report_endpoint-failed :
      (model : MaasModelRef) (snapshot : ModelStatus) (e : Text)
      → Calls IsSound (report_endpoint client model snapshot (err e))
  unfolding report_endpoint
  report_endpoint-failed model snapshot e =
      Calls-bind _ _ _
        (update-IsSound (with_endpoint client model []) (codes "Failed") _ snapshot
          (λ z. absurd (failed_text z)))
        (λ _. Calls-raise _ _)

  report_route-IsSound :
      (backend : Backend) (model : MaasModelRef) (snapshot : ModelStatus)
      (outcome : ModelStatus × Option RouteFailure)
      → Calls IsSound (report_route client backend model snapshot outcome)
  unfolding report_route
  report_route-IsSound backend model snapshot (status, some (no_route t)) =
      update-IsSound (with_endpoint client (with_status model status) []) (codes "Pending") _
        snapshot (λ e. absurd (pending_text e))
  report_route-IsSound backend model snapshot (status, some (route_failed t)) =
      Calls-bind _ _ _
        (update-IsSound (with_status model status) (codes "Failed") _ snapshot
          (λ e. absurd (failed_text e)))
        (λ _. Calls-raise _ _)
  report_route-IsSound backend model snapshot (status, none) =
      Calls-attempt_of _ IsKnown (endpoint_of client backend (with_status model status))
        (report_endpoint client (with_status model status) snapshot)
        (endpoint_of-Calls client backend (with_status model status))
        (endpoint_of-Gives client backend (with_status model status))
        (report_endpoint-known (with_status model status) snapshot)
        (report_endpoint-failed (with_status model status) snapshot)

  reconcile_backend-IsSound :
      (model : MaasModelRef) (o : Option Backend) → Calls IsSound (reconcile_backend client model o)
  unfolding reconcile_backend
  reconcile_backend-IsSound model none =
      update-IsSound model (codes "Failed") _ _ (λ e. absurd (failed_text e))
  reconcile_backend-IsSound model (some backend) =
      Calls-bind _ _ _ (reconcile_route-Calls client backend model)
        (report_route-IsSound backend model model.status)

  check_generated_deleted-Calls :
      (kind : PolicyKind) (p : Policy) (r : Result ClientError (Unit {0}))
      → Calls IsSound (check_generated_deleted client kind p r)
  unfolding check_generated_deleted
  check_generated_deleted-Calls kind p (ok u) = Calls-pure _ _
  check_generated_deleted-Calls kind p (err (missing e)) = Calls-pure _ _
  check_generated_deleted-Calls kind p (err (broken e)) = Calls-raise _ _

  delete_listed-IsSound :
      (kind : PolicyKind) (name : Text) (r : Result PolicyListError (List Policy))
      → Calls IsSound (delete_listed client kind name r)
  unfolding delete_listed delete_generated_policy IsSound
  delete_listed-IsSound kind name (err absent) = Calls-pure _ _
  delete_listed-IsSound kind name (err (list_failed e)) = Calls-raise _ _
  delete_listed-IsSound kind name (ok policies) =
      Calls-for_each _ (delete_generated_policy client kind) policies (λ p _.
        Calls-if _ (is_managed p) _ _
          (λ managed.
            Calls-bind _ _ _
              (Calls-attempt _ _
                (Calls-perform _ (delete_generated kind p) (client.send_delete kind p) managed))
              (check_generated_deleted-Calls kind p))
          (λ opted_out. Calls-pure _ _))

  delete_by_label-IsSound :
      (namespace name : Text) (kind : PolicyKind)
      → Calls IsSound (delete_generated_policies_by_label client namespace name kind)
  unfolding delete_generated_policies_by_label
  delete_by_label-IsSound namespace name kind =
      Calls-bind _ _ _
        (Calls-attempt _ _ (Calls-observe _ (client.list_generated kind namespace _)))
        (delete_listed-IsSound kind name)

  release_model-IsSound : (model : MaasModelRef) → Calls IsSound (release_model client model)
  unfolding release_model IsSound
  release_model-IsSound model =
      Calls-bind _ _ _
        (Calls-perform _ (update_model (released_model client model))
          (client.send_model (released_model client model)) tt)
        (λ _. Calls-pure _ _)

  handle_model_deletion-IsSound :
      (model : MaasModelRef) → Calls IsSound (handle_model_deletion client model)
  unfolding handle_model_deletion
  handle_model_deletion-IsSound model =
      Calls-if _ (client.has_finalizer model.finalizers cleanup_finalizer) _ _
        (λ _.
          Calls-bind _ _ _ (delete_by_label-IsSound model.namespace model.name auth_policy) (λ _.
            Calls-bind _ _ _
              (delete_by_label-IsSound model.namespace model.name token_rate_limit_policy)
              (λ _. release_model-IsSound model)))
        (λ _. Calls-pure _ _)

  hold_model-IsSound : (model : MaasModelRef) → Calls IsSound (hold_model client model)
  unfolding hold_model IsSound
  hold_model-IsSound model =
      Calls-if _ (client.has_finalizer model.finalizers cleanup_finalizer) _ _ (λ _. Calls-pure _ _)
        (λ _. Calls-perform _ _ (client.send_model _) tt)

  found_model-IsSound : (r : Result ClientError MaasModelRef) → Calls IsSound (found_model client r)
  unfolding found_model reconcile_held
  found_model-IsSound (err (missing e)) = Calls-pure _ _
  found_model-IsSound (err (broken e)) = Calls-raise _ _
  found_model-IsSound (ok model) =
      Calls-if _ model.is_deleting _ _ (λ gone. handle_model_deletion-IsSound model)
        (λ live.
          Calls-bind _ _ _ (hold_model-IsSound model)
            (λ m. reconcile_backend-IsSound m (backend_of m.kind)))

  -- Whatever the cluster answers, a reconciliation of a model reference deletes no generated policy
  -- whose annotation `opendatahub.io/managed` is "false", and writes the phase Ready only together
  -- with an endpoint that is not empty.
  pub reconcile_model-IsSound :
      (namespace name : Text) → Calls IsSound (reconcile_model client namespace name)
  unfolding reconcile_model
  reconcile_model-IsSound namespace name =
      Calls-bind _ _ _ (Calls-attempt _ _ (Calls-observe _ (client.get_model namespace name)))
        found_model-IsSound
