-- ===== src/Controller/Models/Backends.antt =====
-- providers_llmisvc.go and providers_external.go: `ReconcileRoute`, `Status` and `GetModelEndpoint`
-- of the two kinds, and the calls of the cluster that the reconciler of model references makes.
pub mod Known
use models_as_a_service_mids.Prelude.{
  Text, codes, ◌==◌, List, [], ◌∷◌, ◌++◌, Option, none, some, Bool, true, false, ◌||◌, not, is_nil,
  Result, ok, err, if◌then◌else◌,
}
use models_as_a_service_mids.Controller.Types.{ClientError, missing, broken, error_text, model_key}
use models_as_a_service_mids.Controller.Run.{
  Run, pure, raise, observe, perform, wrap, attempt, ◌>>=◌, ◌>>◌, for_each,
}
use models_as_a_service_mids.Controller.Cluster.{
  Labels, StatusCondition, Policy, is_managed, PolicyListError, absent, list_failed,
}
use models_as_a_service_mids.Controller.Routes.{
  Backend, llmisvc, external, backend_of, router_labels,
}
use models_as_a_service_mids.Controller.Models.{
  ModelStatus, MaasModelRef, HttpRoute, Gateway, LlmService, find_gateway, is_gateway_accepted,
  is_llm_ready, https_url, gateway_host, endpoint_from_llm,
}

-- The kinds of generated policies.
pub data PolicyKind : Type 0 where
  auth_policy token_rate_limit_policy : PolicyKind

unfoldable pub kind_name : PolicyKind → Text
unfolding codes
kind_name auth_policy = codes "AuthPolicy"
kind_name token_rate_limit_policy = codes "TokenRateLimitPolicy"

-- The calls that change the cluster.
pub data ModelCall : Type 0 where
  delete_generated : PolicyKind → Policy → ModelCall
  update_model update_model_status : MaasModelRef → ModelCall

-- The calls of the API for model references, and the configured gateway.
pub record ModelClient (W : Type 0) : Type 0 where
  pub gateway_name : Text
  pub gateway_namespace : Text
  pub get_model : (namespace name : Text) → W → Result ClientError MaasModelRef × W
  pub list_routes : (namespace : Text) → Labels → W → Result Text (List HttpRoute) × W
  pub get_route : (namespace name : Text) → W → Result ClientError HttpRoute × W
  pub get_external_model : (namespace name : Text) → W → Result ClientError (Unit {0}) × W
  pub get_llm_service : (namespace name : Text) → W → Result ClientError LlmService × W
  pub get_gateway : (namespace name : Text) → W → Result ClientError Gateway × W
  pub list_generated :
      PolicyKind → (namespace : Text) → Labels → W → Result PolicyListError (List Policy) × W
  pub send_delete : PolicyKind → Policy → W → Result ClientError (Unit {0}) × W
  pub send_model : MaasModelRef → W → Result Text MaasModelRef × W
  pub send_status : MaasModelRef → W → Result Text (Unit {0}) × W
  pub same_status : ModelStatus → ModelStatus → Bool
  pub set_condition : List StatusCondition → StatusCondition → List StatusCondition
  pub has_finalizer : List Text → Text → Bool
  pub add_finalizer : List Text → Text → List Text
  pub remove_finalizer : List Text → Text → List Text

-- How ReconcileRoute failed: ErrHTTPRouteNotFound, or another error. No handler returns
-- ErrKindNotImplemented.
pub data RouteFailure : Type 0 where
  no_route : Text → RouteFailure
  route_failed : Text → RouteFailure

unfoldable pub cleanup_finalizer : Text
unfolding codes
cleanup_finalizer = codes "maas.opendatahub.io/model-cleanup"

abbrev pub with_status : MaasModelRef → ModelStatus → MaasModelRef
with_status model status = record model { status = status }

-- The message about a route that does not refer to the gateway.
unfoldable pub wrong_gateway : Backend → (route expected found : Text) → Text
unfolding codes
wrong_gateway llmisvc route expected found =
    codes "HTTPRoute "
    ++ (route
        ++ (codes " does not reference gateway (expected: "
            ++ (expected
                ++ (codes ", found: "
                    ++ (found
                        ++ (codes "). The LLMInferenceService must be configured to use "
                            ++ expected))))))
wrong_gateway external route expected found =
    codes "HTTPRoute "
    ++ (route
        ++ (codes " does not reference gateway "
            ++ (expected ++ (codes " (found: " ++ (found ++ codes ")")))))

module _ {W : Type 0} (client : ModelClient W) where
  -- The status that a route gives, and the error if the gateway is not among its parents.
  unfoldable pub llm_route_status : MaasModelRef → HttpRoute → ModelStatus × Option RouteFailure
  unfolding find_gateway wrong_gateway model_key
  llm_route_status model route =
      let (found, name, namespace) =
        find_gateway client.gateway_name client.gateway_namespace model.namespace
          route.parent_refs in
      (
        record model.status {
          route_name = route.name;
          route_namespace = model.namespace;
          gateway_name = name;
          gateway_namespace = namespace;
          hostnames = route.hostnames;
        },
        if found
            then none
            else some (
                route_failed (
                  wrong_gateway llmisvc (model_key model.namespace route.name)
                    (model_key client.gateway_namespace client.gateway_name)
                    (model_key namespace name))),
      )

  unfoldable pub first_llm_route : MaasModelRef → List HttpRoute → ModelStatus × Option RouteFailure
  unfolding codes llm_route_status
  first_llm_route model [] = (
    model.status,
    some (
        no_route (
          codes "HTTPRoute not found yet: for LLMInferenceService "
          ++ (model.target ++ (codes " in namespace " ++ model.namespace)))),
  )
  first_llm_route model (route ∷ _) = llm_route_status model route

  -- `validateLLMISvcHTTPRoute`
  unfoldable pub llm_route :
      MaasModelRef → Result Text (List HttpRoute) → ModelStatus × Option RouteFailure
  unfolding codes first_llm_route
  llm_route model (err e) = (
    model.status,
    some (
        route_failed (
          codes "failed to list HTTPRoutes for LLMInferenceService "
          ++ (model.target ++ (codes ": " ++ e)))),
  )
  llm_route model (ok routes) = first_llm_route model routes

  unfoldable pub without_route_status : ModelStatus → ModelStatus
  without_route_status s = record s {
    endpoint = [];
    route_name = [];
    route_namespace = [];
    gateway_name = [];
    gateway_namespace = [];
    hostnames = [];
  }

  -- A route of an external model.
  unfoldable pub external_route_status :
      MaasModelRef → HttpRoute → ModelStatus × Option RouteFailure
  unfolding find_gateway is_gateway_accepted wrong_gateway model_key
  external_route_status model route =
      let (found, name, namespace) =
        find_gateway client.gateway_name client.gateway_namespace model.namespace
          route.parent_refs in
      let accepted =
        is_gateway_accepted client.gateway_name client.gateway_namespace model.namespace
          route.parents in
      let named = record model.status {
        route_name = model.target;
        route_namespace = model.namespace;
      } in
      let full = record named {
        gateway_name = name;
        gateway_namespace = namespace;
        hostnames = route.hostnames;
      } in
      if not found
      then (
        model.status,
        some (
            route_failed (
              wrong_gateway external (model_key model.namespace model.target)
                (model_key client.gateway_namespace client.gateway_name)
                (model_key namespace name))),
      )
      else if accepted
      then (full, none)
      else (named, none)

  unfoldable pub external_route :
      MaasModelRef → Result ClientError HttpRoute → ModelStatus × Option RouteFailure
  unfolding codes external_route_status without_route_status model_key
  external_route model (err (missing _)) = (without_route_status model.status, none)
  external_route model (err (broken e)) = (
    model.status,
    some (
        route_failed (
          codes "failed to get HTTPRoute "
          ++ (model_key model.namespace model.target ++ (codes ": " ++ e)))),
  )
  external_route model (ok route) = external_route_status model route

  unfoldable pub external_routed :
      MaasModelRef
      → Result ClientError HttpRoute
      → Run W ModelCall Text (ModelStatus × Option RouteFailure)
  unfolding external_route
  external_routed model r = pure (external_route model r)

  unfoldable pub llm_routed :
      MaasModelRef
      → Result Text (List HttpRoute)
      → Run W ModelCall Text (ModelStatus × Option RouteFailure)
  unfolding llm_route
  llm_routed model r = pure (llm_route model r)

  -- The external model, before its route.
  unfoldable pub check_external :
      MaasModelRef
      → Result ClientError (Unit {0})
      → Run W ModelCall Text (ModelStatus × Option RouteFailure)
  unfolding codes external_routed
  check_external model (err (missing _)) = pure (
    model.status,
    some (
        route_failed (
          codes "ExternalModel "
          ++ (model.target ++ (codes " not found in namespace " ++ model.namespace)))),
  )
  check_external model (err (broken e)) = pure (
    model.status,
    some (
        route_failed (codes "failed to get ExternalModel " ++ (model.target ++ (codes ": " ++ e)))),
  )
  check_external model (ok _) =
      attempt (observe (client.get_route model.namespace model.target)) >>= external_routed model

  -- `ReconcileRoute`, with the status that it leaves behind.
  unfoldable pub reconcile_route :
      Backend → MaasModelRef → Run W ModelCall Text (ModelStatus × Option RouteFailure)
  unfolding llm_routed check_external router_labels
  reconcile_route llmisvc model =
      attempt (observe (client.list_routes model.namespace (router_labels model.target)))
      >>= llm_routed model
  reconcile_route external model =
      attempt (observe (client.get_external_model model.namespace model.target))
      >>= check_external model

  -- The last part of the path of an endpoint.
  unfoldable pub endpoint_path : Backend → MaasModelRef → Text
  unfolding model_key
  endpoint_path llmisvc model = model.name
  endpoint_path external model = model_key model.namespace model.target

  unfoldable pub endpoint_at_host : Backend → MaasModelRef → Option Text → Run W ModelCall Text Text
  unfolding codes endpoint_path https_url model_key
  endpoint_at_host backend model none = raise (
      codes "unable to determine endpoint: gateway "
      ++ (model_key client.gateway_namespace client.gateway_name
          ++ codes " has no hostname or addresses"))
  endpoint_at_host backend model (some host) = pure (https_url host (endpoint_path backend model))

  unfoldable pub endpoint_at :
      Backend → MaasModelRef → Result ClientError Gateway → Run W ModelCall Text Text
  unfolding codes endpoint_at_host gateway_host model_key
  endpoint_at backend model (err e) = raise (
      codes "failed to get gateway "
      ++ (model_key client.gateway_namespace client.gateway_name ++ (codes ": " ++ error_text e)))
  endpoint_at backend model (ok gateway) = endpoint_at_host backend model (gateway_host gateway)

  -- `GetModelEndpoint`
  unfoldable pub get_model_endpoint : Backend → MaasModelRef → List Text → Run W ModelCall Text Text
  unfolding endpoint_path https_url endpoint_at
  get_model_endpoint backend model (hostname ∷ _) =
      pure (https_url hostname (endpoint_path backend model))
  get_model_endpoint backend model [] =
      attempt (observe (client.get_gateway client.gateway_namespace client.gateway_name))
      >>= endpoint_at backend model

  abbrev pub known_endpoint : Text → Run W ModelCall Text (Option Text)
  known_endpoint e = pure (some e)

  -- The endpoint of a model that is ready, and none of one that is not.
  unfoldable pub llm_endpoint :
      MaasModelRef → Result ClientError LlmService → Run W ModelCall Text (Option Text)
  unfolding codes is_llm_ready endpoint_from_llm get_model_endpoint
  llm_endpoint model (err (missing _)) = raise (
      codes "LLMInferenceService "
      ++ (model.target ++ (codes " not found in namespace " ++ model.namespace)))
  llm_endpoint model (err (broken e)) = raise e
  llm_endpoint model (ok service) =
      let known = endpoint_from_llm service in
      if not (is_llm_ready service)
      then pure none
      else if is_nil known
      then get_model_endpoint llmisvc model model.status.hostnames >>= known_endpoint
      else pure (some known)

  -- `Status` of the handlers
  unfoldable pub endpoint_of : Backend → MaasModelRef → Run W ModelCall Text (Option Text)
  unfolding llm_endpoint get_model_endpoint
  endpoint_of llmisvc model =
      attempt (observe (client.get_llm_service model.namespace model.target)) >>= llm_endpoint model
  endpoint_of external model =
      if is_nil model.status.route_name || is_nil model.status.gateway_name
      then pure none
      else get_model_endpoint external model model.status.hostnames >>= known_endpoint
