-- ===== src/Controller/Routes.antt =====
-- helpers.go and providers.go: the live subscriptions of a model, and the HTTPRoute of a model, by
-- the resolver of its kind (providers_llmisvc.go, providers_external.go).
pub mod Reads
use models_as_a_service_mids.Prelude.{
  Text, codes, ◌==◌, List, [], ◌∷◌, ◌++◌, filter, Option, none, some, Bool, true, false, ◌||◌, not,
  Result, ok, err, map_err, if◌then◌else◌,
}
use models_as_a_service_mids.Controller.Types.{ClientError, missing, broken, error_text, model_key}
use models_as_a_service_mids.Controller.Status.{
  RouteError, route_not_found, model_not_found, route_failure,
}
use models_as_a_service_mids.Controller.Run.{Run, pure, raise, observe, wrap, ◌>>=◌, ◌>>◌}
use models_as_a_service_mids.Controller.Cluster.{Labels, MaasSubscription, ModelRef, Call, Client}

-- The router's labels of an LLMInferenceService.
unfoldable pub router_labels : Text → Labels
unfolding codes
router_labels target =
    (codes "app.kubernetes.io/name", target)
    ∷ (codes "app.kubernetes.io/component", codes "llminferenceservice-router")
    ∷ (codes "app.kubernetes.io/part-of", codes "llminferenceservice")
    ∷ []

-- `namespace/name`, as the messages print it
abbrev pub shown : Text → Text → Text
unfolding model_key
shown namespace name = model_key namespace name

-- The kinds of `backendHandlerFactories` and of `routeResolverFactories`.
pub data Backend : Type 0 where
  llmisvc external : Backend

unfoldable pub backend_of : Text → Option Backend
unfolding codes
backend_of kind =
    if kind == codes "LLMInferenceService" || kind == codes "llmisvc"
    then some llmisvc
    else if kind == codes "ExternalModel"
    then some external
    else none

module _ {W R : Type 0} (client : Client W R) where
  unfoldable pub find_all_subscriptions_for_model :
      (model_namespace model_name : Text) → Run W Call Text (List MaasSubscription)
  unfolding codes model_key
  find_all_subscriptions_for_model model_namespace model_name = do
    let key = model_key model_namespace model_name
    all_subs ←
        wrap
          (λ e. codes "failed to list MaaSSubscriptions for model " ++ (key ++ (codes ": " ++ e)))
          (observe (client.list_subscriptions key))
    pure (filter (λ (s : MaasSubscription). not s.is_deleting) all_subs)

  unfoldable pub first_route : ModelRef → List (Text × Text) → Run W Call RouteError (Text × Text)
  unfolding codes
  first_route model [] = raise (
      route_not_found (
        codes "HTTPRoute not found yet: for LLMInferenceService "
        ++ (model.target ++ (codes " in namespace " ++ model.namespace))))
  first_route model (route ∷ routes) = pure route

  unfoldable pub route_of_llmisvc : ModelRef → Run W Call RouteError (Text × Text)
  unfolding codes router_labels first_route
  route_of_llmisvc model =
      wrap
        (λ e. route_failure (
          codes "failed to list HTTPRoutes for LLMInferenceService "
          ++ (model.target ++ (codes ": " ++ e))))
        (observe (client.list_routes model.namespace (router_labels model.target)))
      >>= first_route model

  unfoldable pub route_for_model : Backend → ModelRef → Run W Call RouteError (Text × Text)
  unfolding route_of_llmisvc
  route_for_model llmisvc model = route_of_llmisvc model
  route_for_model external model = pure (model.target, model.namespace)

  abbrev pub model_error : Text → Text → ClientError → RouteError
  unfolding codes
  model_error namespace name (missing _) =
      model_not_found (codes "MaaSModelRef not found: " ++ shown namespace name)
  model_error namespace name (broken e) =
      route_failure
        (codes "failed to get MaaSModelRef " ++ (shown namespace name ++ (codes ": " ++ e)))

  abbrev pub http_route_error : Text → Text → ClientError → RouteError
  unfolding codes
  http_route_error name namespace (missing _) =
      route_not_found (codes "HTTPRoute not found yet: HTTPRoute " ++ shown namespace name)
  http_route_error name namespace (broken e) =
      route_failure
        (codes "failed to get HTTPRoute " ++ (shown namespace name ++ (codes ": " ++ e)))

  unfoldable pub get_http_route : (name namespace : Text) → Run W Call RouteError R
  get_http_route name namespace =
      wrap (http_route_error name namespace) (observe (client.get_route namespace name))

  -- The route that the resolver names, once it is known to exist.
  unfoldable pub existing_route : Text × Text → Run W Call RouteError (Text × Text)
  unfolding get_http_route
  existing_route (name, namespace) = do get_http_route name namespace; pure (name, namespace)

  unfoldable pub by_backend : ModelRef → Option Backend → Run W Call RouteError (Text × Text)
  unfolding codes route_for_model existing_route
  by_backend model none = raise (route_failure (codes "unknown model kind: " ++ model.kind))
  by_backend model (some backend) = route_for_model backend model >>= existing_route

  -- What is left of `findHTTPRouteForModel` once the model is read.
  unfoldable pub route_of_model :
      (model_namespace model_name : Text) → ModelRef → Run W Call RouteError (Text × Text)
  unfolding codes backend_of by_backend
  route_of_model model_namespace model_name model =
      if model.is_deleting
      then raise (
          model_not_found (
            codes "MaaSModelRef not found: "
            ++ (shown model_namespace model_name ++ codes " (deleting)")))
      else by_backend model (backend_of model.kind)

  unfoldable pub find_http_route_for_model :
      (model_namespace model_name : Text) → Run W Call RouteError (Text × Text)
  unfolding route_of_model
  find_http_route_for_model model_namespace model_name =
      wrap (model_error model_namespace model_name)
        (observe (client.get_model model_namespace model_name))
      >>= route_of_model model_namespace model_name
