-- ===== src/Controller/Routes/Reads.antt =====
-- Finding the subscriptions and the route of a model changes nothing of the cluster.
use models_as_a_service_mids.Prelude.{Text, List, [], ◌∷◌, Option, none, some, refl}
use models_as_a_service_mids.Controller.Run.Logs.{
  Calls, Calls-pure, Calls-raise, Calls-observe, Calls-wrap, Calls-bind, Calls-if, Calls-quiet,
}
use models_as_a_service_mids.Controller.Cluster.{ModelRef, Call, Client}
use models_as_a_service_mids.Controller.Routes.{
  Backend, llmisvc, external, backend_of, find_all_subscriptions_for_model, first_route,
  route_of_llmisvc, route_for_model, get_http_route, existing_route, by_backend, route_of_model,
  find_http_route_for_model,
}

module _ {W R : Type 0} (client : Client W R) (P : Call → Type 0) where
  pub find_all_subscriptions_for_model-Calls :
      (namespace name : Text) → Calls P (find_all_subscriptions_for_model client namespace name)
  unfolding find_all_subscriptions_for_model
  find_all_subscriptions_for_model-Calls namespace name =
      Calls-bind _ _ _ (Calls-wrap _ _ _ (Calls-observe _ (client.list_subscriptions _)))
        (λ subs. Calls-pure _ _)

  first_route-Calls :
      (model : ModelRef) (routes : List (Text × Text)) → Calls P (first_route client model routes)
  unfolding first_route
  first_route-Calls model [] = Calls-raise _ _
  first_route-Calls model (route ∷ routes) = Calls-pure _ _

  route_for_model-Calls :
      (backend : Backend) (model : ModelRef) → Calls P (route_for_model client backend model)
  unfolding route_for_model route_of_llmisvc
  route_for_model-Calls llmisvc model =
      Calls-bind _ _ _ (Calls-wrap _ _ _ (Calls-observe _ (client.list_routes _ _)))
        (first_route-Calls model)
  route_for_model-Calls external model = Calls-pure _ _

  existing_route-Calls : (route : Text × Text) → Calls P (existing_route client route)
  unfolding existing_route get_http_route
  existing_route-Calls (name, namespace) =
      Calls-bind _ _ _ (Calls-wrap _ _ _ (Calls-observe _ (client.get_route _ _)))
        (λ r. Calls-pure _ _)

  by_backend-Calls : (model : ModelRef) (o : Option Backend) → Calls P (by_backend client model o)
  unfolding by_backend
  by_backend-Calls model none = Calls-raise _ _
  by_backend-Calls model (some backend) =
      Calls-bind _ _ _ (route_for_model-Calls backend model) existing_route-Calls

  route_of_model-Calls :
      (namespace name : Text) (model : ModelRef)
      → Calls P (route_of_model client namespace name model)
  unfolding route_of_model
  route_of_model-Calls namespace name model =
      Calls-if _ model.is_deleting _ _ (λ gone. Calls-quiet _ _ (λ w. refl))
        (λ live. by_backend-Calls model (backend_of model.kind))

  pub find_http_route_for_model-Calls :
      (namespace name : Text) → Calls P (find_http_route_for_model client namespace name)
  unfolding find_http_route_for_model
  find_http_route_for_model-Calls namespace name =
      Calls-bind _ _ _ (Calls-wrap _ _ _ (Calls-observe _ (client.get_model _ _)))
        (route_of_model-Calls namespace name)
