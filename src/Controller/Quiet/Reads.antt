-- ===== src/Controller/Quiet/Reads.antt =====
-- Finding the route of a model leaves a cluster as it is that its reads leave as it is.
use models_as_a_service_mids.Prelude.{Text, List, [], ◌∷◌, Option, none, some, ◌≡◌, refl}
use models_as_a_service_mids.Controller.Cluster.{Labels, ModelRef, Client}
use models_as_a_service_mids.Controller.Quiet.{
  Stays, Stays-quiet, Stays-observe, Stays-wrap, Stays-if, Stays-bind,
}
use models_as_a_service_mids.Controller.Routes.{
  Backend, llmisvc, external, backend_of, first_route, route_of_llmisvc, route_for_model,
  get_http_route, existing_route, by_backend, route_of_model, find_http_route_for_model,
}

-- Reading the world does not change it.
pub record IsQuiet {W R : Type 0} (client : Client W R) (w : W) : Type 0 where
  pub models : (namespace name : Text) → (client.get_model namespace name w).1 ≡ w
  pub routes : (namespace name : Text) → (client.get_route namespace name w).1 ≡ w
  pub lists : (namespace : Text) (labels : Labels) → (client.list_routes namespace labels w).1 ≡ w
  pub policies : (namespace name : Text) → (client.get_policy namespace name w).1 ≡ w

module _ {W R : Type 0} (client : Client W R) (w : W) (quiet : IsQuiet client w) where
  first_route-Stays :
      (model : ModelRef) (routes : List (Text × Text)) → Stays w (first_route client model routes)
  unfolding first_route
  first_route-Stays model [] = Stays-quiet w _ refl refl
  first_route-Stays model (route ∷ routes) = Stays-quiet w _ refl refl

  route_for_model-Stays :
      (backend : Backend) (model : ModelRef) → Stays w (route_for_model client backend model)
  unfolding route_for_model route_of_llmisvc
  route_for_model-Stays llmisvc model =
      Stays-bind w _ _
        (Stays-wrap w _ _ (Stays-observe w (client.list_routes _ _) (quiet.lists _ _)))
        (first_route-Stays model)
  route_for_model-Stays external model = Stays-quiet w _ refl refl

  existing_route-Stays : (route : Text × Text) → Stays w (existing_route client route)
  unfolding existing_route get_http_route
  existing_route-Stays (name, namespace) =
      Stays-bind w _ _
        (Stays-wrap w _ _ (Stays-observe w (client.get_route _ _) (quiet.routes _ _)))
        (λ r. Stays-quiet w _ refl refl)

  by_backend-Stays : (model : ModelRef) (o : Option Backend) → Stays w (by_backend client model o)
  unfolding by_backend
  by_backend-Stays model none = Stays-quiet w _ refl refl
  by_backend-Stays model (some backend) =
      Stays-bind w _ _ (route_for_model-Stays backend model) existing_route-Stays

  route_of_model-Stays :
      (namespace name : Text) (model : ModelRef)
      → Stays w (route_of_model client namespace name model)
  unfolding route_of_model
  route_of_model-Stays namespace name model =
      Stays-if w model.is_deleting _ _ (Stays-quiet w _ refl refl)
        (by_backend-Stays model (backend_of model.kind))

  pub find_http_route_for_model-Stays :
      (namespace name : Text) → Stays w (find_http_route_for_model client namespace name)
  unfolding find_http_route_for_model
  find_http_route_for_model-Stays namespace name =
      Stays-bind w _ _
        (Stays-wrap w _ _ (Stays-observe w (client.get_model _ _) (quiet.models _ _)))
        (route_of_model-Stays namespace name)
