-- ===== src/Controller/Models/Backends/Known.antt =====
-- The endpoint that a backend reports is not empty, and reading it changes nothing.
use models_as_a_service_mids.Prelude.{
  Text, codes, ◌≡◌, ◌≢◌, refl, List, [], ◌∷◌, Option, none, some, true, false, ◌||◌, not, is_nil,
  is_nil_iff, Result, ok, err, arith,
}
use models_as_a_service_mids.Controller.Types.{ClientError, missing, broken}
use models_as_a_service_mids.Controller.Run.{observe, attempt}
use models_as_a_service_mids.Controller.Run.Logs.{
  Calls, Calls-pure, Calls-raise, Calls-observe, Calls-attempt, Calls-bind, Calls-if, Calls-quiet,
  Gives, Gives-pure, Gives-raise, Gives-bind, Gives-if, Gives-any,
}
use models_as_a_service_mids.Controller.Cluster.{is_managed}
use models_as_a_service_mids.Controller.Routes.{Backend, llmisvc, external}
use models_as_a_service_mids.Controller.Models.{
  MaasModelRef, Gateway, LlmService, https_url, gateway_host, endpoint_from_llm, is_llm_ready,
}
use models_as_a_service_mids.Controller.Models.Backends.{
  ModelCall, delete_generated, update_model, update_model_status, ModelClient, check_external,
  external_routed, llm_routed, reconcile_route, endpoint_path, endpoint_at_host, endpoint_at,
  get_model_endpoint, llm_endpoint, endpoint_of,
}

-- A deleted policy is not opted out, and a model reference that is reported Ready has an endpoint.
unfoldable pub IsSound : ModelCall → Type 0
IsSound (delete_generated kind p) = is_managed p ≡ true
IsSound (update_model model) = Unit {0}
IsSound (update_model_status model) =
    model.status.phase ≡ codes "Ready" → model.status.endpoint ≢ []

unfoldable pub IsKnown : Option Text → Type 0
IsKnown none = Unit {0}
IsKnown (some endpoint) = endpoint ≢ []

https_url-ne : (host path : Text) → https_url host path ≢ []
unfolding https_url codes
https_url-ne host path e = absurd (ground (arith, e))

is_nil-false : (t : Text) → is_nil t ≡ false → t ≢ []
is_nil-false t h e = absurd (ground (arith, (is_nil_iff t).1 e))

module _ {W : Type 0} (client : ModelClient W) where
  endpoint_at_host-Gives :
      (backend : Backend) (model : MaasModelRef) (o : Option Text)
      → Gives (λ e. e ≢ []) (endpoint_at_host client backend model o)
  unfolding endpoint_at_host
  endpoint_at_host-Gives backend model none = Gives-raise _ _
  endpoint_at_host-Gives backend model (some host) =
      Gives-pure _ _ (https_url-ne host (endpoint_path client backend model))

  endpoint_at-Gives :
      (backend : Backend) (model : MaasModelRef) (r : Result ClientError Gateway)
      → Gives (λ e. e ≢ []) (endpoint_at client backend model r)
  unfolding endpoint_at
  endpoint_at-Gives backend model (err e) = Gives-raise _ _
  endpoint_at-Gives backend model (ok gateway) =
      endpoint_at_host-Gives backend model (gateway_host gateway)

  get_model_endpoint-Gives :
      (backend : Backend) (model : MaasModelRef) (hostnames : List Text)
      → Gives (λ e. e ≢ []) (get_model_endpoint client backend model hostnames)
  unfolding get_model_endpoint
  get_model_endpoint-Gives backend model [] =
      Gives-bind _ _ _ _
        (Gives-any
          (attempt (observe (client.get_gateway client.gateway_namespace client.gateway_name))))
        (λ r _. endpoint_at-Gives backend model r)
  get_model_endpoint-Gives backend model (h ∷ hs) =
      Gives-pure _ _ (https_url-ne h (endpoint_path client backend model))

  llm_endpoint-Gives :
      (model : MaasModelRef) (r : Result ClientError LlmService)
      → Gives IsKnown (llm_endpoint client model r)
  unfolding llm_endpoint IsKnown
  llm_endpoint-Gives model (err (missing e)) = Gives-raise _ _
  llm_endpoint-Gives model (err (broken e)) = Gives-raise _ _
  llm_endpoint-Gives model (ok service) =
      Gives-if _ (not (is_llm_ready service)) _ _ (λ _. Gives-pure _ _ tt)
        (λ _.
          Gives-if _ (is_nil (endpoint_from_llm service)) _ _
            (λ _.
              Gives-bind _ _ _ _ (get_model_endpoint-Gives llmisvc model model.status.hostnames)
                (λ e known. Gives-pure _ _ known))
            (λ listed. Gives-pure _ _ (is_nil-false (endpoint_from_llm service) listed)))

  pub endpoint_of-Gives :
      (backend : Backend) (model : MaasModelRef) → Gives IsKnown (endpoint_of client backend model)
  unfolding endpoint_of IsKnown
  endpoint_of-Gives llmisvc model =
      Gives-bind _ _ _ _
        (Gives-any (attempt (observe (client.get_llm_service model.namespace model.target))))
        (λ r _. llm_endpoint-Gives model r)
  endpoint_of-Gives external model =
      Gives-if _ (is_nil model.status.route_name || is_nil model.status.gateway_name) _ _
        (λ _. Gives-pure _ _ tt)
        (λ _.
          Gives-bind _ _ _ _ (get_model_endpoint-Gives external model model.status.hostnames)
            (λ e known. Gives-pure _ _ known))

  endpoint_at_host-Calls :
      (backend : Backend) (model : MaasModelRef) (o : Option Text)
      → Calls IsSound (endpoint_at_host client backend model o)
  unfolding endpoint_at_host
  endpoint_at_host-Calls backend model none = Calls-raise _ _
  endpoint_at_host-Calls backend model (some host) = Calls-pure _ _

  endpoint_at-Calls :
      (backend : Backend) (model : MaasModelRef) (r : Result ClientError Gateway)
      → Calls IsSound (endpoint_at client backend model r)
  unfolding endpoint_at
  endpoint_at-Calls backend model (err e) = Calls-raise _ _
  endpoint_at-Calls backend model (ok gateway) =
      endpoint_at_host-Calls backend model (gateway_host gateway)

  get_model_endpoint-Calls :
      (backend : Backend) (model : MaasModelRef) (hostnames : List Text)
      → Calls IsSound (get_model_endpoint client backend model hostnames)
  unfolding get_model_endpoint
  get_model_endpoint-Calls backend model [] =
      Calls-bind _ _ _
        (Calls-attempt _ _
          (Calls-observe _ (client.get_gateway client.gateway_namespace client.gateway_name)))
        (λ r. endpoint_at-Calls backend model r)
  get_model_endpoint-Calls backend model (h ∷ hs) = Calls-pure _ _

  llm_endpoint-Calls :
      (model : MaasModelRef) (r : Result ClientError LlmService)
      → Calls IsSound (llm_endpoint client model r)
  unfolding llm_endpoint
  llm_endpoint-Calls model (err (missing e)) = Calls-raise _ _
  llm_endpoint-Calls model (err (broken e)) = Calls-raise _ _
  llm_endpoint-Calls model (ok service) =
      Calls-if _ (not (is_llm_ready service)) _ _ (λ _. Calls-pure _ _)
        (λ _.
          Calls-if _ (is_nil (endpoint_from_llm service)) _ _
            (λ _.
              Calls-bind _ _ _ (get_model_endpoint-Calls llmisvc model model.status.hostnames)
                (λ e. Calls-pure _ _))
            (λ _. Calls-pure _ _))

  pub endpoint_of-Calls :
      (backend : Backend) (model : MaasModelRef) → Calls IsSound (endpoint_of client backend model)
  unfolding endpoint_of
  endpoint_of-Calls llmisvc model =
      Calls-bind _ _ _
        (Calls-attempt _ _ (Calls-observe _ (client.get_llm_service model.namespace model.target)))
        (llm_endpoint-Calls model)
  endpoint_of-Calls external model =
      Calls-if _ (is_nil model.status.route_name || is_nil model.status.gateway_name) _ _
        (λ _. Calls-pure _ _)
        (λ _.
          Calls-bind _ _ _ (get_model_endpoint-Calls external model model.status.hostnames)
            (λ e. Calls-pure _ _))

  check_external-Calls :
      (model : MaasModelRef) (r : Result ClientError (Unit {0}))
      → Calls IsSound (check_external client model r)
  unfolding check_external external_routed
  check_external-Calls model (err (missing e)) = Calls-pure _ _
  check_external-Calls model (err (broken e)) = Calls-pure _ _
  check_external-Calls model (ok u) =
      Calls-bind _ _ _
        (Calls-attempt _ _ (Calls-observe _ (client.get_route model.namespace model.target)))
        (λ r. Calls-quiet _ (external_routed client model r) (λ w. refl))

  pub reconcile_route-Calls :
      (backend : Backend) (model : MaasModelRef)
      → Calls IsSound (reconcile_route client backend model)
  unfolding reconcile_route llm_routed
  reconcile_route-Calls llmisvc model =
      Calls-bind _ _ _ (Calls-attempt _ _ (Calls-observe _ (client.list_routes model.namespace _)))
        (λ r. Calls-quiet _ (llm_routed client model r) (λ w. refl))
  reconcile_route-Calls external model =
      Calls-bind _ _ _
        (Calls-attempt _ _
          (Calls-observe _ (client.get_external_model model.namespace model.target)))
        (check_external-Calls model)
