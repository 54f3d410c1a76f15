-- ===== src/Controller/Quiet/Report.antt =====
-- What the reconciler reports of a cluster that does not change.
use models_as_a_service_mids.Prelude.{Text, ◌≡◌, refl, ap, ◌∙◌, [], Result, ok, err}
use models_as_a_service_mids.Controller.Types.{ModelSubscriptionRef}
use models_as_a_service_mids.Controller.Status.{
  RouteError, ReadModel, FindRoute, ReadPolicy, distinct, policy_name, model_status,
  validate_model_refs, health_of, read_policy_status, check_token_rate_limit_health, derive_status,
}
use models_as_a_service_mids.Controller.Run.{observe, attempt, and_then, ◌>>=◌}
use models_as_a_service_mids.Controller.Cluster.{MaasSubscription, SubscriptionStatus, Client}
use models_as_a_service_mids.Controller.Routes.{find_http_route_for_model}
use models_as_a_service_mids.Controller.Reconcile.{
  without_value, status_of, model_read, read_models, policy_read, read_policy, read_health,
  with_models, with_policies, message_text, update_status, conclude, report,
}
use models_as_a_service_mids.Controller.Quiet.{Stays-observe, attempt-then, collect-map}
use models_as_a_service_mids.Controller.Quiet.Reads.{IsQuiet, find_http_route_for_model-Stays}

-- What the reads answer in a world.
abbrev pub model_now : {W R : Type 0} → Client W R → W → ReadModel
model_now client w namespace name = without_value (client.get_model namespace name w).0

abbrev pub route_now : {W R : Type 0} → Client W R → W → FindRoute
route_now client w namespace name = (find_http_route_for_model client namespace name w).0

abbrev pub policy_now : {W R : Type 0} → Client W R → W → ReadPolicy
policy_now client w namespace name = status_of (client.get_policy namespace name w).0

module _ {W R : Type 0} (client : Client W R) (w : W) (quiet : IsQuiet client w) where
  model_read-now :
      (ref : ModelSubscriptionRef)
      → (attempt (observe (client.get_model ref.namespace ref.name)) >>= model_read client ref) w
        ≡ (ok (model_status (model_now client w) ref), w, [])
  unfolding model_read model_status
  model_read-now ref =
      attempt-then w (observe (client.get_model ref.namespace ref.name)) (model_read client ref) (
        Stays-observe w (client.get_model ref.namespace ref.name)
          (quiet.models ref.namespace ref.name))

  pub read_models-now :
      (sub : MaasSubscription)
      → read_models client sub w
        ≡ (ok (validate_model_refs (model_now client w) sub.model_refs), w, [])
  unfolding read_models validate_model_refs
  read_models-now sub =
      collect-map w
        (λ ref.
          attempt (observe (client.get_model ref.namespace ref.name)) >>= model_read client ref)
        (model_status (model_now client w)) (distinct [] sub.model_refs) model_read-now

  read_policy-now :
      (ref : ModelSubscriptionRef) (r : Result RouteError (Text × Text))
      → read_policy client ref r w ≡ (ok (health_of (λ _ _. r) (policy_now client w) ref), w, [])
  unfolding read_policy policy_read health_of read_policy_status
  read_policy-now ref (err e) = refl
  read_policy-now ref (ok (name, namespace)) =
      attempt-then w (observe (client.get_policy namespace (policy_name ref.name)))
        (policy_read client ref namespace)
        (Stays-observe w (client.get_policy namespace (policy_name ref.name))
          (quiet.policies namespace (policy_name ref.name)))

  health_read-now :
      (ref : ModelSubscriptionRef)
      → (attempt (find_http_route_for_model client ref.namespace ref.name)
            >>= read_policy client ref)
          w
        ≡ (ok (health_of (route_now client w) (policy_now client w) ref), w, [])
  unfolding health_of
  health_read-now ref =
      attempt-then w (find_http_route_for_model client ref.namespace ref.name)
        (read_policy client ref)
        (find_http_route_for_model-Stays client w quiet ref.namespace ref.name)
      ∙ read_policy-now ref (find_http_route_for_model client ref.namespace ref.name w).0

  read_health-now :
      (sub : MaasSubscription)
      → read_health client sub w ≡ (
        ok (
            check_token_rate_limit_health
              (route_now client w)
              (policy_now client w)
              sub.model_refs),
        w,
        [],
      )
  unfolding read_health check_token_rate_limit_health
  read_health-now sub =
      collect-map w
        (λ ref.
          attempt (find_http_route_for_model client ref.namespace ref.name)
          >>= read_policy client ref)
        (health_of (route_now client w) (policy_now client w)) (distinct [] sub.model_refs)
        health_read-now

  -- The report writes the phase, the message and the two lists of `derive_status`, for models that
  -- were validated in any world.
  pub report-derives :
      (get_model : ReadModel) (sub : MaasSubscription) (snapshot : SubscriptionStatus)
      → let o = derive_status get_model (route_now client w) (policy_now client w) sub.model_refs in
        report client sub (validate_model_refs get_model sub.model_refs) snapshot (ok tt) w
        ≡ update_status client
            (with_models client (with_policies client sub o.policies) o.models)
            o.phase
            (message_text o.message)
            snapshot
            w
  unfolding report conclude derive_status
  report-derives get_model sub snapshot =
      ap
        (λ z.
          and_then z.0 z.1 z.2
            (conclude client sub (validate_model_refs get_model sub.model_refs) snapshot))
        (read_health-now sub)
