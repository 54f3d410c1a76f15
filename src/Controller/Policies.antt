-- ===== src/Controller/Policies.antt =====
-- `reconcileTRLPForModel` and `reconcileTokenRateLimitPolicies`: the policies of the models of a
-- subscription.
use models_as_a_service_mids.Prelude.{
  Text, codes, List, [], ◌++◌, Bool, true, false, is_nil, Result, ok, err, if◌then◌else◌,
}
use models_as_a_service_mids.Controller.Types.{
  ModelSubscriptionRef, ClientError, missing, broken, error_text, model_key,
}
use models_as_a_service_mids.Controller.Status.{
  distinct, policy_name, RouteError, route_not_found, model_not_found, route_error_text,
}
use models_as_a_service_mids.Controller.Texts.{set_keys}
use models_as_a_service_mids.Controller.Run.{
  Run, pure, raise, observe, perform, wrap, attempt, ◌>>=◌, ◌>>◌, for_each,
}
use models_as_a_service_mids.Controller.Cluster.{
  MaasSubscription, Policy, is_managed, Call, create_policy, update_policy, Client,
}
use models_as_a_service_mids.Controller.Routes.{
  find_all_subscriptions_for_model, find_http_route_for_model,
}
use models_as_a_service_mids.Controller.Limits.{sub_infos, policy_of}
use models_as_a_service_mids.Controller.Cleanup.{delete_model_trlp, cleanup_stale_trlps}

abbrev pub is_model_not_found : RouteError → Bool
is_model_not_found (model_not_found _) = true
is_model_not_found _ = false

abbrev pub is_route_not_found : RouteError → Bool
is_route_not_found (route_not_found _) = true
is_route_not_found _ = false

-- The existing policy with the annotations, the labels and the spec of the wanted one.
unfoldable pub merged : (existing policy : Policy) → Policy
unfolding set_keys
merged existing policy = record existing {
  annotations = set_keys policy.annotations existing.annotations;
  labels = set_keys policy.labels existing.labels;
  spec = policy.spec;
}

module _ {W R : Type 0} (client : Client W R) where
  -- `reconcileTRLPForModel` where no route was found.
  unfoldable pub without_route :
      (model_namespace model_name : Text)
      → List MaasSubscription
      → RouteError
      → Run W Call Text (Unit {0})
  unfolding codes model_key
  without_route model_namespace model_name subs e =
      let model = model_key model_namespace model_name in
      let clean_up =
        wrap
          (λ t.
            codes "failed to clean up TokenRateLimitPolicy for missing model "
            ++ (model ++ (codes ": " ++ t)))
          (delete_model_trlp client model_namespace model_name) in
      let failure = raise (
        codes "failed to resolve HTTPRoute for model "
        ++ (model ++ (codes ": " ++ route_error_text e))) in
      if is_model_not_found e
      then clean_up
      else if is_nil subs
      then clean_up
      else if is_route_not_found e
      then pure tt
      else failure

  -- The policy is there: it gets an owner, and is written if this changes it.
  unfoldable pub update_existing :
      R → (model : Text) → (existing policy : Policy) → Run W Call Text (Unit {0})
  unfolding codes merged model_key
  update_existing route model existing policy =
      if is_managed existing
      then elim (client.set_owner route existing) [
        | err e ↦ raise (
            codes "failed to set owner reference on existing TokenRateLimitPolicy "
            ++ (model_key existing.namespace existing.name ++ (codes ": " ++ e)))
        | ok owned ↦
            let wanted = merged owned policy in
            let send =
              wrap
                (λ e.
                  codes "failed to update TokenRateLimitPolicy for model "
                  ++ (model ++ (codes ": " ++ e)))
                (perform (update_policy wanted) (client.send_update wanted)) in
            if client.same_policy owned wanted then pure tt else send
      ]
      else pure tt

  -- The policy is not there, cannot be read, or is there.
  unfoldable pub create_or_update :
      R
      → (model_namespace model_name : Text) → Policy
      → Result ClientError Policy
      → Run W Call Text (Unit {0})
  unfolding codes update_existing model_key
  create_or_update route model_namespace model_name policy (err (missing _)) =
      wrap
        (λ e.
          codes "failed to create TokenRateLimitPolicy for model "
          ++ (model_name ++ (codes ": " ++ e)))
        (perform (create_policy policy) (client.send_create policy))
  create_or_update route model_namespace model_name policy (err (broken e)) =
      raise (codes "failed to get existing TokenRateLimitPolicy: " ++ e)
  create_or_update route model_namespace model_name policy (ok found) =
      update_existing route (model_key model_namespace model_name) found policy

  -- Creates the policy, or updates the one that is there.
  unfoldable pub apply_policy :
      R → (model_namespace model_name : Text) → Policy → Run W Call Text (Unit {0})
  unfolding create_or_update
  apply_policy route model_namespace model_name policy =
      attempt (observe (client.get_policy policy.namespace policy.name))
      >>= create_or_update route model_namespace model_name policy

  -- The built policy, once the route owns it.
  unfoldable pub apply_owned :
      R
      → (model_namespace model_name : Text) → Policy
      → Result Text Policy
      → Run W Call Text (Unit {0})
  unfolding codes model_key apply_policy
  apply_owned route model_namespace model_name policy (ok owned) =
      apply_policy route model_namespace model_name owned
  apply_owned route model_namespace model_name policy (err e) = raise (
      codes "failed to set owner reference on TokenRateLimitPolicy "
      ++ (model_key policy.namespace policy.name ++ (codes ": " ++ e)))

  -- `reconcileTRLPForModel` from the loop over the subscriptions on.
  unfoldable pub build_policy :
      (model_namespace model_name route_name route_namespace : Text)
      → List MaasSubscription
      → R
      → Run W Call Text (Unit {0})
  unfolding sub_infos policy_of apply_owned
  build_policy model_namespace model_name route_name route_namespace subs route =
      let infos = sub_infos model_namespace model_name subs in
      let policy = policy_of model_namespace model_name route_name route_namespace infos in
      if is_nil infos
      then delete_model_trlp client model_namespace model_name
      else apply_owned route model_namespace model_name policy (client.set_owner route policy)

  unfoldable pub fetch_route : (route_name route_namespace : Text) → Run W Call Text R
  unfolding codes model_key
  fetch_route route_name route_namespace =
      wrap
        (λ e.
          codes "failed to fetch HTTPRoute "
          ++ (model_key route_namespace route_name ++ (codes ": " ++ error_text e)))
        (observe (client.get_route route_namespace route_name))

  -- `reconcileTRLPForModel` once the existing policy is not opted out.
  unfoldable pub with_route :
      (model_namespace model_name route_name route_namespace : Text)
      → List MaasSubscription
      → Run W Call Text (Unit {0})
  unfolding codes model_key build_policy fetch_route
  with_route model_namespace model_name route_name route_namespace subs =
      if is_nil subs
      then wrap
          (λ e.
            codes "failed to delete TokenRateLimitPolicy for model "
            ++ (model_key model_namespace model_name ++ (codes ": " ++ e)))
          (delete_model_trlp client model_namespace model_name)
      else fetch_route route_name route_namespace
        >>= build_policy model_namespace model_name route_name route_namespace subs

  -- The check of the existing policy, which may be opted out.
  unfoldable pub unless_opted_out :
      Result ClientError Policy → Run W Call Text (Unit {0}) → Run W Call Text (Unit {0})
  unfolding codes
  unless_opted_out (ok existing) rest = if is_managed existing then rest else pure tt
  unless_opted_out (err (missing _)) rest = rest
  unless_opted_out (err (broken e)) rest =
      raise (codes "failed to check existing TokenRateLimitPolicy: " ++ e)

  unfoldable pub by_route :
      (model_namespace model_name : Text)
      → List MaasSubscription
      → Result RouteError (Text × Text)
      → Run W Call Text (Unit {0})
  unfolding policy_name without_route with_route unless_opted_out
  by_route model_namespace model_name subs (err e) = without_route model_namespace model_name subs e
  by_route model_namespace model_name subs (ok (route_name, route_namespace)) = do
    existing ← attempt (observe (client.get_policy route_namespace (policy_name model_name)))
    unless_opted_out existing
        (with_route model_namespace model_name route_name route_namespace subs)

  unfoldable pub list_live :
      (model_namespace model_name : Text) → Run W Call Text (List MaasSubscription)
  unfolding codes model_key find_all_subscriptions_for_model
  list_live model_namespace model_name =
      wrap
        (λ e.
          codes "failed to list subscriptions for model "
          ++ (model_key model_namespace model_name ++ (codes ": " ++ e)))
        (find_all_subscriptions_for_model client model_namespace model_name)

  unfoldable pub reconcile_trlp_for_model :
      (model_namespace model_name : Text) → Run W Call Text (Unit {0})
  unfolding list_live find_http_route_for_model by_route
  reconcile_trlp_for_model model_namespace model_name = do
    subs ← list_live model_namespace model_name
    found ← attempt (find_http_route_for_model client model_namespace model_name)
    by_route model_namespace model_name subs found

  -- The loop over the references of a subscription, without the ones seen before.
  unfoldable pub reconcile_models : MaasSubscription → Run W Call Text (Unit {0})
  unfolding distinct reconcile_trlp_for_model
  reconcile_models sub =
      for_each (λ (ref : ModelSubscriptionRef). reconcile_trlp_for_model ref.namespace ref.name)
        (distinct [] sub.model_refs)

  unfoldable pub reconcile_token_rate_limit_policies : MaasSubscription → Run W Call Text (Unit {0})
  unfolding reconcile_models
  reconcile_token_rate_limit_policies sub = do reconcile_models sub; cleanup_stale_trlps client sub
