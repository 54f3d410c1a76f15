-- ===== src/Controller/OptOut.antt =====
-- A policy whose annotation `opendatahub.io/managed` is "false" is never changed.
pub mod Policies
pub mod Reconcile
use models_as_a_service_mids.Prelude.{
  Text, codes, ◌==◌, ◌≡◌, refl, sym, ap, ◌∙◌, subst, List, [], ◌∷◌, ◌++◌, Option, none, some, Bool,
  true, false, Bool-cases, not, any, is_nil, inl, inr, Memᴰ, Result, ok, err, Result-cases, arith,
  if◌then◌else◌,
}
use models_as_a_service_mids.Controller.Types.{
  Phase, ModelSubscriptionRef, ModelRefStatus, ClientError, missing, broken, no_status,
}
use models_as_a_service_mids.Controller.Status.{
  RouteError, model_not_found, route_not_found, route_failure, distinct,
}
use models_as_a_service_mids.Controller.Texts.{set_keys, set_key, lookup_key}
use models_as_a_service_mids.Controller.Run.{
  Run, pure, raise, observe, perform, wrap, attempt, ◌>>=◌, ◌>>◌, for_each, collect,
}
use models_as_a_service_mids.Controller.Run.Logs.{
  Calls, Calls-pure, Calls-raise, Calls-observe, Calls-perform, Calls-wrap, Calls-attempt,
  Calls-bind, Calls-for_each, Calls-collect,
}
use models_as_a_service_mids.Controller.Cluster.{
  MaasSubscription, SubscriptionStatus, Policy, is_managed, managed_value, is_managed_by,
  PolicyListError, absent, list_failed, Call, create_policy, update_policy, delete_policy,
  update_subscription, update_subscription_status, Client,
}
use models_as_a_service_mids.Controller.Limits.{
  SubInfo, sub_infos, policy_of, subscriptions_annotation,
}
use models_as_a_service_mids.Controller.Limits.Maps.{lookup-set_other}
use models_as_a_service_mids.Controller.Routes.Reads.{
  find_all_subscriptions_for_model-Calls, find_http_route_for_model-Calls,
}
use models_as_a_service_mids.Controller.Cleanup.{
  check_deleted, delete_if_managed, listed_policies, delete_model_trlp, is_stale_policy,
  clean_up_policy, cleanup_stale_trlps,
}
use models_as_a_service_mids.Controller.Policies.{
  merged, update_existing, create_or_update, apply_policy, apply_owned, build_policy, fetch_route,
  list_live, by_route, with_route, without_route, unless_opted_out, reconcile_trlp_for_model,
  reconcile_models, reconcile_token_rate_limit_policies, is_model_not_found, is_route_not_found,
}

-- The call changes a policy, one that is not opted out.
unfoldable pub IsManagedChange : Call → Type 0
IsManagedChange (create_policy p) = is_managed p ≡ true
IsManagedChange (update_policy p) = is_managed p ≡ true
IsManagedChange (delete_policy p) = is_managed p ≡ true
IsManagedChange (update_subscription s) = false ≡ true
IsManagedChange (update_subscription_status s) = false ≡ true

module _ {W R : Type 0} (client : Client W R) where
  check_deleted-respects :
      (p : Policy) (r : Result ClientError (Unit {0}))
      → Calls IsManagedChange (check_deleted {W = W} p r)
  unfolding check_deleted
  check_deleted-respects p (ok u) = Calls-pure IsManagedChange tt
  check_deleted-respects p (err (missing e)) = Calls-pure IsManagedChange tt
  check_deleted-respects p (err (broken e)) = Calls-raise _ _

  delete_if_managed-respects : (p : Policy) → Calls IsManagedChange (delete_if_managed client p)
  unfolding delete_if_managed IsManagedChange
  delete_if_managed-respects p = elim (Bool-cases (is_managed p)) [
    | inl managed ↦
        let sent : Calls IsManagedChange
            (attempt (perform (delete_policy p) (client.send_delete p)) >>= check_deleted p) =
          Calls-bind _ _ _ (Calls-attempt _ _ (Calls-perform _ _ _ managed))
            (check_deleted-respects p) in
        rw managed sent
    | inr opted_out ↦ rw opted_out (Calls-pure _ tt)
  ]

  listed-respects :
      (what : Text) (r : Result PolicyListError (List Policy))
      → Calls IsManagedChange (listed_policies client what r)
  unfolding listed_policies
  listed-respects what (ok ps) = Calls-pure IsManagedChange ps
  listed-respects what (err absent) = Calls-pure IsManagedChange []
  listed-respects what (err (list_failed e)) = Calls-raise IsManagedChange (what ++ e)

  pub delete_model_trlp-respects :
      (namespace name : Text) → Calls IsManagedChange (delete_model_trlp client namespace name)
  unfolding delete_model_trlp
  delete_model_trlp-respects namespace name =
      Calls-bind _ _ _ (Calls-attempt _ _ (Calls-observe _ (client.list_policies _))) (λ found.
        Calls-bind _ _ _
          (listed-respects (codes "failed to list TokenRateLimitPolicy for cleanup: ") found)
          (λ policies. Calls-for_each _ _ policies (λ p _. delete_if_managed-respects p)))

  clean_up_policy-respects :
      (sub : MaasSubscription) (p : Policy) → Calls IsManagedChange (clean_up_policy client sub p)
  unfolding clean_up_policy
  clean_up_policy-respects sub p = elim (Bool-cases (is_stale_policy client sub p)) [
    | inl stale ↦ rw stale (Calls-wrap _ _ _ (delete_model_trlp-respects _ _))
    | inr fresh ↦ rw fresh (Calls-pure _ tt)
  ]

  pub cleanup_stale_trlps-respects :
      (sub : MaasSubscription) → Calls IsManagedChange (cleanup_stale_trlps client sub)
  unfolding cleanup_stale_trlps
  cleanup_stale_trlps-respects sub =
      Calls-bind _ _ _ (Calls-attempt _ _ (Calls-observe _ (client.list_policies _))) (λ found.
        Calls-bind _ _ _
          (listed-respects
            (codes "failed to list managed TokenRateLimitPolicies for stale cleanup: ") found)
          (λ policies. Calls-for_each _ _ policies (λ p _. clean_up_policy-respects sub p)))
