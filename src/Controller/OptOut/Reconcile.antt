-- ===== src/Controller/OptOut/Reconcile.antt =====
-- `Reconcile` leaves the policies alone that are opted out.
use models_as_a_service_mids.Prelude.{
  Text, codes, eq_refl, ◌≡◌, refl, List, some, true, any, Result, ok, err, arith,
}
use models_as_a_service_mids.Controller.Types.{
  Phase, ModelSubscriptionRef, ModelRefStatus, ClientError, missing, broken,
}
use models_as_a_service_mids.Controller.Status.{RouteError, policy_name}
use models_as_a_service_mids.Controller.Texts.{lookup_key}
use models_as_a_service_mids.Controller.Run.Logs.{
  Calls, Calls-pure, Calls-raise, Calls-observe, Calls-perform, Calls-attempt, Calls-bind,
  Calls-collect, Calls-if, Calls-quiet, Calls-weaken,
}
use models_as_a_service_mids.Controller.Cluster.{
  MaasSubscription, SubscriptionStatus, Policy, is_managed, is_managed_by, managed_value, Call,
  create_policy, update_policy, delete_policy, update_subscription, update_subscription_status,
  Client,
}
use models_as_a_service_mids.Controller.Routes.Reads.{find_http_route_for_model-Calls}
use models_as_a_service_mids.Controller.Cleanup.{cleanup_stale_trlps}
use models_as_a_service_mids.Controller.Policies.{
  reconcile_models, reconcile_token_rate_limit_policies,
}
use models_as_a_service_mids.Controller.Reconcile.{
  read_models, model_read, policy_read, send_status_of, with_phase, write_status, read_policy,
  read_health, update_status, released, release, handle_deletion, ensure_finalizer,
  reconcile_policies, report, with_models, with_policies, corrected, conclude, reconcile_live,
  finalizer, found_subscription, reconcile,
}
use models_as_a_service_mids.Controller.OptOut.{IsManagedChange, cleanup_stale_trlps-respects}
use models_as_a_service_mids.Controller.OptOut.Policies.{reconcile_models-respects}

-- The policy is opted out: its annotation `opendatahub.io/managed` is "false".
abbrev pub IsOptedOut : Policy → Type 0
unfolding codes
IsOptedOut p = lookup_key p.annotations (codes "opendatahub.io/managed") ≡ some (codes "false")

-- The call leaves alone the policies that are opted out.
pub IsRespectful : Call → Type 0
IsRespectful (create_policy p) = ¬ (IsOptedOut p)
IsRespectful (update_policy p) = ¬ (IsOptedOut p)
IsRespectful (delete_policy p) = ¬ (IsOptedOut p)
IsRespectful (update_subscription s) = Unit {0}
IsRespectful (update_subscription_status s) = Unit {0}

not-IsOptedOut : (p : Policy) → is_managed p ≡ true → ¬ (IsOptedOut p)
unfolding is_managed_by managed_value codes
not-IsOptedOut p h out = ground (arith, out, eq_refl (codes "false"))

change-respects : (c : Call) → IsManagedChange c → IsRespectful c
unfolding IsManagedChange IsRespectful
change-respects (create_policy p) h = not-IsOptedOut p h
change-respects (update_policy p) h = not-IsOptedOut p h
change-respects (delete_policy p) h = not-IsOptedOut p h
change-respects (update_subscription s) h = tt
change-respects (update_subscription_status s) h = tt

module _ {W R : Type 0} (client : Client W R)
    (keeps : (route : R) (p q : Policy)
      → client.set_owner route p ≡ ok q
      → q.annotations ≡ p.annotations) where
  models_respect : (sub : MaasSubscription) → Calls IsRespectful (reconcile_models client sub)
  models_respect sub =
      Calls-weaken _ _ change-respects _ (reconcile_models-respects client keeps sub)

  stale_respect : (sub : MaasSubscription) → Calls IsRespectful (cleanup_stale_trlps client sub)
  stale_respect sub = Calls-weaken _ _ change-respects _ (cleanup_stale_trlps-respects client sub)

  release-respects : (sub : MaasSubscription) → Calls IsRespectful (release client sub)
  unfolding release IsRespectful
  release-respects sub =
      Calls-bind _ _ _
        (Calls-perform _ (update_subscription (released client sub))
          (client.send_subscription (released client sub)) tt)
        (λ _. Calls-pure _ _)

  handle_deletion-respects :
      (sub : MaasSubscription) → Calls IsRespectful (handle_deletion client sub)
  unfolding handle_deletion
  handle_deletion-respects sub =
      Calls-if _ (client.has_finalizer sub.finalizers finalizer) _ _
        (λ held.
          Calls-bind _ _ _ (models_respect sub)
            (λ _. Calls-bind _ _ _ (stale_respect sub) (λ _. release-respects sub)))
        (λ free. Calls-pure _ _)

  read_models-respects : (sub : MaasSubscription) → Calls IsRespectful (read_models client sub)
  unfolding read_models model_read
  read_models-respects sub = Calls-collect _ _ _ (λ ref.
      Calls-bind _ _ _
        (Calls-attempt _ _ (Calls-observe _ (client.get_model ref.namespace ref.name)))
        (λ r. Calls-quiet _ (model_read client ref r) (λ w. refl)))

  read_policy-respects :
      (ref : ModelSubscriptionRef) (r : Result RouteError (Text × Text))
      → Calls IsRespectful (read_policy client ref r)
  unfolding read_policy policy_read
  read_policy-respects ref (err e) = Calls-pure _ _
  read_policy-respects ref (ok (name, namespace)) =
      Calls-bind _ _ _
        (Calls-attempt _ _ (Calls-observe _ (client.get_policy namespace (policy_name ref.name))))
        (λ r. Calls-quiet _ (policy_read client ref namespace r) (λ w. refl))

  read_health-respects : (sub : MaasSubscription) → Calls IsRespectful (read_health client sub)
  unfolding read_health
  read_health-respects sub = Calls-collect _ _ _ (λ ref.
      Calls-bind _ _ _ (Calls-attempt _ _ (find_http_route_for_model-Calls client IsRespectful _ _))
        (read_policy-respects ref))

  send_status_of-respects :
      (sub : MaasSubscription) → Calls IsRespectful (send_status_of client sub)
  unfolding send_status_of IsRespectful
  send_status_of-respects sub =
      Calls-bind _ _ _
        (Calls-attempt _ _
          (Calls-perform _ (update_subscription_status sub) (client.send_status sub) tt))
        (λ _. Calls-pure _ _)

  update_status-respects :
      (sub : MaasSubscription) (phase : Phase) (message : Text) (snapshot : SubscriptionStatus)
      → Calls IsRespectful (update_status client sub phase message snapshot)
  unfolding update_status write_status
  update_status-respects sub phase message snapshot =
      Calls-bind _ _ _
        (Calls-attempt _ _ (Calls-observe _ (client.get_subscription sub.namespace sub.name)))
        (λ latest.
          Calls-if _
            (client.same_status snapshot (with_phase client sub phase message latest).status) _ _
            (λ same. Calls-pure _ _)
            (λ other. send_status_of-respects (with_phase client sub phase message latest)))

  report-respects :
      (sub : MaasSubscription) (models : List ModelRefStatus) (snapshot : SubscriptionStatus)
      (r : Result Text (Unit {0}))
      → Calls IsRespectful (report client sub models snapshot r)
  unfolding report conclude
  report-respects sub models snapshot (err e) =
      Calls-bind _ _ _ (update_status-respects (with_models client sub models) _ _ _)
        (λ _. Calls-raise _ _)
  report-respects sub models snapshot (ok u) =
      Calls-bind _ _ _ (read_health-respects sub) (λ policies.
        update_status-respects
          (with_models client (with_policies client sub policies) (corrected policies models)) _ _
          _)

  reconcile_policies-respects :
      (sub : MaasSubscription) (models : List ModelRefStatus)
      → Calls IsRespectful (reconcile_policies client sub models)
  unfolding reconcile_policies reconcile_token_rate_limit_policies
  reconcile_policies-respects sub models =
      Calls-if _ (any (λ (s : ModelRefStatus). s.ready) models) _ _
        (λ some_model. Calls-bind _ _ _ (models_respect sub) (λ _. stale_respect sub))
        (λ none_ready. stale_respect sub)

  ensure_finalizer-respects :
      (sub : MaasSubscription) → Calls IsRespectful (ensure_finalizer client sub)
  unfolding ensure_finalizer IsRespectful
  ensure_finalizer-respects sub =
      Calls-if _ (client.has_finalizer sub.finalizers finalizer) _ _
        (λ held. Calls-quiet _ _ (λ w. refl))
        (λ free. Calls-perform _ _ (client.send_subscription _) tt)

  found_subscription-respects :
      (r : Result ClientError MaasSubscription) → Calls IsRespectful (found_subscription client r)
  unfolding found_subscription reconcile_live
  found_subscription-respects (err (missing e)) = Calls-quiet _ _ (λ w. refl)
  found_subscription-respects (err (broken e)) = Calls-raise _ _
  found_subscription-respects (ok found) =
      Calls-if _ (found.is_deleting) _ _ (λ gone. handle_deletion-respects found)
        (λ live. Calls-bind _ _ _ (ensure_finalizer-respects found) (λ sub.
          Calls-bind _ _ _ (read_models-respects sub) (λ models.
            Calls-bind _ _ _ (Calls-attempt _ _ (reconcile_policies-respects sub models))
              (report-respects sub models sub.status))))

  -- A reconciliation of a subscription sends no creation and no update of a policy that it sends
  -- with the annotation `opendatahub.io/managed` "false", and no deletion of a policy that it has
  -- read with that annotation, whatever the calls of the cluster answer, if setting an owner keeps
  -- the annotations of a policy.
  pub reconcile-respects :
      (namespace name : Text) → Calls IsRespectful (reconcile client namespace name)
  unfolding reconcile
  reconcile-respects namespace name =
      Calls-bind _ _ _ (Calls-attempt _ _ (Calls-observe _ (client.get_subscription _ _)))
        found_subscription-respects
