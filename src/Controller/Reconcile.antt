-- ===== src/Controller/Reconcile.antt =====
-- maassubscription_controller.go: `Reconcile`, the deletion of a subscription and its status.
use models_as_a_service_mids.Prelude.{
  Text, codes, List, [], ◌++◌, map, any, none, some, Result, ok, err, if◌then◌else◌,
}
use models_as_a_service_mids.Controller.Types.{
  ObjectStatus, Phase, pending, active, degraded, failed, ModelSubscriptionRef, ModelRefStatus,
  PolicyStatus, ClientError, missing, broken,
}
use models_as_a_service_mids.Controller.Status.{
  distinct, model_status, read_policy_status, no_route_status, correct_status, derive_final_phase,
  policy_name, RouteError, PhaseMessage, no_references, successfully_reconciled, all_invalid,
  some_invalid, not_all_accepted,
}
use models_as_a_service_mids.Controller.Texts.{decimal}
use models_as_a_service_mids.Controller.Run.{
  Run, pure, raise, observe, perform, attempt, ◌>>=◌, ◌>>◌, collect,
}
use models_as_a_service_mids.Controller.Cluster.{
  ModelRef, MaasSubscription, SubscriptionStatus, StatusCondition, Policy, Call,
  update_subscription, update_subscription_status, Client,
}
use models_as_a_service_mids.Controller.Routes.{find_http_route_for_model}
use models_as_a_service_mids.Controller.Cleanup.{cleanup_stale_trlps}
use models_as_a_service_mids.Controller.Policies.{
  reconcile_models, reconcile_token_rate_limit_policies,
}

abbrev pub without_value : Result ClientError ModelRef → Result ClientError (Unit {0})
without_value (ok _) = ok tt
without_value (err e) = err e

abbrev pub status_of : Result ClientError Policy → Result ClientError ObjectStatus
status_of (ok p) = ok p.status
status_of (err e) = err e

unfoldable pub finalizer : Text
unfolding codes
finalizer = codes "maas.opendatahub.io/subscription-cleanup"

unfoldable pub condition_spec_priority_duplicate : Text
unfolding codes
condition_spec_priority_duplicate = codes "SpecPriorityDuplicate"

-- The text of the message, with its numbers.
unfoldable pub message_text : PhaseMessage → Text
unfolding codes decimal
message_text no_references = codes "no model references specified"
message_text successfully_reconciled = codes "successfully reconciled"
message_text (all_invalid models) =
    codes "all " ++ (decimal models ++ codes " model references are invalid or unavailable")
message_text (some_invalid invalid models) =
    decimal invalid
    ++ (codes " of " ++ (decimal models ++ codes " model references are invalid or unavailable"))
message_text (not_all_accepted issues policies) =
    decimal issues
    ++ (codes " of " ++ (decimal policies ++ codes " TokenRateLimitPolicies not accepted"))

-- The status and the reason of the Ready condition.
unfoldable pub ready_of : Phase → Text × Text
unfolding codes
ready_of active = (codes "True", codes "Reconciled")
ready_of degraded = (codes "False", codes "PartialFailure")
ready_of failed = (codes "False", codes "ReconcileFailed")
ready_of pending = (codes "Unknown", codes "Unknown")

unfoldable pub ready_condition : MaasSubscription → Phase → Text → StatusCondition
unfolding codes ready_of
ready_condition sub phase message = record {
  type_name = codes "Ready";
  status = (ready_of phase).0;
  reason = (ready_of phase).1;
  message = message;
  observed_generation = sub.generation;
}

-- The map `backendNotReady` and the loop that corrects the statuses by it.
abbrev pub corrected : List PolicyStatus → List ModelRefStatus → List ModelRefStatus
unfolding correct_status
corrected policies models = map (correct_status policies) models

module _ {W R : Type 0} (client : Client W R) where
  unfoldable pub model_read :
      ModelSubscriptionRef → Result ClientError ModelRef → Run W Call Text ModelRefStatus
  unfolding model_status
  model_read ref found = pure (model_status (λ _ _. without_value found) ref)

  -- `validateModelRefs`, which reads each model of the references.
  unfoldable pub read_models : MaasSubscription → Run W Call Text (List ModelRefStatus)
  unfolding distinct model_read
  read_models sub =
      collect
        (λ (ref : ModelSubscriptionRef).
          attempt (observe (client.get_model ref.namespace ref.name)) >>= model_read ref)
        (distinct [] sub.model_refs)

  unfoldable pub policy_read :
      ModelSubscriptionRef
      → (route_namespace : Text) → Result ClientError Policy
      → Run W Call Text PolicyStatus
  unfolding read_policy_status
  policy_read ref route_namespace found =
      pure (read_policy_status (λ _ _. status_of found) ref route_namespace)

  -- The policy of the model in the namespace of its route.
  unfoldable pub read_policy :
      ModelSubscriptionRef → Result RouteError (Text × Text) → Run W Call Text PolicyStatus
  unfolding policy_name policy_read no_route_status
  read_policy ref (err e) = pure (no_route_status ref e)
  read_policy ref (ok (route_name, route_namespace)) =
      attempt (observe (client.get_policy route_namespace (policy_name ref.name)))
      >>= policy_read ref route_namespace

  -- `checkTokenRateLimitHealth`
  unfoldable pub read_health : MaasSubscription → Run W Call Text (List PolicyStatus)
  unfolding distinct find_http_route_for_model read_policy
  read_health sub =
      collect
        (λ (ref : ModelSubscriptionRef).
          attempt (find_http_route_for_model client ref.namespace ref.name) >>= read_policy ref)
        (distinct [] sub.model_refs)

  -- The conditions, with the one on the priority that the cluster has.
  unfoldable pub with_duplicate :
      List StatusCondition → Result ClientError MaasSubscription → List StatusCondition
  unfolding condition_spec_priority_duplicate
  with_duplicate conditions (err _) = conditions
  with_duplicate conditions (ok latest) =
      elim (client.find_condition latest.status.conditions condition_spec_priority_duplicate) [
        | none ↦ conditions
        | some duplicate ↦ client.set_condition conditions duplicate
      ]

  -- The subscription with its phase and its conditions.
  unfoldable pub with_phase :
      MaasSubscription
      → Phase
      → (message : Text) → Result ClientError MaasSubscription
      → MaasSubscription
  unfolding with_duplicate ready_condition
  with_phase sub phase message latest =
      let known = with_duplicate sub.status.conditions latest in
      record sub {
        status = record sub.status {
          phase = some phase;
          conditions = client.set_condition known (ready_condition sub phase message);
        };
      }

  -- An error of the write is logged only.
  unfoldable pub send_status_of : MaasSubscription → Run W Call Text (Unit {0})
  send_status_of written =
      attempt (perform (update_subscription_status written) (client.send_status written)) >> pure tt

  unfoldable pub write_status :
      MaasSubscription
      → Phase
      → (message : Text) → (snapshot : SubscriptionStatus) → Result ClientError MaasSubscription
      → Run W Call Text (Unit {0})
  unfolding with_phase send_status_of
  write_status sub phase message snapshot latest =
      let written = with_phase sub phase message latest in
      if client.same_status snapshot written.status then pure tt else send_status_of written

  unfoldable pub update_status :
      MaasSubscription
      → Phase
      → (message : Text) → (snapshot : SubscriptionStatus) → Run W Call Text (Unit {0})
  unfolding write_status
  update_status sub phase message snapshot =
      attempt (observe (client.get_subscription sub.namespace sub.name))
      >>= write_status sub phase message snapshot

  unfoldable pub released : MaasSubscription → MaasSubscription
  unfolding finalizer
  released sub = record sub { finalizers = client.remove_finalizer sub.finalizers finalizer }

  unfoldable pub release : MaasSubscription → Run W Call Text (Unit {0})
  unfolding released
  release sub =
      perform (update_subscription (released sub)) (client.send_subscription (released sub))
      >> pure tt

  -- The finalizer is removed once the policies of the models are rebuilt.
  unfoldable pub handle_deletion : MaasSubscription → Run W Call Text (Unit {0})
  unfolding finalizer reconcile_models cleanup_stale_trlps release
  handle_deletion sub =
      let clean_up =
        reconcile_models client sub >> (cleanup_stale_trlps client sub >> release sub) in
      if client.has_finalizer sub.finalizers finalizer then clean_up else pure tt

  unfoldable pub ensure_finalizer : MaasSubscription → Run W Call Text MaasSubscription
  unfolding finalizer
  ensure_finalizer sub =
      let held = record sub { finalizers = client.add_finalizer sub.finalizers finalizer } in
      if client.has_finalizer sub.finalizers finalizer
      then pure sub
      else perform (update_subscription held) (client.send_subscription held)

  -- The policies of a subscription of which some model is there, and the stale ones of one without.
  unfoldable pub reconcile_policies :
      MaasSubscription → (models : List ModelRefStatus) → Run W Call Text (Unit {0})
  unfolding any reconcile_token_rate_limit_policies cleanup_stale_trlps
  reconcile_policies sub models =
      if any (λ (s : ModelRefStatus). s.ready) models
      then reconcile_token_rate_limit_policies client sub
      else cleanup_stale_trlps client sub

  unfoldable pub failure_text : List ModelRefStatus → Text → Text
  unfolding codes any
  failure_text models e =
      if any (λ (s : ModelRefStatus). s.ready) models
      then codes "failed to reconcile TokenRateLimitPolicies: " ++ e
      else codes "failed to clean up stale TokenRateLimitPolicies: " ++ e

  abbrev pub with_models : MaasSubscription → List ModelRefStatus → MaasSubscription
  with_models sub models = record sub { status = record sub.status { model_ref_statuses = models } }

  abbrev pub with_policies : MaasSubscription → List PolicyStatus → MaasSubscription
  with_policies sub policies = record sub {
    status = record sub.status { token_rate_limit_statuses = policies };
  }

  -- The status that the models and the policies give.
  unfoldable pub conclude :
      MaasSubscription
      → (models : List ModelRefStatus) → (snapshot : SubscriptionStatus) → List PolicyStatus
      → Run W Call Text (Unit {0})
  unfolding derive_final_phase message_text update_status
  conclude sub models snapshot policies =
      let final = corrected policies models in
      let outcome = derive_final_phase final policies in
      update_status (with_models (with_policies sub policies) final) outcome.0
        (message_text outcome.1) snapshot

  -- `Reconcile` once the policies are reconciled, or an error of that.
  unfoldable pub report :
      MaasSubscription
      → (models : List ModelRefStatus) → (snapshot : SubscriptionStatus) → Result Text (Unit {0})
      → Run W Call Text (Unit {0})
  unfolding failure_text read_health update_status conclude
  report sub models snapshot (err e) =
      update_status (with_models sub models) failed (failure_text models e) snapshot >> raise e
  report sub models snapshot (ok _) = read_health sub >>= conclude sub models snapshot

  -- `Reconcile` of a subscription that is not being deleted.
  unfoldable pub reconcile_live : MaasSubscription → Run W Call Text (Unit {0})
  unfolding ensure_finalizer read_models reconcile_policies report
  reconcile_live found = do
    sub ← ensure_finalizer found
    models ← read_models sub
    outcome ← attempt (reconcile_policies sub models)
    report sub models sub.status outcome

  unfoldable pub found_subscription :
      Result ClientError MaasSubscription → Run W Call Text (Unit {0})
  unfolding handle_deletion reconcile_live
  found_subscription (err (missing _)) = pure tt
  found_subscription (err (broken e)) = raise e
  found_subscription (ok sub) = if sub.is_deleting then handle_deletion sub else reconcile_live sub

  unfoldable pub reconcile : (namespace name : Text) → Run W Call Text (Unit {0})
  unfolding found_subscription
  reconcile namespace name =
      attempt (observe (client.get_subscription namespace name)) >>= found_subscription
