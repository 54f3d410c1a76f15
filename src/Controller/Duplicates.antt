-- ===== src/Controller/Duplicates.antt =====
-- `scanForDuplicatePriority`: the condition that tells which subscriptions share a priority.
pub mod Peers
use models_as_a_service_mids.Prelude.{
  ℕ, suc, Text, codes, ◌==◌, text_ltb, List, [], ◌∷◌, ◌++◌, map, filter, Option, none, some, Bool,
  true, false, ◌&&◌, not, is_nil, sort_stable, Result, ok, err, if◌then◌else◌, nat_eq,
}
use models_as_a_service_mids.Prelude.Int.{ℤ, pos, negsuc}
use models_as_a_service_mids.Controller.Types.{ClientError, model_key}
use models_as_a_service_mids.Controller.Texts.{decimal, join}
use models_as_a_service_mids.Controller.Run.{
  Run, pure, observe, perform, attempt, ◌>>=◌, ◌>>◌, for_each,
}
use models_as_a_service_mids.Controller.Cluster.{
  MaasSubscription, StatusCondition, Call, update_subscription_status, Client,
}
use models_as_a_service_mids.Controller.Reconcile.{
  condition_spec_priority_duplicate, send_status_of,
}

abbrev pub int_eq : ℤ → ℤ → Bool
int_eq (pos m) (pos n) = nat_eq m n
int_eq (negsuc m) (negsuc n) = nat_eq m n
int_eq _ _ = false

unfoldable pub print_int : ℤ → Text
unfolding decimal
print_int (pos n) = decimal n
print_int (negsuc n) = b'-' ∷ decimal (suc n)

abbrev pub subscription_key : MaasSubscription → Text
unfolding model_key
subscription_key s = model_key s.namespace s.name

-- The subscriptions that are not being deleted.
unfoldable pub live : List MaasSubscription → List MaasSubscription
unfolding filter
live subs = filter (λ (s : MaasSubscription). not s.is_deleting) subs

-- `byPriority[p]`, sorted
unfoldable pub by_priority : List MaasSubscription → ℤ → List Text
unfolding filter sort_stable text_ltb
by_priority subs p =
    sort_stable text_ltb
      (map subscription_key (filter (λ (s : MaasSubscription). int_eq s.priority p) subs))

unfoldable pub peers : List MaasSubscription → MaasSubscription → List Text
unfolding by_priority filter ◌==◌
peers subs s = filter (λ k. not (k == subscription_key s)) (by_priority subs s.priority)

-- The condition for a subscription with these peers.
unfoldable pub desired_condition :
    (generation : ℤ) → (priority : ℤ) → (peers : List Text) → StatusCondition
unfolding codes condition_spec_priority_duplicate print_int join
desired_condition generation priority peers =
    if is_nil peers
    then record {
      type_name = condition_spec_priority_duplicate;
      status = codes "False";
      reason = codes "NoDuplicatePeers";
      message = [];
      observed_generation = generation;
    }
    else record {
      type_name = condition_spec_priority_duplicate;
      status = codes "True";
      reason = codes "SharedPriority";
      message =
          codes "spec.priority "
          ++ (print_int priority ++ (codes " is shared with: " ++ join (codes ", ") peers));
      observed_generation = generation;
    }

-- `conditionsSemanticallyEqual`, whose second argument is never nil here.
unfoldable pub conditions_semantically_equal : Option StatusCondition → StatusCondition → Bool
unfolding ◌==◌
conditions_semantically_equal none b = false
conditions_semantically_equal (some a) b =
    a.type_name == b.type_name
    && a.status == b.status
    && a.reason == b.reason
    && a.message == b.message
    && int_eq a.observed_generation b.observed_generation

module _ {W R : Type 0} (client : Client W R) where
  abbrev pub with_condition : MaasSubscription → StatusCondition → MaasSubscription
  with_condition s c = record s {
    status = record s.status { conditions = client.set_condition s.status.conditions c };
  }

  -- The subscription as the cluster has it now, for the one of the list.
  unfoldable pub patch_latest :
      List MaasSubscription
      → MaasSubscription
      → Result ClientError MaasSubscription
      → Run W Call Text (Unit {0})
  unfolding desired_condition peers conditions_semantically_equal condition_spec_priority_duplicate
      send_status_of
  patch_latest subs s (err e) = pure tt
  patch_latest subs s (ok latest) =
      let desired = desired_condition latest.generation s.priority (peers subs s) in
      let current =
        client.find_condition latest.status.conditions condition_spec_priority_duplicate in
      if latest.is_deleting
      then pure tt
      else if conditions_semantically_equal current desired
      then pure tt
      else send_status_of client (with_condition latest desired)

  unfoldable pub patch : List MaasSubscription → MaasSubscription → Run W Call Text (Unit {0})
  unfolding patch_latest
  patch subs s =
      attempt (observe (client.get_subscription s.namespace s.name)) >>= patch_latest subs s

  unfoldable pub patch_all : Result Text (List MaasSubscription) → Run W Call Text (Unit {0})
  unfolding live patch
  patch_all (err e) = pure tt
  patch_all (ok all_subs) = for_each (patch (live all_subs)) (live all_subs)

  unfoldable pub scan_for_duplicate_priority : Run W Call Text (Unit {0})
  unfolding patch_all
  scan_for_duplicate_priority = attempt (observe client.list_all_subscriptions) >>= patch_all
