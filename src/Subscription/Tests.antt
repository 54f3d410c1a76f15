-- ===== src/Subscription/Tests.antt =====
-- Runs of the selector, and its theorems at concrete inputs.
use models_as_a_service_mids.Prelude.{
  ◌⊎◌, ◌≡◌, refl, ◌≢◌, ◌↔◌, inl, Text, codes, ◌==◌, text_ltb, contains, contains_char, split_first,
  trim_space, List, [], ◌∷◌, none, filter, find, any, Memᴰ, sort_stable, insert_sorted, IsSortedBy,
  ok, err,
}
use models_as_a_service_mids.Subscription.Types.{
  SelectRequest, Subscription, SelectResponse, to_response, access_denied, model_unhealthy,
  multiple_subscriptions,
}
use models_as_a_service_mids.Subscription.Access.{
  user_has_access, HasAccess, subscription_includes_model, names_model, has_model,
}
use models_as_a_service_mids.Subscription.Health.{
  check_model_health, check_key_creation, check_degraded, check_rate_limit_ready, has_rate_limits,
  reason_not_ready,
}
use models_as_a_service_mids.Subscription.Health.Decision.{
  Serves, check_model_health_iff, name_collision,
}
use models_as_a_service_mids.Subscription.Priority.{sort_subscriptions_by_priority, before}
use models_as_a_service_mids.Subscription.Selector.{
  select, get_all_accessible, select_highest_priority, name_before, qualified_name, find_requested,
  is_candidate, is_listed, select_from,
}
use models_as_a_service_mids.Subscription.Selector.Select.{IsGranted, select-IsGranted}
use models_as_a_service_mids.Subscription.Selector.Automatic.{candidates, select_automatic_iff}
use models_as_a_service_mids.Subscription.Selector.Ranking.{
  RanksFirst, select_highest_priority-RanksFirst, default_skips_health,
}
use models_as_a_service_mids.Subscription.Selector.Listing.{IsOpen, get_all_accessible_lem}
use models_as_a_service_mids.Subscription.Handler.{select_subscription}
use models_as_a_service_mids.Subscription.Handler.Selection.{select_subscription_lem}
use models_as_a_service_mids.Subscription.Samples.{
  basic, premium, degraded, failed, ready_elsewhere,
}

abbrev pub alice : Text
alice = codes "alice"

abbrev team : List Text
team = codes " team" ∷ []

abbrev model : Text
model = codes "llm/llama"

-- What a run of the selector computes with.
program : Unit {0}
unfolding codes ◌==◌ text_ltb contains contains_char split_first trim_space filter find any
    sort_stable insert_sorted to_response user_has_access names_model subscription_includes_model
    has_model check_model_health check_key_creation check_degraded check_rate_limit_ready
    has_rate_limits before sort_subscriptions_by_priority select select_from find_requested
    is_candidate is_listed select_highest_priority get_all_accessible
program = tt

select-premium :
    select (ok (basic ∷ premium ∷ [])) team alice (codes "premium") model ≡ ok (to_response premium)
unfolding program
select-premium = refl

select-denied :
    select (ok (basic ∷ premium ∷ [])) [] alice (codes "maas/premium") model
    ≡ err (access_denied (codes "maas/premium"))
unfolding program
select-denied = refl

select-many :
    select (ok (basic ∷ premium ∷ [])) team alice [] model
    ≡ err (multiple_subscriptions (codes "premium" ∷ codes "basic" ∷ []))
unfolding program
select-many = refl

default-premium :
    select_highest_priority (ok (basic ∷ premium ∷ [])) team alice ≡ ok (to_response premium)
unfolding program
default-premium = refl

shown-alice :
    get_all_accessible (ok (premium ∷ failed ∷ basic ∷ [])) team alice
    ≡ ok (to_response basic ∷ to_response premium ∷ [])
unfolding program
shown-alice = refl

select-IsGranted_example :
    (sub : Subscription) × IsGranted (basic ∷ premium ∷ []) team alice (codes "premium") model sub
    × (to_response premium ≡ to_response sub)
select-IsGranted_example =
    select-IsGranted (basic ∷ premium ∷ []) team alice (codes "premium") model (to_response premium)
      select-premium

get_all_accessible_example :
    IsSortedBy name_before (to_response basic ∷ to_response premium ∷ [])
    × ((r : SelectResponse)
        → Memᴰ r (to_response basic ∷ to_response premium ∷ [])
        → (sub : Subscription) × Memᴰ sub (premium ∷ failed ∷ basic ∷ [])
          × IsOpen alice team sub
          × (r ≡ to_response sub))
    × ((sub : Subscription)
        → Memᴰ sub (premium ∷ failed ∷ basic ∷ [])
        → IsOpen alice team sub
        → Memᴰ (to_response sub) (to_response basic ∷ to_response premium ∷ []))
get_all_accessible_example =
    get_all_accessible_lem (premium ∷ failed ∷ basic ∷ []) team alice
      (to_response basic ∷ to_response premium ∷ []) shown-alice

select_automatic_example :
    (select (ok (basic ∷ premium ∷ [])) [] alice [] model ≡ ok (to_response basic)) ↔ (
      (sub : Subscription) × (candidates [] alice model (basic ∷ premium ∷ []) ≡ sub ∷ [])
      × (check_model_health sub model ≡ none)
      × (to_response basic ≡ to_response sub))
unfolding codes
select_automatic_example =
    select_automatic_iff (basic ∷ premium ∷ []) [] alice model (to_response basic) refl

check_model_health_example : (check_model_health degraded model ≡ none) ↔ Serves degraded model
unfolding codes
check_model_health_example = check_model_health_iff degraded model (λ e. cc)

name_collision_example : check_model_health degraded model ≡ none
unfolding program
name_collision_example =
    name_collision degraded model (codes "llm") (codes "llama") ready_elsewhere [] refl refl refl
      refl refl

select_highest_priority_example :
    (sub : Subscription) × Memᴰ sub (basic ∷ premium ∷ [])
    × HasAccess sub alice team
    × ((other : Subscription)
        → Memᴰ other (basic ∷ premium ∷ [])
        → HasAccess other alice team
        → RanksFirst sub other)
    × (to_response premium ≡ to_response sub)
select_highest_priority_example =
    select_highest_priority-RanksFirst (basic ∷ premium ∷ []) team alice (to_response premium)
      default-premium

default_skips_health_example :
    (select_highest_priority (ok (failed ∷ [])) [] alice ≡ ok (to_response failed))
    × ((message : Text) × (select (ok (failed ∷ [])) [] alice (qualified_name failed) []
          ≡ err (model_unhealthy failed.name failed.phase reason_not_ready message)))
unfolding codes
default_skips_health_example = default_skips_health failed [] alice refl (inl (Memᴰ.head refl)) refl

abbrev authorino_request : SelectRequest
authorino_request = record {
  groups = team;
  username = alice;
  requested_subscription = codes "premium";
  requested_model = model;
}

select_subscription_example :
    let r = select_subscription (ok (basic ∷ premium ∷ [])) (ok authorino_request) in
    ((r.error ≢ []) × (r.name ≡ []))
    ⊎ ((r.error ≡ [])
        × (sub : Subscription) × IsGranted
            (basic ∷ premium ∷ [])
            team
            alice
            (codes "premium")
            model
            sub
        × (r ≡ to_response sub))
select_subscription_example = select_subscription_lem (basic ∷ premium ∷ []) authorino_request
