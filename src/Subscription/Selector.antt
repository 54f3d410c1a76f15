-- ===== src/Subscription/Selector.antt =====
-- selector.go: the selection of a subscription for a request or for a new API key. `loaded` is
-- what `loadSubscriptions` returns: the parsed objects of the informer cache, or the lister's error.
pub mod Select
pub mod Automatic
pub mod Ranking
pub mod Listing
use models_as_a_service_mids.Prelude.{
  Text, ◌==◌, contains_char, text_ltb, List, [], ◌∷◌, ◌++◌, map, Option, none, some, Bool, true,
  false, ◌&&◌, ◌||◌, not, is_nil, filter, find, sort_stable, Result, ok, err, ◌>>=◌, map_err,
  if◌then◌else◌,
}
use models_as_a_service_mids.Subscription.Types.{
  Subscription, SelectResponse, SubscriptionInfo, SelectError, caller_missing, load_failed,
  no_subscription, subscription_not_found, access_denied, multiple_subscriptions,
  model_not_in_subscription, phase_active, phase_degraded, to_response, to_subscription_info,
}
use models_as_a_service_mids.Subscription.Access.{
  user_has_access, subscription_includes_model, has_model,
}
use models_as_a_service_mids.Subscription.Health.{check_model_health}
use models_as_a_service_mids.Subscription.Priority.{sort_subscriptions_by_priority}

abbrev pub Loaded : Type 0
Loaded = Result Text (List Subscription)

-- Both are missing: `len(groups) == 0 && username == ""`.
abbrev pub no_caller : List Text → Text → Bool
no_caller groups username = is_nil groups && is_nil username

-- Which subscriptions the listing endpoint shows.
unfoldable pub is_listed : Text → List Text → Subscription → Bool
is_listed username groups sub =
    user_has_access sub username groups
    && (sub.phase == phase_active || sub.phase == phase_degraded)
    && elim sub.deletion_timestamp [ none ↦ true | some _ ↦ false ]

unfoldable pub name_before : SelectResponse → SelectResponse → Bool
name_before a b = text_ltb a.name b.name

unfoldable pub get_all_accessible :
    Loaded → List Text → Text → Result SelectError (List SelectResponse)
unfolding name_before
get_all_accessible loaded groups username =
    if no_caller groups username then err caller_missing else do
      subscriptions ← map_err load_failed loaded
      ok (
          sort_stable name_before
            (map to_response (filter (is_listed username groups) subscriptions)))

unfoldable pub qualified_name : Subscription → Text
qualified_name sub = sub.namespace ++ b'/' ∷ sub.name

or_respond : Option SelectError → Subscription → Result SelectError SelectResponse
or_respond (some e) sub = err e
or_respond none sub = ok (to_response sub)

-- The body of both loops of the explicit selection, for the subscription that the name matches.
unfoldable pub admit :
    List Text → Text → Text → Text → Subscription → Result SelectError SelectResponse
unfolding or_respond
admit groups username requested_subscription requested_model sub =
    if not (user_has_access sub username groups)
    then err (access_denied requested_subscription)
    else if not (is_nil requested_model) && not (subscription_includes_model sub requested_model)
    then err (model_not_in_subscription requested_subscription requested_model)
    else or_respond (check_model_health sub requested_model) sub

-- The subscription that an explicit request names: the first one of that qualified name, or, for a
-- name with no slash, the first one of that bare name.
unfoldable pub find_requested : Text → List Subscription → Option Subscription
unfolding qualified_name
find_requested requested subs = elim (find (λ sub. qualified_name sub == requested) subs) [
  | some sub ↦ some sub
  | none ↦ if contains_char b'/' requested then none else find (λ sub. sub.name == requested) subs
]

unfoldable pub select_explicit :
    List Text → Text → Text → Text → List Subscription → Result SelectError SelectResponse
unfolding admit
select_explicit groups username requested_subscription requested_model subs =
    elim (find_requested requested_subscription subs) [
      | some sub ↦ admit groups username requested_subscription requested_model sub
      | none ↦ err (subscription_not_found requested_subscription)
    ]

-- May the subscription be selected for the caller without a request for it?
unfoldable pub is_candidate : List Text → Text → Text → Subscription → Bool
is_candidate groups username requested_model sub =
    user_has_access sub username groups
    && not (not (is_nil requested_model) && not (subscription_includes_model sub requested_model))

unfoldable pub select_only : Text → List Subscription → Result SelectError SelectResponse
unfolding or_respond
select_only requested_model [] = err no_subscription
select_only requested_model (sub ∷ []) = or_respond (check_model_health sub requested_model) sub
select_only requested_model (a ∷ b ∷ rest) =
    err (multiple_subscriptions (map (λ sub. sub.name) (a ∷ b ∷ rest)))

unfoldable pub select_automatic :
    List Text → Text → Text → List Subscription → Result SelectError SelectResponse
unfolding select_only
select_automatic groups username requested_model subs =
    select_only requested_model (filter (is_candidate groups username requested_model) subs)

-- What `Select` does once the subscriptions are loaded.
unfoldable pub select_from :
    List Text → Text → Text → Text → List Subscription → Result SelectError SelectResponse
unfolding select_explicit select_automatic
select_from groups username requested_subscription requested_model subscriptions =
    let subs = sort_subscriptions_by_priority subscriptions in
    if is_nil subscriptions
    then err no_subscription
    else if not (is_nil requested_subscription)
    then select_explicit groups username requested_subscription requested_model subs
    else select_automatic groups username requested_model subs

unfoldable pub select : Loaded → List Text → Text → Text → Text → Result SelectError SelectResponse
unfolding select_from
select loaded groups username requested_subscription requested_model =
    if no_caller groups username then err caller_missing else (do
      subscriptions ← map_err load_failed loaded
      select_from groups username requested_subscription requested_model subscriptions)

first_response : List Subscription → Result SelectError SelectResponse
first_response [] = err no_subscription
first_response (sub ∷ rest) = ok (to_response sub)

unfoldable pub select_highest_priority :
    Loaded → List Text → Text → Result SelectError SelectResponse
unfolding first_response
select_highest_priority loaded groups username =
    if no_caller groups username then err caller_missing else do
      subscriptions ← map_err load_failed loaded
      let accessible = filter (λ sub. user_has_access sub username groups) subscriptions
      first_response (sort_subscriptions_by_priority accessible)

unfoldable pub header_before : SubscriptionInfo → SubscriptionInfo → Bool
header_before a b = text_ltb a.subscription_id_header b.subscription_id_header

unfoldable pub list_accessible_for_model :
    Loaded → Text → List Text → Text → Result SelectError (List SubscriptionInfo)
unfolding header_before
list_accessible_for_model loaded username groups model_id = do
  subscriptions ← map_err load_failed loaded
  ok (
      sort_stable header_before (
        map to_subscription_info (
          filter (λ sub. user_has_access sub username groups && has_model sub model_id)
            subscriptions)))
