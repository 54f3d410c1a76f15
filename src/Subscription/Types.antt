-- ===== src/Subscription/Types.antt =====
-- types.go, and the types of selector.go with their conversions.
use models_as_a_service_mids.Prelude.{
  ℕ, Text, codes, List, [], ◌++◌, Option, none, some, Bool, is_nil, if◌then◌else◌,
}
use models_as_a_service_mids.Prelude.Int.{ℤ}

pub record TokenRateLimit : Type 0 where
  pub limit : ℤ
  pub window : Text

pub record BillingRate : Type 0 where
  pub per_token : Text

pub record ModelRefInfo : Type 0 where
  pub name : Text
  pub namespace : Text
  pub token_rate_limits : List TokenRateLimit
  pub billing_rate : Option BillingRate

pub record TokenRateLimitStatus : Type 0 where
  pub model : Text
  pub name : Text
  pub namespace : Text
  pub ready : Bool
  pub reason : Text
  pub message : Text

-- A Go map from strings to strings, nil or not.
abbrev pub Labels : Type 0
Labels = Option (List (Text × Text))

-- `priority` is an int32 that the parser keeps at 0 or more. Nil slices are empty lists.
pub record Subscription : Type 0 where
  pub name : Text
  pub namespace : Text
  pub display_name : Text
  pub description : Text
  pub groups : List Text
  pub users : List Text
  pub priority : ℕ
  pub max_limit : ℤ
  pub organization_id : Text
  pub cost_center : Text
  pub labels : Labels
  pub model_refs : List ModelRefInfo
  pub phase : Text
  pub ready : Bool
  pub deletion_timestamp : Option Text
  pub token_rate_limit_statuses : List TokenRateLimitStatus

pub record SelectResponse : Type 0 where
  pub name : Text
  pub namespace : Text
  pub display_name : Text
  pub description : Text
  pub priority : ℕ
  pub model_refs : List ModelRefInfo
  pub organization_id : Text
  pub cost_center : Text
  pub labels : Labels
  pub phase : Text
  pub ready : Bool
  pub deletion_timestamp : Text
  pub error : Text
  pub message : Text

pub record SubscriptionInfo : Type 0 where
  pub subscription_id_header : Text
  pub subscription_description : Text
  pub display_name : Text
  pub priority : ℕ
  pub model_refs : List ModelRefInfo
  pub organization_id : Text
  pub cost_center : Text
  pub labels : Labels

pub record SelectRequest : Type 0 where
  pub groups : List Text
  pub username : Text
  pub requested_subscription : Text
  pub requested_model : Text

-- The errors of the selector. `caller_missing` is the one that `errors.New` makes, and
-- `load_failed` wraps the text of the lister's error.
pub data SelectError : Type 0 where
  caller_missing : SelectError
  load_failed : Text → SelectError
  no_subscription : SelectError
  subscription_not_found : (subscription : Text) → SelectError
  access_denied : (subscription : Text) → SelectError
  multiple_subscriptions : (subscriptions : List Text) → SelectError
  model_not_in_subscription : (subscription model : Text) → SelectError
  model_unhealthy : (subscription phase reason message : Text) → SelectError

abbrev pub phase_pending : Text
phase_pending = codes "Pending"

abbrev pub phase_active : Text
phase_active = codes "Active"

abbrev pub phase_degraded : Text
phase_degraded = codes "Degraded"

abbrev pub phase_failed : Text
phase_failed = codes "Failed"

or_empty : Option Text → Text
or_empty none = []
or_empty (some t) = t

unfoldable pub to_response : Subscription → SelectResponse
unfolding or_empty
to_response sub = record {
  name = sub.name;
  namespace = sub.namespace;
  display_name = sub.display_name;
  description = sub.description;
  priority = sub.priority;
  model_refs = sub.model_refs;
  organization_id = sub.organization_id;
  cost_center = sub.cost_center;
  labels = sub.labels;
  phase = sub.phase;
  ready = sub.ready;
  deletion_timestamp = or_empty sub.deletion_timestamp;
  error = [];
  message = [];
}

-- The description, or else the display name, or else the name.
describe : Text → Text → Text → Text
describe description display_name name =
    let desc = if is_nil description then display_name else description in
    if is_nil desc then name else desc

unfoldable pub to_subscription_info : Subscription → SubscriptionInfo
unfolding describe
to_subscription_info sub = record {
  subscription_id_header = sub.name;
  subscription_description = describe sub.description sub.display_name sub.name;
  display_name = sub.display_name;
  priority = sub.priority;
  model_refs = sub.model_refs;
  organization_id = sub.organization_id;
  cost_center = sub.cost_center;
  labels = sub.labels;
}

unfoldable pub response_to_subscription_info : SelectResponse → SubscriptionInfo
unfolding describe
response_to_subscription_info sub = record {
  subscription_id_header = sub.name;
  subscription_description = describe sub.description sub.display_name sub.name;
  display_name = sub.display_name;
  priority = sub.priority;
  model_refs = sub.model_refs;
  organization_id = sub.organization_id;
  cost_center = sub.cost_center;
  labels = sub.labels;
}

-- The `Error` methods.
unfoldable pub error_message : SelectError → Text
error_message caller_missing = codes "either groups or username must be provided"
error_message (load_failed e) = codes "failed to load subscriptions: " ++ e
error_message no_subscription = codes "no matching subscription found for user"
error_message (subscription_not_found s) = codes "requested subscription not found"
error_message (access_denied s) = codes "access denied to requested subscription"
error_message (multiple_subscriptions names) =
    codes
      "user has access to multiple subscriptions, must specify subscription using X-MaaS-Subscription header"
error_message (model_not_in_subscription s m) =
    codes "subscription " ++ (s ++ (codes " does not include model " ++ m))
error_message (model_unhealthy s p r m) = codes "requested model is unhealthy in subscription"
