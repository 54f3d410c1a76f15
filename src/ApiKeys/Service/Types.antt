-- ===== src/ApiKeys/Service/Types.antt =====
-- service.go: the types of the service, its errors and the two kinds of validation results.
use models_as_a_service_mids.Prelude.{ℕ, Text, List, [], Option, Bool, true, false, Result}
use models_as_a_service_mids.Prelude.Int.{ℤ}
use models_as_a_service_mids.Subscription.Types.{SelectResponse, SelectError}
use models_as_a_service_mids.ApiKeys.Types.{Time, ApiKey, StoreError}

pub record SubscriptionSelector : Type 0 where
  pub select : List Text → Text → Text → Text → Result SelectError SelectResponse
  pub select_highest_priority : List Text → Text → Result SelectError SelectResponse

pub record CreateApiKeyResponse : Type 0 where
  pub key : Text
  pub key_prefix : Text
  pub id : Text
  pub name : Text
  pub subscription : Text
  pub created_at : Text
  pub expires_at : Option Text
  pub ephemeral : Bool

pub record ValidationResult : Type 0 where
  pub valid : Bool
  pub user_id : Text
  pub username : Text
  pub key_id : Text
  pub groups : List Text
  pub subscription : Text
  pub reason : Text

-- The errors of the service. Each wraps the error that it stands for.
pub data ServiceError : Type 0 where
  expiration_not_positive : ServiceError
  ephemeral_exceeds_max : (duration : ℤ) → ServiceError
  regular_exceeds_max : (duration max_days : ℤ) → ServiceError
  generate_failed : Text → ServiceError
  selection_failed : SelectError → ServiceError
  not_stored : StoreError → ServiceError
  lookup_failed : StoreError → ServiceError
  invalid_key_id : Text → ServiceError
  username_required : ServiceError
  cleanup_failed : StoreError → ServiceError
  from_store : StoreError → ServiceError

-- A `time.Duration`: nanoseconds in an int64.
abbrev pub Duration : Type 0
Duration = ℤ

-- The arguments of `CreateAPIKey`.
pub record CreateRequest : Type 0 where
  pub username : Text
  pub user_groups : List Text
  pub name : Text
  pub description : Text
  pub expires_in : Option Duration
  pub ephemeral : Bool
  pub requested_subscription : Text

-- What a creation draws from outside: the times of its three looks at the clock (for the expiry,
-- for the store and for the answer), the two random reads and the new id.
pub record Draws : Type 0 where
  pub asked : Time
  pub stored : Time
  pub answered : Time
  pub key_id_read : Result Text (List ℕ)
  pub secret_read : Result Text (List ℕ)
  pub new_id : Text

abbrev pub rejected : Text → ValidationResult
rejected reason = record {
  valid = false;
  user_id = [];
  username = [];
  key_id = [];
  groups = [];
  subscription = [];
  reason = reason;
}

abbrev pub identified : ApiKey → ValidationResult
identified metadata = record {
  valid = true;
  user_id = metadata.id;
  username = metadata.username;
  key_id = metadata.id;
  groups = metadata.groups;
  subscription = metadata.subscription;
  reason = [];
}
