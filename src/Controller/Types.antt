-- ===== src/Controller/Types.antt =====
-- api/maas/v1alpha1 (maassubscription_types.go, common_types.go): what the reconciler reads and
-- writes of a MaaSSubscription, and the objects of the cluster that it looks at.
use models_as_a_service_mids.Prelude.{Text, List, ◌++◌, ◌∷◌, Option, Bool}
use models_as_a_service_mids.Prelude.Int.{ℤ}

pub data Phase : Type 0 where
  pending active degraded failed : Phase

-- The reasons that the reconciler of subscriptions uses.
pub data ConditionReason : Type 0 where
  reconciled reconcile_failed partial_failure : ConditionReason
  valid not_found get_failed accepted not_accepted backend_not_ready : ConditionReason
  unknown : ConditionReason

-- `TokenRateLimit` of the API.
pub record LimitSpec : Type 0 where
  pub limit : ℤ
  pub window : Text

-- A reference to a model; the billing rate is left out, as the reconciler does not read it.
pub record ModelSubscriptionRef : Type 0 where
  pub name : Text
  pub namespace : Text
  pub token_rate_limits : List LimitSpec

pub record ModelRefStatus : Type 0 where
  pub name : Text
  pub namespace : Text
  pub ready : Bool
  pub reason : ConditionReason
  pub message : Text

-- `TokenRateLimitStatus` of the API.
pub record PolicyStatus : Type 0 where
  pub name : Text
  pub namespace : Text
  pub ready : Bool
  pub reason : ConditionReason
  pub message : Text
  pub model : Text

-- An error of the cluster's API, with its text.
pub data ClientError : Type 0 where
  missing : Text → ClientError
  broken : Text → ClientError

abbrev pub error_text : ClientError → Text
error_text (missing t) = t
error_text (broken t) = t

-- `ref.Namespace + "/" + ref.Name`
unfoldable pub model_key : Text → Text → Text
model_key namespace name = namespace ++ b'/' ∷ name

abbrev pub ref_key : ModelSubscriptionRef → Text
ref_key ref = model_key ref.namespace ref.name

-- An entry of the `conditions` of an unstructured object. A missing value, or one that is no
-- string, is `none`.
pub record Condition : Type 0 where
  pub type_name : Option Text
  pub status : Option Text
  pub message : Option Text

-- The `status` of an unstructured object: none that is a map, no list of conditions in it, or the
-- list, where an entry that is no map is `none`.
pub data ObjectStatus : Type 0 where
  no_status no_conditions : ObjectStatus
  conditions : List (Option Condition) → ObjectStatus
