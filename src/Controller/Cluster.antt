-- ===== src/Controller/Cluster.antt =====
-- The objects of the cluster that the reconcilers read and write, and the calls of its API
-- (`client.Client` of controller-runtime), which are parameters.
use models_as_a_service_mids.Prelude.{
  Text, codes, ◌==◌, List, Option, none, some, Bool, true, not, Result,
}
use models_as_a_service_mids.Prelude.Int.{ℤ}
use models_as_a_service_mids.Controller.Types.{
  Phase, LimitSpec, ModelSubscriptionRef, ModelRefStatus, PolicyStatus, ClientError, ObjectStatus,
}
use models_as_a_service_mids.Controller.Texts.{lookup_key}

abbrev pub Labels : Type 0
Labels = List (Text × Text)

-- `metav1.Condition`, without the time that the cluster's library keeps.
pub record StatusCondition : Type 0 where
  pub type_name : Text
  pub status : Text
  pub reason : Text
  pub message : Text
  pub observed_generation : ℤ

-- The phase is none where the field is empty.
pub record SubscriptionStatus : Type 0 where
  pub phase : Option Phase
  pub conditions : List StatusCondition
  pub model_ref_statuses : List ModelRefStatus
  pub token_rate_limit_statuses : List PolicyStatus

-- A MaaSSubscription, as far as the reconciler looks at it.
pub record MaasSubscription : Type 0 where
  pub name : Text
  pub namespace : Text
  pub is_deleting : Bool
  pub generation : ℤ
  pub finalizers : List Text
  pub priority : ℤ
  pub model_refs : List ModelSubscriptionRef
  pub status : SubscriptionStatus

-- `spec.modelRef` names the backend of a kind.
pub record ModelRef : Type 0 where
  pub name : Text
  pub namespace : Text
  pub is_deleting : Bool
  pub kind : Text
  pub target : Text

-- One entry of the limits of a TokenRateLimitPolicy.
pub record LimitEntry : Type 0 where
  pub rates : List LimitSpec
  pub predicate : Text
  pub counter : Text

-- The spec of a TokenRateLimitPolicy: one that the reconciler has written, or any other.
pub data PolicySpec : Type 0 where
  limits_for : (route : Text) → (limits : List (Text × LimitEntry)) → PolicySpec
  foreign_spec : Text → PolicySpec

-- A policy of Kuadrant, an unstructured object.
pub record Policy : Type 0 where
  pub name : Text
  pub namespace : Text
  pub labels : Labels
  pub annotations : List (Text × Text)
  pub owners : List Text
  pub spec : PolicySpec
  pub status : ObjectStatus

-- Why a list of objects was not returned: the kind or the object is not there, or another error.
pub data PolicyListError : Type 0 where
  absent : PolicyListError
  list_failed : Text → PolicyListError

unfoldable pub managed_value : Option Text → Bool
unfolding codes
managed_value none = true
managed_value (some value) = not (value == codes "false")

-- `isManaged`
unfoldable pub is_managed_by : List (Text × Text) → Bool
unfolding lookup_key codes managed_value
is_managed_by annotations = managed_value (lookup_key annotations (codes "opendatahub.io/managed"))

abbrev pub is_managed : Policy → Bool
is_managed p = is_managed_by p.annotations

-- The calls that change the cluster.
pub data Call : Type 0 where
  create_policy update_policy delete_policy : Policy → Call
  update_subscription update_subscription_status : MaasSubscription → Call

-- The calls of the API, each of which may find the world changed. R is a route.
pub record Client (W R : Type 0) : Type 0 where
  pub list_subscriptions : (model_key : Text) → W → Result Text (List MaasSubscription) × W
  pub list_all_subscriptions : W → Result Text (List MaasSubscription) × W
  pub get_subscription : (namespace name : Text) → W → Result ClientError MaasSubscription × W
  pub get_model : (namespace name : Text) → W → Result ClientError ModelRef × W
  pub get_route : (namespace name : Text) → W → Result ClientError R × W
  pub list_routes : (namespace : Text) → Labels → W → Result Text (List (Text × Text)) × W
  pub get_policy : (namespace name : Text) → W → Result ClientError Policy × W
  pub list_policies : Labels → W → Result PolicyListError (List Policy) × W
  pub send_create : Policy → W → Result Text (Unit {0}) × W
  pub send_update : Policy → W → Result Text (Unit {0}) × W
  pub send_delete : Policy → W → Result ClientError (Unit {0}) × W
  pub send_subscription : MaasSubscription → W → Result Text MaasSubscription × W
  pub send_status : MaasSubscription → W → Result Text (Unit {0}) × W
  pub set_owner : R → Policy → Result Text Policy
  pub same_policy : Policy → Policy → Bool
  pub same_status : SubscriptionStatus → SubscriptionStatus → Bool
  pub find_condition : List StatusCondition → Text → Option StatusCondition
  pub set_condition : List StatusCondition → StatusCondition → List StatusCondition
  pub has_finalizer : List Text → Text → Bool
  pub add_finalizer : List Text → Text → List Text
  pub remove_finalizer : List Text → Text → List Text
