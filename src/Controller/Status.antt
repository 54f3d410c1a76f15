-- ===== src/Controller/Status.antt =====
-- maassubscription_controller.go: the status of a subscription, from what the reconciler reads of
-- the cluster. `get_model`, `find_route` and `get_policy` are the reads, whose results are
-- arguments.
pub mod Verdict
pub mod Distinct
pub mod Health
pub mod Collision
use models_as_a_service_mids.Prelude.{
  ℕ, suc, ◌+◌, ◌-◌, Text, codes, ◌==◌, contains, List, [], ◌∷◌, ◌++◌, map, Option, none, some, Bool,
  true, false, ◌&&◌, ◌||◌, not, any, filter, find, length, is_nil, ltb, leb, Result, ok, err,
  if◌then◌else◌,
}
use models_as_a_service_mids.Controller.Types.{
  Phase, active, degraded, failed, ConditionReason, valid, not_found, get_failed, accepted,
  not_accepted, backend_not_ready, ModelSubscriptionRef, ModelRefStatus, PolicyStatus, ClientError,
  missing, broken, error_text, model_key, ref_key, Condition, ObjectStatus, no_status,
  no_conditions, conditions,
}

-- The references that a loop with a `seen` map does not skip, where `seen` holds the keys so far.
unfoldable pub distinct : List Text → List ModelSubscriptionRef → List ModelSubscriptionRef
distinct seen [] = []
distinct seen (ref ∷ refs) =
    let first = ref ∷ distinct (ref_key ref ∷ seen) refs in
    let again = distinct seen refs in if contains seen (ref_key ref) then again else first

-- The outcome of reading a MaaSModelRef, of which the reconciler only asks whether it is there.
abbrev pub ReadModel : Type 0
ReadModel = Text → Text → Result ClientError (Unit {0})

unfoldable pub model_status : ReadModel → ModelSubscriptionRef → ModelRefStatus
unfolding codes model_key
model_status get_model ref = elim (get_model ref.namespace ref.name) [
  | ok _ ↦ record {
    name = ref.name;
    namespace = ref.namespace;
    ready = true;
    reason = valid;
    message = [];
  }
  | err (missing _) ↦ record {
    name = ref.name;
    namespace = ref.namespace;
    ready = false;
    reason = not_found;
    message = codes "MaaSModelRef " ++ (model_key ref.namespace ref.name ++ codes " not found");
  }
  | err (broken e) ↦ record {
    name = ref.name;
    namespace = ref.namespace;
    ready = false;
    reason = get_failed;
    message = codes "failed to get MaaSModelRef: " ++ e;
  }
]

unfoldable pub validate_model_refs : ReadModel → List ModelSubscriptionRef → List ModelRefStatus
unfolding distinct
validate_model_refs get_model refs = map (model_status get_model) (distinct [] refs)

-- `cond["type"] == "Accepted"`
unfoldable pub is_text : Option Text → Text → Bool
is_text none t = false
is_text (some s) t = s == t

unfoldable pub is_accepted_condition : Option Condition → Bool
unfolding is_text codes
is_accepted_condition none = false
is_accepted_condition (some c) = is_text c.type_name (codes "Accepted")

unfoldable pub condition_outcome : Condition → Bool × Text
unfolding is_text codes
condition_outcome c = if is_text c.status (codes "True") then (true, []) else elim c.message [
  | some text ↦ (false, text)
  | none ↦ (false, codes "Accepted condition is False")
]

unfoldable pub first_accepted : List (Option Condition) → Bool × Text
unfolding is_accepted_condition condition_outcome codes
first_accepted [] = (false, codes "Accepted condition not found")
first_accepted (none ∷ cs) = first_accepted cs
first_accepted (some c ∷ cs) =
    let later = first_accepted cs in
    if is_accepted_condition (some c) then condition_outcome c else later

unfoldable pub get_trlp_accepted_condition : ObjectStatus → Bool × Text
unfolding first_accepted codes
get_trlp_accepted_condition no_status = (false, codes "status not available")
get_trlp_accepted_condition no_conditions = (false, codes "conditions not found")
get_trlp_accepted_condition (conditions cs) = first_accepted cs

-- Why no HTTPRoute was found for a model.
pub data RouteError : Type 0 where
  route_not_found model_not_found : Text → RouteError
  route_failure : Text → RouteError

abbrev pub route_error_text : RouteError → Text
route_error_text (route_not_found t) = t
route_error_text (model_not_found t) = t
route_error_text (route_failure t) = t

-- The name and the namespace of the HTTPRoute of a model.
abbrev pub FindRoute : Type 0
FindRoute = Text → Text → Result RouteError (Text × Text)

-- The status of the TokenRateLimitPolicy of a namespace and a name.
abbrev pub ReadPolicy : Type 0
ReadPolicy = Text → Text → Result ClientError ObjectStatus

unfoldable pub policy_name : Text → Text
unfolding codes
policy_name model = codes "maas-trlp-" ++ model

abbrev pub policy_status :
    ModelSubscriptionRef → Text → Bool → ConditionReason → Text → PolicyStatus
policy_status ref namespace ready reason message = record {
  name = policy_name ref.name;
  namespace = namespace;
  ready = ready;
  reason = reason;
  message = message;
  model = ref.name;
}

unfoldable pub accepted_status : ModelSubscriptionRef → Text → Bool × Text → PolicyStatus
accepted_status ref route_namespace (true, message) =
    policy_status ref route_namespace true accepted []
accepted_status ref route_namespace (false, message) =
    policy_status ref route_namespace false not_accepted message

-- The status of the policy in the namespace of the route.
unfoldable pub read_policy_status : ReadPolicy → ModelSubscriptionRef → Text → PolicyStatus
unfolding accepted_status codes
read_policy_status get_policy ref route_namespace =
    elim (get_policy route_namespace (policy_name ref.name)) [
      | err (missing _) ↦
          policy_status ref route_namespace false not_found
            (codes "TokenRateLimitPolicy not created yet")
      | err (broken e) ↦
          policy_status ref route_namespace false get_failed
            (codes "failed to get TokenRateLimitPolicy: " ++ e)
      | ok status ↦ accepted_status ref route_namespace (get_trlp_accepted_condition status)
    ]

unfoldable pub no_route_status : ModelSubscriptionRef → RouteError → PolicyStatus
unfolding codes
no_route_status ref (route_failure e) =
    policy_status ref ref.namespace false get_failed
      (codes "failed to find HTTPRoute for model: " ++ e)
no_route_status ref (route_not_found e) =
    policy_status ref ref.namespace false backend_not_ready
      (codes "HTTPRoute not found yet; TokenRateLimitPolicy cannot be created: " ++ e)
no_route_status ref (model_not_found e) =
    policy_status ref ref.namespace false backend_not_ready
      (codes "HTTPRoute not found yet; TokenRateLimitPolicy cannot be created: " ++ e)

unfoldable pub health_of : FindRoute → ReadPolicy → ModelSubscriptionRef → PolicyStatus
unfolding read_policy_status no_route_status
health_of find_route get_policy ref = elim (find_route ref.namespace ref.name) [
  | err e ↦ no_route_status ref e
  | ok (route, route_namespace) ↦ read_policy_status get_policy ref route_namespace
]

unfoldable pub check_token_rate_limit_health :
    FindRoute → ReadPolicy → List ModelSubscriptionRef → List PolicyStatus
unfolding health_of distinct
check_token_rate_limit_health find_route get_policy refs =
    map (health_of find_route get_policy) (distinct [] refs)

abbrev pub is_backend_not_ready : ConditionReason → Bool
is_backend_not_ready backend_not_ready = true
is_backend_not_ready _ = false

-- The map `backendNotReady`, read at a key: a later entry replaces an earlier one.
unfoldable pub backend_message : List PolicyStatus → Text → Option Text
backend_message [] key = none
backend_message (s ∷ rest) key = elim (backend_message rest key) [
  | some text ↦ some text
  | none ↦
      if is_backend_not_ready s.reason && model_key s.namespace s.model == key
      then some s.message
      else none
]

-- A model that was reported valid while its backend is not there.
unfoldable pub correct_status : List PolicyStatus → ModelRefStatus → ModelRefStatus
unfolding backend_message
correct_status policies s = elim (backend_message policies (model_key s.namespace s.name)) [
  | none ↦ s
  | some text ↦
      if s.ready then record s { ready = false; reason = not_found; message = text } else s
]

-- The messages of `deriveFinalPhase`, which prints the numbers.
pub data PhaseMessage : Type 0 where
  no_references successfully_reconciled : PhaseMessage
  all_invalid : (models : ℕ) → PhaseMessage
  some_invalid : (invalid models : ℕ) → PhaseMessage
  not_all_accepted : (issues policies : ℕ) → PhaseMessage

abbrev pub count {ℓ} : {A : Type ℓ} → (A → Bool) → List A → ℕ
count p xs = length (filter p xs)

-- `validModelSet` holds the names of the valid models.
unfoldable pub is_valid_name : List ModelRefStatus → Text → Bool
is_valid_name models name = any (λ s. s.ready && s.name == name) models

-- A policy that is not ready for lack of a backend, of a model that was reported valid.
unfoldable pub is_backend_issue : List ModelRefStatus → PolicyStatus → Bool
unfolding is_valid_name
is_backend_issue models p =
    not p.ready && is_backend_not_ready p.reason && is_valid_name models p.model

unfoldable pub derive_final_phase : List ModelRefStatus → List PolicyStatus → Phase × PhaseMessage
unfolding is_backend_issue
derive_final_phase models policies =
    let valid_models = count (λ (s : ModelRefStatus). s.ready) models in
    let invalid_models = count (λ (s : ModelRefStatus). not s.ready) models in
    let unhealthy = count (λ (p : PolicyStatus). not p.ready) policies in
    let backend_issues = count (is_backend_issue models) policies in
    if is_nil models
    then (failed, no_references)
    else if leb valid_models backend_issues
    then (failed, all_invalid (length models))
    else if ltb 0 (invalid_models + backend_issues)
    then (degraded, some_invalid (invalid_models + backend_issues) (length models))
    else if ltb backend_issues unhealthy
    then (degraded, not_all_accepted (unhealthy - backend_issues) (length policies))
    else (active, successfully_reconciled)

-- The status that a reconciliation without errors writes.
pub record StatusOutcome : Type 0 where
  pub models : List ModelRefStatus
  pub policies : List PolicyStatus
  pub phase : Phase
  pub message : PhaseMessage

unfoldable pub derive_status :
    ReadModel → FindRoute → ReadPolicy → List ModelSubscriptionRef → StatusOutcome
unfolding validate_model_refs check_token_rate_limit_health correct_status derive_final_phase
derive_status get_model find_route get_policy refs =
    let policies = check_token_rate_limit_health find_route get_policy refs in
    let models = map (correct_status policies) (validate_model_refs get_model refs) in
    let outcome = derive_final_phase models policies in
    record { models = models; policies = policies; phase = outcome.0; message = outcome.1 }
