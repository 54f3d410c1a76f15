-- ===== src/Subscription/Health.antt =====
-- selector.go, `checkModelHealth`: may a request be served (a model is requested) or an API key be
-- minted (no model is requested) on a subscription in its phase? `none` is Go's nil error.
pub mod Decision
use models_as_a_service_mids.Prelude.{
  Text, codes, ◌==◌, split_first, List, ◌++◌, Option, none, some, Bool, true, false, ◌&&◌, not,
  is_nil, find, if◌then◌else◌,
}
use models_as_a_service_mids.Subscription.Types.{
  Subscription, ModelRefInfo, SelectError, model_unhealthy, phase_active, phase_degraded,
  phase_failed,
}
use models_as_a_service_mids.Subscription.Access.{names_model}

abbrev pub reason_not_ready : Text
reason_not_ready = codes "SubscriptionNotReady"

abbrev pub reason_format : Text
reason_format = codes "InvalidModelFormat"

abbrev pub reason_rate_limit : Text
reason_rate_limit = codes "RateLimitNotEnforced"

abbrev pub message_rate_limit : Text
message_rate_limit = codes "subscription rate limiting policies are not ready"

unfoldable pub unhealthy : Subscription → Text → Text → Option SelectError
unhealthy sub reason message = some (model_unhealthy sub.name sub.phase reason message)

-- The path of API key creation: only the empty phase and Failed are refused.
unfoldable pub check_key_creation : Subscription → Option SelectError
unfolding unhealthy
check_key_creation sub =
    if is_nil sub.phase
    then unhealthy sub reason_not_ready (codes "subscription is unreconciled (no status.phase set)")
    else if sub.phase == phase_failed
    then unhealthy sub reason_not_ready
        (codes "subscription is in Failed phase (cannot create API keys)")
    else none

-- Does the first reference to the model have token rate limits?
unfoldable pub has_rate_limits : Subscription → Text → Text → Bool
has_rate_limits sub ns name = elim (find (names_model ns name) sub.model_refs) [
  | none ↦ false
  | some ref ↦ not (is_nil ref.token_rate_limits)
]

-- The first status of a policy for the model has to be ready; a missing one is refused.
unfoldable pub check_rate_limit_ready : Subscription → Text → Option SelectError
unfolding unhealthy
check_rate_limit_ready sub name =
    elim (find (λ trlp. trlp.model == name) sub.token_rate_limit_statuses) [
      | none ↦ unhealthy sub reason_rate_limit message_rate_limit
      | some trlp ↦ if trlp.ready then none else unhealthy sub reason_rate_limit message_rate_limit
    ]

-- The part for a Degraded subscription.
unfoldable pub check_degraded : Subscription → Text → Option SelectError
unfolding unhealthy
check_degraded sub requested = elim (split_first b'/' requested) [
  | none ↦ unhealthy sub reason_format (codes "invalid model format: must be namespace/name")
  | some (ns, name) ↦ if has_rate_limits sub ns name then check_rate_limit_ready sub name else none
]

unfoldable pub phase_display : Text → Text
phase_display phase = if is_nil phase then codes "unreconciled" else phase

unfoldable pub check_model_health : Subscription → Text → Option SelectError
unfolding phase_display unhealthy
check_model_health sub requested =
    if is_nil requested
    then check_key_creation sub
    else if not (sub.phase == phase_active) && not (sub.phase == phase_degraded)
    then unhealthy sub reason_not_ready (
        codes "subscription is in "
        ++ (phase_display sub.phase ++ codes " phase (allowed: Active, Degraded)"))
    else if not (sub.phase == phase_degraded)
    then none
    else check_degraded sub requested
