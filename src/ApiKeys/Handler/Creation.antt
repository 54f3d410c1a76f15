-- ===== src/ApiKeys/Handler/Creation.antt =====
-- handler.go, `CreateAPIKey`: the checks on the request and the answer to every outcome.
pub mod Owner
use models_as_a_service_mids.Prelude.{
  ℕ, Text, codes, ◌==◌, trim_space, Option, none, some, Bool, true, false, ◌&&◌, not, is_nil,
  Result, ok, err, if◌then◌else◌,
}
use models_as_a_service_mids.Prelude.Int.{ℤ, pos}
use models_as_a_service_mids.Subscription.Types.{
  SelectError, no_subscription, subscription_not_found, access_denied, model_unhealthy,
  phase_failed,
}
use models_as_a_service_mids.ApiKeys.Types.{Time}
use models_as_a_service_mids.ApiKeys.Store.{MetadataStore}
use models_as_a_service_mids.ApiKeys.Service.{
  SubscriptionSelector, ServiceError, expiration_not_positive, ephemeral_exceeds_max,
  regular_exceeds_max, selection_failed, Duration, hour, CreateRequest, Draws, create_api_key,
}
use models_as_a_service_mids.ApiKeys.Handler.{
  UserContext, Context, Response, answer, coded, failure, created_body, get_user_context,
}

-- The body of the request.
pub record CreateApiKeyRequest : Type 0 where
  pub name : Text
  pub description : Text
  pub subscription : Text
  pub expires_in : Option Duration
  pub ephemeral : Bool

abbrev pub unresolved : Response
unresolved = record {
  code = 400;
  body =
      coded (codes "Unable to resolve a subscription for this API key")
        (codes "invalid_subscription");
}

-- The answer to a selection that failed.
unfoldable pub selection_failure : SelectError → Response
unfolding codes
selection_failure no_subscription = unresolved
selection_failure (subscription_not_found s) = unresolved
selection_failure (access_denied s) = unresolved
selection_failure (model_unhealthy s phase reason text) = record {
  code = if phase == phase_failed then 403 else 400;
  body = coded text (codes "subscription_not_ready");
}
selection_failure _ = answer 500 (codes "Failed to create API key")

unfoldable pub create_failure : ServiceError → Response
unfolding selection_failure codes
create_failure expiration_not_positive = record {
  code = 400;
  body = failure expiration_not_positive;
}
create_failure (ephemeral_exceeds_max d) = record {
  code = 400;
  body = failure (ephemeral_exceeds_max d);
}
create_failure (regular_exceeds_max d days) = record {
  code = 400;
  body = failure (regular_exceeds_max d days);
}
create_failure (selection_failed e) = selection_failure e
create_failure _ = answer 500 (codes "Failed to create API key")

-- An ephemeral key that names no expiry asks for one hour.
asked_expiry : CreateApiKeyRequest → Option Duration
asked_expiry req = elim req.expires_in [
  | some d ↦ some d
  | none ↦ if req.ephemeral then some (pos hour) else none
]

-- What the handler asks of the service. `ephemeral_name` is `ephemeral-` and the nanoseconds of
-- the clock.
unfoldable pub request_of : Text → UserContext → CreateApiKeyRequest → CreateRequest
unfolding asked_expiry
request_of ephemeral_name user req = record {
  username = user.username;
  user_groups = user.groups;
  name = if req.ephemeral && is_nil req.name then ephemeral_name else req.name;
  description = req.description;
  expires_in = asked_expiry req;
  ephemeral = req.ephemeral;
  requested_subscription = trim_space req.subscription;
}

module _ (sha256_hex : Text → Text) (format : Time → Text) (S : MetadataStore) where
  create_for :
      Option ℤ → SubscriptionSelector → Draws → CreateRequest → S.State → Response × S.State
  unfolding create_failure
  create_for config selector draws request s =
      let (r, s') = create_api_key sha256_hex format S config selector draws request s in
      elim r [
        | err e ↦ (create_failure e, s')
        | ok result ↦ (record { code = 201; body = created_body result }, s')
      ]

  unfoldable pub create_api_key_handler :
      Option ℤ
      → SubscriptionSelector
      → Draws
      → Text
      → Result Text CreateApiKeyRequest
      → Context
      → S.State
      → Response × S.State
  unfolding create_for codes
  create_api_key_handler config selector draws ephemeral_name (err e) context s = (answer 400 e, s)
  create_api_key_handler config selector draws ephemeral_name (ok req) context s =
      elim (get_user_context context) [
        | err refusal ↦ (refusal, s)
        | ok user ↦
            if not req.ephemeral && is_nil req.name
            then (answer 400 (codes "name is required for non-ephemeral keys"), s)
            else create_for config selector draws (request_of ephemeral_name user req) s
      ]
