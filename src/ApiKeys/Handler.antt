-- ===== src/ApiKeys/Handler.antt =====
-- handler.go: the HTTP handlers of API keys. A handler takes the outcome of decoding the request
-- body (`err` carries Gin's message) and the user that the middleware left in the context, and
-- returns the answer with the new state of the store. `is_admin` is the SubjectAccessReview of the
-- cluster. The human-readable messages that only print a count are left out of the bodies.
pub mod Ownership
pub mod Creation
pub mod Searching
use models_as_a_service_mids.Prelude.{
  ℕ, Text, codes, ◌==◌, List, Option, none, some, Bool, true, false, ◌&&◌, ◌||◌, not, is_nil,
  Result, ok, err, if◌then◌else◌,
}
pub use models_as_a_service_mids.Token.{UserContext, Context, absent, wrong_type, present}
use models_as_a_service_mids.ApiKeys.Types.{Time, ApiKey, StoreError, key_not_found}
use models_as_a_service_mids.ApiKeys.Store.{MetadataStore}
use models_as_a_service_mids.ApiKeys.Service.{
  ServiceError, CreateApiKeyResponse, ValidationResult, get_api_key, revoke_api_key,
  validate_api_key, bulk_revoke_api_keys, cleanup_expired_ephemeral,
}

pub data Body : Type 0 where
  message : Text → Body
  coded : (message code : Text) → Body
  failure : ServiceError → Body
  key_body : ApiKey → Body
  created_body : CreateApiKeyResponse → Body
  validation_body : ValidationResult → Body
  page_body : (keys : List ApiKey) (has_more : Bool) → Body
  deleted_body revoked_body : (count : ℕ) → Body

pub record Response : Type 0 where
  pub code : ℕ
  pub body : Body

abbrev pub answer : ℕ → Text → Response
answer code text = record { code = code; body = message text }

abbrev pub not_found : Response
not_found = answer 404 (codes "API key not found")

unfoldable pub no_user : Context → Response
unfolding codes
no_user absent = answer 500 (codes "User context not found")
no_user _ = answer 500 (codes "Invalid user context type")

-- `getUserContext`: the handlers stop with its answer where it has no user.
unfoldable pub get_user_context : Context → Result Response UserContext
unfolding no_user
get_user_context (present user) = ok user
get_user_context absent = err (no_user absent)
get_user_context wrong_type = err (no_user wrong_type)

unfoldable pub is_authorized_for_key : (UserContext → Bool) → UserContext → Text → Bool
is_authorized_for_key is_admin user key_owner = user.username == key_owner || is_admin user

-- The answer to a store that could not find the key.
unfoldable pub lookup_failure : StoreError → Response
unfolding codes
lookup_failure key_not_found = not_found
lookup_failure _ = answer 500 (codes "Failed to retrieve API key")

unfoldable pub revoke_failure : StoreError → Response
unfolding codes
revoke_failure key_not_found = not_found
revoke_failure _ = answer 500 (codes "Failed to revoke API key")

module _ (sha256_hex : Text → Text) (format : Time → Text) (S : MetadataStore)
    (is_admin : UserContext → Bool) where
  abbrev pub Handled : Type 0
  Handled = Response × S.State

  show_owned : UserContext → ApiKey → Response
  unfolding is_authorized_for_key codes
  show_owned user tok =
      if is_authorized_for_key is_admin user tok.username
      then record { code = 200; body = key_body tok }
      else not_found

  unfoldable pub get_api_key_handler : Text → Context → Time → S.State → Handled
  unfolding get_api_key show_owned
  get_api_key_handler id context now s =
      if is_nil id
      then (answer 400 (codes "Token ID required"), s)
      else elim (get_user_context context) [
        | err refusal ↦ (refusal, s)
        | ok user ↦
            let (found, s') = get_api_key sha256_hex format S id now s in
            elim found [ err e ↦ (lookup_failure e, s') | ok tok ↦ (show_owned user tok, s') ]
      ]

  -- The key after its revocation, read at the time `now`.
  show_revoked : Text → Time → S.State → Handled
  unfolding get_api_key codes
  show_revoked id now s =
      let (found, s') = get_api_key sha256_hex format S id now s in
      elim found [
        | err e ↦ (answer 500 (codes "Key revoked but failed to retrieve metadata"), s')
        | ok revoked_key ↦ (record { code = 200; body = key_body revoked_key }, s')
      ]

  revoke_and_show : Text → Time → Time → S.State → Handled
  unfolding revoke_api_key show_revoked
  revoke_and_show id revoked_at shown_at s =
      let (r, s') = revoke_api_key sha256_hex format S id revoked_at s in
      elim r [ err e ↦ (revoke_failure e, s') | ok _ ↦ show_revoked id shown_at s' ]

  -- The times are those of the three calls of the store.
  unfoldable pub revoke_api_key_handler : Text → Context → Time → Time → Time → S.State → Handled
  unfolding get_api_key revoke_and_show is_authorized_for_key codes
  revoke_api_key_handler id context checked_at revoked_at shown_at s =
      if is_nil id
      then (answer 400 (codes "API key ID required"), s)
      else elim (get_user_context context) [
        | err refusal ↦ (refusal, s)
        | ok user ↦
            let (found, s') = get_api_key sha256_hex format S id checked_at s in
            elim found [
              | err e ↦ (lookup_failure e, s')
              | ok metadata ↦
                  if not (is_authorized_for_key is_admin user metadata.username)
                  then (not_found, s')
                  else revoke_and_show id revoked_at shown_at s'
            ]
      ]

  bulk_revoke : UserContext → Text → Time → S.State → Handled
  unfolding bulk_revoke_api_keys codes
  bulk_revoke user username now s =
      let (r, s') = bulk_revoke_api_keys sha256_hex format S username now s in
      elim r [
        | err e ↦ (answer 500 (codes "Failed to revoke API keys"), s')
        | ok count ↦ (record { code = 200; body = revoked_body count }, s')
      ]

  -- The decoded body is the name of the user whose keys are to be revoked.
  unfoldable pub bulk_revoke_handler : Result Text Text → Context → Time → S.State → Handled
  unfolding bulk_revoke codes
  bulk_revoke_handler (err e) context now s = (answer 400 e, s)
  bulk_revoke_handler (ok username) context now s = elim (get_user_context context) [
    | err refusal ↦ (refusal, s)
    | ok user ↦
        if not (username == user.username) && not (is_admin user)
        then (answer 403 (codes "Access denied: you can only bulk revoke your own API keys"), s)
        else bulk_revoke user username now s
  ]

  -- The answer, the state, and the id whose use the validation records later.
  unfoldable pub validate_api_key_handler :
      (Text → Bool) → Result Text Text → Time → S.State → Response × S.State × Option Text
  unfolding codes
  validate_api_key_handler is_uuid (err e) now s = (answer 400 (codes "key is required"), s, none)
  validate_api_key_handler is_uuid (ok key) now s =
      let (r, s', used) = validate_api_key sha256_hex format S is_uuid key now s in
      elim r [
        | err e ↦ (answer 500 (codes "validation failed"), s', used)
        | ok result ↦ (record { code = 200; body = validation_body result }, s', used)
      ]

  unfoldable pub cleanup_handler : Time → S.State → Handled
  unfolding cleanup_expired_ephemeral codes
  cleanup_handler now s =
      let (r, s') = cleanup_expired_ephemeral sha256_hex format S now s in
      elim r [
        | err e ↦ (answer 500 (codes "Failed to cleanup expired ephemeral keys"), s')
        | ok count ↦ (record { code = 200; body = deleted_body count }, s')
      ]
