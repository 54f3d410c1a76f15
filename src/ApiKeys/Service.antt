-- ===== src/ApiKeys/Service.antt =====
-- service.go: creation, validation, search and revocation of API keys over any key store and any
-- selector of subscriptions. What the code takes from outside is an argument: the clock, the random
-- reads, new ids, SHA-256, the formatting of times and `uuid.Parse` as the test `is_uuid`.
mod Types
pub mod Expiry
pub mod Create
pub mod Stored
pub mod Binding
pub mod RoundTrip
pub mod Validate
pub mod Revocation
pub use Types.*
use models_as_a_service_mids.Prelude.{
  ℕ, ◌+◌, Text, codes, ◌==◌, trim_space, List, [], Option, none, some, Bool, true, false, not,
  is_nil, Result, ok, err, ◌>>=◌, map_err, if◌then◌else◌,
}
use models_as_a_service_mids.Prelude.Int.{ℤ, pos, ltb_ℤ, leb_ℤ, mul_int64, pos_part}
use models_as_a_service_mids.Subscription.Types.{SelectResponse, SelectError}
use models_as_a_service_mids.ApiKeys.Types.{
  Time, ApiKey, PaginationParams, PaginatedResult, SearchFilters, SortParams, StoreError,
  key_not_found, invalid_key,
}
use models_as_a_service_mids.ApiKeys.Store.{NewKey, Method, MetadataStore}
use models_as_a_service_mids.ApiKeys.Keygen.{
  Generated, generate_api_key, hash_api_key, is_valid_key_format,
}

abbrev pub hour : ℕ
hour = 3_600_000_000_000

abbrev pub default_max_expiration_days : ℤ
default_max_expiration_days = pos 90

-- `config` is the value of `APIKeyMaxExpirationDays`, or `none` for a service without a config.
unfoldable pub max_days : Option ℤ → ℤ
max_days none = default_max_expiration_days
max_days (some days) = if ltb_ℤ (pos 0) days then days else default_max_expiration_days

-- `time.Duration(maxDays) * 24 * time.Hour`, a product of int64.
unfoldable pub max_regular_duration : Option ℤ → Duration
unfolding max_days
max_regular_duration config = mul_int64 (mul_int64 (max_days config) 24) hour

-- The expiry of a request that names none.
unfoldable pub or_default : Option ℤ → Bool → Option Duration → Duration
unfolding max_regular_duration
or_default config ephemeral (some d) = d
or_default config true none = pos hour
or_default config false none = max_regular_duration config

unfoldable pub check_expiration : Option ℤ → Bool → Option Duration → Result ServiceError Duration
unfolding or_default
check_expiration config ephemeral expires_in =
    let d = or_default config ephemeral expires_in in
    if leb_ℤ d (pos 0)
    then err expiration_not_positive
    else if ephemeral
    then (if ltb_ℤ (pos hour) d then err (ephemeral_exceeds_max d) else ok d)
    else if ltb_ℤ (max_regular_duration config) d
    then err (regular_exceeds_max d (max_days config))
    else ok d

unfoldable pub choose_subscription :
    SubscriptionSelector → CreateRequest → Result SelectError SelectResponse
choose_subscription selector request =
    if is_nil request.requested_subscription
    then selector.select_highest_priority request.user_groups request.username
    else selector.select request.user_groups request.username request.requested_subscription []

-- The outcome of a lookup by hash that failed.
unfoldable pub lookup_rejected : StoreError → Result ServiceError ValidationResult
unfolding codes
lookup_rejected key_not_found = ok (rejected (codes "key not found"))
lookup_rejected invalid_key = ok (rejected (codes "key revoked or expired"))
lookup_rejected e = err (lookup_failed e)

-- The checks on a key that the store answered with.
unfoldable pub check_metadata : (Text → Bool) → ApiKey → Result ServiceError ValidationResult
unfolding codes
check_metadata is_uuid metadata =
    if is_nil (trim_space metadata.subscription)
    then ok (rejected (codes "key has no subscription bound"))
    else if not (is_uuid metadata.id)
    then err (invalid_key_id metadata.id)
    else ok (identified metadata)

module _ (sha256_hex : Text → Text) (format : Time → Text) (S : MetadataStore) where
  -- What `CreateAPIKey` works out before it writes: the key, its subscription and its expiry.
  unfoldable pub prepare :
      Option ℤ
      → SubscriptionSelector
      → Draws
      → CreateRequest
      → Result ServiceError (Generated × Text × Time)
  prepare config selector draws request = do
    d ← check_expiration config request.ephemeral request.expires_in
    g ← map_err generate_failed (generate_api_key sha256_hex draws.key_id_read draws.secret_read)
    sub ← map_err selection_failed (choose_subscription selector request)
    ok (g, sub.name, draws.asked + pos_part d)

  unfoldable pub new_key : Draws → CreateRequest → Generated → Text → Time → NewKey
  new_key draws request g subscription expires_at = record {
    username = request.username;
    key_id = draws.new_id;
    key_hash = g.hash;
    name = request.name;
    description = request.description;
    user_groups = request.user_groups;
    subscription = subscription;
    expires_at = some expires_at;
    ephemeral = request.ephemeral;
  }

  unfoldable pub created : Draws → CreateRequest → Generated → Text → Time → CreateApiKeyResponse
  created draws request g subscription expires_at = record {
    key = g.plaintext;
    key_prefix = g.prefix;
    id = draws.new_id;
    name = request.name;
    subscription = subscription;
    created_at = format draws.answered;
    expires_at = some (format expires_at);
    ephemeral = request.ephemeral;
  }

  add_prepared :
      Draws
      → CreateRequest
      → Generated × Text × Time
      → S.State
      → Result ServiceError CreateApiKeyResponse × S.State
  unfolding new_key created
  add_prepared draws request (g, subscription, expires_at) s =
      let (added, s') =
        S.add_key (new_key draws request g subscription expires_at) draws.stored s in
      elim added [
        | err e ↦ (err (not_stored e), s')
        | ok _ ↦ (ok (created draws request g subscription expires_at), s')
      ]

  unfoldable pub create_api_key :
      Option ℤ
      → SubscriptionSelector
      → Draws
      → CreateRequest
      → S.State
      → Result ServiceError CreateApiKeyResponse × S.State
  unfolding prepare add_prepared
  create_api_key config selector draws request s = elim (prepare config selector draws request) [
    | err e ↦ (err e, s)
    | ok p ↦ add_prepared draws request p s
  ]

  unfoldable pub get_api_key : Text → Method S.State ApiKey
  get_api_key id now s = S.get id now s

  -- The result, the state, and the id whose use the started goroutine will record.
  abbrev pub Validation : Type 0
  Validation = Result ServiceError ValidationResult × S.State × Option Text

  unfoldable pub validate_api_key : (Text → Bool) → Text → Time → S.State → Validation
  validate_api_key is_uuid key now s =
      let hash = hash_api_key sha256_hex key in
      let (found, s') = S.get_by_hash hash now s in
      if not (is_valid_key_format key)
      then (ok (rejected (codes "invalid key format")), s, none)
      else if is_nil hash
      then (ok (rejected (codes "invalid key format")), s, none)
      else elim found [
        | err e ↦ (lookup_rejected e, s', none)
        | ok metadata ↦ (check_metadata is_uuid metadata, s', some metadata.id)
      ]

  -- The goroutine that a validation started, at the time at which it runs. It logs an error of the
  -- store and drops it.
  unfoldable pub record_use : Option Text → Time → S.State → S.State
  record_use none now s = s
  record_use (some id) now s = (S.update_last_used id now s).1

  unfoldable pub revoke_api_key : Text → Method S.State (Unit {0})
  revoke_api_key id now s = S.revoke id now s

  unfoldable pub search_api_keys :
      Text → SearchFilters → SortParams → PaginationParams → Method S.State PaginatedResult
  search_api_keys username filters sort_params pagination now s =
      S.search username filters sort_params pagination now s

  unfoldable pub bulk_revoke_api_keys : Text → Time → S.State → Result ServiceError ℕ × S.State
  bulk_revoke_api_keys username now s =
      let (r, s') = S.invalidate_all username now s in
      if is_nil username then (err username_required, s) else (map_err from_store r, s')

  unfoldable pub cleanup_expired_ephemeral : Time → S.State → Result ServiceError ℕ × S.State
  cleanup_expired_ephemeral now s =
      let (r, s') = S.delete_expired_ephemeral now s in (map_err cleanup_failed r, s')
