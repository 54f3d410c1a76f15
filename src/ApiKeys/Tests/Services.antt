-- ===== src/ApiKeys/Tests/Services.antt =====
-- The service at concrete inputs.
use models_as_a_service_mids.Prelude.{
  ◌+◌, ◌≤◌, ◌≡◌, ◌≢◌, ◌↔◌, refl, ◌⊎◌, Text, codes, trim_space, List, [], ◌∷◌, none, some, true,
  false, Memᴰ, ok, err, arith,
}
use models_as_a_service_mids.Prelude.Int.{pos, pos_part}
use models_as_a_service_mids.Subscription.Types.{to_response}
use models_as_a_service_mids.ApiKeys.Base62.{encode_base62}
use models_as_a_service_mids.ApiKeys.Types.{Time, ApiKey, StoreError}
use models_as_a_service_mids.ApiKeys.Store.{NewKey, MetadataStore}
use models_as_a_service_mids.ApiKeys.Keygen.{
  Generated, plaintext_of, display_prefix, hash_with_salt, generate_api_key, hash_api_key,
}
use models_as_a_service_mids.ApiKeys.MockStore.{
  StoredKey, MockStore, lookup, put, stored_key, add_key, answered,
}
use models_as_a_service_mids.ApiKeys.MockStore.Entries.{IsValid}
use models_as_a_service_mids.ApiKeys.MockStore.Calls.{Call, validates, step, run}
use models_as_a_service_mids.ApiKeys.Service.Revocation.{revoke_validate}
use models_as_a_service_mids.ApiKeys.Keygen.{key_prefix, parse_api_key, is_valid_key_format}
use models_as_a_service_mids.ApiKeys.Base62.{is_base62}
use models_as_a_service_mids.ApiKeys.MockStore.{get_by_hash, answer, auto_expire, is_past, revoke}
use models_as_a_service_mids.ApiKeys.Service.{check_metadata, revoke_api_key}
use models_as_a_service_mids.Prelude.{◌==◌, cut_prefix, split_first, all}
use models_as_a_service_mids.Prelude.{filter, sort_stable, contains}
use models_as_a_service_mids.Subscription.Types.{Subscription}
use models_as_a_service_mids.Subscription.Samples.{basic}
use models_as_a_service_mids.Subscription.Access.{HasAccess, user_has_access}
use models_as_a_service_mids.Subscription.Priority.{sort_subscriptions_by_priority}
use models_as_a_service_mids.Subscription.Selector.{select_highest_priority}
use models_as_a_service_mids.ApiKeys.Service.Binding.{selector_of, create_api_key-HasAccess}
use models_as_a_service_mids.ApiKeys.InMemory.{in_memory}
use models_as_a_service_mids.ApiKeys.Service.{
  ServiceError, not_stored, Duration, hour, or_default, check_expiration, CreateApiKeyResponse,
  identified, prepare, choose_subscription, new_key, created, create_api_key, validate_api_key,
}
use models_as_a_service_mids.ApiKeys.Service.Expiry.{
  Outcome, asked, check_expiration_lem, max_days_wraps,
}
use models_as_a_service_mids.ApiKeys.Service.Validate.{Accepts, validate_api_key_iff}
use models_as_a_service_mids.ApiKeys.Service.Stored.{IsRefusal, IsKeyOf, create_api_key_lem}
use models_as_a_service_mids.ApiKeys.Service.RoundTrip.{identity_of, create_validate}
use models_as_a_service_mids.ApiKeys.Tests.Samples.{
  stored, tag, no_format, no_parse, named, metadata, one_key, always_basic, request, draws,
  thirty_days,
}

abbrev id : Text
id = codes "k1"

abbrev mock : MetadataStore
mock = in_memory no_format no_parse

check_expiration_example :
    Outcome thirty_days false (some (pos 1000)) (asked thirty_days false (some (pos 1000)))
check_expiration_example = check_expiration_lem thirty_days false (some (pos 1000)) (omega arith)

max_days_wraps_example :
    (e : ServiceError) × (check_expiration (some (pos 200_000)) false none ≡ err e)
max_days_wraps_example = max_days_wraps 200_000 none (omega arith) (omega arith)

abbrev key : Text
key = codes "sk-oai-a_b"

validate_api_key_iff_example :
    (((validate_api_key tag no_format mock named key 3 one_key).0 ≡ ok (identified metadata))
      × (true ≡ true))
    ↔ ((meta : ApiKey) × Accepts tag no_format mock named key 3 one_key meta
        × (identified metadata ≡ identified meta))
validate_api_key_iff_example =
    validate_api_key_iff tag no_format mock named key 3 one_key (identified metadata)

-- The key, the answer and the store of a creation.
abbrev generated : Generated
generated = record {
  plaintext = plaintext_of (encode_base62 (1 ∷ 2 ∷ [])) (encode_base62 (3 ∷ 4 ∷ []));
  hash = hash_with_salt tag (encode_base62 (1 ∷ 2 ∷ [])) (encode_base62 (3 ∷ 4 ∷ []));
  prefix = display_prefix (encode_base62 (1 ∷ 2 ∷ []));
}

abbrev response : CreateApiKeyResponse
response = created tag no_format mock draws request generated (codes "basic") (5 + hour)

abbrev created_store : MockStore
created_store =
    (
      codes "k2",
      stored_key no_format 6
          (new_key tag no_format mock draws request generated (codes "basic") (5 + hour)),
    )
    ∷ []

creates :
    create_api_key tag no_format mock thirty_days always_basic draws request []
    ≡ (ok response, created_store)
unfolding create_api_key prepare check_expiration or_default generate_api_key choose_subscription
    to_response new_key codes add_key put
creates = refl

bound : trim_space response.subscription ≢ []
unfolding created codes trim_space
bound e = cc

early : (d : Duration) → check_expiration thirty_days true none ≡ ok d → 100 ≤ 5 + pos_part d
unfolding check_expiration or_default
early d h = let e : d ≡ pos hour = ground arith in rw e (omega arith)

create_validate_example :
    (validate_api_key tag no_format mock named response.key 100 created_store).0
    ≡ ok (identity_of draws request response)
unfolding codes
create_validate_example =
    create_validate tag no_format no_parse named thirty_days always_basic draws request []
      created_store response 100 (λ t e. cc) refl creates bound (λ i k there. elim there [ ]) early

create_api_key_example :
    let r = create_api_key tag no_format mock thirty_days always_basic draws request one_key in
    ((e : ServiceError) × (r ≡ (err e, one_key))
      × IsRefusal tag no_format thirty_days always_basic draws request e)
    ⊎ ((k : NewKey) × (answer : CreateApiKeyResponse) × IsKeyOf tag no_format thirty_days
          always_basic draws request k answer
        × (r.1 ≡ (mock.add_key k draws.stored one_key).1)
        × (((mock.add_key k draws.stored one_key).0 ≡ ok tt) × (r.0 ≡ ok answer)
            ⊎ ((e : StoreError) × ((mock.add_key k draws.stored one_key).0 ≡ err e)
                × (r.0 ≡ err (not_stored e)))))
create_api_key_example =
    create_api_key_lem tag no_format mock thirty_days always_basic draws request one_key

-- A second key, `sk-oai-c_d`, beside the one that is revoked.
abbrev second : StoredKey
second = record stored {
  metadata = record metadata { id = codes "k2" };
  key_hash = b'h' ∷ b'c' ∷ 0 ∷ b'd' ∷ [];
}

abbrev two_keys : MockStore
two_keys = (id, stored) ∷ (codes "k2", second) ∷ []

two_keys-IsValid : IsValid two_keys
unfolding lookup codes ◌==◌
two_keys-IsValid = (refl, refl, (refl, refl, tt))

abbrev later : List (Time × Call)
later = (5, validates stored.key_hash) ∷ []

still_accepted :
    (validate_api_key tag no_format mock named
      (codes "sk-oai-c_d")
      6
      (run no_format (revoke_api_key tag no_format mock id 4 two_keys).1 later)).0
    ≡ ok (identified (answered no_format second))
unfolding validate_api_key check_metadata trim_space is_valid_key_format parse_api_key hash_api_key
    key_prefix is_base62 get_by_hash answer auto_expire is_past answered run step revoke_api_key
    revoke lookup put codes ◌==◌ cut_prefix split_first all
still_accepted = refl

revoke_validate_example : (identified (answered no_format second)).key_id ≢ id
unfolding revoke_api_key revoke lookup codes ◌==◌
revoke_validate_example =
    revoke_validate tag no_format no_parse named id two_keys 4 later (codes "sk-oai-c_d") 6
      (identified (answered no_format second)) two_keys-IsValid refl (tt, tt) still_accepted refl

creates_bound :
    create_api_key tag no_format mock thirty_days (selector_of (ok (basic ∷ []))) draws request []
    ≡ (ok response, created_store)
unfolding create_api_key prepare check_expiration or_default generate_api_key choose_subscription
    to_response new_key codes add_key put select_highest_priority sort_subscriptions_by_priority
    sort_stable user_has_access contains ◌==◌ filter
creates_bound = refl

create_api_key-HasAccess_example :
    (sub : Subscription) × (k : NewKey) × Memᴰ sub (basic ∷ [])
    × HasAccess sub k.username k.user_groups
    × (k.username ≡ request.username)
    × (k.user_groups ≡ request.user_groups)
    × (k.subscription ≡ sub.name)
    × (response.subscription ≡ sub.name)
    × ((mock.add_key k draws.stored []).0 ≡ ok tt)
    × (created_store ≡ (mock.add_key k draws.stored []).1)
create_api_key-HasAccess_example =
    create_api_key-HasAccess tag no_format mock thirty_days (basic ∷ []) draws request []
      created_store response creates_bound
