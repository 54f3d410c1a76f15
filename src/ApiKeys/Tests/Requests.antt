-- ===== src/ApiKeys/Tests/Requests.antt =====
-- The handlers at concrete inputs.
use models_as_a_service_mids.Prelude.{
  ◌≤◌, ◌≡◌, ◌≢◌, ◌↔◌, ◌⊎◌, Text, codes, List, [], none, some, Bool, true, false, ◌&&◌, Memᴰ, length,
  ok,
}
use models_as_a_service_mids.ApiKeys.Types.{ApiKey, revoked, is_active}
use models_as_a_service_mids.ApiKeys.Store.{NewKey, MetadataStore}
use models_as_a_service_mids.ApiKeys.MockStore.{StoredKey, lookup, put, with_status, view}
use models_as_a_service_mids.ApiKeys.MockStore.Revocation.{active_of}
use models_as_a_service_mids.ApiKeys.InMemory.{in_memory}
use models_as_a_service_mids.ApiKeys.Handler.{
  present, not_found, key_body, revoked_body, page_body, is_authorized_for_key, get_api_key_handler,
  revoke_api_key_handler, bulk_revoke_handler,
}
use models_as_a_service_mids.ApiKeys.Handler.Ownership.{
  may_see, get_api_key_handler_lem, revoke_api_key_handler_lem, bulk_revoke_handler_lem,
}
use models_as_a_service_mids.ApiKeys.Handler.Creation.{CreateApiKeyRequest, create_api_key_handler}
use models_as_a_service_mids.ApiKeys.Handler.Creation.Owner.{create_api_key_handler_lem}
use models_as_a_service_mids.ApiKeys.Handler.Searching.{
  SearchApiKeysRequest, search_api_keys_handler,
}
use models_as_a_service_mids.ApiKeys.Handler.Searching.Scope.{
  IsRefusal, search_api_keys_handler_lem,
}
use models_as_a_service_mids.ApiKeys.Tests.Samples.{
  tag, no_format, no_parse, nobody, alice_context, one_key, always_basic, draws, thirty_days,
}

abbrev id : Text
id = codes "k1"

abbrev mock : MetadataStore
mock = in_memory no_format no_parse

get_api_key_handler_example :
    ((k : StoredKey) × (lookup id one_key ≡ some k)
      × (may_see nobody alice_context k ≡ true)
      × (get_api_key_handler tag no_format mock nobody id (present alice_context) 3 one_key
          ≡ (record { code = 200; body = key_body (view no_format 3 k) }, one_key)))
    ⊎ (((k : StoredKey) → lookup id one_key ≡ some k → may_see nobody alice_context k ≡ false)
        × (get_api_key_handler tag no_format mock nobody id (present alice_context) 3 one_key
            ≡ (not_found, one_key)))
unfolding codes
get_api_key_handler_example =
    get_api_key_handler_lem tag no_format no_parse nobody id alice_context 3 one_key (λ e. cc)

revoke_api_key_handler_example :
    ((k : StoredKey) × (lookup id one_key ≡ some k)
      × (may_see nobody alice_context k ≡ true)
      × (is_active k.metadata.status ≡ true)
      × (revoke_api_key_handler tag no_format mock nobody id (present alice_context) 3 4 5 one_key
          ≡ (
            record { code = 200; body = key_body (view no_format 5 (with_status revoked k)) },
            put id (with_status revoked k) one_key,
          )))
    ⊎ (((k : StoredKey)
          → lookup id one_key ≡ some k
          → (may_see nobody alice_context k && is_active k.metadata.status) ≡ false)
        × (revoke_api_key_handler tag no_format mock nobody id (present alice_context) 3 4 5 one_key
            ≡ (not_found, one_key)))
unfolding codes
revoke_api_key_handler_example =
    revoke_api_key_handler_lem tag no_format no_parse nobody id alice_context 3 4 5 one_key
      (λ e. cc)

bulk_revoke_handler_example :
    let r =
      bulk_revoke_handler tag no_format mock nobody
        (ok (codes "alice"))
        (present alice_context)
        3
        one_key in
    ((is_authorized_for_key nobody alice_context (codes "alice") ≡ true)
      × (r.0
          ≡ record { code = 200; body = revoked_body (length (active_of (codes "alice") one_key)) })
      × (active_of (codes "alice") r.1 ≡ []))
    ⊎ ((is_authorized_for_key nobody alice_context (codes "alice") ≡ false)
        × (r.0.code ≡ 403)
        × (r.1 ≡ one_key))
unfolding codes
bulk_revoke_handler_example =
    bulk_revoke_handler_lem tag no_format no_parse nobody (codes "alice") alice_context 3 one_key
      (λ e. cc)

abbrev creation : CreateApiKeyRequest
creation = record {
  name = codes "phone";
  description = [];
  subscription = [];
  expires_in = none;
  ephemeral = false;
}

create_api_key_handler_example :
    let r =
      create_api_key_handler tag no_format mock thirty_days always_basic draws []
        (ok creation)
        (present alice_context)
        one_key in
    ((r.0.code ≢ 201) × (r.1 ≡ one_key))
    ⊎ ((k : NewKey) × (k.username ≡ codes "alice")
        × (k.user_groups ≡ alice_context.groups)
        × (k.ephemeral ≡ false)
        × (r.1 ≡ (mock.add_key k draws.stored one_key).1)
        × ((r.0.code ≡ 201) ↔ ((mock.add_key k draws.stored one_key).0 ≡ ok tt)))
create_api_key_handler_example =
    create_api_key_handler_lem tag no_format mock thirty_days always_basic draws [] creation
      alice_context one_key

abbrev search_request : SearchApiKeysRequest
search_request = record { filters = none; sort = none; pagination = none }

search_api_keys_handler_example :
    let r =
      search_api_keys_handler tag no_format mock nobody
        (λ t. t)
        (ok search_request)
        (present alice_context)
        3
        one_key in
    (r.1 ≡ one_key)
    × (IsRefusal r.0
        ⊎ ((keys : List ApiKey) × (has_more : Bool) × (r.0
              ≡ record { code = 200; body = page_body keys has_more })
            × (length keys ≤ 100)
            × ((meta : ApiKey)
                → Memᴰ meta keys
                → (nobody alice_context ≡ true) ⊎ (meta.username ≡ codes "alice"))))
unfolding codes
search_api_keys_handler_example =
    search_api_keys_handler_lem tag no_format no_parse nobody (λ t. t) search_request alice_context
      3 one_key (λ e. cc)
