-- ===== src/ApiKeys/InMemory.antt =====
-- store_mock.go as an implementation of the interface of store_interface.go.
use models_as_a_service_mids.Prelude.{Text, Option}
use models_as_a_service_mids.ApiKeys.Types.{Time}
use models_as_a_service_mids.ApiKeys.Store.{MetadataStore}
use models_as_a_service_mids.ApiKeys.MockStore.{
  MockStore, add_key, get, get_by_hash, invalidate_all, revoke, update_last_used,
  delete_expired_ephemeral,
}
use models_as_a_service_mids.ApiKeys.Search.{search}

abbrev pub in_memory : (Time → Text) → (Text → Option Time) → MetadataStore
in_memory format parse = record {
  State = MockStore;
  add_key = add_key format;
  search = search format parse;
  get = get format;
  get_by_hash = get_by_hash format;
  invalidate_all = invalidate_all;
  revoke = revoke;
  update_last_used = update_last_used;
  delete_expired_ephemeral = delete_expired_ephemeral;
}
