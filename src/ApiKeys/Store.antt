-- ===== src/ApiKeys/Store.antt =====
-- store_interface.go: what the service asks of a key store. A method takes the time of its call
-- and the state, and returns its result with the new state, on the error paths too.
use models_as_a_service_mids.Prelude.{ℕ, Text, List, Bool, Option, Result}
use models_as_a_service_mids.ApiKeys.Types.{
  Time, ApiKey, PaginationParams, PaginatedResult, SearchFilters, SortParams, StoreError,
}

-- The arguments of `AddKey`.
pub record NewKey : Type 0 where
  pub username : Text
  pub key_id : Text
  pub key_hash : Text
  pub name : Text
  pub description : Text
  pub user_groups : List Text
  pub subscription : Text
  pub expires_at : Option Time
  pub ephemeral : Bool

abbrev pub Method : Type 0 → Type 0 → Type 0
Method S A = Time → S → Result StoreError A × S

pub record MetadataStore : Type 1 where
  pub State : Type 0
  pub add_key : NewKey → Method State (Unit {0})
  pub search : Text → SearchFilters → SortParams → PaginationParams → Method State PaginatedResult
  pub get : Text → Method State ApiKey
  pub get_by_hash : Text → Method State ApiKey
  pub invalidate_all : Text → Method State ℕ
  pub revoke : Text → Method State (Unit {0})
  pub update_last_used : Text → Method State (Unit {0})
  pub delete_expired_ephemeral : Method State ℕ
