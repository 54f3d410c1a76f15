-- ===== src/ApiKeys/Types.antt =====
-- types.go and the errors of store_interface.go.
use models_as_a_service_mids.Prelude.{ℕ, Text, codes, List, [], ◌∷◌, Option, Bool, true, false}
use models_as_a_service_mids.Prelude.Int.{ℤ, pos}

-- Times are nanoseconds since the zero `time.Time`, so that `IsZero` is a test for 0.
abbrev pub Time : Type 0
Time = ℕ

-- The values of `Status`; the code stores no other.
pub data Status : Type 0 where
  active revoked expired : Status

unfoldable pub status_text : Status → Text
unfolding codes
status_text active = codes "active"
status_text revoked = codes "revoked"
status_text expired = codes "expired"

abbrev pub is_active : Status → Bool
is_active active = true
is_active _ = false

pub record ApiKey : Type 0 where
  pub id : Text
  pub name : Text
  pub description : Text
  pub username : Text
  pub subscription : Text
  pub groups : List Text
  pub creation_date : Text
  pub expiration_date : Text
  pub status : Status
  pub last_used_at : Text
  pub ephemeral : Bool

pub record PaginationParams : Type 0 where
  pub limit : ℤ
  pub offset : ℤ

pub record PaginatedResult : Type 0 where
  pub keys : List ApiKey
  pub has_more : Bool

-- The filters that the stores read; the other fields of the request are reserved for later phases.
pub record SearchFilters : Type 0 where
  pub username : Text
  pub status : List Text
  pub include_ephemeral : Option Bool

pub record SortParams : Type 0 where
  pub by : Text
  pub order : Text

abbrev pub sort_order_asc : Text
sort_order_asc = codes "asc"

abbrev pub sort_order_desc : Text
sort_order_desc = codes "desc"

abbrev pub default_sort_by : Text
default_sort_by = codes "created_at"

abbrev pub default_limit : ℤ
default_limit = pos 50

abbrev pub max_limit : ℤ
max_limit = pos 100

-- The allowlists, which Go writes as maps into true.
abbrev pub valid_sort_fields : List Text
valid_sort_fields =
    codes "created_at" ∷ codes "expires_at" ∷ codes "last_used_at" ∷ codes "name" ∷ []

abbrev pub valid_sort_orders : List Text
valid_sort_orders = codes "asc" ∷ codes "desc" ∷ []

abbrev pub valid_statuses : List Text
valid_statuses = codes "active" ∷ codes "revoked" ∷ codes "expired" ∷ []

-- The errors of a store. `store_failure` is any other, such as a lost database connection.
pub data StoreError : Type 0 where
  key_not_found invalid_key empty_jti empty_name : StoreError
  subscription_required limit_out_of_range negative_offset : StoreError
  store_failure : Text → StoreError
