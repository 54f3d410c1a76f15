-- ===== src/ApiKeys/Tests/Samples.antt =====
-- Stand-ins for the functions from outside, and a store with one key of alice.
use models_as_a_service_mids.Prelude.{
  Text, codes, [], ◌∷◌, Option, none, some, Bool, true, false, not, is_nil, ok,
}
use models_as_a_service_mids.Prelude.Int.{ℤ, pos}
use models_as_a_service_mids.Subscription.Types.{to_response}
use models_as_a_service_mids.Subscription.Samples.{basic}
use models_as_a_service_mids.ApiKeys.Types.{
  Time, ApiKey, active, revoked, PaginationParams, SearchFilters, SortParams,
}
use models_as_a_service_mids.ApiKeys.MockStore.{StoredKey, MockStore, with_status}
use models_as_a_service_mids.ApiKeys.Service.{SubscriptionSelector, CreateRequest, Draws}
use models_as_a_service_mids.ApiKeys.Handler.{UserContext}

-- Not SHA-256, but as injective as one hopes of it.
abbrev pub tag : Text → Text
tag t = b'h' ∷ t

abbrev pub no_format : Time → Text
no_format t = []

abbrev pub no_parse : Text → Option Time
no_parse s = none

abbrev pub named : Text → Bool
named t = not (is_nil t)

abbrev pub nobody : UserContext → Bool
nobody user = false

abbrev pub alice_context : UserContext
alice_context = record { username = codes "alice"; groups = codes "team" ∷ [] }

abbrev pub metadata : ApiKey
metadata = record {
  id = codes "k1";
  name = codes "laptop";
  description = [];
  username = [];
  subscription = codes "basic";
  groups = codes "team" ∷ [];
  creation_date = [];
  expiration_date = [];
  status = active;
  last_used_at = [];
  ephemeral = false;
}

-- The hash is that of the key `sk-oai-a_b`.
abbrev pub stored : StoredKey
stored = record {
  metadata = metadata;
  username = codes "alice";
  key_hash = b'h' ∷ b'a' ∷ 0 ∷ b'b' ∷ [];
  expires_at = 1000;
  last_used_at = none;
  ephemeral = false;
}

abbrev pub one_key : MockStore
one_key = (codes "k1", stored) ∷ []

abbrev pub one_revoked : MockStore
one_revoked = (codes "k1", with_status revoked stored) ∷ []

abbrev pub always_basic : SubscriptionSelector
always_basic = record {
  select = λ groups username requested model. ok (to_response basic);
  select_highest_priority = λ groups username. ok (to_response basic);
}

abbrev pub request : CreateRequest
request = record {
  username = codes "alice";
  user_groups = codes "team" ∷ [];
  name = codes "phone";
  description = [];
  expires_in = none;
  ephemeral = true;
  requested_subscription = [];
}

abbrev pub draws : Draws
draws = record {
  asked = 5;
  stored = 6;
  answered = 7;
  key_id_read = ok (1 ∷ 2 ∷ []);
  secret_read = ok (3 ∷ 4 ∷ []);
  new_id = codes "k2";
}

abbrev pub thirty_days : Option ℤ
thirty_days = some (pos 30)

abbrev pub first_page : PaginationParams
first_page = record { limit = pos 2; offset = pos 0 }

abbrev pub no_filters : SearchFilters
no_filters = record { username = []; status = []; include_ephemeral = none }

abbrev pub by_name : SortParams
by_name = record { by = codes "name"; order = codes "asc" }
