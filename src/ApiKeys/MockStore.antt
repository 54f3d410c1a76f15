-- ===== src/ApiKeys/MockStore.antt =====
-- store_mock.go, the in-memory key store. A Go map is a list of entries in the order in which
-- `range` happens to visit them; each theorem holds for every order. A method holds the mutex, so
-- it is one step. A write through a stored pointer rewrites the entry.
pub mod Entries
pub mod Validity
pub mod Calls
pub mod Lifecycle
pub mod Identity
pub mod Continuity
pub mod Revocation
use models_as_a_service_mids.Prelude.{
  ℕ, suc, ◌+◌, ◌-◌, ◌*◌, Text, codes, ◌==◌, List, [], ◌∷◌, Option, none, some, Bool, true, false,
  ◌&&◌, ◌||◌, not, is_nil, nat_eq, ltb, Result, ok, err, if◌then◌else◌,
}
use models_as_a_service_mids.ApiKeys.Types.{
  Time, Status, active, revoked, expired, is_active, ApiKey, StoreError, key_not_found, invalid_key,
  empty_jti, empty_name, subscription_required,
}
use models_as_a_service_mids.ApiKeys.Store.{NewKey, Method}

pub record StoredKey : Type 0 where
  pub metadata : ApiKey
  pub username : Text
  pub key_hash : Text
  pub expires_at : Time
  pub last_used_at : Option Time
  pub ephemeral : Bool

-- The map `keys` from ids to stored keys.
abbrev pub MockStore : Type 0
MockStore = List (Text × StoredKey)

abbrev pub new_mock_store : MockStore
new_mock_store = []

unfoldable pub lookup : Text → MockStore → Option StoredKey
lookup id [] = none
lookup id ((i, k) ∷ m) = if i == id then some k else lookup id m

-- `m.keys[id] = k`
unfoldable pub put : Text → StoredKey → MockStore → MockStore
put id k [] = (id, k) ∷ []
put id k ((i, old) ∷ m) = if i == id then (i, k) ∷ m else (i, old) ∷ put id k m

-- `!k.expiresAt.IsZero() && k.expiresAt.Before(now)`
unfoldable pub is_past : Time → Time → Bool
is_past now expires_at = not (nat_eq expires_at 0) && ltb expires_at now

abbrev pub with_status : Status → StoredKey → StoredKey
with_status s k = record k { metadata = record k.metadata { status = s } }

-- The stored key after `GetByHash` looked at its expiry.
unfoldable pub auto_expire : Time → StoredKey → StoredKey
auto_expire now k =
    if is_past now k.expires_at && is_active k.metadata.status then with_status expired k else k

-- The formatting of times, `Format(time.RFC3339)`, is the standard library's.
module _ (format : Time → Text) where
  or_zero : Option Time → Time
  or_zero none = 0
  or_zero (some t) = t

  unfoldable pub stored_key : Time → NewKey → StoredKey
  unfolding or_zero
  stored_key now k = record {
    metadata = record {
      id = k.key_id;
      name = k.name;
      description = k.description;
      username = [];
      subscription = k.subscription;
      groups = k.user_groups;
      creation_date = format now;
      expiration_date = [];
      status = active;
      last_used_at = [];
      ephemeral = k.ephemeral;
    };
    username = k.username;
    key_hash = k.key_hash;
    expires_at = or_zero k.expires_at;
    last_used_at = none;
    ephemeral = k.ephemeral;
  }

  unfoldable pub add_key : NewKey → Method MockStore (Unit {0})
  add_key k now m =
      if is_nil k.key_id
      then (err empty_jti, m)
      else if is_nil k.name
      then (err empty_name, m)
      else if is_nil k.subscription
      then (err subscription_required, m)
      else (ok tt, put k.key_id (stored_key now k) m)

  format_used : Text → Option Time → Text
  format_used otherwise none = otherwise
  format_used otherwise (some t) = format t

  -- The metadata as `Get`, `List` and `filterKeys` show it: an active key past its expiry is shown
  -- as expired.
  unfoldable pub view : Time → StoredKey → ApiKey
  unfolding format_used
  view now k = record k.metadata {
    username = k.username;
    status =
        if is_active k.metadata.status && is_past now k.expires_at
        then expired
        else k.metadata.status;
    expiration_date =
        if nat_eq k.expires_at 0 then k.metadata.expiration_date else format k.expires_at;
    last_used_at = format_used k.metadata.last_used_at k.last_used_at;
  }

  unfoldable pub get : Text → Method MockStore ApiKey
  get id now m = elim (lookup id m) [
    | none ↦ (err key_not_found, m)
    | some k ↦ (ok (view now k), m)
  ]

  -- What `GetByHash` answers for the key that it found.
  unfoldable pub answered : StoredKey → ApiKey
  unfolding format_used
  answered k = record k.metadata {
    username = k.username;
    last_used_at = format_used k.metadata.last_used_at k.last_used_at;
  }

  unfoldable pub answer : StoredKey → Result StoreError ApiKey
  answer k = if is_active k.metadata.status then ok (answered k) else err invalid_key

  -- The loop stops at the first key with the hash.
  unfoldable pub get_by_hash : Text → Method MockStore ApiKey
  get_by_hash hash now [] = (err key_not_found, [])
  get_by_hash hash now ((id, k) ∷ m) =
      let (r, m') = get_by_hash hash now m in
      if k.key_hash == hash
      then (answer (auto_expire now k), (id, auto_expire now k) ∷ m)
      else (r, (id, k) ∷ m')

-- `InvalidateAll` revokes this key?
unfoldable pub is_active_of : Text → StoredKey → Bool
is_active_of username k = k.username == username && is_active k.metadata.status

unfoldable pub invalidate_loop : Text → MockStore → ℕ × MockStore
unfolding is_active_of
invalidate_loop username [] = (0, [])
invalidate_loop username ((id, k) ∷ m) =
    let (count, m') = invalidate_loop username m in
    if is_active_of username k
    then (suc count, (id, with_status revoked k) ∷ m')
    else (count, (id, k) ∷ m')

unfoldable pub invalidate_all : Text → Method MockStore ℕ
unfolding invalidate_loop
invalidate_all username now m = let (count, m') = invalidate_loop username m in (ok count, m')

unfoldable pub revoke : Text → Method MockStore (Unit {0})
revoke id now m = elim (lookup id m) [
  | none ↦ (err key_not_found, m)
  | some k ↦
      if is_active k.metadata.status
      then (ok tt, put id (with_status revoked k) m)
      else (err key_not_found, m)
]

unfoldable pub update_last_used : Text → Method MockStore (Unit {0})
update_last_used id now m = elim (lookup id m) [
  | none ↦ (err key_not_found, m)
  | some k ↦ (ok tt, put id (record k { last_used_at = some now }) m)
]

-- Thirty minutes.
abbrev pub grace : Time
grace = 30 * 60 * 1_000_000_000

abbrev pub is_expired_status : Status → Bool
is_expired_status expired = true
is_expired_status _ = false

unfoldable pub is_stale : Time → StoredKey → Bool
is_stale now k =
    k.ephemeral
    && not (nat_eq k.expires_at 0)
    && (is_expired_status k.metadata.status || ltb k.expires_at now)
    && ltb k.expires_at (now - grace)

unfoldable pub delete_loop : Time → MockStore → ℕ × MockStore
unfolding is_stale
delete_loop now [] = (0, [])
delete_loop now ((id, k) ∷ m) =
    let (count, m') = delete_loop now m in
    if is_stale now k then (suc count, m') else (count, (id, k) ∷ m')

unfoldable pub delete_expired_ephemeral : Method MockStore ℕ
unfolding delete_loop
delete_expired_ephemeral now m = let (count, m') = delete_loop now m in (ok count, m')
