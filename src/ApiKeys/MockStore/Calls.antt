-- ===== src/ApiKeys/MockStore/Calls.antt =====
-- The store under any sequence of calls, each with the time at which it is made.
use models_as_a_service_mids.Prelude.{
  ◌≡◌, refl, Text, ◌==◌, List, [], ◌∷◌, none, some, Bool, true, false, Option-cases, Bool-cases,
  inl, inr, arith, is_nil, if◌then◌else◌,
}
use models_as_a_service_mids.ApiKeys.Types.{Time, revoked, is_active}
use models_as_a_service_mids.ApiKeys.Store.{NewKey}
use models_as_a_service_mids.ApiKeys.MockStore.{
  StoredKey, MockStore, lookup, with_status, stored_key, add_key, get, get_by_hash, auto_expire,
  invalidate_all, is_active_of, is_stale, invalidate_loop, revoke, update_last_used, delete_loop,
  delete_expired_ephemeral,
}
use models_as_a_service_mids.ApiKeys.MockStore.Entries.{
  IsValid, put-IsValid, id-lookup, lookup-invalidate_loop, lookup-delete_loop, lookup-get_by_hash,
}

pub data Call : Type 0 where
  adds : NewKey → Call
  gets validates invalidates revokes uses : Text → Call
  cleans : Call

module _ (format : Time → Text) where
  -- The state that a call leaves. `Search` and `List` only read, like `gets`.
  unfoldable pub step : MockStore → Time × Call → MockStore
  step m (now, adds k) = (add_key format k now m).1
  step m (now, gets id) = (get format id now m).1
  step m (now, validates hash) = (get_by_hash format hash now m).1
  step m (now, invalidates username) = (invalidate_all username now m).1
  step m (now, revokes id) = (revoke id now m).1
  step m (now, uses id) = (update_last_used id now m).1
  step m (now, cleans) = (delete_expired_ephemeral now m).1

  unfoldable pub run : MockStore → List (Time × Call) → MockStore
  run m [] = m
  run m (c ∷ calls) = run (step m c) calls

invalidate_loop-IsValid :
    (username : Text) (m : MockStore) → IsValid m → IsValid (invalidate_loop username m).1
unfolding invalidate_loop
invalidate_loop-IsValid username [] v = tt
invalidate_loop-IsValid username ((id, k) ∷ m) v = elim (Bool-cases (is_active_of username k)) [
  | inl t ↦ rw t (
    ground (arith, v.0, lookup-invalidate_loop username id m),
    v.1,
    invalidate_loop-IsValid username m v.2,
  )
  | inr f ↦ rw f (
    ground (arith, v.0, lookup-invalidate_loop username id m),
    v.1,
    invalidate_loop-IsValid username m v.2,
  )
]

delete_loop-IsValid : (now : Time) (m : MockStore) → IsValid m → IsValid (delete_loop now m).1
unfolding delete_loop
delete_loop-IsValid now [] v = tt
delete_loop-IsValid now ((id, k) ∷ m) v = elim (Bool-cases (is_stale now k)) [
  | inl t ↦ rw t (delete_loop-IsValid now m v.2)
  | inr f ↦
      rw f
        (ground (arith, v.0, lookup-delete_loop now id m v.2), v.1, delete_loop-IsValid now m v.2)
]

auto_expire-id : (now : Time) (k : StoredKey) → (auto_expire now k).metadata.id ≡ k.metadata.id
unfolding auto_expire
auto_expire-id now k = ground arith

get_by_hash-IsValid :
    (format : Time → Text) (hash : Text) (now : Time) (m : MockStore)
    → IsValid m
    → IsValid (get_by_hash format hash now m).1
unfolding get_by_hash
get_by_hash-IsValid format hash now [] v = tt
get_by_hash-IsValid format hash now ((id, k) ∷ m) v = elim (Bool-cases (k.key_hash == hash)) [
  | inl t ↦ rw t (v.0, ground (arith, auto_expire-id now k, v.1), v.2)
  | inr f ↦ rw f (still, v.1, get_by_hash-IsValid format hash now m v.2)
]
  where
    still : lookup id (get_by_hash format hash now m).1 ≡ none
    still = elim (lookup-get_by_hash format hash now id m) [
      | inl same ↦ ground (arith, v.0)
      | inr (k', found, changed) ↦ absurd (ground (arith, v.0))
    ]

keep-if {ℓ} :
    {R : Type ℓ} (b : Bool) (p q : R × MockStore)
    → IsValid p.1
    → IsValid q.1
    → IsValid (if b then p else q).1
keep-if true p q vp vq = vp
keep-if false p q vp vq = vq

add_key-IsValid :
    (format : Time → Text) (k : NewKey) (now : Time) (m : MockStore)
    → IsValid m
    → IsValid (add_key format k now m).1
unfolding add_key stored_key
add_key-IsValid format k now m v = keep-if (is_nil k.key_id) _ _ v (
    keep-if (is_nil k.name) _ _ v (
      keep-if (is_nil k.subscription) _ _ v
        (put-IsValid k.key_id (stored_key format now k) m refl v)))

get-IsValid :
    (format : Time → Text) (id : Text) (now : Time) (m : MockStore)
    → IsValid m
    → IsValid (get format id now m).1
unfolding get
get-IsValid format id now m v = elim (Option-cases (lookup id m)) [
  | inl absent ↦ rw (absent, get) v
  | inr (k, found) ↦ rw (found, get) v
]

revoke-IsValid : (id : Text) (now : Time) (m : MockStore) → IsValid m → IsValid (revoke id now m).1
unfolding revoke
revoke-IsValid id now m v = elim (Option-cases (lookup id m)) [
  | inl absent ↦ rw (absent, revoke) v
  | inr (k, found) ↦
      rw (found, revoke)
        (keep-if (is_active k.metadata.status) _ _
          (put-IsValid id (with_status revoked k) m (id-lookup id m v found) v) v)
]

update_last_used-IsValid :
    (id : Text) (now : Time) (m : MockStore) → IsValid m → IsValid (update_last_used id now m).1
unfolding update_last_used
update_last_used-IsValid id now m v = elim (Option-cases (lookup id m)) [
  | inl absent ↦ rw (absent, update_last_used) v
  | inr (k, found) ↦
      rw (found, update_last_used)
        (put-IsValid id (record k { last_used_at = some now }) m (id-lookup id m v found) v)
]

-- Every call keeps every id stored once, under the id of its own key.
pub step-IsValid :
    (format : Time → Text) (m : MockStore) (c : Time × Call) → IsValid m → IsValid (step format m c)
unfolding step invalidate_all delete_expired_ephemeral
step-IsValid format m (now, adds k) v = add_key-IsValid format k now m v
step-IsValid format m (now, gets id) v = get-IsValid format id now m v
step-IsValid format m (now, validates hash) v = get_by_hash-IsValid format hash now m v
step-IsValid format m (now, invalidates username) v = invalidate_loop-IsValid username m v
step-IsValid format m (now, revokes id) v = revoke-IsValid id now m v
step-IsValid format m (now, uses id) v = update_last_used-IsValid id now m v
step-IsValid format m (now, cleans) v = delete_loop-IsValid now m v

-- Any sequence of calls at any times keeps every id stored once, under the id of its own key.
pub run-IsValid :
    (format : Time → Text) (calls : List (Time × Call)) (m : MockStore)
    → IsValid m
    → IsValid (run format m calls)
unfolding run
run-IsValid format [] m v = v
run-IsValid format (c ∷ calls) m v =
    run-IsValid format calls (step format m c) (step-IsValid format m c v)
