-- ===== src/ApiKeys/MockStore/Revocation.antt =====
-- What `Revoke`, `InvalidateAll` and `DeleteExpiredEphemeral` change, and what they leave alone.
use mathlib.Core.Bool.{false≢true}
use models_as_a_service_mids.Prelude.{
  ℕ, ◌+◌, ◌<◌, ◌≡◌, ◌≢◌, refl, sym, ap, ◌∙◌, eq_iff, Bool, ◌&&◌, Text, ◌==◌, [], ◌∷◌, none, some,
  true, false, Option-cases, Bool-cases, filter, length, ok, err, inl, inr, ◌⊎◌, arith,
  if◌then◌else◌,
}
use models_as_a_service_mids.ApiKeys.Types.{
  Time, Status, active, expired, revoked, is_active, key_not_found,
}
use models_as_a_service_mids.ApiKeys.MockStore.{
  StoredKey, MockStore, lookup, with_status, is_active_of, is_stale, invalidate_loop,
  invalidate_all, revoke, delete_loop, delete_expired_ephemeral,
}
use models_as_a_service_mids.ApiKeys.MockStore.Entries.{
  IsValid, lookup-put, lookup-invalidate_loop, lookup-delete_loop,
}

-- `Revoke` succeeds exactly on an active key, which becomes revoked while every other key stays as
-- it was; on a missing or inactive key it reports that none was found and changes nothing.
pub revoke_lem :
    (id : Text) (now : Time) (m : MockStore)
    → ((k : StoredKey) × (lookup id m ≡ some k)
        × (is_active k.metadata.status ≡ true)
        × ((revoke id now m).0 ≡ ok tt)
        × ((j : Text)
            → lookup j (revoke id now m).1
              ≡ (if id == j then some (with_status revoked k) else lookup j m)))
      ⊎ (((k : StoredKey) → lookup id m ≡ some k → is_active k.metadata.status ≡ false)
          × (revoke id now m ≡ (err key_not_found, m)))
unfolding revoke
revoke_lem id now m = elim (Option-cases (lookup id m)) [
  | inl absent ↦ inr (λ k found. absurd (ground arith), ground arith)
  | inr (k, found) ↦ elim (Bool-cases (is_active k.metadata.status)) [
    | inl live ↦ inl (
      k,
      found,
      live,
      ground arith,
      λ j. ground (arith, lookup-put id j (with_status revoked k) m),
    )
    | inr dead ↦ inr (λ k' found'. ground arith, ground arith)
  ]
]

-- The key is an active one of the user.
abbrev pub IsActiveOf : Text → StoredKey → Type 0
IsActiveOf username k = (k.username ≡ username) × (k.metadata.status ≡ active)

abbrev is_status_active : Status → Bool
is_status_active active = true
is_status_active expired = false
is_status_active revoked = false

-- The active keys of a user.
abbrev pub active_of : Text → MockStore → MockStore
active_of username =
    filter (λ entry. entry.1.username == username && is_status_active entry.1.metadata.status)

same_status : (s : Status) → is_active s ≡ is_status_active s
same_status active = refl
same_status expired = refl
same_status revoked = refl

same_test :
    (username : Text) (k : StoredKey)
    → is_active_of username k ≡ (k.username == username && is_status_active k.metadata.status)
unfolding is_active_of
same_test username k = ap (λ b. k.username == username && b) (same_status k.metadata.status)

active-IsActiveOf :
    (username : Text) (k : StoredKey) → is_active_of username k ≡ true → IsActiveOf username k
unfolding is_active_of
active-IsActiveOf username k h =
    ((eq_iff k.username username).0 (ground arith), known k.metadata.status (ground arith))
  where
    known : (s : Status) → is_active s ≡ true → s ≡ active
    known active e = refl
    known expired e = absurd (cc)
    known revoked e = absurd (cc)

IsActiveOf-active :
    (username : Text) (k : StoredKey) → IsActiveOf username k → is_active_of username k ≡ true
unfolding is_active_of
IsActiveOf-active username k (mine, live) =
    ground (arith, (eq_iff k.username username).1 mine, live)

count-invalidate_loop :
    (username : Text) (m : MockStore)
    → (invalidate_loop username m).0 ≡ length (active_of username m)
unfolding invalidate_loop filter
count-invalidate_loop username [] = refl
count-invalidate_loop username ((id, k) ∷ m) =
    ground (arith, same_test username k, count-invalidate_loop username m)

with_status-inactive :
    (username : Text) (k : StoredKey) → is_active_of username (with_status revoked k) ≡ false
unfolding is_active_of
with_status-inactive username k = ground arith

none_left :
    (username : Text) (m : MockStore) → active_of username (invalidate_loop username m).1 ≡ []
unfolding invalidate_loop filter
none_left username [] = refl
none_left username ((id, k) ∷ m) = elim (Bool-cases (is_active_of username k)) [
  | inl t ↦
      let gone =
        sym (same_test username (with_status revoked k)) ∙ with_status-inactive username k in
      rw t (rw gone (none_left username m))
  | inr f ↦ rw f (rw (sym (same_test username k) ∙ f) (none_left username m))
]

-- `InvalidateAll` reports the number of the user's active keys, revokes each of them, so that none
-- of them is left active, and leaves every other key as it was.
pub invalidate_all_lem :
    (username : Text) (now : Time) (m : MockStore)
    → ((invalidate_all username now m).0 ≡ ok (length (active_of username m)))
      × (active_of username (invalidate_all username now m).1 ≡ [])
      × ((id : Text) (k : StoredKey)
          → lookup id m ≡ some k
          → (IsActiveOf username k
              × (lookup id (invalidate_all username now m).1
                  ≡ some (record k { metadata = record k.metadata { status = revoked } })))
            ⊎ (¬ (IsActiveOf username k) × (lookup id (invalidate_all username now m).1 ≡ some k)))
unfolding invalidate_all
invalidate_all_lem username now m = (
  ground (arith, count-invalidate_loop username m),
  none_left username m,
  λ id k found. elim (Bool-cases (is_active_of username k)) [
    | inl t ↦
        inl (active-IsActiveOf username k t, ground (arith, lookup-invalidate_loop username id m))
    | inr f ↦ inr (
      λ mine. false≢true (sym f ∙ IsActiveOf-active username k mine),
      ground (arith, lookup-invalidate_loop username id m),
    )
  ],
)

count-delete_loop :
    (now : Time) (m : MockStore) → (delete_loop now m).0 + length (delete_loop now m).1 ≡ length m
unfolding delete_loop
count-delete_loop now [] = refl
count-delete_loop now ((id, k) ∷ m) = ground (arith, count-delete_loop now m)

-- Ephemeral, with an expiry that is more than thirty minutes past.
abbrev pub IsLongExpired : Time → StoredKey → Type 0
IsLongExpired now k =
    (k.ephemeral ≡ true) × (k.expires_at ≢ 0) × (k.expires_at + 1_800_000_000_000 < now)

stale-IsLongExpired : (now : Time) (k : StoredKey) → is_stale now k ≡ true → IsLongExpired now k
unfolding is_stale
stale-IsLongExpired now k h = (ground arith, ground arith, ground arith)

IsLongExpired-stale : (now : Time) (k : StoredKey) → IsLongExpired now k → is_stale now k ≡ true
unfolding is_stale
IsLongExpired-stale now k h = ground (arith, h.0, h.1, h.2)

-- `DeleteExpiredEphemeral` deletes, of the keys with an id of their own, exactly the ephemeral ones
-- whose expiry is more than thirty minutes past, leaves the others as they were, and reports how
-- many it deleted.
pub delete_expired_ephemeral_lem :
    (now : Time) (m : MockStore)
    → IsValid m
    → (count : ℕ) × ((delete_expired_ephemeral now m).0 ≡ ok count)
      × (count + length (delete_expired_ephemeral now m).1 ≡ length m)
      × ((id : Text) (k : StoredKey)
          → lookup id m ≡ some k
          → (IsLongExpired now k × (lookup id (delete_expired_ephemeral now m).1 ≡ none))
            ⊎ (¬ (IsLongExpired now k) × (lookup id (delete_expired_ephemeral now m).1 ≡ some k)))
unfolding delete_expired_ephemeral
delete_expired_ephemeral_lem now m v = (
  (delete_loop now m).0,
  ground arith,
  count-delete_loop now m,
  λ id k found. elim (Bool-cases (is_stale now k)) [
    | inl t ↦ inl (stale-IsLongExpired now k t, ground (arith, lookup-delete_loop now id m v))
    | inr f ↦ inr (
      λ long. false≢true (sym f ∙ IsLongExpired-stale now k long),
      ground (arith, lookup-delete_loop now id m v),
    )
  ],
)
