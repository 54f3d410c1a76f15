-- ===== src/ApiKeys/Tests/Stores.antt =====
-- The in-memory store at concrete inputs.
use models_as_a_service_mids.Prelude.{
  ℕ, ◌+◌, ◌≡◌, ◌≢◌, refl, ◌⊎◌, Text, codes, ◌==◌, List, [], ◌∷◌, none, some, Memᴰ, length, ok,
  arith,
}
use models_as_a_service_mids.ApiKeys.Types.{ApiKey, revoked}
use models_as_a_service_mids.ApiKeys.MockStore.{
  StoredKey, MockStore, lookup, with_status, auto_expire, is_past, answered, answer, get_by_hash,
  put, revoke, update_last_used, invalidate_all, delete_expired_ephemeral,
}
use models_as_a_service_mids.ApiKeys.MockStore.Entries.{IsValid}
use models_as_a_service_mids.ApiKeys.MockStore.Validity.{IsUsable}
use models_as_a_service_mids.ApiKeys.MockStore.Calls.{revokes, validates, uses, step, run}
use models_as_a_service_mids.ApiKeys.MockStore.Lifecycle.{dead_forever}
use models_as_a_service_mids.ApiKeys.MockStore.Identity.{Continues}
use models_as_a_service_mids.ApiKeys.MockStore.Continuity.{run-Continues}
use models_as_a_service_mids.ApiKeys.MockStore.Revocation.{
  active_of, IsActiveOf, IsLongExpired, invalidate_all_lem, delete_expired_ephemeral_lem,
}
use models_as_a_service_mids.ApiKeys.Tests.Samples.{
  no_format, metadata, stored, one_key, one_revoked,
}

abbrev id : Text
id = codes "k1"

abbrev hash : Text
hash = stored.key_hash

one_key-IsValid : IsValid one_key
unfolding lookup
one_key-IsValid = (refl, refl, tt)

one_revoked-IsValid : IsValid one_revoked
unfolding lookup
one_revoked-IsValid = (refl, refl, tt)

stored-IsUsable : IsUsable 3 stored
unfolding is_past
stored-IsUsable = record { is_live = refl; in_time = refl }

found : (get_by_hash no_format hash 3 one_key).0 ≡ ok (answered no_format stored)
unfolding get_by_hash answer auto_expire is_past ◌==◌ answered
found = refl

same_entry : (i : Text) (k : StoredKey) → Memᴰ (i, k) one_key → k.key_hash ≡ hash → k ≡ stored
same_entry i k (Memᴰ.head e) same = ground arith
same_entry i k (Memᴰ.tail there) same = elim there [ ]

-- A second key of another id, so that the store still answers.
abbrev other_stored : StoredKey
other_stored = record stored {
  metadata = record metadata { id = codes "k2" };
  key_hash = codes "h2";
}

abbrev revoked_and_other : MockStore
revoked_and_other = (id, with_status revoked stored) ∷ (codes "k2", other_stored) ∷ []

revoked_and_other-IsValid : IsValid revoked_and_other
unfolding lookup codes ◌==◌
revoked_and_other-IsValid = (refl, refl, (refl, refl, tt))

still_answers :
    (get_by_hash no_format
      (codes "h2")
      8
      (run no_format revoked_and_other ((6, validates hash) ∷ []))).0
    ≡ ok (answered no_format other_stored)
unfolding get_by_hash answer auto_expire is_past ◌==◌ answered run step codes lookup
still_answers = refl

dead_forever_example : (answered no_format other_stored).id ≢ id
unfolding lookup codes ◌==◌
dead_forever_example =
    dead_forever no_format id revoked_and_other ((6, validates hash) ∷ []) (codes "h2") 8
      (answered no_format other_stored) revoked_and_other-IsValid refl (tt, tt) still_answers

abbrev used_other : StoredKey
used_other = record other_stored { last_used_at = some 6 }

still_stored :
    lookup
      (codes "k2")
      (run no_format revoked_and_other ((6, uses (codes "k2")) ∷ (7, revokes id) ∷ []))
    ≡ some used_other
unfolding run step update_last_used revoke lookup put codes ◌==◌
still_stored = refl

run-Continues_example :
    (k : StoredKey) × (lookup (codes "k2") revoked_and_other ≡ some k) × Continues k used_other
run-Continues_example =
    run-Continues no_format (codes "k2") ((6, uses (codes "k2")) ∷ (7, revokes id) ∷ [])
      revoked_and_other used_other revoked_and_other-IsValid (tt, (tt, tt)) still_stored

invalidate_all_example :
    ((invalidate_all (codes "alice") 3 one_key).0 ≡ ok (length (active_of (codes "alice") one_key)))
    × (active_of (codes "alice") (invalidate_all (codes "alice") 3 one_key).1 ≡ [])
    × ((i : Text) (k : StoredKey)
        → lookup i one_key ≡ some k
        → (IsActiveOf (codes "alice") k
            × (lookup i (invalidate_all (codes "alice") 3 one_key).1
                ≡ some (record k { metadata = record k.metadata { status = revoked } })))
          ⊎ (¬ (IsActiveOf (codes "alice") k)
              × (lookup i (invalidate_all (codes "alice") 3 one_key).1 ≡ some k)))
invalidate_all_example = invalidate_all_lem (codes "alice") 3 one_key

delete_expired_ephemeral_example :
    (count : ℕ) × ((delete_expired_ephemeral 3 one_key).0 ≡ ok count)
    × (count + length (delete_expired_ephemeral 3 one_key).1 ≡ length one_key)
    × ((i : Text) (k : StoredKey)
        → lookup i one_key ≡ some k
        → (IsLongExpired 3 k × (lookup i (delete_expired_ephemeral 3 one_key).1 ≡ none))
          ⊎ (¬ (IsLongExpired 3 k) × (lookup i (delete_expired_ephemeral 3 one_key).1 ≡ some k)))
delete_expired_ephemeral_example = delete_expired_ephemeral_lem 3 one_key one_key-IsValid

abbrev keys : List ApiKey
keys = metadata ∷ metadata ∷ metadata ∷ []
