-- ===== src/ApiKeys/MockStore/Lifecycle.antt =====
-- A key that is revoked or expired stays so: no call but a new key of the same id brings it back.
use models_as_a_service_mids.Prelude.{
  ◌≡◌, ◌≢◌, sym, ap, ◌∙◌, Text, eq_iff, List, [], ◌∷◌, Option, none, some, Bool, true, All,
  Option-cases, ok, not, inl, inr, arith,
}
use models_as_a_service_mids.ApiKeys.Types.{Time, ApiKey, revoked, is_active}
use models_as_a_service_mids.ApiKeys.Store.{NewKey}
use models_as_a_service_mids.ApiKeys.MockStore.{
  StoredKey, MockStore, lookup, with_status, stored_key, add_key, get, get_by_hash, auto_expire,
  invalidate_all, is_active_of, invalidate_loop, revoke, update_last_used, delete_loop,
  delete_expired_ephemeral, answered,
}
use models_as_a_service_mids.ApiKeys.MockStore.Entries.{
  IsValid, id-lookup, lookup-put, lookup-of_Memᴰ, lookup-invalidate_loop, lookup-delete_loop,
  lookup-get_by_hash,
}
use models_as_a_service_mids.ApiKeys.MockStore.Validity.{get_by_hash-IsUsable}
use models_as_a_service_mids.ApiKeys.MockStore.Calls.{
  Call, adds, gets, validates, invalidates, revokes, uses, cleans, step, run, step-IsValid,
  run-IsValid,
}

-- Nothing is stored, or a key that is not active.
abbrev pub is_dead : Option StoredKey → Bool
is_dead none = true
is_dead (some k) = not (is_active k.metadata.status)

-- The call adds no key of the id.
abbrev pub Spares : Text → Time × Call → Type 0
Spares id (now, adds k) = k.key_id ≢ id
Spares id (now, _) = Unit

module _ (format : Time → Text) (id : Text) (now : Time) (m : MockStore)
    (dead : is_dead (lookup id m) ≡ true) where
  add_key-is_dead :
      (k : NewKey) → k.key_id ≢ id → is_dead (lookup id (add_key format k now m).1) ≡ true
  unfolding add_key
  add_key-is_dead k other =
      ground (arith, lookup-put k.key_id id (stored_key format now k) m, eq_iff k.key_id id)

  get-is_dead : (i : Text) → is_dead (lookup id (get format i now m).1) ≡ true
  unfolding get
  get-is_dead i = ground arith

  validate-is_dead : (hash : Text) → is_dead (lookup id (get_by_hash format hash now m).1) ≡ true
  unfolding auto_expire
  validate-is_dead hash = elim (lookup-get_by_hash format hash now id m) [
    | inl same ↦ ground arith
    | inr (k, found, changed) ↦ ground arith
  ]

  invalidate-is_dead : (username : Text) → is_dead (lookup id (invalidate_loop username m).1) ≡ true
  unfolding is_active_of
  invalidate-is_dead username = ground (arith, lookup-invalidate_loop username id m)

  revoke-is_dead : (i : Text) → is_dead (lookup id (revoke i now m).1) ≡ true
  unfolding revoke
  revoke-is_dead i = elim (Option-cases (lookup i m)) [
    | inl absent ↦ ground arith
    | inr (k, found) ↦ ground (arith, lookup-put i id (with_status revoked k) m, eq_iff i id)
  ]

  use-is_dead : (i : Text) → is_dead (lookup id (update_last_used i now m).1) ≡ true
  unfolding update_last_used
  use-is_dead i = elim (Option-cases (lookup i m)) [
    | inl absent ↦ ground arith
    | inr (k, found) ↦
        ground (arith, lookup-put i id (record k { last_used_at = some now }) m, eq_iff i id)
  ]

  clean-is_dead : IsValid m → is_dead (lookup id (delete_loop now m).1) ≡ true
  clean-is_dead v = ground (arith, lookup-delete_loop now id m v)

step-is_dead :
    (format : Time → Text) (id : Text) (m : MockStore) (c : Time × Call)
    → Spares id c
    → IsValid m
    → is_dead (lookup id m) ≡ true
    → is_dead (lookup id (step format m c)) ≡ true
unfolding step invalidate_all delete_expired_ephemeral
step-is_dead format id m (now, adds k) other v dead = add_key-is_dead format id now m dead k other
step-is_dead format id m (now, gets i) _ v dead = get-is_dead format id now m dead i
step-is_dead format id m (now, validates hash) _ v dead = validate-is_dead format id now m dead hash
step-is_dead format id m (now, invalidates username) _ v dead =
    invalidate-is_dead format id now m dead username
step-is_dead format id m (now, revokes i) _ v dead = revoke-is_dead format id now m dead i
step-is_dead format id m (now, uses i) _ v dead = use-is_dead format id now m dead i
step-is_dead format id m (now, cleans) _ v dead = clean-is_dead format id now m dead v

run-is_dead :
    (format : Time → Text) (id : Text) (calls : List (Time × Call)) (m : MockStore)
    → All (Spares id) calls
    → IsValid m
    → is_dead (lookup id m) ≡ true
    → is_dead (lookup id (run format m calls)) ≡ true
unfolding run
run-is_dead format id [] m spared v dead = dead
run-is_dead format id (c ∷ calls) m spared v dead =
    run-is_dead format id calls (step format m c) spared.1 (step-IsValid format m c v)
      (step-is_dead format id m c spared.0 v dead)

-- In a store that holds every id once, a key that is revoked, expired or deleted is out for good:
-- after any calls at any times that add no key of its id, no validation of any hash answers with
-- that id.
pub dead_forever :
    (format : Time → Text) (id : Text) (m : MockStore) (calls : List (Time × Call)) (hash : Text)
    (now : Time) (r : ApiKey)
    → IsValid m
    → is_dead (lookup id m) ≡ true
    → All (Spares id) calls
    → (get_by_hash format hash now (run format m calls)).0 ≡ ok r
    → r.id ≢ id
unfolding answered
dead_forever format id m calls hash now r v dead spared h e =
    let m' = run format m calls in
    let v' = run-IsValid format calls m v in
    let (i, k, there, same_hash, usable, same) = get_by_hash-IsUsable format hash now m' r h in
    let found = lookup-of_Memᴰ i k m' v' there in
    let own_id = id-lookup i m' v' found in
    let here : i ≡ id = sym own_id ∙ sym (ap (λ (a : ApiKey). a.id) same) ∙ e in
    let gone = run-is_dead format id calls m spared v dead in
    ground (arith, usable.is_live, ap (λ j. lookup j m') here)
