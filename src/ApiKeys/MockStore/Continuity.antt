-- ===== src/ApiKeys/MockStore/Continuity.antt =====
-- What calls leave of a stored key: whose it is, and what it is good for.
use models_as_a_service_mids.Prelude.{
  ◌≡◌, ◌≢◌, sym, ap, subst, ◌∙◌, inl, inr, Text, ◌==◌, eq_iff, List, [], ◌∷◌, Option, none, some,
  All, Option-cases, Bool-cases, if◌then◌else◌, arith,
}
use models_as_a_service_mids.ApiKeys.Types.{Time, revoked, is_active}
use models_as_a_service_mids.ApiKeys.Store.{NewKey}
use models_as_a_service_mids.ApiKeys.MockStore.{
  StoredKey, MockStore, lookup, put, with_status, stored_key, add_key, get, get_by_hash,
  auto_expire, invalidate_all, is_active_of, is_stale, invalidate_loop, revoke, update_last_used,
  delete_loop, delete_expired_ephemeral,
}
use models_as_a_service_mids.ApiKeys.MockStore.Entries.{
  IsValid, lookup-put, lookup-invalidate_loop, lookup-delete_loop, lookup-get_by_hash,
}
use models_as_a_service_mids.ApiKeys.MockStore.Calls.{
  Call, adds, gets, validates, invalidates, revokes, uses, cleans, step, run, step-IsValid,
}
use models_as_a_service_mids.ApiKeys.MockStore.Identity.{
  Continues, Continues-refl, Continues-trans, Continues-status, Continues-if, Continues-auto_expire,
  Continues-used,
}
use models_as_a_service_mids.ApiKeys.MockStore.Lifecycle.{Spares}

-- A key of the store that the given one continues.
abbrev Before : Text → MockStore → StoredKey → Type 0
Before id m k' = (k : StoredKey) × (lookup id m ≡ some k) × Continues k k'

some-inj {ℓ} : {A : Type ℓ} {a b : A} → some a ≡ some b → a ≡ b
some-inj h = cc

not_none {ℓ} : {P : Type ℓ} {o : Option StoredKey} {k : StoredKey} → o ≡ none → o ≡ some k → P
not_none e h = absurd (ground arith)

module _ (id : Text) (m : MockStore) {k' : StoredKey} where
  unchanged : (o : Option StoredKey) → o ≡ lookup id m → o ≡ some k' → Before id m k'
  unchanged o e h = (k', sym e ∙ h, Continues-refl k')

  changed :
      (o : Option StoredKey) (k x : StoredKey)
      → lookup id m ≡ some k
      → Continues k x
      → o ≡ some x
      → o ≡ some k'
      → Before id m k'
  changed o k x found c e h = (k, found, subst (Continues k) (some-inj (sym e ∙ h)) c)

  -- A key that is put back under its id.
  put-Before :
      (i : Text) (k x : StoredKey)
      → lookup i m ≡ some k
      → Continues k x
      → lookup id (put i x m) ≡ some k'
      → Before id m k'
  put-Before i k x found c h = elim (Bool-cases (i == id)) [
    | inl t ↦
        let same : i ≡ id = (eq_iff i id).0 t in
        changed (lookup id (put i x m)) k x (ap (λ j. lookup j m) (sym same) ∙ found) c
          (ground (arith, lookup-put i id x m, t)) h
    | inr f ↦ unchanged (lookup id (put i x m)) (ground (arith, lookup-put i id x m, f)) h
  ]

  module _ (format : Time → Text) (now : Time) where
    add_key-Before :
        (k : NewKey)
        → k.key_id ≢ id
        → lookup id (add_key format k now m).1 ≡ some k'
        → Before id m k'
    unfolding add_key
    add_key-Before k other h =
        unchanged (lookup id (add_key format k now m).1)
          (ground (arith, lookup-put k.key_id id (stored_key format now k) m, eq_iff k.key_id id)) h

    get-Before : (i : Text) → lookup id (get format i now m).1 ≡ some k' → Before id m k'
    unfolding get
    get-Before i h = unchanged (lookup id (get format i now m).1) (ground arith) h

    validate-Before :
        (hash : Text) → lookup id (get_by_hash format hash now m).1 ≡ some k' → Before id m k'
    validate-Before hash h = elim (lookup-get_by_hash format hash now id m) [
      | inl same ↦ unchanged (lookup id (get_by_hash format hash now m).1) same h
      | inr (k, found, expiry) ↦
          changed (lookup id (get_by_hash format hash now m).1) k (auto_expire now k) found
            (Continues-auto_expire now k) expiry h
    ]

  invalidate-Before :
      (username : Text) → lookup id (invalidate_loop username m).1 ≡ some k' → Before id m k'
  unfolding is_active_of
  invalidate-Before username h = elim (Option-cases (lookup id m)) [
    | inl absent ↦
        unchanged (lookup id (invalidate_loop username m).1)
          (ground (arith, lookup-invalidate_loop username id m, absent)) h
    | inr (k, found) ↦
        changed (lookup id (invalidate_loop username m).1) k
          (if is_active_of username k then with_status revoked k else k) found
          (Continues-if (is_active_of username k) k (with_status revoked k)
            (λ t. Continues-status revoked k (ground arith)))
          (ground (arith, lookup-invalidate_loop username id m, found)) h
  ]

  revoke-Before : (i : Text) (now : Time) → lookup id (revoke i now m).1 ≡ some k' → Before id m k'
  unfolding revoke
  revoke-Before i now h = elim (Option-cases (lookup i m)) [
    | inl absent ↦ unchanged (lookup id (revoke i now m).1) (ground (arith, absent)) h
    | inr (k, found) ↦ elim (Bool-cases (is_active k.metadata.status)) [
      | inl live ↦
          put-Before i k (with_status revoked k) found (Continues-status revoked k live)
            (ground (arith, found, live, h))
      | inr dead ↦ unchanged (lookup id (revoke i now m).1) (ground (arith, found, dead)) h
    ]
  ]

  use-Before :
      (i : Text) (now : Time) → lookup id (update_last_used i now m).1 ≡ some k' → Before id m k'
  unfolding update_last_used
  use-Before i now h = elim (Option-cases (lookup i m)) [
    | inl absent ↦ unchanged (lookup id (update_last_used i now m).1) (ground (arith, absent)) h
    | inr (k, found) ↦
        put-Before i k (record k { last_used_at = some now }) found (Continues-used now k)
          (ground (arith, found, h))
  ]

  clean-Before :
      (now : Time) → IsValid m → lookup id (delete_loop now m).1 ≡ some k' → Before id m k'
  clean-Before now v h = elim (Option-cases (lookup id m)) [
    | inl absent ↦
        unchanged (lookup id (delete_loop now m).1)
          (ground (arith, lookup-delete_loop now id m v, absent)) h
    | inr (k, found) ↦ elim (Bool-cases (is_stale now k)) [
      | inl gone ↦ not_none (ground (arith, lookup-delete_loop now id m v, found, gone)) h
      | inr kept ↦
          unchanged (lookup id (delete_loop now m).1)
            (ground (arith, lookup-delete_loop now id m v, found, kept)) h
    ]
  ]

step-Before :
    (format : Time → Text) (id : Text) (m : MockStore) (c : Time × Call) {k' : StoredKey}
    → Spares id c
    → IsValid m
    → lookup id (step format m c) ≡ some k'
    → Before id m k'
unfolding step invalidate_all delete_expired_ephemeral
step-Before format id m (now, adds k) other v h = add_key-Before id m format now k other h
step-Before format id m (now, gets i) _ v h = get-Before id m format now i h
step-Before format id m (now, validates hash) _ v h = validate-Before id m format now hash h
step-Before format id m (now, invalidates username) _ v h = invalidate-Before id m username h
step-Before format id m (now, revokes i) _ v h = revoke-Before id m i now h
step-Before format id m (now, uses i) _ v h = use-Before id m i now h
step-Before format id m (now, cleans) _ v h = clean-Before id m now v h

-- In a store that holds every id once: whatever calls are made at whatever times, of which none
-- adds a key of an id, a key that is then stored under the id was stored under it before, with the
-- same owner, hash, expiry, kind, name, groups and subscription, and with the same status unless
-- it was active.
pub run-Continues :
    (format : Time → Text) (id : Text) (calls : List (Time × Call)) (m : MockStore) (k' : StoredKey)
    → IsValid m
    → All (Spares id) calls
    → lookup id (run format m calls) ≡ some k'
    → (k : StoredKey) × (lookup id m ≡ some k) × Continues k k'
unfolding run
run-Continues format id [] m k' v spared h = (k', h, Continues-refl k')
run-Continues format id (c ∷ calls) m k' v spared h =
    let (l, found, later) =
      run-Continues format id calls (step format m c) k' (step-IsValid format m c v) spared.1 h in
    let (k, first, now) = step-Before format id m c spared.0 v found in
    (k, first, Continues-trans now later)
