-- ===== src/ApiKeys/Handler/Ownership.antt =====
-- Who may read and revoke a key: the handlers over the in-memory store.
use models_as_a_service_mids.Prelude.{
  ◌≡◌, ◌≢◌, Text, eq_iff, eq_refl, [], Option, some, Bool, true, false, ◌&&◌, is_nil-ne, length, ok,
  Option-cases, Bool-cases, ◌⊎◌, inl, inr, arith,
}
use models_as_a_service_mids.ApiKeys.Types.{Time, revoked, is_active}
use models_as_a_service_mids.ApiKeys.MockStore.{
  StoredKey, MockStore, lookup, put, get, revoke, view, with_status,
}
use models_as_a_service_mids.ApiKeys.MockStore.Entries.{lookup-put}
use models_as_a_service_mids.ApiKeys.MockStore.Revocation.{active_of, invalidate_all_lem}
use models_as_a_service_mids.ApiKeys.InMemory.{in_memory}
use models_as_a_service_mids.ApiKeys.Service.{bulk_revoke_api_keys}
use models_as_a_service_mids.ApiKeys.Handler.{
  UserContext, present, not_found, key_body, revoked_body, is_authorized_for_key, get_user_context,
  lookup_failure, revoke_failure, get_api_key_handler, revoke_api_key_handler, revoke_and_show,
  show_revoked, bulk_revoke_handler, bulk_revoke, show_owned,
}

-- `user` may see the key: its owner or an administrator.
abbrev pub may_see : (UserContext → Bool) → UserContext → StoredKey → Bool
may_see is_admin user k = is_authorized_for_key is_admin user k.username

module _ (sha256_hex : Text → Text) (format : Time → Text) (parse : Text → Option Time)
    (is_admin : UserContext → Bool) where
  -- A request for one key, by an id that is not empty, shows it to its owner and to an administrator. Everyone else gets the
  -- answer that a key that does not exist gets, and the store stays as it was.
  pub get_api_key_handler_lem :
      (id : Text) (user : UserContext) (now : Time) (m : MockStore)
      → id ≢ []
      → ((k : StoredKey) × (lookup id m ≡ some k)
          × (may_see is_admin user k ≡ true)
          × (get_api_key_handler sha256_hex format
                (in_memory format parse)
                is_admin
                id
                (present user)
                now
                m
              ≡ (record { code = 200; body = key_body (view format now k) }, m)))
        ⊎ (((k : StoredKey) → lookup id m ≡ some k → may_see is_admin user k ≡ false)
            × (get_api_key_handler sha256_hex format
                  (in_memory format parse)
                  is_admin
                  id
                  (present user)
                  now
                  m
                ≡ (not_found, m)))
  unfolding get_api_key_handler show_owned get_user_context get lookup_failure view
  get_api_key_handler_lem id user now m named =
      let some_id = is_nil-ne id named in
      elim (Option-cases (lookup id m)) [
        | inl absent ↦ inr (λ k found. absurd (ground arith), ground arith)
        | inr (k, found) ↦ elim (Bool-cases (may_see is_admin user k)) [
          | inl grant ↦ inl (k, found, grant, ground arith)
          | inr deny ↦ inr (λ k' found'. ground arith, ground arith)
        ]
      ]

  -- A request to revoke a key, by an id that is not empty, succeeds exactly for the owner of an active key or an administrator:
  -- then the key is revoked, no other key changes and the answer shows the revoked key. In every
  -- other case the answer is that of a key that does not exist, and the store stays as it was.
  pub revoke_api_key_handler_lem :
      (id : Text) (user : UserContext) (checked_at revoked_at shown_at : Time) (m : MockStore)
      → id ≢ []
      → ((k : StoredKey) × (lookup id m ≡ some k)
          × (may_see is_admin user k ≡ true)
          × (is_active k.metadata.status ≡ true)
          × (revoke_api_key_handler sha256_hex format
                (in_memory format parse)
                is_admin
                id
                (present user)
                checked_at
                revoked_at
                shown_at
                m
              ≡ (
                record {
                  code = 200;
                  body = key_body (view format shown_at (with_status revoked k));
                },
                put id (with_status revoked k) m,
              )))
        ⊎ (((k : StoredKey)
              → lookup id m ≡ some k
              → (may_see is_admin user k && is_active k.metadata.status) ≡ false)
            × (revoke_api_key_handler sha256_hex format
                  (in_memory format parse)
                  is_admin
                  id
                  (present user)
                  checked_at
                  revoked_at
                  shown_at
                  m
                ≡ (not_found, m)))
  unfolding revoke_api_key_handler show_revoked revoke_and_show view get_user_context get revoke
      lookup_failure revoke_failure
  revoke_api_key_handler_lem id user checked_at revoked_at shown_at m named =
      let some_id = is_nil-ne id named in
      elim (Option-cases (lookup id m)) [
        | inl absent ↦ inr (λ k found. absurd (ground arith), ground arith)
        | inr (k, found) ↦
            elim (Bool-cases (may_see is_admin user k && is_active k.metadata.status)) [
              | inl grant ↦ inl (
                k,
                found,
                ground arith,
                ground arith,
                ground (arith, lookup-put id id (with_status revoked k) m, eq_refl id),
              )
              | inr deny ↦ inr (λ k' found'. ground arith, ground arith)
            ]
      ]

  -- A request to revoke all keys of a user, whose name is not empty, is refused, with the store as it was, unless the user
  -- asks for himself or is an administrator; otherwise it reports how many active keys the user
  -- had and leaves none of them active.
  pub bulk_revoke_handler_lem :
      (username : Text) (user : UserContext) (now : Time) (m : MockStore)
      → username ≢ []
      → let r =
          bulk_revoke_handler sha256_hex format
            (in_memory format parse)
            is_admin
            (ok username)
            (present user)
            now
            m in
        ((is_authorized_for_key is_admin user username ≡ true)
          × (r.0 ≡ record { code = 200; body = revoked_body (length (active_of username m)) })
          × (active_of username r.1 ≡ []))
        ⊎ ((is_authorized_for_key is_admin user username ≡ false) × (r.0.code ≡ 403) × (r.1 ≡ m))
  unfolding bulk_revoke_handler bulk_revoke bulk_revoke_api_keys get_user_context
      is_authorized_for_key
  bulk_revoke_handler_lem username user now m named =
      let some_name = is_nil-ne username named in
      elim (Bool-cases (is_authorized_for_key is_admin user username)) [
        | inl grant ↦ inl (
          grant,
          ground (
            arith,
            (invalidate_all_lem username now m).0,
            eq_iff username user.username,
            eq_iff user.username username,
          ),
          ground (
            arith,
            (invalidate_all_lem username now m).1,
            eq_iff username user.username,
            eq_iff user.username username,
          ),
        )
        | inr deny ↦ inr (
          deny,
          ground (arith, eq_iff username user.username, eq_iff user.username username),
          ground (arith, eq_iff username user.username, eq_iff user.username username),
        )
      ]
