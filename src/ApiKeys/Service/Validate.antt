-- ===== src/ApiKeys/Service/Validate.antt =====
-- Which keys `ValidateAPIKey` accepts.
use models_as_a_service_mids.Prelude.{
  ◌≡◌, ◌≢◌, ap, ◌∙◌, ◌↔◌, Text, trim_space, [], Option, Bool, true, false, is_nil_iff, is_nil-ne,
  Memᴰ, ok, Result-cases, inl, inr, arith,
}
use models_as_a_service_mids.ApiKeys.Types.{Time, ApiKey, StoreError}
use models_as_a_service_mids.ApiKeys.Store.{MetadataStore}
use models_as_a_service_mids.ApiKeys.Keygen.{is_valid_key_format, hash_api_key}
use models_as_a_service_mids.ApiKeys.MockStore.{StoredKey, MockStore, answered}
use models_as_a_service_mids.ApiKeys.MockStore.Validity.{IsUsable, get_by_hash-IsUsable}
use models_as_a_service_mids.ApiKeys.InMemory.{in_memory}
use models_as_a_service_mids.ApiKeys.Service.{
  ValidationResult, identified, lookup_rejected, check_metadata, validate_api_key,
}

module _ (sha256_hex : Text → Text) (format : Time → Text) (S : MetadataStore)
    (is_uuid : Text → Bool) where
  -- What an accepted key has: the format, a hash, and an entry of the store under that hash with a
  -- subscription that is not blank and an id that is a UUID.
  abbrev pub Accepts : Text → Time → S.State → ApiKey → Type 0
  Accepts key now s metadata =
      (is_valid_key_format key ≡ true)
      × (hash_api_key sha256_hex key ≢ [])
      × ((S.get_by_hash (hash_api_key sha256_hex key) now s).0 ≡ ok metadata)
      × (trim_space metadata.subscription ≢ [])
      × (is_uuid metadata.id ≡ true)

  lookup_rejected-invalid :
      (e : StoreError) (r : ValidationResult) → lookup_rejected e ≡ ok r → r.valid ≡ false
  unfolding lookup_rejected
  lookup_rejected-invalid e r h = ground arith

  check_metadata_iff :
      (metadata : ApiKey) (r : ValidationResult)
      → ((check_metadata is_uuid metadata ≡ ok r) × (r.valid ≡ true)) ↔ (
          (trim_space metadata.subscription ≢ [])
          × (is_uuid metadata.id ≡ true)
          × (r ≡ identified metadata))
  unfolding check_metadata
  check_metadata_iff metadata r = (
    λ (h, accepted). (
      λ blank.
          let e = (is_nil_iff (trim_space metadata.subscription)).1 blank in absurd (ground arith),
      ground arith,
      ground arith,
    ),
    λ (bound, good, e).
        let some_sub = is_nil-ne (trim_space metadata.subscription) bound in
        (ground arith, ground arith),
  )

  -- A key is accepted exactly if all that is asked of it holds, and the answer then identifies the
  -- stored key: every other outcome is a rejection or an error.
  pub validate_api_key_iff :
      (key : Text) (now : Time) (s : S.State) (r : ValidationResult)
      → (((validate_api_key sha256_hex format S is_uuid key now s).0 ≡ ok r) × (r.valid ≡ true))
        ↔ ((metadata : ApiKey) × Accepts key now s metadata × (r ≡ identified metadata))
  unfolding validate_api_key
  validate_api_key_iff key now s r = (
    λ (h, accepted).
        let hash = hash_api_key sha256_hex key in
        elim (Result-cases (S.get_by_hash hash now s).0) [
          | inl (metadata, found) ↦
              let (bound, good, e) = (check_metadata_iff metadata r).0 (ground arith, accepted) in
              (
                metadata,
                (ground arith, λ nil. absurd (ground (arith, is_nil_iff hash)), found, bound, good),
                e,
              )
          | inr (e, refused) ↦ absurd (ground (arith, lookup_rejected-invalid e r))
        ],
    λ (metadata, (form, hashed, found, bound, good), e).
        let ne = is_nil-ne (hash_api_key sha256_hex key) hashed in
        let (checked, accepted) = (check_metadata_iff metadata r).1 (bound, good, e) in
        (ground arith, accepted),
  )

module _ (sha256_hex : Text → Text) (format : Time → Text) (parse : Text → Option Time)
    (is_uuid : Text → Bool) where
  -- On the in-memory store an accepted key has the hash of a stored key that is active and not past
  -- its expiry, and the answer names that key's owner, groups and subscription, which is not blank.
  pub validate_api_key-IsUsable :
      (key : Text) (now : Time) (m : MockStore) (r : ValidationResult)
      → (validate_api_key sha256_hex format (in_memory format parse) is_uuid key now m).0 ≡ ok r
      → r.valid ≡ true
      → (id : Text) × (k : StoredKey) × Memᴰ (id, k) m
        × (k.key_hash ≡ hash_api_key sha256_hex key)
        × IsUsable now k
        × (r ≡ identified (answered format k))
        × (r.username ≡ k.username)
        × (trim_space k.metadata.subscription ≢ [])
  unfolding answered
  validate_api_key-IsUsable key now m r h accepted =
      let (metadata, (form, hashed, found, bound, good), e) =
        (validate_api_key_iff sha256_hex format (in_memory format parse) is_uuid key now m r).0
          (h, accepted) in
      let (id, k, there, same, usable, shown) =
        get_by_hash-IsUsable format (hash_api_key sha256_hex key) now m metadata found in
      let e' = e ∙ ap identified shown in
      (
        id,
        k,
        there,
        same,
        usable,
        e',
        ap (λ (v : ValidationResult). v.username) e',
        λ blank. bound (ap (λ (a : ApiKey). trim_space a.subscription) shown ∙ blank),
      )
