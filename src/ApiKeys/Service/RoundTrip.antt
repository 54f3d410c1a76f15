-- ===== src/ApiKeys/Service/RoundTrip.antt =====
-- A created key is accepted until it expires.
use models_as_a_service_mids.Prelude.{
  ℕ, ◌+◌, ◌≤◌, ◌≡◌, ◌≢◌, refl, sym, ap, ◌∙◌, Text, ◌==◌, eq_iff, trim_space, List, [], ◌∷◌, Option,
  some, Bool, true, false, Memᴰ, Result, ok, err, Bool-cases, ◌⊎◌, inl, inr, arith, if◌then◌else◌,
}
use models_as_a_service_mids.Prelude.Int.{ℤ, pos_part}
use models_as_a_service_mids.ApiKeys.Types.{Time}
use models_as_a_service_mids.ApiKeys.Store.{NewKey}
use models_as_a_service_mids.ApiKeys.Base62.{encode_base62}
use models_as_a_service_mids.ApiKeys.Keygen.{
  Generated, generate_api_key, is_valid_key_format, hash_api_key, salted, hash_with_salt,
}
use models_as_a_service_mids.ApiKeys.Keygen.RoundTrip.{generate_api_key_lem}
use models_as_a_service_mids.ApiKeys.MockStore.{
  StoredKey, MockStore, put, add_key, get_by_hash, stored_key, answered, is_past,
}
use models_as_a_service_mids.ApiKeys.MockStore.Validity.{IsUsable, get_by_hash_complete}
use models_as_a_service_mids.ApiKeys.InMemory.{in_memory}
use models_as_a_service_mids.ApiKeys.Service.{
  SubscriptionSelector, ServiceError, Duration, CreateRequest, Draws, CreateApiKeyResponse,
  ValidationResult, new_key, created, create_api_key, check_expiration, validate_api_key,
}
use models_as_a_service_mids.ApiKeys.Service.Create.{create_api_key-IsPrepared}
use models_as_a_service_mids.ApiKeys.Service.Validate.{validate_api_key_iff}

Memᴰ-put : (id : Text) (k : StoredKey) (m : MockStore) → Memᴰ (id, k) (put id k m)
unfolding put
Memᴰ-put id k [] = Memᴰ.head refl
Memᴰ-put id k ((i, old) ∷ m) = elim (Bool-cases (i == id)) [
  | inl t ↦ rw t (Memᴰ.head (ap (λ j. (j, k)) (sym ((eq_iff i id).0 t))))
  | inr f ↦ rw f (Memᴰ.tail (Memᴰ-put id k m))
]

Memᴰ-of_put :
    (id : Text) (k : StoredKey) (m : MockStore) {i : Text} {l : StoredKey}
    → Memᴰ (i, l) (put id k m)
    → (l ≡ k) ⊎ Memᴰ (i, l) m
unfolding put
Memᴰ-of_put id k [] (Memᴰ.head e) = inl (ap (λ (p : Text × StoredKey). p.1) e)
Memᴰ-of_put id k [] (Memᴰ.tail there) = inr there
Memᴰ-of_put id k ((j, old) ∷ m) there = place (j == id) there (Memᴰ-of_put id k m)
  where
    place :
        {i : Text} {l : StoredKey} (b : Bool)
        → Memᴰ (i, l) (if b then (j, k) ∷ m else (j, old) ∷ put id k m)
        → (Memᴰ (i, l) (put id k m) → (l ≡ k) ⊎ Memᴰ (i, l) m)
        → (l ≡ k) ⊎ Memᴰ (i, l) ((j, old) ∷ m)
    place true (Memᴰ.head e) ih = inl (ap (λ (p : Text × StoredKey). p.1) e)
    place true (Memᴰ.tail n) ih = inr (Memᴰ.tail n)
    place false (Memᴰ.head e) ih = inr (Memᴰ.head e)
    place false (Memᴰ.tail n) ih = elim (ih n) [ inl e ↦ inl e | inr o ↦ inr (Memᴰ.tail o) ]

-- A generated key has the format of a key, and its hash is the one stored for it, which is not
-- empty if SHA-256 texts are not.
pub generated-lem :
    (sha256_hex : Text → Text) (key_id_read secret_read : Result Text (List ℕ)) (g : Generated)
    → generate_api_key sha256_hex key_id_read secret_read ≡ ok g
    → (is_valid_key_format g.plaintext ≡ true)
      × (hash_api_key sha256_hex g.plaintext ≡ g.hash)
      × (((t : Text) → sha256_hex t ≢ []) → g.hash ≢ [])
unfolding generate_api_key hash_with_salt
generated-lem sha256_hex (err e) secret_read g made = absurd (ground arith)
generated-lem sha256_hex (ok a) (err e) g made = absurd (ground arith)
generated-lem sha256_hex (ok a) (ok b) g made =
    let (g', made', form, parsed, hashed, accepted) = generate_api_key_lem sha256_hex a b in
    let same : g' ≡ g = ground arith in
    let text = salted (encode_base62 a) (encode_base62 b) in
    let own : g.hash ≡ sha256_hex text = ground arith in
    (ground arith, ground arith, λ hex nil. hex text (sym own ∙ nil))

-- The answer to a validation of a key that `request` created.
abbrev pub identity_of : Draws → CreateRequest → CreateApiKeyResponse → ValidationResult
identity_of draws request response = record {
  valid = true;
  user_id = draws.new_id;
  username = request.username;
  key_id = draws.new_id;
  groups = request.user_groups;
  subscription = response.subscription;
  reason = [];
}

module _ (sha256_hex : Text → Text) (format : Time → Text) (parse : Text → Option Time)
    (is_uuid : Text → Bool) where
  stored-IsUsable :
      (now : Time) (k : NewKey) (at_time expires_at : Time)
      → k.expires_at ≡ some expires_at
      → now ≤ expires_at
      → IsUsable now (stored_key format at_time k)
  unfolding stored_key is_past
  stored-IsUsable now k at_time expires_at e h = record {
    is_live = ground arith;
    in_time = ground arith;
  }

  add_key_ok :
      (k : NewKey) (now : Time) (m : MockStore)
      → (add_key format k now m).0 ≡ ok tt
      → (add_key format k now m).1 ≡ put k.key_id (stored_key format now k) m
  unfolding add_key
  add_key_ok k now m h = ground arith

  -- A key of the store is found by its hash after it was put there.
  found-put :
      (k : NewKey) (stored_at now expires_at : Time) (m : MockStore)
      → k.expires_at ≡ some expires_at
      → now ≤ expires_at
      → ((id : Text) (l : StoredKey) → Memᴰ (id, l) m → l.key_hash ≢ k.key_hash)
      → (get_by_hash format k.key_hash now (put k.key_id (stored_key format stored_at k) m)).0
        ≡ ok (answered format (stored_key format stored_at k))
  unfolding stored_key
  found-put k stored_at now expires_at m e h fresh =
      let s = stored_key format stored_at k in
      get_by_hash_complete format k.key_hash now (put k.key_id s m) k.key_id s
        (Memᴰ-put k.key_id s m) refl (stored-IsUsable now k stored_at expires_at e h)
        (λ i l there same. elim (Memᴰ-of_put k.key_id s m there) [
          | inl e ↦ e
          | inr old ↦ absurd (fresh i l old same)
        ])

  -- A key that was created on the in-memory store is accepted at once and until its expiry, and
  -- identifies its creator, with the groups and the subscription of the creation. It is assumed
  -- that SHA-256 texts are not empty, that the new id is a UUID, that the selected subscription has
  -- a name, and that no stored key has the new key's hash.
  pub create_validate :
      (config : Option ℤ) (selector : SubscriptionSelector) (draws : Draws)
      (request : CreateRequest) (m m' : MockStore) (response : CreateApiKeyResponse) (now : Time)
      → ((t : Text) → sha256_hex t ≢ [])
      → is_uuid draws.new_id ≡ true
      → create_api_key sha256_hex format (in_memory format parse) config selector draws request m
        ≡ (ok response, m')
      → trim_space response.subscription ≢ []
      → ((id : Text) (k : StoredKey)
          → Memᴰ (id, k) m
          → k.key_hash ≢ hash_api_key sha256_hex response.key)
      → ((d : Duration)
          → check_expiration config request.ephemeral request.expires_in ≡ ok d
          → now ≤ draws.asked + pos_part d)
      → (validate_api_key sha256_hex format (in_memory format parse) is_uuid response.key now m').0
        ≡ ok (identity_of draws request response)
  unfolding new_key created stored_key answered
  create_validate config selector draws request m m' response now hex uuid made bound fresh
        in_time =
      elim (create_api_key-IsPrepared sha256_hex format (in_memory format parse) config selector
        draws request m) [
          | inl (e, stopped, _) ↦ absurd (ground arith)
          | inr (p, (state, inr (e, refused, answer))) ↦ absurd (ground arith)
          | inr (p, (state, inl (taken, answer))) ↦
              let expires_at = draws.asked + pos_part p.lifetime in
              let k =
                new_key sha256_hex format (in_memory format parse) draws request p.generated
                  p.response.name expires_at in
              let answered_with : response
                  ≡ created sha256_hex format (in_memory format parse) draws request p.generated
                      p.response.name expires_at =
                ground arith in
              let key : response.key ≡ p.generated.plaintext =
                ap (λ (r : CreateApiKeyResponse). r.key) answered_with in
              let bound_to : response.subscription ≡ p.response.name =
                ap (λ (r : CreateApiKeyResponse). r.subscription) answered_with in
              let (form, hashed, some_hash) =
                generated-lem sha256_hex draws.key_id_read draws.secret_read p.generated p.drawn in
              let hash : hash_api_key sha256_hex response.key ≡ p.generated.hash =
                ap (hash_api_key sha256_hex) key ∙ hashed in
              let after : m' ≡ put draws.new_id (stored_key format draws.stored k) m =
                sym (ap (λ (r : Result ServiceError CreateApiKeyResponse × MockStore). r.1) made)
                ∙ state
                ∙ add_key_ok k draws.stored m taken in
              let found =
                found-put k draws.stored now expires_at m refl (in_time p.lifetime p.allowed)
                  (λ id l there same. fresh id l there (same ∙ sym hash)) in
              ((validate_api_key_iff sha256_hex format (in_memory format parse) is_uuid response.key
                  now m' (identity_of draws request response)).1
                (
                  answered format (stored_key format draws.stored k),
                  (
                    ap is_valid_key_format key ∙ form,
                    λ nil. some_hash hex (sym hash ∙ nil),
                    rw (hash, after) found,
                    λ blank. bound (ap trim_space bound_to ∙ blank),
                    uuid,
                  ),
                  rw bound_to refl,
                )).0
        ]
