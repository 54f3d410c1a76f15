-- ===== src/ApiKeys/Keygen/RoundTrip.antt =====
-- A generated key against the functions that later read it.
use models_as_a_service_mids.Prelude.{
  ℕ, ◌≤◌, ◌<◌, ◌^◌, ◌≡◌, refl, sym, ap, ◌∙◌, ◌↔◌, inl, inr, Text, codes, eq_iff, eq_refl,
  split_first, split_first-append, List, ◌++◌, Option, some, true, length, ok, Result-cases, arith,
}
use models_as_a_service_mids.ApiKeys.Base62.{set_bytes, encode_base62, is_base62}
use models_as_a_service_mids.ApiKeys.Base62.Digits.{encode_base62-IsBase62, length-encode_base62}
use models_as_a_service_mids.ApiKeys.Keygen.{
  Generated, key_prefix, salted, parse_api_key, is_valid_key_format, plaintext_of, display_prefix,
  hash_with_salt, generate_api_key, validate_api_key_hash, hash_api_key,
}
use models_as_a_service_mids.ApiKeys.Keygen.Format.{
  parse-plaintext_of, is_valid_key_format_iff, contains-separator, contains-nul,
}

-- Two salted texts with key ids of the alphabet are equal only if their parts are: the NUL between
-- them leaves no other way to split the text.
pub salted-injective :
    (key_id secret key_id' secret' : Text)
    → is_base62 key_id ≡ true
    → is_base62 key_id' ≡ true
    → salted key_id secret ≡ salted key_id' secret'
    → (key_id ≡ key_id') × (secret ≡ secret')
salted-injective key_id secret key_id' secret' clean clean' same =
    let first = split_first-append 0 key_id secret (contains-nul key_id clean) in
    let second = split_first-append 0 key_id' secret' (contains-nul key_id' clean') in
    let parts : ◌≡◌ {A = Option (Text × Text)} (some (key_id, secret)) (some (key_id', secret')) =
      sym first ∙ ap (split_first 0) same ∙ second in
    (ground arith, ground arith)

module _ (sha256_hex : Text → Text) where
  -- A key of two random reads: it has the format of a key, it is parsed into the two encoded reads,
  -- and its hash is the one that later validation computes and accepts.
  pub generate_api_key_lem :
      (key_id_entropy secret_entropy : List ℕ)
      → (g : Generated) × (generate_api_key sha256_hex (ok key_id_entropy) (ok secret_entropy)
          ≡ ok g)
        × (is_valid_key_format g.plaintext ≡ true)
        × (parse_api_key g.plaintext
            ≡ ok (encode_base62 key_id_entropy, encode_base62 secret_entropy))
        × (hash_api_key sha256_hex g.plaintext ≡ g.hash)
        × (validate_api_key_hash sha256_hex g.plaintext g.hash ≡ true)
  unfolding generate_api_key hash_api_key validate_api_key_hash
  generate_api_key_lem key_id_entropy secret_entropy =
      let key_id = encode_base62 key_id_entropy in
      let secret = encode_base62 secret_entropy in
      let (clean_id, some_id) = encode_base62-IsBase62 key_id_entropy in
      let (clean_secret, some_secret) = encode_base62-IsBase62 secret_entropy in
      let parsed : parse_api_key (plaintext_of key_id secret) ≡ ok (key_id, secret) =
        parse-plaintext_of key_id secret (contains-separator key_id clean_id) some_id some_secret in
      (
        record {
          plaintext = plaintext_of key_id secret;
          hash = hash_with_salt sha256_hex key_id secret;
          prefix = display_prefix key_id;
        },
        refl,
        (is_valid_key_format_iff (plaintext_of key_id secret)).1
            ((key_id, secret, refl, some_id, some_secret, clean_id, clean_secret)),
        parsed,
        ground (arith, parsed),
        ground (arith, parsed, eq_refl (sha256_hex (salted key_id secret))),
      )

  -- A key is accepted against a stored hash exactly if it can be parsed and the salted hash of its
  -- parts is the stored one.
  pub validate_api_key_hash_iff :
      (key stored_hash : Text)
      → (validate_api_key_hash sha256_hex key stored_hash ≡ true) ↔ (
          (key_id : Text) × (secret : Text) × (parse_api_key key ≡ ok (key_id, secret))
          × (hash_with_salt sha256_hex key_id secret ≡ stored_hash))
  unfolding validate_api_key_hash
  validate_api_key_hash_iff key stored_hash = (
    λ h. elim (Result-cases (parse_api_key key)) [
      | inl ((key_id, secret), parsed) ↦ (
        key_id,
        secret,
        parsed,
        (eq_iff (sha256_hex (salted key_id secret)) stored_hash).0 (ground arith),
      )
      | inr (e, refused) ↦ absurd (ground arith)
    ],
    λ (key_id, secret, parsed, same).
        ground (arith, eq_iff (sha256_hex (salted key_id secret)) stored_hash),
  )

-- The display prefix of a key shows the whole key id where the random number is below 62^11, whose
-- encoding has fewer than the twelve characters that are meant to be shown.
pub short_key_id :
    (key_id_entropy : List ℕ)
    → set_bytes key_id_entropy < 62 ^ 11
    → (length (encode_base62 key_id_entropy) ≤ 11)
      × (display_prefix (encode_base62 key_id_entropy)
          ≡ key_prefix ++ (encode_base62 key_id_entropy ++ codes "..."))
unfolding display_prefix
short_key_id key_id_entropy small =
    let short = length-encode_base62 key_id_entropy 11 (omega arith) small in
    (short, ground (arith, short))
