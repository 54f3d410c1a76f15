-- ===== src/ApiKeys/Tests/Keys.antt =====
-- Generated keys at concrete inputs.
use models_as_a_service_mids.Prelude.{
  ℕ, ◌≤◌, ◌≡◌, refl, Text, codes, cut_prefix, split_first, List, [], ◌∷◌, ◌++◌, true, length, ok,
  arith,
}
use models_as_a_service_mids.ApiKeys.Base62.{set_bytes, encode_base62}
use models_as_a_service_mids.ApiKeys.Keygen.{
  Generated, key_prefix, parse_api_key, is_valid_key_format, display_prefix, generate_api_key,
  validate_api_key_hash, hash_api_key,
}
use models_as_a_service_mids.ApiKeys.Keygen.RoundTrip.{generate_api_key_lem, short_key_id}
use models_as_a_service_mids.ApiKeys.Tests.Samples.{tag}

abbrev bytes : List ℕ
bytes = 1 ∷ 2 ∷ []

abbrev key : Text
key = codes "sk-oai-a_b"

abbrev letter_a : Text
letter_a = b'a' ∷ []

abbrev letter_b : Text
letter_b = b'b' ∷ []

parsed : parse_api_key key ≡ ok (b'a' ∷ [], b'b' ∷ [])
unfolding parse_api_key codes cut_prefix split_first key_prefix
parsed = refl

generate_api_key_example :
    (g : Generated) × (generate_api_key tag (ok bytes) (ok bytes) ≡ ok g)
    × (is_valid_key_format g.plaintext ≡ true)
    × (parse_api_key g.plaintext ≡ ok (encode_base62 bytes, encode_base62 bytes))
    × (hash_api_key tag g.plaintext ≡ g.hash)
    × (validate_api_key_hash tag g.plaintext g.hash ≡ true)
generate_api_key_example = generate_api_key_lem tag bytes bytes

short_key_id_example :
    (length (encode_base62 bytes) ≤ 11)
    × (display_prefix (encode_base62 bytes) ≡ key_prefix ++ (encode_base62 bytes ++ codes "..."))
unfolding set_bytes
short_key_id_example = short_key_id bytes (omega arith)
