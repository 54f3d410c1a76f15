-- ===== src/ApiKeys/Keygen.antt =====
-- keygen.go: the format of API keys and the hash that is stored for them. SHA-256 and the random
-- source are the standard library's: `sha256_hex` is the hexadecimal SHA-256 of a text, and the
-- results of the two `rand.Read` calls are arguments.
pub mod Format
pub mod RoundTrip
use models_as_a_service_mids.Prelude.{
  ℕ, Text, codes, ◌==◌, cut_prefix, split_first, List, [], ◌∷◌, ◌++◌, Option, none, some, Bool,
  true, false, ◌&&◌, ◌||◌, not, leb, is_nil, length, take, Result, ok, err, ◌>>=◌, map_err,
  if◌then◌else◌,
}
use models_as_a_service_mids.ApiKeys.Base62.{encode_base62, is_base62}

unfoldable pub key_prefix : Text
unfolding codes
key_prefix = codes "sk-oai-"

-- The one character of `KeyIDSeparator`.
abbrev pub key_id_separator : ℕ
key_id_separator = b'_'

abbrev pub display_prefix_length : ℕ
display_prefix_length = 12

-- `keyID + "\x00" + secret`
abbrev pub salted : Text → Text → Text
salted key_id secret = key_id ++ 0 ∷ secret

-- The key id and the secret of a key.
split_body : Text → Result Text (Text × Text)
split_body body = elim (split_first key_id_separator body) [
  | none ↦ err (codes "invalid key format: missing separator")
  | some (key_id, secret) ↦
      if is_nil key_id || is_nil secret
      then err (codes "invalid key format: empty key_id or secret")
      else ok (key_id, secret)
]

unfoldable pub parse_api_key : Text → Result Text (Text × Text)
unfolding split_body
parse_api_key key = elim (cut_prefix key_prefix key) [
  | none ↦ err (codes "invalid key prefix")
  | some body ↦ split_body body
]

is_valid_body : Text → Bool
is_valid_body body = elim (split_first key_id_separator body) [
  | none ↦ false
  | some (key_id, secret) ↦
      not (is_nil key_id || is_nil secret) && is_base62 key_id && is_base62 secret
]

unfoldable pub is_valid_key_format : Text → Bool
unfolding is_valid_body
is_valid_key_format key = elim (cut_prefix key_prefix key) [
  | none ↦ false
  | some body ↦ is_valid_body body
]

-- What `GenerateAPIKey` returns beside its error.
pub record Generated : Type 0 where
  pub plaintext : Text
  pub hash : Text
  pub prefix : Text

unfoldable pub display_prefix : Text → Text
display_prefix key_id =
    if leb display_prefix_length (length key_id)
    then key_prefix ++ (take display_prefix_length key_id ++ codes "...")
    else key_prefix ++ (key_id ++ codes "...")

unfoldable pub plaintext_of : Text → Text → Text
plaintext_of key_id secret = key_prefix ++ (key_id ++ key_id_separator ∷ secret)

module _ (sha256_hex : Text → Text) where
  unfoldable pub hash_with_salt : Text → Text → Text
  hash_with_salt key_id secret = sha256_hex (salted key_id secret)

  unfoldable pub generate_api_key :
      Result Text (List ℕ) → Result Text (List ℕ) → Result Text Generated
  unfolding hash_with_salt
  generate_api_key key_id_read secret_read = do
    key_id_entropy ← map_err (λ e. codes "failed to generate key_id entropy: " ++ e) key_id_read
    secret_entropy ← map_err (λ e. codes "failed to generate secret entropy: " ++ e) secret_read
    let key_id = encode_base62 key_id_entropy
    let secret = encode_base62 secret_entropy
    ok (record {
      plaintext = plaintext_of key_id secret;
      hash = hash_with_salt key_id secret;
      prefix = display_prefix key_id;
    })

  -- `subtle.ConstantTimeCompare` of the two hashes is an equality test.
  unfoldable pub validate_api_key_hash : Text → Text → Bool
  unfolding hash_with_salt
  validate_api_key_hash key stored_hash = elim (parse_api_key key) [
    | err _ ↦ false
    | ok (key_id, secret) ↦ hash_with_salt key_id secret == stored_hash
  ]

  unfoldable pub hash_api_key : Text → Text
  unfolding hash_with_salt
  hash_api_key key = elim (parse_api_key key) [
    | err _ ↦ []
    | ok (key_id, secret) ↦ hash_with_salt key_id secret
  ]
