-- ===== src/ApiKeys/Keygen/Format.antt =====
-- Which texts have the format of a key, and how they are taken apart.
use models_as_a_service_mids.Prelude.{
  ℕ, ◌≡◌, ◌≢◌, refl, ap, ◌∙◌, ◌↔◌, inl, inr, Text, cut_prefix, cut_prefix-append, cut_prefix_sound,
  contains_char, split_first, split_first_sound, split_first-append, [], ◌∷◌, ◌++◌, true, false,
  nat_eq, nat_eq_iff, is_nil-ne, any, all, ok, Option-cases, Bool-cases, arith,
}
use models_as_a_service_mids.ApiKeys.Base62.{is_base62, is_base62_char}
use models_as_a_service_mids.ApiKeys.Keygen.{
  key_prefix, key_id_separator, parse_api_key, is_valid_key_format, plaintext_of,
}

-- No character of the alphabet is the separator, or any other character outside it.
base62-contains :
    (sep : ℕ) (s : Text)
    → is_base62_char sep ≡ false
    → is_base62 s ≡ true
    → contains_char sep s ≡ false
unfolding is_base62 all contains_char any
base62-contains sep [] outside h = refl
base62-contains sep (c ∷ s) outside h = elim (Bool-cases (nat_eq c sep)) [
  | inl same ↦
      let e : c ≡ sep = (nat_eq_iff c sep).0 same in absurd (ground (arith, ap is_base62_char e))
  | inr other ↦ ground (arith, base62-contains sep s)
]

pub contains-separator : (s : Text) → is_base62 s ≡ true → contains_char key_id_separator s ≡ false
unfolding is_base62_char
contains-separator s h = base62-contains key_id_separator s refl h

pub contains-nul : (s : Text) → is_base62 s ≡ true → contains_char 0 s ≡ false
unfolding is_base62_char
contains-nul s h = base62-contains 0 s refl h

-- A key is taken apart at its first separator.
pub parse-plaintext_of :
    (key_id secret : Text)
    → contains_char key_id_separator key_id ≡ false
    → key_id ≢ []
    → secret ≢ []
    → parse_api_key (plaintext_of key_id secret) ≡ ok (key_id, secret)
unfolding parse_api_key plaintext_of
parse-plaintext_of key_id secret clean some_id some_secret = ground (
  arith,
  cut_prefix-append key_prefix (key_id ++ key_id_separator ∷ secret),
  split_first-append key_id_separator key_id secret clean,
  is_nil-ne key_id some_id,
  is_nil-ne secret some_secret,
)

-- The prefix, a key id, the separator and a secret, both of them nonempty and alphanumeric.
abbrev pub HasFormat : Text → Type 0
HasFormat key =
    (key_id : Text) × (secret : Text) × (key ≡ plaintext_of key_id secret)
    × (key_id ≢ [])
    × (secret ≢ [])
    × (is_base62 key_id ≡ true)
    × (is_base62 secret ≡ true)

HasFormat-of_valid : (key : Text) → is_valid_key_format key ≡ true → HasFormat key
unfolding is_valid_key_format plaintext_of
HasFormat-of_valid key h = elim (Option-cases (cut_prefix key_prefix key)) [
  | inl absent ↦ absurd (ground arith)
  | inr (body, cut) ↦ elim (Option-cases (split_first key_id_separator body)) [
    | inl whole ↦ absurd (ground arith)
    | inr ((key_id, secret), split) ↦
        let (joined, _) = split_first_sound key_id_separator body key_id secret split in
        (
          key_id,
          secret,
          cut_prefix_sound key_prefix key cut ∙ ap (λ t. key_prefix ++ t) joined,
          λ e. ground arith,
          λ e. ground arith,
          ground arith,
          ground arith,
        )
  ]
]

valid-of_HasFormat : (key : Text) → HasFormat key → is_valid_key_format key ≡ true
unfolding is_valid_key_format plaintext_of
valid-of_HasFormat key (key_id, secret, joined, some_id, some_secret, clean_id, clean_secret) =
    rw joined (
      ground (
        arith,
        cut_prefix-append key_prefix (key_id ++ key_id_separator ∷ secret),
        split_first-append key_id_separator key_id secret (contains-separator key_id clean_id),
        is_nil-ne key_id some_id,
        is_nil-ne secret some_secret,
      ))

-- `IsValidKeyFormat` accepts exactly the texts that are the prefix, a key id, the separator and a
-- secret, both of them nonempty and of alphanumeric characters.
pub is_valid_key_format_iff : (key : Text) → (is_valid_key_format key ≡ true) ↔ HasFormat key
is_valid_key_format_iff key = (HasFormat-of_valid key, valid-of_HasFormat key)
