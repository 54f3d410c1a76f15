-- ===== src/ApiKeys/Base62.antt =====
-- keygen.go, `encodeBase62` and `isBase62`. The bytes are read as one number, most significant
-- first, and its base-62 digits are written with no leading zero.
pub mod Digits
use mathlib.Core.WellFounded.{Acc}
use mathlib.Core.Logic.{dite}
use mathlib.Core.List.{foldl}
use native.Mathlib.Decide.{dec_lt}
use models_as_a_service_mids.Prelude.{
  ℕ, zero, suc, ◌+◌, ◌*◌, ◌/◌, ◌%◌, ◌<◌, Text, codes, List, [], ◌∷◌, Bool, true, false, ◌&&◌, ◌||◌,
  not, ltb, all, is_nil, arith, if◌then◌else◌,
}
use models_as_a_service_mids.Prelude.Order.{lt_wf}

-- `big.Int.SetBytes`
unfoldable pub set_bytes : List ℕ → ℕ
set_bytes = foldl (λ n b. n * 256 + b) 0

alphabet : Text
unfolding codes
alphabet = codes "0123456789ABCDEFGHIJKLMNOPQRSTUVWXYZabcdefghijklmnopqrstuvwxyz"

index : Text → ℕ → ℕ
index [] i = 0
index (c ∷ s) zero = c
index (c ∷ s) (suc i) = index s i

-- `alphabet[i]`; the program indexes it below 62 only.
unfoldable pub alphabet_at : ℕ → ℕ
unfolding alphabet index
alphabet_at = index alphabet

pub quotient_lt : (n : ℕ) → 0 < n → n / 62 < n
quotient_lt n h = omega arith

-- The loop `for n > 0`.
encode_loop : (n : ℕ) → Acc ◌<◌ n → Text → Text
encode_loop n (Acc.intro _ smaller) result =
    dite (dec_lt 0 n)
      (λ h.
        encode_loop (n / 62) (smaller (n / 62) (quotient_lt n h)) (alphabet_at (n % 62) ∷ result))
      (λ _. result)

unfoldable pub encode_number : ℕ → Text → Text
unfolding encode_loop lt_wf dec_lt
encode_number n = encode_loop n (lt_wf.apply n)

unfoldable pub encode_base62 : List ℕ → Text
encode_base62 bytes =
    let result = encode_number (set_bytes bytes) [] in
    if is_nil result then alphabet_at 0 ∷ [] else result

unfoldable pub is_base62_char : ℕ → Bool
is_base62_char c =
    not ((ltb c b'0' || ltb b'9' c) && (ltb c b'A' || ltb b'Z' c) && (ltb c b'a' || ltb b'z' c))

unfoldable pub is_base62 : Text → Bool
unfolding is_base62_char
is_base62 = all is_base62_char
