-- ===== src/ApiKeys/Base62/Digits.antt =====
-- What `encodeBase62` writes, read back.
use mathlib.Core.WellFounded
use mathlib.Core.WellFounded.{Acc, Acc-prop}
use mathlib.Core.Logic.{ite, dite}
use mathlib.Core.List.{foldl}
use mathlib.Core.Bool.{false≢true}
use native.Mathlib.Decide.{dec_lt}
use native.Mathlib.Nat.{pow-suc}
use models_as_a_service_mids.Prelude.{
  ℕ, zero, suc, ◌+◌, ◌-◌, ◌*◌, ◌/◌, ◌%◌, ◌^◌, ◌≤◌, ◌<◌, ◌≡◌, ◌≢◌, refl, sym, ap, ◌∙◌, Text, List,
  [], ◌∷◌, Bool, true, ◌&&◌, leb, nat_eq, is_nil, is_nil_iff, inl, inr, all, length, arith,
  if◌then◌else◌, Bool-cases,
}
use models_as_a_service_mids.Prelude.Order.{lt_wf}
use models_as_a_service_mids.ApiKeys.Base62.{
  set_bytes, alphabet_at, quotient_lt, encode_loop, encode_number, encode_base62, is_base62_char,
  is_base62,
}

-- The digit that a character of the alphabet stands for.
pub digit : ℕ → ℕ
digit c = if leb c b'9' then c - b'0' else if leb c b'Z' then c - 55 else c - 61

-- The number that a text of the alphabet stands for, behind the digits of `n`.
pub decode : ℕ → Text → ℕ
decode = foldl (λ n c. n * 62 + digit c)

all_below : ℕ → (ℕ → Bool) → Bool
all_below zero p = true
all_below (suc n) p = p n && all_below n p

all_below-true : (n : ℕ) (p : ℕ → Bool) (x : ℕ) → all_below n p ≡ true → x < n → p x ≡ true
unfolding all_below
all_below-true zero p x h below = absurd (omega arith)
all_below-true (suc n) p x h below = ground (arith, all_below-true n p x)

alphabet_table :
    all_below 62 (λ d. nat_eq (digit (alphabet_at d)) d && is_base62_char (alphabet_at d)) ≡ true
unfolding all_below digit alphabet_at is_base62_char
alphabet_table = refl

alphabet_row :
    (d : ℕ) → d < 62 → nat_eq (digit (alphabet_at d)) d && is_base62_char (alphabet_at d) ≡ true
alphabet_row d below = all_below-true 62 _ d alphabet_table below

pub digit-alphabet_at : (d : ℕ) → d < 62 → digit (alphabet_at d) ≡ d
digit-alphabet_at d below = ground (arith, alphabet_row d below)

pub alphabet_at-base62 : (d : ℕ) → d < 62 → is_base62_char (alphabet_at d) ≡ true
alphabet_at-base62 d below = ground (arith, alphabet_row d below)

-- Any two proofs that `n` is accessible are equal, so a round of the loop can be stated.
encode_loop-round :
    (n : ℕ) (w : Acc ◌<◌ n) (v : Acc ◌<◌ (n / 62)) (result : Text)
    → encode_loop n w result
      ≡ ite (dec_lt 0 n) (encode_loop (n / 62) v (alphabet_at (n % 62) ∷ result)) result
unfolding encode_loop
encode_loop-round n (Acc.intro _ smaller) v result = λ i.
    dite (dec_lt 0 n)
      (λ h.
        encode_loop (n / 62) (Acc-prop (smaller (n / 62) (quotient_lt n h)) v i)
          (alphabet_at (n % 62) ∷ result))
      (λ _. result)

encode_number-round :
    (n : ℕ) (result : Text)
    → encode_number n result
      ≡ ite (dec_lt 0 n) (encode_number (n / 62) (alphabet_at (n % 62) ∷ result)) result
unfolding encode_number
encode_number-round n = encode_loop-round n (lt_wf.apply n) (lt_wf.apply (n / 62))

decode-encode_number : (n : ℕ) (result : Text) → decode 0 (encode_number n result) ≡ decode n result
unfolding decode
decode-encode_number n =
    WellFounded.induction lt_wf
      {C = λ m. (result : Text) → decode 0 (encode_number m result) ≡ decode m result} n
      λ m ih result.
        grind (arith, encode_number-round m result, ih (m / 62), digit-alphabet_at (m % 62))

all-encode_number :
    (n : ℕ) (result : Text)
    → all is_base62_char (encode_number n result) ≡ all is_base62_char result
unfolding all
all-encode_number n =
    WellFounded.induction lt_wf
      {C = λ m.
        (result : Text) → all is_base62_char (encode_number m result) ≡ all is_base62_char result}
      n
      λ m ih result.
        grind (arith, encode_number-round m result, ih (m / 62), alphabet_at-base62 (m % 62))

encode_number-ne : (n : ℕ) (result : Text) → result ≢ [] → encode_number n result ≢ []
encode_number-ne n =
    WellFounded.induction lt_wf
      {C = λ m. (result : Text) → result ≢ [] → encode_number m result ≢ []} n
      λ m ih result h. grind (arith, encode_number-round m result, ih (m / 62))

length-encode_number :
    (k n : ℕ) (result : Text) → n < 62 ^ k → length (encode_number n result) ≤ k + length result
length-encode_number zero n result h = grind (arith, encode_number-round n result)
length-encode_number (suc k) n result h =
    let h' : n < 62 ^ k * 62 = rw pow-suc at h in
    let below : n / 62 < 62 ^ k = omega arith in
    grind (
      arith,
      encode_number-round n result,
      length-encode_number k (n / 62) (alphabet_at (n % 62) ∷ result) below,
    )

-- The text holds characters of the alphabet only, at least one.
pub encode_base62-IsBase62 :
    (bytes : List ℕ) → (is_base62 (encode_base62 bytes) ≡ true) × (encode_base62 bytes ≢ [])
unfolding encode_base62 is_base62 all
encode_base62-IsBase62 bytes =
    let result = encode_number (set_bytes bytes) [] in
    elim (Bool-cases (is_nil result)) [
      | inl empty ↦ rw empty (ground (arith, alphabet_at-base62 0), λ e. cc)
      | inr some_digit ↦ rw some_digit (
        all-encode_number (set_bytes bytes) [],
        λ e. false≢true (sym some_digit ∙ ap (is_nil {A = ℕ}) e),
      )
    ]

-- Read as digits, the text is the number that the bytes are. So two byte arrays of one length are
-- encoded alike only if they are equal as numbers.
pub decode-encode_base62 : (bytes : List ℕ) → decode 0 (encode_base62 bytes) ≡ set_bytes bytes
unfolding encode_base62 decode
decode-encode_base62 bytes =
    let result = encode_number (set_bytes bytes) [] in
    let back : decode 0 result ≡ set_bytes bytes = decode-encode_number (set_bytes bytes) [] in
    elim (Bool-cases (is_nil result)) [
      | inl empty ↦
          let none_left : decode 0 [] ≡ set_bytes bytes =
            ap (decode 0) (sym ((is_nil_iff result).0 empty)) ∙ back in
          rw empty (ground (arith, digit-alphabet_at 0, none_left))
      | inr some_digit ↦ rw some_digit back
    ]

-- No digit is spent on leading zeros: bytes whose number is below 62^k, for a positive k, are
-- encoded in at most k characters.
pub length-encode_base62 :
    (bytes : List ℕ) (k : ℕ) → 0 < k → set_bytes bytes < 62 ^ k → length (encode_base62 bytes) ≤ k
unfolding encode_base62
length-encode_base62 bytes k positive h =
    ground (arith, length-encode_number k (set_bytes bytes) [])
