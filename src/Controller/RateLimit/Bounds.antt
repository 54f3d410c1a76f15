-- ===== src/Controller/RateLimit/Bounds.antt =====
-- Which rate limits are accepted.
use models_as_a_service_mids.Prelude.{
  ℕ, zero, suc, ◌+◌, ◌-◌, ◌*◌, ◌^◌, ◌≤◌, ◌⊎◌, All, Bool-cases, nat_eq, ◌≡◌, ◌↔◌, inl, inr, refl, ap,
  ◌∙◌, Text, [], ◌∷◌, ◌++◌, none, some, true, all, length, Option-cases, arith,
}
use mathlib.Core.List.{append_assoc, append-nil}
use models_as_a_service_mids.Prelude.Int.{ℤ, pos, negsuc}
use models_as_a_service_mids.Controller.RateLimit.{
  is_digit, is_unit, match_tail, match_window, parse_digits, unit_seconds, check_window,
  validate_token_rate_limit,
}

-- The number that decimal digits stand for.
abbrev pub decimal : Text → ℕ
decimal [] = 0
decimal (d ∷ ds) = (d - b'0') * 10 ^ length ds + decimal ds

abbrev pub IsDigit : ℕ → Type 0
IsDigit c = (b'0' ≤ c) × (c ≤ b'9')

-- The unit lasts so many seconds.
abbrev pub Lasts : ℕ → ℕ → Type 0
Lasts unit seconds =
    ((unit ≡ b's') × (seconds ≡ 1))
    ⊎ ((unit ≡ b'm') × (seconds ≡ 60))
    ⊎ ((unit ≡ b'h') × (seconds ≡ 3600))

-- The window is one to four digits, the first of them not 0, and a unit, and lasts at most 366 days.
abbrev pub IsWindow : Text → Type 0
IsWindow window =
    (first : ℕ) × (digits : Text) × (unit : ℕ) × (seconds : ℕ) × (window
      ≡ first ∷ digits ++ unit ∷ [])
    × ((b'1' ≤ first) × (first ≤ b'9'))
    × All IsDigit digits
    × (length digits ≤ 3)
    × Lasts unit seconds
    × (decimal (first ∷ digits) * seconds ≤ 366 * 24 * 3600)

digits-All : (digits : Text) → all is_digit digits ≡ true → All IsDigit digits
unfolding all
digits-All [] h = tt
digits-All (c ∷ digits) h = ((ground arith, ground arith), digits-All digits (ground arith))

All-digits : (digits : Text) → All IsDigit digits → all is_digit digits ≡ true
unfolding all
All-digits [] h = refl
All-digits (c ∷ digits) h = ground (arith, h.0, All-digits digits h.1)

unit-Lasts : (unit : ℕ) → is_unit unit ≡ true → Lasts unit (unit_seconds unit)
unfolding unit_seconds
unit-Lasts unit h = elim (Bool-cases (nat_eq unit b's')) [
  | inl s ↦ inl (ground arith, ground arith)
  | inr not_s ↦ elim (Bool-cases (nat_eq unit b'm')) [
    | inl m ↦ inr (inl (ground arith, ground arith))
    | inr not_m ↦ inr (inr (ground arith, ground arith))
  ]
]

Lasts-unit :
    (unit seconds : ℕ) → Lasts unit seconds → (is_unit unit ≡ true) × (unit_seconds unit ≡ seconds)
unfolding unit_seconds
Lasts-unit unit seconds (inl (u, e)) = (ground arith, ground arith)
Lasts-unit unit seconds (inr (inl (u, e))) = (ground arith, ground arith)
Lasts-unit unit seconds (inr (inr (u, e))) = (ground arith, ground arith)

parse_digits-decimal :
    (first : ℕ) (digits : Text)
    → length digits ≤ 3
    → parse_digits (first ∷ digits) ≡ decimal (first ∷ digits)
unfolding parse_digits
parse_digits-decimal a [] h = omega arith
parse_digits-decimal a (b ∷ []) h = omega arith
parse_digits-decimal a (b ∷ c ∷ []) h = omega arith
parse_digits-decimal a (b ∷ c ∷ d ∷ []) h = omega arith
parse_digits-decimal a (b ∷ c ∷ d ∷ e ∷ rest) h = absurd (omega arith)

match_tail_sound :
    (k : ℕ) (read rest : Text) (digits : Text) (unit : ℕ)
    → match_tail k read rest ≡ some (digits, unit)
    → (more : Text) × (rest ≡ more ++ unit ∷ [])
      × (digits ≡ read ++ more)
      × (all is_digit more ≡ true)
      × (length more ≤ k)
      × (is_unit unit ≡ true)
unfolding match_tail all
match_tail_sound k read [] digits unit h = absurd (cc)
match_tail_sound k read (c ∷ []) digits unit h =
    ([], ground arith, ground (arith, append-nil read), refl, omega arith, ground arith)
match_tail_sound zero read (c ∷ d ∷ rest) digits unit h = absurd (cc)
match_tail_sound (suc k) read (c ∷ d ∷ rest) digits unit h =
    let (more, e, same, good, few, ends) =
      match_tail_sound k (read ++ c ∷ []) (d ∷ rest) digits unit (ground arith) in
    (
      c ∷ more,
      ap (◌∷◌ c) e,
      same ∙ append_assoc read (c ∷ []) more,
      ground arith,
      omega arith,
      ends,
    )

match_tail_complete :
    (k : ℕ) (read more : Text) (unit : ℕ)
    → all is_digit more ≡ true
    → length more ≤ k
    → is_unit unit ≡ true
    → match_tail k read (more ++ unit ∷ []) ≡ some (read ++ more, unit)
unfolding match_tail all
match_tail_complete k read [] unit good few ends = ground (arith, append-nil read)
match_tail_complete zero read (c ∷ more) unit good few ends = absurd (omega arith)
match_tail_complete (suc k) read (c ∷ []) unit good few ends =
    ground (arith, match_tail_complete k (read ++ c ∷ []) [] unit, append-nil (read ++ c ∷ []))
match_tail_complete (suc k) read (c ∷ d ∷ more) unit good few ends = ground (
  arith,
  match_tail_complete k (read ++ c ∷ []) (d ∷ more) unit,
  append_assoc read (c ∷ []) (d ∷ more),
)

check_window_sound : (window : Text) → check_window window ≡ none → IsWindow window
unfolding check_window match_window
check_window_sound [] h = absurd (cc)
check_window_sound (c ∷ rest) h = elim (Option-cases (match_window (c ∷ rest))) [
  | inl none_matches ↦ absurd (ground arith)
  | inr ((digits, unit), found) ↦
      let tail : match_tail 3 (c ∷ []) rest ≡ some (digits, unit) = ground arith in
      let (more, e, same, good, few, ends) = match_tail_sound 3 (c ∷ []) rest digits unit tail in
      (
        c,
        more,
        unit,
        unit_seconds unit,
        ap (◌∷◌ c) e,
        (ground arith, ground arith),
        digits-All more good,
        few,
        unit-Lasts unit ends,
        ground (arith, same, parse_digits-decimal c more few),
      )
]

check_window_complete : (window : Text) → IsWindow window → check_window window ≡ none
unfolding check_window match_window
check_window_complete window
      (first, digits, unit, seconds, e, (low, high), good, few, ends, short) =
    let (known, lasts) = Lasts-unit unit seconds ends in
    let number = parse_digits-decimal first digits few in
    let found = match_tail_complete 3 (first ∷ []) digits unit (All-digits digits good) few known in
    rw e (ground (arith, found, number, lasts))

-- A rate limit is accepted exactly if its limit lies between 1 and a billion and its window is one
-- to four decimal digits, the first of them not 0, and one of the units s, m and h, of 1, 60 and
-- 3600 seconds, and lasts, this number of units, at most 366 days.
pub validate_token_rate_limit_iff :
    (limit : ℤ) (window : Text)
    → (validate_token_rate_limit limit window ≡ none)
      ↔ ((n : ℕ) × (limit ≡ pos n) × (1 ≤ n) × (n ≤ 1_000_000_000) × IsWindow window)
unfolding validate_token_rate_limit
validate_token_rate_limit_iff (negsuc m) window =
    (λ h. absurd (ground arith), λ (n, e, low, high, fits). absurd (cc))
validate_token_rate_limit_iff (pos m) window = (
  λ h. (m, refl, ground arith, ground arith, check_window_sound window (ground arith)),
  λ (n, e, low, high, fits). ground (arith, check_window_complete window fits),
)
