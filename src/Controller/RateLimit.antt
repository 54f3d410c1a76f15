-- ===== src/Controller/RateLimit.antt =====
-- maassubscription_controller.go, `validateTokenRateLimit`.
pub mod Bounds
use models_as_a_service_mids.Prelude.{
  ℕ, zero, suc, ◌+◌, ◌-◌, ◌*◌, Text, List, [], ◌∷◌, ◌++◌, Option, none, some, Bool, true, false,
  ◌&&◌, ◌||◌, not, ltb, leb, nat_eq, if◌then◌else◌,
}
use mathlib.Core.List.{foldl}
use models_as_a_service_mids.Prelude.Int.{ℤ, pos, ltb_ℤ, leb_ℤ}

abbrev pub max_token_rate_limit : ℕ
max_token_rate_limit = 1_000_000_000

abbrev pub max_window_seconds : ℕ
max_window_seconds = 366 * 24 * 3600

abbrev pub is_digit : ℕ → Bool
is_digit c = leb b'0' c && leb c b'9'

abbrev pub is_unit : ℕ → Bool
is_unit c = nat_eq c b's' || nat_eq c b'm' || nat_eq c b'h'

-- Up to `k` more digits and the unit, behind the digits that were read.
unfoldable pub match_tail : ℕ → Text → Text → Option (Text × ℕ)
match_tail k digits [] = none
match_tail k digits (c ∷ []) = if is_unit c then some (digits, c) else none
match_tail zero digits (c ∷ d ∷ rest) = none
match_tail (suc k) digits (c ∷ d ∷ rest) =
    let more = match_tail k (digits ++ c ∷ []) (d ∷ rest) in if is_digit c then more else none

-- The pattern `^[1-9]\d{0,3}(s|m|h)$`: the digits and the unit.
unfoldable pub match_window : Text → Option (Text × ℕ)
unfolding match_tail
match_window [] = none
match_window (c ∷ rest) = if leb b'1' c && leb c b'9' then match_tail 3 (c ∷ []) rest else none

-- `strconv.ParseInt`, which does not fail on the one to four digits of a match.
unfoldable pub parse_digits : Text → ℕ
parse_digits = foldl (λ n c. n * 10 + (c - b'0')) 0

-- The seconds of a unit.
unfoldable pub unit_seconds : ℕ → ℕ
unit_seconds u = if nat_eq u b's' then 1 else if nat_eq u b'm' then 60 else 3600

pub data LimitError : Type 0 where
  not_positive : (limit : ℤ) → LimitError
  above_maximum : (limit : ℤ) → LimitError
  bad_window : (window : Text) → LimitError
  window_too_long : (window : Text) (seconds : ℕ) → LimitError

-- `none` is Go's nil error.
unfoldable pub check_window : Text → Option LimitError
unfolding match_window parse_digits unit_seconds
check_window window = elim (match_window window) [
  | none ↦ some (bad_window window)
  | some (digits, unit) ↦
      let seconds = parse_digits digits * unit_seconds unit in
      if ltb max_window_seconds seconds then some (window_too_long window seconds) else none
]

unfoldable pub validate_token_rate_limit : ℤ → Text → Option LimitError
unfolding check_window
validate_token_rate_limit limit window =
    if leb_ℤ limit (pos 0)
    then some (not_positive limit)
    else if ltb_ℤ (pos max_token_rate_limit) limit
    then some (above_maximum limit)
    else check_window window
