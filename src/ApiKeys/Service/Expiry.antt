-- ===== src/ApiKeys/Service/Expiry.antt =====
-- The expiry of a new key against the configured maximum.
use models_as_a_service_mids.Prelude.{
  ℕ, zero, suc, ◌*◌, ◌^◌, ◌-◌, ◌%◌, ◌≤◌, ◌<◌, ◌≡◌, refl, Option, none, some, Bool, true, false, ok,
  err, ◌⊎◌, inl, inr, arith, if◌then◌else◌, Bool-cases, ltb,
}
use models_as_a_service_mids.Prelude.Int.{
  ℤ, pos, negsuc, ◌≤ℤ◌, to_bits64, of_bits64, mul_int64, mul_int64_exact,
}
use models_as_a_service_mids.ApiKeys.Service.{
  ServiceError, expiration_not_positive, ephemeral_exceeds_max, regular_exceeds_max, Duration, hour,
  max_days, max_regular_duration, or_default, check_expiration,
}

-- A configured maximum of at most 106751 days, or none: the largest number of days whose
-- nanoseconds are an int64.
abbrev pub IsRepresentable : Option ℤ → Type 0
IsRepresentable none = Unit
IsRepresentable (some days) = days ≤ℤ pos 106751

-- The days that count: those of a positive setting, or else 90.
abbrev pub days_of : Option ℤ → ℕ
days_of (some (pos (suc n))) = suc n
days_of _ = 90

-- The maximal lifetime of a key in nanoseconds, without wrap-around: an hour, or so many days.
abbrev pub limit_of : Option ℤ → Bool → ℕ
limit_of config true = 3_600_000_000_000
limit_of config false = days_of config * 24 * 3_600_000_000_000

max_days-pos : (config : Option ℤ) → max_days config ≡ pos (days_of config)
unfolding max_days
max_days-pos none = refl
max_days-pos (some (pos zero)) = refl
max_days-pos (some (pos (suc n))) = ground arith
max_days-pos (some (negsuc n)) = ground arith

days_of_le : (config : Option ℤ) → IsRepresentable config → days_of config ≤ 106751
days_of_le none h = omega arith
days_of_le (some (pos zero)) h = omega arith
days_of_le (some (pos (suc n))) h = omega arith
days_of_le (some (negsuc n)) h = omega arith

mul_int64_twice :
    (days : ℕ) → days ≤ 106751 → mul_int64 (mul_int64 (pos days) 24) hour ≡ pos (days * 24 * hour)
mul_int64_twice days h =
    rw (mul_int64_exact days 24 (omega arith) (omega arith))
      (mul_int64_exact (days * 24) hour (omega arith) (omega arith))

max_regular_duration_lem :
    (config : Option ℤ)
    → IsRepresentable config
    → max_regular_duration config ≡ pos (limit_of config false)
unfolding max_regular_duration
max_regular_duration_lem config h =
    rw (max_days-pos config) (mul_int64_twice (days_of config) (days_of_le config h))

-- The lifetime that is asked for: the named one, or else the maximal one.
abbrev pub asked : Option ℤ → Bool → Option Duration → ℤ
asked config ephemeral (some d) = d
asked config ephemeral none = pos (limit_of config ephemeral)

or_default-asked :
    (config : Option ℤ) (ephemeral : Bool) (expires_in : Option Duration)
    → IsRepresentable config
    → or_default config ephemeral expires_in ≡ asked config ephemeral expires_in
unfolding or_default
or_default-asked config ephemeral (some d) h = refl
or_default-asked config true none h = refl
or_default-asked config false none h = max_regular_duration_lem config h

-- The outcome of the check for the lifetime `x`.
abbrev pub Outcome : Option ℤ → Bool → Option Duration → ℤ → Type 0
Outcome config ephemeral expires_in x =
    ((d : ℕ) × (x ≡ pos d)
      × (0 < d)
      × (d ≤ limit_of config ephemeral)
      × (check_expiration config ephemeral expires_in ≡ ok (pos d)))
    ⊎ ((x ≤ℤ pos 0) × (check_expiration config ephemeral expires_in ≡ err expiration_not_positive))
    ⊎ ((d : ℕ) × (x ≡ pos d)
        × (limit_of config ephemeral < d)
        × (check_expiration config ephemeral expires_in
            ≡ err (
                if ephemeral
                then ephemeral_exceeds_max (pos d)
                else regular_exceeds_max (pos d) (pos (days_of config)))))

outcome :
    (config : Option ℤ) (ephemeral : Bool) (expires_in : Option Duration) (x : ℤ)
    → IsRepresentable config
    → or_default config ephemeral expires_in ≡ x
    → Outcome config ephemeral expires_in x
unfolding check_expiration
outcome config ephemeral expires_in (negsuc n) h e = inr (inl (omega arith, ground arith))
outcome config ephemeral expires_in (pos zero) h e = inr (inl (omega arith, ground arith))
outcome config true expires_in (pos (suc n)) h e = elim (Bool-cases (ltb hour (suc n))) [
  | inl t ↦ inr (inr (suc n, refl, ground arith, ground arith))
  | inr f ↦ inl (suc n, refl, omega arith, ground arith, ground arith)
]
outcome config false expires_in (pos (suc n)) h e =
    let top = max_regular_duration_lem config h in
    let days = max_days-pos config in
    elim (Bool-cases (ltb (days_of config * 24 * hour) (suc n))) [
      | inl t ↦ inr (inr (suc n, refl, ground arith, ground arith))
      | inr f ↦ inl (suc n, refl, omega arith, ground arith, ground arith)
    ]

-- With a representable maximum, the outcome for the lifetime that is asked for (the named one, or
-- the maximal one where the request names none) is one of three: this very lifetime, which is
-- positive and within the maximum; the refusal of one that is not positive; the refusal of one
-- beyond the maximum, an hour for an ephemeral key and else the configured days, or 90.
pub check_expiration_lem :
    (config : Option ℤ) (ephemeral : Bool) (expires_in : Option Duration)
    → IsRepresentable config
    → Outcome config ephemeral expires_in (asked config ephemeral expires_in)
check_expiration_lem config ephemeral expires_in h =
    outcome config ephemeral expires_in (asked config ephemeral expires_in) h
      (or_default-asked config ephemeral expires_in h)

wrapped :
    (days : ℕ)
    → 106752 ≤ days
    → days ≤ 213503
    → max_regular_duration (some (pos days)) ≡ negsuc (2 ^ 64 - 1 - days * 24 * hour)
unfolding max_regular_duration max_days mul_int64 to_bits64 of_bits64
wrapped days low high =
    let whole : max_days (some (pos days)) ≡ pos days = ground arith in
    let inner : days * 24 % 2 ^ 64 ≡ days * 24 = omega arith in
    let outer : days * 24 * hour % 2 ^ 64 ≡ days * 24 * hour = omega arith in
    rw (whole, mul_int64_exact days 24 (omega arith) (omega arith))
      (rw (inner, outer) (ground arith))

-- With a configured maximum of 106752 to 213503 days the product of int64 wraps around to a
-- negative duration, and every request for a regular key is refused.
pub max_days_wraps :
    (days : ℕ) (expires_in : Option Duration)
    → 106752 ≤ days
    → days ≤ 213503
    → (e : ServiceError) × (check_expiration (some (pos days)) false expires_in ≡ err e)
unfolding check_expiration or_default
max_days_wraps days none low high =
    let e = wrapped days low high in (expiration_not_positive, ground arith)
max_days_wraps days (some (negsuc n)) low high = (expiration_not_positive, ground arith)
max_days_wraps days (some (pos zero)) low high = (expiration_not_positive, ground arith)
max_days_wraps days (some (pos (suc n))) low high =
    let e = wrapped days low high in
    (regular_exceeds_max (pos (suc n)) (max_days (some (pos days))), ground arith)
