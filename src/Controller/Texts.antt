-- ===== src/Controller/Texts.antt =====
-- The functions of Go's packages `strings` and `fmt` that the reconcilers use beyond the shared
-- ones, and its maps from strings to strings.
use models_as_a_service_mids.Prelude.{
  ℕ, zero, suc, ◌+◌, ◌/◌, ◌%◌, Text, ◌==◌, List, [], ◌∷◌, ◌++◌, map, Option, none, some, ltb,
  nat_eq, if◌then◌else◌,
}

-- `fmt.Sprintf("%d", n)`; a number has at most as many digits as it is, plus one.
unfoldable pub decimal_loop : ℕ → ℕ → Text → Text
decimal_loop zero n behind = behind
decimal_loop (suc fuel) n behind =
    let digit = 48 + n % 10 in
    let rest = decimal_loop fuel (n / 10) (digit ∷ behind) in
    if ltb n 10 then digit ∷ behind else rest

unfoldable pub decimal : ℕ → Text
unfolding decimal_loop
decimal n = decimal_loop (suc n) n []

-- `strings.Join`
unfoldable pub join : Text → List Text → Text
join sep [] = []
join sep (t ∷ []) = t
join sep (t ∷ u ∷ ts) = t ++ (sep ++ join sep (u ∷ ts))

abbrev pub prepend : ℕ → List Text → List Text
prepend c [] = (c ∷ []) ∷ []
prepend c (t ∷ ts) = (c ∷ t) ∷ ts

-- `strings.Split` at one character
unfoldable pub split : ℕ → Text → List Text
split sep [] = [] ∷ []
split sep (c ∷ s) = let rest = split sep s in if nat_eq c sep then [] ∷ rest else prepend c rest

-- `strings.ReplaceAll` of one character by another
unfoldable pub replace_all : ℕ → ℕ → Text → Text
replace_all old new s = map (λ c. if nat_eq c old then new else c) s

module _ {ℓ} {A : Type ℓ} where
  -- `v, ok := m[key]`
  unfoldable pub lookup_key : List (Text × A) → Text → Option A
  lookup_key [] key = none
  lookup_key ((k, v) ∷ m) key = let later = lookup_key m key in if k == key then some v else later

  -- `m[key] = v`
  unfoldable pub set_key : Text → A → List (Text × A) → List (Text × A)
  set_key key v [] = (key, v) ∷ []
  set_key key v ((k, u) ∷ m) =
      let rest = set_key key v m in if k == key then (key, v) ∷ m else (k, u) ∷ rest

  -- The assignments of a list, in its order.
  unfoldable pub set_keys : List (Text × A) → List (Text × A) → List (Text × A)
  unfolding set_key
  set_keys [] m = m
  set_keys ((k, v) ∷ more) m = set_keys more (set_key k v m)

-- `m[key]`, which is empty for a missing key.
unfoldable pub text_at : List (Text × Text) → Text → Text
unfolding lookup_key
text_at m key = elim (lookup_key m key) [ none ↦ [] | some v ↦ v ]
