-- ===== src/Subscription/Parse/Limits.antt =====
-- The bounds of what the parser reads.
use models_as_a_service_mids.Prelude.{
  ◌≤◌, ◌≡◌, Text, codes, if◌then◌else◌, List, [], ◌∷◌, Option, none, some, All, Option-cases,
  Result, ok, err, inl, inr, arith, subst,
}
use models_as_a_service_mids.Prelude.Int.{ℤ, pos, negsuc, ◌≤ℤ◌, ltb_ℤ}
use models_as_a_service_mids.Subscription.Types.{TokenRateLimit, ModelRefInfo, Subscription}
use models_as_a_service_mids.Subscription.Parse.{
  Values, Object, Fields, field, keep_some, max_of_limits, max_of_refs, parse_priority, parse_spec,
  parse_subscription, load_subscriptions,
}

-- A limit is at most a maximum.
abbrev IsUnder : ℤ → TokenRateLimit → Type 0
IsUnder max l = l.limit ≤ℤ max

abbrev AreUnder : ℤ → List ModelRefInfo → Type 0
AreUnder max refs = All (λ ref. All (IsUnder max) ref.token_rate_limits) refs

-- A priority that fits int32, a maximum that is not negative, and no limit above the maximum.
abbrev pub IsBounded : Subscription → Type 0
IsBounded sub =
    (sub.priority ≤ 2_147_483_647)
    × (pos 0 ≤ℤ sub.max_limit)
    × AreUnder sub.max_limit sub.model_refs

≤ℤ-refl : (a : ℤ) → a ≤ℤ a
≤ℤ-refl a = omega arith

≤ℤ-trans : (a b c : ℤ) → a ≤ℤ b → b ≤ℤ c → a ≤ℤ c
≤ℤ-trans a b c h k = omega arith

All-IsUnder :
    (a b : ℤ) → a ≤ℤ b → (ls : List TokenRateLimit) → All (IsUnder a) ls → All (IsUnder b) ls
All-IsUnder a b h [] u = tt
All-IsUnder a b h (l ∷ ls) u = (≤ℤ-trans l.limit a b u.0 h, All-IsUnder a b h ls u.1)

abbrev larger : ℤ → ℤ → ℤ
larger a b = if ltb_ℤ a b then b else a

larger-bounds : (a b : ℤ) → (a ≤ℤ larger a b) × (b ≤ℤ larger a b)
larger-bounds a b = (ground arith, ground arith)

-- The maximum grows, and ends above each limit.
max_of_limits-bounds :
    (ls : List TokenRateLimit) (max : ℤ)
    → (max ≤ℤ max_of_limits ls max) × All (IsUnder (max_of_limits ls max)) ls
unfolding max_of_limits
max_of_limits-bounds [] max = (≤ℤ-refl max, tt)
max_of_limits-bounds (l ∷ ls) max =
    let here = larger-bounds max l.limit in
    let later = max_of_limits-bounds ls (larger max l.limit) in
    (
      ≤ℤ-trans max (larger max l.limit) (max_of_limits ls (larger max l.limit)) here.0 later.0,
      (
        ≤ℤ-trans l.limit (larger max l.limit) (max_of_limits ls (larger max l.limit)) here.1
            later.0,
        later.1,
      ),
    )

max_of_refs-bounds :
    (refs : List ModelRefInfo) (max : ℤ)
    → (max ≤ℤ max_of_refs refs max) × AreUnder (max_of_refs refs max) refs
unfolding max_of_refs
max_of_refs-bounds [] max = (≤ℤ-refl max, tt)
max_of_refs-bounds (ref ∷ refs) max =
    let here = max_of_limits-bounds ref.token_rate_limits max in
    let later = max_of_refs-bounds refs (max_of_limits ref.token_rate_limits max) in
    (
      ≤ℤ-trans max (max_of_limits ref.token_rate_limits max)
          (max_of_refs refs (max_of_limits ref.token_rate_limits max)) here.0 later.0,
      (
        All-IsUnder (max_of_limits ref.token_rate_limits max)
            (max_of_refs refs (max_of_limits ref.token_rate_limits max)) later.0
            ref.token_rate_limits here.1,
        later.1,
      ),
    )

parse_priority-bounds : (p : Option ℤ) → parse_priority p ≤ 2_147_483_647
unfolding parse_priority
parse_priority-bounds none = omega arith
parse_priority-bounds (some (pos n)) = ground arith
parse_priority-bounds (some (negsuc n)) = omega arith

parse_spec-IsBounded :
    {V : Type 0} (values : Values V) (obj : Object V) (spec : Fields values)
    → IsBounded (parse_spec values obj spec)
unfolding parse_spec
parse_spec-IsBounded values obj spec =
    let bounds = max_of_refs-bounds (parse_spec values obj spec).model_refs (pos 0) in
    (parse_priority-bounds (field values values.as_int spec (codes "priority")), bounds.0, bounds.1)

keep_some-All {ℓ κ μ} :
    {A : Type ℓ} {B : Type κ} (f : A → Option B) (P : B → Type μ)
    → ((x : A) (y : B) → f x ≡ some y → P y)
    → (xs : List A) → All P (keep_some f xs)
unfolding keep_some
keep_some-All f P h [] = tt
keep_some-All f P h (x ∷ xs) = elim (Option-cases (f x)) [
  | inl e ↦ rw (e, All) (keep_some-All f P h xs)
  | inr (y, e) ↦ rw (e, All) (h x y e, keep_some-All f P h xs)
]

parse_subscription-IsBounded :
    {V : Type 0} (values : Values V) (obj : Object V) (sub : Subscription)
    → parse_subscription values obj ≡ some sub
    → IsBounded sub
unfolding parse_subscription
parse_subscription-IsBounded values obj sub h =
    elim (Option-cases (field values values.as_map obj.content (codes "spec"))) [
      | inl e ↦ ground arith
      | inr (spec, e) ↦
          let same : parse_spec values obj spec ≡ sub = ground arith in
          subst IsBounded same (parse_spec-IsBounded values obj spec)
    ]

-- Every subscription that loadSubscriptions returns has a priority that fits int32, a maximum limit
-- that is not negative, and no token rate limit above that maximum.
pub load_subscriptions-IsBounded :
    {V : Type 0} (values : Values V) (listed : Result Text (List (Object V)))
    (subs : List Subscription)
    → load_subscriptions values listed ≡ ok subs
    → All IsBounded subs
unfolding load_subscriptions
load_subscriptions-IsBounded values (ok objects) subs h =
    let kept : keep_some (parse_subscription values) objects ≡ subs = cc in
    subst (All IsBounded) kept (
      keep_some-All (parse_subscription values) IsBounded (parse_subscription-IsBounded values)
        objects)
load_subscriptions-IsBounded values (err e) subs h = ground arith
