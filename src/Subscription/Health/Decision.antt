-- ===== src/Subscription/Health/Decision.antt =====
-- When `checkModelHealth` lets a request or an API key through.
use models_as_a_service_mids.Prelude.{
  ◌≡◌, ◌≢◌, refl, ◌↔◌, ◌⊎◌, inl, inr, Text, codes, ◌==◌, eq_iff, split_first, split_first-ne_nil,
  List, [], ◌∷◌, none, some, true, false, find, Option-cases, Bool-cases, arith,
}
use models_as_a_service_mids.Subscription.Types.{
  Subscription, ModelRefInfo, TokenRateLimitStatus, phase_active, phase_degraded, phase_failed,
}
use models_as_a_service_mids.Subscription.Access.{names_model}
use models_as_a_service_mids.Subscription.Health.{
  check_model_health, check_key_creation, check_degraded, check_rate_limit_ready, has_rate_limits,
}

-- A rate limit of the model is in force: the first status of that model's name says ready.
abbrev pub IsEnforced : Subscription → Text → Type 0
IsEnforced sub name =
    (trlp : TokenRateLimitStatus) × (find (λ t. t.model == name) sub.token_rate_limit_statuses
      ≡ some trlp)
    × (trlp.ready ≡ true)

-- The first reference to the model, if there is one, has no token rate limits.
abbrev pub IsUnlimited : Subscription → Text → Text → Type 0
IsUnlimited sub ns name =
    (find (names_model ns name) sub.model_refs ≡ none)
    ⊎ ((ref : ModelRefInfo) × (find (names_model ns name) sub.model_refs ≡ some ref)
        × (ref.token_rate_limits ≡ []))

-- A Degraded subscription serves a well-formed model name that has no rate limit, or one in force.
abbrev pub ServesDegraded : Subscription → Text → Type 0
ServesDegraded sub requested =
    (ns : Text) × (name : Text) × (split_first b'/' requested ≡ some (ns, name))
    × (IsUnlimited sub ns name ⊎ IsEnforced sub name)

abbrev pub Serves : Subscription → Text → Type 0
Serves sub requested =
    (sub.phase ≡ phase_active) ⊎ ((sub.phase ≡ phase_degraded) × ServesDegraded sub requested)

module _ (sub : Subscription) (name : Text) where
  IsEnforced-of_ready : check_rate_limit_ready sub name ≡ none → IsEnforced sub name
  unfolding check_rate_limit_ready
  IsEnforced-of_ready h =
      elim (Option-cases (find (λ t. t.model == name) sub.token_rate_limit_statuses)) [
        | inl absent ↦ absurd (ground arith)
        | inr (trlp, found) ↦ (trlp, found, ground arith)
      ]

  ready_of_enforced : IsEnforced sub name → check_rate_limit_ready sub name ≡ none
  unfolding check_rate_limit_ready
  ready_of_enforced (trlp, found, ready) = ground arith

module _ (sub : Subscription) (ns name : Text) where
  IsUnlimited-of_no_limits : has_rate_limits sub ns name ≡ false → IsUnlimited sub ns name
  unfolding has_rate_limits
  IsUnlimited-of_no_limits h = elim (Option-cases (find (names_model ns name) sub.model_refs)) [
    | inl absent ↦ inl absent
    | inr (ref, found) ↦ inr (ref, found, ground arith)
  ]

  no_limits_of_unlimited : IsUnlimited sub ns name → has_rate_limits sub ns name ≡ false
  unfolding has_rate_limits
  no_limits_of_unlimited (inl absent) = ground arith
  no_limits_of_unlimited (inr (ref, found, bare)) = ground arith

module _ (sub : Subscription) (requested : Text) where
  serves_of_degraded : check_degraded sub requested ≡ none → ServesDegraded sub requested
  unfolding check_degraded
  serves_of_degraded h = elim (Option-cases (split_first b'/' requested)) [
    | inl absent ↦ absurd (ground arith)
    | inr ((ns, name), split) ↦ elim (Bool-cases (has_rate_limits sub ns name)) [
      | inl limited ↦ (ns, name, split, inr (IsEnforced-of_ready sub name (ground arith)))
      | inr unlimited ↦ (ns, name, split, inl (IsUnlimited-of_no_limits sub ns name unlimited))
    ]
  ]

  degraded_of_serves : ServesDegraded sub requested → check_degraded sub requested ≡ none
  unfolding check_degraded
  degraded_of_serves (ns, name, split, inl unlimited) =
      ground (arith, no_limits_of_unlimited sub ns name unlimited)
  degraded_of_serves (ns, name, split, inr enforced) =
      ground (arith, ready_of_enforced sub name enforced)

phase_active-ne-degraded : phase_active ≢ phase_degraded
unfolding codes
phase_active-ne-degraded e = cc

-- A request for a model is let through exactly when the subscription serves the model: in phase
-- Active, or in phase Degraded with a well-formed model name whose rate limit, if any, is in force.
pub check_model_health_iff :
    (sub : Subscription) (requested : Text)
    → requested ≢ []
    → (check_model_health sub requested ≡ none) ↔ Serves sub requested
unfolding check_model_health
check_model_health_iff sub [] asked = absurd (asked refl)
check_model_health_iff sub (c ∷ r) asked = (
  λ h. elim (Bool-cases (sub.phase == phase_active)) [
    | inl active ↦ inl ((eq_iff sub.phase phase_active).0 active)
    | inr inactive ↦ elim (Bool-cases (sub.phase == phase_degraded)) [
      | inl degraded ↦ inr (
        (eq_iff sub.phase phase_degraded).0 degraded,
        serves_of_degraded sub (c ∷ r) (ground arith),
      )
      | inr other ↦ absurd (ground arith)
    ]
  ],
  λ s. elim s [
    | inl active ↦ ground (
      arith,
      eq_iff sub.phase phase_active,
      phase_active-ne-degraded,
      eq_iff sub.phase phase_degraded,
    )
    | inr (degraded, serves) ↦
        ground (arith, eq_iff sub.phase phase_degraded, degraded_of_serves sub (c ∷ r) serves)
  ],
)

-- An API key may be minted on a subscription in any phase but the empty one and Failed.
pub check_key_creation_iff :
    (sub : Subscription)
    → (check_model_health sub [] ≡ none) ↔ ((sub.phase ≢ []) × (sub.phase ≢ phase_failed))
unfolding check_model_health check_key_creation
check_key_creation_iff sub = (
  λ h. (λ e. ground arith, λ e. ground (arith, eq_iff sub.phase phase_failed)),
  λ h. ground (arith, eq_iff sub.phase phase_failed, h.0, h.1),
)

-- The status of a rate limit is looked up by the model's name alone. On a Degraded subscription
-- whose first status of that name is ready, a rate-limited model of the name is let through in
-- whatever namespace it is, also where a later status says that its own policy is not ready.
pub name_collision :
    (sub : Subscription) (requested ns name : Text) (trlp : TokenRateLimitStatus)
    (rest : List TokenRateLimitStatus)
    → sub.phase ≡ phase_degraded
    → sub.token_rate_limit_statuses ≡ trlp ∷ rest
    → trlp.model ≡ name
    → trlp.ready ≡ true
    → split_first b'/' requested ≡ some (ns, name)
    → check_model_health sub requested ≡ none
unfolding find
name_collision sub requested ns name trlp rest degraded listed same ready split =
    (check_model_health_iff sub requested (split_first-ne_nil b'/' requested split)).1
      (inr (degraded, (ns, name, split, inr (trlp, ground (arith, eq_iff trlp.model name), ready))))
