-- ===== src/Controller/Limits/Entries.antt =====
-- The reference of a subscription that the policy of a model uses.
use models_as_a_service_mids.Prelude.{
  Text, ◌≡◌, inl, inr, refl, sym, ap, ◌∙◌, subst, List, [], ◌∷◌, Memᴰ, Option, none, some,
  Option-cases, true, Bool-cases, All, arith,
}
use models_as_a_service_mids.Controller.Types.{LimitSpec, ModelSubscriptionRef}
use models_as_a_service_mids.Controller.RateLimit.{validate_token_rate_limit}
use models_as_a_service_mids.Controller.Cluster.{MaasSubscription}
use models_as_a_service_mids.Controller.Limits.{
  SubInfo, checked_rates, rates_of, is_model, first_reference,
}

still_known :
    (spec : LimitSpec) (specs : List LimitSpec) {kept : List LimitSpec}
    → validate_token_rate_limit spec.limit spec.window ≡ none
    → checked_rates specs ≡ some kept
    → checked_rates (spec ∷ specs) ≡ some (spec ∷ kept)
unfolding checked_rates
still_known spec specs valid found = ground (arith, valid, found)

kept_all :
    (spec : LimitSpec) (specs kept rates : List LimitSpec)
    → kept ≡ specs
    → some (spec ∷ kept) ≡ some rates
    → spec ∷ specs ≡ rates
kept_all spec specs kept rates e h =
    let same : spec ∷ kept ≡ rates = cc in ap (◌∷◌ spec) (sym e) ∙ same

pub checked_rates-valid :
    (specs : List LimitSpec) {rates : List LimitSpec}
    → checked_rates specs ≡ some rates
    → (rates ≡ specs)
      × All (λ (s : LimitSpec). validate_token_rate_limit s.limit s.window ≡ none) specs
unfolding checked_rates
checked_rates-valid [] h = (cc, tt)
checked_rates-valid (spec ∷ specs) {rates = rates} h =
    elim (Option-cases (validate_token_rate_limit spec.limit spec.window)) [
      | inl valid ↦ elim (Option-cases (checked_rates specs)) [
        | inl lost ↦ absurd (ground (arith, lost, valid))
        | inr (kept, found) ↦
            let (same, rest) = checked_rates-valid specs found in
            (
              sym (
                  kept_all spec specs kept rates same
                    (sym (still_known spec specs valid found) ∙ h)),
              (valid, rest),
            )
      ]
      | inr (e, invalid) ↦ absurd (ground arith)
    ]

pub valid-checked_rates :
    (specs : List LimitSpec)
    → All (λ (s : LimitSpec). validate_token_rate_limit s.limit s.window ≡ none) specs
    → checked_rates specs ≡ some specs
unfolding checked_rates
valid-checked_rates [] h = refl
valid-checked_rates (spec ∷ specs) h = ground (arith, h.0, valid-checked_rates specs h.1)

step_over :
    (namespace name : Text) (sub : MaasSubscription) (ref : ModelSubscriptionRef)
    (refs : List ModelSubscriptionRef) {info : SubInfo}
    → (info.sub ≡ sub)
      × Memᴰ info.model_ref refs
      × (is_model namespace name info.model_ref ≡ true)
      × (rates_of info.model_ref ≡ some info.rates)
    → (info.sub ≡ sub)
      × Memᴰ info.model_ref (ref ∷ refs)
      × (is_model namespace name info.model_ref ≡ true)
      × (rates_of info.model_ref ≡ some info.rates)
step_over namespace name sub ref refs (owner, mem, model, known) =
    (owner, Memᴰ.tail mem, model, known)

pub first_reference_sound :
    (namespace name : Text) (sub : MaasSubscription) (refs : List ModelSubscriptionRef)
    {info : SubInfo}
    → first_reference namespace name sub refs ≡ some info
    → (info.sub ≡ sub)
      × Memᴰ info.model_ref refs
      × (is_model namespace name info.model_ref ≡ true)
      × (rates_of info.model_ref ≡ some info.rates)
unfolding first_reference
first_reference_sound namespace name sub [] h = absurd (ground arith)
first_reference_sound namespace name sub (ref ∷ refs) {info = info} h =
    elim (Bool-cases (is_model namespace name ref)) [
      | inl model ↦ elim (Option-cases (rates_of ref)) [
        | inl lost ↦
            step_over namespace name sub ref refs
              (first_reference_sound namespace name sub refs (ground arith))
        | inr (rates, known) ↦
            let found : Path (Option SubInfo)
                (some (record { sub = sub; model_ref = ref; rates = rates })) (some info) =
              ground arith in
            let same : Path SubInfo (record { sub = sub; model_ref = ref; rates = rates }) info =
              cc in
            subst
              (λ (z : SubInfo).
                (z.sub ≡ sub)
                × Memᴰ z.model_ref (ref ∷ refs)
                × (is_model namespace name z.model_ref ≡ true)
                × (rates_of z.model_ref ≡ some z.rates))
              same (refl, Memᴰ.head refl, model, known)
      ]
      | inr other ↦
          step_over namespace name sub ref refs
            (first_reference_sound namespace name sub refs (ground arith))
    ]

pub first_reference_complete :
    (namespace name : Text) (sub : MaasSubscription) (refs : List ModelSubscriptionRef)
    (ref : ModelSubscriptionRef) {rates : List LimitSpec}
    → Memᴰ ref refs
    → is_model namespace name ref ≡ true
    → rates_of ref ≡ some rates
    → (info : SubInfo) × (first_reference namespace name sub refs ≡ some info)
unfolding first_reference
first_reference_complete namespace name sub [] ref mem model known = elim mem [ ]
first_reference_complete namespace name sub (r ∷ refs) ref {rates = rates} (Memᴰ.head e) model
      known =
    let here = subst (λ z. is_model namespace name z ≡ true) e model in
    let valid = subst (λ z. rates_of z ≡ some rates) e known in
    (record { sub = sub; model_ref = r; rates = rates }, ground arith)
first_reference_complete namespace name sub (r ∷ refs) ref (Memᴰ.tail mem) model known =
    let (info, later) = first_reference_complete namespace name sub refs ref mem model known in
    elim (Bool-cases (is_model namespace name r)) [
      | inl here ↦ elim (Option-cases (rates_of r)) [
        | inl lost ↦ (info, ground arith)
        | inr (rates, found) ↦ (record { sub = sub; model_ref = r; rates = rates }, ground arith)
      ]
      | inr other ↦ (info, ground arith)
    ]
