-- ===== src/Subscription/Selector/Select.antt =====
-- What a successful `Select` and `GetAllAccessible` grant, whichever branch they take.
use models_as_a_service_mids.Prelude.{
  ◌≡◌, ◌≢◌, refl, sym, subst, ◌⊎◌, inl, inr, Text, ◌==◌, eq_iff, List, [], ◌∷◌, none, some, true,
  find, find-some, filter, Memᴰ-filter, Memᴰ-of_sort, Memᴰ, ok, Option-cases, Bool-cases, arith,
  is_nil, is_nil-ne, is_nil_iff,
}
use models_as_a_service_mids.Subscription.Types.{Subscription, SelectResponse, to_response}
use models_as_a_service_mids.Subscription.Access.{
  user_has_access, user_has_access_iff, HasAccess, subscription_includes_model,
}
use models_as_a_service_mids.Subscription.Health.{check_model_health}
use models_as_a_service_mids.Subscription.Priority.{before, sort_subscriptions_by_priority}
use models_as_a_service_mids.Subscription.Selector.{
  select, select_from, select_explicit, select_automatic, select_only, find_requested,
  qualified_name, admit, is_candidate, or_respond,
}

-- Why the subscription `sub` may answer the request.
pub record IsGranted (subs : List Subscription) (groups : List Text)
    (username requested_subscription requested_model : Text) (sub : Subscription) : Type 0 where
  pub loaded : Memᴰ sub subs
  pub access : HasAccess sub username groups
  pub named :
      requested_subscription ≢ []
      → (qualified_name sub ≡ requested_subscription) ⊎ (sub.name ≡ requested_subscription)
  pub includes : requested_model ≢ [] → subscription_includes_model sub requested_model ≡ true
  pub healthy : check_model_health sub requested_model ≡ none

module _ (requested_model : Text) (sub : Subscription) {r : SelectResponse} where
  or_respond-ok :
      or_respond (check_model_health sub requested_model) sub ≡ ok r
      → (check_model_health sub requested_model ≡ none) × (r ≡ to_response sub)
  unfolding or_respond
  or_respond-ok h = elim (Option-cases (check_model_health sub requested_model)) [
    | inl healthy ↦ (healthy, ground arith)
    | inr (e, ill) ↦ absurd (ground arith)
  ]

find_requested_sound :
    (requested : Text) (subs : List Subscription) (sub : Subscription)
    → find_requested requested subs ≡ some sub
    → Memᴰ sub subs × ((qualified_name sub ≡ requested) ⊎ (sub.name ≡ requested))
unfolding find_requested
find_requested_sound requested subs sub h =
    elim (Option-cases (find (λ s. qualified_name s == requested) subs)) [
      | inl absent ↦
          let (m, same) = find-some (λ s. s.name == requested) subs (ground arith) in
          (m, inr ((eq_iff sub.name requested).0 same))
      | inr (s, found) ↦
          let (m, same) = find-some (λ s. qualified_name s == requested) subs (ground arith) in
          (m, inl ((eq_iff (qualified_name sub) requested).0 same))
    ]

module _ (groups : List Text) (username requested_subscription requested_model : Text) where
  admit-ok :
      (sub : Subscription) {r : SelectResponse}
      → admit groups username requested_subscription requested_model sub ≡ ok r
      → (user_has_access sub username groups ≡ true)
        × (requested_model ≢ [] → subscription_includes_model sub requested_model ≡ true)
        × (check_model_health sub requested_model ≡ none)
        × (r ≡ to_response sub)
  unfolding admit
  admit-ok sub {r} h =
      let answered : or_respond (check_model_health sub requested_model) sub ≡ ok r =
        ground arith in
      let (healthy, same) = or_respond-ok requested_model sub answered in
      (ground arith, λ asked. ground (arith, is_nil-ne requested_model asked), healthy, same)

pub select_only-ok :
    (requested_model : Text) (subs : List Subscription) {r : SelectResponse}
    → select_only requested_model subs ≡ ok r
    → (sub : Subscription) × (subs ≡ sub ∷ [])
      × (check_model_health sub requested_model ≡ none)
      × (r ≡ to_response sub)
unfolding select_only
select_only-ok requested_model [] h = absurd (cc)
select_only-ok requested_model (sub ∷ []) h =
    let (healthy, same) = or_respond-ok requested_model sub h in (sub, refl, healthy, same)
select_only-ok requested_model (a ∷ b ∷ rest) h = absurd (cc)

module _ (groups : List Text) (username requested_model : Text) (sub : Subscription)
    (passes : is_candidate groups username requested_model sub ≡ true) where
  candidate-access : user_has_access sub username groups ≡ true
  unfolding is_candidate
  candidate-access = ground arith

  candidate-includes : requested_model ≢ [] → subscription_includes_model sub requested_model ≡ true
  unfolding is_candidate
  candidate-includes asked = ground (arith, is_nil-ne requested_model asked)

module _ (subs : List Subscription) (groups : List Text)
    (username requested_subscription requested_model : Text) where
  select_explicit-ok :
      {r : SelectResponse}
      → select_explicit groups username requested_subscription requested_model subs ≡ ok r
      → (sub : Subscription) × IsGranted subs groups username requested_subscription requested_model
          sub
        × (r ≡ to_response sub)
  unfolding select_explicit
  select_explicit-ok {r} h = elim (Option-cases (find_requested requested_subscription subs)) [
    | inl absent ↦ absurd (ground arith)
    | inr (sub, found) ↦
        let (m, same) = find_requested_sound requested_subscription subs sub found in
        let admitted : admit groups username requested_subscription requested_model sub ≡ ok r =
          ground arith in
        let (access, includes, healthy, answer) =
          admit-ok groups username requested_subscription requested_model sub admitted in
        (
          sub,
          record {
            loaded = m;
            access = (user_has_access_iff sub username groups).0 access;
            named = λ _. same;
            includes = includes;
            healthy = healthy;
          },
          answer,
        )
  ]

  select_automatic-ok :
      {r : SelectResponse}
      → requested_subscription ≡ []
      → select_automatic groups username requested_model subs ≡ ok r
      → (sub : Subscription) × IsGranted subs groups username requested_subscription requested_model
          sub
        × (r ≡ to_response sub)
  unfolding select_automatic
  select_automatic-ok unnamed h =
      let candidate = is_candidate groups username requested_model in
      let (sub, only, healthy, answer) = select_only-ok requested_model (filter candidate subs) h in
      let (m, passes) = Memᴰ-filter candidate subs (subst (Memᴰ sub) (sym only) (Memᴰ.head refl)) in
      (
        sub,
        record {
          loaded = m;
          access =
              (user_has_access_iff sub username groups).0
                (candidate-access groups username requested_model sub passes);
          named = λ asked. absurd (asked unnamed);
          includes = candidate-includes groups username requested_model sub passes;
          healthy = healthy;
        },
        answer,
      )

module _ (subs : List Subscription) (groups : List Text)
    (username requested_subscription requested_model : Text) where
  IsGranted-of_sort :
      {sub : Subscription}
      → IsGranted
          (sort_subscriptions_by_priority subs)
          groups
          username
          requested_subscription
          requested_model
          sub
      → IsGranted subs groups username requested_subscription requested_model sub
  unfolding sort_subscriptions_by_priority
  IsGranted-of_sort g = record {
    loaded = Memᴰ-of_sort before subs g.loaded;
    access = g.access;
    named = g.named;
    includes = g.includes;
    healthy = g.healthy;
  }

  select_from-ok :
      {r : SelectResponse}
      → select_from groups username requested_subscription requested_model subs ≡ ok r
      → (sub : Subscription) × IsGranted subs groups username requested_subscription requested_model
          sub
        × (r ≡ to_response sub)
  unfolding select_from
  select_from-ok {r} h =
      let sorted = sort_subscriptions_by_priority subs in
      elim (Bool-cases (is_nil requested_subscription)) [
        | inl unnamed ↦
            let automatic : select_automatic groups username requested_model sorted ≡ ok r =
              ground arith in
            let (sub, granted, answer) =
              select_automatic-ok sorted groups username requested_subscription requested_model
                ((is_nil_iff requested_subscription).0 unnamed) automatic in
            (sub, IsGranted-of_sort granted, answer)
        | inr asked ↦
            let explicit : select_explicit groups username requested_subscription requested_model
                  sorted
                ≡ ok r =
              ground arith in
            let (sub, granted, answer) =
              select_explicit-ok sorted groups username requested_subscription requested_model
                explicit in
            (sub, IsGranted-of_sort granted, answer)
      ]

-- Whatever `Select` answers is a loaded subscription that the caller has access to, that bears the
-- requested name (qualified or bare) if one was requested, that includes the requested model if one
-- was requested, and whose phase and rate limits let the request through.
pub select-IsGranted :
    (subs : List Subscription) (groups : List Text)
    (username requested_subscription requested_model : Text) (r : SelectResponse)
    → select (ok subs) groups username requested_subscription requested_model ≡ ok r
    → (sub : Subscription) × IsGranted subs groups username requested_subscription requested_model
        sub
      × (r ≡ to_response sub)
unfolding select
select-IsGranted subs groups username requested_subscription requested_model r h =
    select_from-ok subs groups username requested_subscription requested_model (ground arith)
