-- ===== src/Subscription/Selector/Automatic.antt =====
-- `Select` with no requested subscription: the caller has to have exactly one candidate.
use models_as_a_service_mids.Prelude.{
  ◌≤◌, ◌≡◌, refl, sym, ◌∙◌, ◌↔◌, Text, List, [], ◌∷◌, map, none, false, filter, length, ok, err,
  arith, Permᴰ, filter-permᴰ, perm-singletonᴰ, length-permᴰ, sort_stable-permᴰ, sort_stable,
}
use mathlib.Core.List.Permᴰ
use models_as_a_service_mids.Subscription.Types.{
  Subscription, SelectResponse, to_response, no_subscription, multiple_subscriptions,
}
use models_as_a_service_mids.Subscription.Health.{check_model_health}
use models_as_a_service_mids.Subscription.Priority.{before, sort_subscriptions_by_priority}
use models_as_a_service_mids.Subscription.Selector.{
  select, select_from, select_automatic, select_only, is_candidate, no_caller, or_respond,
}
use models_as_a_service_mids.Subscription.Selector.Select.{select_only-ok}

module _ (groups : List Text) (username requested_model : Text) where
  -- The loaded subscriptions that the caller may be given.
  abbrev pub candidates : List Subscription → List Subscription
  candidates subs = filter (is_candidate groups username requested_model) subs

  candidates-permᴰ :
      (subs : List Subscription)
      → Permᴰ (candidates (sort_subscriptions_by_priority subs)) (candidates subs)
  unfolding sort_subscriptions_by_priority
  candidates-permᴰ subs =
      filter-permᴰ (is_candidate groups username requested_model) (sort_stable-permᴰ before subs)

  select_only-nil :
      select_only requested_model (candidates (sort_subscriptions_by_priority []))
      ≡ err no_subscription
  unfolding select_only filter sort_subscriptions_by_priority sort_stable
  select_only-nil = refl

  select-eq-only :
      (subs : List Subscription)
      → no_caller groups username ≡ false
      → select (ok subs) groups username [] requested_model
        ≡ select_only requested_model (candidates (sort_subscriptions_by_priority subs))
  unfolding select select_from select_automatic
  select-eq-only [] caller = ground (arith, select_only-nil)
  select-eq-only (s ∷ subs) caller = ground arith

or_respond-none : (sub : Subscription) → or_respond none sub ≡ ok (to_response sub)
unfolding or_respond
or_respond-none sub = refl

select_only-many :
    (requested_model : Text) (subs : List Subscription)
    → 2 ≤ length subs
    → select_only requested_model subs ≡ err (multiple_subscriptions (map (λ sub. sub.name) subs))
unfolding select_only
select_only-many requested_model [] h = absurd (omega arith)
select_only-many requested_model (a ∷ []) h = absurd (omega arith)
select_only-many requested_model (a ∷ b ∷ rest) h = refl

-- With no subscription requested, an identified caller is answered exactly when one loaded
-- subscription, and no second one, is open to them (and includes the requested model, if any), and
-- that one passes the health check; the answer is that subscription.
pub select_automatic_iff :
    (subs : List Subscription) (groups : List Text) (username requested_model : Text)
    (r : SelectResponse)
    → no_caller groups username ≡ false
    → (select (ok subs) groups username [] requested_model ≡ ok r) ↔ (
        (sub : Subscription) × (candidates groups username requested_model subs ≡ sub ∷ [])
        × (check_model_health sub requested_model ≡ none)
        × (r ≡ to_response sub))
unfolding select_only
select_automatic_iff subs groups username requested_model r caller = (answered, answers)
  where
    sorted : List Subscription
    sorted = candidates groups username requested_model (sort_subscriptions_by_priority subs)

    answered :
        select (ok subs) groups username [] requested_model ≡ ok r
        → (sub : Subscription) × (candidates groups username requested_model subs ≡ sub ∷ [])
          × (check_model_health sub requested_model ≡ none)
          × (r ≡ to_response sub)
    answered h =
        let (sub, only, healthy, answer) =
          select_only-ok requested_model sorted
            (sym (select-eq-only groups username requested_model subs caller) ∙ h) in
        (
          sub,
          perm-singletonᴰ (candidates-permᴰ groups username requested_model subs) sub only,
          healthy,
          answer,
        )

    answers :
        (sub : Subscription) × (candidates groups username requested_model subs ≡ sub ∷ [])
          × (check_model_health sub requested_model ≡ none)
          × (r ≡ to_response sub)
        → select (ok subs) groups username [] requested_model ≡ ok r
    answers (sub, only, healthy, answer) =
        let only' : sorted ≡ sub ∷ [] =
          perm-singletonᴰ (Permᴰ.symm (candidates-permᴰ groups username requested_model subs)) sub
            only in
        select-eq-only groups username requested_model subs caller
        ∙ rw only' (ground (arith, or_respond-none sub, healthy))

-- Two or more candidates are refused: the error names each of them, as often as it is loaded.
pub select_ambiguous :
    (subs : List Subscription) (groups : List Text) (username requested_model : Text)
    → 2 ≤ length (candidates groups username requested_model subs)
    → no_caller groups username ≡ false
    → (names : List Text) × (select (ok subs) groups username [] requested_model
        ≡ err (multiple_subscriptions names))
      × Permᴰ names (map (λ sub. sub.name) (candidates groups username requested_model subs))
select_ambiguous subs groups username requested_model several caller =
    let same = candidates-permᴰ groups username requested_model subs in
    let sorted = candidates groups username requested_model (sort_subscriptions_by_priority subs) in
    (
      map (λ sub. sub.name) sorted,
      select-eq-only groups username requested_model subs caller
          ∙ select_only-many requested_model sorted (omega (arith, length-permᴰ same)),
      Permᴰ.map (λ sub. sub.name) same,
    )
