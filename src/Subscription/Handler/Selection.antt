-- ===== src/Subscription/Handler/Selection.antt =====
-- What Authorino learns from a selection.
use models_as_a_service_mids.Prelude.{
  ◌≡◌, ◌≢◌, codes, List, [], ok, Result-cases, ◌⊎◌, inl, inr, arith,
}
use models_as_a_service_mids.Subscription.Types.{
  Subscription, SelectRequest, SelectError, to_response,
}
use models_as_a_service_mids.Subscription.Selector.{select}
use models_as_a_service_mids.Subscription.Selector.Select.{IsGranted, select-IsGranted}
use models_as_a_service_mids.Subscription.Handler.{select_failure, select_subscription}

select_failure-error : (e : SelectError) → (select_failure e).error ≢ []
unfolding select_failure codes
select_failure-error e h = ground arith

select_failure-name : (e : SelectError) → (select_failure e).name ≡ []
unfolding select_failure
select_failure-name e = ground arith

-- The answer to a selection request either has an error and names no subscription, or has no error
-- and describes a loaded subscription that the caller may use for the requested model.
pub select_subscription_lem :
    (subs : List Subscription) (req : SelectRequest)
    → let r = select_subscription (ok subs) (ok req) in
      ((r.error ≢ []) × (r.name ≡ []))
      ⊎ ((r.error ≡ [])
          × (sub : Subscription) × IsGranted subs req.groups req.username req.requested_subscription
              req.requested_model sub
          × (r ≡ to_response sub))
unfolding select_subscription to_response
select_subscription_lem subs req =
    elim (Result-cases
      (select (ok subs) req.groups req.username req.requested_subscription req.requested_model)) [
        | inr (e, failed) ↦
            inl (λ h. select_failure-error e (ground arith), ground (arith, select_failure-name e))
        | inl (response, chosen) ↦
            let (sub, granted, same) =
              select-IsGranted subs req.groups req.username req.requested_subscription
                req.requested_model response chosen in
            inr (ground arith, sub, granted, ground arith)
      ]
