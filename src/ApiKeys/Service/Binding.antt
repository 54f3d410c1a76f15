-- ===== src/ApiKeys/Service/Binding.antt =====
-- The subscription that a new key is bound to, with the selector of the subscription package.
use models_as_a_service_mids.Prelude.{
  ◌≡◌, sym, ap, subst, ◌∙◌, Text, List, [], Option, Memᴰ, Result, ok, inl, inr, arith,
}
use models_as_a_service_mids.Prelude.Int.{ℤ}
use models_as_a_service_mids.Subscription.Types.{Subscription, SelectResponse, to_response}
use models_as_a_service_mids.Subscription.Access.{HasAccess}
use models_as_a_service_mids.Subscription.Selector.{Loaded, select, select_highest_priority}
use models_as_a_service_mids.Subscription.Selector.Select.{select-IsGranted}
use models_as_a_service_mids.Subscription.Selector.Ranking.{select_highest_priority-RanksFirst}
use models_as_a_service_mids.ApiKeys.Types.{Time}
use models_as_a_service_mids.ApiKeys.Store.{NewKey, MetadataStore}
use models_as_a_service_mids.ApiKeys.Service.{
  SubscriptionSelector, ServiceError, CreateRequest, Draws, CreateApiKeyResponse, create_api_key,
}
use models_as_a_service_mids.ApiKeys.Service.Stored.{Chooses, create_api_key_lem}

-- The selector over the loaded subscriptions, as the service takes it.
abbrev pub selector_of : Loaded → SubscriptionSelector
selector_of loaded = record {
  select = select loaded;
  select_highest_priority = select_highest_priority loaded;
}

chosen-HasAccess :
    (subs : List Subscription) (request : CreateRequest) (r : SelectResponse)
    → Chooses (selector_of (ok subs)) request (ok r)
    → (sub : Subscription) × Memᴰ sub subs
      × HasAccess sub request.username request.user_groups
      × (r ≡ to_response sub)
chosen-HasAccess subs request r (inl (unnamed, h)) =
    let (sub, there, access, first, same) =
      select_highest_priority-RanksFirst subs request.user_groups request.username r h in
    (sub, there, access, same)
chosen-HasAccess subs request r (inr (named, h)) =
    let (sub, granted, same) =
      select-IsGranted subs request.user_groups request.username request.requested_subscription [] r
        h in
    (sub, granted.loaded, granted.access, same)

module _ (sha256_hex : Text → Text) (format : Time → Text) (S : MetadataStore) where
  -- With the selector of the subscription package, a creation that succeeds on any store has handed
  -- the store a key of its owner, which the store took, that is bound to the name of a loaded
  -- subscription that grants the owner access; the answer names the same subscription.
  pub create_api_key-HasAccess :
      (config : Option ℤ) (subs : List Subscription) (draws : Draws) (request : CreateRequest)
      (s s' : S.State) (response : CreateApiKeyResponse)
      → create_api_key sha256_hex format S config (selector_of (ok subs)) draws request s
        ≡ (ok response, s')
      → (sub : Subscription) × (k : NewKey) × Memᴰ sub subs
        × HasAccess sub k.username k.user_groups
        × (k.username ≡ request.username)
        × (k.user_groups ≡ request.user_groups)
        × (k.subscription ≡ sub.name)
        × (response.subscription ≡ sub.name)
        × ((S.add_key k draws.stored s).0 ≡ ok tt)
        × (s' ≡ (S.add_key k draws.stored s).1)
  unfolding to_response
  create_api_key-HasAccess config subs draws request s s' response made =
      elim (create_api_key_lem sha256_hex format S config (selector_of (ok subs)) draws request s) [
        | inl (e, stopped, why) ↦ absurd (ground arith)
        | inr (k, answer, key, state, inr (e, refused, failed)) ↦ absurd (ground arith)
        | inr (k, answer, key, state, inl (taken, answered)) ↦
            let (sub, there, access, same) =
              chosen-HasAccess subs request key.selected key.chosen_as in
            let bound : key.selected.name ≡ sub.name = ap (λ (r : SelectResponse). r.name) same in
            let shown : Path (Result ServiceError CreateApiKeyResponse) (ok answer) (ok response) =
              sym answered ∙ ap (λ z. z.0) made in
            let same_answer : answer ≡ response = cc in
            (
              sub,
              k,
              there,
              subst (HasAccess sub k.username) (sym key.groups)
                  (subst (λ u. HasAccess sub u request.user_groups) (sym key.owner) access),
              key.owner,
              key.groups,
              key.bound ∙ bound,
              ap (λ (z : CreateApiKeyResponse). z.subscription) (sym same_answer)
                  ∙ key.shown_subscription
                  ∙ key.bound
                  ∙ bound,
              taken,
              sym (ap (λ z. z.1) made) ∙ state,
            )
      ]
