-- ===== src/Controller/Skipped.antt =====
-- A subscription whose limits are invalid is left out of the policy of its model, and its status
-- does not say so.
use models_as_a_service_mids.Prelude.{
  Text, codes, ◌≡◌, ◌≢◌, inl, inr, sym, subst, List, [], ◌∷◌, Memᴰ, All-of_Memᴰ, none, some, false,
  contains_char, arith,
}
use models_as_a_service_mids.Controller.Types.{active, LimitSpec, ModelSubscriptionRef}
use models_as_a_service_mids.Controller.RateLimit.{LimitError, validate_token_rate_limit}
use models_as_a_service_mids.Controller.Status.{ReadModel, FindRoute, ReadPolicy, derive_status}
use models_as_a_service_mids.Controller.Status.Health.{IsServed, derive_status-active_iff}
use models_as_a_service_mids.Controller.Texts.{lookup_key}
use models_as_a_service_mids.Controller.Cluster.{MaasSubscription, LimitEntry}
use models_as_a_service_mids.Controller.Limits.{sub_infos, policy_of}
use models_as_a_service_mids.Controller.Limits.Live.{
  key_of, HasRates, IsLimitOf, limits_in, policy_of-IsLimitOf,
}

only_one {ℓ} : {A : Type ℓ} {a b : A} → Memᴰ a (b ∷ []) → a ≡ b
only_one (Memᴰ.head e) = e
only_one (Memᴰ.tail m) = elim m [ ]

-- A reference with an invalid limit gives no rates.
no_rates :
    (ref : ModelSubscriptionRef) (spec : LimitSpec) (rates : List LimitSpec) {e : LimitError}
    → Memᴰ spec ref.token_rate_limits
    → validate_token_rate_limit spec.limit spec.window ≡ some e
    → ¬ (HasRates ref rates)
unfolding codes
no_rates ref spec rates listed invalid (inl (empty, _)) = elim (subst (Memᴰ spec) empty listed) [ ]
no_rates ref spec rates listed invalid (inr (_, same, valid)) =
    let passes =
      All-of_Memᴰ (λ (s : LimitSpec). validate_token_rate_limit s.limit s.window ≡ none) rates valid
        (subst (Memᴰ spec) (sym same) listed) in
    absurd (ground (arith, passes, invalid))

not_limited :
    (namespace name : Text) (sub : MaasSubscription) (ref : ModelSubscriptionRef) (spec : LimitSpec)
    (entry : LimitEntry) {e : LimitError}
    → sub.model_refs ≡ ref ∷ []
    → Memᴰ spec ref.token_rate_limits
    → validate_token_rate_limit spec.limit spec.window ≡ some e
    → ¬ (IsLimitOf namespace name sub entry)
not_limited namespace name sub ref spec entry refs listed invalid limit =
    let same : limit.ref ≡ ref = only_one (subst (Memᴰ limit.ref) refs limit.listed) in
    no_rates ref spec entry.rates listed invalid
      (subst (λ z. HasRates z entry.rates) same limit.rated)

-- A subscription to one served model, with an invalid limit among its limits for it, is reported
-- Active, but whatever subscriptions the policy of the model is built from, each limit that it
-- holds is the limit of another one of them.
pub active_without_limit :
    (get_model : ReadModel) (find_route : FindRoute) (get_policy : ReadPolicy)
    (sub : MaasSubscription) (ref : ModelSubscriptionRef) (spec : LimitSpec) {e : LimitError}
    → sub.model_refs ≡ ref ∷ []
    → Memᴰ spec ref.token_rate_limits
    → validate_token_rate_limit spec.limit spec.window ≡ some e
    → contains_char b'/' ref.namespace ≡ false
    → IsServed get_model find_route get_policy ref.namespace ref.name
    → ((derive_status get_model find_route get_policy sub.model_refs).phase ≡ active)
      × ((route_name route_namespace : Text) (subs : List MaasSubscription) (key : Text)
            (entry : LimitEntry)
          → lookup_key
              (limits_in (
                policy_of ref.namespace ref.name route_name route_namespace
                  (sub_infos ref.namespace ref.name subs)))
              key
            ≡ some entry
          → (other : MaasSubscription) × Memᴰ other subs
            × (other ≢ sub)
            × (key ≡ key_of other ref.name)
            × IsLimitOf ref.namespace ref.name other entry)
active_without_limit get_model find_route get_policy sub ref spec refs listed invalid clean served =
    (
      subst (λ z. (derive_status get_model find_route get_policy z).phase ≡ active) (sym refs)
          ((derive_status-active_iff get_model find_route get_policy (ref ∷ []) (clean, tt)).1
            (λ h. absurd (ground arith), (served, tt))),
      λ route_name route_namespace subs key entry found.
          let (other, mem, same_key, limit) =
            policy_of-IsLimitOf ref.namespace ref.name route_name route_namespace subs key entry
              found in
          (
            other,
            mem,
            λ same.
                not_limited ref.namespace ref.name sub ref spec entry refs listed invalid
                  (subst (λ z. IsLimitOf ref.namespace ref.name z entry) same limit),
            same_key,
            limit,
          ),
    )
