-- ===== src/ApiKeys/Handler/Creation/Owner.antt =====
-- For whom a creation request makes a key.
use models_as_a_service_mids.Prelude.{
  ◌+◌, ◌≡◌, ◌≢◌, ◌↔◌, refl, Text, Option, ◌&&◌, not, is_nil, ok, Bool-cases, ◌⊎◌, inl, inr, arith,
}
use models_as_a_service_mids.Prelude.Int.{ℤ, pos_part}
use models_as_a_service_mids.ApiKeys.Types.{Time}
use models_as_a_service_mids.ApiKeys.Store.{NewKey, MetadataStore}
use models_as_a_service_mids.ApiKeys.Service.{
  SubscriptionSelector, ServiceError, not_stored, Draws, new_key,
}
use models_as_a_service_mids.ApiKeys.Service.Create.{create_api_key-IsPrepared}
use models_as_a_service_mids.ApiKeys.Handler.{UserContext, present, get_user_context}
use models_as_a_service_mids.ApiKeys.Handler.Creation.{
  CreateApiKeyRequest, selection_failure, create_failure, request_of, create_for,
  create_api_key_handler,
}

create_failure-code : (e : ServiceError) → (create_failure e).code ≢ 201
unfolding create_failure selection_failure
create_failure-code e h = ground arith

module _ (sha256_hex : Text → Text) (format : Time → Text) (S : MetadataStore) where
  -- A creation request of `user` either is refused, with the store as it was, or hands the store one
  -- new key that belongs to that user, with the user's own groups; the answer is 201 exactly if
  -- the store took it.
  pub create_api_key_handler_lem :
      (config : Option ℤ) (selector : SubscriptionSelector) (draws : Draws) (ephemeral_name : Text)
      (req : CreateApiKeyRequest) (user : UserContext) (s : S.State)
      → let r =
          create_api_key_handler sha256_hex format S config selector draws ephemeral_name
            (ok req)
            (present user)
            s in
        ((r.0.code ≢ 201) × (r.1 ≡ s))
        ⊎ ((k : NewKey) × (k.username ≡ user.username)
            × (k.user_groups ≡ user.groups)
            × (k.ephemeral ≡ req.ephemeral)
            × (r.1 ≡ (S.add_key k draws.stored s).1)
            × ((r.0.code ≡ 201) ↔ ((S.add_key k draws.stored s).0 ≡ ok tt)))
  unfolding create_api_key_handler create_for get_user_context request_of new_key
  create_api_key_handler_lem config selector draws ephemeral_name req user s =
      let request = request_of ephemeral_name user req in
      elim (Bool-cases (not req.ephemeral && is_nil req.name)) [
        | inl nameless ↦ inl (λ h. ground arith, ground arith)
        | inr named ↦
            elim (create_api_key-IsPrepared sha256_hex format S config selector draws request s) [
              | inl (e, stopped, _) ↦ inl (λ h. ground (arith, create_failure-code e), ground arith)
              | inr (p, (state, outcome)) ↦
                  let k =
                    new_key sha256_hex format S draws request p.generated p.response.name
                      (draws.asked + pos_part p.lifetime) in
                  elim outcome [
                    | inl (taken, answer) ↦
                        inr (k, refl, refl, refl, ground arith, (λ h. taken, λ h. ground arith))
                    | inr (e, refused, answer) ↦ inr (
                      k,
                      refl,
                      refl,
                      refl,
                      ground arith,
                      (
                        λ h. absurd (create_failure-code (not_stored e) (ground arith)),
                        λ h. absurd (ground arith),
                      ),
                    )
                  ]
            ]
      ]
