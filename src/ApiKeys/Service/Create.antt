-- ===== src/ApiKeys/Service/Create.antt =====
-- What `CreateAPIKey` does before and with the store.
use models_as_a_service_mids.Prelude.{
  ◌+◌, ◌≡◌, ap, ◌∙◌, Text, Option, ok, err, Result-cases, ◌⊎◌, inl, inr, arith,
}
use models_as_a_service_mids.Prelude.Int.{ℤ, pos_part}
use models_as_a_service_mids.Subscription.Types.{SelectResponse, SelectError}
use models_as_a_service_mids.ApiKeys.Types.{Time, StoreError}
use models_as_a_service_mids.ApiKeys.Store.{MetadataStore}
use models_as_a_service_mids.ApiKeys.Keygen.{Generated, generate_api_key}
use models_as_a_service_mids.ApiKeys.Service.{
  SubscriptionSelector, ServiceError, generate_failed, selection_failed, not_stored, Duration,
  CreateRequest, Draws, prepare, new_key, created, add_prepared, create_api_key,
  choose_subscription, check_expiration,
}

module _ (sha256_hex : Text → Text) (format : Time → Text) (S : MetadataStore) where
  -- What a creation goes through: a lifetime that the maximum allows, a generated key, a selected
  -- subscription.
  pub record IsPrepared (config : Option ℤ) (selector : SubscriptionSelector) (draws : Draws)
      (request : CreateRequest) : Type 0 where
    pub lifetime : Duration
    pub generated : Generated
    pub response : SelectResponse
    pub allowed : check_expiration config request.ephemeral request.expires_in ≡ ok lifetime
    pub drawn : generate_api_key sha256_hex draws.key_id_read draws.secret_read ≡ ok generated
    pub selected : choose_subscription selector request ≡ ok response

  prepare_ok :
      (config : Option ℤ) (selector : SubscriptionSelector) (draws : Draws)
      (request : CreateRequest) (p : Generated × Text × Time)
      → prepare sha256_hex format S config selector draws request ≡ ok p
      → (i : IsPrepared config selector draws request) × (p
          ≡ (i.generated, i.response.name, draws.asked + pos_part i.lifetime))
  unfolding prepare
  prepare_ok config selector draws request p h =
      elim (Result-cases (check_expiration config request.ephemeral request.expires_in)) [
        | inr (e, bad) ↦ absurd (ground arith)
        | inl (d, good) ↦
            elim (Result-cases (generate_api_key sha256_hex draws.key_id_read draws.secret_read)) [
              | inr (e, bad) ↦ absurd (ground arith)
              | inl (g, made) ↦ elim (Result-cases (choose_subscription selector request)) [
                | inr (e, bad) ↦ absurd (ground arith)
                | inl (sub, chosen) ↦ (
                  record {
                    lifetime = d;
                    generated = g;
                    response = sub;
                    allowed = good;
                    drawn = made;
                    selected = chosen;
                  },
                  ground arith,
                )
              ]
            ]
      ]

  -- Why a creation stops before the store.
  unfoldable pub Stops :
      Option ℤ → SubscriptionSelector → Draws → CreateRequest → ServiceError → Type 0
  Stops config selector draws request e =
      (check_expiration config request.ephemeral request.expires_in ≡ err e)
      ⊎ ((t : Text) × (generate_api_key sha256_hex draws.key_id_read draws.secret_read ≡ err t)
          × (e ≡ generate_failed t))
      ⊎ ((x : SelectError) × (choose_subscription selector request ≡ err x)
          × (e ≡ selection_failed x))

  prepare_err :
      (config : Option ℤ) (selector : SubscriptionSelector) (draws : Draws)
      (request : CreateRequest) (e : ServiceError)
      → prepare sha256_hex format S config selector draws request ≡ err e
      → Stops config selector draws request e
  unfolding prepare Stops
  prepare_err config selector draws request e h =
      elim (Result-cases (check_expiration config request.ephemeral request.expires_in)) [
        | inr (c, bad) ↦ inl (ground arith)
        | inl (d, good) ↦
            elim (Result-cases (generate_api_key sha256_hex draws.key_id_read draws.secret_read)) [
              | inr (t, bad) ↦ inr (inl (t, bad, ground arith))
              | inl (g, made) ↦ elim (Result-cases (choose_subscription selector request)) [
                | inr (x, bad) ↦ inr (inr (x, bad, ground arith))
                | inl (sub, chosen) ↦ absurd (ground arith)
              ]
            ]
      ]

  -- In terms of what the creation worked out.
  pub create_api_key-IsPrepared :
      (config : Option ℤ) (selector : SubscriptionSelector) (draws : Draws)
      (request : CreateRequest) (s : S.State)
      → ((e : ServiceError) × (create_api_key sha256_hex format S config selector draws request s
            ≡ (err e, s))
          × Stops config selector draws request e)
        ⊎ ((p : IsPrepared config selector draws request) × (let expires_at =
                draws.asked + pos_part p.lifetime in
              let k =
                new_key sha256_hex format S draws request p.generated p.response.name expires_at in
              let r = create_api_key sha256_hex format S config selector draws request s in
              (r.1 ≡ (S.add_key k draws.stored s).1)
              × (((S.add_key k draws.stored s).0 ≡ ok tt)
                    × (r.0
                        ≡ ok (
                            created sha256_hex format S draws request p.generated p.response.name
                              expires_at))
                  ⊎ ((e : StoreError) × ((S.add_key k draws.stored s).0 ≡ err e)
                      × (r.0 ≡ err (not_stored e))))))
  unfolding create_api_key add_prepared
  create_api_key-IsPrepared config selector draws request s =
      elim (Result-cases (prepare sha256_hex format S config selector draws request)) [
        | inr (e, bad) ↦ inl (e, ground arith, prepare_err config selector draws request e bad)
        | inl (p, good) ↦
            let (i, same) = prepare_ok config selector draws request p good in
            let expires_at = draws.asked + pos_part i.lifetime in
            let k =
              new_key sha256_hex format S draws request i.generated i.response.name expires_at in
            let prepared : prepare sha256_hex format S config selector draws request
                ≡ ok (i.generated, i.response.name, expires_at) =
              good ∙ ap ok same in
            elim (Result-cases (S.add_key k draws.stored s).0) [
              | inl (u, taken) ↦
                  inr (i, (ground (arith, prepared), inl (taken, ground (arith, prepared))))
              | inr (e, refused) ↦
                  inr (i, (ground (arith, prepared), inr (e, refused, ground (arith, prepared))))
            ]
      ]
