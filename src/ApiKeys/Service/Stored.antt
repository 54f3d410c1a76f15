-- ===== src/ApiKeys/Service/Stored.antt =====
-- The key that `CreateAPIKey` hands to the store, and its answer.
use models_as_a_service_mids.Prelude.{
  ◌+◌, ◌≡◌, ◌≢◌, refl, sym, Text, [], is_nil, is_nil_iff, Option, some, true, Bool-cases, Result,
  ok, err, ◌⊎◌, inl, inr, arith,
}
use models_as_a_service_mids.Prelude.Int.{ℤ, pos_part}
use models_as_a_service_mids.Subscription.Types.{SelectResponse, SelectError}
use models_as_a_service_mids.ApiKeys.Types.{Time, StoreError}
use models_as_a_service_mids.ApiKeys.Store.{NewKey, MetadataStore}
use models_as_a_service_mids.ApiKeys.Keygen.{
  Generated, generate_api_key, is_valid_key_format, hash_api_key,
}
use models_as_a_service_mids.ApiKeys.Service.{
  SubscriptionSelector, ServiceError, generate_failed, selection_failed, not_stored, Duration,
  CreateRequest, Draws, CreateApiKeyResponse, new_key, created, create_api_key, choose_subscription,
  check_expiration,
}
use models_as_a_service_mids.ApiKeys.Service.Create.{IsPrepared, Stops, create_api_key-IsPrepared}
use models_as_a_service_mids.ApiKeys.Service.RoundTrip.{generated-lem}

-- The selector's answer: for the requested subscription, or for the default one where none is
-- requested.
abbrev pub Chooses :
    SubscriptionSelector → CreateRequest → Result SelectError SelectResponse → Type 0
Chooses selector request answer =
    ((request.requested_subscription ≡ [])
      × (selector.select_highest_priority request.user_groups request.username ≡ answer))
    ⊎ ((request.requested_subscription ≢ [])
        × (selector.select request.user_groups request.username request.requested_subscription []
            ≡ answer))

chosen :
    (selector : SubscriptionSelector) (request : CreateRequest)
    (answer : Result SelectError SelectResponse)
    → choose_subscription selector request ≡ answer
    → Chooses selector request answer
unfolding choose_subscription
chosen selector request answer h = elim (Bool-cases (is_nil request.requested_subscription)) [
  | inl unnamed ↦ inl ((is_nil_iff request.requested_subscription).0 unnamed, ground arith)
  | inr named ↦
      inr (
        λ e. absurd (ground (arith, (is_nil_iff request.requested_subscription).1 e)),
        ground arith,
      )
]

module _ (sha256_hex : Text → Text) (format : Time → Text) where
  -- The expiry check, the random reads or the selector fails.
  pub IsRefusal : Option ℤ → SubscriptionSelector → Draws → CreateRequest → ServiceError → Type 0
  IsRefusal config selector draws request e =
      (check_expiration config request.ephemeral request.expires_in ≡ err e)
      ⊎ ((t : Text) × (generate_api_key sha256_hex draws.key_id_read draws.secret_read ≡ err t)
          × (e ≡ generate_failed t))
      ⊎ ((x : SelectError) × Chooses selector request (err x) × (e ≡ selection_failed x))

  -- The new key is the caller's, and the answer tells of it.
  pub record IsKeyOf (config : Option ℤ) (selector : SubscriptionSelector) (draws : Draws)
      (request : CreateRequest) (k : NewKey) (answer : CreateApiKeyResponse) : Type 0 where
    pub lifetime : Duration
    pub generated : Generated
    pub selected : SelectResponse
    pub allowed : check_expiration config request.ephemeral request.expires_in ≡ ok lifetime
    pub drawn : generate_api_key sha256_hex draws.key_id_read draws.secret_read ≡ ok generated
    pub chosen_as : Chooses selector request (ok selected)
    pub owner : k.username ≡ request.username
    pub groups : k.user_groups ≡ request.user_groups
    pub key_id : k.key_id ≡ draws.new_id
    pub name : k.name ≡ request.name
    pub description : k.description ≡ request.description
    pub ephemeral : k.ephemeral ≡ request.ephemeral
    pub bound : k.subscription ≡ selected.name
    pub expires : k.expires_at ≡ some (draws.asked + pos_part lifetime)
    pub hashed : k.key_hash ≡ hash_api_key sha256_hex answer.key
    pub formed : is_valid_key_format answer.key ≡ true
    pub shown_key : answer.key ≡ generated.plaintext
    pub shown_prefix : answer.key_prefix ≡ generated.prefix
    pub shown_id : answer.id ≡ k.key_id
    pub shown_name : answer.name ≡ k.name
    pub shown_subscription : answer.subscription ≡ k.subscription
    pub shown_expiry : answer.expires_at ≡ some (format (draws.asked + pos_part lifetime))
    pub shown_ephemeral : answer.ephemeral ≡ k.ephemeral

  module _ (S : MetadataStore) where
    Stops-IsRefusal :
        (config : Option ℤ) (selector : SubscriptionSelector) (draws : Draws)
        (request : CreateRequest) (e : ServiceError)
        → Stops sha256_hex format S config selector draws request e
        → IsRefusal config selector draws request e
    unfolding Stops IsRefusal
    Stops-IsRefusal config selector draws request e (inl h) = inl h
    Stops-IsRefusal config selector draws request e (inr (inl h)) = inr (inl h)
    Stops-IsRefusal config selector draws request e (inr (inr (x, h, same))) =
        inr (inr (x, chosen selector request (err x) h, same))

    prepared-IsKeyOf :
        (config : Option ℤ) (selector : SubscriptionSelector) (draws : Draws)
        (request : CreateRequest) (p : IsPrepared sha256_hex format S config selector draws request)
        → IsKeyOf config selector draws request
            (new_key sha256_hex format S draws request p.generated p.response.name
              (draws.asked + pos_part p.lifetime))
            (created sha256_hex format S draws request p.generated p.response.name
              (draws.asked + pos_part p.lifetime))
    unfolding new_key created
    prepared-IsKeyOf config selector draws request p =
        let (form, hash, _) =
          generated-lem sha256_hex draws.key_id_read draws.secret_read p.generated p.drawn in
        record {
          lifetime = p.lifetime;
          generated = p.generated;
          selected = p.response;
          allowed = p.allowed;
          drawn = p.drawn;
          chosen_as = chosen selector request (ok p.response) p.selected;
          owner = refl;
          groups = refl;
          key_id = refl;
          name = refl;
          description = refl;
          ephemeral = refl;
          bound = refl;
          expires = refl;
          hashed = sym hash;
          formed = form;
          shown_key = refl;
          shown_prefix = refl;
          shown_id = refl;
          shown_name = refl;
          shown_subscription = refl;
          shown_expiry = refl;
          shown_ephemeral = refl;
        }

    -- A creation either stops before the store, with the error of the expiry check, of the random
    -- reads or of the selector, and leaves the state as it was. Or it hands the store one new key,
    -- of the caller's name and groups and of the requested name, description and kind, with the new
    -- id, the name of the selected subscription, an expiry that lies the checked lifetime after the
    -- first look at the clock, and the hash by which validation looks up the generated key. It then
    -- answers with that generated key, its prefix, id, name, subscription, expiry and kind exactly
    -- if the store took it, and else with the store's error.
    pub create_api_key_lem :
        (config : Option ℤ) (selector : SubscriptionSelector) (draws : Draws)
        (request : CreateRequest) (s : S.State)
        → let r = create_api_key sha256_hex format S config selector draws request s in
          ((e : ServiceError) × (r ≡ (err e, s)) × IsRefusal config selector draws request e)
          ⊎ ((k : NewKey) × (answer : CreateApiKeyResponse) × IsKeyOf config selector draws request
                k answer
              × (r.1 ≡ (S.add_key k draws.stored s).1)
              × (((S.add_key k draws.stored s).0 ≡ ok tt) × (r.0 ≡ ok answer)
                  ⊎ ((e : StoreError) × ((S.add_key k draws.stored s).0 ≡ err e)
                      × (r.0 ≡ err (not_stored e)))))
    create_api_key_lem config selector draws request s =
        elim (create_api_key-IsPrepared sha256_hex format S config selector draws request s) [
          | inl (e, stopped, why) ↦
              inl (e, stopped, Stops-IsRefusal config selector draws request e why)
          | inr (p, (state, outcome)) ↦ inr (
            new_key sha256_hex format S draws request p.generated p.response.name
                (draws.asked + pos_part p.lifetime),
            created sha256_hex format S draws request p.generated p.response.name
                (draws.asked + pos_part p.lifetime),
            prepared-IsKeyOf config selector draws request p,
            state,
            outcome,
          )
        ]
