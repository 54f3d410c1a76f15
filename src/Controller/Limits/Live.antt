-- ===== src/Controller/Limits/Live.antt =====
-- The limits of a model's policy against the live subscriptions that the cluster lists for it.
use models_as_a_service_mids.Prelude.{
  Text, codes, ◌≡◌, ◌≢◌, ◌⊎◌, inl, inr, refl, sym, ap, subst, ◌∙◌, List, [], ◌∷◌, ◌++◌, map, Memᴰ,
  Memᴰ-map, Memᴰ-of_map, Memᴰ-filter, filter-Memᴰ, Option, none, some, Bool, false, not, All, ok,
  Result-cases, filter, arith,
}
use models_as_a_service_mids.Prelude.Int.{pos}
use models_as_a_service_mids.Controller.Types.{LimitSpec, ModelSubscriptionRef, model_key}
use models_as_a_service_mids.Controller.RateLimit.{validate_token_rate_limit}
use models_as_a_service_mids.Controller.Texts.{lookup_key, replace_all}
use models_as_a_service_mids.Controller.Cluster.{
  MaasSubscription, LimitEntry, PolicySpec, limits_for, foreign_spec, Policy, Client,
}
use models_as_a_service_mids.Controller.Routes.{find_all_subscriptions_for_model}
use models_as_a_service_mids.Controller.Limits.{
  SubInfo, default_rate, first_reference, sub_infos, model_scoped_ref, limit_predicate, limit_key,
  limit_entry, assignment, limits_map, policy_of,
}
use models_as_a_service_mids.Controller.Limits.Maps.{lookup-set_keys, set_keys-lookup}
use models_as_a_service_mids.Controller.Limits.Entries.{
  first_reference_sound, first_reference_complete,
}
use models_as_a_service_mids.Controller.Limits.Sources.{
  IsRated, IsLimited, info-IsLimited, infos-first_reference, sub_infos-complete, valid-rates_of,
  names-model, none-some,
}

-- The key of a subscription's limit for a model: `namespace-name-model-tokens`.
abbrev pub key_of : MaasSubscription → Text → Text
unfolding codes
key_of sub name =
    replace_all b'/' b'-' (sub.namespace ++ b'/' ∷ sub.name)
    ++ (codes "-" ++ (name ++ codes "-tokens"))

-- The predicate that compares the selected subscription with
-- `namespace/name@model namespace/model name`.
abbrev pub predicate_of : MaasSubscription → Text → Text → Text
unfolding codes
predicate_of sub namespace name =
    codes "auth.identity.selected_subscription_key == \""
    ++ (((sub.namespace ++ b'/' ∷ sub.name) ++ b'@' ∷ (namespace ++ b'/' ∷ name))
        ++ codes "\" && !request.path.endsWith(\"/v1/models\")")

-- The limits of a reference: its own, all of them valid, or 100 in a minute where it has none.
abbrev pub HasRates : ModelSubscriptionRef → List LimitSpec → Type 0
unfolding codes
HasRates ref rates =
    ((ref.token_rate_limits ≡ []) × (rates ≡ record { limit = pos 100; window = codes "1m" } ∷ []))
    ⊎ ((ref.token_rate_limits ≢ [])
        × (rates ≡ ref.token_rate_limits)
        × All (λ (s : LimitSpec). validate_token_rate_limit s.limit s.window ≡ none) rates)

-- The entry limits the requests to a model that select the subscription, each user apart.
pub record IsLimitOf (namespace name : Text) (sub : MaasSubscription) (entry : LimitEntry)
    : Type 0 where
  pub ref : ModelSubscriptionRef
  pub listed : Memᴰ ref sub.model_refs
  pub same_namespace : ref.namespace ≡ namespace
  pub same_name : ref.name ≡ name
  pub rated : HasRates ref entry.rates
  pub admits : entry.predicate ≡ predicate_of sub namespace name
  pub counted : entry.counter ≡ codes "auth.identity.userid"

IsRated-HasRates :
    (ref : ModelSubscriptionRef) (rates : List LimitSpec) → IsRated ref rates → HasRates ref rates
unfolding default_rate codes
IsRated-HasRates ref rates h = h

key_of-limit_key :
    (info : SubInfo) (name : Text)
    → info.model_ref.name ≡ name
    → limit_key info ≡ key_of info.sub name
unfolding limit_key model_key codes
key_of-limit_key info name e =
    ap
      (λ (n : Text).
        replace_all b'/' b'-' (info.sub.namespace ++ b'/' ∷ info.sub.name)
        ++ (codes "-" ++ (n ++ codes "-tokens")))
      e

entry-IsLimitOf :
    (namespace name : Text) (subs : List MaasSubscription) (info : SubInfo)
    → IsLimited namespace name subs info
    → IsLimitOf namespace name info.sub (limit_entry info)
unfolding limit_entry model_scoped_ref limit_predicate model_key codes
entry-IsLimitOf namespace name subs info h = record {
  ref = info.model_ref;
  listed = h.listed;
  same_namespace = h.same_namespace;
  same_name = h.same_name;
  rated = IsRated-HasRates info.model_ref info.rates h.rated;
  admits =
      ap (λ (n : Text). predicate_of info.sub n info.model_ref.name) h.same_namespace
      ∙ ap (λ (n : Text). predicate_of info.sub namespace n) h.same_name;
  counted = refl;
}

-- Every limit of a list of subscriptions is the limit of one of them.
pub limits_map-IsLimitOf :
    (namespace name : Text) (subs : List MaasSubscription) (key : Text) (entry : LimitEntry)
    → lookup_key (limits_map (sub_infos namespace name subs)) key ≡ some entry
    → (sub : MaasSubscription) × Memᴰ sub subs
      × (key ≡ key_of sub name)
      × IsLimitOf namespace name sub entry
unfolding limits_map assignment lookup_key
limits_map-IsLimitOf namespace name subs key entry h =
    let infos = sub_infos namespace name subs in
    elim (lookup-set_keys (map assignment infos) [] key h) [
      | inl mem ↦
          let (info, there, e) = Memᴰ-of_map assignment infos mem in
          let limited = info-IsLimited namespace name subs there in
          (
            info.sub,
            limited.live,
            ap (λ z. z.0) e ∙ key_of-limit_key info name limited.same_name,
            subst (IsLimitOf namespace name info.sub) (sym (ap (λ z. z.1) e))
                (entry-IsLimitOf namespace name subs info limited),
          )
      | inr nothing ↦ absurd (none-some nothing)
    ]

-- Of subscriptions with keys of their own, each one with a valid reference has its limit.
kept :
    (namespace name : Text) (subs : List MaasSubscription) (sub : MaasSubscription)
    (ref : ModelSubscriptionRef)
    → Memᴰ sub subs
    → Memᴰ ref sub.model_refs
    → ref.namespace ≡ namespace
    → ref.name ≡ name
    → All
        (λ (s : LimitSpec). validate_token_rate_limit s.limit s.window ≡ none)
        ref.token_rate_limits
    → ((other : MaasSubscription)
        → Memᴰ other subs
        → key_of other name ≡ key_of sub name
        → other ≡ sub)
    → (entry : LimitEntry) × (lookup_key
          (limits_map (sub_infos namespace name subs))
          (key_of sub name)
        ≡ some entry)
      × IsLimitOf namespace name sub entry
unfolding limits_map assignment
kept namespace name subs sub ref live listed same_namespace same_name valid unique =
    let infos = sub_infos namespace name subs in
    let (rates, known) = valid-rates_of ref valid in
    let model = (names-model namespace name ref).1 (same_namespace, same_name) in
    let (info, found) =
      first_reference_complete namespace name sub sub.model_refs ref listed model known in
    let mem = sub_infos-complete namespace name subs sub live found in
    let (owner, _, _, _) = first_reference_sound namespace name sub sub.model_refs found in
    let limited = info-IsLimited namespace name subs mem in
    let own_key : limit_key info ≡ key_of sub name =
      key_of-limit_key info name limited.same_name ∙ ap (λ z. key_of z name) owner in
    let only = λ (u : LimitEntry) (other : Memᴰ (limit_key info, u) (map assignment infos)).
      let (b, in_infos, e) = Memᴰ-of_map assignment infos other in
      let limited_b = info-IsLimited namespace name subs in_infos in
      let same_key : key_of b.sub name ≡ key_of sub name =
        sym (key_of-limit_key b name limited_b.same_name) ∙ sym (ap (λ z. z.0) e) ∙ own_key in
      let same_sub : b.sub ≡ sub = unique b.sub limited_b.live same_key in
      let first_b = infos-first_reference namespace name subs in_infos in
      let both : Path (Option SubInfo) (some b) (some info) =
        sym first_b
        ∙ ap (λ (z : MaasSubscription). first_reference namespace name z z.model_refs) same_sub
        ∙ found in
      let same : b ≡ info = cc in ap (λ z. z.1) e ∙ ap limit_entry same in
    (
      limit_entry info,
      subst
          (λ (k : Text).
            lookup_key (limits_map (sub_infos namespace name subs)) k ≡ some (limit_entry info))
          own_key
          (set_keys-lookup (map assignment infos) [] (limit_key info) (limit_entry info) only
            (inl (Memᴰ-map assignment infos mem))),
      subst (λ (z : MaasSubscription). IsLimitOf namespace name z (limit_entry info)) owner
          (entry-IsLimitOf namespace name subs info limited),
    )

-- The limits that a policy sets.
abbrev pub limits_of_spec : PolicySpec → List (Text × LimitEntry)
limits_of_spec (limits_for route limits) = limits
limits_of_spec (foreign_spec text) = []

abbrev pub limits_in : Policy → List (Text × LimitEntry)
limits_in p = limits_of_spec p.spec

limits_in-policy_of :
    (namespace name route_name route_namespace : Text) (infos : List SubInfo)
    → limits_in (policy_of namespace name route_name route_namespace infos) ≡ limits_map infos
unfolding policy_of
limits_in-policy_of namespace name route_name route_namespace infos = refl

-- Every limit of the policy that is built from a list of subscriptions is the limit of one of them.
pub policy_of-IsLimitOf :
    (namespace name route_name route_namespace : Text) (subs : List MaasSubscription) (key : Text)
    (entry : LimitEntry)
    → lookup_key
        (limits_in
          (policy_of namespace name route_name route_namespace (sub_infos namespace name subs)))
        key
      ≡ some entry
    → (sub : MaasSubscription) × Memᴰ sub subs
      × (key ≡ key_of sub name)
      × IsLimitOf namespace name sub entry
policy_of-IsLimitOf namespace name route_name route_namespace subs key entry h =
    let infos = sub_infos namespace name subs in
    limits_map-IsLimitOf namespace name subs key entry (
      ap (λ z. lookup_key z key)
        (sym (limits_in-policy_of namespace name route_name route_namespace infos))
      ∙ h)

abbrev pub is_live : MaasSubscription → Bool
is_live s = not s.is_deleting

module _ {W R : Type 0} (client : Client W R) (w : W) where
  find_all_lem :
      (namespace name : Text) (all : List MaasSubscription)
      → (client.list_subscriptions (namespace ++ b'/' ∷ name) w).0 ≡ ok all
      → (find_all_subscriptions_for_model client namespace name w).0 ≡ ok (filter is_live all)
  unfolding find_all_subscriptions_for_model model_key
  find_all_lem namespace name all h = ground (arith, h)

  find_all_ok :
      (namespace name : Text) (subs : List MaasSubscription)
      → (find_all_subscriptions_for_model client namespace name w).0 ≡ ok subs
      → (all : List MaasSubscription) × ((client.list_subscriptions (namespace ++ b'/' ∷ name) w).0
          ≡ ok all)
        × (subs ≡ filter is_live all)
  unfolding find_all_subscriptions_for_model model_key
  find_all_ok namespace name subs h =
      elim (Result-cases (client.list_subscriptions (namespace ++ b'/' ∷ name) w).0) [
        | inl (all, listed) ↦ (all, listed, ground (arith, listed))
        | inr (e, bad) ↦ absurd (ground (arith, bad))
      ]

  -- Every limit of the policy that is built for a model comes from a subscription that the cluster
  -- lists for the model, that is not being deleted and that references the model: its rates are
  -- the ones of the reference, each of them valid, or 100 tokens a minute where the reference has
  -- none; its predicate compares the selected subscription with this subscription and model; it
  -- counts by user.
  pub policy_sound :
      (namespace name route_name route_namespace : Text) (subs : List MaasSubscription) (key : Text)
      (entry : LimitEntry)
      → (find_all_subscriptions_for_model client namespace name w).0 ≡ ok subs
      → lookup_key
          (limits_in
            (policy_of namespace name route_name route_namespace (sub_infos namespace name subs)))
          key
        ≡ some entry
      → (all : List MaasSubscription) × (sub : MaasSubscription) × ((client.list_subscriptions
            (namespace ++ b'/' ∷ name)
            w).0
          ≡ ok all)
        × Memᴰ sub all
        × (sub.is_deleting ≡ false)
        × (key ≡ key_of sub name)
        × IsLimitOf namespace name sub entry
  policy_sound namespace name route_name route_namespace subs key entry found h =
      let (all, listed, e) = find_all_ok namespace name subs found in
      let (sub, mem, same_key, limit) =
        policy_of-IsLimitOf namespace name route_name route_namespace subs key entry h in
      let (there, live) = Memᴰ-filter is_live all (subst (λ z. Memᴰ sub z) e mem) in
      (all, sub, listed, there, ground arith, same_key, limit)

  -- A subscription that the cluster lists for a model, that is not being deleted and that has a
  -- reference to the model with valid limits, or with none, has its limit in the policy of the
  -- model, if no other listed one that is not being deleted has the same key.
  pub policy_complete :
      (namespace name route_name route_namespace : Text) (all : List MaasSubscription)
      (sub : MaasSubscription) (ref : ModelSubscriptionRef)
      → (client.list_subscriptions (namespace ++ b'/' ∷ name) w).0 ≡ ok all
      → Memᴰ sub all
      → sub.is_deleting ≡ false
      → Memᴰ ref sub.model_refs
      → ref.namespace ≡ namespace
      → ref.name ≡ name
      → All
          (λ (s : LimitSpec). validate_token_rate_limit s.limit s.window ≡ none)
          ref.token_rate_limits
      → ((other : MaasSubscription)
          → Memᴰ other all
          → other.is_deleting ≡ false
          → key_of other name ≡ key_of sub name
          → other ≡ sub)
      → (subs : List MaasSubscription) × (entry : LimitEntry) × ((find_all_subscriptions_for_model
            client namespace name w).0
          ≡ ok subs)
        × (lookup_key
              (limits_in (
                policy_of namespace name route_name route_namespace
                  (sub_infos namespace name subs)))
              (key_of sub name)
            ≡ some entry)
        × IsLimitOf namespace name sub entry
  policy_complete namespace name route_name route_namespace all sub ref listed there alive mem
        same_namespace same_name valid unique =
      let subs = filter is_live all in
      let live : Memᴰ sub subs = filter-Memᴰ is_live all there (ground arith) in
      let (entry, found, limit) =
        kept namespace name subs sub ref live mem same_namespace same_name valid (λ other m.
          let (m', live') = Memᴰ-filter is_live all m in unique other m' (ground arith)) in
      (
        subs,
        entry,
        find_all_lem namespace name all listed,
        ap (λ z. lookup_key z (key_of sub name))
              (limits_in-policy_of namespace name route_name route_namespace
                (sub_infos namespace name subs))
            ∙ found,
        limit,
      )
