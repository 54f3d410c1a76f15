-- ===== src/Controller/Limits.antt =====
-- `reconcileTRLPForModel`: the limits and the policy that it builds for a model.
pub mod Maps
pub mod Entries
pub mod Sources
pub mod Collision
pub mod Live
use models_as_a_service_mids.Prelude.{
  ℕ, Text, codes, ◌==◌, text_ltb, List, [], ◌∷◌, ◌++◌, map, Option, none, some, Bool, true, false,
  ◌&&◌, is_nil, sort_stable, if◌then◌else◌,
}
use models_as_a_service_mids.Prelude.Int.{ℤ, pos}
use models_as_a_service_mids.Controller.Types.{
  LimitSpec, ModelSubscriptionRef, no_status, model_key,
}
use models_as_a_service_mids.Controller.RateLimit.{validate_token_rate_limit}
use models_as_a_service_mids.Controller.Status.{policy_name}
use models_as_a_service_mids.Controller.Texts.{join, replace_all, set_key, set_keys}
use models_as_a_service_mids.Controller.Cluster.{
  Labels, MaasSubscription, LimitEntry, PolicySpec, limits_for, Policy,
}

-- `subInfo`
pub record SubInfo : Type 0 where
  pub sub : MaasSubscription
  pub model_ref : ModelSubscriptionRef
  pub rates : List LimitSpec

abbrev also : LimitSpec → Option (List LimitSpec) → Option (List LimitSpec)
also spec none = none
also spec (some rates) = some (spec ∷ rates)

-- The loop over `mRef.TokenRateLimits`: none once a limit is invalid.
unfoldable pub checked_rates : List LimitSpec → Option (List LimitSpec)
unfolding validate_token_rate_limit
checked_rates [] = some []
checked_rates (spec ∷ specs) =
    let rest = also spec (checked_rates specs) in
    elim (validate_token_rate_limit spec.limit spec.window) [ none ↦ rest | some _ ↦ none ]

unfoldable pub default_rate : LimitSpec
unfolding codes
default_rate = record { limit = pos 100; window = codes "1m" }

unfoldable pub rates_of : ModelSubscriptionRef → Option (List LimitSpec)
unfolding checked_rates default_rate
rates_of ref =
    if is_nil ref.token_rate_limits
    then some (default_rate ∷ [])
    else checked_rates ref.token_rate_limits

abbrev pub is_model : Text → Text → ModelSubscriptionRef → Bool
is_model namespace name ref = ref.namespace == namespace && ref.name == name

-- The loop over the references of a subscription: the first to the model with valid limits.
unfoldable pub first_reference :
    Text → Text → MaasSubscription → List ModelSubscriptionRef → Option SubInfo
unfolding rates_of
first_reference namespace name sub [] = none
first_reference namespace name sub (ref ∷ refs) =
    let later = first_reference namespace name sub refs in
    let here : Option SubInfo = elim (rates_of ref) [
      | none ↦ later
      | some rates ↦ some (record { sub = sub; model_ref = ref; rates = rates })
    ] in
    if is_model namespace name ref then here else later

abbrev pub keep_info : Option SubInfo → List SubInfo → List SubInfo
keep_info none infos = infos
keep_info (some info) infos = info ∷ infos

unfoldable pub sub_infos : Text → Text → List MaasSubscription → List SubInfo
unfolding first_reference
sub_infos namespace name [] = []
sub_infos namespace name (sub ∷ subs) =
    keep_info (first_reference namespace name sub sub.model_refs) (sub_infos namespace name subs)

-- `subNamespace/subName@modelNamespace/modelName`
unfoldable pub model_scoped_ref : MaasSubscription → ModelSubscriptionRef → Text
unfolding model_key
model_scoped_ref sub ref =
    model_key sub.namespace sub.name ++ b'@' ∷ model_key ref.namespace ref.name

unfoldable pub limit_key : SubInfo → Text
unfolding model_key replace_all codes
limit_key info =
    replace_all b'/' b'-' (model_key info.sub.namespace info.sub.name)
    ++ (codes "-" ++ (info.model_ref.name ++ codes "-tokens"))

unfoldable pub limit_predicate : Text → Text
unfolding codes
limit_predicate scoped =
    codes "auth.identity.selected_subscription_key == \""
    ++ (scoped ++ codes "\" && !request.path.endsWith(\"/v1/models\")")

unfoldable pub limit_entry : SubInfo → LimitEntry
unfolding model_scoped_ref limit_predicate codes
limit_entry info = record {
  rates = info.rates;
  predicate = limit_predicate (model_scoped_ref info.sub info.model_ref);
  counter = codes "auth.identity.userid";
}

unfoldable pub assignment : SubInfo → Text × LimitEntry
unfolding limit_key limit_entry
assignment info = (limit_key info, limit_entry info)

-- `limitsMap`, whose later entries replace earlier ones of the same key.
unfoldable pub limits_map : List SubInfo → List (Text × LimitEntry)
unfolding assignment set_keys
limits_map infos = set_keys (map assignment infos) []

unfoldable pub managed_labels : Labels
unfolding codes
managed_labels =
    (codes "app.kubernetes.io/managed-by", codes "maas-controller")
    ∷ (codes "app.kubernetes.io/part-of", codes "maas-subscription")
    ∷ []

unfoldable pub model_labels : Text → Text → Labels
unfolding codes managed_labels
model_labels namespace name =
    (codes "maas.opendatahub.io/model", name)
    ∷ (codes "maas.opendatahub.io/model-namespace", namespace)
    ∷ managed_labels

unfoldable pub subscriptions_annotation : List SubInfo → List (Text × Text)
unfolding codes text_ltb sort_stable join
subscriptions_annotation infos =
    (
      codes "maas.opendatahub.io/subscriptions",
      join (codes ",") (sort_stable text_ltb (map (λ (info : SubInfo). info.sub.name) infos)),
    )
    ∷ []

-- The policy of a model, in the namespace of its route.
unfoldable pub policy_of :
    (model_namespace model_name route_name route_namespace : Text) → List SubInfo → Policy
unfolding policy_name model_labels subscriptions_annotation limits_map codes
policy_of model_namespace model_name route_name route_namespace infos = record {
  name = policy_name model_name;
  namespace = route_namespace;
  labels =
      model_labels model_namespace model_name
      ++ ((codes "app.kubernetes.io/component", codes "token-rate-limit-policy") ∷ []);
  annotations = subscriptions_annotation infos;
  owners = [];
  spec = limits_for route_name (limits_map infos);
  status = no_status;
}
