-- ===== src/Controller/Tests.antt =====
-- Runs of the reconciler of subscriptions, and its theorems at concrete inputs.
use models_as_a_service_mids.Prelude.{
  ℕ, ◌≤◌, Text, codes, ◌==◌, eq_iff, ◌≡◌, ◌≢◌, ◌↔◌, refl, sym, ap, List, [], ◌∷◌, ◌++◌, Memᴰ, none,
  some, true, false, any, All, contains_char, Result, ok, err, arith, if◌then◌else◌,
}
use models_as_a_service_mids.Prelude.Int.{pos}
use models_as_a_service_mids.Controller.Types.{
  active, failed, LimitSpec, ModelSubscriptionRef, ClientError, missing, model_key, ref_key,
  no_status, conditions,
}
use models_as_a_service_mids.Controller.RateLimit.{validate_token_rate_limit}
use models_as_a_service_mids.Controller.RateLimit.Bounds.{validate_token_rate_limit_iff, IsWindow}
use models_as_a_service_mids.Controller.Status.{
  ReadModel, FindRoute, ReadPolicy, model_not_found, validate_model_refs, derive_status,
  policy_name, get_trlp_accepted_condition, first_accepted, is_accepted_condition,
  condition_outcome, is_text,
}
use models_as_a_service_mids.Controller.Status.Health.{IsServed, derive_status-active_iff}
use models_as_a_service_mids.Controller.Status.Collision.{derive_status-same_name}
use models_as_a_service_mids.Controller.Run.Logs.{Calls}
use models_as_a_service_mids.Controller.Texts.{lookup_key}
use models_as_a_service_mids.Controller.Cluster.{
  MaasSubscription, ModelRef, Policy, LimitEntry, foreign_spec, Call, Client,
}
use models_as_a_service_mids.Controller.Limits.{
  SubInfo, sub_infos, default_rate, limits_map, policy_of, limit_key, limit_entry,
}
use models_as_a_service_mids.Controller.Limits.Live.{key_of, IsLimitOf, limits_in, policy_complete}
use models_as_a_service_mids.Controller.Limits.Collision.{limits_map-collision}
use models_as_a_service_mids.Controller.Routes.{find_all_subscriptions_for_model}
use models_as_a_service_mids.Controller.Policies.{reconcile_trlp_for_model}
use models_as_a_service_mids.Controller.Reconcile.{reconcile, reconcile_policies}
use models_as_a_service_mids.Controller.OptOut.Reconcile.{IsRespectful, reconcile-respects}
use models_as_a_service_mids.Controller.Sent.{SendsLimits, reconcile_trlp_for_model-SendsLimits}
use models_as_a_service_mids.Controller.Skipped.{active_without_limit}
use models_as_a_service_mids.Controller.Quiet.Reads.{IsQuiet}
use models_as_a_service_mids.Controller.Quiet.Report.{model_now, route_now, policy_now}
use models_as_a_service_mids.Controller.Quiet.Written.{Writes}
use models_as_a_service_mids.Controller.Quiet.Phase.{reconcile-active_iff}

abbrev ref_to : Text → Text → ModelSubscriptionRef
ref_to namespace name = record { name = name; namespace = namespace; token_rate_limits = [] }

unfoldable llm : ModelSubscriptionRef
unfolding codes
llm = ref_to (codes "models") (codes "llm")

unfoldable other_llm : ModelSubscriptionRef
unfolding codes
other_llm = ref_to (codes "staging") (codes "llm")

abbrev subscription : Text → Text → List ModelSubscriptionRef → MaasSubscription
subscription namespace name refs = record {
  name = name;
  namespace = namespace;
  is_deleting = true;
  generation = pos 1;
  finalizers = [];
  priority = pos 0;
  model_refs = refs;
  status = record {
    phase = none;
    conditions = [];
    model_ref_statuses = [];
    token_rate_limit_statuses = [];
  };
}

unfoldable gold : MaasSubscription
unfolding codes llm
gold = subscription (codes "team") (codes "gold") (llm ∷ [])

-- A policy that is opted out.
unfoldable opted_out : Policy
unfolding codes policy_name
opted_out = record {
  name = policy_name (codes "llm");
  namespace = codes "models";
  labels = [];
  annotations = (codes "opendatahub.io/managed", codes "false") ∷ [];
  owners = [];
  spec = foreign_spec [];
  status = no_status;
}

-- A cluster that never changes, with the subscription, the model or none, and the opted-out policy.
unfoldable cluster : Result ClientError ModelRef → Client (Unit {0}) (Unit {0})
unfolding gold opted_out
cluster model = record {
  list_subscriptions = λ key w. (ok [], w);
  list_all_subscriptions = λ w. (ok (gold ∷ []), w);
  get_subscription = λ namespace name w. (ok gold, w);
  get_model = λ namespace name w. (model, w);
  get_route = λ namespace name w. (ok tt, w);
  list_routes = λ namespace labels w. (ok [], w);
  get_policy = λ namespace name w. (ok opted_out, w);
  list_policies = λ labels w. (ok [], w);
  send_create = λ p w. (ok tt, w);
  send_update = λ p w. (ok tt, w);
  send_delete = λ p w. (ok tt, w);
  send_subscription = λ s w. (ok s, w);
  send_status = λ s w. (ok tt, w);
  set_owner = λ route p. ok p;
  same_policy = λ p q. false;
  same_status = λ s t. false;
  find_condition = λ conditions name. none;
  set_condition = λ conditions c. c ∷ conditions;
  has_finalizer = λ finalizers name. true;
  add_finalizer = λ finalizers name. name ∷ finalizers;
  remove_finalizer = λ finalizers name. [];
}

abbrev model_llm : ModelRef
unfolding codes
model_llm = record {
  name = codes "llm";
  namespace = codes "models";
  is_deleting = false;
  kind = codes "ExternalModel";
  target = codes "llm";
}

cluster_keeps :
    (m : Result ClientError ModelRef) (route : Unit {0}) (p q : Policy)
    → (cluster m).set_owner route p ≡ ok q
    → q.annotations ≡ p.annotations
unfolding cluster
cluster_keeps m route p q h = let same : p ≡ q = cc in ap (λ (z : Policy). z.annotations) (sym same)

reconcile-respects_example :
    Calls IsRespectful (reconcile (cluster (ok model_llm)) (codes "team") (codes "gold"))
reconcile-respects_example =
    reconcile-respects (cluster (ok model_llm)) (cluster_keeps (ok model_llm)) (codes "team")
      (codes "gold")

validate_token_rate_limit_example :
    (validate_token_rate_limit (pos 100) (codes "1m") ≡ none)
    ↔ ((n : ℕ) × (pos 100 ≡ pos n) × (1 ≤ n) × (n ≤ 1_000_000_000) × IsWindow (codes "1m"))
validate_token_rate_limit_example = validate_token_rate_limit_iff (pos 100) (codes "1m")

abbrev accepting : ReadPolicy
unfolding codes
accepting namespace name = ok (
    conditions (
      some (record {
        type_name = some (codes "Accepted");
        status = some (codes "True");
        message = none;
      })
      ∷ []))

derive_status-active_example :
    ((derive_status
        (λ _ _. ok tt)
        (λ namespace name. ok (name, namespace))
        accepting
        (llm ∷ [])).phase
      ≡ active)
    ↔ ((llm ∷ [] ≢ [])
        × All
            (λ (ref : ModelSubscriptionRef).
              IsServed
                (λ _ _. ok tt)
                (λ namespace name. ok (name, namespace))
                accepting
                ref.namespace
                ref.name)
            (llm ∷ []))
unfolding contains_char any codes llm
derive_status-active_example =
    derive_status-active_iff (λ _ _. ok tt) (λ namespace name. ok (name, namespace)) accepting
      (llm ∷ []) (refl, tt)

unfoldable info_of : Text → Text → SubInfo
unfolding llm default_rate
info_of namespace name = record {
  sub = subscription namespace name (llm ∷ []);
  model_ref = llm;
  rates = default_rate ∷ [];
}

abbrev gold_info : SubInfo
unfolding codes gold llm default_rate info_of
gold_info = info_of (codes "team") (codes "gold")

-- The cluster that lists the subscription as a live one.
abbrev live_gold : MaasSubscription
live_gold = record gold { is_deleting = false }

unfoldable listing : Client (Unit {0}) (Unit {0})
listing = record (cluster (ok model_llm)) { list_subscriptions = λ key w. (ok (live_gold ∷ []), w) }

-- The same, where the model has no policy yet.
unfoldable fresh : Client (Unit {0}) (Unit {0})
unfolding cluster listing
fresh = record listing { get_policy = λ namespace name w. (err (missing []), w) }

fresh_keeps : (route : Unit {0}) (p q : Policy) → fresh.set_owner route p ≡ ok q → q.spec ≡ p.spec
unfolding fresh listing cluster
fresh_keeps route p q h = let same : p ≡ q = cc in ap (λ (z : Policy). z.spec) (sym same)

reconcile_trlp_for_model-SendsLimits_example :
    All
      (SendsLimits fresh (codes "models") (codes "llm") tt)
      (reconcile_trlp_for_model fresh (codes "models") (codes "llm") tt).2
reconcile_trlp_for_model-SendsLimits_example =
    reconcile_trlp_for_model-SendsLimits fresh (codes "models") (codes "llm") tt fresh_keeps

only_one {ℓ} : {A : Type ℓ} {a b : A} → Memᴰ a (b ∷ []) → a ≡ b
only_one (Memᴰ.head e) = e
only_one (Memᴰ.tail m) = elim m [ ]

policy_complete_example :
    (subs : List MaasSubscription) × (entry : LimitEntry) × ((find_all_subscriptions_for_model
        listing
        (codes "models")
        (codes "llm")
        tt).0
      ≡ ok subs)
    × (lookup_key
          (limits_in (
            policy_of
              (codes "models")
              (codes "llm")
              (codes "route")
              (codes "models")
              (sub_infos (codes "models") (codes "llm") subs)))
          (key_of live_gold (codes "llm"))
        ≡ some entry)
    × IsLimitOf (codes "models") (codes "llm") live_gold entry
unfolding listing cluster gold llm codes
policy_complete_example =
    policy_complete listing tt (codes "models") (codes "llm") (codes "route") (codes "models")
      (live_gold ∷ []) live_gold llm refl (Memᴰ.head refl) refl (Memᴰ.head refl) refl refl tt
      (λ other m _ _. only_one m)

limits_map-collision_example :
    limits_map (info_of (codes "a") (codes "b-c") ∷ info_of (codes "a-b") (codes "c") ∷ [])
    ≡ (
      limit_key (info_of (codes "a-b") (codes "c")),
      limit_entry (info_of (codes "a-b") (codes "c")),
    )
      ∷ []
unfolding codes info_of
limits_map-collision_example =
    limits_map-collision (info_of (codes "a") (codes "b-c")) (info_of (codes "a-b") (codes "c"))
      (codes "a") (codes "b") (codes "c") refl refl refl refl refl

other_key : ref_key llm ≢ ref_key other_llm
unfolding llm other_llm codes ◌==◌ model_key
other_key e = absurd (ground (arith, (eq_iff (ref_key llm) (ref_key other_llm)).1 e))

-- The cluster that has the model in the namespace `models` only.
abbrev only_models : ReadModel
unfolding codes
only_models namespace name = if namespace == codes "models" then ok tt else err (missing [])

abbrev only_routes : FindRoute
unfolding codes
only_routes namespace name =
    if namespace == codes "models" then ok (name, namespace) else err (model_not_found [])

llm-IsServed : IsServed only_models only_routes accepting llm.namespace llm.name
unfolding llm codes ◌==◌ get_trlp_accepted_condition first_accepted is_accepted_condition
    condition_outcome is_text
llm-IsServed = record {
  exists_model = refl;
  route = llm.name;
  route_namespace = llm.namespace;
  routed = refl;
  status = conditions (
      some (record {
        type_name = some (codes "Accepted");
        status = some (codes "True");
        message = none;
      })
      ∷ []);
  read = refl;
  is_accepted = refl;
}

derive_status-same_name_example :
    (derive_status only_models only_routes accepting (llm ∷ other_llm ∷ [])).phase ≡ failed
unfolding llm other_llm codes ◌==◌
derive_status-same_name_example =
    derive_status-same_name only_models only_routes accepting llm other_llm refl other_key
      llm-IsServed refl refl

-- The cluster that has the subscription as a live one.
unfoldable serving : Client (Unit {0}) (Unit {0})
unfolding cluster
serving = record (cluster (ok model_llm)) {
  get_subscription = λ namespace name w. (ok live_gold, w);
}

serving-IsQuiet : (w : Unit {0}) → IsQuiet serving w
unfolding serving cluster
serving-IsQuiet w = record {
  models = λ namespace name. refl;
  routes = λ namespace name. refl;
  lists = λ namespace labels. refl;
  policies = λ namespace name. refl;
}

reconcile-active_example :
    let p =
      reconcile_policies serving live_gold
        (validate_model_refs (model_now serving tt) live_gold.model_refs)
        tt in
    let r = reconcile serving (codes "team") (codes "gold") tt in
    (written : MaasSubscription) × (calls : List Call) × (written.name ≡ live_gold.name)
    × (written.namespace ≡ live_gold.namespace)
    × (r.0 ≡ p.0)
    × (r.2 ≡ p.2 ++ calls)
    × Writes serving live_gold.status written calls
    × ((written.status.phase ≡ some active) ↔ (
        (p.0 ≡ ok tt)
        × (live_gold.model_refs ≢ [])
        × All
            (λ (ref : ModelSubscriptionRef).
              IsServed
                (model_now serving tt)
                (route_now serving p.1)
                (policy_now serving p.1)
                ref.namespace
                ref.name)
            live_gold.model_refs))
unfolding serving cluster gold llm codes contains_char any
reconcile-active_example =
    reconcile-active_iff serving (codes "team") (codes "gold") live_gold tt refl refl refl
      (refl, tt) (serving-IsQuiet tt) (serving-IsQuiet _)

abbrev no_limit : LimitSpec
unfolding codes
no_limit = record { limit = pos 0; window = codes "1m" }

abbrev unlimited : ModelSubscriptionRef
unfolding codes
unlimited = record {
  name = codes "llm";
  namespace = codes "models";
  token_rate_limits = no_limit ∷ [];
}

unlimited-IsServed : IsServed only_models only_routes accepting unlimited.namespace unlimited.name
unfolding llm
unlimited-IsServed = llm-IsServed

active_without_limit_example :
    ((derive_status only_models only_routes accepting (unlimited ∷ [])).phase ≡ active)
    × ((route_name route_namespace : Text) (subs : List MaasSubscription) (k : Text)
          (entry : LimitEntry)
        → lookup_key
            (limits_in (
              policy_of unlimited.namespace unlimited.name route_name route_namespace
                (sub_infos unlimited.namespace unlimited.name subs)))
            k
          ≡ some entry
        → (other : MaasSubscription) × Memᴰ other subs
          × (other ≢ subscription (codes "team") (codes "gold") (unlimited ∷ []))
          × (k ≡ key_of other unlimited.name)
          × IsLimitOf unlimited.namespace unlimited.name other entry)
unfolding validate_token_rate_limit contains_char any codes
active_without_limit_example =
    active_without_limit only_models only_routes accepting
      (subscription (codes "team") (codes "gold") (unlimited ∷ [])) unlimited no_limit refl
      (Memᴰ.head refl) refl refl unlimited-IsServed
