-- ===== src/Subscription/Parse.antt =====
-- selector.go: loading and parsing the MaaSSubscription objects of the cluster.
pub mod Limits
mod Tests
use models_as_a_service_mids.Prelude.{
  ℕ, Text, codes, ◌==◌, trim_space, List, [], ◌∷◌, map, Option, none, some, Bool, true, false, ◌||◌,
  ltb, is_nil, Result, ok, err, if◌then◌else◌,
}
use models_as_a_service_mids.Prelude.Int.{ℤ, pos, negsuc, ltb_ℤ}
use models_as_a_service_mids.Controller.Texts.{lookup_key, text_at}
use models_as_a_service_mids.Subscription.Types.{
  TokenRateLimit, BillingRate, ModelRefInfo, TokenRateLimitStatus, Labels, Subscription,
}

-- The values of an unstructured object, and the type assertions on them, which are parameters.
pub record Values (V : Type 0) : Type 0 where
  pub as_text : V → Option Text
  pub as_int : V → Option ℤ
  pub as_bool : V → Option Bool
  pub as_map : V → Option (List (Text × V))
  pub as_list : V → Option (List V)

-- An unstructured object: its metadata and its content.
pub record Object (V : Type 0) : Type 0 where
  pub name : Text
  pub namespace : Text
  pub annotations : List (Text × Text)
  pub content : List (Text × V)

abbrev pub or_text : Option Text → Text
or_text none = []
or_text (some t) = t

-- The values that a type assertion holds of, converted.
unfoldable pub keep_some {ℓ κ} : {A : Type ℓ} {B : Type κ} → (A → Option B) → List A → List B
keep_some f [] = []
keep_some f (x ∷ xs) = let rest = keep_some f xs in elim (f x) [ none ↦ rest | some y ↦ y ∷ rest ]

-- All of them, if the assertion holds of every value.
unfoldable pub all_some {ℓ κ} :
    {A : Type ℓ} {B : Type κ} → (A → Option B) → List A → Option (List B)
all_some f [] = some []
all_some f (x ∷ xs) =
    let rest = all_some f xs in
    elim (f x) [ none ↦ none | some y ↦ elim rest [ none ↦ none | some ys ↦ some (y ∷ ys) ] ]

abbrev pub or_nil {ℓ} : {A : Type ℓ} → Option (List A) → List A
or_nil none = []
or_nil (some xs) = xs

-- `sub.MaxLimit` after a loop over limits.
unfoldable pub max_of_limits : List TokenRateLimit → ℤ → ℤ
max_of_limits [] max = max
max_of_limits (l ∷ ls) max = max_of_limits ls (if ltb_ℤ max l.limit then l.limit else max)

unfoldable pub max_of_refs : List ModelRefInfo → ℤ → ℤ
unfolding max_of_limits
max_of_refs [] max = max
max_of_refs (ref ∷ refs) max = max_of_refs refs (max_of_limits ref.token_rate_limits max)

-- A priority that is no int32, or is negative, is left at 0.
unfoldable pub parse_priority : Option ℤ → ℕ
parse_priority (some (pos n)) = if ltb 2_147_483_647 n then 0 else n
parse_priority (some (negsuc n)) = 0
parse_priority none = 0

module _ {V : Type 0} (values : Values V) where
  abbrev pub Fields : Type 0
  Fields = List (Text × V)

  -- `m[key].(T)`, and the `Nested` functions, which find a field of the type they ask for.
  unfoldable pub field {ℓ} : {A : Type ℓ} → (V → Option A) → Fields → Text → Option A
  unfolding lookup_key
  field cast m key = elim (lookup_key m key) [ none ↦ none | some v ↦ cast v ]

  abbrev pub text_field : Fields → Text → Text
  text_field m key = or_text (field values.as_text m key)

  -- The maps among the values of a list.
  unfoldable pub maps_field : Fields → Text → List Fields
  unfolding field keep_some
  maps_field m key = keep_some values.as_map (or_nil (field values.as_list m key))

  unfoldable pub parse_limit : Fields → TokenRateLimit
  unfolding codes field
  parse_limit m = record {
    limit = elim (field values.as_int m (codes "limit")) [ none ↦ pos 0 | some n ↦ n ];
    window = text_field m (codes "window");
  }

  unfoldable pub parse_billing_rate : Option Fields → Option BillingRate
  unfolding codes field
  parse_billing_rate none = none
  parse_billing_rate (some m) = some (record { per_token = text_field m (codes "perToken") })

  unfoldable pub parse_model_ref : Fields → ModelRefInfo
  unfolding codes field maps_field parse_limit parse_billing_rate
  parse_model_ref m = record {
    name = text_field m (codes "name");
    namespace = text_field m (codes "namespace");
    token_rate_limits = map parse_limit (maps_field m (codes "tokenRateLimits"));
    billing_rate = parse_billing_rate (field values.as_map m (codes "billingRate"));
  }

  unfoldable pub parse_status : Fields → TokenRateLimitStatus
  unfolding codes field
  parse_status m = record {
    model = text_field m (codes "model");
    name = text_field m (codes "name");
    namespace = text_field m (codes "namespace");
    ready = elim (field values.as_bool m (codes "ready")) [ none ↦ false | some b ↦ b ];
    reason = text_field m (codes "reason");
    message = text_field m (codes "message");
  }

  -- The first condition of type Ready is asked for its status.
  unfoldable pub parse_ready : List Fields → Bool
  unfolding codes field ◌==◌
  parse_ready [] = false
  parse_ready (c ∷ cs) =
      let later = parse_ready cs in
      if text_field c (codes "type") == codes "Ready"
      then text_field c (codes "status") == codes "True"
      else later

  -- A label whose value is no text is left out.
  unfoldable pub text_entry : Text × V → Option (Text × Text)
  text_entry (k, v) = elim (values.as_text v) [ none ↦ none | some t ↦ some (k, t) ]

  unfoldable pub parse_labels : Option Fields → Labels
  unfolding keep_some text_entry
  parse_labels none = none
  parse_labels (some m) = some (keep_some text_entry m)

  abbrev pub or_empty : Option Fields → Fields
  or_empty none = []
  or_empty (some m) = m

  -- An empty deletion timestamp counts as none.
  unfoldable pub parse_deletion : Text → Option Text
  parse_deletion t = if is_nil t then none else some t

  -- The rest of `parseSubscription`, once the spec is found. A missing map is read as an empty one,
  -- whose fields are all missing.
  unfoldable pub parse_spec : Object V → Fields → Subscription
  unfolding codes field text_at maps_field parse_model_ref parse_status parse_ready parse_labels
      parse_deletion parse_priority max_of_refs keep_some all_some trim_space
  parse_spec obj spec =
      let owner = or_empty (field values.as_map spec (codes "owner")) in
      let metadata = or_empty (field values.as_map spec (codes "tokenMetadata")) in
      let status = or_empty (field values.as_map obj.content (codes "status")) in
      let refs = map parse_model_ref (maps_field spec (codes "modelRefs")) in
      record {
        name = obj.name;
        namespace = obj.namespace;
        display_name = text_at obj.annotations (codes "openshift.io/display-name");
        description = text_at obj.annotations (codes "openshift.io/description");
        groups =
            keep_some (λ (m : Fields). field values.as_text m (codes "name"))
              (maps_field owner (codes "groups"));
        users = elim (field values.as_list owner (codes "users")) [
          | none ↦ []
          | some us ↦ or_nil (all_some values.as_text us)
        ];
        priority = parse_priority (field values.as_int spec (codes "priority"));
        max_limit = max_of_refs refs (pos 0);
        organization_id = text_field metadata (codes "organizationId");
        cost_center = text_field metadata (codes "costCenter");
        labels = parse_labels (field values.as_map metadata (codes "labels"));
        model_refs = refs;
        phase = trim_space (text_field status (codes "phase"));
        ready = parse_ready (maps_field status (codes "conditions"));
        deletion_timestamp = parse_deletion (
            text_field (or_empty (field values.as_map obj.content (codes "metadata")))
              (codes "deletionTimestamp"));
        token_rate_limit_statuses =
            map parse_status (maps_field status (codes "tokenRateLimitStatuses"));
      }

  -- An object without a spec has no subscription.
  unfoldable pub parse_subscription : Object V → Option Subscription
  unfolding codes field parse_spec
  parse_subscription obj = elim (field values.as_map obj.content (codes "spec")) [
    | none ↦ none
    | some spec ↦ some (parse_spec obj spec)
  ]

  -- `lister.List()` and the loop that skips what does not parse.
  unfoldable pub load_subscriptions :
      Result Text (List (Object V)) → Result Text (List Subscription)
  unfolding keep_some parse_subscription
  load_subscriptions (err e) = err e
  load_subscriptions (ok objects) = ok (keep_some parse_subscription objects)
