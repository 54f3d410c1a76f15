-- ===== src/Controller/Status/Health.antt =====
-- The status of a subscription against the cluster.
use models_as_a_service_mids.Prelude.{
  ◌≡◌, ◌≢◌, ◌↔◌, inl, inr, refl, sym, ap, subst, Text, contains_char, List, [], ◌∷◌, map, none,
  Bool, true, false, All, All-map, ok, err, Result-cases, arith,
}
use models_as_a_service_mids.Controller.Types.{
  active, ModelSubscriptionRef, ModelRefStatus, PolicyStatus, ClientError, missing, broken,
  model_key, ObjectStatus,
}
use models_as_a_service_mids.Controller.Status.{
  distinct, ReadModel, FindRoute, ReadPolicy, RouteError, model_status, validate_model_refs,
  get_trlp_accepted_condition, policy_name, health_of, read_policy_status, accepted_status,
  no_route_status, check_token_rate_limit_health, is_backend_not_ready, backend_message,
  correct_status, derive_status,
}
use models_as_a_service_mids.Controller.Status.Verdict.{derive_final_phase-active_iff}
use models_as_a_service_mids.Controller.Status.Distinct.{
  distinct-All, All-distinct, nothing_seen, distinct-nil,
}

module _ {ℓ κ μ} {A : Type ℓ} {B : Type κ} (P : B → Type μ) (f : A → B) where
  All-of_map : (xs : List A) → All P (map f xs) → All (λ x. P (f x)) xs
  All-of_map [] h = tt
  All-of_map (x ∷ xs) h = (h.0, All-of_map xs h.1)

  map-All : (xs : List A) → All (λ x. P (f x)) xs → All P (map f xs)
  map-All [] h = tt
  map-All (x ∷ xs) h = (h.0, map-All xs h.1)

map-nil {ℓ κ} : {A : Type ℓ} {B : Type κ} (f : A → B) (xs : List A) → map f xs ≡ [] → xs ≡ []
map-nil f [] h = refl
map-nil f (x ∷ xs) h = absurd (ground arith)

calm-backend_message :
    (policies : List PolicyStatus) (key : Text)
    → All (λ (p : PolicyStatus). is_backend_not_ready p.reason ≡ false) policies
    → backend_message policies key ≡ none
unfolding backend_message
calm-backend_message [] key h = refl
calm-backend_message (p ∷ policies) key h =
    ground (arith, h.0, calm-backend_message policies key h.1)

pub lost-ready :
    (get_model : ReadModel) (ref : ModelSubscriptionRef) (e : ClientError)
    → get_model ref.namespace ref.name ≡ err e
    → (model_status get_model ref).ready ≡ false
unfolding model_status
lost-ready get_model ref (missing t) h = ground (arith, h)
lost-ready get_model ref (broken t) h = ground (arith, h)

pub model_status-ready :
    (get_model : ReadModel) (ref : ModelSubscriptionRef)
    → ((model_status get_model ref).ready ≡ true) ↔ (get_model ref.namespace ref.name ≡ ok tt)
unfolding model_status
model_status-ready get_model ref = (
  λ h. elim (Result-cases (get_model ref.namespace ref.name)) [
    | inl (u, found) ↦ found
    | inr (e, lost) ↦ absurd (ground (arith, lost-ready get_model ref e lost))
  ],
  λ h. ground arith,
)

pub corrected-ready :
    (policies : List PolicyStatus) (s : ModelRefStatus)
    → (correct_status policies s).ready ≡ true
    → s.ready ≡ true
unfolding correct_status
corrected-ready policies s h = ground arith

pub corrected-same :
    (policies : List PolicyStatus) (s : ModelRefStatus)
    → backend_message policies (model_key s.namespace s.name) ≡ none
    → correct_status policies s ≡ s
unfolding correct_status
corrected-same policies s h = ground arith

module _ (get_model : ReadModel) (find_route : FindRoute) (get_policy : ReadPolicy) where
  -- The model of the reference is there, its route is found, and the policy in the namespace of the
  -- route has a true Accepted condition.
  pub record IsServed (namespace name : Text) : Type 0 where
    pub exists_model : get_model namespace name ≡ ok tt
    pub route : Text
    pub route_namespace : Text
    pub routed : find_route namespace name ≡ ok (route, route_namespace)
    pub status : ObjectStatus
    pub read : get_policy route_namespace (policy_name name) ≡ ok status
    pub is_accepted : (get_trlp_accepted_condition status).0 ≡ true

  accepted_status-ready :
      (ref : ModelSubscriptionRef) (namespace : Text) (outcome : Bool × Text)
      → ((accepted_status ref namespace outcome).ready ≡ outcome.0)
        × (is_backend_not_ready (accepted_status ref namespace outcome).reason ≡ false)
  unfolding accepted_status
  accepted_status-ready ref namespace (true, text) = (refl, refl)
  accepted_status-ready ref namespace (false, text) = (refl, refl)

  read-ready :
      (ref : ModelSubscriptionRef) (namespace : Text)
      → (read_policy_status get_policy ref namespace).ready ≡ true
      → (status : ObjectStatus) × (get_policy namespace (policy_name ref.name) ≡ ok status)
        × ((get_trlp_accepted_condition status).0 ≡ true)
        × (is_backend_not_ready (read_policy_status get_policy ref namespace).reason ≡ false)
  unfolding read_policy_status
  read-ready ref namespace h = elim (Result-cases (get_policy namespace (policy_name ref.name))) [
    | inl (status, found) ↦
        let (flag, calm) =
          accepted_status-ready ref namespace (get_trlp_accepted_condition status) in
        (status, found, ground arith, ground arith)
    | inr (e, lost) ↦ absurd (ground arith)
  ]

  no_route_status-ready :
      (ref : ModelSubscriptionRef) (e : RouteError) → (no_route_status ref e).ready ≡ false
  unfolding no_route_status
  no_route_status-ready ref e = ground arith

  pub health-ready :
      (ref : ModelSubscriptionRef)
      → (health_of find_route get_policy ref).ready ≡ true
      → (get_model ref.namespace ref.name ≡ ok tt → IsServed ref.namespace ref.name)
        × (is_backend_not_ready (health_of find_route get_policy ref).reason ≡ false)
  unfolding health_of
  health-ready ref h = elim (Result-cases (find_route ref.namespace ref.name)) [
    | inl ((route, namespace), found) ↦
        let (status, read, flag, calm) = read-ready ref namespace (ground arith) in
        (
          λ m. record {
            exists_model = m;
            route = route;
            route_namespace = namespace;
            routed = found;
            status = status;
            read = read;
            is_accepted = flag;
          },
          ground arith,
        )
    | inr (e, lost) ↦ absurd (ground (arith, no_route_status-ready ref e))
  ]

  pub IsServed-ready :
      (ref : ModelSubscriptionRef)
      → IsServed ref.namespace ref.name
      → (health_of find_route get_policy ref).ready ≡ true
  unfolding health_of read_policy_status
  IsServed-ready ref s = ground (
    arith,
    s.routed,
    s.read,
    s.is_accepted,
    accepted_status-ready ref s.route_namespace (get_trlp_accepted_condition s.status),
  )

  IsServed-All :
      (policies : List PolicyStatus) (refs : List ModelSubscriptionRef)
      → All (λ ref. (correct_status policies (model_status get_model ref)).ready ≡ true) refs
      → All (λ ref. (health_of find_route get_policy ref).ready ≡ true) refs
      → All (λ ref. IsServed ref.namespace ref.name) refs
  IsServed-All policies [] ready healthy = tt
  IsServed-All policies (ref ∷ refs) ready healthy =
      let valid = corrected-ready policies (model_status get_model ref) ready.0 in
      let exists_model = (model_status-ready get_model ref).0 valid in
      ((health-ready ref healthy.0).0 exists_model, IsServed-All policies refs ready.1 healthy.1)

  served_ready :
      (policies : List PolicyStatus) (refs : List ModelSubscriptionRef)
      → All (λ (p : PolicyStatus). is_backend_not_ready p.reason ≡ false) policies
      → All (λ ref. IsServed ref.namespace ref.name) refs
      → All (λ ref. (correct_status policies (model_status get_model ref)).ready ≡ true) refs
  served_ready policies [] calm served = tt
  served_ready policies (ref ∷ refs) calm served =
      let s = model_status get_model ref in
      let same =
        corrected-same policies s
          (calm-backend_message policies (model_key s.namespace s.name) calm) in
      let valid = (model_status-ready get_model ref).1 served.0.exists_model in
      (subst (λ z. z.ready ≡ true) (sym same) valid, served_ready policies refs calm served.1)

  -- A subscription becomes Active exactly if it references a model and every model it references is
  -- served.
  derive_status-distinct :
      (refs : List ModelSubscriptionRef)
      → ((derive_status get_model find_route get_policy refs).phase ≡ active) ↔ (
          (distinct [] refs ≢ []) × All (λ ref. IsServed ref.namespace ref.name) (distinct [] refs))
  unfolding derive_status validate_model_refs check_token_rate_limit_health
  derive_status-distinct refs =
      let ds = distinct [] refs in
      let policies = map (health_of find_route get_policy) ds in
      let models = map (correct_status policies) (map (model_status get_model) ds) in
      let verdict = derive_final_phase-active_iff models policies in
      (
        λ h.
            let (some_model, ready, healthy) = verdict.0 h in
            (
              λ e.
                  some_model
                    (ap (λ xs. map (correct_status policies) (map (model_status get_model) xs)) e),
              IsServed-All policies ds
                  (All-of_map (λ (s : ModelRefStatus). (correct_status policies s).ready ≡ true)
                    (model_status get_model) ds
                    (All-of_map (λ (s : ModelRefStatus). s.ready ≡ true) (correct_status policies)
                      (map (model_status get_model) ds) ready))
                  (All-of_map (λ (p : PolicyStatus). p.ready ≡ true)
                    (health_of find_route get_policy) ds healthy),
            ),
        λ (some_ref, served).
            let healthy = All-map (λ ref s. IsServed-ready ref s) ds served in
            let calm =
              map-All (λ (p : PolicyStatus). is_backend_not_ready p.reason ≡ false)
                (health_of find_route get_policy) ds
                (All-map (λ ref h. (health-ready ref h).1) ds healthy) in
            verdict.1 (
              λ e. some_ref (
                  map-nil (model_status get_model) ds
                    (map-nil (correct_status policies) (map (model_status get_model) ds) e)),
              map-All (λ (s : ModelRefStatus). s.ready ≡ true) (correct_status policies)
                  (map (model_status get_model) ds)
                  (map-All (λ (s : ModelRefStatus). (correct_status policies s).ready ≡ true)
                    (model_status get_model) ds (served_ready policies ds calm served)),
              map-All (λ (p : PolicyStatus). p.ready ≡ true) (health_of find_route get_policy) ds
                  healthy,
            ),
      )

-- Where no namespace contains a slash, a reconciliation that ends without an error reports the
-- phase Active exactly if the subscription references a model and every model it references is
-- there, has a route, and has a policy in the namespace of the route whose Accepted condition is
-- true.
pub derive_status-active_iff :
    (get_model : ReadModel) (find_route : FindRoute) (get_policy : ReadPolicy)
    (refs : List ModelSubscriptionRef)
    → All (λ (ref : ModelSubscriptionRef). contains_char b'/' ref.namespace ≡ false) refs
    → ((derive_status get_model find_route get_policy refs).phase ≡ active) ↔ (
        (refs ≢ [])
        × All
            (λ (ref : ModelSubscriptionRef).
              IsServed get_model find_route get_policy ref.namespace ref.name)
            refs)
derive_status-active_iff get_model find_route get_policy refs clean =
    let Q = IsServed get_model find_route get_policy in
    let verdict = derive_status-distinct get_model find_route get_policy refs in
    (
      λ h.
          let (some_ref, served) = verdict.0 h in
          (
            (distinct-nil refs).0 some_ref,
            distinct-All Q [] refs clean
                (λ namespace name _ m. absurd (nothing_seen (model_key namespace name) m)) served,
          ),
      λ (some_ref, served).
          verdict.1 ((distinct-nil refs).1 some_ref, All-distinct Q [] refs served),
    )
