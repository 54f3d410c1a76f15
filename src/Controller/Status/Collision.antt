-- ===== src/Controller/Status/Collision.antt =====
-- `validModelSet` knows a model by its name only.
use models_as_a_service_mids.Prelude.{
  ◌≡◌, ◌≢◌, inl, inr, sym, ap, subst, ◌∙◌, Text, ◌==◌, eq_iff, contains, List, [], ◌∷◌, true, false,
  Bool-cases, ok, err, arith, map, any, filter, none,
}
use models_as_a_service_mids.Controller.Types.{
  failed, ModelSubscriptionRef, ModelRefStatus, PolicyStatus, missing, model_key, ref_key,
  ClientError,
}
use models_as_a_service_mids.Controller.Status.{
  distinct, ReadModel, FindRoute, ReadPolicy, model_not_found, model_status, validate_model_refs,
  health_of, check_token_rate_limit_health, backend_message, correct_status, derive_final_phase,
  derive_status, is_backend_issue, is_valid_name, no_route_status, is_backend_not_ready,
}
use models_as_a_service_mids.Controller.Status.Health.{
  IsServed, IsServed-ready, health-ready, corrected-ready, corrected-same, model_status-ready,
  lost-ready,
}

-- One valid model, and one policy without a backend of an invalid model of the same name.
derive_final_phase-same_name :
    (s1 s2 : ModelRefStatus) (p1 p2 : PolicyStatus)
    → s1.ready ≡ true
    → s2.ready ≡ false
    → p1.ready ≡ true
    → p2.ready ≡ false
    → is_backend_not_ready p2.reason ≡ true
    → s1.name ≡ p2.model
    → (derive_final_phase (s1 ∷ s2 ∷ []) (p1 ∷ p2 ∷ [])).0 ≡ failed
unfolding derive_final_phase is_backend_issue is_valid_name filter any
derive_final_phase-same_name s1 s2 p1 p2 a b c d e f =
    let same = (eq_iff s1.name p2.model).1 f in ground arith

true-false : true ≢ false
true-false h = ground arith

distinct-two :
    (r1 r2 : ModelSubscriptionRef)
    → ref_key r1 ≢ ref_key r2
    → distinct [] (r1 ∷ r2 ∷ []) ≡ r1 ∷ r2 ∷ []
unfolding distinct contains any
distinct-two r1 r2 h = elim (Bool-cases (ref_key r1 == ref_key r2)) [
  | inl e ↦ absurd (h ((eq_iff (ref_key r1) (ref_key r2)).0 e))
  | inr e ↦ ground arith
]

-- A backend that is missing for one key says nothing of another.
other_message :
    (p1 p2 : PolicyStatus) (key : Text)
    → is_backend_not_ready p1.reason ≡ false
    → model_key p2.namespace p2.model ≢ key
    → backend_message (p1 ∷ p2 ∷ []) key ≡ none
unfolding backend_message
other_message p1 p2 key calm other = elim (Bool-cases (model_key p2.namespace p2.model == key)) [
  | inl e ↦ absurd (other ((eq_iff (model_key p2.namespace p2.model) key).0 e))
  | inr e ↦ ground arith
]

no_route_health :
    (find_route : FindRoute) (get_policy : ReadPolicy) (ref : ModelSubscriptionRef) {t : Text}
    → find_route ref.namespace ref.name ≡ err (model_not_found t)
    → ((health_of find_route get_policy ref).ready ≡ false)
      × (is_backend_not_ready (health_of find_route get_policy ref).reason ≡ true)
      × ((health_of find_route get_policy ref).namespace ≡ ref.namespace)
      × ((health_of find_route get_policy ref).model ≡ ref.name)
unfolding health_of no_route_status
no_route_health find_route get_policy ref h =
    (ground (arith, h), ground (arith, h), ground (arith, h), ground (arith, h))

model_status-name :
    (get_model : ReadModel) (ref : ModelSubscriptionRef)
    → get_model ref.namespace ref.name ≡ ok tt
    → model_key (model_status get_model ref).namespace (model_status get_model ref).name
        ≡ ref_key ref
      × ((model_status get_model ref).name ≡ ref.name)
unfolding model_status
model_status-name get_model ref h = (ground (arith, h), ground (arith, h))

still_lost :
    (get_model : ReadModel) (policies : List PolicyStatus) (ref : ModelSubscriptionRef)
    (e : ClientError)
    → get_model ref.namespace ref.name ≡ err e
    → (correct_status policies (model_status get_model ref)).ready ≡ false
still_lost get_model policies ref e lost =
    elim (Bool-cases (correct_status policies (model_status get_model ref)).ready) [
      | inl r ↦
          let before = corrected-ready policies (model_status get_model ref) r in
          absurd (true-false (sym before ∙ lost-ready get_model ref e lost))
      | inr r ↦ r
    ]

-- A subscription to two models of one name in two namespaces is Failed while the first of them is
-- served, if the second is not there.
pub derive_status-same_name :
    (get_model : ReadModel) (find_route : FindRoute) (get_policy : ReadPolicy)
    (r1 r2 : ModelSubscriptionRef) {t u : Text}
    → r1.name ≡ r2.name
    → ref_key r1 ≢ ref_key r2
    → IsServed get_model find_route get_policy r1.namespace r1.name
    → get_model r2.namespace r2.name ≡ err (missing t)
    → find_route r2.namespace r2.name ≡ err (model_not_found u)
    → (derive_status get_model find_route get_policy (r1 ∷ r2 ∷ [])).phase ≡ failed
unfolding derive_status validate_model_refs check_token_rate_limit_health
derive_status-same_name get_model find_route get_policy r1 r2 {t = t} same other served lost
      no_route =
    let p1 = health_of find_route get_policy r1 in
    let p2 = health_of find_route get_policy r2 in
    let m1 = model_status get_model r1 in
    let m2 = model_status get_model r2 in
    let policies = p1 ∷ p2 ∷ [] in
    let healthy = IsServed-ready get_model find_route get_policy r1 served in
    let calm = (health-ready get_model find_route get_policy r1 healthy).1 in
    let (ill, backend, there, called) = no_route_health find_route get_policy r2 no_route in
    let (key, name) = model_status-name get_model r1 served.exists_model in
    let elsewhere : model_key p2.namespace p2.model ≢ model_key m1.namespace m1.name = λ e. other (
      sym (
        sym (ap (λ z. model_key z p2.model) there ∙ ap (model_key r2.namespace) called)
        ∙ e
        ∙ key)) in
    let unchanged =
      corrected-same policies m1
        (other_message p1 p2 (model_key m1.namespace m1.name) calm elsewhere) in
    let first =
      subst (λ z. z.ready ≡ true) (sym unchanged)
        ((model_status-ready get_model r1).1 served.exists_model) in
    let second = still_lost get_model policies r2 (missing t) lost in
    let names = ap (λ z. z.name) unchanged ∙ name ∙ same ∙ sym called in
    subst
      (λ ds.
        (derive_final_phase
          (map (correct_status (map (health_of find_route get_policy) ds))
            (map (model_status get_model) ds))
          (map (health_of find_route get_policy) ds)).0
        ≡ failed)
      (sym (distinct-two r1 r2 other))
      (derive_final_phase-same_name (correct_status policies m1) (correct_status policies m2) p1 p2
        first second healthy ill backend names)
