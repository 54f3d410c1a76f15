-- ===== src/Controller/Status/Verdict.antt =====
-- `deriveFinalPhase`: which phase the statuses give.
use models_as_a_service_mids.Prelude.{
  ◌+◌, ◌≤◌, ◌<◌, ◌≡◌, ◌≢◌, ◌↔◌, inl, inr, refl, ap, List, [], ◌∷◌, Bool, true, false, not, filter,
  length, is_nil_iff, is_nil-ne, All, All-map, Bool-cases, arith,
}
use models_as_a_service_mids.Controller.Types.{active, failed, ModelRefStatus, PolicyStatus}
use models_as_a_service_mids.Controller.Status.{count, is_backend_issue, derive_final_phase}

module _ {ℓ} {A : Type ℓ} where
  count-zero : (p : A → Bool) (xs : List A) → count p xs ≡ 0 → All (λ x. p x ≡ false) xs
  unfolding filter
  count-zero p [] h = tt
  count-zero p (x ∷ xs) h = elim (Bool-cases (p x)) [
    | inl t ↦ absurd (ground arith)
    | inr f ↦ (f, count-zero p xs (ground arith))
  ]

  zero-count : (p : A → Bool) (xs : List A) → All (λ x. p x ≡ false) xs → count p xs ≡ 0
  unfolding filter
  zero-count p [] h = refl
  zero-count p (x ∷ xs) h = ground (arith, h.0, zero-count p xs h.1)

  count_mono :
      (p q : A → Bool) (xs : List A) → ((x : A) → p x ≡ true → q x ≡ true) → count p xs ≤ count q xs
  unfolding filter
  count_mono p q [] h = omega arith
  count_mono p q (x ∷ xs) h = elim (Bool-cases (p x)) [
    | inl t ↦ ground (arith, h x t, count_mono p q xs h)
    | inr f ↦ ground (arith, count_mono p q xs h)
  ]

  count-add-count :
      (p : A → Bool) (xs : List A) → count p xs + count (λ x. not (p x)) xs ≡ length xs
  unfolding filter
  count-add-count p [] = refl
  count-add-count p (x ∷ xs) = ground (arith, count-add-count p xs)

length_pos {ℓ} : {A : Type ℓ} (xs : List A) → xs ≢ [] → 0 < length xs
length_pos [] h = absurd (h refl)
length_pos (x ∷ xs) h = omega arith

not-true : {b : Bool} → not b ≡ false → b ≡ true
not-true {b} h = ground arith

issue-unhealthy :
    (models : List ModelRefStatus) (p : PolicyStatus)
    → is_backend_issue models p ≡ true
    → not p.ready ≡ true
unfolding is_backend_issue
issue-unhealthy models p h = ground arith

issues-le :
    (models : List ModelRefStatus) (policies : List PolicyStatus)
    → count (is_backend_issue models) policies ≤ count (λ (p : PolicyStatus). not p.ready) policies
issues-le models policies =
    count_mono (is_backend_issue models) (λ (p : PolicyStatus). not p.ready) policies
      (issue-unhealthy models)

-- A subscription is Active exactly if it references a model, all of its models are ready and all of
-- their policies are.
pub derive_final_phase-active_iff :
    (models : List ModelRefStatus) (policies : List PolicyStatus)
    → ((derive_final_phase models policies).0 ≡ active) ↔ (
        (models ≢ [])
        × All (λ (s : ModelRefStatus). s.ready ≡ true) models
        × All (λ (p : PolicyStatus). p.ready ≡ true) policies)
unfolding derive_final_phase
derive_final_phase-active_iff models policies =
    let fewer = issues-le models policies in
    let total = count-add-count (λ (s : ModelRefStatus). s.ready) models in
    (
      λ h.
          let none_invalid : count (λ (s : ModelRefStatus). not s.ready) models ≡ 0 =
            ground arith in
          let none_ill : count (λ (p : PolicyStatus). not p.ready) policies ≡ 0 = ground arith in
          (
            λ e. absurd (ground (arith, is_nil_iff models)),
            All-map (λ s f. not-true f) models
                (count-zero (λ (s : ModelRefStatus). not s.ready) models none_invalid),
            All-map (λ p f. not-true f) policies
                (count-zero (λ (p : PolicyStatus). not p.ready) policies none_ill),
          ),
      λ (some_model, ready, healthy).
          let none_invalid =
            zero-count (λ (s : ModelRefStatus). not s.ready) models
              (All-map (λ s e. ap not e) models ready) in
          let none_ill =
            zero-count (λ (p : PolicyStatus). not p.ready) policies
              (All-map (λ p e. ap not e) policies healthy) in
          let listed = is_nil-ne models some_model in
          let positive = length_pos models some_model in ground arith,
    )

-- A subscription none of whose models is ready is Failed.
pub derive_final_phase-failed :
    (models : List ModelRefStatus) (policies : List PolicyStatus)
    → All (λ (s : ModelRefStatus). s.ready ≡ false) models
    → (derive_final_phase models policies).0 ≡ failed
unfolding derive_final_phase
derive_final_phase-failed models policies none_ready =
    let no_valid = zero-count (λ (s : ModelRefStatus). s.ready) models none_ready in ground arith
