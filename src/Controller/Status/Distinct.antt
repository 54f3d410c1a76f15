-- ===== src/Controller/Status/Distinct.antt =====
-- The references that a loop with a `seen` map keeps, and the ones it skips.
use models_as_a_service_mids.Prelude.{
  ◌≡◌, ◌≢◌, ◌↔◌, ◌⊎◌, inl, inr, sym, ap, subst, ◌∙◌, Text, ◌==◌, eq_iff, contains, contains_char,
  split_first, split_first-append, List, [], ◌∷◌, Option, some, true, false, All, Bool-cases, arith,
}
use models_as_a_service_mids.Controller.Types.{ModelSubscriptionRef, model_key, ref_key}
use models_as_a_service_mids.Controller.Status.{distinct}

-- A key determines its namespace and name if no namespace contains a slash.
pub model_key-inj :
    (namespace namespace' name name' : Text)
    → contains_char b'/' namespace ≡ false
    → contains_char b'/' namespace' ≡ false
    → model_key namespace name ≡ model_key namespace' name'
    → (namespace ≡ namespace') × (name ≡ name')
unfolding model_key
model_key-inj namespace namespace' name name' h h' e =
    let first = split_first-append b'/' namespace name h in
    let second = split_first-append b'/' namespace' name' h' in
    let both : Path (Option (Text × Text)) (some (namespace, name)) (some (namespace', name')) =
      sym first ∙ ap (split_first b'/') e ∙ second in
    (cc, cc)

pub distinct-again :
    (seen : List Text) (ref : ModelSubscriptionRef) (refs : List ModelSubscriptionRef)
    → contains seen (ref_key ref) ≡ true
    → distinct seen (ref ∷ refs) ≡ distinct seen refs
unfolding distinct
distinct-again seen ref refs h = ground arith

pub distinct-first :
    (seen : List Text) (ref : ModelSubscriptionRef) (refs : List ModelSubscriptionRef)
    → contains seen (ref_key ref) ≡ false
    → distinct seen (ref ∷ refs) ≡ ref ∷ distinct (ref_key ref ∷ seen) refs
unfolding distinct
distinct-first seen ref refs h = ground arith

contains-cons :
    (seen : List Text) (key t : Text)
    → contains (key ∷ seen) t ≡ true
    → (key ≡ t) ⊎ (contains seen t ≡ true)
unfolding contains
contains-cons seen key t h = elim (Bool-cases (key == t)) [
  | inl e ↦ inl ((eq_iff key t).0 e)
  | inr e ↦ inr (ground arith)
]

-- What holds of the references that the loop keeps holds of the ones it skips.
pub distinct-All :
    (Q : Text → Text → Type 0) (seen : List Text) (refs : List ModelSubscriptionRef)
    → All (λ (ref : ModelSubscriptionRef). contains_char b'/' ref.namespace ≡ false) refs
    → ((namespace name : Text)
        → contains_char b'/' namespace ≡ false
        → contains seen (model_key namespace name) ≡ true
        → Q namespace name)
    → All (λ (ref : ModelSubscriptionRef). Q ref.namespace ref.name) (distinct seen refs)
    → All (λ (ref : ModelSubscriptionRef). Q ref.namespace ref.name) refs
distinct-All Q seen [] clean known h = tt
distinct-All Q seen (ref ∷ refs) clean known h = elim (Bool-cases (contains seen (ref_key ref))) [
  | inl again ↦
      let kept =
        subst (All (λ (r : ModelSubscriptionRef). Q r.namespace r.name))
          (distinct-again seen ref refs again) h in
      (known ref.namespace ref.name clean.0 again, distinct-All Q seen refs clean.1 known kept)
  | inr first ↦
      let kept =
        subst (All (λ (r : ModelSubscriptionRef). Q r.namespace r.name))
          (distinct-first seen ref refs first) h in
      (
        kept.0,
        distinct-All Q (ref_key ref ∷ seen) refs clean.1
            (λ namespace name pure m.
              elim (contains-cons seen (ref_key ref) (model_key namespace name) m) [
                | inl e ↦
                    let (same_namespace, same_name) =
                      model_key-inj ref.namespace namespace ref.name name clean.0 pure e in
                    subst (λ z. Q namespace z) same_name
                      (subst (λ z. Q z ref.name) same_namespace kept.0)
                | inr old ↦ known namespace name pure old
              ])
            kept.1,
      )
]

pub All-distinct :
    (Q : Text → Text → Type 0) (seen : List Text) (refs : List ModelSubscriptionRef)
    → All (λ (ref : ModelSubscriptionRef). Q ref.namespace ref.name) refs
    → All (λ (ref : ModelSubscriptionRef). Q ref.namespace ref.name) (distinct seen refs)
unfolding distinct
All-distinct Q seen [] h = tt
All-distinct Q seen (ref ∷ refs) h = elim (Bool-cases (contains seen (ref_key ref))) [
  | inl again ↦
      subst (All (λ (r : ModelSubscriptionRef). Q r.namespace r.name))
        (sym (distinct-again seen ref refs again)) (All-distinct Q seen refs h.1)
  | inr first ↦
      subst (All (λ (r : ModelSubscriptionRef). Q r.namespace r.name))
        (sym (distinct-first seen ref refs first))
        (h.0, All-distinct Q (ref_key ref ∷ seen) refs h.1)
]

pub nothing_seen : (t : Text) → contains [] t ≢ true
unfolding contains
nothing_seen t h = ground arith

pub distinct-nil : (refs : List ModelSubscriptionRef) → (distinct [] refs ≢ []) ↔ (refs ≢ [])
unfolding distinct contains
distinct-nil [] = (λ h. h, λ h. h)
distinct-nil (ref ∷ refs) = (λ h e. absurd (ground arith), λ h e. absurd (ground arith))
