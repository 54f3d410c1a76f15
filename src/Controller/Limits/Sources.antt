-- ===== src/Controller/Limits/Sources.antt =====
-- The limits that the policy of a model holds, and the subscriptions they come from.
use models_as_a_service_mids.Prelude.{
  Text, eq_iff, ◌≡◌, ◌≢◌, ◌↔◌, ◌⊎◌, inl, inr, refl, sym, ap, subst, List, [], ◌∷◌, Memᴰ, Option,
  none, some, true, Bool-cases, All, is_nil, is_nil_iff, arith,
}
use models_as_a_service_mids.Controller.Types.{LimitSpec, ModelSubscriptionRef}
use models_as_a_service_mids.Controller.RateLimit.{validate_token_rate_limit}
use models_as_a_service_mids.Controller.Cluster.{MaasSubscription}
use models_as_a_service_mids.Controller.Limits.{
  SubInfo, checked_rates, default_rate, rates_of, is_model, first_reference, keep_info, sub_infos,
}
use models_as_a_service_mids.Controller.Limits.Entries.{
  checked_rates-valid, valid-checked_rates, first_reference_sound,
}

-- The limits of a reference: its own, all of them valid, or the default rate where it has none.
abbrev pub IsRated : ModelSubscriptionRef → List LimitSpec → Type 0
unfolding default_rate
IsRated ref rates =
    ((ref.token_rate_limits ≡ []) × (rates ≡ default_rate ∷ []))
    ⊎ ((ref.token_rate_limits ≢ [])
        × (rates ≡ ref.token_rate_limits)
        × All (λ (s : LimitSpec). validate_token_rate_limit s.limit s.window ≡ none) rates)

-- What the policy of a model takes from a subscription: a reference to the model, and its limits.
pub record IsLimited (namespace name : Text) (subs : List MaasSubscription) (info : SubInfo)
    : Type 0 where
  pub live : Memᴰ info.sub subs
  pub listed : Memᴰ info.model_ref info.sub.model_refs
  pub same_namespace : info.model_ref.namespace ≡ namespace
  pub same_name : info.model_ref.name ≡ name
  pub rated : IsRated info.model_ref info.rates

rates_of-IsRated :
    (ref : ModelSubscriptionRef) {rates : List LimitSpec}
    → rates_of ref ≡ some rates
    → IsRated ref rates
unfolding rates_of default_rate
rates_of-IsRated ref {rates = rates} h = elim (Bool-cases (is_nil ref.token_rate_limits)) [
  | inl empty ↦
      let found : Path (Option (List LimitSpec)) (some (default_rate ∷ [])) (some rates) =
        ground arith in
      inl ((is_nil_iff ref.token_rate_limits).0 empty, (cc))
  | inr listed ↦
      let found : checked_rates ref.token_rate_limits ≡ some rates = ground arith in
      let (same, valid) = checked_rates-valid ref.token_rate_limits found in
      let some_limit = λ (e : ref.token_rate_limits ≡ []).
        absurd (ground (arith, (is_nil_iff ref.token_rate_limits).1 e)) in
      inr (
        some_limit,
        same,
        subst (All (λ (s : LimitSpec). validate_token_rate_limit s.limit s.window ≡ none))
            (sym same) valid,
      )
]

Memᴰ-of_keep_info :
    (o : Option SubInfo) {infos : List SubInfo} {info : SubInfo}
    → Memᴰ info (keep_info o infos)
    → (o ≡ some info) ⊎ Memᴰ info infos
Memᴰ-of_keep_info none mem = inr mem
Memᴰ-of_keep_info (some i) (Memᴰ.head e) = inl (ap some (sym e))
Memᴰ-of_keep_info (some i) (Memᴰ.tail mem) = inr mem

Memᴰ-keep_info :
    (o : Option SubInfo) {infos : List SubInfo} {info : SubInfo}
    → Memᴰ info infos
    → Memᴰ info (keep_info o infos)
Memᴰ-keep_info none mem = mem
Memᴰ-keep_info (some i) mem = Memᴰ.tail mem

sub_infos_sound :
    (namespace name : Text) (subs : List MaasSubscription) {info : SubInfo}
    → Memᴰ info (sub_infos namespace name subs)
    → Memᴰ info.sub subs
      × Memᴰ info.model_ref info.sub.model_refs
      × (is_model namespace name info.model_ref ≡ true)
      × (rates_of info.model_ref ≡ some info.rates)
unfolding sub_infos
sub_infos_sound namespace name [] mem = elim mem [ ]
sub_infos_sound namespace name (sub ∷ subs) {info = info} mem =
    elim (Memᴰ-of_keep_info (first_reference namespace name sub sub.model_refs) mem) [
      | inl found ↦
          let (owner, listed, model, known) =
            first_reference_sound namespace name sub sub.model_refs found in
          (
            Memᴰ.head owner,
            subst (λ z. Memᴰ info.model_ref z.model_refs) (sym owner) listed,
            model,
            known,
          )
      | inr later ↦
          let (live, listed, model, known) = sub_infos_sound namespace name subs later in
          (Memᴰ.tail live, listed, model, known)
    ]

pub sub_infos-complete :
    (namespace name : Text) (subs : List MaasSubscription) (sub : MaasSubscription) {info : SubInfo}
    → Memᴰ sub subs
    → first_reference namespace name sub sub.model_refs ≡ some info
    → Memᴰ info (sub_infos namespace name subs)
unfolding sub_infos
sub_infos-complete namespace name [] sub mem h = elim mem [ ]
sub_infos-complete namespace name (s ∷ subs) sub {info = info} (Memᴰ.head e) h =
    let found = subst (λ z. first_reference namespace name z z.model_refs ≡ some info) e h in
    subst (λ o. Memᴰ info (keep_info o (sub_infos namespace name subs))) (sym found)
      (Memᴰ.head refl)
sub_infos-complete namespace name (s ∷ subs) sub (Memᴰ.tail mem) h =
    Memᴰ-keep_info (first_reference namespace name s s.model_refs)
      (sub_infos-complete namespace name subs sub mem h)

pub none-some {ℓ} : {A : Type ℓ} {a : A} → none ≢ some a
none-some h = absurd (ground arith)

pub names-model :
    (namespace name : Text) (ref : ModelSubscriptionRef)
    → (is_model namespace name ref ≡ true) ↔ ((ref.namespace ≡ namespace) × (ref.name ≡ name))
names-model namespace name ref =
    let spaces = eq_iff ref.namespace namespace in
    let names = eq_iff ref.name name in
    (
      λ h. (spaces.0 (ground arith), names.0 (ground arith)),
      λ (p, q). ground (arith, spaces.1 p, names.1 q),
    )

-- A subscription's info is that of its first reference to the model.
pub infos-first_reference :
    (namespace name : Text) (subs : List MaasSubscription) {info : SubInfo}
    → Memᴰ info (sub_infos namespace name subs)
    → first_reference namespace name info.sub info.sub.model_refs ≡ some info
unfolding sub_infos
infos-first_reference namespace name [] mem = elim mem [ ]
infos-first_reference namespace name (sub ∷ subs) {info = info} mem =
    elim (Memᴰ-of_keep_info (first_reference namespace name sub sub.model_refs) mem) [
      | inl found ↦
          let (owner, _, _, _) = first_reference_sound namespace name sub sub.model_refs found in
          subst (λ z. first_reference namespace name z z.model_refs ≡ some info) (sym owner) found
      | inr later ↦ infos-first_reference namespace name subs later
    ]

pub info-IsLimited :
    (namespace name : Text) (subs : List MaasSubscription) {info : SubInfo}
    → Memᴰ info (sub_infos namespace name subs)
    → IsLimited namespace name subs info
info-IsLimited namespace name subs {info = info} mem =
    let (live, listed, model, known) = sub_infos_sound namespace name subs mem in
    let (same_namespace, same_name) = (names-model namespace name info.model_ref).0 model in
    record {
      live = live;
      listed = listed;
      same_namespace = same_namespace;
      same_name = same_name;
      rated = rates_of-IsRated info.model_ref known;
    }

pub valid-rates_of :
    (ref : ModelSubscriptionRef)
    → All
        (λ (s : LimitSpec). validate_token_rate_limit s.limit s.window ≡ none)
        ref.token_rate_limits
    → (rates : List LimitSpec) × (rates_of ref ≡ some rates)
unfolding rates_of
valid-rates_of ref h = elim (Bool-cases (is_nil ref.token_rate_limits)) [
  | inl empty ↦ (default_rate ∷ [], ground arith)
  | inr listed ↦
      (ref.token_rate_limits, ground (arith, valid-checked_rates ref.token_rate_limits h))
]
