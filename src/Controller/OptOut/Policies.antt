-- ===== src/Controller/OptOut/Policies.antt =====
-- `reconcileTRLPForModel` leaves the policies alone that are opted out.
use models_as_a_service_mids.Prelude.{
  Text, codes, ◌==◌, ◌≡◌, refl, sym, ap, ◌∙◌, subst, List, true, Bool-cases, is_nil, inl, inr,
  Result, ok, err, Result-cases,
}
use models_as_a_service_mids.Controller.Types.{ClientError, missing, broken}
use models_as_a_service_mids.Controller.Status.{RouteError}
use models_as_a_service_mids.Controller.Texts.{set_keys, set_key, lookup_key}
use models_as_a_service_mids.Controller.Run.{Run, ◌>>=◌}
use models_as_a_service_mids.Controller.Run.Logs.{
  Calls, Calls-pure, Calls-raise, Calls-observe, Calls-perform, Calls-wrap, Calls-attempt,
  Calls-bind, Calls-for_each,
}
use models_as_a_service_mids.Controller.Cluster.{
  MaasSubscription, Policy, is_managed, managed_value, is_managed_by, Call, Client,
}
use models_as_a_service_mids.Controller.Limits.{
  SubInfo, sub_infos, policy_of, subscriptions_annotation,
}
use models_as_a_service_mids.Controller.Limits.Maps.{lookup-set_other}
use models_as_a_service_mids.Controller.Routes.Reads.{
  find_all_subscriptions_for_model-Calls, find_http_route_for_model-Calls,
}
use models_as_a_service_mids.Controller.Policies.{
  merged, update_existing, create_or_update, apply_policy, apply_owned, build_policy, fetch_route,
  list_live, by_route, with_route, without_route, unless_opted_out, reconcile_trlp_for_model,
  reconcile_models, is_model_not_found, is_route_not_found,
}
use models_as_a_service_mids.Controller.OptOut.{IsManagedChange, delete_model_trlp-respects}

assigned-managed :
    (v : Text) (annotations : List (Text × Text))
    → is_managed_by annotations ≡ true
    → is_managed_by (set_key (codes "maas.opendatahub.io/subscriptions") v annotations) ≡ true
unfolding is_managed_by codes ◌==◌
assigned-managed v annotations h =
    let other =
      lookup-set_other (codes "maas.opendatahub.io/subscriptions") v
        (codes "opendatahub.io/managed") annotations refl in
    ap managed_value other ∙ h

annotated :
    (infos : List SubInfo) (annotations : List (Text × Text))
    → is_managed_by annotations ≡ true
    → is_managed_by (set_keys (subscriptions_annotation infos) annotations) ≡ true
unfolding subscriptions_annotation set_keys
annotated infos annotations h = assigned-managed _ annotations h

annotation-managed : (infos : List SubInfo) → is_managed_by (subscriptions_annotation infos) ≡ true
unfolding is_managed_by managed_value subscriptions_annotation lookup_key codes ◌==◌
annotation-managed infos = refl

-- `SetControllerReference` changes the owners only.
module _ {W R : Type 0} (client : Client W R)
    (keeps : (route : R) (p q : Policy)
      → client.set_owner route p ≡ ok q
      → q.annotations ≡ p.annotations) where
  -- The annotation of the wanted policy is another one.
  merged-managed :
      (existing policy : Policy) (infos : List SubInfo)
      → policy.annotations ≡ subscriptions_annotation infos
      → is_managed existing ≡ true
      → is_managed (merged existing policy) ≡ true
  unfolding merged
  merged-managed existing policy infos e h =
      subst (λ a. is_managed_by (set_keys a existing.annotations) ≡ true) (sym e)
        (annotated infos existing.annotations h)

  update_existing-respects :
      (route : R) (model : Text) (existing policy : Policy) (infos : List SubInfo)
      → policy.annotations ≡ subscriptions_annotation infos
      → Calls IsManagedChange (update_existing client route model existing policy)
  unfolding update_existing IsManagedChange
  update_existing-respects route model existing policy infos e =
      elim (Bool-cases (is_managed existing)) [
        | inr opted_out ↦ rw opted_out (Calls-pure _ tt)
        | inl managed ↦ elim (Result-cases (client.set_owner route existing)) [
          | inr (t, failed) ↦ rw (managed, failed) (Calls-raise _ _)
          | inl (owned, done) ↦
              let still =
                subst (λ a. is_managed_by a ≡ true) (sym (keeps route existing owned done))
                  managed in
              let written = merged-managed owned policy infos e still in
              elim (Bool-cases (client.same_policy owned (merged owned policy))) [
                | inl same ↦ rw (managed, done, same) (Calls-pure _ tt)
                | inr other ↦
                    rw (managed, done, other) (Calls-wrap _ _ _ (Calls-perform _ _ _ written))
              ]
        ]
      ]

  create_or_update-respects :
      (route : R) (namespace name : Text) (policy : Policy) (infos : List SubInfo)
      → policy.annotations ≡ subscriptions_annotation infos
      → (r : Result ClientError Policy)
      → Calls IsManagedChange (create_or_update client route namespace name policy r)
  unfolding create_or_update IsManagedChange
  create_or_update-respects route namespace name policy infos e (err (missing t)) =
      let fresh = subst (λ a. is_managed_by a ≡ true) (sym e) (annotation-managed infos) in
      Calls-wrap _ _ _ (Calls-perform _ _ _ fresh)
  create_or_update-respects route namespace name policy infos e (err (broken t)) = Calls-raise _ _
  create_or_update-respects route namespace name policy infos e (ok found) =
      update_existing-respects route _ found policy infos e

  apply_owned-respects :
      (route : R) (namespace name : Text) (policy : Policy) (infos : List SubInfo)
      → policy.annotations ≡ subscriptions_annotation infos
      → (r : Result Text Policy) → ((q : Policy) → r ≡ ok q → q.annotations ≡ policy.annotations)
      → Calls IsManagedChange (apply_owned client route namespace name policy r)
  unfolding apply_owned apply_policy
  apply_owned-respects route namespace name policy infos e (ok owned) same =
      Calls-bind _ _ _
        (Calls-attempt _ _ (Calls-observe _ (client.get_policy owned.namespace owned.name)))
        (create_or_update-respects route namespace name owned infos (same owned refl ∙ e))
  apply_owned-respects route namespace name policy infos e (err t) same = Calls-raise _ _

  build_policy-respects :
      (namespace name route_name route_namespace : Text) (subs : List MaasSubscription) (route : R)
      → Calls IsManagedChange
          (build_policy client namespace name route_name route_namespace subs route)
  unfolding build_policy policy_of
  build_policy-respects namespace name route_name route_namespace subs route =
      let infos = sub_infos namespace name subs in
      let policy = policy_of namespace name route_name route_namespace infos in
      let owned =
        apply_owned-respects route namespace name policy infos refl (client.set_owner route policy)
          (keeps route policy) in
      elim (Bool-cases (is_nil infos)) [
        | inl empty ↦ rw empty (delete_model_trlp-respects client namespace name)
        | inr some_info ↦ rw some_info owned
      ]

  with_route-respects :
      (namespace name route_name route_namespace : Text) (subs : List MaasSubscription)
      → Calls IsManagedChange (with_route client namespace name route_name route_namespace subs)
  unfolding with_route fetch_route
  with_route-respects namespace name route_name route_namespace subs =
      elim (Bool-cases (is_nil subs)) [
        | inl empty ↦ rw empty (Calls-wrap _ _ _ (delete_model_trlp-respects client namespace name))
        | inr some_sub ↦
            let built : Calls IsManagedChange (
                fetch_route client route_name route_namespace
                >>= build_policy client namespace name route_name route_namespace subs) =
              Calls-bind _ _ _
                (Calls-wrap _ _ _ (Calls-observe _ (client.get_route route_namespace route_name)))
                (build_policy-respects namespace name route_name route_namespace subs) in
            rw some_sub built
      ]

  unless_opted_out-respects :
      (r : Result ClientError Policy) (rest : Run W Call Text (Unit {0}))
      → Calls IsManagedChange rest
      → Calls IsManagedChange (unless_opted_out client r rest)
  unfolding unless_opted_out
  unless_opted_out-respects (ok existing) rest h = elim (Bool-cases (is_managed existing)) [
    | inl managed ↦ rw managed h
    | inr opted_out ↦ rw opted_out (Calls-pure _ tt)
  ]
  unless_opted_out-respects (err (missing t)) rest h = h
  unless_opted_out-respects (err (broken t)) rest h = Calls-raise _ _

  without_route-respects :
      (namespace name : Text) (subs : List MaasSubscription) (e : RouteError)
      → Calls IsManagedChange (without_route client namespace name subs e)
  unfolding without_route
  without_route-respects namespace name subs e =
      let clean_up = delete_model_trlp-respects client namespace name in
      elim (Bool-cases (is_model_not_found e)) [
        | inl gone ↦ rw gone (Calls-wrap _ _ _ clean_up)
        | inr there ↦ elim (Bool-cases (is_nil subs)) [
          | inl empty ↦ rw (there, empty) (Calls-wrap _ _ _ clean_up)
          | inr some_sub ↦ elim (Bool-cases (is_route_not_found e)) [
            | inl no_route ↦ rw (there, some_sub, no_route) (Calls-pure _ tt)
            | inr other ↦ rw (there, some_sub, other) (Calls-raise _ _)
          ]
        ]
      ]

  by_route-respects :
      (namespace name : Text) (subs : List MaasSubscription) (r : Result RouteError (Text × Text))
      → Calls IsManagedChange (by_route client namespace name subs r)
  unfolding by_route
  by_route-respects namespace name subs (err e) = without_route-respects namespace name subs e
  by_route-respects namespace name subs (ok (route_name, route_namespace)) =
      Calls-bind _ _ _ (Calls-attempt _ _ (Calls-observe _ (client.get_policy _ _))) (λ existing.
        unless_opted_out-respects existing _
          (with_route-respects namespace name route_name route_namespace subs))

  pub reconcile_trlp_for_model-respects :
      (namespace name : Text)
      → Calls IsManagedChange (reconcile_trlp_for_model client namespace name)
  unfolding reconcile_trlp_for_model list_live
  reconcile_trlp_for_model-respects namespace name =
      Calls-bind _ _ _
        (Calls-wrap _ _ _
          (find_all_subscriptions_for_model-Calls client IsManagedChange namespace name))
        (λ subs.
          Calls-bind _ _ _
            (Calls-attempt _ _
              (find_http_route_for_model-Calls client IsManagedChange namespace name))
            (by_route-respects namespace name subs))

  pub reconcile_models-respects :
      (sub : MaasSubscription) → Calls IsManagedChange (reconcile_models client sub)
  unfolding reconcile_models
  reconcile_models-respects sub =
      Calls-for_each _ _ _ (λ ref _. reconcile_trlp_for_model-respects ref.namespace ref.name)
