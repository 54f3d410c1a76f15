-- ===== src/Controller/Sent.antt =====
-- What the policies limit that the reconciler creates and updates.
use models_as_a_service_mids.Prelude.{
  All, Text, codes, ◌≡◌, refl, sym, subst, inl, inr, List, [], ◌++◌, ◌∷◌, Memᴰ, some, false,
  Bool-cases, is_nil, Result, ok, err, Result-cases, arith,
}
use models_as_a_service_mids.Controller.Types.{ClientError, missing, broken}
use models_as_a_service_mids.Controller.Status.{RouteError}
use models_as_a_service_mids.Controller.Texts.{lookup_key}
use models_as_a_service_mids.Controller.Run.{Run, perform, attempt, ◌>>=◌}
use models_as_a_service_mids.Controller.Run.Logs.{
  Calls, Calls-pure, Calls-raise, Calls-observe, Calls-perform, Calls-wrap, Calls-attempt,
  Calls-bind, Calls-and_then, Calls-for_each,
}
use models_as_a_service_mids.Controller.Cluster.{
  MaasSubscription, LimitEntry, PolicySpec, Policy, is_managed, PolicyListError, absent,
  list_failed, Call, create_policy, update_policy, delete_policy, update_subscription,
  update_subscription_status, Client,
}
use models_as_a_service_mids.Controller.Limits.{sub_infos, policy_of}
use models_as_a_service_mids.Controller.Limits.Live.{
  key_of, IsLimitOf, limits_of_spec, policy_sound,
}
use models_as_a_service_mids.Controller.Routes.{
  find_all_subscriptions_for_model, find_http_route_for_model,
}
use models_as_a_service_mids.Controller.Routes.Reads.{
  find_all_subscriptions_for_model-Calls, find_http_route_for_model-Calls,
}
use models_as_a_service_mids.Controller.Cleanup.{
  check_deleted, delete_if_managed, listed_policies, delete_model_trlp,
}
use models_as_a_service_mids.Controller.Policies.{
  merged, update_existing, create_or_update, apply_policy, apply_owned, build_policy, fetch_route,
  list_live, by_route, with_route, without_route, unless_opted_out, reconcile_trlp_for_model,
  is_model_not_found, is_route_not_found,
}

module _ {W R : Type 0} (client : Client W R) (namespace name : Text) (w : W) where
  -- Each limit is that of a subscription that the cluster lists for the model and that is not being
  -- deleted.
  pub HoldsLimits : PolicySpec → Type 0
  HoldsLimits spec =
      (key : Text) (entry : LimitEntry)
      → lookup_key (limits_of_spec spec) key ≡ some entry
      → (all : List MaasSubscription) × (sub : MaasSubscription) × ((client.list_subscriptions
            (namespace ++ b'/' ∷ name) w).0
          ≡ ok all)
        × Memᴰ sub all
        × (sub.is_deleting ≡ false)
        × (key ≡ key_of sub name)
        × IsLimitOf namespace name sub entry

  -- A policy that the call creates or updates holds such limits only.
  pub SendsLimits : Call → Type 0
  SendsLimits (create_policy p) = HoldsLimits p.spec
  SendsLimits (update_policy p) = HoldsLimits p.spec
  SendsLimits (delete_policy p) = Unit {0}
  SendsLimits (update_subscription s) = Unit {0}
  SendsLimits (update_subscription_status s) = Unit {0}

  built-HoldsLimits :
      (route_name route_namespace : Text) (subs : List MaasSubscription)
      → (find_all_subscriptions_for_model client namespace name w).0 ≡ ok subs
      → HoldsLimits
          (policy_of namespace name route_name route_namespace (sub_infos namespace name subs)).spec
  unfolding HoldsLimits
  built-HoldsLimits route_name route_namespace subs found key entry h =
      policy_sound client w namespace name route_name route_namespace subs key entry found h

  check_deleted-SendsLimits :
      (p : Policy) (r : Result ClientError (Unit {0}))
      → Calls SendsLimits (check_deleted {W = W} p r)
  unfolding check_deleted
  check_deleted-SendsLimits p (ok u) = Calls-pure SendsLimits tt
  check_deleted-SendsLimits p (err (missing e)) = Calls-pure SendsLimits tt
  check_deleted-SendsLimits p (err (broken e)) = Calls-raise _ _

  delete_if_managed-SendsLimits : (p : Policy) → Calls SendsLimits (delete_if_managed client p)
  unfolding delete_if_managed SendsLimits
  delete_if_managed-SendsLimits p = elim (Bool-cases (is_managed p)) [
    | inl managed ↦
        let sent : Calls SendsLimits
            (attempt (perform (delete_policy p) (client.send_delete p)) >>= check_deleted p) =
          Calls-bind _ _ _ (Calls-attempt _ _ (Calls-perform _ _ _ tt))
            (check_deleted-SendsLimits p) in
        rw managed sent
    | inr opted_out ↦ rw opted_out (Calls-pure _ tt)
  ]

  listed-SendsLimits :
      (what : Text) (r : Result PolicyListError (List Policy))
      → Calls SendsLimits (listed_policies client what r)
  unfolding listed_policies
  listed-SendsLimits what (ok ps) = Calls-pure SendsLimits ps
  listed-SendsLimits what (err absent) = Calls-pure SendsLimits []
  listed-SendsLimits what (err (list_failed e)) = Calls-raise SendsLimits (what ++ e)

  delete_model_trlp-SendsLimits : Calls SendsLimits (delete_model_trlp client namespace name)
  unfolding delete_model_trlp
  delete_model_trlp-SendsLimits =
      Calls-bind _ _ _ (Calls-attempt _ _ (Calls-observe _ (client.list_policies _))) (λ found.
        Calls-bind _ _ _
          (listed-SendsLimits (codes "failed to list TokenRateLimitPolicy for cleanup: ") found)
          (λ policies. Calls-for_each _ _ policies (λ p _. delete_if_managed-SendsLimits p)))

  update_existing-SendsLimits :
      (route : R) (model : Text) (existing policy : Policy)
      → HoldsLimits policy.spec
      → Calls SendsLimits (update_existing client route model existing policy)
  unfolding update_existing SendsLimits merged
  update_existing-SendsLimits route model existing policy h =
      elim (Bool-cases (is_managed existing)) [
        | inr opted_out ↦ rw opted_out (Calls-pure _ tt)
        | inl managed ↦ elim (Result-cases (client.set_owner route existing)) [
          | inr (t, failed) ↦ rw (managed, failed) (Calls-raise _ _)
          | inl (owned, done) ↦ elim (Bool-cases (client.same_policy owned (merged owned policy))) [
            | inl same ↦ rw (managed, done, same) (Calls-pure _ tt)
            | inr other ↦ rw (managed, done, other) (Calls-wrap _ _ _ (Calls-perform _ _ _ h))
          ]
        ]
      ]

  create_or_update-SendsLimits :
      (route : R) (policy : Policy)
      → HoldsLimits policy.spec
      → (r : Result ClientError Policy)
      → Calls SendsLimits (create_or_update client route namespace name policy r)
  unfolding create_or_update SendsLimits
  create_or_update-SendsLimits route policy h (err (missing t)) =
      Calls-wrap _ _ _ (Calls-perform _ _ _ h)
  create_or_update-SendsLimits route policy h (err (broken t)) = Calls-raise _ _
  create_or_update-SendsLimits route policy h (ok found) =
      update_existing-SendsLimits route _ found policy h

  without_route-SendsLimits :
      (subs : List MaasSubscription) (e : RouteError)
      → Calls SendsLimits (without_route client namespace name subs e)
  unfolding without_route
  without_route-SendsLimits subs e = elim (Bool-cases (is_model_not_found e)) [
    | inl gone ↦ rw gone (Calls-wrap _ _ _ delete_model_trlp-SendsLimits)
    | inr there ↦ elim (Bool-cases (is_nil subs)) [
      | inl empty ↦ rw (there, empty) (Calls-wrap _ _ _ delete_model_trlp-SendsLimits)
      | inr some_sub ↦ elim (Bool-cases (is_route_not_found e)) [
        | inl no_route ↦ rw (there, some_sub, no_route) (Calls-pure _ tt)
        | inr other ↦ rw (there, some_sub, other) (Calls-raise _ _)
      ]
    ]
  ]

  unless_opted_out-SendsLimits :
      (r : Result ClientError Policy) (rest : Run W Call Text (Unit {0}))
      → Calls SendsLimits rest
      → Calls SendsLimits (unless_opted_out client r rest)
  unfolding unless_opted_out
  unless_opted_out-SendsLimits (ok existing) rest h = elim (Bool-cases (is_managed existing)) [
    | inl managed ↦ rw managed h
    | inr opted_out ↦ rw opted_out (Calls-pure _ tt)
  ]
  unless_opted_out-SendsLimits (err (missing t)) rest h = h
  unless_opted_out-SendsLimits (err (broken t)) rest h = Calls-raise _ _

  -- `SetControllerReference` changes the owners only.
  module _
      (keeps : (route : R) (p q : Policy) → client.set_owner route p ≡ ok q → q.spec ≡ p.spec) where
    apply_owned-SendsLimits :
        (route : R) (policy : Policy)
        → HoldsLimits policy.spec
        → (r : Result Text Policy) → ((q : Policy) → r ≡ ok q → q.spec ≡ policy.spec)
        → Calls SendsLimits (apply_owned client route namespace name policy r)
    unfolding apply_owned apply_policy
    apply_owned-SendsLimits route policy h (ok owned) same =
        Calls-bind _ _ _
          (Calls-attempt _ _ (Calls-observe _ (client.get_policy owned.namespace owned.name)))
          (create_or_update-SendsLimits route owned (subst HoldsLimits (sym (same owned refl)) h))
    apply_owned-SendsLimits route policy h (err t) same = Calls-raise _ _

    module _ (subs : List MaasSubscription)
        (found : (find_all_subscriptions_for_model client namespace name w).0 ≡ ok subs) where
      build_policy-SendsLimits :
          (route_name route_namespace : Text) (route : R)
          → Calls SendsLimits
              (build_policy client namespace name route_name route_namespace subs route)
      unfolding build_policy
      build_policy-SendsLimits route_name route_namespace route =
          let infos = sub_infos namespace name subs in
          let policy = policy_of namespace name route_name route_namespace infos in
          let owned =
            apply_owned-SendsLimits route policy
              (built-HoldsLimits route_name route_namespace subs found)
              (client.set_owner route policy) (keeps route policy) in
          elim (Bool-cases (is_nil infos)) [
            | inl empty ↦ rw empty delete_model_trlp-SendsLimits
            | inr some_info ↦ rw some_info owned
          ]

      with_route-SendsLimits :
          (route_name route_namespace : Text)
          → Calls SendsLimits (with_route client namespace name route_name route_namespace subs)
      unfolding with_route fetch_route
      with_route-SendsLimits route_name route_namespace = elim (Bool-cases (is_nil subs)) [
        | inl empty ↦ rw empty (Calls-wrap _ _ _ delete_model_trlp-SendsLimits)
        | inr some_sub ↦
            let built : Calls SendsLimits (
                fetch_route client route_name route_namespace
                >>= build_policy client namespace name route_name route_namespace subs) =
              Calls-bind _ _ _
                (Calls-wrap _ _ _ (Calls-observe _ (client.get_route route_namespace route_name)))
                (build_policy-SendsLimits route_name route_namespace) in
            rw some_sub built
      ]

      by_route-SendsLimits :
          (r : Result RouteError (Text × Text))
          → Calls SendsLimits (by_route client namespace name subs r)
      unfolding by_route
      by_route-SendsLimits (err e) = without_route-SendsLimits subs e
      by_route-SendsLimits (ok (route_name, route_namespace)) =
          Calls-bind _ _ _ (Calls-attempt _ _ (Calls-observe _ (client.get_policy _ _)))
            (λ existing.
              unless_opted_out-SendsLimits existing _
                (with_route-SendsLimits route_name route_namespace))

    listing-SendsLimits : Calls SendsLimits (list_live client namespace name)
    unfolding list_live
    listing-SendsLimits =
        Calls-wrap _ _ _ (find_all_subscriptions_for_model-Calls client SendsLimits namespace name)

    listed_live :
        (subs : List MaasSubscription)
        → (list_live client namespace name w).0 ≡ ok subs
        → (find_all_subscriptions_for_model client namespace name w).0 ≡ ok subs
    unfolding list_live
    listed_live subs h =
        elim (Result-cases (find_all_subscriptions_for_model client namespace name w).0) [
          | inl (all, good) ↦ ground (arith, good)
          | inr (e, bad) ↦ absurd (ground (arith, bad))
        ]

    -- Whatever the cluster answers, each limit of a policy that the reconciliation of a model
    -- creates, or updates a policy to, comes from a subscription that the cluster lists for the
    -- model at its beginning, that is not being deleted and that references the model: its rates
    -- are the ones of the reference, each of them valid, or 100 tokens a minute where the reference
    -- has none; its predicate compares the selected subscription with this subscription and model;
    -- it counts by user. It is assumed that setting an owner keeps the spec of a policy.
    pub reconcile_trlp_for_model-SendsLimits :
        All SendsLimits (reconcile_trlp_for_model client namespace name w).2
    unfolding reconcile_trlp_for_model
    reconcile_trlp_for_model-SendsLimits =
        let start = list_live client namespace name w in
        let rest = λ (subs : List MaasSubscription).
          attempt (find_http_route_for_model client namespace name)
          >>= by_route client namespace name subs in
        Calls-and_then SendsLimits start.0 start.1 start.2 rest (listing-SendsLimits.holds w)
          (λ subs found.
            Calls-bind _ _ _
              (Calls-attempt _ _
                (find_http_route_for_model-Calls client SendsLimits namespace name))
              (by_route-SendsLimits subs (listed_live subs found)))
