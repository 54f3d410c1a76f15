-- ===== src/Controller/Quiet/Phase.antt =====
-- The phase that `Reconcile` writes for a live subscription.
use models_as_a_service_mids.Prelude.{
  Text, ◌≡◌, ◌≢◌, ◌↔◌, refl, sym, ap, subst, ◌∙◌, List, [], ◌++◌, some, true, false, All, Result,
  ok, err, contains_char, arith, if◌then◌else◌,
}
use mathlib.Core.List.{append-nil}
use models_as_a_service_mids.Controller.Types.{
  Phase, active, failed, ModelSubscriptionRef, ModelRefStatus,
}
use models_as_a_service_mids.Controller.Status.{
  ReadModel, StatusOutcome, validate_model_refs, derive_status,
}
use models_as_a_service_mids.Controller.Status.Health.{IsServed, derive_status-active_iff}
use models_as_a_service_mids.Controller.Run.{Run, pure, raise, perform, attempt, and_then, ◌>>=◌}
use models_as_a_service_mids.Controller.Cluster.{
  MaasSubscription, Call, update_subscription, Client,
}
use models_as_a_service_mids.Controller.Reconcile.{
  finalizer, read_models, with_models, with_policies, message_text, failure_text, update_status,
  handle_deletion, ensure_finalizer, reconcile_policies, report, reconcile_live, found_subscription,
  reconcile,
}
use models_as_a_service_mids.Controller.Quiet.Reads.{IsQuiet}
use models_as_a_service_mids.Controller.Quiet.Written.{Writes, Reports, update_status-Reports}
use models_as_a_service_mids.Controller.Quiet.Report.{
  model_now, route_now, policy_now, read_models-now, report-derives,
}

some-inj {ℓ} : {A : Type ℓ} {a b : A} → some a ≡ some b → a ≡ b
some-inj h = cc

module _ {W R : Type 0} (client : Client W R) where
  -- What is left of a reconciliation once the models are read.
  abbrev after_models :
      MaasSubscription → List ModelRefStatus → W → Result Text (Unit {0}) × W × List Call
  after_models sub models w =
      let p = reconcile_policies client sub models w in
      let q = report client sub models sub.status p.0 p.1 in (q.0, q.1, p.2 ++ q.2)

  reconcile-live :
      (namespace name : Text) (sub : MaasSubscription) (w : W)
      → client.get_subscription namespace name w ≡ (ok sub, w)
      → sub.is_deleting ≡ false
      → client.has_finalizer sub.finalizers finalizer ≡ true
      → IsQuiet client w
      → reconcile client namespace name w
        ≡ after_models sub (validate_model_refs (model_now client w) sub.model_refs) w
  unfolding reconcile found_subscription reconcile_live ensure_finalizer
  reconcile-live namespace name sub w found live held quiet =
      let held_back = record sub { finalizers = client.add_finalizer sub.finalizers finalizer } in
      let rest : MaasSubscription → Run W Call Text (Unit {0}) = λ sub'.
        read_models client sub' >>= (λ models.
          attempt (reconcile_policies client sub' models)
          >>= report client sub' models sub'.status) in
      ap (λ g. found_subscription client g.0 g.1) found
      ∙ ap (λ b. (if b then handle_deletion client sub else reconcile_live client sub) w) live
      ∙ ap
          (λ b.
            ((if b
                  then pure sub
                  else perform (update_subscription held_back) (client.send_subscription held_back))
                >>= rest)
              w)
          held
      ∙ ap
          (λ z. and_then z.0 z.1 z.2 (λ models.
            attempt (reconcile_policies client sub models) >>= report client sub models sub.status))
          (read_models-now client w quiet sub)

  report_error :
      (sub : MaasSubscription) (models : List ModelRefStatus) (e : Text) (w : W)
      → Reports client sub sub.status failed (err e) (report client sub models sub.status (err e) w)
  unfolding report
  report_error sub models e w =
      let known = with_models client sub models in
      let text = failure_text client models e in
      let done = update_status client known failed text sub.status w in
      let r = update_status-Reports client known failed text sub.status w in
      let raised : and_then done.0 done.1 done.2 (λ (u : Unit {0}). raise e)
          ≡ (err e, done.1, done.2 ++ []) =
        ap (λ z. and_then z done.1 done.2 (λ (u : Unit {0}). raise e)) r.answered in
      record {
        written = r.written;
        same_name = r.same_name;
        same_namespace = r.same_namespace;
        of_phase = r.of_phase;
        answered = ap (λ z. z.0) raised;
        writes =
            subst (Writes client sub.status r.written)
              (sym (ap (λ z. z.2) raised ∙ append-nil done.2)) r.writes;
      }

  module _ (get_model : ReadModel) (sub : MaasSubscription) (w : W) (quiet : IsQuiet client w) where
    abbrev outcome : StatusOutcome
    outcome = derive_status get_model (route_now client w) (policy_now client w) sub.model_refs

    abbrev phase_of : Result Text (Unit {0}) → Phase
    phase_of (ok _) = outcome.phase
    phase_of (err _) = failed

    report-Reports :
        (r : Result Text (Unit {0}))
        → Reports client sub sub.status
            (phase_of r)
            r
            (report client sub (validate_model_refs get_model sub.model_refs) sub.status r w)
    report-Reports (err e) = report_error sub (validate_model_refs get_model sub.model_refs) e w
    report-Reports (ok u) =
        let o = outcome in
        let known = with_models client (with_policies client sub o.policies) o.models in
        let r = update_status-Reports client known o.phase (message_text o.message) sub.status w in
        let same = report-derives client w quiet get_model sub sub.status in
        record {
          written = r.written;
          same_name = r.same_name;
          same_namespace = r.same_namespace;
          of_phase = r.of_phase;
          answered = ap (λ z. z.0) same ∙ r.answered;
          writes = subst (Writes client sub.status r.written) (sym (ap (λ z. z.2) same)) r.writes;
        }

    abbrev AllServed : Type 0
    AllServed =
        (sub.model_refs ≢ [])
        × All
            (λ (ref : ModelSubscriptionRef).
              IsServed get_model (route_now client w) (policy_now client w) ref.namespace ref.name)
            sub.model_refs

    phase_of-active :
        (r : Result Text (Unit {0}))
        → All
            (λ (ref : ModelSubscriptionRef). contains_char b'/' ref.namespace ≡ false)
            sub.model_refs
        → (phase_of r ≡ active) ↔ ((r ≡ ok tt) × AllServed)
    phase_of-active (err e) clean = (λ h. absurd (ground arith), λ (h, _). absurd (ground arith))
    phase_of-active (ok u) clean =
        let (to, from) =
          derive_status-active_iff get_model (route_now client w) (policy_now client w)
            sub.model_refs clean in
        (λ h. (refl, to h), λ (_, served). from served)

  -- A reconciliation of a live subscription that holds its finalizer, in a world that reads leave
  -- as it is both before and after the policies are reconciled, and where no namespace of a model
  -- contains a slash: it answers what the reconciliation of the policies answered, and after its
  -- calls writes at most the status of this subscription, and writes it unless it is as before. The
  -- phase of that status is Active exactly if the policies were reconciled without an error and
  -- the subscription references a model, each of which was there before and has afterwards a route
  -- and, in the namespace of the route, a policy that is accepted.
  pub reconcile-active_iff :
      (namespace name : Text) (sub : MaasSubscription) (w : W)
      → client.get_subscription namespace name w ≡ (ok sub, w)
      → sub.is_deleting ≡ false
      → client.has_finalizer sub.finalizers finalizer ≡ true
      → All
          (λ (ref : ModelSubscriptionRef). contains_char b'/' ref.namespace ≡ false)
          sub.model_refs
      → IsQuiet client w
      → IsQuiet client
          (reconcile_policies client sub
            (validate_model_refs (model_now client w) sub.model_refs)
            w).1
      → let p =
          reconcile_policies client sub
            (validate_model_refs (model_now client w) sub.model_refs)
            w in
        let r = reconcile client namespace name w in
        (written : MaasSubscription) × (calls : List Call) × (written.name ≡ sub.name)
        × (written.namespace ≡ sub.namespace)
        × (r.0 ≡ p.0)
        × (r.2 ≡ p.2 ++ calls)
        × Writes client sub.status written calls
        × ((written.status.phase ≡ some active) ↔ (
            (p.0 ≡ ok tt)
            × (sub.model_refs ≢ [])
            × All
                (λ (ref : ModelSubscriptionRef).
                  IsServed
                    (model_now client w)
                    (route_now client p.1)
                    (policy_now client p.1)
                    ref.namespace
                    ref.name)
                sub.model_refs))
  reconcile-active_iff namespace name sub w found live held clean quiet settled =
      let get_model = model_now client w in
      let models = validate_model_refs get_model sub.model_refs in
      let p = reconcile_policies client sub models w in
      let q = report client sub models sub.status p.0 p.1 in
      let ran = reconcile-live namespace name sub w found live held quiet in
      let told = report-Reports get_model sub p.1 settled p.0 in
      let (to, from) = phase_of-active get_model sub p.1 settled p.0 clean in
      (
        told.written,
        q.2,
        told.same_name,
        told.same_namespace,
        ap (λ z. z.0) ran ∙ told.answered,
        ap (λ z. z.2) ran,
        told.writes,
        (
          λ h.
              let (done, served) = to (some-inj (sym told.of_phase ∙ h)) in
              (done, served.0, served.1),
          λ (done, listed, served). told.of_phase ∙ ap some (from (done, (listed, served))),
        ),
      )
