-- ===== src/Controller/Quiet/Written.antt =====
-- What `updateStatus` writes.
use models_as_a_service_mids.Prelude.{
  Text, ◌≡◌, ◌⊎◌, inl, inr, refl, ap, List, [], ◌∷◌, some, true, false, Bool-cases, Result, ok,
  if◌then◌else◌,
}
use models_as_a_service_mids.Controller.Types.{Phase, ClientError}
use models_as_a_service_mids.Controller.Run.{pure}
use models_as_a_service_mids.Controller.Cluster.{
  MaasSubscription, SubscriptionStatus, Call, update_subscription_status, Client,
}
use models_as_a_service_mids.Controller.Reconcile.{
  with_phase, write_status, send_status_of, update_status,
}

-- The calls that write the status: one, or none if the status is as it was.
abbrev pub Writes :
    {W R : Type 0} → Client W R → SubscriptionStatus → MaasSubscription → List Call → Type 0
Writes client before written calls =
    ((client.same_status before written.status ≡ false)
      × (calls ≡ update_subscription_status written ∷ []))
    ⊎ ((client.same_status before written.status ≡ true) × (calls ≡ []))

module _ {W R : Type 0} (client : Client W R) where
  -- A method that reports a phase of a subscription: what it answers, and what it writes.
  pub record Reports (sub : MaasSubscription) (before : SubscriptionStatus) (phase : Phase)
      (answer : Result Text (Unit {0})) (done : Result Text (Unit {0}) × W × List Call)
      : Type 0 where
    pub written : MaasSubscription
    pub same_name : written.name ≡ sub.name
    pub same_namespace : written.namespace ≡ sub.namespace
    pub of_phase : written.status.phase ≡ some phase
    pub answered : done.0 ≡ answer
    pub writes : Writes client before written done.2

  write_status-Reports :
      (sub : MaasSubscription) (phase : Phase) (message : Text) (before : SubscriptionStatus)
      (latest : Result ClientError MaasSubscription) (w : W)
      → Reports sub before phase (ok tt) (write_status client sub phase message before latest w)
  unfolding write_status with_phase send_status_of
  write_status-Reports sub phase message before latest w =
      let written = with_phase client sub phase message latest in
      elim (Bool-cases (client.same_status before written.status)) [
        | inl same ↦ record {
          written = written;
          same_name = refl;
          same_namespace = refl;
          of_phase = refl;
          answered = ap (λ b. ((if b then pure tt else send_status_of client written) w).0) same;
          writes =
              inr
                (same, ap (λ b. ((if b then pure tt else send_status_of client written) w).2) same);
        }
        | inr other ↦ record {
          written = written;
          same_name = refl;
          same_namespace = refl;
          of_phase = refl;
          answered = ap (λ b. ((if b then pure tt else send_status_of client written) w).0) other;
          writes =
              inl (
                other,
                ap (λ b. ((if b then pure tt else send_status_of client written) w).2) other,
              );
        }
      ]

  pub update_status-Reports :
      (sub : MaasSubscription) (phase : Phase) (message : Text) (before : SubscriptionStatus)
      (w : W)
      → Reports sub before phase (ok tt) (update_status client sub phase message before w)
  unfolding update_status
  update_status-Reports sub phase message before w =
      let g = client.get_subscription sub.namespace sub.name w in
      let r = write_status-Reports sub phase message before g.0 g.1 in
      record {
        written = r.written;
        same_name = r.same_name;
        same_namespace = r.same_namespace;
        of_phase = r.of_phase;
        answered = r.answered;
        writes = r.writes;
      }
