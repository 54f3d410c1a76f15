-- ===== src/Controller/Cleanup.antt =====
-- `deleteModelTRLP` and `cleanupStaleTRLPs`: the policies that are deleted.
use models_as_a_service_mids.Prelude.{
  Text, codes, contains, List, [], ◌++◌, map, Bool, ◌&&◌, not, is_nil, Result, ok, err,
  if◌then◌else◌,
}
use models_as_a_service_mids.Controller.Types.{ClientError, missing, broken, model_key, ref_key}
use models_as_a_service_mids.Controller.Texts.{split, text_at}
use models_as_a_service_mids.Controller.Run.{
  Run, pure, raise, observe, perform, wrap, attempt, ◌>>=◌, for_each,
}
use models_as_a_service_mids.Controller.Cluster.{
  MaasSubscription, Policy, is_managed, PolicyListError, absent, list_failed, Call, delete_policy,
  Client,
}
use models_as_a_service_mids.Controller.Limits.{managed_labels, model_labels}

-- An error of a deletion, unless the object is gone already.
unfoldable pub check_deleted :
    {W : Type 0} → Policy → Result ClientError (Unit {0}) → Run W Call Text (Unit {0})
unfolding codes model_key
check_deleted p (ok _) = pure tt
check_deleted p (err (missing _)) = pure tt
check_deleted p (err (broken e)) = raise (
    codes "failed to delete TokenRateLimitPolicy "
    ++ (model_key p.namespace p.name ++ (codes ": " ++ e)))

module _ {W R : Type 0} (client : Client W R) where
  -- One item of the loop of `deleteModelTRLP`.
  unfoldable pub delete_if_managed : Policy → Run W Call Text (Unit {0})
  unfolding check_deleted
  delete_if_managed p =
      if is_managed p
      then attempt (perform (delete_policy p) (client.send_delete p)) >>= check_deleted p
      else pure tt

  -- An item list, or what its error makes of it: nothing to do where the kind is not known.
  unfoldable pub listed_policies :
      Text → Result PolicyListError (List Policy) → Run W Call Text (List Policy)
  listed_policies what (ok policies) = pure policies
  listed_policies what (err absent) = pure []
  listed_policies what (err (list_failed e)) = raise (what ++ e)

  unfoldable pub delete_model_trlp :
      (model_namespace model_name : Text) → Run W Call Text (Unit {0})
  unfolding codes model_labels listed_policies delete_if_managed
  delete_model_trlp model_namespace model_name = do
    found ← attempt (observe (client.list_policies (model_labels model_namespace model_name)))
    policies ← listed_policies (codes "failed to list TokenRateLimitPolicy for cleanup: ") found
    for_each delete_if_managed policies

  -- The policy is for a model that the subscription does not reference, and its annotation names
  -- the subscription.
  unfoldable pub is_stale_policy : MaasSubscription → Policy → Bool
  unfolding codes text_at split
  is_stale_policy sub p =
      let model = text_at p.labels (codes "maas.opendatahub.io/model") in
      not (is_nil model)
      && not (contains (map ref_key sub.model_refs) (model_key p.namespace model))
      && contains (split b',' (text_at p.annotations (codes "maas.opendatahub.io/subscriptions")))
          sub.name

  unfoldable pub clean_up_policy : MaasSubscription → Policy → Run W Call Text (Unit {0})
  unfolding codes is_stale_policy text_at
  clean_up_policy sub p =
      let model = text_at p.labels (codes "maas.opendatahub.io/model") in
      let failure : Text → Text = λ e.
        codes "failed to clean up stale TokenRateLimitPolicy for removed model "
        ++ (model_key p.namespace model ++ (codes ": " ++ e)) in
      if is_stale_policy sub p then wrap failure (delete_model_trlp p.namespace model) else pure tt

  unfoldable pub cleanup_stale_trlps : MaasSubscription → Run W Call Text (Unit {0})
  unfolding codes managed_labels listed_policies clean_up_policy
  cleanup_stale_trlps sub = do
    found ← attempt (observe (client.list_policies managed_labels))
    policies ←
        listed_policies (codes "failed to list managed TokenRateLimitPolicies for stale cleanup: ")
          found
    for_each (clean_up_policy sub) policies
