-- ===== src/Controller/Models/Tests.antt =====
-- The theorems on model references and on duplicate priorities at concrete inputs.
use models_as_a_service_mids.Prelude.{
  Text, codes, ◌≡◌, ◌≢◌, ◌↔◌, List, [], ◌∷◌, Memᴰ, none, some, true, false, ok, err,
}
use models_as_a_service_mids.Prelude.Int.{pos}
use models_as_a_service_mids.Controller.Types.{missing}
use models_as_a_service_mids.Controller.Run.Logs.{Calls}
use models_as_a_service_mids.Controller.Cluster.{MaasSubscription}
use models_as_a_service_mids.Controller.Duplicates.{
  subscription_key, live, peers, desired_condition,
}
use models_as_a_service_mids.Controller.Duplicates.Peers.{desired_condition_iff}
use models_as_a_service_mids.Controller.Models.{MaasModelRef, ParentRef, find_gateway}
use models_as_a_service_mids.Controller.Models.Endpoints.{IsParent, find_gateway_iff}
use models_as_a_service_mids.Controller.Models.Backends.{ModelClient}
use models_as_a_service_mids.Controller.Models.Reconcile.{reconcile_model}
use models_as_a_service_mids.Controller.Models.Reconcile.Ready.{reconcile_model-IsSound}
use models_as_a_service_mids.Controller.Models.Backends.Known.{IsSound}

abbrev subscription : Text → MaasSubscription
subscription name = record {
  name = name;
  namespace = [];
  is_deleting = false;
  generation = pos 1;
  finalizers = [];
  priority = pos 5;
  model_refs = [];
  status = record {
    phase = none;
    conditions = [];
    model_ref_statuses = [];
    token_rate_limit_statuses = [];
  };
}

abbrev gold : MaasSubscription
unfolding codes
gold = subscription (codes "gold")

abbrev silver : MaasSubscription
unfolding codes
silver = subscription (codes "silver")

desired_condition_example :
    ((desired_condition (pos 1) (pos 5) (peers (live (gold ∷ silver ∷ [])) gold)).status
      ≡ codes "True")
    ↔ ((t : MaasSubscription) × Memᴰ t (gold ∷ silver ∷ [])
        × (t.is_deleting ≡ false)
        × (t.priority ≡ pos 5)
        × (subscription_key t ≢ subscription_key gold))
unfolding gold silver
desired_condition_example = desired_condition_iff (gold ∷ silver ∷ []) gold (pos 1)

abbrev parents : List ParentRef
unfolding codes
parents =
    record { name = codes "other"; namespace = none }
    ∷ record { name = codes "gateway"; namespace = some (codes "ingress") }
    ∷ []

find_gateway_example :
    (((find_gateway (codes "gateway") (codes "ingress") (codes "models") parents).0 ≡ true) ↔ (
      (ref : ParentRef) × Memᴰ ref parents
      × IsParent (codes "gateway") (codes "ingress") (codes "models") ref))
    × ((ref : ParentRef)
        → Memᴰ ref parents
        → IsParent (codes "gateway") (codes "ingress") (codes "models") ref
        → find_gateway (codes "gateway") (codes "ingress") (codes "models") parents
          ≡ (true, codes "gateway", codes "ingress"))
find_gateway_example = find_gateway_iff (codes "gateway") (codes "ingress") (codes "models") parents

abbrev llm : MaasModelRef
unfolding codes
llm = record {
  name = codes "llm";
  namespace = codes "models";
  is_deleting = false;
  generation = pos 1;
  finalizers = [];
  kind = codes "LLMInferenceService";
  target = codes "llm";
  endpoint_override = [];
  status = record {
    phase = [];
    endpoint = [];
    route_name = [];
    route_namespace = [];
    gateway_name = [];
    gateway_namespace = [];
    hostnames = [];
    conditions = [];
  };
}

-- A cluster with the model, a route to the gateway and a ready service.
abbrev cluster : ModelClient (Unit {0})
unfolding codes
cluster = record {
  gateway_name = codes "gateway";
  gateway_namespace = codes "ingress";
  get_model = λ namespace name w. (ok llm, w);
  list_routes = λ namespace labels w. (
    ok (
        record {
          name = codes "route";
          parent_refs = parents;
          hostnames = codes "models.example" ∷ [];
          parents = [];
        }
        ∷ []),
    w,
  );
  get_route = λ namespace name w. (err (missing []), w);
  get_external_model = λ namespace name w. (err (missing []), w);
  get_llm_service = λ namespace name w. (
    ok (record { conditions = (codes "Ready", codes "True") ∷ []; addresses = []; url = none }),
    w,
  );
  get_gateway = λ namespace name w. (err (missing []), w);
  list_generated = λ kind namespace labels w. (ok [], w);
  send_delete = λ kind p w. (ok tt, w);
  send_model = λ m w. (ok m, w);
  send_status = λ m w. (ok tt, w);
  same_status = λ s t. false;
  set_condition = λ conditions c. c ∷ conditions;
  has_finalizer = λ finalizers name. true;
  add_finalizer = λ finalizers name. name ∷ finalizers;
  remove_finalizer = λ finalizers name. [];
}

reconcile_model_example : Calls IsSound (reconcile_model cluster (codes "models") (codes "llm"))
reconcile_model_example = reconcile_model-IsSound cluster (codes "models") (codes "llm")
