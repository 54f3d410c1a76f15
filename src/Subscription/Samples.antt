-- ===== src/Subscription/Samples.antt =====
-- Loaded subscriptions for the tests: one for a user, and two for a group.
use models_as_a_service_mids.Prelude.{Text, codes, [], ◌∷◌, none, true}
use models_as_a_service_mids.Prelude.Int.{pos}
use models_as_a_service_mids.Subscription.Types.{
  Subscription, ModelRefInfo, TokenRateLimitStatus, phase_active, phase_degraded, phase_failed,
}

abbrev pub llama : ModelRefInfo
llama = record {
  name = codes "llama";
  namespace = codes "llm";
  token_rate_limits = record { limit = pos 100; window = codes "1m" } ∷ [];
  billing_rate = none;
}

abbrev status : Text → TokenRateLimitStatus
status namespace = record {
  model = codes "llama";
  name = codes "maas-trlp-llama";
  namespace = namespace;
  ready = true;
  reason = codes "Accepted";
  message = [];
}

abbrev pub ready_elsewhere : TokenRateLimitStatus
ready_elsewhere = status (codes "other")

abbrev pub basic : Subscription
basic = record {
  name = codes "basic";
  namespace = codes "maas";
  display_name = [];
  description = [];
  groups = [];
  users = codes "alice" ∷ [];
  priority = 1;
  max_limit = pos 100;
  organization_id = [];
  cost_center = [];
  labels = none;
  model_refs = llama ∷ [];
  phase = phase_active;
  ready = true;
  deletion_timestamp = none;
  token_rate_limit_statuses = [];
}

abbrev pub premium : Subscription
premium = record basic {
  name = codes "premium";
  users = [];
  groups = codes "team" ∷ [];
  priority = 5;
}

abbrev pub degraded : Subscription
degraded = record premium {
  phase = phase_degraded;
  token_rate_limit_statuses = ready_elsewhere ∷ [];
}

abbrev pub failed : Subscription
failed = record basic { phase = phase_failed }
