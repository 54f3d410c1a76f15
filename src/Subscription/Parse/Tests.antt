-- ===== src/Subscription/Parse/Tests.antt =====
-- A cluster object that the parser reads, and its theorem at that object.
use models_as_a_service_mids.Prelude.{
  ℕ, ◌≡◌, refl, Text, codes, ◌==◌, trim_space, List, [], ◌∷◌, Option, none, some, Bool, All, ok,
}
use models_as_a_service_mids.Prelude.Int.{ℤ, pos, negsuc}
use models_as_a_service_mids.Controller.Texts.{lookup_key, text_at}
use models_as_a_service_mids.Subscription.Types.{Subscription}
use models_as_a_service_mids.Subscription.Parse.{
  Values, Object, field, keep_some, all_some, maps_field, max_of_limits, max_of_refs,
  parse_priority, parse_limit, parse_billing_rate, parse_model_ref, parse_status, parse_ready,
  parse_labels, parse_deletion, text_entry, parse_spec, parse_subscription, load_subscriptions,
}
use models_as_a_service_mids.Subscription.Parse.Limits.{IsBounded, load_subscriptions-IsBounded}

-- The values of a JSON object.
data Json : Type 0 where
  text : Text → Json
  int : ℤ → Json
  bool : Bool → Json
  entry : Text → Json → Json → Json
  empty : Json
  item : Json → Json → Json
  no_items : Json

abbrev entries : Json → Option (List (Text × Json))
entries (text t) = none
entries (int n) = none
entries (bool b) = none
entries (entry k v rest) = elim (entries rest) [ none ↦ none | some m ↦ some ((k, v) ∷ m) ]
entries empty = some []
entries (item v rest) = none
entries no_items = none

abbrev items : Json → Option (List Json)
items (text t) = none
items (int n) = none
items (bool b) = none
items (entry k v rest) = none
items empty = none
items (item v rest) = elim (items rest) [ none ↦ none | some vs ↦ some (v ∷ vs) ]
items no_items = some []

abbrev text_of : Json → Option Text
text_of (text t) = some t
text_of _ = none

abbrev int_of : Json → Option ℤ
int_of (int n) = some n
int_of _ = none

abbrev bool_of : Json → Option Bool
bool_of (bool b) = some b
bool_of _ = none

abbrev json : Values Json
json = record {
  as_text = text_of;
  as_int = int_of;
  as_bool = bool_of;
  as_map = entries;
  as_list = items;
}

abbrev limit_of : ℤ → Json
limit_of n = entry (codes "limit") (int n) (entry (codes "window") (text (codes "1m")) empty)

-- Two models with three limits, a text among the limits, and a priority that fits no int32.
abbrev gold : Object Json
gold = record {
  name = codes "gold";
  namespace = codes "maas";
  annotations = [];
  content =
      (
        codes "spec",
        entry (codes "priority") (int (pos 2_147_483_648)) (
            entry (codes "modelRefs")
              (item
                (entry (codes "name") (text (codes "m1")) (
                  entry (codes "tokenRateLimits")
                    (item (limit_of (pos 100))
                      (item (text (codes "x")) (item (limit_of (negsuc 4)) no_items)))
                    empty))
                (item
                  (entry (codes "name") (text (codes "m2"))
                    (entry (codes "tokenRateLimits") (item (limit_of (pos 70)) no_items) empty))
                  no_items))
              empty),
      )
      ∷ [];
}

-- An object that is skipped, since it has no spec.
abbrev bare : Object Json
bare = record { name = codes "bare"; namespace = codes "maas"; annotations = []; content = [] }

abbrev loaded : List Subscription
loaded = keep_some (parse_subscription json) (bare ∷ gold ∷ [])

-- The priority that fits no int32 is 0, and the greatest limit is 100.
abbrev summary : List Subscription → List (Text × ℕ × ℤ)
summary [] = []
summary (s ∷ ss) = (s.name, s.priority, s.max_limit) ∷ summary ss

loads_gold : summary loaded ≡ ((codes "gold", 0, pos 100) ∷ [])
unfolding keep_some parse_subscription field codes ◌==◌ lookup_key text_at parse_spec maps_field
    all_some max_of_limits max_of_refs parse_priority parse_limit parse_billing_rate parse_model_ref
    parse_status parse_ready parse_labels parse_deletion text_entry trim_space
loads_gold = refl

loads : load_subscriptions json (ok (bare ∷ gold ∷ [])) ≡ ok loaded
unfolding load_subscriptions
loads = refl

load_subscriptions_example : All IsBounded loaded
load_subscriptions_example = load_subscriptions-IsBounded json (ok (bare ∷ gold ∷ [])) loaded loads
