-- ===== src/Subscription/Handler.antt =====
-- handler.go: the endpoint that Authorino asks for a subscription, and the two listings. Every
-- answer of the selection has the code 200; Authorino reads its `error` field.
pub mod Selection
use models_as_a_service_mids.Prelude.{
  ℕ, Text, codes, List, [], ◌++◌, map, none, is_nil, Result, ok, err, false, if◌then◌else◌,
}
use models_as_a_service_mids.Token.{UserContext, Context, absent, wrong_type, present}
use models_as_a_service_mids.Subscription.Types.{
  SelectRequest, SelectResponse, SubscriptionInfo, SelectError, no_subscription,
  subscription_not_found, access_denied, multiple_subscriptions, model_not_in_subscription,
  model_unhealthy, response_to_subscription_info, error_message,
}
use models_as_a_service_mids.Subscription.Selector.{
  Loaded, select, get_all_accessible, list_accessible_for_model,
}

-- A `SelectResponse` with an error, a message and a phase only.
abbrev pub refusal : Text → Text → Text → SelectResponse
refusal error message phase = record {
  name = [];
  namespace = [];
  display_name = [];
  description = [];
  priority = 0;
  model_refs = [];
  organization_id = [];
  cost_center = [];
  labels = none;
  phase = phase;
  ready = false;
  deletion_timestamp = [];
  error = error;
  message = message;
}

unfoldable pub select_failure : SelectError → SelectResponse
unfolding codes error_message
select_failure no_subscription = refusal (codes "not_found") (error_message no_subscription) []
select_failure (subscription_not_found s) =
    refusal (codes "not_found") (error_message (subscription_not_found s)) []
select_failure (access_denied s) =
    refusal (codes "access_denied") (error_message (access_denied s)) []
select_failure (multiple_subscriptions names) =
    refusal (codes "multiple_subscriptions") (error_message (multiple_subscriptions names)) []
select_failure (model_not_in_subscription s m) =
    refusal (codes "model_not_in_subscription") (error_message (model_not_in_subscription s m)) []
select_failure (model_unhealthy s phase reason text) = refusal (codes "model_unhealthy") text phase
select_failure e =
    refusal (codes "internal_error") (codes "failed to select subscription: " ++ error_message e) []

-- The outcome of decoding the request is an argument.
unfoldable pub select_subscription : Loaded → Result Text SelectRequest → SelectResponse
unfolding select_failure codes
select_subscription loaded (err e) =
    refusal (codes "bad_request") (codes "invalid request body: " ++ e) []
select_subscription loaded (ok req) =
    elim (select loaded req.groups req.username req.requested_subscription req.requested_model) [
      | err e ↦ select_failure e
      | ok response ↦ response
    ]

-- An error body with its code, message and type.
pub record ListError : Type 0 where
  pub code : ℕ
  pub message : Text
  pub type_name : Text

abbrev pub server_error : Text → ListError
server_error text = record { code = 500; message = text; type_name = codes "server_error" }

list_failure : {A : Type 0} → Text → Result SelectError A → Result ListError A
list_failure text (ok x) = ok x
list_failure text (err e) = err (server_error text)

unfoldable pub list_subscriptions : Loaded → Context → Result ListError (List SubscriptionInfo)
unfolding list_failure codes
list_subscriptions loaded absent = err (server_error (codes "Internal server error"))
list_subscriptions loaded wrong_type = err (server_error (codes "Internal server error"))
list_subscriptions loaded (present user) =
    elim (list_failure (codes "Failed to list subscriptions")
      (get_all_accessible loaded user.groups user.username)) [
        | err e ↦ err e
        | ok accessible ↦ ok (map response_to_subscription_info accessible)
      ]

unfoldable pub list_subscriptions_for_model :
    Loaded → Context → Text → Result ListError (List SubscriptionInfo)
unfolding list_failure codes
list_subscriptions_for_model loaded absent model_id =
    err (server_error (codes "Internal server error"))
list_subscriptions_for_model loaded wrong_type model_id =
    err (server_error (codes "Internal server error"))
list_subscriptions_for_model loaded (present user) model_id =
    if is_nil model_id
    then err (record {
      code = 400;
      message = codes "model-id is required";
      type_name = codes "invalid_request_error";
    })
    else list_failure (codes "Failed to list subscriptions")
        (list_accessible_for_model loaded user.username user.groups model_id)
