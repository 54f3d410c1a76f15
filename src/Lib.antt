-- ===== src/Lib.antt =====
-- The subscriptions and API keys of maas-api, the service in front of the models, and the
-- reconciler of subscriptions of maas-controller.
--
-- A user reaches a model through a subscription. A request names a subscription or leaves the
-- choice to the selector; an API key is bound to one when it is created, and Authorino asks the
-- service to validate the key with every request. The controller builds the rate limits of each
-- model from the subscriptions to it and reports which subscriptions work; the phases that it writes
-- are the ones that the selector reads. The parts of maas-api, with paths below maas-api/internal:
--
-- + Subscription (subscription/selector.go, types.go). Types has the records and errors with their
--   conversions; Access has userHasAccess, subscriptionIncludesModel and hasModel; Health has
--   checkModelHealth; Priority has sortSubscriptionsByPriority; Selector has Select,
--   SelectHighestPriority, GetAllAccessible and ListAccessibleForModel, each a function of the
--   loaded subscriptions; Handler has the three endpoints (subscription/handler.go); Parse has
--   loadSubscriptions and the parser of cluster objects.
-- + ApiKeys.Base62 and ApiKeys.Keygen (api_keys/keygen.go): the format of a key, its generation
--   from two random reads and its salted hash.
-- + ApiKeys.Types, ApiKeys.Store (api_keys/types.go, store_interface.go): the data, the errors and
--   the interface MetadataStore, a record of state-passing operations.
-- + ApiKeys.MockStore, ApiKeys.Search, ApiKeys.InMemory (api_keys/store_mock.go): the in-memory
--   store, one function per method, and the store as a MetadataStore.
-- + ApiKeys.Service (api_keys/service.go): creation, validation, search and revocation over any
--   MetadataStore and any SubscriptionSelector.
-- + ApiKeys.Handler (api_keys/handler.go): the HTTP handlers over the service, Handler.Creation and
--   Handler.Searching for the two long ones.
-- + Token (token/types.go): the user in the context of a request.
-- + Prelude: lists, texts, stable sorting, results, int64.
--
-- The parts of maas-controller, with paths below maas-controller/pkg/controller/maas, all of them
-- modules of Controller:
--
-- + Types, Cluster: the API types (maas-controller/api/maas/v1alpha1), the objects of the cluster and
--   the record Client of the calls of its API. Run: a method that reads and changes a world, may fail
--   and keeps a log of the calls that change the cluster; Run.Logs: what a log can hold. Texts:
--   functions of the standard library.
-- + RateLimit: validateTokenRateLimit. Status: validateModelRefs, checkTokenRateLimitHealth,
--   getTRLPAcceptedCondition and deriveFinalPhase over the outcomes of the reads
--   (maassubscription_controller.go).
-- + Routes: findAllSubscriptionsForModel, findHTTPRouteForModel and the resolvers of both kinds
--   (helpers.go, providers.go, providers_llmisvc.go, providers_external.go).
-- + Limits, Cleanup, Policies: the limits and the policy that reconcileTRLPForModel builds, the
--   deletion of policies, and the method itself. Reconcile: Reconcile, handleDeletion, updateStatus.
-- + Duplicates: scanForDuplicatePriority. OptOut, Release, Quiet, Skipped, Sent, Limits.Live: theorems
--   on the whole.
-- + Models: the reconciler of model references (maasmodelref_controller.go) with the handlers of both
--   kinds: Backends, which has the record ModelClient of the calls they make, and Reconcile.
--
-- How the code is represented. A text is the list of its code points. A time is a number of
-- nanoseconds since the zero time, a duration an int64 with its wrap-around written out. A Go map is
-- a list of entries in the order in which `range` visits them, and each theorem holds for every
-- order. A method that holds the mutex is one step from state to state; an error leaves with the
-- state too. The loop of encodeBase62 recurses on the accessibility of its number, so no fuel is
-- needed. sort.Slice is taken to be stable; no theorem but the ones on sorted output depends on it.
--
-- What comes from outside is an argument: SHA-256, the random reads, new UUIDs and their test,
-- the clock, formatting and parsing of RFC 3339 times, ToLower, the decoding of request bodies
-- and the administrator check of the cluster, the type assertions on the values of an
-- unstructured object; for the controller the calls of the cluster's API, each of which may find
-- the world changed, SetControllerReference, the comparison of objects, and the handling of
-- conditions and finalizers.
--
-- Not modelled: the PostgreSQL store (SQL run by a server), the model listing, the token
-- middleware, configuration, logging and start-up; of the controller the watch mappers, and the
-- reconcilers of auth policies, tenants and external models.
mod Prelude
pub mod Token
pub mod Subscription
pub mod ApiKeys
pub mod Controller
