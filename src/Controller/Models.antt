-- ===== src/Controller/Models.antt =====
-- maasmodelref_controller.go: the objects that the reconciler of model references reads, and what
-- the backends of the two kinds (providers_llmisvc.go, providers_external.go) make of them.
pub mod Endpoints
pub mod Backends
pub mod Reconcile
mod Tests
use models_as_a_service_mids.Prelude.{
  Text, codes, ◌==◌, cut_prefix, List, [], ◌∷◌, ◌++◌, any, find, Option, none, some, Bool, true,
  false, ◌&&◌, is_nil, if◌then◌else◌,
}
use models_as_a_service_mids.Prelude.Int.{ℤ}
use models_as_a_service_mids.Controller.Cluster.{StatusCondition}

-- `MaaSModelStatus`
pub record ModelStatus : Type 0 where
  pub phase : Text
  pub endpoint : Text
  pub route_name : Text
  pub route_namespace : Text
  pub gateway_name : Text
  pub gateway_namespace : Text
  pub hostnames : List Text
  pub conditions : List StatusCondition

pub record MaasModelRef : Type 0 where
  pub name : Text
  pub namespace : Text
  pub is_deleting : Bool
  pub generation : ℤ
  pub finalizers : List Text
  pub kind : Text
  pub target : Text
  pub endpoint_override : Text
  pub status : ModelStatus

-- A reference of a route to a gateway, in the namespace of the route where it names none.
pub record ParentRef : Type 0 where
  pub name : Text
  pub namespace : Option Text

-- A status of a route: the parent, and the types and statuses of its conditions.
pub record RouteParent : Type 0 where
  pub parent : ParentRef
  pub conditions : List (Text × Text)

pub record HttpRoute : Type 0 where
  pub name : Text
  pub parent_refs : List ParentRef
  pub hostnames : List Text
  pub parents : List RouteParent

-- The gateways listen at hostnames, and have addresses, some of them hostnames.
pub record Gateway : Type 0 where
  pub listeners : List (Option Text)
  pub addresses : List (Bool × Text)

-- An address of an LLMInferenceService, with its name and its URL.
pub record Address : Type 0 where
  pub name : Option Text
  pub url : Option Text

pub record LlmService : Type 0 where
  pub conditions : List (Text × Text)
  pub addresses : List Address
  pub url : Option Text

abbrev pub parent_namespace : Text → ParentRef → Text
parent_namespace route_namespace ref = elim ref.namespace [ none ↦ route_namespace | some ns ↦ ns ]

-- The loop over the parents of a route: whether the gateway is among them, and the name and the
-- namespace that are found, or the first ones that are not.
unfoldable pub gateway_loop :
    (gateway_name gateway_namespace route_namespace : Text)
    → List ParentRef
    → Text
    → Text
    → Bool × Text × Text
gateway_loop gateway_name gateway_namespace route_namespace [] name namespace =
    (false, name, namespace)
gateway_loop gateway_name gateway_namespace route_namespace (ref ∷ refs) name namespace =
    let ns = parent_namespace route_namespace ref in
    let first = gateway_loop gateway_name gateway_namespace route_namespace refs ref.name ns in
    let later = gateway_loop gateway_name gateway_namespace route_namespace refs name namespace in
    if ref.name == gateway_name && ns == gateway_namespace
    then (true, ref.name, ns)
    else if is_nil name
    then first
    else later

unfoldable pub find_gateway :
    (gateway_name gateway_namespace route_namespace : Text) → List ParentRef → Bool × Text × Text
unfolding gateway_loop
find_gateway gateway_name gateway_namespace route_namespace refs =
    gateway_loop gateway_name gateway_namespace route_namespace refs [] []

-- Some status of the route tells that the gateway has accepted it.
unfoldable pub is_gateway_accepted :
    (gateway_name gateway_namespace route_namespace : Text) → List RouteParent → Bool
unfolding any codes ◌==◌
is_gateway_accepted gateway_name gateway_namespace route_namespace parents =
    any
      (λ (p : RouteParent).
        p.parent.name == gateway_name
        && parent_namespace route_namespace p.parent == gateway_namespace
        && any (λ (c : Text × Text). c.0 == codes "Accepted" && c.1 == codes "True") p.conditions)
      parents

-- The Ready condition of an LLMInferenceService.
unfoldable pub is_llm_ready : LlmService → Bool
unfolding any codes ◌==◌
is_llm_ready service =
    any (λ (c : Text × Text). c.0 == codes "Ready" && c.1 == codes "True") service.conditions

-- `https://hostname/path`
unfoldable pub https_url : (hostname path : Text) → Text
unfolding codes
https_url hostname path = codes "https://" ++ (hostname ++ b'/' ∷ path)

unfoldable pub first_some : List (Option Text) → Option Text
first_some [] = none
first_some (some t ∷ _) = some t
first_some (none ∷ ts) = first_some ts

unfoldable pub first_address : List (Bool × Text) → Option Text
first_address [] = none
first_address ((_, value) ∷ _) = some value

unfoldable pub first_hostname : List (Bool × Text) → Option Text
first_hostname [] = none
first_hostname ((true, value) ∷ _) = some value
first_hostname ((false, _) ∷ rest) = first_hostname rest

abbrev pub or_else : Option Text → Option Text → Option Text
or_else (some t) _ = some t
or_else none u = u

-- The host at which a gateway is reached: a listener's, an address that is a hostname, any address.
unfoldable pub gateway_host : Gateway → Option Text
unfolding first_some first_hostname first_address
gateway_host gateway =
    or_else (first_some gateway.listeners)
      (or_else (first_hostname gateway.addresses) (first_address gateway.addresses))

-- The URLs of the addresses named `gateway-external`.
unfoldable pub external_urls : List Address → List Text
unfolding codes ◌==◌
external_urls [] = []
external_urls (a ∷ rest) =
    let later = external_urls rest in
    elim a.name [
      | none ↦ later
      | some name ↦ elim a.url [
        | none ↦ later
        | some url ↦ if name == codes "gateway-external" then url ∷ later else later
      ]
    ]

abbrev pub is_some {ℓ} : {A : Type ℓ} → Option A → Bool
is_some none = false
is_some (some _) = true

unfoldable pub is_https : Text → Bool
unfolding codes cut_prefix
is_https url = is_some (cut_prefix (codes "https://") url)

abbrev pub head_text : List Text → Option Text
head_text [] = none
head_text (t ∷ _) = some t

abbrev pub first_url : List Address → Option Text
first_url [] = none
first_url (a ∷ _) = a.url

-- `getEndpointFromLLMISvc`
unfoldable pub endpoint_from_llm : LlmService → Text
unfolding external_urls is_https find
endpoint_from_llm service =
    let urls = external_urls service.addresses in
    elim (or_else (find is_https urls)
      (or_else (head_text urls) (or_else (first_url service.addresses) service.url))) [
        | none ↦ []
        | some url ↦ url
      ]
