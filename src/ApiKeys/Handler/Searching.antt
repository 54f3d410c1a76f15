-- ===== src/ApiKeys/Handler/Searching.antt =====
-- handler.go, `SearchAPIKeys`: the checks on the request, in the order of the code, and the answer.
-- `to_lower` is the standard library's `strings.ToLower`.
pub mod Scope
use models_as_a_service_mids.Prelude.{
  ℕ, Text, codes, ◌==◌, trim_space, any, find, List, [], ◌∷◌, ◌++◌, Option, none, some, Bool, true,
  false, ◌&&◌, not, is_nil, Result, ok, err, ◌>>=◌, if◌then◌else◌,
}
use models_as_a_service_mids.Prelude.Int.{ℤ, pos, ltb_ℤ}
use models_as_a_service_mids.ApiKeys.Types.{
  Time, PaginationParams, SearchFilters, SortParams, default_sort_by, sort_order_desc,
  default_limit, max_limit, valid_sort_fields, valid_sort_orders, valid_statuses,
}
use models_as_a_service_mids.ApiKeys.Store.{MetadataStore}
use models_as_a_service_mids.ApiKeys.Service.{search_api_keys}
use models_as_a_service_mids.ApiKeys.Handler.{
  UserContext, Context, Response, answer, page_body, get_user_context,
}

-- The body of the request; each part may be missing.
pub record SearchApiKeysRequest : Type 0 where
  pub filters : Option SearchFilters
  pub sort : Option SortParams
  pub pagination : Option PaginationParams

-- What the handler asks of the service.
pub record Query : Type 0 where
  pub username : Text
  pub filters : SearchFilters
  pub sort : SortParams
  pub pagination : PaginationParams

-- Membership in an allowlist.
abbrev pub is_among : List Text → Text → Bool
is_among allowed t = any (λ a. a == t) allowed

unfoldable pub default_filters : Option SearchFilters → SearchFilters
default_filters none = record { username = []; status = []; include_ephemeral = none }
default_filters (some f) = f

unfoldable pub default_sort : Option SortParams → SortParams
default_sort none = record { by = default_sort_by; order = sort_order_desc }
default_sort (some s) = s

unfoldable pub default_pagination : Option PaginationParams → PaginationParams
default_pagination none = record { limit = default_limit; offset = pos 0 }
default_pagination (some p) = p

unfoldable pub check_statuses : List Text → Result Response (Unit {0})
unfolding codes
check_statuses statuses = elim (find (λ s. not (is_among valid_statuses (trim_space s))) statuses) [
  | none ↦ ok tt
  | some s ↦ err (
      answer 400
        (codes "invalid status '" ++ (s ++ codes "': must be active, revoked, or expired")))
]

-- The user whose keys are searched; no name stands for all users.
unfoldable pub target_username : Bool → UserContext → Text → Result Response Text
unfolding codes
target_username is_admin user asked =
    if is_admin
    then ok asked
    else if not (is_nil asked) && not (asked == user.username)
    then err (answer 403 (codes "non-admin users can only search their own API keys"))
    else ok user.username

unfoldable pub check_sort : (Text → Text) → SortParams → Result Response SortParams
unfolding codes
check_sort to_lower sort =
    let order = to_lower (trim_space sort.order) in
    if not (is_nil sort.by) && not (is_among valid_sort_fields sort.by)
    then err (
        answer 400
          (codes "invalid sort.by: must be one of: created_at, expires_at, last_used_at, name"))
    else if is_nil sort.order
    then ok sort
    else if not (is_among valid_sort_orders order)
    then err (answer 400 (codes "invalid sort.order: must be asc or desc"))
    else ok (record sort { order = order })

unfoldable pub check_pagination : PaginationParams → Result Response PaginationParams
unfolding codes
check_pagination p =
    if ltb_ℤ p.limit (pos 1)
    then err (answer 400 (codes "pagination.limit must be at least 1"))
    else if ltb_ℤ p.offset (pos 0)
    then err (answer 400 (codes "pagination.offset must be non-negative"))
    else ok (record p { limit = if ltb_ℤ max_limit p.limit then max_limit else p.limit })

unfoldable pub check_query :
    (Text → Text) → Bool → UserContext → SearchApiKeysRequest → Result Response Query
check_query to_lower is_admin user req = do
  let filters = default_filters req.filters
  _ ← check_statuses filters.status
  username ← target_username is_admin user filters.username
  sort ← check_sort to_lower (default_sort req.sort)
  pagination ← check_pagination (default_pagination req.pagination)
  ok (record { username = username; filters = filters; sort = sort; pagination = pagination })

module _ (sha256_hex : Text → Text) (format : Time → Text) (S : MetadataStore)
    (is_admin : UserContext → Bool) where
  run_query : Query → Time → S.State → Response × S.State
  unfolding search_api_keys codes
  run_query q now s =
      let (r, s') =
        search_api_keys sha256_hex format S q.username q.filters q.sort q.pagination now s in
      elim r [
        | err e ↦ (answer 500 (codes "Failed to search API keys"), s')
        | ok result ↦ (record { code = 200; body = page_body result.keys result.has_more }, s')
      ]

  unfoldable pub search_api_keys_handler :
      (Text → Text)
      → Result Text SearchApiKeysRequest
      → Context
      → Time
      → S.State
      → Response × S.State
  unfolding run_query
  search_api_keys_handler to_lower (err e) context now s = (answer 400 e, s)
  search_api_keys_handler to_lower (ok req) context now s = elim (get_user_context context) [
    | err refusal ↦ (refusal, s)
    | ok user ↦ elim (check_query to_lower (is_admin user) user req) [
      | err refusal ↦ (refusal, s)
      | ok q ↦ run_query q now s
    ]
  ]
