-- ===== src/ApiKeys/Handler/Searching/Scope.antt =====
-- What a search request can see.
use models_as_a_service_mids.Prelude.{
  ◌≤◌, ◌≡◌, ◌≢◌, refl, sym, ◌∙◌, Text, List, [], Option, Bool, true, false, not, length, Memᴰ, ok,
  err, Result-cases, Option-cases, Bool-cases, ◌⊎◌, inl, inr, arith, find, trim_space,
}
use models_as_a_service_mids.Prelude.Int.{ltb_ℤ}
use models_as_a_service_mids.ApiKeys.Types.{
  Time, ApiKey, PaginationParams, SortParams, max_limit, valid_statuses,
}
use models_as_a_service_mids.ApiKeys.MockStore.{MockStore}
use models_as_a_service_mids.ApiKeys.Search.Filters.{in_range, search_lem}
use models_as_a_service_mids.ApiKeys.InMemory.{in_memory}
use models_as_a_service_mids.ApiKeys.Service.{search_api_keys}
use models_as_a_service_mids.ApiKeys.Handler.{
  UserContext, present, Response, page_body, get_user_context,
}
use models_as_a_service_mids.ApiKeys.Handler.Searching.{
  SearchApiKeysRequest, Query, is_among, default_filters, default_sort, default_pagination,
  check_statuses, target_username, check_sort, check_pagination, check_query, run_query,
  search_api_keys_handler,
}

-- A refusal: the request is malformed, or not allowed.
abbrev pub IsRefusal : Response → Type 0
IsRefusal r = (r.code ≡ 400) ⊎ (r.code ≡ 403)

refuses-statuses :
    (statuses : List Text) (r : Response) → check_statuses statuses ≡ err r → IsRefusal r
unfolding check_statuses
refuses-statuses statuses r h =
    elim (Option-cases (find (λ s. not (is_among valid_statuses (trim_space s))) statuses)) [
      | inl good ↦ absurd (ground arith)
      | inr (s, bad) ↦ inl (ground arith)
    ]

refuses-target :
    (is_admin : Bool) (user : UserContext) (asked : Text) (r : Response)
    → target_username is_admin user asked ≡ err r
    → IsRefusal r
unfolding target_username
refuses-target is_admin user asked r h = inr (ground arith)

refuses-sort :
    (to_lower : Text → Text) (sort : SortParams) (r : Response)
    → check_sort to_lower sort ≡ err r
    → IsRefusal r
unfolding check_sort
refuses-sort to_lower sort r h = inl (ground arith)

refuses-pagination :
    (p : PaginationParams) (r : Response) → check_pagination p ≡ err r → IsRefusal r
unfolding check_pagination
refuses-pagination p r h = inl (ground arith)

in_range-check : (p q : PaginationParams) → check_pagination p ≡ ok q → in_range q ≡ true
unfolding check_pagination
in_range-check p q h = elim (Bool-cases (ltb_ℤ max_limit p.limit)) [
  | inl t ↦ ground arith
  | inr f ↦ ground arith
]

target-own :
    (is_admin : Bool) (user : UserContext) (asked name : Text)
    → target_username is_admin user asked ≡ ok name
    → (is_admin ≡ true) ⊎ (name ≡ user.username)
unfolding target_username
target-own true user asked name h = inl refl
target-own false user asked name h = inr (ground arith)

-- The checks end in a refusal, or in a query that the store accepts and that stays within what the
-- user may see.
check_query_lem :
    (to_lower : Text → Text) (is_admin : Bool) (user : UserContext) (req : SearchApiKeysRequest)
    → ((r : Response) × (check_query to_lower is_admin user req ≡ err r) × IsRefusal r)
      ⊎ ((q : Query) × (check_query to_lower is_admin user req ≡ ok q)
          × (in_range q.pagination ≡ true)
          × ((is_admin ≡ true) ⊎ (q.username ≡ user.username)))
unfolding check_query
check_query_lem to_lower is_admin user req =
    let filters = default_filters req.filters in
    elim (Result-cases (check_statuses filters.status)) [
      | inr (r, bad) ↦ inl (r, ground arith, refuses-statuses filters.status r bad)
      | inl (u, statuses) ↦ elim (Result-cases (target_username is_admin user filters.username)) [
        | inr (r, bad) ↦ inl (r, ground arith, refuses-target is_admin user filters.username r bad)
        | inl (name, target) ↦ elim (Result-cases (check_sort to_lower (default_sort req.sort))) [
          | inr (r, bad) ↦
              inl (r, ground arith, refuses-sort to_lower (default_sort req.sort) r bad)
          | inl (sort, sorted) ↦
              elim (Result-cases (check_pagination (default_pagination req.pagination))) [
                | inr (r, bad) ↦
                    inl (
                      r,
                      ground arith,
                      refuses-pagination (default_pagination req.pagination) r bad,
                    )
                | inl (p, paged) ↦ inr (
                  record { username = name; filters = filters; sort = sort; pagination = p },
                  ground arith,
                  in_range-check (default_pagination req.pagination) p paged,
                  target-own is_admin user filters.username name target,
                )
              ]
        ]
      ]
    ]

module _ (sha256_hex : Text → Text) (format : Time → Text) (parse : Text → Option Time)
    (is_admin : UserContext → Bool) where
  -- A search of a user with a name is refused with 400 or 403, or shows a page of at most 100 keys,
  -- which are the user's own unless the user is an administrator. It never ends in an error of the
  -- store, and leaves the store as it was.
  pub search_api_keys_handler_lem :
      (to_lower : Text → Text) (req : SearchApiKeysRequest) (user : UserContext) (now : Time)
      (m : MockStore)
      → user.username ≢ []
      → let r =
          search_api_keys_handler sha256_hex format
            (in_memory format parse)
            is_admin
            to_lower
            (ok req)
            (present user)
            now
            m in
        (r.1 ≡ m)
        × (IsRefusal r.0
            ⊎ ((keys : List ApiKey) × (has_more : Bool) × (r.0
                  ≡ record { code = 200; body = page_body keys has_more })
                × (length keys ≤ 100)
                × ((meta : ApiKey)
                    → Memᴰ meta keys
                    → (is_admin user ≡ true) ⊎ (meta.username ≡ user.username))))
  unfolding search_api_keys_handler run_query search_api_keys get_user_context
  search_api_keys_handler_lem to_lower req user now m named =
      elim (check_query_lem to_lower (is_admin user) user req) [
        | inl (r, refused, refusal) ↦
            (ground arith, inl (rw (refused, search_api_keys_handler) refusal))
        | inr (q, passed, fits, own) ↦
            let (same, outcome) =
              search_lem format parse q.username q.filters q.sort q.pagination now m in
            elim outcome [
              | inr (wrong, e, failed) ↦ absurd (ground arith)
              | inl (t, page, found, size, within, shown) ↦ (
                ground arith,
                inr (
                  page.keys,
                  page.has_more,
                  ground arith,
                  size,
                  λ meta there. elim own [
                    | inl admin ↦ inl admin
                    | inr self ↦ elim (shown meta there).own [
                      | inl all ↦ absurd (named (sym self ∙ all))
                      | inr name ↦ inr (name ∙ self)
                    ]
                  ],
                ),
              )
            ]
      ]
