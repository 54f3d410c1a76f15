-- ===== src/ApiKeys/Search.antt =====
-- store_mock.go, `List` and `Search`: filtering, sorting and paging the stored keys. Formatting and
-- parsing of RFC 3339 times are the standard library's: `format t` and `parse s`, where `none` is
-- the parse error.
pub mod Pages
pub mod Filters
use models_as_a_service_mids.Prelude.{
  ℕ, suc, ◌+◌, ◌≤◌, Text, codes, ◌==◌, text_ltb, trim_space, contains, any, List, [], ◌∷◌, Option,
  none, some, Bool, true, false, ◌&&◌, ◌||◌, not, is_nil, nat_eq, ltb, leb, length, take, drop,
  filter, map, sort_stable, Result, ok, err, if◌then◌else◌,
}
use models_as_a_service_mids.Prelude.Int.{ℤ, pos, ltb_ℤ, pos_part}
use models_as_a_service_mids.ApiKeys.Types.{
  Time, status_text, ApiKey, PaginationParams, PaginatedResult, SearchFilters, SortParams,
  sort_order_asc, sort_order_desc, max_limit, limit_out_of_range, negative_offset,
}
use models_as_a_service_mids.ApiKeys.Store.{Method}
use models_as_a_service_mids.ApiKeys.MockStore.{StoredKey, MockStore, view}

-- The sign of a comparison: below, equal, above.
pub data Comparison : Type 0 where
  below equal above : Comparison

compare_texts : Text → Text → Comparison
compare_texts a b = if text_ltb a b then below else if text_ltb b a then above else equal

compare_times : Time → Time → Comparison
compare_times a b = if ltb a b then below else if ltb b a then above else equal

-- A page of the keys behind `offset`, and whether more follow.
unfoldable pub apply_pagination : List ApiKey → ℕ → ℕ → List ApiKey × Bool
apply_pagination keys offset limit =
    let rest = drop offset keys in
    let has_more = ltb limit (length rest) in
    if leb (length keys) offset
    then ([], false)
    else if has_more
    then (take limit rest, true)
    else (rest, false)

-- The slice `allKeys[start:end]` of `List`, with one key more than the limit to see whether more
-- follow.
unfoldable pub slice_page : List ApiKey → ℕ → ℕ → List ApiKey × Bool
slice_page keys offset limit =
    let paged = take (limit + 1) (drop offset keys) in
    let has_more = ltb limit (length paged) in
    if leb (length keys) offset
    then ([], false)
    else if has_more
    then (take limit paged, true)
    else (paged, false)

-- The tests on username, status and ephemeral keys of `filterKeys`. `trims` is `TrimSpace` there;
-- `List` compares the statuses as they are, and always leaves ephemeral keys out.
unfoldable pub is_wanted : (Text → Text) → Text → List Text → Bool → StoredKey → ApiKey → Bool
is_wanted trims username statuses include_ephemeral k meta =
    (include_ephemeral || not k.ephemeral)
    && (is_nil username || k.username == username)
    && (is_nil statuses || any (λ status. trims status == status_text meta.status) statuses)

-- `filters.IncludeEphemeral != nil && *filters.IncludeEphemeral`
unfoldable pub asks_ephemeral : Option Bool → Bool
asks_ephemeral none = false
asks_ephemeral (some b) = b

module _ (format : Time → Text) (parse : Text → Option Time) where
  both_parsed : Option Time → Option Time → Comparison → Comparison
  both_parsed (some t1) (some t2) otherwise = compare_times t1 t2
  both_parsed _ _ otherwise = otherwise

  -- Two timestamps that are set; texts that do not parse are compared as texts.
  compare_stamps : Text → Text → Comparison
  unfolding both_parsed compare_times compare_texts
  compare_stamps val1 val2 = both_parsed (parse val1) (parse val2) (compare_texts val1 val2)

  -- `compareTimestampFields`: the comparison, and whether the order of missing values applies.
  unfoldable pub compare_timestamp_fields : Text → Text → Comparison × Bool
  unfolding compare_stamps
  compare_timestamp_fields val1 val2 =
      if is_nil val1 && is_nil val2
      then (equal, false)
      else if is_nil val1
      then (equal, true)
      else if is_nil val2
      then (equal, true)
      else (compare_stamps val1 val2, false)

  -- `if order == SortOrderDesc { return cmp > 0 }; return cmp < 0`
  in_order : Text → Comparison → Bool
  in_order order below = not (order == sort_order_desc)
  in_order order equal = false
  in_order order above = order == sort_order_desc

  -- A field that may be missing: missing values stand last in ascending order.
  compare_nullable : Text → Text → Text → Bool
  unfolding compare_timestamp_fields in_order
  compare_nullable order val1 val2 =
      let (cmp, handle_null) = compare_timestamp_fields val1 val2 in
      if handle_null
      then (if is_nil val1 then order == sort_order_desc else order == sort_order_asc)
      else in_order order cmp

  unfoldable pub compare_keys : Text → Text → ApiKey → ApiKey → Bool
  unfolding compare_nullable compare_stamps in_order compare_texts codes
  compare_keys sort_by order key1 key2 =
      if sort_by == codes "created_at"
      then in_order order (compare_stamps key1.creation_date key2.creation_date)
      else if sort_by == codes "expires_at"
      then compare_nullable order key1.expiration_date key2.expiration_date
      else if sort_by == codes "last_used_at"
      then compare_nullable order key1.last_used_at key2.last_used_at
      else if sort_by == codes "name"
      then in_order order (compare_texts key1.name key2.name)
      else in_order order equal

  unfoldable pub filter_keys :
      (Text → Text) → Text → List Text → Bool → Time → MockStore → List ApiKey
  filter_keys trims username statuses include_ephemeral now [] = []
  filter_keys trims username statuses include_ephemeral now ((id, k) ∷ m) =
      let rest = filter_keys trims username statuses include_ephemeral now m in
      let meta = view format now k in
      if is_wanted trims username statuses include_ephemeral k meta then meta ∷ rest else rest

  unfoldable pub search :
      Text → SearchFilters → SortParams → PaginationParams → Method MockStore PaginatedResult
  unfolding asks_ephemeral
  search username filters sort_params pagination now m =
      let include_ephemeral = asks_ephemeral filters.include_ephemeral in
      let all_keys = filter_keys trim_space username filters.status include_ephemeral now m in
      let sorted = sort_stable (compare_keys sort_params.by sort_params.order) all_keys in
      let (keys, has_more) =
        apply_pagination sorted (pos_part pagination.offset) (pos_part pagination.limit) in
      if ltb_ℤ pagination.limit (pos 1) || ltb_ℤ max_limit pagination.limit
      then (err limit_out_of_range, m)
      else if ltb_ℤ pagination.offset (pos 0)
      then (err negative_offset, m)
      else (ok (record { keys = keys; has_more = has_more }), m)

  unfoldable pub list : Text → PaginationParams → List Text → Method MockStore PaginatedResult
  list username params statuses now m =
      let all_keys = filter_keys (λ s. s) username statuses false now m in
      let (keys, has_more) = slice_page all_keys (pos_part params.offset) (pos_part params.limit) in
      if ltb_ℤ params.limit (pos 1) || ltb_ℤ max_limit params.limit
      then (err limit_out_of_range, m)
      else if ltb_ℤ params.offset (pos 0)
      then (err negative_offset, m)
      else (ok (record { keys = keys; has_more = has_more }), m)
