-- ===== src/ApiKeys/Search/Filters.antt =====
-- Which keys a search shows, and how many.
use models_as_a_service_mids.Prelude.{
  ℕ, ◌≤◌, ◌≡◌, refl, ap, subst, ◌∙◌, Text, eq_iff, List, [], ◌∷◌, map, filter, Bool, true, false,
  ◌&&◌, take, drop, length, Bool-cases, Memᴰ, Memᴰ-of_map, Memᴰ-filter, Memᴰ-of_sort, Memᴰ-take,
  Memᴰ-drop, ok, err, inl, inr, ◌⊎◌, arith, length-take, trim_space, sort_stable, Option, none,
  some,
}
use models_as_a_service_mids.Prelude.Int.{pos, leb_ℤ, pos_part}
use models_as_a_service_mids.ApiKeys.Types.{
  Time, ApiKey, PaginationParams, PaginatedResult, SearchFilters, SortParams, limit_out_of_range,
  negative_offset, StoreError,
}
use models_as_a_service_mids.ApiKeys.MockStore.{StoredKey, MockStore, view}
use models_as_a_service_mids.ApiKeys.Search.{
  is_wanted, filter_keys, search, apply_pagination, compare_keys, asks_ephemeral,
}
use models_as_a_service_mids.ApiKeys.Search.Pages.{apply_pagination_lem}

-- A limit of 1 to 100 and an offset that is not negative.
abbrev pub in_range : PaginationParams → Bool
in_range pagination =
    leb_ℤ (pos 1) pagination.limit
    && leb_ℤ pagination.limit (pos 100)
    && leb_ℤ (pos 0) pagination.offset

asks-true : (b : Option Bool) → asks_ephemeral b ≡ true → b ≡ some true
unfolding asks_ephemeral
asks-true none h = absurd (ground arith)
asks-true (some b) h = ap some h

module _ (format : Time → Text) (parse : Text → Option Time) where
  -- The stored keys that a search asks for.
  abbrev wanted : (Text → Text) → Text → List Text → Bool → Time → MockStore → MockStore
  wanted trims username statuses ephemeral now =
      filter (λ e. is_wanted trims username statuses ephemeral e.1 (view format now e.1))

  filter_keys-eq :
      (trims : Text → Text) (username : Text) (statuses : List Text) (ephemeral : Bool) (now : Time)
      (m : MockStore)
      → filter_keys format parse trims username statuses ephemeral now m
        ≡ map (λ e. view format now e.1) (wanted trims username statuses ephemeral now m)
  unfolding filter_keys filter
  filter_keys-eq trims username statuses ephemeral now [] = refl
  filter_keys-eq trims username statuses ephemeral now ((id, k) ∷ m) =
      ground (arith, filter_keys-eq trims username statuses ephemeral now m)

  -- A stored key whose view a search of `username` for `filters` may show.
  pub record IsShown (username : Text) (filters : SearchFilters) (now : Time) (m : MockStore)
      (meta : ApiKey) : Type 0 where
    pub id : Text
    pub key : StoredKey
    pub stored : Memᴰ (id, key) m
    pub shown : meta ≡ view format now key
    pub own : (username ≡ []) ⊎ (meta.username ≡ username)
    pub not_hidden : key.ephemeral ≡ true → filters.include_ephemeral ≡ some true

  is_wanted-parts :
      (username : Text) (statuses : List Text) (ephemeral : Bool) (k : StoredKey) (meta : ApiKey)
      → is_wanted trim_space username statuses ephemeral k meta ≡ true
      → ((username ≡ []) ⊎ (k.username ≡ username)) × (k.ephemeral ≡ true → ephemeral ≡ true)
  unfolding is_wanted
  is_wanted-parts [] statuses ephemeral k meta h = (inl refl, λ e. ground arith)
  is_wanted-parts (c ∷ cs) statuses ephemeral k meta h =
      (inr ((eq_iff k.username (c ∷ cs)).0 (ground arith)), λ e. ground arith)

  IsShown-filter_keys :
      (username : Text) (filters : SearchFilters) (now : Time) (m : MockStore) (meta : ApiKey)
      → Memᴰ meta (
          filter_keys format parse trim_space username filters.status
            (asks_ephemeral filters.include_ephemeral)
            now
            m)
      → IsShown username filters now m meta
  unfolding asks_ephemeral view
  IsShown-filter_keys username filters now m meta there =
      let wants = λ (e : Text × StoredKey).
        is_wanted trim_space username filters.status (asks_ephemeral filters.include_ephemeral) e.1
          (view format now e.1) in
      let there' =
        subst (λ keys. Memᴰ meta keys)
          (filter_keys-eq trim_space username filters.status
            (asks_ephemeral filters.include_ephemeral) now m)
          there in
      let ((id, k), kept, same) = Memᴰ-of_map (λ e. view format now e.1) (filter wants m) there' in
      let (stored, passes) = Memᴰ-filter wants m kept in
      let (own, allowed) = is_wanted-parts username filters.status _ k (view format now k) passes in
      record {
        id = id;
        key = k;
        stored = stored;
        shown = same;
        own = elim own [ inl e ↦ inl e | inr e ↦ inr (ap (λ (a : ApiKey). a.username) same ∙ e) ];
        not_hidden = λ e. asks-true filters.include_ephemeral (allowed e);
      }

  Memᴰ-page : {A : Type 0} {x : A} (n i : ℕ) (xs : List A) → Memᴰ x (take n (drop i xs)) → Memᴰ x xs
  Memᴰ-page n i xs there = Memᴰ-drop i xs (Memᴰ-take n (drop i xs) there)

  -- A search with a limit of 1 to 100 and no negative offset shows at most that many keys, each of
  -- them the view of a stored key that the filters let through; any other limit or offset is
  -- refused. The store stays as it was.
  pub search_lem :
      (username : Text) (filters : SearchFilters) (sort_params : SortParams)
      (pagination : PaginationParams) (now : Time) (m : MockStore)
      → ((search format parse username filters sort_params pagination now m).1 ≡ m)
        × (((in_range pagination ≡ true)
              × (page : PaginatedResult) × ((search format parse username filters sort_params
                    pagination now m).0
                  ≡ ok page)
              × (length page.keys ≤ 100)
              × (length page.keys ≤ pos_part pagination.limit)
              × ((meta : ApiKey) → Memᴰ meta page.keys → IsShown username filters now m meta))
            ⊎ ((in_range pagination ≡ false)
                × (e : StoreError) × ((search format parse username filters sort_params pagination
                      now m).0
                    ≡ err e)))
  unfolding search
  search_lem username filters sort_params pagination now m =
      let keys =
        filter_keys format parse trim_space username filters.status
          (asks_ephemeral filters.include_ephemeral) now m in
      let less = compare_keys format parse sort_params.by sort_params.order in
      let offset = pos_part pagination.offset in
      let limit = pos_part pagination.limit in
      let cut = (apply_pagination_lem (sort_stable less keys) offset limit).0 in
      let size = length-take limit (drop offset (sort_stable less keys)) in
      let short : length (apply_pagination (sort_stable less keys) offset limit).0 ≤ limit =
        rw (cut, size) (omega arith) in
      elim (Bool-cases (in_range pagination)) [
        | inl t ↦ (
          ground arith,
          inl (
            t,
            record {
              keys = (apply_pagination (sort_stable less keys) offset limit).0;
              has_more = (apply_pagination (sort_stable less keys) offset limit).1;
            },
            ground arith,
            ground (arith, short),
            short,
            λ meta there. IsShown-filter_keys username filters now m meta (
                Memᴰ-of_sort less keys (
                  Memᴰ-page limit offset (sort_stable less keys)
                    (subst (λ ks. Memᴰ meta ks) cut there))),
          ),
        )
        | inr f ↦
            elim (Bool-cases (leb_ℤ (pos 1) pagination.limit && leb_ℤ pagination.limit (pos 100))) [
              | inl t ↦ (ground arith, inr (f, negative_offset, ground arith))
              | inr b ↦ (ground arith, inr (f, limit_out_of_range, ground arith))
            ]
      ]
