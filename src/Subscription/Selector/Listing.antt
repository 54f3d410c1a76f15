-- ===== src/Subscription/Selector/Listing.antt =====
-- `GetAllAccessible` and `ListAccessibleForModel`: what the listing endpoints show.
use models_as_a_service_mids.Prelude.{
  ◌≡◌, ◌⊎◌, Text, eq_iff, text_ltb_trans, text_ltb_irrefl, text_ltb_weak, List, map, none, true,
  filter, filter-Memᴰ, Memᴰ-filter, Memᴰ-of_sort, Memᴰ-sort, Memᴰ-map, Memᴰ-of_map, Memᴰ,
  sort_stable, sort_stable-IsSorted, IsSortedBy, IsStrictWeak, ok, arith, subst, sym,
}
use models_as_a_service_mids.Subscription.Types.{
  Subscription, SelectResponse, to_response, phase_active, phase_degraded,
}
use models_as_a_service_mids.Subscription.Access.{user_has_access_iff, HasAccess}
use models_as_a_service_mids.Subscription.Selector.{is_listed, name_before, get_all_accessible}

-- The caller has access, the phase is Active or Degraded, and no deletion has begun.
abbrev pub IsOpen : Text → List Text → Subscription → Type 0
IsOpen username groups sub =
    HasAccess sub username groups
    × ((sub.phase ≡ phase_active) ⊎ (sub.phase ≡ phase_degraded))
    × (sub.deletion_timestamp ≡ none)

module _ (username : Text) (groups : List Text) (sub : Subscription) where
  IsOpen-of_listed : is_listed username groups sub ≡ true → IsOpen username groups sub
  unfolding is_listed
  IsOpen-of_listed h = (
    (user_has_access_iff sub username groups).0 (ground arith),
    ground (arith, eq_iff sub.phase phase_active, eq_iff sub.phase phase_degraded),
    ground arith,
  )

  listed-of_IsOpen : IsOpen username groups sub → is_listed username groups sub ≡ true
  unfolding is_listed
  listed-of_IsOpen (access, phase, alive) = ground (
    arith,
    (user_has_access_iff sub username groups).1 access,
    eq_iff sub.phase phase_active,
    eq_iff sub.phase phase_degraded,
  )

name_before-IsStrictWeak : IsStrictWeak name_before
unfolding name_before
name_before-IsStrictWeak = record {
  asymm = λ a b h. ground (arith, text_ltb_trans a.name b.name a.name, text_ltb_irrefl a.name);
  weak = λ a b c h k. text_ltb_weak a.name b.name c.name h k;
}

-- The list of subscriptions of an identified caller is sorted by name, and holds the answers for
-- exactly the loaded subscriptions that the caller has access to, that are Active or Degraded and
-- that are not being deleted.
pub get_all_accessible_lem :
    (subs : List Subscription) (groups : List Text) (username : Text) (shown : List SelectResponse)
    → get_all_accessible (ok subs) groups username ≡ ok shown
    → IsSortedBy name_before shown
      × ((r : SelectResponse)
          → Memᴰ r shown
          → (sub : Subscription) × Memᴰ sub subs
            × IsOpen username groups sub
            × (r ≡ to_response sub))
      × ((sub : Subscription)
          → Memᴰ sub subs
          → IsOpen username groups sub
          → Memᴰ (to_response sub) shown)
unfolding get_all_accessible
get_all_accessible_lem subs groups username shown h = (
  subst (IsSortedBy name_before) same (sort_stable-IsSorted name_before-IsStrictWeak unsorted),
  λ r m.
      let (sub, kept, answer) =
        Memᴰ-of_map to_response listed
          (Memᴰ-of_sort name_before unsorted (subst (Memᴰ r) (sym same) m)) in
      let (here, passes) = Memᴰ-filter (is_listed username groups) subs kept in
      (sub, here, IsOpen-of_listed username groups sub passes, answer),
  λ sub m opens. subst (Memᴰ (to_response sub)) same (
      Memᴰ-sort name_before unsorted (
        Memᴰ-map to_response listed (
          filter-Memᴰ (is_listed username groups) subs m
            (listed-of_IsOpen username groups sub opens)))),
)
  where
    listed : List Subscription
    listed = filter (is_listed username groups) subs

    unsorted : List SelectResponse
    unsorted = map to_response listed

    same : sort_stable name_before unsorted ≡ shown
    same = ground arith
