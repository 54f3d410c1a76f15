-- ===== src/Subscription/Selector/Ranking.antt =====
-- `SelectHighestPriority`: the subscription that a new API key is bound to by default.
use models_as_a_service_mids.Prelude.{
  ℕ, codes, ◌++◌, ◌<◌, ◌≡◌, refl, sym, ap, subst, ◌⊎◌, Text, text_ltb, eq_iff, eq_refl, List, [],
  ◌∷◌, some, true, false, filter, filter-Memᴰ, Memᴰ-filter, Memᴰ-of_sort, Memᴰ-sort, Memᴰ,
  sort_stable, sort_stable-IsSorted, IsSortedBy, IsSortedBy-head, find, ok, err, arith, is_nil,
}
use models_as_a_service_mids.Prelude.Int.{ltb_ℤ}
use models_as_a_service_mids.Subscription.Types.{
  Subscription, SelectResponse, to_response, phase_failed, model_unhealthy,
}
use models_as_a_service_mids.Subscription.Access.{user_has_access, user_has_access_iff, HasAccess}
use models_as_a_service_mids.Subscription.Health.{
  check_model_health, check_key_creation, reason_not_ready,
}
use models_as_a_service_mids.Subscription.Priority.{
  before, before-IsStrictWeak, sort_subscriptions_by_priority,
}
use models_as_a_service_mids.Subscription.Selector.{
  select_highest_priority, first_response, no_caller, select, select_from, select_explicit,
  find_requested, qualified_name, admit,
}

-- `sub` ranks at least as high as `other`: by priority, then by the largest token limit, then by
-- the name.
abbrev pub RanksFirst : Subscription → Subscription → Type 0
RanksFirst sub other =
    (other.priority < sub.priority)
    ⊎ ((other.priority ≡ sub.priority)
        × ((ltb_ℤ other.max_limit sub.max_limit ≡ true)
            ⊎ ((other.max_limit ≡ sub.max_limit) × (text_ltb other.name sub.name ≡ false))))

RanksFirst-of_before : (sub other : Subscription) → before other sub ≡ false → RanksFirst sub other
unfolding before
RanksFirst-of_before sub other h = ground arith

first_response-ok :
    (subs : List Subscription) {r : SelectResponse}
    → first_response subs ≡ ok r
    → (sub : Subscription) × (rest : List Subscription) × (subs ≡ sub ∷ rest)
      × (r ≡ to_response sub)
unfolding first_response
first_response-ok [] h = absurd (cc)
first_response-ok (sub ∷ rest) h = (sub, rest, refl, ground arith)

first_response-total :
    {sub : Subscription} (subs : List Subscription)
    → Memᴰ sub subs
    → (r : SelectResponse) × (first_response subs ≡ ok r)
unfolding first_response
first_response-total [] m = elim m [ ]
first_response-total (first ∷ rest) m = (to_response first, refl)

module _ (subs : List Subscription) (groups : List Text) (username : Text) where
  abbrev accessible : List Subscription
  accessible = filter (λ sub. user_has_access sub username groups) subs

  Memᴰ-ranked :
      (sub : Subscription)
      → Memᴰ sub (sort_subscriptions_by_priority accessible)
      → Memᴰ sub subs × HasAccess sub username groups
  unfolding sort_subscriptions_by_priority
  Memᴰ-ranked sub m =
      let (here, access) =
        Memᴰ-filter (λ s. user_has_access s username groups) subs
          (Memᴰ-of_sort before accessible m) in
      (here, (user_has_access_iff sub username groups).0 access)

  ranked-Memᴰ :
      (sub : Subscription)
      → Memᴰ sub subs
      → HasAccess sub username groups
      → Memᴰ sub (sort_subscriptions_by_priority accessible)
  unfolding sort_subscriptions_by_priority
  ranked-Memᴰ sub m access = Memᴰ-sort before accessible (
      filter-Memᴰ (λ s. user_has_access s username groups) subs m
        ((user_has_access_iff sub username groups).1 access))

  head-RanksFirst :
      (sub : Subscription) (rest : List Subscription)
      → sort_subscriptions_by_priority accessible ≡ sub ∷ rest
      → (other : Subscription) → Memᴰ other (sort_subscriptions_by_priority accessible)
      → RanksFirst sub other
  unfolding sort_subscriptions_by_priority
  head-RanksFirst sub rest e other m = RanksFirst-of_before sub other (
      IsSortedBy-head before-IsStrictWeak sub rest
        (subst (IsSortedBy before) e (sort_stable-IsSorted before-IsStrictWeak accessible))
        (subst (Memᴰ other) e m))

  -- The default subscription of an API key is open to the caller, and no other one that is open to
  -- them has a higher priority, or at equal priority a larger limit, or at equal limit a smaller
  -- name.
  pub select_highest_priority-RanksFirst :
      (r : SelectResponse)
      → select_highest_priority (ok subs) groups username ≡ ok r
      → (sub : Subscription) × Memᴰ sub subs
        × HasAccess sub username groups
        × ((other : Subscription)
            → Memᴰ other subs
            → HasAccess other username groups
            → RanksFirst sub other)
        × (r ≡ to_response sub)
  unfolding select_highest_priority
  select_highest_priority-RanksFirst r h =
      let (sub, rest, first, answer) =
        first_response-ok (sort_subscriptions_by_priority accessible) (ground arith) in
      let (m, access) = Memᴰ-ranked sub (subst (Memᴰ sub) (sym first) (Memᴰ.head refl)) in
      (
        sub,
        m,
        access,
        λ other n opens. head-RanksFirst sub rest first other (ranked-Memᴰ other n opens),
        answer,
      )

  -- An identified caller gets a default subscription as soon as one loaded subscription is open to
  -- them, in whatever phase it is.
  pub select_highest_priority_total :
      (sub : Subscription)
      → no_caller groups username ≡ false
      → Memᴰ sub subs
      → HasAccess sub username groups
      → (r : SelectResponse) × (select_highest_priority (ok subs) groups username ≡ ok r)
  unfolding select_highest_priority
  select_highest_priority_total sub caller m access =
      let (r, answers) =
        first_response-total (sort_subscriptions_by_priority accessible)
          (ranked-Memᴰ sub m access) in
      (r, ground arith)

is_nil-failed : is_nil phase_failed ≡ false
unfolding codes
is_nil-failed = refl

is_nil-append {ℓ} : {A : Type ℓ} (xs : List A) (y : A) (ys : List A) → is_nil (xs ++ y ∷ ys) ≡ false
is_nil-append [] y ys = refl
is_nil-append (x ∷ xs) y ys = refl

qualified_name-ne : (sub : Subscription) → is_nil (qualified_name sub) ≡ false
unfolding qualified_name
qualified_name-ne sub = is_nil-append sub.namespace b'/' sub.name

abbrev failed_message : Text
failed_message = codes "subscription is in Failed phase (cannot create API keys)"

-- One loaded subscription, in phase Failed, that is open to the caller.
module _ (sub : Subscription) (groups : List Text) (username : Text)
    (caller : no_caller groups username ≡ false) (access : HasAccess sub username groups)
    (failed : sub.phase ≡ phase_failed) where
  abbrev granted : user_has_access sub username groups ≡ true
  granted = (user_has_access_iff sub username groups).1 access

  default-only : select_highest_priority (ok (sub ∷ [])) groups username ≡ ok (to_response sub)
  unfolding select_highest_priority filter sort_subscriptions_by_priority sort_stable
  default-only = ground (arith, granted)

  check-failed :
      check_model_health sub []
      ≡ some (model_unhealthy sub.name sub.phase reason_not_ready failed_message)
  unfolding check_model_health check_key_creation
  check-failed =
      ground (arith, eq_iff sub.phase phase_failed, is_nil-failed, ap (is_nil {A = ℕ}) failed)

  admit-failed :
      admit groups username (qualified_name sub) [] sub
      ≡ err (model_unhealthy sub.name sub.phase reason_not_ready failed_message)
  unfolding admit
  admit-failed = rw (granted, check-failed) refl

  explicit-only :
      select (ok (sub ∷ [])) groups username (qualified_name sub) []
      ≡ err (model_unhealthy sub.name sub.phase reason_not_ready failed_message)
  unfolding select select_from select_explicit find_requested find sort_subscriptions_by_priority
      sort_stable
  explicit-only =
      ground (arith, caller, eq_refl (qualified_name sub), admit-failed, qualified_name-ne sub)

-- The default binding skips the health check that an explicit request for the same subscription
-- meets: a caller whose one open subscription is in phase Failed is refused when they request it by
-- its qualified name, and is given it when they request none.
pub default_skips_health :
    (sub : Subscription) (groups : List Text) (username : Text)
    → no_caller groups username ≡ false
    → HasAccess sub username groups
    → sub.phase ≡ phase_failed
    → (select_highest_priority (ok (sub ∷ [])) groups username ≡ ok (to_response sub))
      × ((message : Text) × (select (ok (sub ∷ [])) groups username (qualified_name sub) []
            ≡ err (model_unhealthy sub.name sub.phase reason_not_ready message)))
default_skips_health sub groups username caller access failed = (
  default-only sub groups username caller access failed,
  (failed_message, explicit-only sub groups username caller access failed),
)
