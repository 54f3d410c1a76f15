-- ===== src/Subscription/Priority.antt =====
-- selector.go, `sortSubscriptionsByPriority`: priority descending, then the largest limit
-- descending, then the name ascending.
use models_as_a_service_mids.Prelude.{
  text_ltb, text_ltb_irrefl, text_ltb_trans, text_ltb_weak, List, Bool, false, not, nat_eq, ltb,
  sort_stable, IsStrictWeak, if◌then◌else◌, arith,
}
use models_as_a_service_mids.Prelude.Int.{ℤ, ltb_ℤ}
use models_as_a_service_mids.Subscription.Types.{Subscription}

unfoldable pub int_eq : ℤ → ℤ → Bool
int_eq a b = if ltb_ℤ a b then false else not (ltb_ℤ b a)

unfoldable pub before : Subscription → Subscription → Bool
unfolding int_eq
before a b =
    if not (nat_eq a.priority b.priority)
    then ltb b.priority a.priority
    else if not (int_eq a.max_limit b.max_limit)
    then ltb_ℤ b.max_limit a.max_limit
    else text_ltb a.name b.name

unfoldable pub sort_subscriptions_by_priority : List Subscription → List Subscription
sort_subscriptions_by_priority = sort_stable before

-- The comparison is an order up to ties, as `sort.SliceStable` requires.
pub before-IsStrictWeak : IsStrictWeak before
unfolding before
before-IsStrictWeak = record {
  asymm = λ a b h. ground (arith, text_ltb_trans a.name b.name a.name, text_ltb_irrefl a.name);
  weak = λ a b c h k. ground (arith, text_ltb_weak a.name b.name c.name);
}
