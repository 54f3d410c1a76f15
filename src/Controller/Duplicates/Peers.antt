-- ===== src/Controller/Duplicates/Peers.antt =====
-- Which subscriptions the duplicate-priority scan reports.
use models_as_a_service_mids.Prelude.{
  Text, codes, text_ltb, ◌==◌, eq_iff, ◌≡◌, ◌≢◌, ◌↔◌, refl, sym, ap, ◌∙◌, subst, inl, inr, List, [],
  ◌∷◌, map, filter, Memᴰ, Memᴰ-filter, filter-Memᴰ, Memᴰ-map, Memᴰ-of_map, Memᴰ-sort, Memᴰ-of_sort,
  true, false, not, Bool-cases, is_nil, sort_stable, nat_eq_iff, arith,
}
use models_as_a_service_mids.Prelude.Int.{ℤ, pos, negsuc}
use models_as_a_service_mids.Controller.Cluster.{MaasSubscription}
use models_as_a_service_mids.Controller.Duplicates.{
  int_eq, subscription_key, live, by_priority, peers, desired_condition,
}

int_eq_iff : (a b : ℤ) → (int_eq a b ≡ true) ↔ (a ≡ b)
int_eq_iff (pos m) (pos n) = (λ h. ap pos ((nat_eq_iff m n).0 h), λ e. ground (arith, e))
int_eq_iff (negsuc m) (negsuc n) = (λ h. ap negsuc ((nat_eq_iff m n).0 h), λ e. ground (arith, e))
int_eq_iff (pos m) (negsuc n) = (λ h. absurd (ground arith), λ e. absurd (cc))
int_eq_iff (negsuc m) (pos n) = (λ h. absurd (ground arith), λ e. absurd (cc))

other_key : (k own : Text) → not (k == own) ≡ true → k ≢ own
other_key k own h e = absurd (ground (arith, (eq_iff k own).1 e))

key_other : (k own : Text) → k ≢ own → not (k == own) ≡ true
key_other k own h = elim (Bool-cases (k == own)) [
  | inl e ↦ absurd (h ((eq_iff k own).0 e))
  | inr e ↦ ap not e
]

member {ℓ} : {A : Type ℓ} (xs : List A) → is_nil xs ≡ false → (x : A) × Memᴰ x xs
member [] h = absurd (ground arith)
member (x ∷ xs) h = (x, Memᴰ.head refl)

member-is_nil {ℓ} : {A : Type ℓ} {x : A} (xs : List A) → Memᴰ x xs → is_nil xs ≡ false
member-is_nil [] m = elim m [ ]
member-is_nil (y ∷ xs) m = refl

true_text : codes "False" ≢ codes "True"
unfolding codes
true_text e = absurd (ground (arith, e))

-- The peers of a subscription are the keys, other than its own, of the listed subscriptions with
-- its priority.
peers_iff :
    (subs : List MaasSubscription) (s : MaasSubscription) (k : Text)
    → Memᴰ k (peers subs s) ↔ (
        (t : MaasSubscription) × Memᴰ t subs
        × (t.priority ≡ s.priority)
        × (subscription_key t ≡ k)
        × (k ≢ subscription_key s))
unfolding peers by_priority
peers_iff subs s k =
    let own = λ (t : Text). not (t == subscription_key s) in
    let same = λ (t : MaasSubscription). int_eq t.priority s.priority in
    let sharing = filter same subs in
    (
      λ m.
          let (sorted, other) =
            Memᴰ-filter own (sort_stable text_ltb (map subscription_key sharing)) m in
          let (t, listed, e) =
            Memᴰ-of_map subscription_key sharing
              (Memᴰ-of_sort text_ltb (map subscription_key sharing) sorted) in
          let (mem, equal) = Memᴰ-filter same subs listed in
          (
            t,
            mem,
            (int_eq_iff t.priority s.priority).0 equal,
            sym e,
            other_key k (subscription_key s) other,
          ),
      λ (t, mem, equal, e, other).
          let listed = filter-Memᴰ same subs mem ((int_eq_iff t.priority s.priority).1 equal) in
          let sorted =
            Memᴰ-sort text_ltb (map subscription_key sharing)
              (Memᴰ-map subscription_key sharing listed) in
          filter-Memᴰ own (sort_stable text_ltb (map subscription_key sharing))
            (subst (λ z. Memᴰ z (sort_stable text_ltb (map subscription_key sharing))) e sorted)
            (key_other k (subscription_key s) other),
    )

-- The condition that the scan wants for a live subscription is true exactly if another live one,
-- of another namespace or name, has its priority.
pub desired_condition_iff :
    (subs : List MaasSubscription) (s : MaasSubscription) (generation : ℤ)
    → ((desired_condition generation s.priority (peers (live subs) s)).status ≡ codes "True") ↔ (
        (t : MaasSubscription) × Memᴰ t subs
        × (t.is_deleting ≡ false)
        × (t.priority ≡ s.priority)
        × (subscription_key t ≢ subscription_key s))
unfolding desired_condition live
desired_condition_iff subs s generation =
    let others = peers (live subs) s in
    let alive = λ (t : MaasSubscription). not t.is_deleting in
    (
      λ h. elim (Bool-cases (is_nil others)) [
        | inl empty ↦ absurd (true_text (ground (arith, empty, h)))
        | inr listed ↦
            let (k, m) = member others listed in
            let (t, mem, equal, e, other) = (peers_iff (live subs) s k).0 m in
            let (known, living) = Memᴰ-filter alive subs mem in
            (t, known, ground (arith, living), equal, λ z. other (sym e ∙ z))
      ],
      λ (t, mem, living, equal, other).
          let known = filter-Memᴰ alive subs mem (ap not living) in
          let m = (peers_iff (live subs) s (subscription_key t)).1 (t, known, equal, refl, other) in
          let listed = member-is_nil others m in ground (arith, listed),
    )
