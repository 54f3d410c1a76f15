-- ===== src/Controller/Models/Endpoints.antt =====
-- The gateway of a route, and the endpoint of a model.
use models_as_a_service_mids.Prelude.{
  Text, ◌==◌, eq_iff, ◌≡◌, ◌↔◌, ◌⊎◌, refl, sym, ap, ◌∙◌, inl, inr, none, some, Option-cases, List,
  [], ◌∷◌, Memᴰ, true, ◌&&◌, Bool-cases, is_nil, arith,
}
use models_as_a_service_mids.Controller.Models.{
  ParentRef, parent_namespace, gateway_loop, find_gateway,
}

module _ (gateway_name gateway_namespace route_namespace : Text) where
  -- The reference is to the gateway.
  abbrev pub IsParent : ParentRef → Type 0
  IsParent ref =
      (ref.name ≡ gateway_name)
      × ((ref.namespace ≡ some gateway_namespace)
          ⊎ ((ref.namespace ≡ none) × (route_namespace ≡ gateway_namespace)))

  Resolves : ParentRef → Type 0
  Resolves ref =
      (ref.name ≡ gateway_name) × (parent_namespace route_namespace ref ≡ gateway_namespace)

  IsParent-Resolves : (ref : ParentRef) → IsParent ref → Resolves ref
  unfolding Resolves
  IsParent-Resolves ref (p, inl q) = (p, ground arith)
  IsParent-Resolves ref (p, inr (q, r)) = (p, ground arith)

  Resolves-IsParent : (ref : ParentRef) → Resolves ref → IsParent ref
  unfolding Resolves
  Resolves-IsParent ref (p, q) = elim (Option-cases ref.namespace) [
    | inl unnamed ↦ (p, inr (unnamed, ground arith))
    | inr (ns, named) ↦ (p, inl (ground arith))
  ]

  loop-true :
      (refs : List ParentRef) (name namespace : Text)
      → (gateway_loop gateway_name gateway_namespace route_namespace refs name namespace).0 ≡ true
      → ((ref : ParentRef) × Memᴰ ref refs × Resolves ref)
        × ((gateway_loop gateway_name gateway_namespace route_namespace refs name namespace).1
            ≡ gateway_name)
        × ((gateway_loop gateway_name gateway_namespace route_namespace refs name namespace).2
            ≡ gateway_namespace)
  unfolding gateway_loop Resolves
  loop-true [] name namespace h = absurd (ground arith)
  loop-true (ref ∷ refs) name namespace h =
      let ns = parent_namespace route_namespace ref in
      elim (Bool-cases (ref.name == gateway_name && ns == gateway_namespace)) [
        | inl here ↦
            let same_name = (eq_iff ref.name gateway_name).0 (ground arith) in
            let same_namespace = (eq_iff ns gateway_namespace).0 (ground arith) in
            ((ref, Memᴰ.head refl, (same_name, same_namespace)), ground arith, ground arith)
        | inr other ↦ elim (Bool-cases (is_nil name)) [
          | inl empty ↦
              let ((r, mem, p), found_name, found_namespace) =
                loop-true refs ref.name ns (ground arith) in
              ((r, Memᴰ.tail mem, p), ground arith, ground arith)
          | inr kept ↦
              let ((r, mem, p), found_name, found_namespace) =
                loop-true refs name namespace (ground arith) in
              ((r, Memᴰ.tail mem, p), ground arith, ground arith)
        ]
      ]

  true-loop :
      (refs : List ParentRef) (name namespace : Text) (ref : ParentRef)
      → Memᴰ ref refs
      → Resolves ref
      → (gateway_loop gateway_name gateway_namespace route_namespace refs name namespace).0 ≡ true
  unfolding gateway_loop Resolves
  true-loop [] name namespace ref mem p = elim mem [ ]
  true-loop (r ∷ refs) name namespace ref (Memᴰ.head e) (p, q) =
      let same_name = (eq_iff r.name gateway_name).1 (sym (ap (λ (z : ParentRef). z.name) e) ∙ p) in
      let same_namespace =
        (eq_iff (parent_namespace route_namespace r) gateway_namespace).1
          (sym (ap (λ (z : ParentRef). parent_namespace route_namespace z) e) ∙ q) in
      ground arith
  true-loop (r ∷ refs) name namespace ref (Memᴰ.tail mem) p = ground (
    arith,
    true-loop refs r.name (parent_namespace route_namespace r) ref mem p,
    true-loop refs name namespace ref mem p,
  )

  -- The gateway is found exactly if a parent of the route refers to it, by its name and by its
  -- namespace or, where it names none, by the namespace of the route; what is reported then is this
  -- gateway.
  pub find_gateway_iff :
      (refs : List ParentRef)
      → (((find_gateway gateway_name gateway_namespace route_namespace refs).0 ≡ true)
          ↔ ((ref : ParentRef) × Memᴰ ref refs × IsParent ref))
        × ((ref : ParentRef)
            → Memᴰ ref refs
            → IsParent ref
            → find_gateway gateway_name gateway_namespace route_namespace refs
              ≡ (true, gateway_name, gateway_namespace))
  unfolding find_gateway
  find_gateway_iff refs = (
    (
      λ h.
          let ((ref, mem, p), _, _) = loop-true refs [] [] h in (ref, mem, Resolves-IsParent ref p),
      λ (ref, mem, p). true-loop refs [] [] ref mem (IsParent-Resolves ref p),
    ),
    λ ref mem p.
        let h = true-loop refs [] [] ref mem (IsParent-Resolves ref p) in
        let (_, found_name, found_namespace) = loop-true refs [] [] h in
        ground (arith, h, found_name, found_namespace),
  )
