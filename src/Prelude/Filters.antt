-- ===== src/Prelude/Filters.antt =====
-- How the Boolean `filter` meets permutations and sorting.
use mathlib.Core.Path.{◌≡◌, refl, ap, ◌∙◌}
use mathlib.Core.Bool.{Bool, true, false}
use mathlib.Core.Logic.{inl, inr}
use mathlib.Core.List.{List, [], ◌∷◌, Permᴰ}
use mathlib.Core.List.Permᴰ
use Prim.Native.Nat.{suc}
use models_as_a_service_mids.Prelude.Tests.{if◌then◌else◌, Bool-cases}
use models_as_a_service_mids.Prelude.Lists.{filter, length}

swap-kept {ℓ} :
    {A : Type ℓ} {a b a' b' : A} (r : List A) (s t : Bool)
    → a ≡ b'
    → b ≡ a'
    → Permᴰ
        (if s then a ∷ (if t then b ∷ r else r) else (if t then b ∷ r else r))
        (if t then a' ∷ (if s then b' ∷ r else r) else (if s then b' ∷ r else r))
swap-kept r true true e g = Permᴰ.swap e g
swap-kept r true false e g = Permᴰ.cons e (Permᴰ.refl r)
swap-kept r false true e g = Permᴰ.cons g (Permᴰ.refl r)
swap-kept r false false e g = Permᴰ.refl r

module _ {ℓ} {A : Type ℓ} (p : A → Bool) where
  pub filter-permᴰ : {xs ys : List A} → Permᴰ xs ys → Permᴰ (filter p xs) (filter p ys)
  unfolding filter
  filter-permᴰ Permᴰ.nil = Permᴰ.nil
  filter-permᴰ (Permᴰ.cons {a = a} {b = b} e q) = elim (Bool-cases (p b)) [
    | inl t ↦ rw (ap p e ∙ t, t) (Permᴰ.cons e (filter-permᴰ q))
    | inr f ↦ rw (ap p e ∙ f, f) (filter-permᴰ q)
  ]
  filter-permᴰ (Permᴰ.swap {a = a} {b = b} {l = l} e g) =
      rw (← ap p e, ← ap p g) (swap-kept (filter p l) (p a) (p b) e g)
  filter-permᴰ (Permᴰ.trans q r) = Permᴰ.trans (filter-permᴰ q) (filter-permᴰ r)

module _ {ℓ} {A : Type ℓ} where
  perm-nilᴰ : {xs ys : List A} → Permᴰ xs ys → xs ≡ [] → ys ≡ []
  perm-nilᴰ Permᴰ.nil e = e
  perm-nilᴰ (Permᴰ.cons g q) e = absurd (cc)
  perm-nilᴰ (Permᴰ.swap g k) e = absurd (cc)
  perm-nilᴰ (Permᴰ.trans q r) e = perm-nilᴰ r (perm-nilᴰ q e)

  pub perm-singletonᴰ : {xs ys : List A} → Permᴰ xs ys → (a : A) → xs ≡ a ∷ [] → ys ≡ a ∷ []
  perm-singletonᴰ Permᴰ.nil a e = e
  perm-singletonᴰ (Permᴰ.cons {l₂ = l} g q) a e = cc (perm-nilᴰ q (cc))
  perm-singletonᴰ (Permᴰ.swap g k) a e = absurd (cc)
  perm-singletonᴰ (Permᴰ.trans q r) a e = perm-singletonᴰ r a (perm-singletonᴰ q a e)

  pub length-permᴰ : {xs ys : List A} → Permᴰ xs ys → length xs ≡ length ys
  length-permᴰ Permᴰ.nil = refl
  length-permᴰ (Permᴰ.cons g q) = ap suc (length-permᴰ q)
  length-permᴰ (Permᴰ.swap g k) = refl
  length-permᴰ (Permᴰ.trans q r) = length-permᴰ q ∙ length-permᴰ r
