-- ===== src/Prelude/Lists.antt =====
-- Lists measured by native numbers, under the library's names, with Boolean filters and searches.
use Prim.Native.Nat.{ℕ, zero, suc, ◌+◌, ◌-◌, ◌≤◌, min}
use mathlib.Core.Path.{◌≡◌, refl, ap, sym, ◌∙◌}
use mathlib.Core.Logic.{◌⊎◌, inl, inr, ◌≢◌, ◌↔◌}
use mathlib.Core.List.{List, [], ◌∷◌, ◌++◌, map, Memᴰ}
use mathlib.Core.Option.{Option, none, some}
use mathlib.Core.Bool.{Bool, true, false, ◌||◌, ◌&&◌}
use native.Mathlib.Omega.{arith}
use models_as_a_service_mids.Prelude.Tests.{if◌then◌else◌, Bool-cases}

module _ {ℓ} {A : Type ℓ} where
  abbrev pub length : List A → ℕ
  length [] = 0
  length (x ∷ xs) = suc (length xs)

  -- `len(xs) == 0`
  abbrev pub is_nil : List A → Bool
  is_nil [] = true
  is_nil (x ∷ xs) = false

  abbrev pub take : ℕ → List A → List A
  take zero xs = []
  take (suc n) [] = []
  take (suc n) (x ∷ xs) = x ∷ take n xs

  abbrev pub drop : ℕ → List A → List A
  drop zero xs = xs
  drop (suc n) [] = []
  drop (suc n) (x ∷ xs) = drop n xs

  -- The elements that pass a Boolean test, in order.
  unfoldable pub filter : (A → Bool) → List A → List A
  filter p [] = []
  filter p (x ∷ xs) = let rest = filter p xs in if p x then x ∷ rest else rest

  -- The first element that passes a Boolean test: a `for` loop that returns from its body.
  unfoldable pub find : (A → Bool) → List A → Option A
  find p [] = none
  find p (x ∷ xs) = let rest = find p xs in if p x then some x else rest

  unfoldable pub any : (A → Bool) → List A → Bool
  any p [] = false
  any p (x ∷ xs) = p x || any p xs

  unfoldable pub all : (A → Bool) → List A → Bool
  all p [] = true
  all p (x ∷ xs) = p x && all p xs

  abbrev pub All {κ} : (A → Type κ) → List A → Type κ
  All P [] = Unit
  All P (x ∷ xs) = P x × All P xs

module _ {ℓ} {A : Type ℓ} where
  pub is_nil-ne : (xs : List A) → xs ≢ [] → is_nil xs ≡ false
  is_nil-ne [] h = absurd (h refl)
  is_nil-ne (x ∷ xs) h = refl

  pub is_nil_iff : (xs : List A) → (is_nil xs ≡ true) ↔ (xs ≡ [])
  is_nil_iff [] = (λ _. refl, λ _. refl)
  is_nil_iff (x ∷ xs) = (λ h. cc, λ h. cc)

  pub length-append : (xs ys : List A) → length (xs ++ ys) ≡ length xs + length ys
  length-append [] ys = omega arith
  length-append (x ∷ xs) ys = omega (arith, length-append xs ys)

  pub length-take : (n : ℕ) (xs : List A) → length (take n xs) ≡ min n (length xs)
  length-take zero xs = omega arith
  length-take (suc n) [] = omega arith
  length-take (suc n) (x ∷ xs) = omega (arith, length-take n xs)

  pub length-drop : (n : ℕ) (xs : List A) → length (drop n xs) ≡ length xs - n
  length-drop zero xs = omega arith
  length-drop (suc n) [] = omega arith
  length-drop (suc n) (x ∷ xs) = omega (arith, length-drop n xs)

  pub take-append-drop : (n : ℕ) (xs : List A) → take n xs ++ drop n xs ≡ xs
  take-append-drop zero xs = refl
  take-append-drop (suc n) [] = refl
  take-append-drop (suc n) (x ∷ xs) = rw (take-append-drop n xs)

  pub take_all : (n : ℕ) (xs : List A) → length xs ≤ n → take n xs ≡ xs
  take_all zero [] h = refl
  take_all zero (x ∷ xs) h = absurd (omega arith)
  take_all (suc n) [] h = refl
  take_all (suc n) (x ∷ xs) h = rw (take_all n xs (omega arith))

  pub All-of_Memᴰ {κ} : (P : A → Type κ) {x : A} (xs : List A) → All P xs → Memᴰ x xs → P x
  All-of_Memᴰ P [] h m = elim m [ ]
  All-of_Memᴰ P (y ∷ ys) h (Memᴰ.head e) = rw e h.0
  All-of_Memᴰ P (y ∷ ys) h (Memᴰ.tail m) = All-of_Memᴰ P ys h.1 m

  pub All-of_forall {κ} : (P : A → Type κ) (xs : List A) → ((x : A) → Memᴰ x xs → P x) → All P xs
  All-of_forall P [] h = tt
  All-of_forall P (y ∷ ys) h = (h y (Memᴰ.head refl), All-of_forall P ys (λ x m. h x (Memᴰ.tail m)))

  pub All-append {κ} : (P : A → Type κ) (xs ys : List A) → All P xs → All P ys → All P (xs ++ ys)
  All-append P [] ys hx hy = hy
  All-append P (x ∷ xs) ys hx hy = (hx.0, All-append P xs ys hx.1 hy)

-- The list that one step of `filter` leaves, and what stands in it.
Memᴰ-kept {ℓ} :
    {A : Type ℓ} {x y : A} {rest : List A} (b : Bool)
    → Memᴰ x (if b then y ∷ rest else rest)
    → (x ≡ y) × (b ≡ true) ⊎ Memᴰ x rest
Memᴰ-kept true (Memᴰ.head e) = inl (e, refl)
Memᴰ-kept true (Memᴰ.tail m) = inr m
Memᴰ-kept false m = inr m

module _ {ℓ} {A : Type ℓ} (p : A → Bool) where
  pub Memᴰ-filter : {x : A} (xs : List A) → Memᴰ x (filter p xs) → Memᴰ x xs × (p x ≡ true)
  unfolding filter
  Memᴰ-filter [] m = elim m [ ]
  Memᴰ-filter (y ∷ ys) m = elim (Memᴰ-kept (p y) m) [
    | inl (e, passes) ↦ (Memᴰ.head e, rw e passes)
    | inr m' ↦ let (here, passes) = Memᴰ-filter ys m' in (Memᴰ.tail here, passes)
  ]

  pub filter-Memᴰ : {x : A} (xs : List A) → Memᴰ x xs → p x ≡ true → Memᴰ x (filter p xs)
  unfolding filter
  filter-Memᴰ [] m h = elim m [ ]
  filter-Memᴰ (y ∷ ys) (Memᴰ.head e) h = rw (ap p (sym e) ∙ h) (Memᴰ.head e)
  filter-Memᴰ (y ∷ ys) (Memᴰ.tail m) h = elim (Bool-cases (p y)) [
    | inl t ↦ rw t (Memᴰ.tail (filter-Memᴰ ys m h))
    | inr f ↦ rw f (filter-Memᴰ ys m h)
  ]

  pub length-filter-le : (xs : List A) → length (filter p xs) ≤ length xs
  unfolding filter
  length-filter-le [] = omega arith
  length-filter-le (x ∷ xs) = ground (arith, length-filter-le xs)

  pub find-some : {x : A} (xs : List A) → find p xs ≡ some x → Memᴰ x xs × (p x ≡ true)
  unfolding find
  find-some [] h = absurd (cc)
  find-some {x} (y ∷ ys) h = elim (Bool-cases (p y)) [
    | inl t ↦ let e : y ≡ x = ground arith in (Memᴰ.head (sym e), rw (← e) t)
    | inr f ↦ let (m, passes) = find-some ys (ground arith) in (Memᴰ.tail m, passes)
  ]

  pub find-none : {x : A} (xs : List A) → find p xs ≡ none → Memᴰ x xs → p x ≡ false
  unfolding find
  find-none [] h m = elim m [ ]
  find-none (y ∷ ys) h (Memᴰ.head e) = rw e (ground arith)
  find-none (y ∷ ys) h (Memᴰ.tail m) = find-none ys (ground arith) m

  pub any-true : (xs : List A) → any p xs ≡ true → (x : A) × Memᴰ x xs × (p x ≡ true)
  unfolding any
  any-true [] h = absurd (cc)
  any-true (y ∷ ys) h = elim (Bool-cases (p y)) [
    | inl t ↦ (y, Memᴰ.head refl, t)
    | inr f ↦ let (x, m, passes) = any-true ys (ground arith) in (x, Memᴰ.tail m, passes)
  ]

  pub any_of_Memᴰ : {x : A} (xs : List A) → Memᴰ x xs → p x ≡ true → any p xs ≡ true
  unfolding any
  any_of_Memᴰ [] m h = elim m [ ]
  any_of_Memᴰ (y ∷ ys) (Memᴰ.head e) h = let t : p y ≡ true = ap p (sym e) ∙ h in rw t
  any_of_Memᴰ (y ∷ ys) (Memᴰ.tail m) h = ground (arith, any_of_Memᴰ ys m h)

  pub all-true : (xs : List A) → all p xs ≡ true → All (λ x. p x ≡ true) xs
  unfolding all
  all-true [] h = tt
  all-true (y ∷ ys) h = (ground arith, all-true ys (ground arith))

  pub all_of_All : (xs : List A) → All (λ x. p x ≡ true) xs → all p xs ≡ true
  unfolding all
  all_of_All [] h = refl
  all_of_All (y ∷ ys) h = ground (arith, all_of_All ys h.1)

module _ {ℓ κ} {A : Type ℓ} {B : Type κ} (f : A → B) where
  pub Memᴰ-map : {x : A} (xs : List A) → Memᴰ x xs → Memᴰ (f x) (map f xs)
  Memᴰ-map [] m = elim m [ ]
  Memᴰ-map (y ∷ ys) (Memᴰ.head e) = Memᴰ.head (ap f e)
  Memᴰ-map (y ∷ ys) (Memᴰ.tail m) = Memᴰ.tail (Memᴰ-map ys m)

  pub Memᴰ-of_map : {b : B} (xs : List A) → Memᴰ b (map f xs) → (x : A) × Memᴰ x xs × (b ≡ f x)
  Memᴰ-of_map [] m = elim m [ ]
  Memᴰ-of_map (y ∷ ys) (Memᴰ.head e) = (y, Memᴰ.head refl, e)
  Memᴰ-of_map (y ∷ ys) (Memᴰ.tail m) =
      let (x, there, e) = Memᴰ-of_map ys m in (x, Memᴰ.tail there, e)

  pub length-map : (xs : List A) → length (map f xs) ≡ length xs
  length-map [] = refl
  length-map (x ∷ xs) = ap suc (length-map xs)

module _ {ℓ} {A : Type ℓ} where
  pub Memᴰ-take : {x : A} (n : ℕ) (xs : List A) → Memᴰ x (take n xs) → Memᴰ x xs
  Memᴰ-take zero xs m = elim m [ ]
  Memᴰ-take (suc n) [] m = m
  Memᴰ-take (suc n) (y ∷ ys) (Memᴰ.head e) = Memᴰ.head e
  Memᴰ-take (suc n) (y ∷ ys) (Memᴰ.tail m) = Memᴰ.tail (Memᴰ-take n ys m)

  pub Memᴰ-drop : {x : A} (n : ℕ) (xs : List A) → Memᴰ x (drop n xs) → Memᴰ x xs
  Memᴰ-drop zero xs m = m
  Memᴰ-drop (suc n) [] m = m
  Memᴰ-drop (suc n) (y ∷ ys) m = Memᴰ.tail (Memᴰ-drop n ys m)

pub All-map {ℓ κ μ} :
    {A : Type ℓ} {P : A → Type κ} {Q : A → Type μ}
    → ((x : A) → P x → Q x)
    → (xs : List A) → All P xs
    → All Q xs
All-map f [] h = tt
All-map f (x ∷ xs) h = (f x h.0, All-map f xs h.1)
