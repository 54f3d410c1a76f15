-- ===== src/Prelude/Sort.antt =====
-- `sort.SliceStable` by a comparison `less`: the stable sort. Its result is the one that keeps the
-- order of elements neither of which is less. `sort.Slice` leaves that order open; where the
-- program calls it the stable order stands for the one that Go happens to choose.
use mathlib.Core.Path.{◌≡◌, refl}
use mathlib.Core.Bool.{Bool, true, false}
use mathlib.Core.List.{List, [], ◌∷◌, Memᴰ, Permᴰ}
use mathlib.Core.List.Permᴰ
use mathlib.Core.Logic.{◌⊎◌, inl, inr}
use models_as_a_service_mids.Prelude.Tests.{if◌then◌else◌, Bool-cases}
use models_as_a_service_mids.Prelude.Lists.{All, All-of_Memᴰ, All-of_forall}

module _ {ℓ} {A : Type ℓ} (less : A → A → Bool) where
  unfoldable pub insert_sorted : A → List A → List A
  insert_sorted x [] = x ∷ []
  insert_sorted x (y ∷ ys) =
      let rest = insert_sorted x ys in if less y x then y ∷ rest else x ∷ y ∷ ys

  unfoldable pub sort_stable : List A → List A
  unfolding insert_sorted
  sort_stable [] = []
  sort_stable (x ∷ xs) = insert_sorted x (sort_stable xs)

  -- No element is less than one that stands before it.
  abbrev pub IsSortedBy : List A → Type ℓ
  IsSortedBy [] = Unit
  IsSortedBy (x ∷ xs) = All (λ y. less y x ≡ false) xs × IsSortedBy xs

  -- What makes `less` an order up to ties: `sort.Interface` asks for the same.
  pub record IsStrictWeak : Type ℓ where
    pub asymm : (a b : A) → less a b ≡ true → less b a ≡ false
    pub weak : (a b c : A) → less b a ≡ false → less c b ≡ false → less c a ≡ false

module _ {ℓ} {A : Type ℓ} (less : A → A → Bool) where
  Memᴰ-insert_sorted :
      {a : A} (x : A) (xs : List A) → Memᴰ a (insert_sorted less x xs) → (a ≡ x) ⊎ Memᴰ a xs
  unfolding insert_sorted
  Memᴰ-insert_sorted x [] (Memᴰ.head e) = inl e
  Memᴰ-insert_sorted x [] (Memᴰ.tail m) = elim m [ ]
  Memᴰ-insert_sorted {a} x (y ∷ ys) m = place (less y x) m (Memᴰ-insert_sorted x ys)
    where
      place :
          (b : Bool)
          → Memᴰ a (if b then y ∷ insert_sorted less x ys else x ∷ y ∷ ys)
          → (Memᴰ a (insert_sorted less x ys) → (a ≡ x) ⊎ Memᴰ a ys)
          → (a ≡ x) ⊎ Memᴰ a (y ∷ ys)
      place true (Memᴰ.head e) ih = inr (Memᴰ.head e)
      place true (Memᴰ.tail n) ih = elim (ih n) [ inl e ↦ inl e | inr k ↦ inr (Memᴰ.tail k) ]
      place false (Memᴰ.head e) ih = inl e
      place false (Memᴰ.tail n) ih = inr n

  pub Memᴰ-of_sort : {a : A} (xs : List A) → Memᴰ a (sort_stable less xs) → Memᴰ a xs
  unfolding sort_stable
  Memᴰ-of_sort [] m = m
  Memᴰ-of_sort (x ∷ xs) m = elim (Memᴰ-insert_sorted x (sort_stable less xs) m) [
    | inl e ↦ Memᴰ.head e
    | inr n ↦ Memᴰ.tail (Memᴰ-of_sort xs n)
  ]

  insert_sorted-permᴰ : (x : A) (xs : List A) → Permᴰ (insert_sorted less x xs) (x ∷ xs)
  unfolding insert_sorted
  insert_sorted-permᴰ x [] = Permᴰ.refl (x ∷ [])
  insert_sorted-permᴰ x (y ∷ ys) = elim (Bool-cases (less y x)) [
    | inl t ↦ rw t (Permᴰ.trans (Permᴰ.cons refl (insert_sorted-permᴰ x ys)) (Permᴰ.swap refl refl))
    | inr f ↦ rw f (Permᴰ.refl (x ∷ y ∷ ys))
  ]

  pub sort_stable-permᴰ : (xs : List A) → Permᴰ (sort_stable less xs) xs
  unfolding sort_stable
  sort_stable-permᴰ [] = Permᴰ.nil
  sort_stable-permᴰ (x ∷ xs) =
      Permᴰ.trans (insert_sorted-permᴰ x (sort_stable less xs))
        (Permᴰ.cons refl (sort_stable-permᴰ xs))

  insert_sorted-mem_old :
      {a : A} (x : A) (xs : List A) → Memᴰ a xs → Memᴰ a (insert_sorted less x xs)
  unfolding insert_sorted
  insert_sorted-mem_old x [] m = elim m [ ]
  insert_sorted-mem_old x (y ∷ ys) (Memᴰ.head e) = elim (Bool-cases (less y x)) [
    | inl t ↦ rw t (Memᴰ.head e)
    | inr f ↦ rw f (Memᴰ.tail (Memᴰ.head e))
  ]
  insert_sorted-mem_old x (y ∷ ys) (Memᴰ.tail m) = elim (Bool-cases (less y x)) [
    | inl t ↦ rw t (Memᴰ.tail (insert_sorted-mem_old x ys m))
    | inr f ↦ rw f (Memᴰ.tail (Memᴰ.tail m))
  ]

  insert_sorted-mem_new : (x : A) (xs : List A) → Memᴰ x (insert_sorted less x xs)
  unfolding insert_sorted
  insert_sorted-mem_new x [] = Memᴰ.head refl
  insert_sorted-mem_new x (y ∷ ys) = elim (Bool-cases (less y x)) [
    | inl t ↦ rw t (Memᴰ.tail (insert_sorted-mem_new x ys))
    | inr f ↦ rw f (Memᴰ.head refl)
  ]

  pub Memᴰ-sort : {a : A} (xs : List A) → Memᴰ a xs → Memᴰ a (sort_stable less xs)
  unfolding sort_stable
  Memᴰ-sort [] m = m
  Memᴰ-sort (x ∷ xs) (Memᴰ.head e) = rw e (insert_sorted-mem_new x (sort_stable less xs))
  Memᴰ-sort (x ∷ xs) (Memᴰ.tail m) = insert_sorted-mem_old x (sort_stable less xs) (Memᴰ-sort xs m)

module _ {ℓ} {A : Type ℓ} {less : A → A → Bool} (order : IsStrictWeak less) where
  insert_sorted-IsSorted :
      (x : A) (xs : List A) → IsSortedBy less xs → IsSortedBy less (insert_sorted less x xs)
  unfolding insert_sorted
  insert_sorted-IsSorted x [] h = (tt, tt)
  insert_sorted-IsSorted x (y ∷ ys) h = elim (Bool-cases (less y x)) [
    | inl t ↦ rw t (
        (
          All-of_forall _ (insert_sorted less x ys) λ z m. elim (Memᴰ-insert_sorted less x ys m) [
            | inl e ↦ rw e (order.asymm y x t)
            | inr n ↦ All-of_Memᴰ _ ys h.0 n
          ],
          insert_sorted-IsSorted x ys h.1,
        ))
    | inr f ↦ rw f (((f, All-of_forall _ ys λ z m. order.weak x y z f (All-of_Memᴰ _ ys h.0 m)), h))
  ]

  pub sort_stable-IsSorted : (xs : List A) → IsSortedBy less (sort_stable less xs)
  unfolding sort_stable
  sort_stable-IsSorted [] = tt
  sort_stable-IsSorted (x ∷ xs) =
      insert_sorted-IsSorted x (sort_stable less xs) (sort_stable-IsSorted xs)

  -- No element of a sorted list is less than its head.
  pub IsSortedBy-head :
      {y : A} (x : A) (xs : List A) → IsSortedBy less (x ∷ xs) → Memᴰ y (x ∷ xs) → less y x ≡ false
  IsSortedBy-head x xs h (Memᴰ.head e) =
      rw e (elim (Bool-cases (less x x)) [ inl t ↦ order.asymm x x t | inr f ↦ f ])
  IsSortedBy-head x xs h (Memᴰ.tail m) = All-of_Memᴰ _ xs h.0 m
