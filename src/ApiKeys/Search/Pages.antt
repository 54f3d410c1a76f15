-- ===== src/ApiKeys/Search/Pages.antt =====
-- Paging: the pages of any list of keys, one behind the other, are the list.
use models_as_a_service_mids.Prelude.{
  ℕ, zero, suc, ◌+◌, ◌*◌, ◌≤◌, ◌≡◌, refl, sym, ap, ◌∙◌, List, [], ◌∷◌, ◌++◌, ltb, leb, length, take,
  drop, length-take, length-drop, take_all, Bool-cases, inl, inr, arith,
}
use models_as_a_service_mids.ApiKeys.Types.{ApiKey}
use models_as_a_service_mids.ApiKeys.Search.{apply_pagination, slice_page}

drop_all : {A : Type 0} (n : ℕ) (xs : List A) → length xs ≤ n → drop n xs ≡ []
drop_all zero [] h = refl
drop_all zero (x ∷ xs) h = absurd (omega arith)
drop_all (suc n) [] h = refl
drop_all (suc n) (x ∷ xs) h = drop_all n xs (omega arith)

take_nil : {A : Type 0} (n : ℕ) → take {A = A} n [] ≡ []
take_nil zero = refl
take_nil (suc n) = refl

take-take : {A : Type 0} (n : ℕ) (xs : List A) → take n (take (suc n) xs) ≡ take n xs
take-take zero xs = refl
take-take (suc n) [] = refl
take-take (suc n) (x ∷ xs) = ap (◌∷◌ x) (take-take n xs)

take-add : {A : Type 0} (i j : ℕ) (xs : List A) → take (i + j) xs ≡ take i xs ++ take j (drop i xs)
take-add zero j xs = ap (λ n. take n xs) (omega arith)
take-add (suc i) j [] = take_nil (suc i + j) ∙ sym (take_nil j)
take-add (suc i) j (x ∷ xs) =
    let e : suc i + j ≡ suc (i + j) = omega arith in rw e (ap (◌∷◌ x) (take-add i j xs))

-- A page is the next `limit` keys behind the offset, and it says that more follow exactly if a key
-- stands behind the page.
pub apply_pagination_lem :
    (keys : List ApiKey) (offset limit : ℕ)
    → ((apply_pagination keys offset limit).0 ≡ take limit (drop offset keys))
      × ((apply_pagination keys offset limit).1 ≡ ltb (offset + limit) (length keys))
unfolding apply_pagination
apply_pagination_lem keys offset limit = elim (Bool-cases (leb (length keys) offset)) [
  | inl past ↦
      let empty = drop_all offset keys (ground arith) in
      rw (past, empty) (sym (take_nil limit), ground arith)
  | inr within ↦ elim (Bool-cases (ltb limit (length (drop offset keys)))) [
    | inl more ↦ rw (within, more) (refl, ground (arith, length-drop offset keys))
    | inr last ↦
        rw (within, last)
          (
            sym (take_all limit (drop offset keys) (ground arith)),
            ground (arith, length-drop offset keys),
          )
  ]
]

-- `List`, which cuts one key more and tests for it, makes the same pages as `Search`.
pub slice_page-eq :
    (keys : List ApiKey) (offset limit : ℕ)
    → slice_page keys offset limit ≡ apply_pagination keys offset limit
unfolding slice_page apply_pagination
slice_page-eq keys offset limit =
    let rest = drop offset keys in
    let e : limit + 1 ≡ suc limit = omega arith in
    rw e (elim (Bool-cases (ltb limit (length rest))) [
      | inl more ↦ ground (arith, length-take (suc limit) rest, take-take limit rest)
      | inr last ↦ ground (arith, take_all (suc limit) rest)
    ])

-- The first `n` pages of `limit` keys each.
pub pages : List ApiKey → ℕ → ℕ → List ApiKey
pages keys limit zero = []
pages keys limit (suc n) = pages keys limit n ++ (apply_pagination keys (n * limit) limit).0

pages-eq-take : (keys : List ApiKey) (limit n : ℕ) → pages keys limit n ≡ take (n * limit) keys
unfolding pages
pages-eq-take keys limit zero = let none : 0 ≡ 0 * limit = grind arith in ap (λ n. take n keys) none
pages-eq-take keys limit (suc n) =
    let e : suc n * limit ≡ n * limit + limit = grind arith in
    rw e (
      rw (pages-eq-take keys limit n, (apply_pagination_lem keys (n * limit) limit).0)
        (sym (take-add (n * limit) limit keys)))

-- As many pages as cover the list are the whole list, in order: no key is skipped and none is
-- shown twice.
pub pages_lem :
    (keys : List ApiKey) (limit n : ℕ) → length keys ≤ n * limit → pages keys limit n ≡ keys
pages_lem keys limit n enough = pages-eq-take keys limit n ∙ take_all (n * limit) keys enough
