-- ===== src/ApiKeys/MockStore/Entries.antt =====
-- The map of stored keys: lookups after writes, and the invariant that every id is stored once and
-- is the id of its key.
use models_as_a_service_mids.Prelude.{
  ◌≡◌, refl, sym, ap, ◌∙◌, Text, ◌==◌, eq_iff, [], ◌∷◌, none, some, Memᴰ, Bool-cases, inl, inr, ◌⊎◌,
  arith, if◌then◌else◌,
}
use models_as_a_service_mids.ApiKeys.Types.{Time, revoked}
use models_as_a_service_mids.ApiKeys.MockStore.{
  StoredKey, MockStore, lookup, put, with_status, get_by_hash, auto_expire, is_active_of, is_stale,
  invalidate_loop, delete_loop,
}

pub lookup-put :
    (i j : Text) (k : StoredKey) (m : MockStore)
    → lookup j (put i k m) ≡ (if i == j then some k else lookup j m)
unfolding lookup put
lookup-put i j k [] = refl
lookup-put i j k ((h, old) ∷ m) =
    ground (arith, eq_iff i j, eq_iff h i, eq_iff h j, lookup-put i j k m)

-- Every id is stored once, and is the id in its key's metadata.
abbrev pub IsValid : MockStore → Type 0
IsValid [] = Unit
IsValid ((id, k) ∷ m) = (lookup id m ≡ none) × (k.metadata.id ≡ id) × IsValid m

pub lookup-of_Memᴰ :
    (id : Text) (k : StoredKey) (m : MockStore) → IsValid m → Memᴰ (id, k) m → lookup id m ≡ some k
unfolding lookup
lookup-of_Memᴰ id k [] v m = elim m [ ]
lookup-of_Memᴰ id k ((i, old) ∷ m) v (Memᴰ.head e) =
    let same_id : id ≡ i = ap (λ (p : Text × StoredKey). p.0) e in
    let same_key : k ≡ old = ap (λ (p : Text × StoredKey). p.1) e in ground (arith, eq_iff i id)
lookup-of_Memᴰ id k ((i, old) ∷ m) v (Memᴰ.tail there) =
    let found = lookup-of_Memᴰ id k m v.2 there in ground (arith, eq_iff i id)

pub put-IsValid :
    (id : Text) (k : StoredKey) (m : MockStore)
    → k.metadata.id ≡ id
    → IsValid m
    → IsValid (put id k m)
unfolding put lookup
put-IsValid id k [] e v = (refl, e, tt)
put-IsValid id k ((i, old) ∷ m) e v = elim (Bool-cases (i == id)) [
  | inl t ↦ rw t (v.0, e ∙ sym ((eq_iff i id).0 t), v.2)
  | inr f ↦
      rw f (
        ground (arith, lookup-put id i k m, eq_iff id i, eq_iff i id),
        v.1,
        put-IsValid id k m e v.2,
      )
]

pub id-lookup :
    (id : Text) {k : StoredKey} (m : MockStore)
    → IsValid m
    → lookup id m ≡ some k
    → k.metadata.id ≡ id
unfolding lookup
id-lookup id [] v h = absurd (cc)
id-lookup id {k} ((i, old) ∷ m) v h = elim (Bool-cases (i == id)) [
  | inl t ↦ ground (arith, eq_iff i id)
  | inr f ↦ id-lookup id {k = k} m v.2 (ground arith)
]

-- What the calls that rewrite entries leave of the key of an id.
pub lookup-invalidate_loop :
    (username id : Text) (m : MockStore)
    → lookup id (invalidate_loop username m).1 ≡ elim (lookup id m) [
      | none ↦ none
      | some k ↦ some (if is_active_of username k then with_status revoked k else k)
    ]
unfolding lookup invalidate_loop
lookup-invalidate_loop username id [] = refl
lookup-invalidate_loop username id ((i, k) ∷ m) =
    ground (arith, lookup-invalidate_loop username id m)

pub lookup-delete_loop :
    (now : Time) (id : Text) (m : MockStore)
    → IsValid m
    → lookup id (delete_loop now m).1
      ≡ elim (lookup id m) [ none ↦ none | some k ↦ if is_stale now k then none else some k ]
unfolding lookup delete_loop
lookup-delete_loop now id [] v = refl
lookup-delete_loop now id ((i, k) ∷ m) v = elim (Bool-cases (i == id)) [
  | inl t ↦
      let e : i ≡ id = (eq_iff i id).0 t in
      ground (arith, lookup-delete_loop now id m v.2, ap (λ j. lookup j m) e)
  | inr f ↦ ground (arith, lookup-delete_loop now id m v.2)
]

pub lookup-get_by_hash :
    (format : Time → Text) (hash : Text) (now : Time) (id : Text) (m : MockStore)
    → (lookup id (get_by_hash format hash now m).1 ≡ lookup id m)
      ⊎ ((k : StoredKey) × (lookup id m ≡ some k)
          × (lookup id (get_by_hash format hash now m).1 ≡ some (auto_expire now k)))
unfolding lookup get_by_hash
lookup-get_by_hash format hash now id [] = inl refl
lookup-get_by_hash format hash now id ((i, k) ∷ m) = elim (Bool-cases (k.key_hash == hash)) [
  | inl t ↦ elim (Bool-cases (i == id)) [
    | inl here ↦ inr (k, ground arith, ground arith)
    | inr there ↦ inl (ground arith)
  ]
  | inr f ↦ elim (lookup-get_by_hash format hash now id m) [
    | inl same ↦ inl (ground arith)
    | inr (k', found, changed) ↦ elim (Bool-cases (i == id)) [
      | inl here ↦ inl (ground arith)
      | inr there ↦ inr (k', ground arith, ground arith)
    ]
  ]
]
