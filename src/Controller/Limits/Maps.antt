-- ===== src/Controller/Limits/Maps.antt =====
-- What a map holds after assignments.
use models_as_a_service_mids.Prelude.{
  Text, ◌==◌, eq_iff, eq_refl, ◌≡◌, ◌≢◌, ◌⊎◌, inl, inr, sym, ap, ◌∙◌, List, [], ◌∷◌, Memᴰ, Option,
  some, false, Bool-cases, arith,
}
use models_as_a_service_mids.Controller.Texts.{lookup_key, set_key, set_keys}

different : (k key : Text) → k == key ≡ false → k ≢ key
different k key h e = absurd (ground (arith, eq_refl k, e))

module _ {ℓ} {A : Type ℓ} where
  pub lookup-set_same :
      (k : Text) (v : A) (m : List (Text × A)) → lookup_key (set_key k v m) k ≡ some v
  unfolding lookup_key set_key
  lookup-set_same k v [] = ground (arith, eq_refl k)
  lookup-set_same k v ((k1, v1) ∷ m) = elim (Bool-cases (k1 == k)) [
    | inl e ↦ ground (arith, eq_refl k)
    | inr e ↦ ground (arith, lookup-set_same k v m)
  ]

  pub lookup-set_other :
      (k : Text) (v : A) (key : Text) (m : List (Text × A))
      → k == key ≡ false
      → lookup_key (set_key k v m) key ≡ lookup_key m key
  unfolding lookup_key set_key
  lookup-set_other k v key [] h = ground arith
  lookup-set_other k v key ((k1, v1) ∷ m) h = elim (Bool-cases (k1 == k)) [
    | inl e ↦ let other = ap (λ t. t == key) ((eq_iff k1 k).0 e) ∙ h in ground arith
    | inr e ↦ ground (arith, lookup-set_other k v key m h)
  ]

  -- What a key holds after assignments is one of them, or what it held.
  pub lookup-set_keys :
      (kvs m : List (Text × A)) (key : Text) {v : A}
      → lookup_key (set_keys kvs m) key ≡ some v
      → Memᴰ (key, v) kvs ⊎ (lookup_key m key ≡ some v)
  unfolding set_keys
  lookup-set_keys [] m key h = inr h
  lookup-set_keys ((k, u) ∷ kvs) m key {v = v} h =
      elim (lookup-set_keys kvs (set_key k u m) key h) [
        | inl later ↦ inl (Memᴰ.tail later)
        | inr before ↦ elim (Bool-cases (k == key)) [
          | inl e ↦
              let same = (eq_iff k key).0 e in
              let stored : Path (Option A) (some u) (some v) =
                sym (lookup-set_same k u m) ∙ ap (lookup_key (set_key k u m)) same ∙ before in
              inl (Memᴰ.head (cc))
          | inr e ↦ inr (sym (lookup-set_other k u key m e) ∙ before)
        ]
      ]

  still_there :
      (k : Text) (u : A) (m kvs : List (Text × A)) (key : Text) (v : A)
      → k == key ≡ false
      → Memᴰ (key, v) ((k, u) ∷ kvs) ⊎ (lookup_key m key ≡ some v)
      → Memᴰ (key, v) kvs ⊎ (lookup_key (set_key k u m) key ≡ some v)
  still_there k u m kvs key v e (inl (Memᴰ.head p)) =
      absurd (different k key e (sym (ap (λ z. z.0) p)))
  still_there k u m kvs key v e (inl (Memᴰ.tail mem)) = inl mem
  still_there k u m kvs key v e (inr h) = inr (lookup-set_other k u key m e ∙ h)

  -- A key that is assigned one value only holds it.
  pub set_keys-lookup :
      (kvs m : List (Text × A)) (key : Text) (v : A)
      → ((u : A) → Memᴰ (key, u) kvs → u ≡ v)
      → Memᴰ (key, v) kvs ⊎ (lookup_key m key ≡ some v)
      → lookup_key (set_keys kvs m) key ≡ some v
  unfolding set_keys
  set_keys-lookup [] m key v only (inl mem) = elim mem [ ]
  set_keys-lookup [] m key v only (inr h) = h
  set_keys-lookup ((k, u) ∷ kvs) m key v only h =
      set_keys-lookup kvs (set_key k u m) key v (λ w mem. only w (Memᴰ.tail mem))
        (elim (Bool-cases (k == key)) [
          | inl e ↦
              let same = (eq_iff k key).0 e in
              let value = only u (Memᴰ.head (ap (λ t. (t, u)) (sym same))) in
              inr
                (ap (lookup_key (set_key k u m)) (sym same) ∙ lookup-set_same k u m ∙ ap some value)
          | inr e ↦ still_there k u m kvs key v e h
        ])
