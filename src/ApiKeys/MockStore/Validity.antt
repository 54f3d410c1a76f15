-- ===== src/ApiKeys/MockStore/Validity.antt =====
-- Which key `GetByHash` answers with.
use models_as_a_service_mids.Prelude.{
  ◌≡◌, refl, sym, ap, ◌∙◌, Text, ◌==◌, eq_iff, [], ◌∷◌, true, false, Memᴰ, ok, Bool-cases, inl, inr,
  arith,
}
use models_as_a_service_mids.ApiKeys.Types.{Time, ApiKey, is_active}
use models_as_a_service_mids.ApiKeys.MockStore.{
  StoredKey, MockStore, is_past, auto_expire, answered, answer, get_by_hash,
}

-- A key that may be used at the time `now`: it is active and its expiry, if it has one, is not past.
pub record IsUsable (now : Time) (k : StoredKey) : Type 0 where
  pub is_live : is_active k.metadata.status ≡ true
  pub in_time : is_past now k.expires_at ≡ false

module _ (format : Time → Text) (hash : Text) (now : Time) where
  IsUsable-of_answer :
      (k : StoredKey) {r : ApiKey}
      → answer format (auto_expire now k) ≡ ok r
      → IsUsable now k × (r ≡ answered format k)
  unfolding answer auto_expire
  IsUsable-of_answer k {r} h = (ground arith, ground arith)

  answer-of_usable :
      (k : StoredKey) → IsUsable now k → answer format (auto_expire now k) ≡ ok (answered format k)
  unfolding answer auto_expire
  answer-of_usable k u = ground (arith, u.is_live, u.in_time)

  -- A validated key is a stored key of that hash that is active and not past its expiry, and the
  -- answer is that key's own metadata.
  pub get_by_hash-IsUsable :
      (m : MockStore) (r : ApiKey)
      → (get_by_hash format hash now m).0 ≡ ok r
      → (id : Text) × (k : StoredKey) × Memᴰ (id, k) m
        × (k.key_hash ≡ hash)
        × IsUsable now k
        × (r ≡ answered format k)
  unfolding get_by_hash
  get_by_hash-IsUsable [] r h = absurd (cc)
  get_by_hash-IsUsable ((i, k) ∷ m) r h = elim (Bool-cases (k.key_hash == hash)) [
    | inl t ↦
        let (usable, same) = IsUsable-of_answer k {r = r} (ground arith) in
        (i, k, Memᴰ.head refl, (eq_iff k.key_hash hash).0 t, usable, same)
    | inr f ↦
        let (id, k', there, same_hash, usable, same) = get_by_hash-IsUsable m r (ground arith) in
        (id, k', Memᴰ.tail there, same_hash, usable, same)
  ]

  -- A stored key that is active and not past its expiry is found by its hash, if no other stored
  -- key has the hash.
  pub get_by_hash_complete :
      (m : MockStore) (id : Text) (k : StoredKey)
      → Memᴰ (id, k) m
      → k.key_hash ≡ hash
      → IsUsable now k
      → ((id' : Text) (k' : StoredKey) → Memᴰ (id', k') m → k'.key_hash ≡ hash → k' ≡ k)
      → (get_by_hash format hash now m).0 ≡ ok (answered format k)
  unfolding get_by_hash
  get_by_hash_complete [] id k there same usable only = elim there [ ]
  get_by_hash_complete ((i, k') ∷ m) id k (Memᴰ.head e) same usable only =
      let key : k ≡ k' = ap (λ (p : Text × StoredKey). p.1) e in
      let found : (k'.key_hash == hash) ≡ true =
        (eq_iff k'.key_hash hash).1 (ap (λ (s : StoredKey). s.key_hash) (sym key) ∙ same) in
      rw found (rw (← key) (answer-of_usable k usable))
  get_by_hash_complete ((i, k') ∷ m) id k (Memᴰ.tail there) same usable only =
      elim (Bool-cases (k'.key_hash == hash)) [
        | inl t ↦
            let e : k' ≡ k = only i k' (Memᴰ.head refl) ((eq_iff k'.key_hash hash).0 t) in
            rw t (rw e (answer-of_usable k usable))
        | inr f ↦ rw f (
            get_by_hash_complete m id k there same usable (λ j l other. only j l (Memᴰ.tail other)))
      ]
