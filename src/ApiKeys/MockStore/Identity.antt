-- ===== src/ApiKeys/MockStore/Identity.antt =====
-- What using a stored key, and taking it out of service, leave of it.
use models_as_a_service_mids.Prelude.{
  ◌≡◌, refl, sym, ◌∙◌, ◌⊎◌, inl, inr, some, Bool, true, false, ◌&&◌, if◌then◌else◌, arith,
}
use models_as_a_service_mids.ApiKeys.Types.{Time, Status, active, revoked, expired, is_active}
use models_as_a_service_mids.ApiKeys.MockStore.{StoredKey, with_status, auto_expire, is_past}

-- The key `k'` is `k`, used or taken out of service.
pub record Continues (k k' : StoredKey) : Type 0 where
  pub same_username : k'.username ≡ k.username
  pub same_hash : k'.key_hash ≡ k.key_hash
  pub same_expiry : k'.expires_at ≡ k.expires_at
  pub same_ephemeral : k'.ephemeral ≡ k.ephemeral
  pub same_id : k'.metadata.id ≡ k.metadata.id
  pub same_name : k'.metadata.name ≡ k.metadata.name
  pub same_groups : k'.metadata.groups ≡ k.metadata.groups
  pub same_subscription : k'.metadata.subscription ≡ k.metadata.subscription
  pub status : (k'.metadata.status ≡ k.metadata.status) ⊎ (k.metadata.status ≡ active)

pub Continues-refl : (k : StoredKey) → Continues k k
Continues-refl k = record {
  same_username = refl;
  same_hash = refl;
  same_expiry = refl;
  same_ephemeral = refl;
  same_id = refl;
  same_name = refl;
  same_groups = refl;
  same_subscription = refl;
  status = inl refl;
}

pub Continues-trans : {k l n : StoredKey} → Continues k l → Continues l n → Continues k n
Continues-trans {k} {l} {n} a b = record {
  same_username = b.same_username ∙ a.same_username;
  same_hash = b.same_hash ∙ a.same_hash;
  same_expiry = b.same_expiry ∙ a.same_expiry;
  same_ephemeral = b.same_ephemeral ∙ a.same_ephemeral;
  same_id = b.same_id ∙ a.same_id;
  same_name = b.same_name ∙ a.same_name;
  same_groups = b.same_groups ∙ a.same_groups;
  same_subscription = b.same_subscription ∙ a.same_subscription;
  status = chain a.status b.status;
}
  where
    chain :
        (l.metadata.status ≡ k.metadata.status) ⊎ (k.metadata.status ≡ active)
        → (n.metadata.status ≡ l.metadata.status) ⊎ (l.metadata.status ≡ active)
        → (n.metadata.status ≡ k.metadata.status) ⊎ (k.metadata.status ≡ active)
    chain (inr live) s = inr live
    chain (inl e) (inl f) = inl (f ∙ e)
    chain (inl e) (inr live) = inr (sym e ∙ live)

known_active : (s : Status) → is_active s ≡ true → s ≡ active
known_active active h = refl
known_active revoked h = absurd (cc)
known_active expired h = absurd (cc)

pub Continues-status :
    (s : Status) (k : StoredKey)
    → is_active k.metadata.status ≡ true
    → Continues k (with_status s k)
Continues-status s k live = record {
  same_username = refl;
  same_hash = refl;
  same_expiry = refl;
  same_ephemeral = refl;
  same_id = refl;
  same_name = refl;
  same_groups = refl;
  same_subscription = refl;
  status = inr (known_active k.metadata.status live);
}

pub Continues-if :
    (b : Bool) (k l : StoredKey) → (b ≡ true → Continues k l) → Continues k (if b then l else k)
Continues-if true k l h = h refl
Continues-if false k l h = Continues-refl k

pub Continues-auto_expire : (now : Time) (k : StoredKey) → Continues k (auto_expire now k)
unfolding auto_expire
Continues-auto_expire now k =
    Continues-if (is_past now k.expires_at && is_active k.metadata.status) k (with_status expired k)
      (λ h. Continues-status expired k (ground arith))

pub Continues-used :
    (now : Time) (k : StoredKey) → Continues k (record k { last_used_at = some now })
Continues-used now k = record {
  same_username = refl;
  same_hash = refl;
  same_expiry = refl;
  same_ephemeral = refl;
  same_id = refl;
  same_name = refl;
  same_groups = refl;
  same_subscription = refl;
  status = inl refl;
}
