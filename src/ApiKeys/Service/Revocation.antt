-- ===== src/ApiKeys/Service/Revocation.antt =====
-- A revoked key against the later validations.
use models_as_a_service_mids.Prelude.{
  ◌≡◌, ◌≢◌, sym, ap, ◌∙◌, Text, eq_refl, List, Option, Bool, true, All, ok, inl, inr, arith,
}
use models_as_a_service_mids.ApiKeys.Types.{Time}
use models_as_a_service_mids.ApiKeys.MockStore.{MockStore, lookup, revoke}
use models_as_a_service_mids.ApiKeys.MockStore.Entries.{IsValid}
use models_as_a_service_mids.ApiKeys.MockStore.Calls.{Call, revokes, step, run, step-IsValid}
use models_as_a_service_mids.ApiKeys.MockStore.Lifecycle.{is_dead, Spares, dead_forever}
use models_as_a_service_mids.ApiKeys.MockStore.Revocation.{revoke_lem}
use models_as_a_service_mids.ApiKeys.InMemory.{in_memory}
use models_as_a_service_mids.ApiKeys.Service.{ValidationResult, revoke_api_key, validate_api_key}
use models_as_a_service_mids.ApiKeys.Service.Validate.{validate_api_key_iff}

revoked-is_dead :
    (id : Text) (now : Time) (m : MockStore)
    → (revoke id now m).0 ≡ ok tt
    → is_dead (lookup id (revoke id now m).1) ≡ true
revoked-is_dead id now m taken = elim (revoke_lem id now m) [
  | inl (k, found, live, done, after) ↦ ground (arith, after id, eq_refl id)
  | inr (inactive, refused) ↦ absurd (ground arith)
]

module _ (sha256_hex : Text → Text) (format : Time → Text) (parse : Text → Option Time)
    (is_uuid : Text → Bool) where
  -- After a successful revocation on an in-memory store that holds every id once, and any calls at
  -- any times that add no key of the revoked id, no validation of any key is answered with that id.
  pub revoke_validate :
      (id : Text) (m : MockStore) (revoked_at : Time) (calls : List (Time × Call)) (key : Text)
      (now : Time) (r : ValidationResult)
      → IsValid m
      → (revoke_api_key sha256_hex format (in_memory format parse) id revoked_at m).0 ≡ ok tt
      → All (Spares id) calls
      → (validate_api_key sha256_hex format (in_memory format parse) is_uuid key now (
          run format
            (revoke_api_key sha256_hex format (in_memory format parse) id revoked_at m).1
            calls)).0
        ≡ ok r
      → r.valid ≡ true
      → r.key_id ≢ id
  unfolding revoke_api_key step
  revoke_validate id m revoked_at calls key now r v taken spared h accepted e =
      let m' = (revoke id revoked_at m).1 in
      let v' = step-IsValid format m (revoked_at, revokes id) v in
      let (metadata, (form, hashed, found, bound, good), same) =
        (validate_api_key_iff sha256_hex format (in_memory format parse) is_uuid key now
            (run format m' calls) r).0
          (h, accepted) in
      dead_forever format id m' calls _ now metadata v' (revoked-is_dead id revoked_at m taken)
        spared found (sym (ap (λ (x : ValidationResult). x.key_id) same) ∙ e)
