-- ===== src/Controller/Limits/Collision.antt =====
-- Two subscriptions can have one limit key, since the key joins the namespace and the name of a
-- subscription by a dash, which both may contain.
use models_as_a_service_mids.Prelude.{
  ℕ, Text, eq_refl, nat_eq, ◌≡◌, refl, sym, ap, ◌∙◌, [], ◌∷◌, ◌++◌, if◌then◌else◌, arith,
}
use models_as_a_service_mids.Controller.Types.{model_key}
use models_as_a_service_mids.Controller.Texts.{replace_all, set_key, set_keys}
use models_as_a_service_mids.Controller.Limits.{
  SubInfo, limit_key, limit_entry, assignment, limits_map,
}

replace_all-append :
    (old new : ℕ) (s t : Text)
    → replace_all old new (s ++ t) ≡ replace_all old new s ++ replace_all old new t
unfolding replace_all
replace_all-append old new [] t = refl
replace_all-append old new (c ∷ s) t =
    ap (◌∷◌ (if nat_eq c old then new else c)) (replace_all-append old new s t)

-- The two ways to put the slash give one key.
dashes :
    (a b c : Text)
    → replace_all b'/' b'-' (model_key a (b ++ b'-' ∷ c))
      ≡ replace_all b'/' b'-' (model_key (a ++ b'-' ∷ b) c)
unfolding model_key replace_all
dashes [] b c =
    ap (◌∷◌ b'-')
      (replace_all-append b'/' b'-' b (b'-' ∷ c) ∙ sym (replace_all-append b'/' b'-' b (b'/' ∷ c)))
dashes (x ∷ a) b c = ap (◌∷◌ (if nat_eq x b'/' then b'-' else x)) (dashes a b c)

same_key :
    (i1 i2 : SubInfo) (a b c : Text)
    → i1.sub.namespace ≡ a
    → i1.sub.name ≡ b ++ b'-' ∷ c
    → i2.sub.namespace ≡ a ++ b'-' ∷ b
    → i2.sub.name ≡ c
    → i1.model_ref.name ≡ i2.model_ref.name
    → limit_key i1 ≡ limit_key i2
unfolding limit_key
same_key i1 i2 a b c p1 q1 p2 q2 m = let keys = dashes a b c in cc

-- Two subscriptions `a/b-c` and `a-b/c` to one model have one limit in its policy, the one of the
-- later of them: no request of the earlier one is limited.
pub limits_map-collision :
    (i1 i2 : SubInfo) (a b c : Text)
    → i1.sub.namespace ≡ a
    → i1.sub.name ≡ b ++ b'-' ∷ c
    → i2.sub.namespace ≡ a ++ b'-' ∷ b
    → i2.sub.name ≡ c
    → i1.model_ref.name ≡ i2.model_ref.name
    → limits_map (i1 ∷ i2 ∷ []) ≡ (limit_key i2, limit_entry i2) ∷ []
unfolding limits_map assignment set_keys set_key
limits_map-collision i1 i2 a b c p1 q1 p2 q2 m =
    let same : limit_key i1 ≡ limit_key i2 = same_key i1 i2 a b c p1 q1 p2 q2 m in
    ground (arith, same, eq_refl (limit_key i2))
