-- ===== src/Subscription/Access.antt =====
-- selector.go: who has access to a subscription, and which models it includes.
use models_as_a_service_mids.Prelude.{
  ◌≡◌, refl, ◌↔◌, ◌⊎◌, inl, inr, Text, ◌==◌, eq_iff, trim_space, split_first, contains,
  contains_iff, List, Memᴰ, none, some, Bool, true, false, ◌&&◌, ◌||◌, any, any-true, any_of_Memᴰ,
  is_nil, Bool-cases, arith, if◌then◌else◌,
}
use models_as_a_service_mids.Subscription.Types.{Subscription, ModelRefInfo}

unfoldable pub user_has_access : Subscription → Text → List Text → Bool
user_has_access sub username groups =
    contains sub.users username
    || any (λ sub_group. any (λ user_group. trim_space user_group == sub_group) groups) sub.groups

unfoldable pub names_model : Text → Text → ModelRefInfo → Bool
names_model ns name ref = ref.namespace == ns && ref.name == name

unfoldable pub subscription_includes_model : Subscription → Text → Bool
unfolding names_model
subscription_includes_model sub requested =
    if is_nil requested then true else (elim (split_first b'/' requested) [
      | none ↦ false
      | some (ns, name) ↦ any (names_model ns name) sub.model_refs
    ])

-- The method `hasModel`.
unfoldable pub has_model : Subscription → Text → Bool
has_model sub model_id = any (λ ref. ref.name == model_id) sub.model_refs

-- What `user_has_access` grants: the user is listed, or one of the user's groups is, up to the
-- white space around it.
abbrev pub HasAccess : Subscription → Text → List Text → Type 0
HasAccess sub username groups =
    Memᴰ username sub.users
    ⊎ ((user_group : Text) × Memᴰ user_group groups × Memᴰ (trim_space user_group) sub.groups)

-- Access is granted exactly to the listed users and to the members of the listed groups.
pub user_has_access_iff :
    (sub : Subscription) (username : Text) (groups : List Text)
    → (user_has_access sub username groups ≡ true) ↔ HasAccess sub username groups
unfolding user_has_access
user_has_access_iff sub username groups = (granted, grants)
  where
    matches : Text → Text → Bool
    matches sub_group user_group = trim_space user_group == sub_group

    granted :
        (contains sub.users username || any (λ g. any (λ u. trim_space u == g) groups) sub.groups
          ≡ true)
        → HasAccess sub username groups
    granted h = elim (Bool-cases (contains sub.users username)) [
      | inl t ↦ inl ((contains_iff sub.users username).0 t)
      | inr f ↦
          let (g, listed, some_group) =
            any-true (λ g. any (λ u. trim_space u == g) groups) sub.groups (ground arith) in
          let (u, member, same) = any-true (λ u. trim_space u == g) groups some_group in
          inr (u, member, rw ((eq_iff (trim_space u) g).0 same) listed)
    ]

    grants :
        HasAccess sub username groups
        → (contains sub.users username || any (λ g. any (λ u. trim_space u == g) groups) sub.groups
            ≡ true)
    grants (inl m) = rw ((contains_iff sub.users username).1 m)
    grants (inr (u, member, listed)) =
        let inner : any (λ v. trim_space v == trim_space u) groups ≡ true =
          any_of_Memᴰ (λ v. trim_space v == trim_space u) groups member
            ((eq_iff (trim_space u) (trim_space u)).1 refl) in
        let outer : any (λ g. any (λ v. trim_space v == g) groups) sub.groups ≡ true =
          any_of_Memᴰ (λ g. any (λ v. trim_space v == g) groups) sub.groups listed inner in
        ground arith
