-- ===== src/Prelude/Strings.antt =====
-- Go's strings as the lists of their code points, and the functions of package `strings`.
-- Every string of the program is valid UTF-8 (it comes from JSON or from a literal), where the
-- order by bytes is the order by code points.
use Prim.Native.Nat.{ℕ}
use Prim.Native.Char.{code}
use Prim.Native.String.{String}
use mathlib.Core.Path.{◌≡◌, refl}
use mathlib.Core.Logic.{◌↔◌, inl, inr, ◌≢◌}
use mathlib.Core.List.{List, [], ◌∷◌, ◌++◌, reverse, Memᴰ}
use mathlib.Core.Option.{Option, none, some}
use mathlib.Core.Bool.{Bool, true, false, ◌&&◌, ◌||◌}
use native.Mathlib.Omega.{arith}
use models_as_a_service_mids.Prelude.Tests.{ltb, leb, nat_eq, if◌then◌else◌, Option-cases}
use models_as_a_service_mids.Prelude.Lists.{any, any-true, any_of_Memᴰ}

abbrev pub Text : Type 0
Text = List ℕ

-- The code points of a literal.
unfoldable pub codes : String → Text
codes String.[] = []
codes (String.◌∷◌ c s) = code c ∷ codes s

infix 50 ◌==◌
unfoldable pub ◌==◌ : Text → Text → Bool
[] == [] = true
[] == (y ∷ ys) = false
(x ∷ xs) == [] = false
(x ∷ xs) == (y ∷ ys) = nat_eq x y && xs == ys

eq_sound : (a b : Text) → a == b ≡ true → a ≡ b
unfolding ◌==◌
eq_sound [] [] h = refl
eq_sound [] (y ∷ ys) h = cc
eq_sound (x ∷ xs) [] h = cc
eq_sound (x ∷ xs) (y ∷ ys) h = ground (arith, eq_sound xs ys)

pub eq_refl : (a : Text) → a == a ≡ true
unfolding ◌==◌
eq_refl [] = refl
eq_refl (x ∷ xs) = ground (arith, eq_refl xs)

pub eq_iff : (a b : Text) → (a == b ≡ true) ↔ (a ≡ b)
eq_iff a b = (eq_sound a b, λ e. rw e (eq_refl b))

-- `a < b`, lexicographic.
unfoldable pub text_ltb : Text → Text → Bool
text_ltb a [] = false
text_ltb [] (y ∷ ys) = true
text_ltb (x ∷ xs) (y ∷ ys) = ltb x y || nat_eq x y && text_ltb xs ys

pub text_ltb_irrefl : (a : Text) → text_ltb a a ≡ false
unfolding text_ltb
text_ltb_irrefl [] = refl
text_ltb_irrefl (x ∷ xs) = ground (arith, text_ltb_irrefl xs)

pub text_ltb_trans :
    (a b c : Text) → text_ltb a b ≡ true → text_ltb b c ≡ true → text_ltb a c ≡ true
unfolding text_ltb
text_ltb_trans a [] c h k = cc
text_ltb_trans a (y ∷ ys) [] h k = cc
text_ltb_trans [] (y ∷ ys) (z ∷ zs) h k = refl
text_ltb_trans (x ∷ xs) (y ∷ ys) (z ∷ zs) h k = ground (arith, text_ltb_trans xs ys zs)

-- Of two texts that are not equal one is below the other.
pub text_ltb_connex : (a b : Text) → text_ltb a b ≡ false → text_ltb b a ≡ false → a ≡ b
unfolding text_ltb
text_ltb_connex [] [] h k = refl
text_ltb_connex [] (y ∷ ys) h k = cc
text_ltb_connex (x ∷ xs) [] h k = cc
text_ltb_connex (x ∷ xs) (y ∷ ys) h k = ground (arith, text_ltb_connex xs ys)

pub text_ltb_weak :
    (a b c : Text) → text_ltb b a ≡ false → text_ltb c b ≡ false → text_ltb c a ≡ false
unfolding text_ltb
text_ltb_weak [] b c h k = refl
text_ltb_weak (x ∷ xs) [] c h k = cc
text_ltb_weak (x ∷ xs) (y ∷ ys) [] h k = cc
text_ltb_weak (x ∷ xs) (y ∷ ys) (z ∷ zs) h k = ground (arith, text_ltb_weak xs ys zs)

-- `slices.Contains` of a slice of strings.
unfoldable pub contains : List Text → Text → Bool
unfolding any
contains xs t = any (λ x. x == t) xs

pub contains_iff : (xs : List Text) (t : Text) → (contains xs t ≡ true) ↔ Memᴰ t xs
unfolding contains
contains_iff xs t = (
  λ h. let (x, m, e) = any-true (λ y. y == t) xs h in rw (← (eq_sound x t e)) m,
  λ m. any_of_Memᴰ (λ y. y == t) xs m (eq_refl t),
)

-- `unicode.IsSpace`: the code points of White_Space.
unfoldable pub is_space : ℕ → Bool
is_space c =
    leb 9 c && leb c 13
    || nat_eq c 0x20
    || nat_eq c 0x85
    || nat_eq c 0xa0
    || nat_eq c 0x1680
    || leb 0x2000 c && leb c 0x200a
    || nat_eq c 0x2028
    || nat_eq c 0x2029
    || nat_eq c 0x202f
    || nat_eq c 0x205f
    || nat_eq c 0x3000

unfoldable pub trim_left : Text → Text
unfolding is_space
trim_left [] = []
trim_left (c ∷ s) = let rest = trim_left s in if is_space c then rest else c ∷ s

-- `strings.TrimSpace`
unfoldable pub trim_space : Text → Text
unfolding trim_left
trim_space s = reverse (trim_left (reverse (trim_left s)))

-- `strings.HasPrefix`, with what stands behind the prefix.
unfoldable pub cut_prefix : Text → Text → Option Text
cut_prefix [] s = some s
cut_prefix (p ∷ ps) [] = none
cut_prefix (p ∷ ps) (c ∷ s) = let rest = cut_prefix ps s in if nat_eq p c then rest else none

pub cut_prefix-append : (p s : Text) → cut_prefix p (p ++ s) ≡ some s
unfolding cut_prefix
cut_prefix-append [] s = refl
cut_prefix-append (c ∷ p) s = ground (arith, cut_prefix-append p s)

pub cut_prefix_sound : (p s : Text) {rest : Text} → cut_prefix p s ≡ some rest → s ≡ p ++ rest
unfolding cut_prefix
cut_prefix_sound [] s h = ground arith
cut_prefix_sound (c ∷ p) [] h = cc
cut_prefix_sound (c ∷ p) (d ∷ s) {rest} h = ground (arith, cut_prefix_sound p s {rest = rest})

-- `strings.SplitN(s, sep, 2)` for a separator of one code point: the part before the first
-- separator and the part behind it, or nothing where `s` has no separator (one part only).
unfoldable pub split_first : ℕ → Text → Option (Text × Text)
split_first sep [] = none
split_first sep (c ∷ s) =
    let later = split_first sep s in
    if nat_eq c sep
    then some ([], s)
    else (elim later [ none ↦ none | some (before, behind) ↦ some (c ∷ before, behind) ])

-- `strings.Contains(s, sep)`, again for one code point.
unfoldable pub contains_char : ℕ → Text → Bool
unfolding any
contains_char sep s = any (λ c. nat_eq c sep) s

pub split_first_sound :
    (sep : ℕ) (s before behind : Text)
    → split_first sep s ≡ some (before, behind)
    → (s ≡ before ++ sep ∷ behind) × (contains_char sep before ≡ false)
unfolding split_first contains_char
split_first_sound sep [] before behind h = absurd (cc)
split_first_sound sep (c ∷ s) [] behind h = elim (Option-cases (split_first sep s)) [
  | inl absent ↦ ground arith
  | inr ((b, r), found) ↦ ground arith
]
split_first_sound sep (c ∷ s) (d ∷ before) behind h = elim (Option-cases (split_first sep s)) [
  | inl absent ↦ ground arith
  | inr ((b, r), found) ↦ ground (arith, split_first_sound sep s before behind)
]

pub split_first-append :
    (sep : ℕ) (before behind : Text)
    → contains_char sep before ≡ false
    → split_first sep (before ++ sep ∷ behind) ≡ some (before, behind)
unfolding split_first contains_char
split_first-append sep [] behind h = ground arith
split_first-append sep (c ∷ before) behind h = ground (arith, split_first-append sep before behind)

pub split_first-ne_nil :
    (sep : ℕ) (s : Text) {parts : Text × Text} → split_first sep s ≡ some parts → s ≢ []
unfolding split_first
split_first-ne_nil sep [] h = absurd (cc)
split_first-ne_nil sep (c ∷ s) h = λ e. cc
