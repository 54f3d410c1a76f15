-- ===== src/Controller/Run.antt =====
-- A method of a reconciler: it reads and changes a world, which its caller gives, may fail, and
-- keeps a log of the calls that change the cluster.
pub mod Logs
use models_as_a_service_mids.Prelude.{
  List, [], ◌∷◌, ◌++◌, Bool, true, false, Result, ok, err, map_err,
}

-- W is the world, L an entry of the log, E an error.
abbrev pub Run : Type 0 → Type 0 → Type 0 → Type 0 → Type 0
Run W L E A = W → Result E A × W × List L

module _ {W L : Type 0} where
  module _ {E A : Type 0} where
    abbrev pub pure : A → Run W L E A
    pure a w = (ok a, w, [])

    abbrev pub raise : E → Run W L E A
    raise e w = (err e, w, [])

    -- A call that changes nothing.
    abbrev pub observe : (W → Result E A × W) → Run W L E A
    observe call w = let (r, w1) = call w in (r, w1, [])

    -- A call that may change the cluster, logged as `entry`.
    abbrev pub perform : L → (W → Result E A × W) → Run W L E A
    perform entry call w = let (r, w1) = call w in (r, w1, entry ∷ [])

    abbrev pub wrap : {F : Type 0} → (E → F) → Run W L E A → Run W L F A
    wrap f m w = let (r, w1, log) = m w in (map_err f r, w1, log)

    -- `v, err := m`
    abbrev pub attempt : {F : Type 0} → Run W L E A → Run W L F (Result E A)
    attempt m w = let (r, w1, log) = m w in (ok r, w1, log)

  infixl 5 ◌>>=◌ ◌>>◌
  abbrev pub and_then :
      {E A B : Type 0} → Result E A → W → List L → (A → Run W L E B) → Result E B × W × List L
  and_then (ok a) w log f = let (r, w1, more) = f a w in (r, w1, log ++ more)
  and_then (err e) w log f = (err e, w, log)

  abbrev pub ◌>>=◌ : {E A B : Type 0} → Run W L E A → (A → Run W L E B) → Run W L E B
  ◌>>=◌ m f w = let (r, w1, log) = m w in and_then r w1 log f

  abbrev pub ◌>>◌ : {E A B : Type 0} → Run W L E A → Run W L E B → Run W L E B
  m >> k = m >>= λ _. k

  -- A loop that the first error ends.
  unfoldable pub for_each :
      {E A : Type 0} → (A → Run W L E (Unit {0})) → List A → Run W L E (Unit {0})
  for_each f [] = pure tt
  for_each f (x ∷ xs) = f x >> for_each f xs

  -- A loop that collects a result for each element.
  unfoldable pub collect : {E A B : Type 0} → (A → Run W L E B) → List A → Run W L E (List B)
  collect f [] = pure []
  collect f (x ∷ xs) = do b ← f x; bs ← collect f xs; pure (b ∷ bs)
