-- ===== src/Controller/Quiet.antt =====
-- In a cluster that does not change, the reconciler reports the status that `derive_status` gives.
pub mod Reads
pub mod Report
pub mod Written
pub mod Phase
use models_as_a_service_mids.Prelude.{
  ◌≡◌, refl, sym, ap, ◌∙◌, subst, List, [], ◌∷◌, ◌++◌, map, Bool, true, false, Result, ok, err,
  if◌then◌else◌, arith,
}
use models_as_a_service_mids.Controller.Run.{
  Run, pure, raise, observe, wrap, attempt, and_then, ◌>>=◌, ◌>>◌, collect,
}

module _ {W L : Type 0} (w : W) where
  -- The method leaves the world as it is and makes no call.
  pub record Stays {E A : Type 0} (m : Run W L E A) : Type 0 where
    pub same : (m w).1 ≡ w
    pub silent : (m w).2 ≡ []

  pub Stays-quiet : {E A : Type 0} → (m : Run W L E A) → (m w).1 ≡ w → (m w).2 ≡ [] → Stays m
  Stays-quiet m h g = record { same = h; silent = g }

  pub Stays-observe :
      {E A : Type 0} → (call : W → Result E A × W) → (call w).1 ≡ w → Stays (observe call)
  Stays-observe call h = record { same = h; silent = refl }

  pub Stays-wrap : {E A F : Type 0} → (f : E → F) (m : Run W L E A) → Stays m → Stays (wrap f m)
  Stays-wrap f m h = record { same = h.same; silent = h.silent }

  pub Stays-attempt : {E A F : Type 0} → (m : Run W L E A) → Stays m → Stays {E = F} (attempt m)
  Stays-attempt m h = record { same = h.same; silent = h.silent }

  pub Stays-if :
      {E A : Type 0}
      → (b : Bool) (m k : Run W L E A) → Stays m
      → Stays k
      → Stays (if b then m else k)
  Stays-if true m k h g = h
  Stays-if false m k h g = g

  Stays-on :
      {E A B : Type 0}
      → (r : Result E A) (f : A → Run W L E B) → ((a : A) → Stays (f a))
      → Stays (λ z. and_then r z [] f)
  Stays-on (ok a) f h = record { same = (h a).same; silent = (h a).silent }
  Stays-on (err e) f h = record { same = refl; silent = refl }

  bound :
      {E A B : Type 0}
      → (m : Run W L E A) (f : A → Run W L E B) → Stays m
      → (m >>= f) w ≡ and_then (m w).0 w [] f
  bound m f h =
      ap (λ z. and_then (m w).0 z (m w).2 f) h.same ∙ ap (λ z. and_then (m w).0 w z f) h.silent

  pub Stays-bind :
      {E A B : Type 0}
      → (m : Run W L E A) (f : A → Run W L E B) → Stays m
      → ((a : A) → Stays (f a))
      → Stays (m >>= f)
  Stays-bind m f h k =
      let s = Stays-on (m w).0 f k in
      record {
        same = ap (λ z. z.1) (bound m f h) ∙ s.same;
        silent = ap (λ z. z.2) (bound m f h) ∙ s.silent;
      }

  -- What a method that stays gives is what the next one gets, in the same world.
  pub attempt-then :
      {E F A B : Type 0}
      → (m : Run W L E A) (f : Result E A → Run W L F B) → Stays m
      → (attempt m >>= f) w ≡ f (m w).0 w
  attempt-then m f h = bound (attempt m) f (Stays-attempt m h) ∙ refl

  pub collect-map :
      {E A B : Type 0}
      → (f : A → Run W L E B) (g : A → B) (xs : List A) → ((x : A) → f x w ≡ (ok (g x), w, []))
      → collect f xs w ≡ (ok (map g xs), w, [])
  unfolding collect
  collect-map f g [] h = refl
  collect-map f g (x ∷ xs) h =
      let rest = collect-map f g xs h in
      ap (λ z. and_then z.0 z.1 z.2 (λ b. collect f xs >>= (λ bs. pure (b ∷ bs)))) (h x)
      ∙ ap
          (λ z. (
            (and_then z.0 z.1 z.2 (λ bs. pure (g x ∷ bs))).0,
            (and_then z.0 z.1 z.2 (λ bs. pure (g x ∷ bs))).1,
            (and_then z.0 z.1 z.2 (λ bs. pure (g x ∷ bs))).2,
          ))
          rest
