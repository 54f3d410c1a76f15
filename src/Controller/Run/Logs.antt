-- ===== src/Controller/Run/Logs.antt =====
-- What a method's log can hold.
use models_as_a_service_mids.Prelude.{
  ◌≡◌, ◌≢◌, refl, sym, subst, List, [], ◌∷◌, All, All-map, All-append, Memᴰ, Result, ok, err, Bool,
  true, false, if◌then◌else◌,
}
use models_as_a_service_mids.Controller.Run.{
  Run, pure, raise, observe, perform, wrap, attempt, and_then, ◌>>=◌, for_each, collect,
}

ok-inj : {E A : Type 0} {a b : A} → Path (Result E A) (ok a) (ok b) → a ≡ b
ok-inj h = cc

err-ok : {E A : Type 0} {e : E} {a : A} → Path (Result E A) (err e) (ok a) → true ≡ false
err-ok h = cc

never : true ≢ false
never h = absurd (cc)

module _ {W L : Type 0} where
  -- Every call that the method makes, from any world, satisfies P.
  pub record Calls {E A : Type 0} (P : L → Type 0) (m : Run W L E A) : Type 0 where
    pub holds : (w : W) → All P (m w).2

  module _ (P : L → Type 0) where
    pub Calls-pure : {E A : Type 0} → (a : A) → Calls {E = E} P (pure a)
    Calls-pure a = record { holds = λ w. tt }

    pub Calls-raise : {E A : Type 0} → (e : E) → Calls {A = A} P (raise e)
    Calls-raise e = record { holds = λ w. tt }

    pub Calls-observe : {E A : Type 0} → (call : W → Result E A × W) → Calls P (observe call)
    Calls-observe call = record { holds = λ w. tt }

    pub Calls-perform :
        {E A : Type 0}
        → (entry : L) (call : W → Result E A × W) → P entry
        → Calls P (perform entry call)
    Calls-perform entry call h = record { holds = λ w. (h, tt) }

    pub Calls-wrap :
        {E A F : Type 0} → (f : E → F) (m : Run W L E A) → Calls P m → Calls P (wrap f m)
    Calls-wrap f m h = record { holds = λ w. h.holds w }

    pub Calls-attempt :
        {E A F : Type 0} → (m : Run W L E A) → Calls P m → Calls {E = F} P (attempt m)
    Calls-attempt m h = record { holds = λ w. h.holds w }

    pub Calls-and_then :
        {E A B : Type 0}
        → (r : Result E A) (w : W) (log : List L) (f : A → Run W L E B) → All P log
        → ((a : A) → r ≡ ok a → Calls P (f a))
        → All P (and_then r w log f).2
    Calls-and_then (ok a) w log f h k = All-append P log (f a w).2 h ((k a refl).holds w)
    Calls-and_then (err e) w log f h k = h

    pub Calls-bind :
        {E A B : Type 0}
        → (m : Run W L E A) (f : A → Run W L E B) → Calls P m
        → ((a : A) → Calls P (f a))
        → Calls P (m >>= f)
    Calls-bind m f h k = record {
      holds = λ w. Calls-and_then (m w).0 (m w).1 (m w).2 f (h.holds w) (λ a _. k a);
    }

    pub Calls-for_each :
        {E A : Type 0}
        → (f : A → Run W L E (Unit {0})) (xs : List A) → ((a : A) → Memᴰ a xs → Calls P (f a))
        → Calls P (for_each f xs)
    unfolding for_each
    Calls-for_each f [] h = Calls-pure tt
    Calls-for_each f (x ∷ xs) h =
        Calls-bind (f x) (λ _. for_each f xs) (h x (Memᴰ.head refl))
          (λ _. Calls-for_each f xs (λ a m. h a (Memᴰ.tail m)))

    pub Calls-collect :
        {E A B : Type 0}
        → (f : A → Run W L E B) (xs : List A) → ((a : A) → Calls P (f a))
        → Calls P (collect f xs)
    unfolding collect
    Calls-collect f [] h = Calls-pure []
    Calls-collect f (x ∷ xs) h =
        Calls-bind (f x) (λ b. collect f xs >>= (λ bs. pure (b ∷ bs))) (h x)
          (λ b.
            Calls-bind (collect f xs) (λ bs. pure (b ∷ bs)) (Calls-collect f xs h)
              (λ bs. Calls-pure (b ∷ bs)))

    pub Calls-if :
        {E A : Type 0}
        → (b : Bool) (m k : Run W L E A) → (b ≡ true → Calls P m)
        → (b ≡ false → Calls P k)
        → Calls P (if b then m else k)
    Calls-if true m k h g = h refl
    Calls-if false m k h g = g refl

    -- A method that makes no call.
    pub Calls-quiet : {E A : Type 0} → (m : Run W L E A) → ((w : W) → (m w).2 ≡ []) → Calls P m
    Calls-quiet m h = record { holds = λ w. subst (All P) (sym (h w)) tt }

  module _ (P Q : L → Type 0) (f : (c : L) → P c → Q c) where
    pub Calls-weaken : {E A : Type 0} → (m : Run W L E A) → Calls P m → Calls Q m
    Calls-weaken m h = record { holds = λ w. All-map f (m w).2 (h.holds w) }

  -- Every result of the method satisfies Q.
  pub record Gives {E A : Type 0} (Q : A → Type 0) (m : Run W L E A) : Type 0 where
    pub gives : (w : W) (a : A) → (m w).0 ≡ ok a → Q a

  pub Gives-pure : {E A : Type 0} → (Q : A → Type 0) (a : A) → Q a → Gives {E = E} Q (pure a)
  Gives-pure Q a q = record { gives = λ w b h. subst Q (ok-inj h) q }

  pub Gives-raise : {E A : Type 0} → (Q : A → Type 0) (e : E) → Gives Q (raise e)
  Gives-raise Q e = record { gives = λ w b h. absurd (never (err-ok h)) }

  Gives-and_then :
      {E A B : Type 0}
      → (Q : B → Type 0) (r : Result E A) (w : W) (log : List L) (f : A → Run W L E B)
      → ((a : A) → r ≡ ok a → Gives Q (f a))
      → (b : B) → (and_then r w log f).0 ≡ ok b
      → Q b
  Gives-and_then Q (ok a) w log f k b h = (k a refl).gives w b h
  Gives-and_then Q (err e) w log f k b h = absurd (never (err-ok h))

  pub Gives-bind :
      {E A B : Type 0}
      → (P : A → Type 0) (Q : B → Type 0) (m : Run W L E A) (f : A → Run W L E B) → Gives P m
      → ((a : A) → P a → Gives Q (f a))
      → Gives Q (m >>= f)
  Gives-bind P Q m f g k = record {
    gives = λ w b h. Gives-and_then Q (m w).0 (m w).1 (m w).2 f (λ a e. k a (g.gives w a e)) b h;
  }

  pub Gives-if :
      {E A : Type 0}
      → (Q : A → Type 0) (b : Bool) (m k : Run W L E A) → (b ≡ true → Gives Q m)
      → (b ≡ false → Gives Q k)
      → Gives Q (if b then m else k)
  Gives-if Q true m k h g = h refl
  Gives-if Q false m k h g = g refl

  pub Gives-any : {E A : Type 0} → (m : Run W L E A) → Gives (λ _. Unit {0}) m
  Gives-any m = record { gives = λ w a h. tt }

  attempted :
      {E F A B : Type 0}
      → (P : L → Type 0) (Q : A → Type 0) (f : Result E A → Run W L F B) (r : Result E A)
      → ((a : A) → r ≡ ok a → Q a)
      → ((a : A) → Q a → Calls P (f (ok a)))
      → ((e : E) → Calls P (f (err e)))
      → (w : W) → All P (f r w).2
  attempted P Q f (ok a) g k j w = (k a (g a refl)).holds w
  attempted P Q f (err e) g k j w = (j e).holds w

  -- What the attempted method gave, if it gave a result, satisfies Q.
  pub Calls-attempt_of :
      {E F A B : Type 0}
      → (P : L → Type 0) (Q : A → Type 0) (m : Run W L E A) (f : Result E A → Run W L F B)
      → Calls P m
      → Gives Q m
      → ((a : A) → Q a → Calls P (f (ok a)))
      → ((e : E) → Calls P (f (err e)))
      → Calls P (attempt m >>= f)
  Calls-attempt_of P Q m f c g k j = record {
    holds = λ w.
        All-append P (m w).2 (f (m w).0 (m w).1).2 (c.holds w)
          (attempted P Q f (m w).0 (g.gives w) k j (m w).1);
  }
