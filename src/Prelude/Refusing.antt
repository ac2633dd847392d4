-- ===== src/Prelude/Refusing.antt =====
-- Actions that fail cleanly: for a relation `R` between states, and the errors of a kind `C`.
use ddd_samples.Prelude.{◌≡◌, refl, Option, none, some}
use ddd_samples.Prelude.Action.{
  Outcome, ok, err, panic, Action, ◌>>=◌, pure, or_panic, map_err, or_raise,
}

-- The state before is related to the state after, whatever the outcome.
pub record Reads {S E A : Type 0} (R : S → S → Type 0) (m : Action S E A) : Type 0 where
  pub reads : (s : S) → R s (m s).1

-- It is, if the outcome is an error of the kind.
pub record Guarded {S E A : Type 0} (R : S → S → Type 0) (C : E → Type 0) (m : Action S E A)
    : Type 0 where
  pub guards : (s : S) (e : E) → (m s).0 ≡ err e → C e → R s (m s).1

-- The outcome is no error of the kind.
pub record Late {S E A : Type 0} (C : E → Type 0) (m : Action S E A) : Type 0 where
  pub late : (s : S) (e : E) → (m s).0 ≡ err e → C e → ⊥

module _ {S : Type 0} {R : S → S → Type 0} where
  pub Reads-Guarded : {E A : Type 0} {C : E → Type 0} {m : Action S E A} → Reads R m → Guarded R C m
  Reads-Guarded h = record { guards = λ s e x c. h.reads s }

  pub Late-Guarded : {E A : Type 0} {C : E → Type 0} {m : Action S E A} → Late C m → Guarded R C m
  Late-Guarded h = record { guards = λ s e x c. absurd (h.late s e x c) }

module _ {S E A B : Type 0} {C : E → Type 0} {m : Action S E A} {f : A → Action S E B} where
  pub bind-Late : Late C m → ((a : A) → Late C (f a)) → Late C (m >>= f)
  unfolding ◌>>=◌
  bind-Late h k = record { late = λ s e. go (m s) (h.late s) e }
    where
      go :
          (r : Outcome E A × S)
          → ((e : E) → r.0 ≡ err e → C e → ⊥)
          → (e : E) → ((◌>>=◌ (λ (t : S). r) f) r.1).0 ≡ err e
          → C e
          → ⊥
      go (ok a, s') l e x c = (k a).late s' e x c
      go (err y, s') l e x c = l e (cc) c
      go (panic, s') l e x c = cc

  module _ {R : S → S → Type 0} where
    pub bind-Guarded : Guarded R C m → ((a : A) → Late C (f a)) → Guarded R C (m >>= f)
    unfolding ◌>>=◌
    bind-Guarded h k = record { guards = λ s e. go s (m s) (h.guards s) e }
      where
        go :
            (s : S) (r : Outcome E A × S)
            → ((e : E) → r.0 ≡ err e → C e → R s r.1)
            → (e : E) → ((◌>>=◌ (λ (t : S). r) f) r.1).0 ≡ err e
            → C e
            → R s ((◌>>=◌ (λ (t : S). r) f) r.1).1
        go s (ok a, s') l e x c = absurd ((k a).late s' e x c)
        go s (err y, s') l e x c = l e (cc) c
        go s (panic, s') l e x c = cc

    module _ (trans : (s t u : S) → R s t → R t u → R s u) where
      pub then-Guarded : Reads R m → ((a : A) → Guarded R C (f a)) → Guarded R C (m >>= f)
      unfolding ◌>>=◌
      then-Guarded h k = record { guards = λ s e. go s (m s) (h.reads s) e }
        where
          go :
              (s : S) (r : Outcome E A × S)
              → R s r.1
              → (e : E) → ((◌>>=◌ (λ (t : S). r) f) r.1).0 ≡ err e
              → C e
              → R s ((◌>>=◌ (λ (t : S). r) f) r.1).1
          go s (ok a, s') l e x c = trans s s' _ l ((k a).guards s' e x c)
          go s (err y, s') l e x c = l
          go s (panic, s') l e x c = l

module _ {S E A B : Type 0} {m : Action S E A} {f : A → Action S E B} {R : S → S → Type 0}
    (trans : (s t u : S) → R s t → R t u → R s u) where
  pub bind-Reads : Reads R m → ((a : A) → Reads R (f a)) → Reads R (m >>= f)
  unfolding ◌>>=◌
  bind-Reads h k = record { reads = λ s. go s (m s) (h.reads s) }
    where
      go : (s : S) (r : Outcome E A × S) → R s r.1 → R s ((◌>>=◌ (λ (t : S). r) f) r.1).1
      go s (ok a, s') l = trans s s' _ l ((k a).reads s')
      go s (err y, s') l = l
      go s (panic, s') l = l

module _ {S E F A : Type 0} (f : E → F) (m : Action S E A) where
  -- An error that is renamed to one of the kind was of the kind before.
  pub map_err-Guarded :
      {R : S → S → Type 0} {C : E → Type 0} {D : F → Type 0}
      → ((e : E) → D (f e) → C e)
      → Guarded R C m
      → Guarded R D (map_err f m)
  map_err-Guarded {R} {C} {D} k h = record { guards = λ s e. go s (m s) (h.guards s) e }
    where
      go :
          (s : S) (r : Outcome E A × S)
          → ((e : E) → r.0 ≡ err e → C e → R s r.1)
          → (e : F) → (map_err f (λ (t : S). r) s).0 ≡ err e
          → D e
          → R s r.1
      go s (ok a, s') l e x c = cc
      go s (err y, s') l e x c = let same : f y ≡ e = cc in l y refl (k y (rw same c))
      go s (panic, s') l e x c = cc

  pub map_err_of-Late :
      {C : E → Type 0} {D : F → Type 0}
      → ((e : E) → D (f e) → C e)
      → Late C m
      → Late D (map_err f m)
  map_err_of-Late {C} {D} k h = record { late = λ s e. go s (m s) (h.late s) e }
    where
      go :
          (s : S) (r : Outcome E A × S)
          → ((e : E) → r.0 ≡ err e → C e → ⊥)
          → (e : F) → (map_err f (λ (t : S). r) s).0 ≡ err e
          → D e
          → ⊥
      go s (ok a, s') l e x c = cc
      go s (err y, s') l e x c = let same : f y ≡ e = cc in l y refl (k y (rw same c))
      go s (panic, s') l e x c = cc

  -- No error is renamed to one of the kind.
  pub map_err-Late : {D : F → Type 0} → ((e : E) → D (f e) → ⊥) → Late D (map_err f m)
  map_err-Late {D} k =
      map_err_of-Late {C = λ e. D (f e)} (λ e d. d) (record { late = λ s e x c. k e c })

  pub map_err-Reads : {R : S → S → Type 0} → Reads R m → Reads R (map_err f m)
  map_err-Reads h = record { reads = λ s. h.reads s }

module _ {S E A : Type 0} {C : E → Type 0} where
  pub pure-Late : (a : A) → Late {S = S} C (pure a)
  pure-Late a = record { late = λ s e x c. cc }

  pub or_panic-Late : (o : Option A) → Late {S = S} C (or_panic o)
  or_panic-Late none = record { late = λ s e x c. cc }
  or_panic-Late (some a) = record { late = λ s e x c. cc }

module _ {S E A : Type 0} {R : S → S → Type 0} (same : (s : S) → R s s) where
  pub or_panic-Reads : (o : Option A) → Reads {E = E} R (or_panic o)
  or_panic-Reads none = record { reads = same }
  or_panic-Reads (some a) = record { reads = same }

  pub or_raise-Reads : (o : Option A) (e : E) → Reads R (or_raise o e)
  or_raise-Reads none e = record { reads = same }
  or_raise-Reads (some a) e = record { reads = same }
