-- ===== src/Prelude/Runs.antt =====
-- How a sequence of actions runs when the first one's outcome is known.
use ddd_samples.Prelude.{◌≡◌, refl, ap}
use ddd_samples.Prelude.Action.{Outcome, ok, err, panic, Action, ◌>>=◌}

module _ {S E A B : Type 0} (m : Action S E A) (f : A → Action S E B) {s s' : S} where
  pub bind-ok : {a : A} → m s ≡ (ok a, s') → (m >>= f) s ≡ f a s'
  unfolding ◌>>=◌
  bind-ok h = ap (λ p. (◌>>=◌ (λ (t : S). p) f) s) h

  pub bind-err : {e : E} → m s ≡ (err e, s') → (m >>= f) s ≡ (err e, s')
  unfolding ◌>>=◌
  bind-err h = ap (λ p. (◌>>=◌ (λ (t : S). p) f) s) h

  pub bind-panic : m s ≡ (panic, s') → (m >>= f) s ≡ (panic, s')
  unfolding ◌>>=◌
  bind-panic h = ap (λ p. (◌>>=◌ (λ (t : S). p) f) s) h

-- A sequence that succeeds has a first action that does.
pub bind-inv :
    {S E A B : Type 0} (m : Action S E A) (f : A → Action S E B) (s : S) {s' : S} {b : B}
    → (m >>= f) s ≡ (ok b, s')
    → (a : A) × (t : S) × (m s ≡ (ok a, t)) × (f a t ≡ (ok b, s'))
unfolding ◌>>=◌
bind-inv {S} {E} {A} m f s {s'} {b} h = go (m s) refl h
  where
    go :
        (r : Outcome E A × S)
        → m s ≡ r
        → (◌>>=◌ (λ (t : S). r) f) s ≡ (ok b, s')
        → (a : A) × (t : S) × (m s ≡ (ok a, t)) × (f a t ≡ (ok b, s'))
    go (ok a, t) e h = (a, t, e, h)
    go (err x, t) e h = cc
    go (panic, t) e h = cc
