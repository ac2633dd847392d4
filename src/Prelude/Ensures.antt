-- ===== src/Prelude/Ensures.antt =====
-- Invariants of actions: an action keeps `P` on the state, whether it returns, fails or panics,
-- and what it returns satisfies `Q`. One rule for each way to build an action.
use ddd_samples.Prelude.{⊤, Bool, true, false, Option, none, some, ◌≡◌, refl, if◌then◌else◌}
use ddd_samples.Prelude.Action.{
  Outcome, ok, err, panic, Action, ◌>>=◌, ◌>>◌, pure, raise, panics, gets, modify, or_raise,
  or_panic, map_err, on,
}

abbrev pub Good : {E A : Type 0} → (A → Type 0) → Outcome E A → Type 0
Good Q (ok a) = Q a
Good Q (err _) = ⊤
Good Q panic = ⊤

abbrev pub AnyValue : {A : Type 0} → A → Type 0
AnyValue _ = ⊤

pub record Ensures {S E A : Type 0} (P : S → Type 0) (Q : A → Type 0) (m : Action S E A)
    : Type 0 where
  pub keeps : (s : S) → P s → P (m s).1 × Good Q (m s).0

-- An action that keeps `P`.
abbrev pub Keeps : {S E A : Type 0} → (S → Type 0) → Action S E A → Type 0
Keeps P m = Ensures P AnyValue m

map_err-Good :
    {S E F A : Type 0} (Q : A → Type 0) (f : E → F) (r : Outcome E A) (s : S)
    → Good Q r
    → Good Q (map_err f (λ (t : S). (r, t)) s).0
map_err-Good Q f (ok a) s q = q
map_err-Good Q f (err e) s q = tt
map_err-Good Q f panic s q = tt

on-Good :
    {S E A T : Type 0} (Q : A × T → Type 0) (r : Outcome E A) (t : T) (s : S)
    → ((a : A) → r ≡ ok a → Q (a, t))
    → Good Q (on (λ (u : T). (r, t)) t s).0
on-Good Q (ok a) t s h = h a refl
on-Good Q (err e) t s h = tt
on-Good Q panic t s h = tt

any_Good : {E A : Type 0} (r : Outcome E A) → Good AnyValue r
any_Good (ok a) = tt
any_Good (err e) = tt
any_Good panic = tt

module _ {S : Type 0} {P : S → Type 0} where
  pub from_state-Keeps : {E A : Type 0} {m : Action S E A} → ((s : S) → P s → P (m s).1) → Keeps P m
  from_state-Keeps {m} h = record { keeps = λ s p. (h s p, any_Good (m s).0) }

  bind-Good :
      {E A B : Type 0} {Q : A → Type 0} {R : B → Type 0} (f : A → Action S E B) (r : Outcome E A)
      (s : S)
      → P s
      → Good Q r
      → ((a : A) → Q a → Ensures P R (f a))
      → let r' = (◌>>=◌ (λ (t : S). (r, t)) f) s in P r'.1 × Good R r'.0
  unfolding ◌>>=◌
  bind-Good f (ok a) s p q h = (h a q).keeps s p
  bind-Good f (err _) s p q h = (p, tt)
  bind-Good f panic s p q h = (p, tt)

  pub bind-Ensures :
      {E A B : Type 0} {Q : A → Type 0} {R : B → Type 0} {m : Action S E A} {f : A → Action S E B}
      → Ensures P Q m
      → ((a : A) → Q a → Ensures P R (f a))
      → Ensures P R (m >>= f)
  unfolding ◌>>=◌
  bind-Ensures {Q} {m} {f} h k = record {
    keeps = λ s p. let now = h.keeps s p in bind-Good {Q = Q} f (m s).0 (m s).1 now.0 now.1 k;
  }

  -- `m`, then `k`.
  infixr 5 ◌⨟◌
  pub ◌⨟◌ :
      {E B : Type 0} {R : B → Type 0} {m : Action S E ⊤} {k : Action S E B}
      → Keeps P m
      → Ensures P R k
      → Ensures P R (m >> k)
  h ⨟ k = bind-Ensures h λ _ _. k

  pub pure-Ensures : {E A : Type 0} {Q : A → Type 0} {a : A} → Q a → Ensures {E = E} P Q (pure a)
  pure-Ensures q = record { keeps = λ s p. (p, q) }

  pub raise-Ensures : {E A : Type 0} {Q : A → Type 0} {e : E} → Ensures P Q (raise {A = A} e)
  raise-Ensures = record { keeps = λ s p. (p, tt) }

  pub panics-Ensures : {E A : Type 0} {Q : A → Type 0} → Ensures {E = E} {A = A} P Q panics
  panics-Ensures = record { keeps = λ s p. (p, tt) }

  pub gets-Ensures :
      {E A : Type 0} {Q : A → Type 0} {f : S → A}
      → ((s : S) → P s → Q (f s))
      → Ensures {E = E} P Q (gets f)
  gets-Ensures h = record { keeps = λ s p. (p, h s p) }

  pub modify-Ensures :
      {E : Type 0} {f : S → S} → ((s : S) → P s → P (f s)) → Ensures {E = E} P AnyValue (modify f)
  modify-Ensures h = record { keeps = λ s p. (h s p, tt) }

  pub or_panic-Ensures :
      {E A : Type 0} {Q : A → Type 0} (o : Option A)
      → ((a : A) → o ≡ some a → Q a)
      → Ensures {E = E} P Q (or_panic o)
  or_panic-Ensures none h = panics-Ensures
  or_panic-Ensures (some a) h = pure-Ensures (h a refl)

  pub or_raise-Ensures :
      {E A : Type 0} {Q : A → Type 0} (o : Option A) (e : E)
      → ((a : A) → o ≡ some a → Q a)
      → Ensures P Q (or_raise o e)
  or_raise-Ensures none e h = raise-Ensures
  or_raise-Ensures (some a) e h = pure-Ensures (h a refl)

  pub if-Ensures :
      {E A : Type 0} {Q : A → Type 0} {m k : Action S E A} (b : Bool)
      → (b ≡ true → Ensures P Q m)
      → (b ≡ false → Ensures P Q k)
      → Ensures P Q (if b then m else k)
  if-Ensures true h g = h refl
  if-Ensures false h g = g refl

  pub map_err-Ensures :
      {E F A : Type 0} {Q : A → Type 0} (f : E → F) (m : Action S E A)
      → Ensures P Q m
      → Ensures P Q (map_err f m)
  map_err-Ensures {Q} f m h = record {
    keeps = λ s p. let now = h.keeps s p in (now.0, map_err-Good Q f (m s).0 (m s).1 now.1);
  }

  pub on-Ensures :
      {E A T : Type 0} {Q : A × T → Type 0} (m : Action T E A) (t : T)
      → ((a : A) → (m t).0 ≡ ok a → Q (a, (m t).1))
      → Ensures P Q (on m t)
  on-Ensures {Q} m t h = record { keeps = λ s p. (p, on-Good Q (m t).0 (m t).1 s h) }

pub ruleset ensures_rules = (
  bind-Ensures, pure-Ensures, raise-Ensures, panics-Ensures, modify-Ensures, or_panic-Ensures,
  or_raise-Ensures, map_err-Ensures,
)
