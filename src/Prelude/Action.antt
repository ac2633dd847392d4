-- ===== src/Prelude/Action.antt =====
-- A Rust method: it reads and writes a state `S`, and returns, fails with an `Err`, or panics.
-- The state comes back in every case, since what was written stays written.
use ddd_samples.Prelude.{⊤, Bool, Option, none, some, if◌then◌else◌}

pub data Outcome (E A : Type 0) : Type 0 where
  ok : A → Outcome E A
  err : E → Outcome E A
  panic : Outcome E A

abbrev pub Action : Type 0 → Type 0 → Type 0 → Type 0
Action S E A = S → Outcome E A × S

module _ {S E A : Type 0} where
  abbrev pub pure : A → Action S E A
  pure a s = (ok a, s)

  abbrev pub raise : E → Action S E A
  raise e s = (err e, s)

  abbrev pub gets : (S → A) → Action S E A
  gets f s = (ok (f s), s)

  abbrev pub panics : Action S E A
  panics s = (panic, s)

  -- `ok_or_else`
  abbrev pub or_raise : Option A → E → Action S E A
  or_raise none e = raise e
  or_raise (some a) _ = pure a

  -- `expect`, and arithmetic that may overflow.
  abbrev pub or_panic : Option A → Action S E A
  or_panic none s = (panic, s)
  or_panic (some a) s = (ok a, s)

infixl 5 ◌>>=◌ ◌>>◌
unfoldable pub ◌>>=◌ : {S E A B : Type 0} → Action S E A → (A → Action S E B) → Action S E B
◌>>=◌ m f s =
    let (r, s') = m s in elim r [ ok a ↦ f a s' | err e ↦ (err e, s') | panic ↦ (panic, s') ]

abbrev pub ◌>>◌ : {S E B : Type 0} → Action S E ⊤ → Action S E B → Action S E B
m >> k = m >>= λ _. k

abbrev pub raise_if : {S E : Type 0} → Bool → E → Action S E ⊤
raise_if c e s = (if c then err e else ok tt, s)

abbrev pub modify : {S E : Type 0} → (S → S) → Action S E ⊤
modify f s = (ok tt, f s)

-- `map_err`
abbrev pub map_err : {S E F A : Type 0} → (E → F) → Action S E A → Action S F A
map_err f m s =
    let (r, s') = m s in (elim r [ ok a ↦ ok a | err e ↦ err (f e) | panic ↦ panic ], s')

-- A call on a value that the method holds: the value comes back, and `S` is left alone.
abbrev pub on : {S T E A : Type 0} → Action T E A → T → Action S E (A × T)
on m t s = let (r, t') = m t in (elim r [ ok a ↦ ok (a, t') | err e ↦ err e | panic ↦ panic ], s)

-- A result without a state as an action.
abbrev pub lift : {S E A : Type 0} → Outcome E A → Action S E A
lift r s = (r, s)
