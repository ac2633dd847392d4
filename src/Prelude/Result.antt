-- ===== src/Prelude/Result.antt =====
-- Chains of results without a state.
use ddd_samples.Prelude.{⊤, Bool, if◌then◌else◌}
use ddd_samples.Prelude.Action.{Outcome, ok, err, panic}

infixl 5 ◌>>=◌ ◌>>◌
abbrev pub ◌>>=◌ : {E A B : Type 0} → Outcome E A → (A → Outcome E B) → Outcome E B
ok a >>= f = f a
err e >>= f = err e
panic >>= f = panic

abbrev pub ◌>>◌ : {E B : Type 0} → Outcome E ⊤ → Outcome E B → Outcome E B
m >> k = m >>= λ _. k

-- `if … { return Err(…); }`
abbrev pub refuse_if : {E : Type 0} → Bool → E → Outcome E ⊤
refuse_if c e = if c then err e else ok tt

-- `match … { Ok(a) => …, Err(e) => … }` where the second arm may itself fail.
abbrev pub or_else : {E F A : Type 0} → Outcome E A → (E → Outcome F A) → Outcome F A
or_else (ok a) f = ok a
or_else (err e) f = f e
or_else panic f = panic
