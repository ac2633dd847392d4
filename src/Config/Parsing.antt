-- ===== src/Config/Parsing.antt =====
-- The numbers of the configuration: the loop of the parser against the value of the digits.
use mathlib.Core.Path.{subst}
use ddd_samples.Prelude.{
  none, some, ℕ, ◌+◌, ◌*◌, ◌-◌, ◌≤◌, ◌≡◌, refl, sym, ap, ◌∙◌, ◌↔◌, String, codes, is_ascii_digit,
  true, false, Bool-cases, inl, inr, Option, List, [], ◌∷◌, All, length, arith, leb, ◌==◌,
  if◌then◌else◌,
}
use ddd_samples.Prelude.Action.{Outcome, ok, err, panic}
use ddd_samples.Prelude.Result.{◌>>=◌}
use ddd_samples.Config.{
  or_default, parsed_as, ParseIntError, pos_overflow, parse_digits, parse_codes, parse_unsigned,
  DatabaseConfig, from_env,
}

-- The value of digits after those of `n`, without any bound.
abbrev pub value : ℕ → List ℕ → ℕ
value n [] = n
value n (c ∷ cs) = value (n * 10 + (c - b'0')) cs

abbrev pub IsDigits : List ℕ → Type 0
IsDigits = All (λ c. is_ascii_digit c ≡ true)

value_grows : (n : ℕ) (cs : List ℕ) → n ≤ value n cs
value_grows n [] = omega arith
value_grows n (c ∷ cs) = let h = value_grows (n * 10 + (c - b'0')) cs in omega arith

-- The tests on the way reject what a test at the end would, and nothing else.
parse_digits_lem :
    (max n : ℕ) (cs : List ℕ)
    → n ≤ max
    → IsDigits cs
    → parse_digits max n cs ≡ (if leb (value n cs) max then ok (value n cs) else err pos_overflow)
unfolding parse_digits
parse_digits_lem max n [] h d = ground arith
parse_digits_lem max n (c ∷ cs) h d =
    let grows = value_grows (n * 10 + (c - b'0')) cs in
    elim (Bool-cases (leb (n * 10 + (c - b'0')) max)) [
      | inl t ↦
          let low : leb (n * 10) max ≡ true = ground arith in
          rw (d.0, low, t) (parse_digits_lem max (n * 10 + (c - b'0')) cs (ground arith) d.1)
      | inr f ↦
          let high : leb (value (n * 10 + (c - b'0')) cs) max ≡ false = ground arith in
          rw (d.0, f, high) (ground arith)
    ]

parse_digits-IsDigits :
    (max n : ℕ) (cs : List ℕ) (r : ℕ)
    → n ≤ max
    → parse_digits max n cs ≡ ok r
    → IsDigits cs × (r ≡ value n cs) × (r ≤ max)
unfolding parse_digits
parse_digits-IsDigits max n [] r b h = (tt, cc, ground arith)
parse_digits-IsDigits max n (c ∷ cs) r b h =
    ground (arith, parse_digits-IsDigits max (n * 10 + (c - b'0')) cs r)

-- The digits of a text of two characters or more may follow a `+`.
abbrev pub unsign : List ℕ → List ℕ
unsign [] = []
unsign (c ∷ []) = c ∷ []
unsign (c ∷ d ∷ cs) = if c == b'+' then d ∷ cs else c ∷ d ∷ cs

-- A text is a decimal number up to `max`.
pub record IsNumber (max : ℕ) (cs : List ℕ) (n : ℕ) : Type 0 where
  pub filled : 1 ≤ length cs
  pub digits : IsDigits (unsign cs)
  pub number : n ≡ value 0 (unsign cs)
  pub bounded : n ≤ max

-- The parser reads what follows the sign.
parse_codes-unsign :
    (max c : ℕ) (cs : List ℕ) → parse_codes max (c ∷ cs) ≡ parse_digits max 0 (unsign (c ∷ cs))
unfolding parse_digits
parse_codes-unsign max c [] = elim (Bool-cases (is_ascii_digit c)) [
  | inl t ↦ rw t refl
  | inr f ↦ rw f refl
]
parse_codes-unsign max c (d ∷ cs) = elim (Bool-cases (c == b'+')) [
  | inl t ↦ rw t refl
  | inr f ↦ rw f refl
]

parse_codes-eq-ok_iff :
    (max : ℕ) (cs : List ℕ) (n : ℕ) → (parse_codes max cs ≡ ok n) ↔ IsNumber max cs n
parse_codes-eq-ok_iff max [] n = (λ h. cc, λ h. absurd (omega (arith, h.filled)))
parse_codes-eq-ok_iff max (c ∷ cs) n = (
  λ h.
      let (digits, number, bounded) =
        parse_digits-IsDigits max 0 (unsign (c ∷ cs)) n (omega arith)
          (sym (parse_codes-unsign max c cs) ∙ h) in
      record { filled = omega arith; digits = digits; number = number; bounded = bounded },
  λ h.
      let fits : leb (value 0 (unsign (c ∷ cs))) max ≡ true =
        rw⁻¹ h.number (ground (arith, h.bounded)) in
      parse_codes-unsign max c cs
      ∙ parse_digits_lem max 0 (unsign (c ∷ cs)) (omega arith) h.digits
      ∙ rw fits (ap ok (sym h.number)),
)

parse_unsigned-eq-ok_iff :
    (max : ℕ) (s : String) (n : ℕ) → (parse_unsigned max s ≡ ok n) ↔ IsNumber max (codes s) n
unfolding parse_unsigned
parse_unsigned-eq-ok_iff max s n = parse_codes-eq-ok_iff max (codes s) n

-- The text of a variable, or the default of one that is not set.
abbrev pub IsText : Option String → String → String → Type 0
IsText none default s = s ≡ default
IsText (some value) default s = s ≡ value

-- The number that this text is.
abbrev pub IsNumberOf : ℕ → Option String → String → ℕ → Type 0
IsNumberOf max none default n = IsNumber max (codes default) n
IsNumberOf max (some value) default n = IsNumber max (codes value) n

-- What the variables say, with the default of each.
pub record Says (var : String → Option String) (c : DatabaseConfig) : Type 0 where
  pub host : IsText (var "DATABASE_HOST") "localhost" c.host
  pub port : IsNumberOf 65535 (var "DATABASE_PORT") "3306" c.port
  pub database : IsText (var "DATABASE_NAME") "bookstore_db" c.database
  pub username : IsText (var "DATABASE_USER") "bookstore_user" c.username
  pub password : IsText (var "DATABASE_PASSWORD") "bookstore_password" c.password
  pub max_connections :
      IsNumberOf 4294967295 (var "DATABASE_MAX_CONNECTIONS") "10" c.max_connections

or_default-IsText : (v : Option String) (default : String) → IsText v default (or_default v default)
or_default-IsText none default = refl
or_default-IsText (some value) default = refl

IsText-or_default :
    (v : Option String) (default s : String) → IsText v default s → or_default v default ≡ s
IsText-or_default none default s h = sym h
IsText-or_default (some value) default s h = sym h

or_default-IsNumberOf :
    (max : ℕ) (v : Option String) (default : String) (n : ℕ)
    → (parse_unsigned max (or_default v default) ≡ ok n) ↔ IsNumberOf max v default n
or_default-IsNumberOf max none default n = parse_unsigned-eq-ok_iff max default n
or_default-IsNumberOf max (some value) default n = parse_unsigned-eq-ok_iff max value n

-- How the two numbers come together, with texts that are there.
both_read :
    (f : ℕ → ℕ → DatabaseConfig) (a b : Outcome ParseIntError ℕ) (c : DatabaseConfig)
    → (parsed_as "DATABASE_PORT" a >>= λ p.
        parsed_as "DATABASE_MAX_CONNECTIONS" b >>= λ m. ok (f p m))
      ≡ ok c
    → (p : ℕ) × (m : ℕ) × (a ≡ ok p) × (b ≡ ok m) × (f p m ≡ c)
both_read f (ok p) (ok m) c h = (p, m, refl, refl, cc)
both_read f (ok p) (err e) c h = cc
both_read f (ok p) panic c h = cc
both_read f (err e) b c h = cc
both_read f panic b c h = cc

-- `from_env` returns a configuration exactly when its host, database, user and password are the
-- texts of DATABASE_HOST, DATABASE_NAME, DATABASE_USER and DATABASE_PASSWORD, or "localhost",
-- "bookstore_db", "bookstore_user" and "bookstore_password" where these are not set, its port is
-- the number that DATABASE_PORT, or "3306", is in decimal, up to 65535, and its connections the
-- number that DATABASE_MAX_CONNECTIONS, or "10", is, up to 4294967295; a `+` may stand before the
-- digits of either.
pub from_env-eq-ok_iff :
    (var : String → Option String) (c : DatabaseConfig) → (from_env var ≡ ok c) ↔ Says var c
unfolding from_env
from_env-eq-ok_iff var c = (
  λ h.
      let (p, m, port, connections, same) = both_read _ _ _ c h in
      subst (Says var) same (record {
        host = or_default-IsText (var "DATABASE_HOST") _;
        port = (or_default-IsNumberOf 65535 (var "DATABASE_PORT") "3306" p).0 port;
        database = or_default-IsText (var "DATABASE_NAME") _;
        username = or_default-IsText (var "DATABASE_USER") _;
        password = or_default-IsText (var "DATABASE_PASSWORD") _;
        max_connections =
            (or_default-IsNumberOf 4294967295 (var "DATABASE_MAX_CONNECTIONS") "10" m).0
              connections;
      }),
  λ h.
      rw
        (
          (or_default-IsNumberOf 65535 (var "DATABASE_PORT") "3306" c.port).1 h.port,
          (or_default-IsNumberOf 4294967295 (var "DATABASE_MAX_CONNECTIONS") "10"
                c.max_connections).1
              h.max_connections,
          IsText-or_default (var "DATABASE_HOST") _ c.host h.host,
          IsText-or_default (var "DATABASE_NAME") _ c.database h.database,
          IsText-or_default (var "DATABASE_USER") _ c.username h.username,
          IsText-or_default (var "DATABASE_PASSWORD") _ c.password h.password,
        )
        refl,
)
