-- ===== src/Config.antt =====
-- `DatabaseConfig` of adapter/database_config.rs, with the variables of the process as a function.
pub mod Parsing
use ddd_samples.Prelude.{
  ℕ, ◌+◌, ◌*◌, ◌-◌, ◌^◌, String, ◌+++◌, codes, is_ascii_digit, Option, none, some, List, [], ◌∷◌,
  leb, ◌==◌, if◌then◌else◌,
}
use ddd_samples.Prelude.Action.{Outcome, ok, err, panic}
use ddd_samples.Prelude.Result.{◌>>=◌}

pub record DatabaseConfig : Type 0 where
  pub host : String
  pub port : ℕ  -- u16
  pub database : String
  pub username : String
  pub password : String
  pub max_connections : ℕ  -- u32

pub data ConfigError : Type 0 where
  invalid_value : String → ConfigError

-- `impl Display for ConfigError`
unfoldable pub show_config_error : ConfigError → String
show_config_error (invalid_value msg) = "Invalid configuration value: " +++ msg

-- The kinds of `ParseIntError` that an unsigned type has, and their texts.
pub data ParseIntError : Type 0 where
  empty invalid_digit pos_overflow : ParseIntError

abbrev pub show_parse_error : ParseIntError → String
show_parse_error empty = "cannot parse integer from empty string"
show_parse_error invalid_digit = "invalid digit found in string"
show_parse_error pos_overflow = "number too large to fit in target type"

-- The loop of `from_str_radix`: the product is tested after the digit, the sum last.
unfoldable pub parse_digits : ℕ → ℕ → List ℕ → Outcome ParseIntError ℕ
parse_digits max result [] = ok result
parse_digits max result (c ∷ cs) =
    let rest = parse_digits max (result * 10 + (c - b'0')) cs in
    if is_ascii_digit c
    then if leb (result * 10) max
      then if leb (result * 10 + (c - b'0')) max then rest else err pos_overflow
      else err pos_overflow
    else err invalid_digit

abbrev after_plus : ℕ → ℕ → List ℕ → Outcome ParseIntError ℕ
after_plus max c [] = if is_ascii_digit c then parse_digits max 0 (c ∷ []) else err invalid_digit
after_plus max c (d ∷ cs) =
    if c == b'+' then parse_digits max 0 (d ∷ cs) else parse_digits max 0 (c ∷ d ∷ cs)

-- `parse::<u16>` and `parse::<u32>`, by the largest value: a sign alone is no number, and a `+`
-- before digits is passed over.
abbrev pub parse_codes : ℕ → List ℕ → Outcome ParseIntError ℕ
parse_codes max [] = err empty
parse_codes max (c ∷ cs) = after_plus max c cs

unfoldable pub parse_unsigned : ℕ → String → Outcome ParseIntError ℕ
parse_unsigned max s = parse_codes max (codes s)

abbrev pub u16_max : ℕ
u16_max = 65535

abbrev pub u32_max : ℕ
u32_max = 4294967295

-- `env::var(…).unwrap_or_else(|_| ….to_string())`
abbrev pub or_default : Option String → String → String
or_default none default = default
or_default (some value) default = value

-- `.map_err(|e| ConfigError::InvalidValue(format!("Invalid …: {}", e)))?`
abbrev pub parsed_as : String → Outcome ParseIntError ℕ → Outcome ConfigError ℕ
parsed_as name (ok n) = ok n
parsed_as name (err e) = err (invalid_value ("Invalid " +++ name +++ ": " +++ show_parse_error e))
parsed_as name panic = panic

module _ (var : String → Option String) where
  -- `DatabaseConfig::from_env`
  unfoldable pub from_env : Outcome ConfigError DatabaseConfig
  from_env = do
    port ←
        parsed_as "DATABASE_PORT" (parse_unsigned u16_max (or_default (var "DATABASE_PORT") "3306"))
    max_connections ←
        parsed_as "DATABASE_MAX_CONNECTIONS"
          (parse_unsigned u32_max (or_default (var "DATABASE_MAX_CONNECTIONS") "10"))
    ok (record {
      host = or_default (var "DATABASE_HOST") "localhost";
      port = port;
      database = or_default (var "DATABASE_NAME") "bookstore_db";
      username = or_default (var "DATABASE_USER") "bookstore_user";
      password = or_default (var "DATABASE_PASSWORD") "bookstore_password";
      max_connections = max_connections;
    })

-- `DatabaseConfig::connection_string`
unfoldable pub connection_string : (ℕ → String) → DatabaseConfig → String
connection_string show_u16 self =
    "mysql://"
    +++ self.username
    +++ ":"
    +++ self.password
    +++ "@"
    +++ self.host
    +++ ":"
    +++ show_u16 self.port
    +++ "/"
    +++ self.database
