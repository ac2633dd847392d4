-- ===== src/World/Json.antt =====
-- A parsed JSON text: `serde_json::Value`.
use ddd_samples.Prelude.{ℕ, String, str_eq, Bool, Option, none, some, if◌then◌else◌}
use ddd_samples.Prelude.Int.{ℤ}

mutual
  pub data Json : Type 0 where
    null : Json
    bool : Bool → Json
    unsigned : ℕ → Json  -- a number that `as_u64` reads
    other_number : ℤ → Json
    str : String → Json
    arr : Items → Json
    obj : Fields → Json

  pub data Items : Type 0 where
    nil : Items
    cons : Json → Items → Items

  pub data Fields : Type 0 where
    end : Fields
    field : String → Json → Fields → Fields

-- A field of an object, by its name.
abbrev pub get_field : String → Fields → Option Json
get_field k end = none
get_field k (field j v fs) = if str_eq j k then some v else get_field k fs

-- `Value::get` at a string.
abbrev pub get : String → Json → Option Json
get k (obj fs) = get_field k fs
get k _ = none

-- `Value::as_str`
abbrev pub as_str : Json → Option String
as_str (str s) = some s
as_str _ = none

-- `Value::as_u64`
abbrev pub as_u64 : Json → Option ℕ
as_u64 (unsigned n) = some n
as_u64 _ = none
