-- ===== src/Value/Money.antt =====
-- Amounts of money: `Currency` and `Money` of domain/model/value_objects.rs.
use ddd_samples.Prelude.{ℕ, String, ◌+++◌, str_eq, Bool, false, Option, none, some, if◌then◌else◌}
use ddd_samples.Prelude.Int.{ℤ, pos}
use ddd_samples.Prelude.Words.{Profile, add_i64, mul_i64}
use ddd_samples.Prelude.Action.{Outcome, ok, err, panic}
use ddd_samples.Error.{DomainError}

pub data Currency : Type 0 where
  jpy_currency : Currency

pub record Money : Type 0 where
  pub amount : ℤ  -- i64
  pub currency_of : Currency

-- `Money::new`
unfoldable pub new : ℤ → String → Outcome DomainError Money
new amount currency =
    if str_eq currency "JPY"
    then ok (record { amount = amount; currency_of = jpy_currency })
    else err (DomainError.invalid_value ("サポートされていない通貨: " +++ currency))

-- `Money::jpy`
abbrev pub jpy : ℤ → Money
jpy amount = record { amount = amount; currency_of = jpy_currency }

-- `Money::currency`
abbrev show_currency : Currency → String
show_currency jpy_currency = "JPY"

unfoldable pub currency : Money → String
currency m = show_currency m.currency_of

-- `self.currency != other.currency`
abbrev ne_currency : Currency → Currency → Bool
ne_currency jpy_currency jpy_currency = false

abbrev or_overflow : Option ℤ → Currency → Outcome DomainError Money
or_overflow none c = panic
or_overflow (some a) c = ok (record { amount = a; currency_of = c })

-- `Money::add`; the sum of two `i64` may overflow.
unfoldable pub add : Profile → Money → Money → Outcome DomainError Money
add p self other =
    if ne_currency self.currency_of other.currency_of
    then err DomainError.currency_mismatch
    else or_overflow (add_i64 p self.amount other.amount) self.currency_of

abbrev with_amount : Money → Option ℤ → Option Money
with_amount m none = none
with_amount m (some a) = some (record m { amount = a })

-- `Money::multiply`; `none` is the panic of an overflow.
unfoldable pub multiply : Profile → Money → ℕ → Option Money
multiply p self factor = with_amount self (mul_i64 p self.amount (pos factor))
