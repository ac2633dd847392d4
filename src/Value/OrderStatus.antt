-- ===== src/Value/OrderStatus.antt =====
-- `OrderStatus` of domain/model/value_objects.rs, its text and the way back.
pub mod RoundTrip
use ddd_samples.Prelude.{String, ◌+++◌, str_eq, ◌≡◌, refl, Bool, true, false, arith, if◌then◌else◌}
use ddd_samples.Prelude.Action.{Outcome, ok, err}
use ddd_samples.Error.{DomainError}
use text.Mathlib.TextEquality.{eq_iff}

pub data OrderStatus : Type 0 where
  pending confirmed shipped delivered cancelled : OrderStatus

-- The derived `PartialEq`.
abbrev pub eq_status : OrderStatus → OrderStatus → Bool
eq_status pending pending = true
eq_status confirmed confirmed = true
eq_status shipped shipped = true
eq_status delivered delivered = true
eq_status cancelled cancelled = true
eq_status _ _ = false

-- `impl Display for OrderStatus`
unfoldable pub show : OrderStatus → String
show pending = "Pending"
show confirmed = "Confirmed"
show shipped = "Shipped"
show delivered = "Delivered"
show cancelled = "Cancelled"

-- `OrderStatus::from_string`
unfoldable pub from_string : String → Outcome DomainError OrderStatus
from_string s =
    if str_eq s "Pending"
    then ok pending
    else if str_eq s "Confirmed"
    then ok confirmed
    else if str_eq s "Shipped"
    then ok shipped
    else if str_eq s "Delivered"
    then ok delivered
    else if str_eq s "Cancelled"
    then ok cancelled
    else err (DomainError.invalid_value ("無効な注文ステータス: " +++ s))
