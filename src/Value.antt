-- ===== src/Value.antt =====
-- The value objects of domain/model/value_objects.rs. Identifiers are their UUIDs, and a UUID is
-- its 128 bits as a number.
pub mod Money
pub mod OrderLine
pub mod OrderStatus
pub mod ShippingAddress
use ddd_samples.Prelude.{ℕ}

-- `uuid::Uuid`; `Uuid::nil()` is 0.
abbrev pub Uuid : Type 0
Uuid = ℕ

abbrev pub OrderId : Type 0
OrderId = Uuid

abbrev pub BookId : Type 0
BookId = Uuid

abbrev pub CustomerId : Type 0
CustomerId = Uuid
