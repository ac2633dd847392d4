-- ===== src/Value/OrderLine.antt =====
-- One line of an order: `OrderLine` of domain/model/value_objects.rs.
use ddd_samples.Prelude.{ℕ, ⊤, Option, ◌==◌, if◌then◌else◌}
use ddd_samples.Prelude.Words.{Profile, add_u32}
use ddd_samples.Prelude.Action.{
  Outcome, ok, err, Action, ◌>>=◌, ◌>>◌, raise_if, or_panic, gets, modify,
}
use ddd_samples.Error.{DomainError}
use ddd_samples.Value.Money.{Money}
use ddd_samples.Value.Money

pub record OrderLine : Type 0 where
  pub book_id : ℕ  -- BookId
  pub quantity : ℕ  -- u32
  pub unit_price : Money

-- `OrderLine::new`
unfoldable pub new : ℕ → ℕ → Money → Outcome DomainError OrderLine
new book_id quantity unit_price =
    if quantity == 0
    then err DomainError.invalid_quantity
    else ok (record { book_id = book_id; quantity = quantity; unit_price = unit_price })

-- `OrderLine::subtotal`
unfoldable pub subtotal : Profile → OrderLine → Option Money
unfolding Money.multiply
subtotal p self = Money.multiply p self.unit_price self.quantity

-- `OrderLine::increase_quantity`
unfoldable pub increase_quantity : Profile → ℕ → Action OrderLine DomainError ⊤
unfolding ◌>>=◌
increase_quantity p additional_quantity = do
  raise_if (additional_quantity == 0) DomainError.invalid_quantity
  quantity ← gets (λ self. self.quantity)
  sum ← or_panic (add_u32 p quantity additional_quantity)
  modify (λ self. record self { quantity = sum })
