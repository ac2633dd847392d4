-- ===== src/Order.antt =====
-- The aggregate of domain/model/order.rs. A method that takes `&mut self` is an action on the
-- order: it returns its result together with the order as it leaves it.
pub mod Lines
pub mod Invariant
pub mod States
pub mod Total
use ddd_samples.Prelude.{
  and_then, ℕ, ⊤, not, Option, none, some, List, [], ◌∷◌, ◌++◌, is_empty, is_none, ◌==◌,
  if◌then◌else◌,
}
use ddd_samples.Prelude.Int.{pos, leb_ℤ}
use ddd_samples.Prelude.Words.{Profile}
use ddd_samples.Prelude.Action.{
  Outcome, ok, err, panic, Action, ◌>>=◌, ◌>>◌, raise_if, gets, modify,
}
use ddd_samples.Error.{DomainError}
use ddd_samples.Value.{OrderId, CustomerId, BookId}
use ddd_samples.Value.Money.{Money}
use ddd_samples.Value.Money
use ddd_samples.Value.OrderLine.{OrderLine}
use ddd_samples.Value.OrderLine
use ddd_samples.Value.OrderStatus.{
  OrderStatus, pending, confirmed, shipped, delivered, cancelled, eq_status,
}
use ddd_samples.Value.ShippingAddress.{ShippingAddress}

pub record Order : Type 0 where
  pub id : OrderId
  pub customer_id : CustomerId
  pub order_lines : List OrderLine
  pub shipping_address : Option ShippingAddress
  pub status : OrderStatus

-- `Order::new`
unfoldable pub new : OrderId → CustomerId → Order
new id customer_id = record {
  id = id;
  customer_id = customer_id;
  order_lines = [];
  shipping_address = none;
  status = pending;
}

-- `Order::reconstruct`
unfoldable pub reconstruct :
    OrderId
    → CustomerId
    → List OrderLine
    → Option ShippingAddress
    → OrderStatus
    → Outcome DomainError Order
reconstruct id customer_id order_lines shipping_address status = ok (record {
  id = id;
  customer_id = customer_id;
  order_lines = order_lines;
  shipping_address = shipping_address;
  status = status;
})

-- `order_lines.iter_mut().find(|line| line.book_id() == book_id)` and the call that follows on
-- the line that is found; `none` if there is no such line.
abbrev on_line :
    BookId
    → Action OrderLine DomainError ⊤
    → List OrderLine
    → Option (Outcome DomainError ⊤ × List OrderLine)
on_line book_id m [] = none
on_line book_id m (l ∷ ls) =
    if l.book_id == book_id
    then some ((m l).0, (m l).1 ∷ ls)
    else (elim (on_line book_id m ls) [ none ↦ none | some (r, ls') ↦ some (r, l ∷ ls') ])

-- `OrderLine::new(…)?` and `order_lines.push(order_line)`
abbrev push_line : Outcome DomainError OrderLine → Action Order DomainError ⊤
push_line (ok l) self = (ok tt, record self { order_lines = self.order_lines ++ l ∷ [] })
push_line (err e) self = (err e, self)
push_line panic self = (panic, self)

-- The `if let Some(existing_line) … else …` of `add_book`.
abbrev place_line :
    Option (Outcome DomainError ⊤ × List OrderLine)
    → Outcome DomainError OrderLine
    → Action Order DomainError ⊤
place_line (some (r, lines)) fresh self = (r, record self { order_lines = lines })
place_line none fresh self = push_line fresh self

-- `Order::add_book`
unfoldable pub add_book : Profile → BookId → ℕ → Money → Action Order DomainError ⊤
unfolding ◌>>=◌
add_book p book_id quantity unit_price = do
  raise_if (quantity == 0) DomainError.invalid_quantity
  lines ← gets (λ self. self.order_lines)
  place_line (on_line book_id (OrderLine.increase_quantity p quantity) lines)
      (OrderLine.new book_id quantity unit_price)

-- `Order::set_shipping_address`
unfoldable pub set_shipping_address : {E : Type 0} → ShippingAddress → Action Order E ⊤
set_shipping_address address = modify (λ self. record self { shipping_address = some address })

-- `result.unwrap_or(default)`
abbrev pub unwrap_or : {E A : Type 0} → Outcome E A → A → Option A
unwrap_or (ok a) d = some a
unwrap_or (err _) d = some d
unwrap_or panic d = none

-- `.map(|line| line.subtotal()).fold(acc, |acc, amount| acc.add(&amount).unwrap_or(acc))`
unfoldable pub fold_subtotals : Profile → Money → List OrderLine → Option Money
fold_subtotals p acc [] = some acc
fold_subtotals p acc (l ∷ ls) =
    and_then (OrderLine.subtotal p l)
      λ amount. and_then (unwrap_or (Money.add p acc amount) acc) λ acc'. fold_subtotals p acc' ls

-- The fee: none from 10,000 yen on, else 500.
unfoldable pub shipping_fee : Money → Money
shipping_fee subtotal =
    if leb_ℤ (pos 10000) subtotal.amount then Money.jpy (pos 0) else Money.jpy (pos 500)

-- `Order::calculate_total`; `none` is the panic of an overflow.
unfoldable pub calculate_total : Profile → Order → Option Money
calculate_total p self =
    and_then (fold_subtotals p (Money.jpy (pos 0)) self.order_lines)
      λ subtotal. unwrap_or (Money.add p subtotal (shipping_fee subtotal)) subtotal

-- `Order::confirm`
unfoldable pub confirm : Action Order DomainError ⊤
unfolding ◌>>=◌
confirm = do
  status ← gets (λ self. self.status)
  raise_if (not (eq_status status pending))
      (DomainError.invalid_order_state "注文を確定できるのはPending状態のみです")
  lines ← gets (λ self. self.order_lines)
  raise_if (is_empty lines) (DomainError.order_validation "注文明細が空です。少なくとも1つの書籍を追加してください")
  address ← gets (λ self. self.shipping_address)
  raise_if (is_none address) (DomainError.order_validation "配送先住所が設定されていません")
  modify (λ self. record self { status = confirmed })

-- The `match self.status` of `cancel`.
abbrev cancel_check : OrderStatus → Action Order DomainError ⊤
cancel_check pending self = (ok tt, self)
cancel_check confirmed self = (ok tt, self)
cancel_check cancelled self = (err (DomainError.invalid_order_state "既にキャンセル済みの注文です"), self)
cancel_check _ self = (err (DomainError.invalid_order_state "発送済みまたは配達完了の注文はキャンセルできません"), self)

-- `Order::cancel`
unfoldable pub cancel : Action Order DomainError ⊤
unfolding ◌>>=◌
cancel = do
  status ← gets (λ self. self.status)
  cancel_check status
  modify (λ self. record self { status = cancelled })

-- `Order::mark_as_shipped`
unfoldable pub mark_as_shipped : Action Order DomainError ⊤
unfolding ◌>>=◌
mark_as_shipped = do
  status ← gets (λ self. self.status)
  raise_if (not (eq_status status confirmed))
      (DomainError.invalid_order_state "発送済みにマークできるのはConfirmed状態のみです")
  modify (λ self. record self { status = shipped })

-- `Order::mark_as_delivered`
unfoldable pub mark_as_delivered : Action Order DomainError ⊤
unfolding ◌>>=◌
mark_as_delivered = do
  status ← gets (λ self. self.status)
  raise_if (not (eq_status status shipped))
      (DomainError.invalid_order_state "配達完了にマークできるのはShipped状態のみです")
  modify (λ self. record self { status = delivered })
