-- ===== src/Tests/Orders.antt =====
-- The theorems on values, orders and stock at concrete inputs.
use ddd_samples.Prelude.{◌≡◌, ◌↔◌, refl, none, some, List, [], ◌∷◌, arith}
use ddd_samples.Prelude.Int.{pos, ◌+ℤ◌, ◌*ℤ◌}
use ddd_samples.Prelude.Words.{debug, release}
use ddd_samples.Prelude.Action.{ok}
use ddd_samples.Value.Money
use ddd_samples.Value.OrderLine
use ddd_samples.Value.OrderStatus.{pending, shipped, delivered, show, from_string}
use ddd_samples.Value.OrderStatus.RoundTrip.{from_string-eq-ok_iff}
use ddd_samples.Value.ShippingAddress
use ddd_samples.Value.ShippingAddress.Validation.{IsPostalCode, IsFilled, new-eq-ok_iff}
use ddd_samples.Order
use ddd_samples.Order.{
  Order, calculate_total, fold_subtotals, shipping_fee, add_book, set_shipping_address, confirm,
  mark_as_shipped, mark_as_delivered,
}
use ddd_samples.Order.Invariant.{
  IsValid, run, run_op, Op, add_book_op, set_address_op, confirm_op, ship_op, deliver_op,
  reachable-IsValid,
}
use ddd_samples.Order.Lines.Adding.{Added, add_book-Added}
use ddd_samples.Order.States.{Within, confirming, method_lem, run-IsFinal, delivered-needs}
use ddd_samples.Order.Total.{exact_sum, fee, total_exact, total_fits}
use ddd_samples.Inventory.{Inventory, reserve}
use ddd_samples.Inventory
use ddd_samples.Inventory.Stock.{Reserved, reserve-Reserved, release-reserve}
use ddd_samples.Tests.Data.{price, lines, address, order_in, row}

abbrev calls : List Op
calls = add_book_op 5 2 price ∷ set_address_op address ∷ confirm_op ∷ ship_op ∷ deliver_op ∷ []

reachable-IsValid_example : IsValid (run debug calls (Order.new 1 7))
reachable-IsValid_example = reachable-IsValid 1 7 calls (omega arith, (tt, (tt, (tt, (tt, tt)))))

method_lem_example : (confirm (order_in pending)).0 ≡ ok tt
method_lem_example = (method_lem confirming (order_in pending)).0.1 (refl, refl, refl)

run-IsFinal_example : (run debug calls (order_in delivered)).status ≡ delivered
run-IsFinal_example = run-IsFinal calls (order_in delivered) tt

delivered-needs_example : Within (confirm_op ∷ ship_op ∷ deliver_op ∷ []) calls
unfolding run run_op Order.new add_book set_shipping_address confirm mark_as_shipped
    mark_as_delivered OrderLine.new
delivered-needs_example = delivered-needs 1 7 calls refl

add_book-Added_example :
    Added (order_in pending) 5 3 5 (add_book debug 5 3 price (order_in pending))
add_book-Added_example = add_book-Added (order_in pending) 5 3 price 5

total_exact_example : pos 3500 ≡ exact_sum lines +ℤ fee (exact_sum lines)
unfolding calculate_total fold_subtotals shipping_fee OrderLine.subtotal Money.add ◌+ℤ◌ ◌*ℤ◌
total_exact_example = total_exact (order_in pending) {m = Money.jpy (pos 3500)} refl

total_fits_example : calculate_total release (order_in pending) ≡ some (Money.jpy (pos 3500))
total_fits_example = total_fits release (order_in pending) (refl, tt) (omega arith)

reserve-Reserved_example : Reserved row 3 (reserve release 3 row)
reserve-Reserved_example = reserve-Reserved release 3 row

release-reserve_example : Inventory.release release 3 (reserve release 3 row).1 ≡ (ok tt, row)
release-reserve_example = release-reserve release 3 row (omega arith) (omega arith)

from_string-eq-ok_iff_example : from_string "Shipped" ≡ ok shipped
unfolding show
from_string-eq-ok_iff_example = (from_string-eq-ok_iff "Shipped" shipped).1 refl

new-eq-ok_iff_example : (ShippingAddress.new "1234567" "東京都" "渋谷区" "道玄坂1-2-3" none ≡ ok address) ↔ (
    (address ≡ address)
    × IsPostalCode "1234567"
    × IsFilled "東京都"
    × IsFilled "渋谷区"
    × IsFilled "道玄坂1-2-3")
new-eq-ok_iff_example = new-eq-ok_iff "1234567" "東京都" "渋谷区" "道玄坂1-2-3" none address
