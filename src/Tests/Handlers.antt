-- ===== src/Tests/Handlers.antt =====
-- The theorems on the handlers, the services and the whole program at concrete inputs.
use ddd_samples.Prelude.{ℕ, ◌+◌, ◌≡◌, refl, none, List, [], ◌∷◌, arith}
use ddd_samples.Prelude.Int.{pos, ◌+ℤ◌, ◌*ℤ◌}
use ddd_samples.Prelude.Action.{ok, ◌>>=◌}
use ddd_samples.Value.Money.{Money}
use ddd_samples.Value.Money
use ddd_samples.Value.OrderLine
use ddd_samples.Value.OrderStatus.{pending, confirmed, shipped, eq_status}
use ddd_samples.Order.{
  calculate_total, fold_subtotals, shipping_fee, confirm, mark_as_shipped, mark_as_delivered,
}
use ddd_samples.Order.Lines.{quantity_of}
use ddd_samples.Inventory
use ddd_samples.World.{InventoryReservationFailed, inventory_reservation_failed}
use ddd_samples.Port.{update, find_by_id, save_order, find_by_book_id, save_inventory}
use ddd_samples.Event.{
  metadata_with_correlation_id, correlated_inventory_reserved, correlated_order_shipped,
  correlated_order_delivered,
}
use ddd_samples.Handler.Common.{is_processed, mark_processed, find_order}
use ddd_samples.Handler.Reservation
use ddd_samples.Handler.Reservation.{reserve_lines, reserve_line, reserve_order, reserve_fresh}
use ddd_samples.Handler.Reservation.Stock.{on_hand}
use ddd_samples.Handler.Reservation.Loop.{Taken, reserve_lines-Taken, reserve_lines-ok}
use ddd_samples.Handler.Shipping
use ddd_samples.Handler.Shipping.{ship_fresh, ship_order}
use ddd_samples.Handler.Delivery
use ddd_samples.Handler.Delivery.{deliver_fresh, deliver_order}
use ddd_samples.Handler.Idempotence.{
  logged, started, skipped, reservation-again, shipping-again, delivery-again,
}
use ddd_samples.Service.{confirm_order}
use ddd_samples.Service.Confirming.{confirm_order-published}
use ddd_samples.Wiring.{event_bus}
use ddd_samples.Wiring.Quiet.{failed-stock}
use ddd_samples.Soundness.Requests.{
  Request, creating, adding, addressing, confirming, stocking, serve_all,
}
use ddd_samples.Soundness.Consistency.{IsConsistent, serve_all-IsConsistent}
use ddd_samples.Tests.Data.{
  sound_env, price, lines, order_in, world_in, empty_world, quiet_bus, metadata, confirmed_event,
  reserved_event, shipped_event, stock-keyed,
}

empty_world-IsConsistent : IsConsistent empty_world
empty_world-IsConsistent = record { orders_valid = λ i o e. cc; stock_valid = λ b v e. cc }

abbrev requests : List Request
requests =
    creating 7
    ∷ adding 100 5 2 price
    ∷ addressing 100 "1234567" "東京都" "渋谷区" "道玄坂1-2-3" none
    ∷ stocking 5 10
    ∷ confirming 100
    ∷ []

serve_all-IsConsistent_example :
    IsConsistent (serve_all sound_env (λ e. event_bus sound_env 3 e) requests empty_world)
serve_all-IsConsistent_example =
    serve_all-IsConsistent sound_env 3 requests empty_world refl (λ m k w p. (k.keeps w p).0)
      (tt, (omega arith, (tt, (omega arith, (tt, tt))))) empty_world-IsConsistent

reserve_lines-Taken_example :
    Taken lines
      (world_in confirmed)
      (reserve_lines sound_env quiet_bus confirmed_event lines (world_in confirmed))
reserve_lines-Taken_example =
    reserve_lines-Taken sound_env quiet_bus (λ e w. refl) confirmed_event lines (world_in confirmed)
      (stock-keyed confirmed)

reserve_lines-ok_example :
    let r = reserve_lines sound_env quiet_bus confirmed_event lines (world_in confirmed) in
    (r.0 ≡ ok tt) × ((b : ℕ) → on_hand r.1 b + quantity_of b lines ≡ on_hand (world_in confirmed) b)
reserve_lines-ok_example =
    reserve_lines-ok sound_env quiet_bus (λ e w. refl) confirmed_event lines (world_in confirmed)
      (stock-keyed confirmed) (λ n. refl) (λ b. ground arith)

reservation-again_example :
    let w' = (Reservation.handle sound_env quiet_bus confirmed_event (world_in confirmed)).1 in
    Reservation.handle sound_env quiet_bus confirmed_event w' ≡ (
      ok tt,
      logged w'
          (started Reservation.component "OrderConfirmed" 60)
          (skipped Reservation.component 60),
    )
unfolding Reservation.handle is_processed reserve_fresh find_order find_by_id eq_status
    reserve_order reserve_lines reserve_line find_by_book_id Inventory.reserve save_inventory
    mark_processed correlated_inventory_reserved metadata_with_correlation_id ◌>>=◌
reservation-again_example =
    reservation-again sound_env quiet_bus confirmed_event (world_in confirmed)
      (Reservation.handle sound_env quiet_bus confirmed_event (world_in confirmed)).1 refl

shipping-again_example :
    let w' = (Shipping.handle sound_env quiet_bus reserved_event (world_in confirmed)).1 in
    Shipping.handle sound_env quiet_bus reserved_event w' ≡ (
      ok tt,
      logged w' (started Shipping.component "InventoryReserved" 60) (skipped Shipping.component 60),
    )
unfolding Shipping.handle is_processed ship_fresh find_order find_by_id eq_status ship_order
    mark_as_shipped save_order mark_processed correlated_order_shipped metadata_with_correlation_id
    ◌>>=◌
shipping-again_example =
    shipping-again sound_env quiet_bus reserved_event (world_in confirmed)
      (Shipping.handle sound_env quiet_bus reserved_event (world_in confirmed)).1 refl

delivery-again_example :
    let w' = (Delivery.handle sound_env quiet_bus shipped_event (world_in shipped)).1 in
    Delivery.handle sound_env quiet_bus shipped_event w' ≡ (
      ok tt,
      logged w' (started Delivery.component "OrderShipped" 60) (skipped Delivery.component 60),
    )
unfolding Delivery.handle is_processed deliver_fresh find_order find_by_id eq_status deliver_order
    mark_as_delivered save_order mark_processed correlated_order_delivered
    metadata_with_correlation_id ◌>>=◌
delivery-again_example =
    delivery-again sound_env quiet_bus shipped_event (world_in shipped)
      (Delivery.handle sound_env quiet_bus shipped_event (world_in shipped)).1 refl

abbrev failed_event : InventoryReservationFailed
failed_event = record {
  metadata = metadata;
  order_id = 1;
  order_lines = lines;
  failure_reason = "在庫不足";
  original_event_id = 50;
}

confirm_order-published_example : confirm_order sound_env quiet_bus 1 (world_in pending) ≡ (
  ok tt,
  record (world_in pending) {
    calls = 2;
    orders = update (world_in pending).orders 1 (order_in confirmed);
    draws = 3;
    ticks = 1;
  },
)
unfolding confirm calculate_total fold_subtotals shipping_fee OrderLine.subtotal Money.add ◌+ℤ◌ ◌*ℤ◌
confirm_order-published_example =
    confirm_order-published sound_env quiet_bus 1 (order_in pending) (world_in pending)
      (order_in confirmed) (Money.jpy (pos 3500)) (λ n. refl) refl refl refl

failed-stock_example :
    (event_bus sound_env 3 (inventory_reservation_failed failed_event) (world_in confirmed)).1.stock
    ≡ (world_in confirmed).stock
failed-stock_example =
    failed-stock sound_env 3 failed_event (world_in confirmed) (λ s m k w p. (k.keeps w p).0)
