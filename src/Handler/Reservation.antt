-- ===== src/Handler/Reservation.antt =====
-- `InventoryReservationHandler` of domain/handler.rs: reserves the stock of a confirmed order.
pub mod Stock
pub mod Loop
use ddd_samples.Prelude.{⊤, String, ◌+++◌, not, Option, none, some, List, [], ◌∷◌, if◌then◌else◌}
use ddd_samples.Prelude.Action.{
  Outcome, ok, err, panic, Action, ◌>>=◌, ◌>>◌, pure, raise, panics, map_err,
}
use ddd_samples.Error.{DomainError, HandlerError, show_domain_error}
use ddd_samples.Value.{BookId}
use ddd_samples.Value.OrderLine.{OrderLine}
use ddd_samples.Value.OrderStatus.{confirmed, eq_status}
use ddd_samples.Inventory
use ddd_samples.Inventory.{Inventory}
use ddd_samples.World.{
  World, Env, OrderConfirmed, debug_level, info_level, error_level, reservation_tracker,
  inventory_reserved, inventory_reservation_failed,
}
use ddd_samples.Event.{correlated_inventory_reserved, correlated_inventory_reservation_failed}
use ddd_samples.Port.{find_by_book_id, save_inventory}
use ddd_samples.Handler.Common.{
  Publish, log, is_processed, mark_processed, repository_failed, publishing_refused, find_order,
}

abbrev pub component : String
component = "InventoryReservationHandler"

-- The `match` on what `find_by_book_id` found: no row is a stock of 0.
abbrev pub or_empty : BookId → Option Inventory → Inventory
or_empty book_id none = Inventory.new book_id 0
or_empty book_id (some inventory) = inventory

module _ (env : Env) (publish : Publish) where
  -- The `Err(domain_error)` arm: publish the compensation event, log, mark, return the error.
  unfoldable pub reservation_failure : OrderConfirmed → DomainError → Action World HandlerError ⊤
  reservation_failure event domain_error = do
    let failure_reason = "在庫不足: " +++ show_domain_error domain_error
    failure ←
        correlated_inventory_reservation_failed env event.order_id event.order_lines failure_reason
          event.metadata.event_id event.metadata.correlation_id
    map_err (publishing_refused "補償イベント発行エラー: ") (publish (inventory_reservation_failed failure))
    log error_level component ("OrderConfirmed event processing failed: " +++ failure_reason)
        (some event.metadata.correlation_id)
    mark_processed reservation_tracker event.metadata.event_id
    raise (HandlerError.domain_error ("在庫予約エラー: " +++ show_domain_error domain_error))

  -- The `match inventory.reserve(…)`.
  abbrev pub settle :
      OrderConfirmed → Outcome DomainError ⊤ × Inventory → Action World HandlerError ⊤
  settle event (ok _, inventory) =
      map_err (repository_failed "在庫保存エラー: ") (save_inventory env inventory)
  settle event (err domain_error, inventory) = reservation_failure event domain_error
  settle event (panic, inventory) = panics

  -- One round of the loop over the lines.
  unfoldable pub reserve_line : OrderConfirmed → OrderLine → Action World HandlerError ⊤
  reserve_line event order_line = do
    found ← map_err (repository_failed "在庫取得エラー: ") (find_by_book_id env order_line.book_id)
    settle event
        (Inventory.reserve env.profile order_line.quantity (or_empty order_line.book_id found))

  -- The loop; its `return Err(…)` is the error that ends it.
  unfoldable pub reserve_lines : OrderConfirmed → List OrderLine → Action World HandlerError ⊤
  reserve_lines event [] = pure tt
  reserve_lines event (order_line ∷ order_lines) =
      reserve_line event order_line >> reserve_lines event order_lines

  -- What follows the status check.
  unfoldable pub reserve_order : OrderConfirmed → Action World HandlerError ⊤
  reserve_order event = do
    reserve_lines event event.order_lines
    reserved ←
        correlated_inventory_reserved env event.order_id event.order_lines
          event.metadata.correlation_id
    map_err (publishing_refused "イベント発行エラー: ") (publish (inventory_reserved reserved))
    mark_processed reservation_tracker event.metadata.event_id
    log info_level component "OrderConfirmed event processed successfully"
        (some event.metadata.correlation_id)

  -- What follows the idempotency check.
  unfoldable pub reserve_fresh : OrderConfirmed → Action World HandlerError ⊤
  reserve_fresh event = do
    order ← find_order env event.order_id
    let skip =
        log debug_level component "Order is not in Confirmed state, skipping inventory reservation"
          (some event.metadata.correlation_id)
        >> mark_processed reservation_tracker event.metadata.event_id
    if not (eq_status order.status confirmed) then skip else reserve_order event

  -- `EventHandler<OrderConfirmed>::handle`
  unfoldable pub handle : OrderConfirmed → Action World HandlerError ⊤
  handle event = do
    log info_level component "Processing OrderConfirmed event" (some event.metadata.correlation_id)
    seen ← is_processed reservation_tracker event.metadata.event_id
    let skip =
        log debug_level component "Idempotency check: Event already processed, skipping"
          (some event.metadata.correlation_id)
    if seen then skip else reserve_fresh event
