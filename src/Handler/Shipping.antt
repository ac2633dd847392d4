-- ===== src/Handler/Shipping.antt =====
-- `ShippingHandler` of domain/handler.rs: ships an order whose stock is reserved.
use ddd_samples.Prelude.{⊤, String, ◌+++◌, not, some, if◌then◌else◌}
use ddd_samples.Prelude.Action.{
  Outcome, ok, err, panic, Action, ◌>>=◌, ◌>>◌, raise, panics, or_panic, map_err,
}
use ddd_samples.Error.{DomainError, HandlerError, show_domain_error}
use ddd_samples.Value.OrderStatus.{confirmed, eq_status}
use ddd_samples.Order.{Order, mark_as_shipped}
use ddd_samples.World.{
  World, Env, InventoryReserved, debug_level, info_level, error_level, shipping_tracker,
  order_shipped, shipping_failed,
}
use ddd_samples.Event.{correlated_order_shipped, correlated_shipping_failed}
use ddd_samples.Port.{save_order}
use ddd_samples.Handler.Common.{
  Publish, log, is_processed, mark_processed, repository_failed, publishing_refused, find_order,
}

abbrev pub component : String
component = "ShippingHandler"

module _ (env : Env) (publish : Publish) where
  -- The `Err(domain_error)` arm.
  unfoldable pub shipping_failure : InventoryReserved → DomainError → Action World HandlerError ⊤
  shipping_failure event domain_error = do
    let failure_reason = "発送処理失敗: " +++ show_domain_error domain_error
    failure ←
        correlated_shipping_failed env event.order_id failure_reason event.metadata.event_id
          event.metadata.correlation_id
    map_err (publishing_refused "補償イベント発行エラー: ") (publish (shipping_failed failure))
    log error_level component ("InventoryReserved event processing failed: " +++ failure_reason)
        (some event.metadata.correlation_id)
    mark_processed shipping_tracker event.metadata.event_id
    raise (HandlerError.domain_error ("発送マークエラー: " +++ show_domain_error domain_error))

  -- The `match order.mark_as_shipped()`.
  abbrev pub settle :
      InventoryReserved → Outcome DomainError ⊤ × Order → Action World HandlerError ⊤
  settle event (ok _, order) = do
    map_err (repository_failed "注文保存エラー: ") (save_order env order)
    shipping_address ← or_panic order.shipping_address
    shipped ← correlated_order_shipped env order.id shipping_address event.metadata.correlation_id
    map_err (publishing_refused "イベント発行エラー: ") (publish (order_shipped shipped))
  settle event (err domain_error, order) = shipping_failure event domain_error
  settle event (panic, order) = panics

  -- What follows the status check.
  unfoldable pub ship_order : InventoryReserved → Order → Action World HandlerError ⊤
  ship_order event order = do
    settle event (mark_as_shipped order)
    mark_processed shipping_tracker event.metadata.event_id
    log info_level component "InventoryReserved event processed successfully"
        (some event.metadata.correlation_id)

  -- What follows the idempotency check.
  unfoldable pub ship_fresh : InventoryReserved → Action World HandlerError ⊤
  ship_fresh event = do
    order ← find_order env event.order_id
    let skip =
        log debug_level component "Order is not in Confirmed state, skipping shipping"
          (some event.metadata.correlation_id)
        >> mark_processed shipping_tracker event.metadata.event_id
    if not (eq_status order.status confirmed) then skip else ship_order event order

  -- `EventHandler<InventoryReserved>::handle`
  unfoldable pub handle : InventoryReserved → Action World HandlerError ⊤
  handle event = do
    log info_level component "Processing InventoryReserved event"
        (some event.metadata.correlation_id)
    seen ← is_processed shipping_tracker event.metadata.event_id
    let skip =
        log debug_level component "Idempotency check: Event already processed, skipping"
          (some event.metadata.correlation_id)
    if seen then skip else ship_fresh event
