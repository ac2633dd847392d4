-- ===== src/Handler/Delivery.antt =====
-- `DeliveryHandler` of domain/handler.rs: delivers an order that is shipped.
use ddd_samples.Prelude.{⊤, String, ◌+++◌, not, some, if◌then◌else◌}
use ddd_samples.Prelude.Action.{
  Outcome, ok, err, panic, Action, ◌>>=◌, ◌>>◌, raise, panics, map_err,
}
use ddd_samples.Error.{DomainError, HandlerError, show_domain_error}
use ddd_samples.Value.OrderStatus.{shipped, eq_status}
use ddd_samples.Order.{Order, mark_as_delivered}
use ddd_samples.World.{
  World, Env, OrderShipped, debug_level, info_level, error_level, delivery_tracker, order_delivered,
  delivery_failed,
}
use ddd_samples.Event.{correlated_order_delivered, correlated_delivery_failed}
use ddd_samples.Port.{save_order}
use ddd_samples.Handler.Common.{
  Publish, log, is_processed, mark_processed, repository_failed, publishing_refused, find_order,
}

abbrev pub component : String
component = "DeliveryHandler"

module _ (env : Env) (publish : Publish) where
  -- The `Err(domain_error)` arm.
  unfoldable pub delivery_failure : OrderShipped → DomainError → Action World HandlerError ⊤
  delivery_failure event domain_error = do
    let failure_reason = "配達処理失敗: " +++ show_domain_error domain_error
    failure ←
        correlated_delivery_failed env event.order_id failure_reason event.metadata.event_id
          event.metadata.correlation_id
    map_err (publishing_refused "補償イベント発行エラー: ") (publish (delivery_failed failure))
    log error_level component ("OrderShipped event processing failed: " +++ failure_reason)
        (some event.metadata.correlation_id)
    mark_processed delivery_tracker event.metadata.event_id
    raise (HandlerError.domain_error ("配達マークエラー: " +++ show_domain_error domain_error))

  -- The `match order.mark_as_delivered()`.
  abbrev pub settle : OrderShipped → Outcome DomainError ⊤ × Order → Action World HandlerError ⊤
  settle event (ok _, order) = do
    map_err (repository_failed "注文保存エラー: ") (save_order env order)
    delivered ← correlated_order_delivered env order.id event.metadata.correlation_id
    map_err (publishing_refused "イベント発行エラー: ") (publish (order_delivered delivered))
  settle event (err domain_error, order) = delivery_failure event domain_error
  settle event (panic, order) = panics

  -- What follows the status check.
  unfoldable pub deliver_order : OrderShipped → Order → Action World HandlerError ⊤
  deliver_order event order = do
    settle event (mark_as_delivered order)
    mark_processed delivery_tracker event.metadata.event_id
    log info_level component "OrderShipped event processed successfully"
        (some event.metadata.correlation_id)

  -- What follows the idempotency check.
  unfoldable pub deliver_fresh : OrderShipped → Action World HandlerError ⊤
  deliver_fresh event = do
    order ← find_order env event.order_id
    let skip =
        log debug_level component "Order is not in Shipped state, skipping delivery"
          (some event.metadata.correlation_id)
        >> mark_processed delivery_tracker event.metadata.event_id
    if not (eq_status order.status shipped) then skip else deliver_order event order

  -- `EventHandler<OrderShipped>::handle`
  unfoldable pub handle : OrderShipped → Action World HandlerError ⊤
  handle event = do
    log info_level component "Processing OrderShipped event" (some event.metadata.correlation_id)
    seen ← is_processed delivery_tracker event.metadata.event_id
    let skip =
        log debug_level component "Idempotency check: Event already processed, skipping"
          (some event.metadata.correlation_id)
    if seen then skip else deliver_fresh event
