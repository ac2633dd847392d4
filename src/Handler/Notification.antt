-- ===== src/Handler/Notification.antt =====
-- `NotificationHandler` of domain/handler.rs. What it sends is what it logs.
use ddd_samples.Prelude.{⊤, String, ◌+++◌, some}
use ddd_samples.Prelude.Action.{Action, ◌>>◌}
use ddd_samples.Error.{HandlerError}
use ddd_samples.Value.{Uuid}
use ddd_samples.World.{
  World, Env, OrderConfirmed, OrderShipped, OrderDelivered, OrderCancelled, info_level,
}
use ddd_samples.Handler.Common.{log}

abbrev pub component : String
component = "NotificationHandler"

-- `NotificationHandler::send_notification`
unfoldable pub send_notification : String → Uuid → Action World HandlerError ⊤
send_notification message correlation_id = do
  log info_level component "Notification sent: General" (some correlation_id)
  log info_level component message (some correlation_id)

module _ (env : Env) where
  -- `EventHandler<OrderConfirmed>::handle`
  unfoldable pub handle_confirmed : OrderConfirmed → Action World HandlerError ⊤
  handle_confirmed event = do
    log info_level component "Processing OrderConfirmed event" (some event.metadata.correlation_id)
    send_notification
        ("ご注文が確定されました。注文ID: "
          +++ env.debug_uuid event.order_id
          +++ ", 合計金額: "
          +++ env.show_i64 event.total_amount.amount
          +++ "円")
        event.metadata.correlation_id
    log info_level component "OrderConfirmed event processed successfully"
        (some event.metadata.correlation_id)

  -- `EventHandler<OrderShipped>::handle`
  unfoldable pub handle_shipped : OrderShipped → Action World HandlerError ⊤
  handle_shipped event = do
    log info_level component "Processing OrderShipped event" (some event.metadata.correlation_id)
    send_notification
        ("ご注文が発送されました。注文ID: "
          +++ env.debug_uuid event.order_id
          +++ ", 配送先: "
          +++ event.shipping_address.prefecture
          +++ " "
          +++ event.shipping_address.city
          +++ " "
          +++ event.shipping_address.street)
        event.metadata.correlation_id
    log info_level component "OrderShipped event processed successfully"
        (some event.metadata.correlation_id)

  -- `EventHandler<OrderDelivered>::handle`
  unfoldable pub handle_delivered : OrderDelivered → Action World HandlerError ⊤
  handle_delivered event = do
    log info_level component "Processing OrderDelivered event" (some event.metadata.correlation_id)
    send_notification ("ご注文の配達が完了しました。注文ID: " +++ env.debug_uuid event.order_id)
        event.metadata.correlation_id
    log info_level component "OrderDelivered event processed successfully"
        (some event.metadata.correlation_id)

  -- `EventHandler<OrderCancelled>::handle`
  unfoldable pub handle_cancelled : OrderCancelled → Action World HandlerError ⊤
  handle_cancelled event = do
    log info_level component "Processing OrderCancelled event" (some event.metadata.correlation_id)
    send_notification ("ご注文がキャンセルされました。注文ID: " +++ env.debug_uuid event.order_id)
        event.metadata.correlation_id
    log info_level component "OrderCancelled event processed successfully"
        (some event.metadata.correlation_id)
