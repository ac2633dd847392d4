-- ===== src/Handler/Verifier.antt =====
-- `EventualConsistencyVerifier` of domain/handler.rs. Its checks of the stock have empty
-- branches: it reads, and logs that it is done.
use ddd_samples.Prelude.{⊤, String, ◌||◌, some, List, [], ◌∷◌, if◌then◌else◌}
use ddd_samples.Prelude.Action.{Action, ◌>>=◌, ◌>>◌, pure, map_err}
use ddd_samples.Error.{HandlerError}
use ddd_samples.Value.{OrderId}
use ddd_samples.Value.OrderLine.{OrderLine}
use ddd_samples.Value.OrderStatus.{confirmed, shipped, eq_status}
use ddd_samples.World.{World, Env, OrderConfirmed, OrderDelivered, debug_level, info_level}
use ddd_samples.Port.{find_by_book_id}
use ddd_samples.Handler.Common.{log, repository_failed, find_order}

abbrev pub component : String
component = "EventualConsistencyVerifier"

module _ (env : Env) where
  -- The loop over the lines: a read for each.
  unfoldable pub verify_lines : List OrderLine → Action World HandlerError ⊤
  verify_lines [] = pure tt
  verify_lines (order_line ∷ order_lines) =
      map_err (repository_failed "在庫取得エラー: ") (find_by_book_id env order_line.book_id)
      >>= λ inventory. verify_lines order_lines

  -- `verify_order_inventory_consistency`
  unfoldable pub verify : OrderId → Action World HandlerError ⊤
  verify order_id = do
    order ← find_order env order_id
    if eq_status order.status confirmed || eq_status order.status shipped
        then verify_lines order.order_lines
        else pure tt

  -- `EventHandler<OrderConfirmed>::handle`
  unfoldable pub handle_confirmed : OrderConfirmed → Action World HandlerError ⊤
  handle_confirmed event = do
    log debug_level component "Starting order-inventory consistency verification"
        (some event.metadata.correlation_id)
    verify event.order_id
    log debug_level component "Order-inventory consistency verification completed"
        (some event.metadata.correlation_id)

  -- `EventHandler<OrderDelivered>::handle`
  unfoldable pub handle_delivered : OrderDelivered → Action World HandlerError ⊤
  handle_delivered event = do
    log debug_level component "Starting order-inventory consistency verification"
        (some event.metadata.correlation_id)
    verify event.order_id
    log info_level component "Saga completed successfully - order delivered"
        (some event.metadata.correlation_id)
