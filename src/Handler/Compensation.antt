-- ===== src/Handler/Compensation.antt =====
-- The compensation handlers of domain/handler.rs: what undoes the steps of a failed saga.
pub mod Restoring
use ddd_samples.Prelude.{⊤, String, ◌+++◌, str_eq, Option, none, some, List, [], ◌∷◌, if◌then◌else◌}
use ddd_samples.Prelude.Action.{Outcome, Action, ◌>>=◌, ◌>>◌, pure, on, map_err}
use ddd_samples.Error.{DomainError, HandlerError, show_domain_error}
use ddd_samples.Value.{Uuid}
use ddd_samples.Value.OrderLine.{OrderLine}
use ddd_samples.Order.{Order, cancel}
use ddd_samples.Inventory
use ddd_samples.Inventory.{Inventory}
use ddd_samples.World.{
  World, Env, InventoryReservationFailed, ShippingFailed, DeliveryFailed, SagaCompensationStarted,
  SagaCompensationCompleted, info_level, warning_level, order_cancelled, inventory_released,
  saga_compensation_started,
}
use ddd_samples.Event.{
  correlated_order_cancelled, correlated_inventory_released, new_saga_compensation_started,
}
use ddd_samples.Port.{save_order, find_by_book_id, save_inventory}
use ddd_samples.Handler.Common.{Publish, log, repository_failed, publishing_refused, find_order}

-- `map_err(|e| HandlerError::DomainError(format!("…: {}", e)))`
abbrev domain_failed : String → DomainError → HandlerError
domain_failed what e = HandlerError.domain_error (what +++ show_domain_error e)

-- `SagaCompensationCoordinator::determine_compensation_steps`
unfoldable pub determine_compensation_steps : String → List String
determine_compensation_steps failed_step =
    if str_eq failed_step "inventory_reservation"
    then []
    else if str_eq failed_step "shipping"
    then "inventory_reservation" ∷ []
    else if str_eq failed_step "delivery"
    then "shipping" ∷ "inventory_reservation" ∷ []
    else []

module _ (env : Env) (publish : Publish) where
  -- `InventoryReservationFailureCompensationHandler::handle`
  unfoldable pub handle_reservation_failed :
      InventoryReservationFailed → Action World HandlerError ⊤
  handle_reservation_failed event = do
    log info_level "InventoryReservationFailureCompensationHandler"
        "Processing InventoryReservationFailed compensation event"
        (some event.metadata.correlation_id)
    order ← find_order env event.order_id
    (_, order') ← map_err (domain_failed "注文キャンセルエラー: ") (on cancel order)
    map_err (repository_failed "注文保存エラー: ") (save_order env order')
    cancelled ←
        correlated_order_cancelled env order'.id order'.customer_id order'.order_lines
          event.metadata.correlation_id
    map_err (publishing_refused "イベント発行エラー: ") (publish (order_cancelled cancelled))
    log info_level "InventoryReservationFailureCompensationHandler"
        "InventoryReservationFailed compensation completed successfully"
        (some event.metadata.correlation_id)

  -- One round of the loop of `ShippingFailureCompensationHandler`: a book without a row is
  -- skipped.
  abbrev pub release_found :
      ShippingFailed → OrderLine → Option Inventory → Action World HandlerError ⊤
  release_found event order_line none =
      log warning_level "ShippingFailureCompensationHandler"
        "Inventory not found for book, skipping release" (some event.metadata.correlation_id)
  release_found event order_line (some inventory) = do
    (_, inventory') ←
        map_err (domain_failed "在庫解放エラー: ")
          (on (Inventory.release env.profile order_line.quantity) inventory)
    map_err (repository_failed "在庫保存エラー: ") (save_inventory env inventory')

  unfoldable pub release_line : ShippingFailed → OrderLine → Action World HandlerError ⊤
  release_line event order_line = do
    found ← map_err (repository_failed "在庫取得エラー: ") (find_by_book_id env order_line.book_id)
    release_found event order_line found

  unfoldable pub release_lines : ShippingFailed → List OrderLine → Action World HandlerError ⊤
  release_lines event [] = pure tt
  release_lines event (order_line ∷ order_lines) =
      release_line event order_line >> release_lines event order_lines

  -- `ShippingFailureCompensationHandler::handle`
  unfoldable pub handle_shipping_failed : ShippingFailed → Action World HandlerError ⊤
  handle_shipping_failed event = do
    log info_level "ShippingFailureCompensationHandler"
        "Processing ShippingFailed compensation event" (some event.metadata.correlation_id)
    order ← find_order env event.order_id
    release_lines event order.order_lines
    released ←
        correlated_inventory_released env event.order_id order.order_lines
          event.metadata.correlation_id
    map_err (publishing_refused "イベント発行エラー: ") (publish (inventory_released released))
    log info_level "ShippingFailureCompensationHandler"
        "ShippingFailed compensation completed successfully" (some event.metadata.correlation_id)

  -- `DeliveryFailureCompensationHandler::handle`; the block under its status test is empty.
  unfoldable pub handle_delivery_failed : DeliveryFailed → Action World HandlerError ⊤
  handle_delivery_failed event = do
    log info_level "DeliveryFailureCompensationHandler"
        "Processing DeliveryFailed compensation event" (some event.metadata.correlation_id)
    order ← find_order env event.order_id
    log info_level "DeliveryFailureCompensationHandler"
        "DeliveryFailed compensation completed successfully" (some event.metadata.correlation_id)

  -- `SagaCompensationCoordinator::start_compensation`
  unfoldable pub start_compensation : Uuid → String → String → Action World HandlerError ⊤
  start_compensation saga_id failed_step failure_reason = do
    started ←
        new_saga_compensation_started env saga_id failed_step failure_reason
          (determine_compensation_steps failed_step)
    map_err (publishing_refused "補償開始イベント発行エラー: ") (publish (saga_compensation_started started))

-- `SagaCompensationCoordinator::handle`
unfoldable pub handle_compensation_started : SagaCompensationStarted → Action World HandlerError ⊤
handle_compensation_started event =
    log info_level "SagaCompensationCoordinator" "Saga compensation process started"
      (some event.metadata.correlation_id)

-- `CompensationCompletionHandler::handle`
unfoldable pub handle_compensation_completed :
    SagaCompensationCompleted → Action World HandlerError ⊤
handle_compensation_completed event =
    log info_level "CompensationCompletionHandler" "Saga compensation process completed"
      (some event.metadata.correlation_id)
