-- ===== src/Event.antt =====
-- The constructors of domain/event.rs. They draw a fresh event identifier and read the clock, so
-- they are actions.
mod Metadata
pub use Metadata.{new_v4, read_clock}
unfoldable pub use Metadata.{metadata_with_correlation_id, new_metadata, with_metadata}
use Metadata.{order_tags, inventory_tags, compensation_tag, saga_tags}
use ddd_samples.Prelude.{ℕ, ⊤, String, str_eq, Bool, List, [], ◌∷◌, suc, if◌then◌else◌}
use ddd_samples.Prelude.Action.{Action, ok, ◌>>=◌, pure}
use ddd_samples.Value.{Uuid, OrderId, CustomerId}
use ddd_samples.Value.Money.{Money}
use ddd_samples.Value.OrderLine.{OrderLine}
use ddd_samples.Value.ShippingAddress.{ShippingAddress}
use ddd_samples.World.{
  World, Env, EventMetadata, OrderConfirmed, OrderCancelled, OrderShipped, OrderDelivered,
  InventoryReserved, InventoryReleased, InventoryReservationFailed, ShippingFailed, DeliveryFailed,
  SagaCompensationStarted, SagaCompensationCompleted, CompensationResult,
}

module _ {E : Type 0} (env : Env) where
  -- `OrderConfirmed::new`
  unfoldable pub new_order_confirmed :
      OrderId → CustomerId → List OrderLine → Money → Action World E OrderConfirmed
  new_order_confirmed i c ls total = do
    m ← new_metadata env
    pure (record {
      metadata = order_tags env i m;
      order_id = i;
      customer_id = c;
      order_lines = ls;
      total_amount = total;
    })

  -- `OrderCancelled::new`
  unfoldable pub new_order_cancelled :
      OrderId → CustomerId → List OrderLine → Action World E OrderCancelled
  new_order_cancelled i c ls = do
    m ← new_metadata env
    pure (record { metadata = order_tags env i m; order_id = i; customer_id = c; order_lines = ls })

  -- `OrderCancelled::with_correlation_id`
  unfoldable pub correlated_order_cancelled :
      OrderId → CustomerId → List OrderLine → Uuid → Action World E OrderCancelled
  correlated_order_cancelled i c ls correlation_id = do
    m ← metadata_with_correlation_id env correlation_id
    pure (record { metadata = order_tags env i m; order_id = i; customer_id = c; order_lines = ls })

  -- `OrderShipped::new`
  unfoldable pub new_order_shipped : OrderId → ShippingAddress → Action World E OrderShipped
  new_order_shipped i a = do
    m ← new_metadata env
    pure (record { metadata = order_tags env i m; order_id = i; shipping_address = a })

  -- `OrderShipped::with_correlation_id`
  unfoldable pub correlated_order_shipped :
      OrderId → ShippingAddress → Uuid → Action World E OrderShipped
  correlated_order_shipped i a correlation_id = do
    m ← metadata_with_correlation_id env correlation_id
    pure (record { metadata = order_tags env i m; order_id = i; shipping_address = a })

  -- `OrderDelivered::new`
  unfoldable pub new_order_delivered : OrderId → Action World E OrderDelivered
  new_order_delivered i = do
    m ← new_metadata env
    pure (record { metadata = order_tags env i m; order_id = i })

  -- `OrderDelivered::with_correlation_id`
  unfoldable pub correlated_order_delivered : OrderId → Uuid → Action World E OrderDelivered
  correlated_order_delivered i correlation_id = do
    m ← metadata_with_correlation_id env correlation_id
    pure (record { metadata = order_tags env i m; order_id = i })

  -- `InventoryReserved::with_correlation_id`
  unfoldable pub correlated_inventory_reserved :
      OrderId → List OrderLine → Uuid → Action World E InventoryReserved
  correlated_inventory_reserved i ls correlation_id = do
    m ← metadata_with_correlation_id env correlation_id
    pure (record { metadata = inventory_tags env i m; order_id = i; order_lines = ls })

  -- `InventoryReleased::with_correlation_id`
  unfoldable pub correlated_inventory_released :
      OrderId → List OrderLine → Uuid → Action World E InventoryReleased
  correlated_inventory_released i ls correlation_id = do
    m ← metadata_with_correlation_id env correlation_id
    pure (record { metadata = inventory_tags env i m; order_id = i; order_lines = ls })

  -- `InventoryReservationFailed::new`
  unfoldable pub new_inventory_reservation_failed :
      OrderId → List OrderLine → String → Uuid → Action World E InventoryReservationFailed
  new_inventory_reservation_failed i ls reason original = do
    m ← new_metadata env
    pure (record {
      metadata = compensation_tag (inventory_tags env i m);
      order_id = i;
      order_lines = ls;
      failure_reason = reason;
      original_event_id = original;
    })

  -- `InventoryReservationFailed::with_correlation_id`
  unfoldable pub correlated_inventory_reservation_failed :
      OrderId → List OrderLine → String → Uuid → Uuid → Action World E InventoryReservationFailed
  correlated_inventory_reservation_failed i ls reason original correlation_id = do
    m ← metadata_with_correlation_id env correlation_id
    pure (record {
      metadata = compensation_tag (inventory_tags env i m);
      order_id = i;
      order_lines = ls;
      failure_reason = reason;
      original_event_id = original;
    })

  -- `ShippingFailed::new`
  unfoldable pub new_shipping_failed : OrderId → String → Uuid → Action World E ShippingFailed
  new_shipping_failed i reason original = do
    m ← new_metadata env
    pure (record {
      metadata = compensation_tag (order_tags env i m);
      order_id = i;
      failure_reason = reason;
      original_event_id = original;
    })

  -- `ShippingFailed::with_correlation_id`
  unfoldable pub correlated_shipping_failed :
      OrderId → String → Uuid → Uuid → Action World E ShippingFailed
  correlated_shipping_failed i reason original correlation_id = do
    m ← metadata_with_correlation_id env correlation_id
    pure (record {
      metadata = compensation_tag (order_tags env i m);
      order_id = i;
      failure_reason = reason;
      original_event_id = original;
    })

  -- `DeliveryFailed::with_correlation_id`
  unfoldable pub correlated_delivery_failed :
      OrderId → String → Uuid → Uuid → Action World E DeliveryFailed
  correlated_delivery_failed i reason original correlation_id = do
    m ← metadata_with_correlation_id env correlation_id
    pure (record {
      metadata = compensation_tag (order_tags env i m);
      order_id = i;
      failure_reason = reason;
      original_event_id = original;
    })

  -- `SagaCompensationStarted::new`
  unfoldable pub new_saga_compensation_started :
      Uuid → String → String → List String → Action World E SagaCompensationStarted
  new_saga_compensation_started saga_id failed_step reason steps = do
    m ← metadata_with_correlation_id env saga_id
    pure (record {
      metadata = saga_tags env saga_id m;
      saga_id = saga_id;
      failed_step = failed_step;
      failure_reason = reason;
      compensation_steps = steps;
    })

  -- `SagaCompensationCompleted::new`
  unfoldable pub new_saga_compensation_completed :
      Uuid → List String → CompensationResult → Action World E SagaCompensationCompleted
  new_saga_compensation_completed saga_id steps result = do
    m ← metadata_with_correlation_id env saga_id
    pure (record {
      metadata = saga_tags env saga_id m;
      saga_id = saga_id;
      compensated_steps = steps;
      compensation_result = result;
    })
