-- ===== src/Bus/Wrappers.antt =====
-- The type-erased handlers of domain/event_bus.rs: one wrapper for each kind of event. All the
-- wrappers of one kind bear the same name.
use ddd_samples.Prelude.{ℕ, ⊤, String, Bool, true, false, leb}
use ddd_samples.Prelude.Action.{Action, raise}
use ddd_samples.Error.{HandlerError}
use ddd_samples.World.{
  World, DomainEvent, OrderConfirmed, OrderCancelled, OrderShipped, OrderDelivered,
  InventoryReserved, InventoryReleased, inventory_released, InventoryReservationFailed,
  ShippingFailed, DeliveryFailed, SagaCompensationStarted, SagaCompensationCompleted,
  order_confirmed, order_cancelled, order_shipped, order_delivered, inventory_reserved,
  inventory_reservation_failed, shipping_failed, delivery_failed, saga_compensation_started,
  saga_compensation_completed,
}

-- `trait DynEventHandler`
pub record DynEventHandler : Type 0 where
  pub handle_event : DomainEvent → Action World HandlerError ⊤
  pub can_handle : DomainEvent → Bool
  pub handler_name : String
  pub supports_schema_version : ℕ → Bool

-- The other arm of each `handle_event`.
abbrev mismatch : Action World HandlerError ⊤
mismatch = raise (HandlerError.processing_failed "Event type mismatch")

abbrev from_version_1 : ℕ → Bool
from_version_1 version = leb 1 version

abbrev order_confirmed_arm :
    (OrderConfirmed → Action World HandlerError ⊤) → DomainEvent → Action World HandlerError ⊤
order_confirmed_arm handler (order_confirmed e) = handler e
order_confirmed_arm handler _ = mismatch

abbrev is_order_confirmed : DomainEvent → Bool
is_order_confirmed (order_confirmed _) = true
is_order_confirmed _ = false

-- `OrderConfirmedHandlerWrapper`
abbrev pub order_confirmed_wrapper :
    (OrderConfirmed → Action World HandlerError ⊤) → DynEventHandler
order_confirmed_wrapper handler = record {
  handle_event = order_confirmed_arm handler;
  can_handle = is_order_confirmed;
  handler_name = "OrderConfirmedHandler";
  supports_schema_version = from_version_1;
}

abbrev order_cancelled_arm :
    (OrderCancelled → Action World HandlerError ⊤) → DomainEvent → Action World HandlerError ⊤
order_cancelled_arm handler (order_cancelled e) = handler e
order_cancelled_arm handler _ = mismatch

abbrev is_order_cancelled : DomainEvent → Bool
is_order_cancelled (order_cancelled _) = true
is_order_cancelled _ = false

-- `OrderCancelledHandlerWrapper`
abbrev pub order_cancelled_wrapper :
    (OrderCancelled → Action World HandlerError ⊤) → DynEventHandler
order_cancelled_wrapper handler = record {
  handle_event = order_cancelled_arm handler;
  can_handle = is_order_cancelled;
  handler_name = "OrderCancelledHandler";
  supports_schema_version = from_version_1;
}

abbrev order_shipped_arm :
    (OrderShipped → Action World HandlerError ⊤) → DomainEvent → Action World HandlerError ⊤
order_shipped_arm handler (order_shipped e) = handler e
order_shipped_arm handler _ = mismatch

abbrev is_order_shipped : DomainEvent → Bool
is_order_shipped (order_shipped _) = true
is_order_shipped _ = false

-- `OrderShippedHandlerWrapper`
abbrev pub order_shipped_wrapper : (OrderShipped → Action World HandlerError ⊤) → DynEventHandler
order_shipped_wrapper handler = record {
  handle_event = order_shipped_arm handler;
  can_handle = is_order_shipped;
  handler_name = "OrderShippedHandler";
  supports_schema_version = from_version_1;
}

abbrev order_delivered_arm :
    (OrderDelivered → Action World HandlerError ⊤) → DomainEvent → Action World HandlerError ⊤
order_delivered_arm handler (order_delivered e) = handler e
order_delivered_arm handler _ = mismatch

abbrev is_order_delivered : DomainEvent → Bool
is_order_delivered (order_delivered _) = true
is_order_delivered _ = false

-- `OrderDeliveredHandlerWrapper`
abbrev pub order_delivered_wrapper :
    (OrderDelivered → Action World HandlerError ⊤) → DynEventHandler
order_delivered_wrapper handler = record {
  handle_event = order_delivered_arm handler;
  can_handle = is_order_delivered;
  handler_name = "OrderDeliveredHandler";
  supports_schema_version = from_version_1;
}

abbrev inventory_reserved_arm :
    (InventoryReserved → Action World HandlerError ⊤) → DomainEvent → Action World HandlerError ⊤
inventory_reserved_arm handler (inventory_reserved e) = handler e
inventory_reserved_arm handler _ = mismatch

abbrev is_inventory_reserved : DomainEvent → Bool
is_inventory_reserved (inventory_reserved _) = true
is_inventory_reserved _ = false

-- `InventoryReservedHandlerWrapper`
abbrev pub inventory_reserved_wrapper :
    (InventoryReserved → Action World HandlerError ⊤) → DynEventHandler
inventory_reserved_wrapper handler = record {
  handle_event = inventory_reserved_arm handler;
  can_handle = is_inventory_reserved;
  handler_name = "InventoryReservedHandler";
  supports_schema_version = from_version_1;
}

abbrev inventory_released_arm :
    (InventoryReleased → Action World HandlerError ⊤) → DomainEvent → Action World HandlerError ⊤
inventory_released_arm handler (inventory_released e) = handler e
inventory_released_arm handler _ = mismatch

abbrev is_inventory_released : DomainEvent → Bool
is_inventory_released (inventory_released _) = true
is_inventory_released _ = false

-- `InventoryReleasedHandlerWrapper`; it has no constructor function that would fix the name.
abbrev pub inventory_released_wrapper :
    String → (InventoryReleased → Action World HandlerError ⊤) → DynEventHandler
inventory_released_wrapper name handler = record {
  handle_event = inventory_released_arm handler;
  can_handle = is_inventory_released;
  handler_name = name;
  supports_schema_version = from_version_1;
}

abbrev inventory_reservation_failed_arm :
    (InventoryReservationFailed → Action World HandlerError ⊤)
    → DomainEvent
    → Action World HandlerError ⊤
inventory_reservation_failed_arm handler (inventory_reservation_failed e) = handler e
inventory_reservation_failed_arm handler _ = mismatch

abbrev is_inventory_reservation_failed : DomainEvent → Bool
is_inventory_reservation_failed (inventory_reservation_failed _) = true
is_inventory_reservation_failed _ = false

-- `InventoryReservationFailedHandlerWrapper`
abbrev pub inventory_reservation_failed_wrapper :
    (InventoryReservationFailed → Action World HandlerError ⊤) → DynEventHandler
inventory_reservation_failed_wrapper handler = record {
  handle_event = inventory_reservation_failed_arm handler;
  can_handle = is_inventory_reservation_failed;
  handler_name = "InventoryReservationFailedHandler";
  supports_schema_version = from_version_1;
}

abbrev shipping_failed_arm :
    (ShippingFailed → Action World HandlerError ⊤) → DomainEvent → Action World HandlerError ⊤
shipping_failed_arm handler (shipping_failed e) = handler e
shipping_failed_arm handler _ = mismatch

abbrev is_shipping_failed : DomainEvent → Bool
is_shipping_failed (shipping_failed _) = true
is_shipping_failed _ = false

-- `ShippingFailedHandlerWrapper`
abbrev pub shipping_failed_wrapper :
    (ShippingFailed → Action World HandlerError ⊤) → DynEventHandler
shipping_failed_wrapper handler = record {
  handle_event = shipping_failed_arm handler;
  can_handle = is_shipping_failed;
  handler_name = "ShippingFailedHandler";
  supports_schema_version = from_version_1;
}

abbrev delivery_failed_arm :
    (DeliveryFailed → Action World HandlerError ⊤) → DomainEvent → Action World HandlerError ⊤
delivery_failed_arm handler (delivery_failed e) = handler e
delivery_failed_arm handler _ = mismatch

abbrev is_delivery_failed : DomainEvent → Bool
is_delivery_failed (delivery_failed _) = true
is_delivery_failed _ = false

-- `DeliveryFailedHandlerWrapper`
abbrev pub delivery_failed_wrapper :
    (DeliveryFailed → Action World HandlerError ⊤) → DynEventHandler
delivery_failed_wrapper handler = record {
  handle_event = delivery_failed_arm handler;
  can_handle = is_delivery_failed;
  handler_name = "DeliveryFailedHandler";
  supports_schema_version = from_version_1;
}

abbrev saga_compensation_started_arm :
    (SagaCompensationStarted → Action World HandlerError ⊤)
    → DomainEvent
    → Action World HandlerError ⊤
saga_compensation_started_arm handler (saga_compensation_started e) = handler e
saga_compensation_started_arm handler _ = mismatch

abbrev is_saga_compensation_started : DomainEvent → Bool
is_saga_compensation_started (saga_compensation_started _) = true
is_saga_compensation_started _ = false

-- `SagaCompensationStartedHandlerWrapper`
abbrev pub saga_compensation_started_wrapper :
    (SagaCompensationStarted → Action World HandlerError ⊤) → DynEventHandler
saga_compensation_started_wrapper handler = record {
  handle_event = saga_compensation_started_arm handler;
  can_handle = is_saga_compensation_started;
  handler_name = "SagaCompensationStartedHandler";
  supports_schema_version = from_version_1;
}

abbrev saga_compensation_completed_arm :
    (SagaCompensationCompleted → Action World HandlerError ⊤)
    → DomainEvent
    → Action World HandlerError ⊤
saga_compensation_completed_arm handler (saga_compensation_completed e) = handler e
saga_compensation_completed_arm handler _ = mismatch

abbrev is_saga_compensation_completed : DomainEvent → Bool
is_saga_compensation_completed (saga_compensation_completed _) = true
is_saga_compensation_completed _ = false

-- `SagaCompensationCompletedHandlerWrapper`
abbrev pub saga_compensation_completed_wrapper :
    (SagaCompensationCompleted → Action World HandlerError ⊤) → DynEventHandler
saga_compensation_completed_wrapper handler = record {
  handle_event = saga_compensation_completed_arm handler;
  can_handle = is_saga_compensation_completed;
  handler_name = "SagaCompensationCompletedHandler";
  supports_schema_version = from_version_1;
}
