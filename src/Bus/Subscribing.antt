-- ===== src/Bus/Subscribing.antt =====
-- How handlers come to be on the bus: the `subscribe_…` methods of adapter/driven/event_bus.rs.
-- The state is the vector behind the lock of `handlers`.
use ddd_samples.Prelude.{⊤, List, [], ◌∷◌, ◌++◌}
use ddd_samples.Prelude.Action.{Action, modify}
use ddd_samples.Error.{HandlerError, EventBusError}
use ddd_samples.World.{
  World, OrderConfirmed, OrderCancelled, OrderShipped, OrderDelivered, InventoryReservationFailed,
  ShippingFailed, DeliveryFailed, SagaCompensationStarted, SagaCompensationCompleted,
}
use ddd_samples.Bus.Wrappers.{
  DynEventHandler, order_confirmed_wrapper, order_cancelled_wrapper, order_shipped_wrapper,
  order_delivered_wrapper, inventory_reservation_failed_wrapper, shipping_failed_wrapper,
  delivery_failed_wrapper, saga_compensation_started_wrapper, saga_compensation_completed_wrapper,
}

-- `handlers.push(Box::new(wrapped_handler))`
abbrev push : DynEventHandler → Action (List DynEventHandler) EventBusError ⊤
push wrapped_handler = modify (λ handlers. handlers ++ wrapped_handler ∷ [])

-- `subscribe_order_confirmed`
unfoldable pub subscribe_order_confirmed :
    (OrderConfirmed → Action World HandlerError ⊤) → Action (List DynEventHandler) EventBusError ⊤
subscribe_order_confirmed handler = push (order_confirmed_wrapper handler)

-- `subscribe_order_cancelled`
unfoldable pub subscribe_order_cancelled :
    (OrderCancelled → Action World HandlerError ⊤) → Action (List DynEventHandler) EventBusError ⊤
subscribe_order_cancelled handler = push (order_cancelled_wrapper handler)

-- `subscribe_order_shipped`
unfoldable pub subscribe_order_shipped :
    (OrderShipped → Action World HandlerError ⊤) → Action (List DynEventHandler) EventBusError ⊤
subscribe_order_shipped handler = push (order_shipped_wrapper handler)

-- `subscribe_order_delivered`
unfoldable pub subscribe_order_delivered :
    (OrderDelivered → Action World HandlerError ⊤) → Action (List DynEventHandler) EventBusError ⊤
subscribe_order_delivered handler = push (order_delivered_wrapper handler)

-- `subscribe_inventory_reservation_failed`
unfoldable pub subscribe_inventory_reservation_failed :
    (InventoryReservationFailed → Action World HandlerError ⊤)
    → Action (List DynEventHandler) EventBusError ⊤
subscribe_inventory_reservation_failed handler = push (inventory_reservation_failed_wrapper handler)

-- `subscribe_shipping_failed`
unfoldable pub subscribe_shipping_failed :
    (ShippingFailed → Action World HandlerError ⊤) → Action (List DynEventHandler) EventBusError ⊤
subscribe_shipping_failed handler = push (shipping_failed_wrapper handler)

-- `subscribe_delivery_failed`
unfoldable pub subscribe_delivery_failed :
    (DeliveryFailed → Action World HandlerError ⊤) → Action (List DynEventHandler) EventBusError ⊤
subscribe_delivery_failed handler = push (delivery_failed_wrapper handler)

-- `subscribe_saga_compensation_started`
unfoldable pub subscribe_saga_compensation_started :
    (SagaCompensationStarted → Action World HandlerError ⊤)
    → Action (List DynEventHandler) EventBusError ⊤
subscribe_saga_compensation_started handler = push (saga_compensation_started_wrapper handler)

-- `subscribe_saga_compensation_completed`
unfoldable pub subscribe_saga_compensation_completed :
    (SagaCompensationCompleted → Action World HandlerError ⊤)
    → Action (List DynEventHandler) EventBusError ⊤
subscribe_saga_compensation_completed handler = push (saga_compensation_completed_wrapper handler)
