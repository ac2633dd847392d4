-- ===== src/Soundness/Wrapped.antt =====
-- A wrapper of domain/event_bus.rs keeps what the handler in it keeps.
use ddd_samples.Prelude.{⊤}
use ddd_samples.Prelude.Action.{Action}
use ddd_samples.Prelude.Ensures.{Keeps, raise-Ensures}
use ddd_samples.Error.{HandlerError}
use ddd_samples.World.{
  World, DomainEvent, OrderConfirmed, OrderCancelled, OrderShipped, OrderDelivered,
  InventoryReservationFailed, ShippingFailed, DeliveryFailed, SagaCompensationStarted,
  SagaCompensationCompleted, order_confirmed, order_cancelled, order_shipped, order_delivered,
  inventory_reservation_failed, shipping_failed, delivery_failed, saga_compensation_started,
  saga_compensation_completed,
}
use ddd_samples.Bus.Wrappers.{
  DynEventHandler, order_confirmed_wrapper, order_cancelled_wrapper, order_shipped_wrapper,
  order_delivered_wrapper, inventory_reservation_failed_wrapper, shipping_failed_wrapper,
  delivery_failed_wrapper, saga_compensation_started_wrapper, saga_compensation_completed_wrapper,
}

-- A subscription whose handler keeps `P` on one event.
abbrev pub SoundOn : (World → Type 0) → DomainEvent → DynEventHandler → Type 0
SoundOn P e h = Keeps P (h.handle_event e)

-- A subscription whose handler keeps `P` on every event.
abbrev pub Sound : (World → Type 0) → DynEventHandler → Type 0
Sound P h = (e : DomainEvent) → Keeps P (h.handle_event e)

module _ {P : World → Type 0} where
  pub order_confirmed_wrapper-Sound :
      {f : OrderConfirmed → Action World HandlerError ⊤}
      → ((e : OrderConfirmed) → Keeps P (f e))
      → Sound P (order_confirmed_wrapper f)
  order_confirmed_wrapper-Sound h (order_confirmed e) = h e
  order_confirmed_wrapper-Sound h _ = raise-Ensures

  pub order_cancelled_wrapper-Sound :
      {f : OrderCancelled → Action World HandlerError ⊤}
      → ((e : OrderCancelled) → Keeps P (f e))
      → Sound P (order_cancelled_wrapper f)
  order_cancelled_wrapper-Sound h (order_cancelled e) = h e
  order_cancelled_wrapper-Sound h _ = raise-Ensures

  pub order_shipped_wrapper-Sound :
      {f : OrderShipped → Action World HandlerError ⊤}
      → ((e : OrderShipped) → Keeps P (f e))
      → Sound P (order_shipped_wrapper f)
  order_shipped_wrapper-Sound h (order_shipped e) = h e
  order_shipped_wrapper-Sound h _ = raise-Ensures

  pub order_delivered_wrapper-Sound :
      {f : OrderDelivered → Action World HandlerError ⊤}
      → ((e : OrderDelivered) → Keeps P (f e))
      → Sound P (order_delivered_wrapper f)
  order_delivered_wrapper-Sound h (order_delivered e) = h e
  order_delivered_wrapper-Sound h _ = raise-Ensures

  pub inventory_reservation_failed_wrapper-Sound :
      {f : InventoryReservationFailed → Action World HandlerError ⊤}
      → ((e : InventoryReservationFailed) → Keeps P (f e))
      → Sound P (inventory_reservation_failed_wrapper f)
  inventory_reservation_failed_wrapper-Sound h (inventory_reservation_failed e) = h e
  inventory_reservation_failed_wrapper-Sound h _ = raise-Ensures

  pub shipping_failed_wrapper-Sound :
      {f : ShippingFailed → Action World HandlerError ⊤}
      → ((e : ShippingFailed) → Keeps P (f e))
      → Sound P (shipping_failed_wrapper f)
  shipping_failed_wrapper-Sound h (shipping_failed e) = h e
  shipping_failed_wrapper-Sound h _ = raise-Ensures

  pub delivery_failed_wrapper-Sound :
      {f : DeliveryFailed → Action World HandlerError ⊤}
      → ((e : DeliveryFailed) → Keeps P (f e))
      → Sound P (delivery_failed_wrapper f)
  delivery_failed_wrapper-Sound h (delivery_failed e) = h e
  delivery_failed_wrapper-Sound h _ = raise-Ensures

  pub saga_compensation_started_wrapper-Sound :
      {f : SagaCompensationStarted → Action World HandlerError ⊤}
      → ((e : SagaCompensationStarted) → Keeps P (f e))
      → Sound P (saga_compensation_started_wrapper f)
  saga_compensation_started_wrapper-Sound h (saga_compensation_started e) = h e
  saga_compensation_started_wrapper-Sound h _ = raise-Ensures

  pub saga_compensation_completed_wrapper-Sound :
      {f : SagaCompensationCompleted → Action World HandlerError ⊤}
      → ((e : SagaCompensationCompleted) → Keeps P (f e))
      → Sound P (saga_compensation_completed_wrapper f)
  saga_compensation_completed_wrapper-Sound h (saga_compensation_completed e) = h e
  saga_compensation_completed_wrapper-Sound h _ = raise-Ensures
