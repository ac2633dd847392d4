-- ===== src/World/Event.antt =====
-- The events of domain/event.rs as data.
use ddd_samples.Prelude.{ℕ, String, List}
use ddd_samples.Value.{Uuid, OrderId, CustomerId}
use ddd_samples.Value.Money.{Money}
use ddd_samples.Value.OrderLine.{OrderLine}
use ddd_samples.Value.ShippingAddress.{ShippingAddress}

-- `occurred_at` is a count of time units; the `HashMap` is an association list without repeats.
pub record EventMetadata : Type 0 where
  pub event_id : Uuid
  pub occurred_at : ℕ
  pub correlation_id : Uuid
  pub event_version : ℕ  -- u32
  pub additional_metadata : List (String × String)

pub record OrderConfirmed : Type 0 where
  pub metadata : EventMetadata
  pub order_id : OrderId
  pub customer_id : CustomerId
  pub order_lines : List OrderLine
  pub total_amount : Money

pub record OrderCancelled : Type 0 where
  pub metadata : EventMetadata
  pub order_id : OrderId
  pub customer_id : CustomerId
  pub order_lines : List OrderLine

pub record OrderShipped : Type 0 where
  pub metadata : EventMetadata
  pub order_id : OrderId
  pub shipping_address : ShippingAddress

pub record OrderDelivered : Type 0 where
  pub metadata : EventMetadata
  pub order_id : OrderId

pub record InventoryReserved : Type 0 where
  pub metadata : EventMetadata
  pub order_id : OrderId
  pub order_lines : List OrderLine

pub record InventoryReleased : Type 0 where
  pub metadata : EventMetadata
  pub order_id : OrderId
  pub order_lines : List OrderLine

pub record InventoryReservationFailed : Type 0 where
  pub metadata : EventMetadata
  pub order_id : OrderId
  pub order_lines : List OrderLine
  pub failure_reason : String
  pub original_event_id : Uuid

pub record ShippingFailed : Type 0 where
  pub metadata : EventMetadata
  pub order_id : OrderId
  pub failure_reason : String
  pub original_event_id : Uuid

pub record DeliveryFailed : Type 0 where
  pub metadata : EventMetadata
  pub order_id : OrderId
  pub failure_reason : String
  pub original_event_id : Uuid

pub record SagaCompensationStarted : Type 0 where
  pub metadata : EventMetadata
  pub saga_id : Uuid
  pub failed_step : String
  pub failure_reason : String
  pub compensation_steps : List String

pub data CompensationResult : Type 0 where
  success : CompensationResult
  partial_success : List String → CompensationResult
  failed : String → CompensationResult

pub record SagaCompensationCompleted : Type 0 where
  pub metadata : EventMetadata
  pub saga_id : Uuid
  pub compensated_steps : List String
  pub compensation_result : CompensationResult

pub data DomainEvent : Type 0 where
  order_confirmed : OrderConfirmed → DomainEvent
  order_cancelled : OrderCancelled → DomainEvent
  order_shipped : OrderShipped → DomainEvent
  order_delivered : OrderDelivered → DomainEvent
  inventory_reserved : InventoryReserved → DomainEvent
  inventory_released : InventoryReleased → DomainEvent
  inventory_reservation_failed : InventoryReservationFailed → DomainEvent
  shipping_failed : ShippingFailed → DomainEvent
  delivery_failed : DeliveryFailed → DomainEvent
  saga_compensation_started : SagaCompensationStarted → DomainEvent
  saga_compensation_completed : SagaCompensationCompleted → DomainEvent

-- `DomainEvent::metadata`
abbrev pub metadata_of : DomainEvent → EventMetadata
metadata_of (order_confirmed e) = e.metadata
metadata_of (order_cancelled e) = e.metadata
metadata_of (order_shipped e) = e.metadata
metadata_of (order_delivered e) = e.metadata
metadata_of (inventory_reserved e) = e.metadata
metadata_of (inventory_released e) = e.metadata
metadata_of (inventory_reservation_failed e) = e.metadata
metadata_of (shipping_failed e) = e.metadata
metadata_of (delivery_failed e) = e.metadata
metadata_of (saga_compensation_started e) = e.metadata
metadata_of (saga_compensation_completed e) = e.metadata

-- `DomainEvent::event_type`
abbrev pub event_type : DomainEvent → String
event_type (order_confirmed _) = "OrderConfirmed"
event_type (order_cancelled _) = "OrderCancelled"
event_type (order_shipped _) = "OrderShipped"
event_type (order_delivered _) = "OrderDelivered"
event_type (inventory_reserved _) = "InventoryReserved"
event_type (inventory_released _) = "InventoryReleased"
event_type (inventory_reservation_failed _) = "InventoryReservationFailed"
event_type (shipping_failed _) = "ShippingFailed"
event_type (delivery_failed _) = "DeliveryFailed"
event_type (saga_compensation_started _) = "SagaCompensationStarted"
event_type (saga_compensation_completed _) = "SagaCompensationCompleted"
