-- ===== src/Service.antt =====
-- The application services of application/service.rs, over the repository ports and the bus.
pub mod Confirming
pub mod Listing
use ddd_samples.Prelude.{ℕ, ⊤, String, ◌+++◌, Option, none, some}
use ddd_samples.Prelude.Action.{
  Outcome, ok, err, Action, ◌>>=◌, ◌>>◌, pure, on, or_raise, or_panic, map_err, lift,
}
use ddd_samples.Error.{
  DomainError, ApplicationError, RepositoryError, EventBusError, show_event_bus_error,
}
use ddd_samples.Value.{Uuid, OrderId, BookId, CustomerId}
use ddd_samples.Value.Money.{Money}
use ddd_samples.Value.ShippingAddress
use ddd_samples.Order
use ddd_samples.Order.{Order}
use ddd_samples.Inventory
use ddd_samples.Inventory.{Inventory}
use ddd_samples.World.{
  World, Env, EventMetadata, DomainEvent, order_confirmed, order_cancelled, order_shipped,
  order_delivered, inventory_reserved, inventory_released, inventory_reservation_failed,
  shipping_failed, delivery_failed, saga_compensation_started, saga_compensation_completed,
}
use ddd_samples.Event.{
  new_v4, new_order_confirmed, new_order_cancelled, new_order_shipped, new_order_delivered,
}
use ddd_samples.Port.{find_by_id, save_order, find_by_book_id, save_inventory}
use ddd_samples.Handler.Common.{Publish}

abbrev correlate : Uuid → EventMetadata → EventMetadata
correlate correlation_id m = record m { correlation_id = correlation_id }

-- `set_correlation_id_to_event`
unfoldable pub set_correlation_id_to_event : Uuid → DomainEvent → DomainEvent
set_correlation_id_to_event i (order_confirmed e) =
    order_confirmed (record e { metadata = correlate i e.metadata })
set_correlation_id_to_event i (order_cancelled e) =
    order_cancelled (record e { metadata = correlate i e.metadata })
set_correlation_id_to_event i (order_shipped e) =
    order_shipped (record e { metadata = correlate i e.metadata })
set_correlation_id_to_event i (order_delivered e) =
    order_delivered (record e { metadata = correlate i e.metadata })
set_correlation_id_to_event i (inventory_reserved e) =
    inventory_reserved (record e { metadata = correlate i e.metadata })
set_correlation_id_to_event i (inventory_released e) =
    inventory_released (record e { metadata = correlate i e.metadata })
set_correlation_id_to_event i (inventory_reservation_failed e) =
    inventory_reservation_failed (record e { metadata = correlate i e.metadata })
set_correlation_id_to_event i (shipping_failed e) =
    shipping_failed (record e { metadata = correlate i e.metadata })
set_correlation_id_to_event i (delivery_failed e) =
    delivery_failed (record e { metadata = correlate i e.metadata })
set_correlation_id_to_event i (saga_compensation_started e) =
    saga_compensation_started (record e { metadata = correlate i e.metadata })
set_correlation_id_to_event i (saga_compensation_completed e) =
    saga_compensation_completed (record e { metadata = correlate i e.metadata })

module _ (env : Env) where
  -- `find_by_id(order_id).await?.ok_or_else(…)?`
  unfoldable pub load : OrderId → Action World ApplicationError Order
  load order_id = do
    found ← map_err ApplicationError.repository (find_by_id env order_id)
    or_raise found (ApplicationError.not_found ("注文が見つかりません: " +++ env.show_uuid order_id))

  -- `order_repository.save(&order).await?`
  abbrev pub store : Order → Action World ApplicationError ⊤
  store order = map_err ApplicationError.repository (save_order env order)

  -- A method of the aggregate with `?`: the order as the method leaves it.
  abbrev pub call : Action Order DomainError ⊤ → Order → Action World ApplicationError (⊤ × Order)
  call m order = map_err ApplicationError.domain (on m order)

  -- `OrderApplicationService::create_order`
  unfoldable pub create_order : CustomerId → Action World ApplicationError OrderId
  create_order customer_id = do
    order_id ← new_v4 env
    store (Order.new order_id customer_id)
    pure order_id

  -- `OrderApplicationService::add_book_to_order`
  unfoldable pub add_book_to_order : OrderId → BookId → ℕ → Money → Action World ApplicationError ⊤
  add_book_to_order order_id book_id quantity price = do
    order ← load order_id
    (_, order') ← call (Order.add_book env.profile book_id quantity price) order
    store order'

  -- `OrderApplicationService::set_shipping_address_from_request`
  unfoldable pub set_shipping_address_from_request :
      OrderId → String → String → String → String → Option String → Action World ApplicationError ⊤
  set_shipping_address_from_request order_id postal_code prefecture city line1 line2 = do
    order ← load order_id
    address ←
        map_err ApplicationError.domain
          (lift (ShippingAddress.new postal_code prefecture city line1 line2))
    (_, order') ← call (Order.set_shipping_address address) order
    store order'

  module _ (publish : Publish) where
    -- `event_bus.publish(event).await.map_err(…)?`
    abbrev pub announce : DomainEvent → Action World ApplicationError ⊤
    announce event =
        map_err (λ e. ApplicationError.event_publishing_failed (show_event_bus_error e))
          (publish event)

    -- `OrderApplicationService::confirm_order`
    unfoldable pub confirm_order : OrderId → Action World ApplicationError ⊤
    confirm_order order_id = do
      order ← load order_id
      (_, order') ← call Order.confirm order
      store order'
      correlation_id ← new_v4 env
      total_amount ← or_panic (Order.calculate_total env.profile order')
      event ← new_order_confirmed env order'.id order'.customer_id order'.order_lines total_amount
      announce (set_correlation_id_to_event correlation_id (order_confirmed event))

    -- `OrderApplicationService::cancel_order`
    unfoldable pub cancel_order : OrderId → Action World ApplicationError ⊤
    cancel_order order_id = do
      order ← load order_id
      (_, order') ← call Order.cancel order
      store order'
      correlation_id ← new_v4 env
      event ← new_order_cancelled env order'.id order'.customer_id order'.order_lines
      announce (set_correlation_id_to_event correlation_id (order_cancelled event))

    -- `OrderApplicationService::mark_order_as_shipped`
    unfoldable pub mark_order_as_shipped : OrderId → Action World ApplicationError ⊤
    mark_order_as_shipped order_id = do
      order ← load order_id
      (_, order') ← call Order.mark_as_shipped order
      store order'
      correlation_id ← new_v4 env
      shipping_address ← or_panic order'.shipping_address
      event ← new_order_shipped env order'.id shipping_address
      announce (set_correlation_id_to_event correlation_id (order_shipped event))

    -- `OrderApplicationService::mark_order_as_delivered`
    unfoldable pub mark_order_as_delivered : OrderId → Action World ApplicationError ⊤
    mark_order_as_delivered order_id = do
      order ← load order_id
      (_, order') ← call Order.mark_as_delivered order
      store order'
      correlation_id ← new_v4 env
      event ← new_order_delivered env order'.id
      announce (set_correlation_id_to_event correlation_id (order_delivered event))

  -- `OrderApplicationService::get_order_by_id`
  unfoldable pub get_order_by_id : OrderId → Action World ApplicationError (Option Order)
  get_order_by_id id = map_err ApplicationError.repository (find_by_id env id)

  -- `InventoryApplicationService::create_inventory`
  unfoldable pub create_inventory : BookId → ℕ → Action World ApplicationError ⊤
  create_inventory book_id quantity =
      map_err ApplicationError.repository (save_inventory env (Inventory.new book_id quantity))

  -- `InventoryApplicationService::get_inventory_by_book_id`
  unfoldable pub get_inventory_by_book_id :
      BookId → Action World ApplicationError (Option Inventory)
  get_inventory_by_book_id book_id =
      map_err ApplicationError.repository (find_by_book_id env book_id)
