-- ===== src/Service/Listing.antt =====
-- The list queries of application/service.rs, over the list queries of the repository ports. The
-- in-memory world has none of its own, so they are an interface.
use ddd_samples.Prelude.{ℕ, String, ◌+++◌, List}
use ddd_samples.Prelude.Action.{Action, ◌>>=◌, map_err, lift}
use ddd_samples.Error.{DomainError, ApplicationError, RepositoryError}
use ddd_samples.Value.OrderStatus.{OrderStatus}
use ddd_samples.Value.OrderStatus
use ddd_samples.Order.{Order}
use ddd_samples.Inventory.{Inventory}

-- The methods of the ports `OrderRepository` and `InventoryRepository` that return lists.
pub record Lists (S : Type 0) : Type 0 where
  pub find_all : Action S RepositoryError (List Order)
  pub find_by_status : OrderStatus → Action S RepositoryError (List Order)
  pub find_all_stock : Action S RepositoryError (List Inventory)
  pub find_by_max_quantity : ℕ → Action S RepositoryError (List Inventory)

module _ {S : Type 0} (lists : Lists S) where
  -- `OrderApplicationService::get_all_orders`
  unfoldable pub get_all_orders : Action S ApplicationError (List Order)
  get_all_orders = map_err ApplicationError.repository lists.find_all

  -- `OrderApplicationService::get_orders_by_status`
  unfoldable pub get_orders_by_status : OrderStatus → Action S ApplicationError (List Order)
  get_orders_by_status status = map_err ApplicationError.repository (lists.find_by_status status)

  -- `OrderApplicationService::get_orders_by_status_string`
  unfoldable pub get_orders_by_status_string : String → Action S ApplicationError (List Order)
  get_orders_by_status_string status_str = do
    status ←
        map_err (λ (e : DomainError). ApplicationError.not_found ("無効なステータス値: " +++ status_str))
          (lift (OrderStatus.from_string status_str))
    get_orders_by_status status

  -- `InventoryApplicationService::get_all_inventories`
  unfoldable pub get_all_inventories : Action S ApplicationError (List Inventory)
  get_all_inventories = map_err ApplicationError.repository lists.find_all_stock

  -- `InventoryApplicationService::get_low_stock_inventories`
  unfoldable pub get_low_stock_inventories : ℕ → Action S ApplicationError (List Inventory)
  get_low_stock_inventories max_quantity =
      map_err ApplicationError.repository (lists.find_by_max_quantity max_quantity)
