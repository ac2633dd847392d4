-- ===== src/Api/Endpoints.antt =====
-- The endpoints of adapter/driver/rest_api.rs. `axum` has matched the route and decoded the
-- request; an endpoint's query parameters may have been rejected.
use ddd_samples.Prelude.{ℕ, ⊤, String, Option, none, some, List, map}
use ddd_samples.Prelude.Action.{Action, ◌>>=◌, pure, raise, or_panic, map_err}
use ddd_samples.Error.{ApplicationError}
use ddd_samples.Value.{Uuid}
use ddd_samples.Value.Money
use ddd_samples.Order.{Order}
use ddd_samples.Inventory.{Inventory}
use ddd_samples.World.{World, Env}
use ddd_samples.Event.{new_v4}
use ddd_samples.Handler.Common.{Publish}
use ddd_samples.Service
use ddd_samples.Service.{add_book_to_order, set_shipping_address_from_request}
use ddd_samples.Service.Listing.{
  Lists, get_all_orders, get_orders_by_status_string, get_all_inventories,
  get_low_stock_inventories,
}
use ddd_samples.Api.{
  StatusCode, status_ok, created, bad_request, not_found, Refusal, refusal, CreateOrderRequest,
  AddBookRequest, SetShippingAddressRequest, CreateInventoryRequest, OrdersQueryParams,
  InventoryQueryParams, map_application_error,
}
use ddd_samples.Api.Responses.{
  OrderSummaryResponse, OrderDetailResponse, InventoryResponse, collect, summary_from_order,
  detail_from_order, from_inventory,
}

pub record CreateOrderResponse : Type 0 where
  pub order_id : Uuid
  pub customer_id : Uuid

-- `Err(err) => Err(map_application_error(err))`
abbrev pub answer : {A : Type 0} → Action World ApplicationError A → Action World Refusal A
answer = map_err map_application_error

-- `Ok(()) => Ok(status)`
abbrev pub answer_with :
    StatusCode → Action World ApplicationError ⊤ → Action World Refusal StatusCode
answer_with status m = answer m >>= λ _. pure status

-- `query.map_err(…)?`, on parameters that were decoded or rejected.
abbrev pub decoded : {A : Type 0} → Option A → Action World Refusal A
decoded none = raise (refusal bad_request "無効なクエリパラメータです" "INVALID_PARAMETER")
decoded (some params) = pure params

module _ (env : Env) where
  -- `unwrap_or_else(CustomerId::new)`
  abbrev pub customer : Option Uuid → Action World Refusal Uuid
  customer none = new_v4 env
  customer (some customer_id) = pure customer_id

  unfoldable pub create_order : CreateOrderRequest → Action World Refusal CreateOrderResponse
  create_order request = do
    customer_id ← customer request.customer_id
    order_id ← answer (Service.create_order env customer_id)
    pure (record { order_id = order_id; customer_id = customer_id })

  unfoldable pub add_book : Uuid → AddBookRequest → Action World Refusal StatusCode
  add_book order_id request = answer_with status_ok (
      add_book_to_order env order_id request.book_id request.quantity
        (Money.jpy request.unit_price))

  unfoldable pub set_shipping_address :
      Uuid → SetShippingAddressRequest → Action World Refusal StatusCode
  set_shipping_address order_id request = answer_with status_ok (
      set_shipping_address_from_request env order_id request.postal_code request.prefecture
        request.city request.address_line1 request.address_line2)

  module _ (publish : Publish) where
    unfoldable pub confirm_order : Uuid → Action World Refusal StatusCode
    confirm_order order_id = answer_with status_ok (Service.confirm_order env publish order_id)

    unfoldable pub cancel_order : Uuid → Action World Refusal StatusCode
    cancel_order order_id = answer_with status_ok (Service.cancel_order env publish order_id)

    unfoldable pub mark_order_as_shipped : Uuid → Action World Refusal StatusCode
    mark_order_as_shipped order_id =
        answer_with status_ok (Service.mark_order_as_shipped env publish order_id)

    unfoldable pub mark_order_as_delivered : Uuid → Action World Refusal StatusCode
    mark_order_as_delivered order_id =
        answer_with status_ok (Service.mark_order_as_delivered env publish order_id)

  unfoldable pub create_inventory : CreateInventoryRequest → Action World Refusal StatusCode
  create_inventory request =
      answer_with created (Service.create_inventory env request.book_id request.quantity)

  -- What is found as its response, or 404.
  abbrev pub found_order : Option Order → Action World Refusal OrderDetailResponse
  found_order none = raise (refusal not_found "指定された注文が見つかりません" "ORDER_NOT_FOUND")
  found_order (some order) = or_panic (detail_from_order env order)

  abbrev pub found_inventory : Option Inventory → Action World Refusal InventoryResponse
  found_inventory none = raise (refusal not_found "指定された書籍の在庫が見つかりません" "INVENTORY_NOT_FOUND")
  found_inventory (some inventory) = pure (from_inventory env inventory)

  unfoldable pub get_order_by_id : Uuid → Action World Refusal OrderDetailResponse
  get_order_by_id order_id = do
    order ← answer (Service.get_order_by_id env order_id)
    found_order order

  unfoldable pub get_inventory_by_book_id : Uuid → Action World Refusal InventoryResponse
  get_inventory_by_book_id book_id = do
    inventory ← answer (Service.get_inventory_by_book_id env book_id)
    found_inventory inventory

  module _ (lists : Lists World) where
    -- The orders of one status, or all.
    abbrev pub orders_for : Option String → Action World ApplicationError (List Order)
    orders_for none = get_all_orders lists
    orders_for (some status_str) = get_orders_by_status_string lists status_str

    unfoldable pub get_orders :
        Option OrdersQueryParams → Action World Refusal (List OrderSummaryResponse)
    get_orders query = do
      params ← decoded query
      orders ← answer (orders_for params.status)
      or_panic (collect (summary_from_order env) orders)

    abbrev pub inventories_for : Option ℕ → Action World ApplicationError (List Inventory)
    inventories_for none = get_all_inventories lists
    inventories_for (some max_quantity) = get_low_stock_inventories lists max_quantity

    unfoldable pub get_inventories :
        Option InventoryQueryParams → Action World Refusal (List InventoryResponse)
    get_inventories query = do
      params ← decoded query
      inventories ← answer (inventories_for params.max_quantity)
      pure (map (from_inventory env) inventories)

-- The routes of `create_router`, with what `axum` decodes for them.
pub data Call : Type 0 where
  post_orders : CreateOrderRequest → Call
  post_books : Uuid → AddBookRequest → Call
  put_shipping_address : Uuid → SetShippingAddressRequest → Call
  post_confirm post_cancel post_ship post_deliver : Uuid → Call
  post_inventory : CreateInventoryRequest → Call
  get_order_list : Option OrdersQueryParams → Call
  get_order : Uuid → Call
  get_inventory_list : Option InventoryQueryParams → Call
  get_inventory : Uuid → Call
  get_health : Call

-- The bodies of the answers that are not refusals.
pub data Reply : Type 0 where
  no_body : StatusCode → Reply
  order_created : CreateOrderResponse → Reply
  order_list : List OrderSummaryResponse → Reply
  order_detail : OrderDetailResponse → Reply
  inventory_list : List InventoryResponse → Reply
  inventory_detail : InventoryResponse → Reply
  health : String → String → String → Reply  -- status, service, version

abbrev pub as_reply :
    {A : Type 0} → (A → Reply) → Action World Refusal A → Action World Refusal Reply
as_reply f m = m >>= λ a. pure (f a)

-- `create_router`: which endpoint takes which call; `health_check` is the last.
unfoldable pub route : Env → Publish → Lists World → Call → Action World Refusal Reply
route env publish lists (post_orders r) = as_reply order_created (create_order env r)
route env publish lists (post_books i r) = as_reply no_body (add_book env i r)
route env publish lists (put_shipping_address i r) = as_reply no_body (set_shipping_address env i r)
route env publish lists (post_confirm i) = as_reply no_body (confirm_order env publish i)
route env publish lists (post_cancel i) = as_reply no_body (cancel_order env publish i)
route env publish lists (post_ship i) = as_reply no_body (mark_order_as_shipped env publish i)
route env publish lists (post_deliver i) = as_reply no_body (mark_order_as_delivered env publish i)
route env publish lists (post_inventory r) = as_reply no_body (create_inventory env r)
route env publish lists (get_order_list q) = as_reply order_list (get_orders env lists q)
route env publish lists (get_order i) = as_reply order_detail (get_order_by_id env i)
route env publish lists (get_inventory_list q) =
    as_reply inventory_list (get_inventories env lists q)
route env publish lists (get_inventory i) =
    as_reply inventory_detail (get_inventory_by_book_id env i)
route env publish lists get_health = pure (health "healthy" "bookstore-order-management" "0.1.0")
