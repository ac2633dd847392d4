-- ===== src/Api/Routes.antt =====
-- What the routes have done to the data when they answer with a client error.
use mathlib.Core.Path.{subst, ap}
use ddd_samples.Prelude.{ℕ, ⊤, String, ◌≡◌, Option, none, some}
use ddd_samples.Prelude.Action.{err, Action}
use ddd_samples.Prelude.Refusing.{
  Reads, Guarded, Late, Reads-Guarded, Late-Guarded, bind-Late, bind-Guarded, bind-Reads,
  map_err-Guarded, map_err-Late, map_err_of-Late, map_err-Reads, pure-Late, or_panic-Reads,
}
use ddd_samples.Error.{ApplicationError}
use ddd_samples.Value.{Uuid}
use ddd_samples.Value.OrderStatus.{OrderStatus}
use ddd_samples.Order.{Order}
use ddd_samples.Inventory.{Inventory}
use ddd_samples.World.{World, Env}
use ddd_samples.Port.{save_inventory}
use ddd_samples.Handler.Common.{Publish}
use ddd_samples.Service
use ddd_samples.Service.Listing.{
  Lists, get_all_orders, get_orders_by_status, get_orders_by_status_string, get_all_inventories,
  get_low_stock_inventories,
}
use ddd_samples.Api.{
  StatusCode, bad_request, not_found, Refusal, CreateOrderRequest, OrdersQueryParams,
  InventoryQueryParams, map_application_error,
}
use ddd_samples.Api.Responses.{detail_from_order}
use ddd_samples.Api.Endpoints
use ddd_samples.Api.Endpoints.{
  Call, Reply, post_orders, post_books, put_shipping_address, post_confirm, post_cancel, post_ship,
  post_deliver, post_inventory, get_order_list, get_order, get_inventory_list, get_inventory,
  get_health, route, answer, answer_with, as_reply, decoded, customer,
}
use ddd_samples.Api.Refusals.{
  Same, Same-refl, Same-trans, IsRefused, Same-Reads, find_by_id-Reads, find_by_book_id-Reads,
  create_order-Late, add_book_to_order-Guarded, set_shipping_address-Guarded, confirm_order-Guarded,
  cancel_order-Guarded, mark_order_as_shipped-Guarded, mark_order_as_delivered-Guarded, new_v4-Late,
}

-- The status is a 4xx.
abbrev pub IsClientError : StatusCode → Type 0
IsClientError bad_request = ⊤
IsClientError not_found = ⊤
IsClientError _ = ⊥

abbrev IsClients : Refusal → Type 0
IsClients r = IsClientError r.status

-- The list queries leave the data alone, as the ports mean them to.
pub record IsReading (lists : Lists World) : Type 0 where
  pub all_orders : (w : World) → Same w (lists.find_all w).1
  pub by_status : (s : OrderStatus) (w : World) → Same w (lists.find_by_status s w).1
  pub all_stock : (w : World) → Same w (lists.find_all_stock w).1
  pub by_max_quantity : (n : ℕ) (w : World) → Same w (lists.find_by_max_quantity n w).1

map_application_error-client :
    (e : ApplicationError) → IsClients (map_application_error e) → IsRefused e
unfolding map_application_error
map_application_error-client (ApplicationError.domain d) h = tt
map_application_error-client (ApplicationError.repository x) h = h
map_application_error-client (ApplicationError.event_publishing_failed m) h = h
map_application_error-client (ApplicationError.not_found m) h = tt

module _ {A : Type 0} (f : A → Reply) {m : Action World Refusal A} where
  as_reply-Guarded : Guarded Same IsClients m → Guarded Same IsClients (as_reply f m)
  as_reply-Guarded h = bind-Guarded h λ a. pure-Late (f a)

  as_reply-Reads : Reads Same m → Reads Same (as_reply f m)
  as_reply-Reads h = bind-Reads Same-trans h λ a. Same-Reads _ Same-refl

status-Guarded :
    (status : StatusCode) (m : Action World ApplicationError ⊤)
    → Guarded Same IsRefused m
    → Guarded Same IsClients (as_reply Endpoints.no_body (answer_with status m))
status-Guarded status m h =
    as_reply-Guarded _
      (bind-Guarded (map_err-Guarded _ m map_application_error-client h) λ _. pure-Late status)

module _ (env : Env) where
  customer-Late : (c : Option Uuid) → Late IsClients (customer env c)
  customer-Late none = new_v4-Late env
  customer-Late (some c) = pure-Late c

  create_order-Clean : (r : CreateOrderRequest) → Late IsClients (Endpoints.create_order env r)
  unfolding Endpoints.create_order
  create_order-Clean r = bind-Late (customer-Late r.customer_id) λ c.
      bind-Late (map_err_of-Late _ _ map_application_error-client (create_order-Late env c))
        λ i. pure-Late _

  get_order-Reads : (i : Uuid) → Reads Same (Endpoints.get_order_by_id env i)
  unfolding Endpoints.get_order_by_id Service.get_order_by_id
  get_order-Reads i =
      bind-Reads Same-trans (map_err-Reads _ _ (map_err-Reads _ _ (find_by_id-Reads env i))) found
    where
      found : (o : Option Order) → Reads Same (Endpoints.found_order env o)
      found none = Same-Reads _ Same-refl
      found (some o) = or_panic-Reads Same-refl (detail_from_order env o)

  get_inventory-Reads : (b : Uuid) → Reads Same (Endpoints.get_inventory_by_book_id env b)
  unfolding Endpoints.get_inventory_by_book_id Service.get_inventory_by_book_id
  get_inventory-Reads b =
      bind-Reads Same-trans (map_err-Reads _ _ (map_err-Reads _ _ (find_by_book_id-Reads env b)))
        found
    where
      found : (v : Option Inventory) → Reads Same (Endpoints.found_inventory env v)
      found none = Same-Reads _ Same-refl
      found (some v) = Same-Reads _ Same-refl

  decoded-Reads : {A : Type 0} (q : Option A) → Reads Same (decoded q)
  decoded-Reads none = Same-Reads _ Same-refl
  decoded-Reads (some q) = Same-Reads _ Same-refl

  module _ (lists : Lists World) (reading : IsReading lists) where
    orders_for-Reads : (s : Option String) → Reads Same (Endpoints.orders_for env lists s)
    unfolding get_all_orders get_orders_by_status_string get_orders_by_status
    orders_for-Reads none = map_err-Reads _ _ (Same-Reads _ reading.all_orders)
    orders_for-Reads (some s) =
        bind-Reads Same-trans (Same-Reads _ Same-refl)
          λ status. map_err-Reads _ _ (Same-Reads _ (reading.by_status status))

    get_orders-Reads :
        (q : Option OrdersQueryParams) → Reads Same (Endpoints.get_orders env lists q)
    unfolding Endpoints.get_orders
    get_orders-Reads q = bind-Reads Same-trans (decoded-Reads q) λ params.
        bind-Reads Same-trans (map_err-Reads _ _ (orders_for-Reads params.status))
          λ orders. or_panic-Reads Same-refl _

    inventories_for-Reads : (n : Option ℕ) → Reads Same (Endpoints.inventories_for env lists n)
    unfolding get_all_inventories get_low_stock_inventories
    inventories_for-Reads none = map_err-Reads _ _ (Same-Reads _ reading.all_stock)
    inventories_for-Reads (some n) = map_err-Reads _ _ (Same-Reads _ (reading.by_max_quantity n))

    get_inventories-Reads :
        (q : Option InventoryQueryParams) → Reads Same (Endpoints.get_inventories env lists q)
    unfolding Endpoints.get_inventories
    get_inventories-Reads q = bind-Reads Same-trans (decoded-Reads q) λ params.
        bind-Reads Same-trans (map_err-Reads _ _ (inventories_for-Reads params.max_quantity))
          λ vs. Same-Reads _ Same-refl

    module _ (publish : Publish) where
      route-Guarded : (c : Call) → Guarded Same IsClients (route env publish lists c)
      unfolding route Endpoints.add_book Endpoints.set_shipping_address Endpoints.confirm_order
          Endpoints.cancel_order Endpoints.mark_order_as_shipped Endpoints.mark_order_as_delivered
          Endpoints.create_inventory Service.create_inventory
      route-Guarded (post_orders r) = as_reply-Guarded _ (Late-Guarded (create_order-Clean r))
      route-Guarded (post_books i r) = status-Guarded _ _ (add_book_to_order-Guarded env i _ _ _)
      route-Guarded (put_shipping_address i r) =
          status-Guarded _ _ (set_shipping_address-Guarded env i _ _ _ _ _)
      route-Guarded (post_confirm i) = status-Guarded _ _ (confirm_order-Guarded env publish i)
      route-Guarded (post_cancel i) = status-Guarded _ _ (cancel_order-Guarded env publish i)
      route-Guarded (post_ship i) = status-Guarded _ _ (mark_order_as_shipped-Guarded env publish i)
      route-Guarded (post_deliver i) =
          status-Guarded _ _ (mark_order_as_delivered-Guarded env publish i)
      route-Guarded (post_inventory r) =
          status-Guarded _ _ (Late-Guarded (map_err-Late _ (save_inventory env _) λ e x. x))
      route-Guarded (get_order_list q) = Reads-Guarded (as_reply-Reads _ (get_orders-Reads q))
      route-Guarded (get_order i) = Reads-Guarded (as_reply-Reads _ (get_order-Reads i))
      route-Guarded (get_inventory_list q) =
          Reads-Guarded (as_reply-Reads _ (get_inventories-Reads q))
      route-Guarded (get_inventory i) = Reads-Guarded (as_reply-Reads _ (get_inventory-Reads i))
      route-Guarded get_health = Reads-Guarded (Same-Reads _ Same-refl)

      -- Whatever the bus does, a request that is answered with a client error, 400 or 404, has
      -- left the orders, the stock, the trackers, the dead letters and the log as they were, if
      -- the list queries of the repositories do.
      pub refused-Same :
          (c : Call) (w w' : World) (r : Refusal)
          → route env publish lists c w ≡ (err r, w')
          → IsClientError r.status
          → Same w w'
      refused-Same c w w' r h x =
          subst (Same w) (ap (λ p. p.1) h) ((route-Guarded c).guards w r (ap (λ p. p.0) h) x)
