-- ===== src/Soundness/Handlers.antt =====
-- The reservation, shipping and delivery handlers keep every invariant that the bus they publish
-- on keeps.
use ddd_samples.Prelude.{ℕ, ⊤, Option, none, some, List, [], ◌∷◌, arith, not}
use ddd_samples.Prelude.Words.{IsU32}
use ddd_samples.Prelude.Action.{Outcome, ok, err, panic}
use ddd_samples.Prelude.Ensures.{
  Keeps, bind-Ensures, if-Ensures, or_panic-Ensures, panics-Ensures, pure-Ensures, raise-Ensures,
  map_err-Ensures, ◌⨟◌,
}
use ddd_samples.Error.{DomainError}
use ddd_samples.Value.{BookId}
use ddd_samples.Value.OrderLine.{OrderLine}
use ddd_samples.Value.OrderStatus.{confirmed, shipped, eq_status}
use ddd_samples.Order.{Order, mark_as_shipped, mark_as_delivered}
use ddd_samples.Order.Invariant.{IsValid, run_op, run_op-IsValid, ship_op, deliver_op}
use ddd_samples.Inventory
use ddd_samples.Inventory.{Inventory}
use ddd_samples.World.{World, Env, DomainEvent, OrderConfirmed, InventoryReserved, OrderShipped}
use ddd_samples.Handler.Common.{Publish}
use ddd_samples.Handler.Reservation
use ddd_samples.Handler.Shipping
use ddd_samples.Handler.Delivery
use ddd_samples.Soundness.Interface.{
  Invariant, IsRow, find_order-Ensures, find_by_book_id-Ensures, save_order-Keeps,
  save_inventory-Keeps, log-Keeps, is_processed-Keeps, mark_processed-Keeps,
}
use ddd_samples.Soundness.Events.{
  correlated_inventory_reserved-Keeps, correlated_inventory_reservation_failed-Keeps,
  correlated_order_shipped-Keeps, correlated_shipping_failed-Keeps,
  correlated_order_delivered-Keeps, correlated_delivery_failed-Keeps,
}

module _ {P : World → Type 0} (inv : Invariant P) (env : Env) (publish : Publish)
    (keep : (e : DomainEvent) → Keeps P (publish e)) where
  reservation_failure-Keeps :
      (e : OrderConfirmed) (d : DomainError)
      → Keeps P (Reservation.reservation_failure env publish e d)
  unfolding Reservation.reservation_failure
  reservation_failure-Keeps e d =
      bind-Ensures (correlated_inventory_reservation_failed-Keeps inv.neutral env _ _ _ _ _) λ f _.
        map_err-Ensures _ _ (keep _)
        ⨟ log-Keeps inv.neutral env _ _ _ _
        ⨟ mark_processed-Keeps inv.neutral env _ _
        ⨟ raise-Ensures

  reserve-row :
      (q : ℕ) (b : BookId) (f : Option Inventory)
      → IsRow f
      → IsU32 (Inventory.reserve env.profile q (Reservation.or_empty b f)).1.quantity_on_hand
  unfolding Inventory.reserve
  reserve-row q b none h = ground arith
  reserve-row q b (some v) h = ground arith

  reserve_settle-Keeps :
      (e : OrderConfirmed) (r : Outcome DomainError ⊤ × Inventory)
      → IsU32 r.1.quantity_on_hand
      → Keeps P (Reservation.settle env publish e r)
  reserve_settle-Keeps e (ok _, v) u = map_err-Ensures _ _ (save_inventory-Keeps inv env v u)
  reserve_settle-Keeps e (err d, v) u = reservation_failure-Keeps e d
  reserve_settle-Keeps e (panic, v) u = panics-Ensures

  pub reserve_lines-Keeps :
      (e : OrderConfirmed) (ls : List OrderLine)
      → Keeps P (Reservation.reserve_lines env publish e ls)
  unfolding Reservation.reserve_lines Reservation.reserve_line
  reserve_lines-Keeps e [] = pure-Ensures tt
  reserve_lines-Keeps e (l ∷ ls) =
      bind-Ensures (map_err-Ensures _ _ (find_by_book_id-Ensures inv env l.book_id))
        (λ f h. reserve_settle-Keeps e _ (reserve-row l.quantity l.book_id f h))
      ⨟ reserve_lines-Keeps e ls

  reserve_order-Keeps : (e : OrderConfirmed) → Keeps P (Reservation.reserve_order env publish e)
  unfolding Reservation.reserve_order
  reserve_order-Keeps e =
      reserve_lines-Keeps e e.order_lines
      ⨟ bind-Ensures (correlated_inventory_reserved-Keeps inv.neutral env _ _ _) λ r _.
        map_err-Ensures _ _ (keep _)
        ⨟ mark_processed-Keeps inv.neutral env _ _
        ⨟ log-Keeps inv.neutral env _ _ _ _

  reserve_fresh-Keeps : (e : OrderConfirmed) → Keeps P (Reservation.reserve_fresh env publish e)
  unfolding Reservation.reserve_fresh
  reserve_fresh-Keeps e = bind-Ensures (find_order-Ensures inv env e.order_id) λ o _.
      if-Ensures (not (eq_status o.status confirmed))
        (λ _. log-Keeps inv.neutral env _ _ _ _ ⨟ mark_processed-Keeps inv.neutral env _ _)
        (λ _. reserve_order-Keeps e)

  pub reservation-Keeps : (e : OrderConfirmed) → Keeps P (Reservation.handle env publish e)
  unfolding Reservation.handle
  reservation-Keeps e =
      log-Keeps inv.neutral env _ _ _ _
      ⨟ bind-Ensures (is_processed-Keeps inv.neutral env _ _) λ seen _.
        if-Ensures seen (λ _. log-Keeps inv.neutral env _ _ _ _) (λ _. reserve_fresh-Keeps e)

  shipping_failure-Keeps :
      (e : InventoryReserved) (d : DomainError)
      → Keeps P (Shipping.shipping_failure env publish e d)
  unfolding Shipping.shipping_failure
  shipping_failure-Keeps e d =
      bind-Ensures (correlated_shipping_failed-Keeps inv.neutral env _ _ _ _) λ f _.
        map_err-Ensures _ _ (keep _)
        ⨟ log-Keeps inv.neutral env _ _ _ _
        ⨟ mark_processed-Keeps inv.neutral env _ _
        ⨟ raise-Ensures

  ship_settle-Keeps :
      (e : InventoryReserved) (r : Outcome DomainError ⊤ × Order)
      → IsValid r.1
      → Keeps P (Shipping.settle env publish e r)
  ship_settle-Keeps e (ok _, o) v =
      map_err-Ensures _ _ (save_order-Keeps inv env o v)
      ⨟ bind-Ensures (or_panic-Ensures o.shipping_address (λ a h. tt)) λ a _.
        bind-Ensures (correlated_order_shipped-Keeps inv.neutral env _ _ _)
          λ s _. map_err-Ensures _ _ (keep _)
  ship_settle-Keeps e (err d, o) v = shipping_failure-Keeps e d
  ship_settle-Keeps e (panic, o) v = panics-Ensures

  ship_fresh-Keeps : (e : InventoryReserved) → Keeps P (Shipping.ship_fresh env publish e)
  unfolding Shipping.ship_fresh Shipping.ship_order run_op
  ship_fresh-Keeps e = bind-Ensures (find_order-Ensures inv env e.order_id) λ o v.
      if-Ensures (not (eq_status o.status confirmed))
        (λ _. log-Keeps inv.neutral env _ _ _ _ ⨟ mark_processed-Keeps inv.neutral env _ _)
        λ _.
          ship_settle-Keeps e (mark_as_shipped o) (run_op-IsValid ship_op o tt v)
          ⨟ mark_processed-Keeps inv.neutral env _ _
          ⨟ log-Keeps inv.neutral env _ _ _ _

  pub shipping-Keeps : (e : InventoryReserved) → Keeps P (Shipping.handle env publish e)
  unfolding Shipping.handle
  shipping-Keeps e =
      log-Keeps inv.neutral env _ _ _ _
      ⨟ bind-Ensures (is_processed-Keeps inv.neutral env _ _) λ seen _.
        if-Ensures seen (λ _. log-Keeps inv.neutral env _ _ _ _) (λ _. ship_fresh-Keeps e)

  delivery_failure-Keeps :
      (e : OrderShipped) (d : DomainError) → Keeps P (Delivery.delivery_failure env publish e d)
  unfolding Delivery.delivery_failure
  delivery_failure-Keeps e d =
      bind-Ensures (correlated_delivery_failed-Keeps inv.neutral env _ _ _ _) λ f _.
        map_err-Ensures _ _ (keep _)
        ⨟ log-Keeps inv.neutral env _ _ _ _
        ⨟ mark_processed-Keeps inv.neutral env _ _
        ⨟ raise-Ensures

  deliver_settle-Keeps :
      (e : OrderShipped) (r : Outcome DomainError ⊤ × Order)
      → IsValid r.1
      → Keeps P (Delivery.settle env publish e r)
  deliver_settle-Keeps e (ok _, o) v =
      map_err-Ensures _ _ (save_order-Keeps inv env o v)
      ⨟ bind-Ensures (correlated_order_delivered-Keeps inv.neutral env _ _)
          λ d _. map_err-Ensures _ _ (keep _)
  deliver_settle-Keeps e (err d, o) v = delivery_failure-Keeps e d
  deliver_settle-Keeps e (panic, o) v = panics-Ensures

  deliver_fresh-Keeps : (e : OrderShipped) → Keeps P (Delivery.deliver_fresh env publish e)
  unfolding Delivery.deliver_fresh Delivery.deliver_order run_op
  deliver_fresh-Keeps e = bind-Ensures (find_order-Ensures inv env e.order_id) λ o v.
      if-Ensures (not (eq_status o.status shipped))
        (λ _. log-Keeps inv.neutral env _ _ _ _ ⨟ mark_processed-Keeps inv.neutral env _ _)
        λ _.
          deliver_settle-Keeps e (mark_as_delivered o) (run_op-IsValid deliver_op o tt v)
          ⨟ mark_processed-Keeps inv.neutral env _ _
          ⨟ log-Keeps inv.neutral env _ _ _ _

  pub delivery-Keeps : (e : OrderShipped) → Keeps P (Delivery.handle env publish e)
  unfolding Delivery.handle
  delivery-Keeps e =
      log-Keeps inv.neutral env _ _ _ _
      ⨟ bind-Ensures (is_processed-Keeps inv.neutral env _ _) λ seen _.
        if-Ensures seen (λ _. log-Keeps inv.neutral env _ _ _ _) (λ _. deliver_fresh-Keeps e)
