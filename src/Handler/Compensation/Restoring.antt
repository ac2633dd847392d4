-- ===== src/Handler/Compensation/Restoring.antt =====
-- The handler of a failed reservation and the stock.
use ddd_samples.Prelude.{◌≡◌, ◌∙◌, Option}
use ddd_samples.Prelude.Ensures.{
  Keeps, from_state-Keeps, bind-Ensures, map_err-Ensures, or_raise-Ensures, modify-Ensures, ◌⨟◌,
}
use ddd_samples.Value.{BookId, OrderId}
use ddd_samples.Order.{Order}
use ddd_samples.Inventory.{Inventory}
use ddd_samples.World.{World, Env, InventoryReservationFailed, OrderCancelled, order_cancelled}
use ddd_samples.Port.{find_by_id, save_order}
use ddd_samples.Handler.Common.{Publish, find_order}
use ddd_samples.Handler.Compensation.{handle_reservation_failed}
use ddd_samples.Handler.Reservation.Stock.{Quiet, same_stock}
use ddd_samples.Soundness.Interface.{log-Keeps, call-Keeps}
use ddd_samples.Soundness.Events.{correlated_order_cancelled-Keeps}

module _ (env : Env) (publish : Publish) (quiet : Quiet order_cancelled publish)
    (s : BookId → Option Inventory) where
  abbrev Same : World → Type 0
  Same w = w.stock ≡ s

  find_order-Keeps : (i : OrderId) → Keeps Same (find_order env i)
  unfolding find_order find_by_id
  find_order-Keeps i =
      bind-Ensures
        (map_err-Ensures _ _
          (bind-Ensures (call-Keeps (same_stock s) env) λ _ _. from_state-Keeps λ w p. p))
        λ f _. or_raise-Ensures f _ λ o h. tt

  save_order-Keeps : (o : Order) → Keeps Same (save_order env o)
  unfolding save_order
  save_order-Keeps o = bind-Ensures (call-Keeps (same_stock s) env) λ _ _. modify-Ensures λ w p. p

  pub handle-Keeps :
      (e : InventoryReservationFailed) → Keeps Same (handle_reservation_failed env publish e)
  unfolding handle_reservation_failed
  handle-Keeps e =
      let neutral = same_stock s in
      log-Keeps neutral env _ _ _ _
      ⨟ bind-Ensures (find_order-Keeps e.order_id) λ o _.
        bind-Ensures (map_err-Ensures _ _ (from_state-Keeps λ w p. p)) λ r _.
          map_err-Ensures _ _ (save_order-Keeps r.1)
          ⨟ bind-Ensures (correlated_order_cancelled-Keeps neutral env _ _ _ _)
              λ c _. map_err-Ensures _ _ (published _) ⨟ log-Keeps neutral env _ _ _ _
    where
      published : (x : OrderCancelled) → Keeps Same (publish (order_cancelled x))
      published x = from_state-Keeps λ w p. quiet x w ∙ p
