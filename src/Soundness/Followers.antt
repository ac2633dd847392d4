-- ===== src/Soundness/Followers.antt =====
-- The compensation handlers, the notifications and the verifier keep every invariant that the bus
-- they publish on keeps.
use ddd_samples.Prelude.{ℕ, String, Option, none, some, List, [], ◌∷◌, arith, ◌||◌}
use ddd_samples.Prelude.Words.{Profile, IsU32}
use ddd_samples.Prelude.Ensures.{
  Keeps, bind-Ensures, if-Ensures, pure-Ensures, map_err-Ensures, on-Ensures, ◌⨟◌,
}
use ddd_samples.Value.{OrderId, Uuid}
use ddd_samples.Value.OrderStatus.{confirmed, shipped, eq_status}
use ddd_samples.Value.OrderLine.{OrderLine}
use ddd_samples.Order.{Order, cancel}
use ddd_samples.Order.Invariant.{IsValid, run_op, run_op-IsValid, cancel_op}
use ddd_samples.Inventory
use ddd_samples.Inventory.{Inventory}
use ddd_samples.World.{
  World, Env, DomainEvent, OrderConfirmed, OrderShipped, OrderDelivered, OrderCancelled,
  InventoryReservationFailed, ShippingFailed, DeliveryFailed, SagaCompensationStarted,
  SagaCompensationCompleted,
}
use ddd_samples.Handler.Common.{Publish}
use ddd_samples.Handler.Compensation
use ddd_samples.Handler.Notification
use ddd_samples.Handler.Verifier
use ddd_samples.Soundness.Interface.{
  Invariant, IsRow, find_order-Ensures, find_by_book_id-Ensures, save_order-Keeps,
  save_inventory-Keeps, log-Keeps,
}
use ddd_samples.Soundness.Events.{
  correlated_order_cancelled-Keeps, correlated_inventory_released-Keeps,
}

cancel-IsValid : (o : Order) → IsValid o → IsValid (cancel o).1
unfolding run_op
cancel-IsValid o v = run_op-IsValid cancel_op o tt v

-- Whatever the build, `release` leaves a `u32`.
release-IsU32 :
    (p : Profile) (q : ℕ) (v : Inventory)
    → IsU32 v.quantity_on_hand
    → IsU32 (Inventory.release p q v).1.quantity_on_hand
unfolding Inventory.release
release-IsU32 p q v u = ground arith

module _ {P : World → Type 0} (inv : Invariant P) (env : Env) (publish : Publish)
    (keep : (e : DomainEvent) → Keeps P (publish e)) where
  pub reservation_failed-Keeps :
      (e : InventoryReservationFailed)
      → Keeps P (Compensation.handle_reservation_failed env publish e)
  unfolding Compensation.handle_reservation_failed
  reservation_failed-Keeps e =
      log-Keeps inv.neutral env _ _ _ _
      ⨟ bind-Ensures (find_order-Ensures inv env e.order_id) λ o v.
        bind-Ensures
          (map_err-Ensures {Q = λ r. IsValid r.1} _ _
            (on-Ensures cancel o λ a h. cancel-IsValid o v))
          λ r v'.
            map_err-Ensures _ _ (save_order-Keeps inv env r.1 v')
            ⨟ bind-Ensures (correlated_order_cancelled-Keeps inv.neutral env _ _ _ _)
                λ c _. map_err-Ensures _ _ (keep _) ⨟ log-Keeps inv.neutral env _ _ _ _

  release_found-Keeps :
      (e : ShippingFailed) (l : OrderLine) (f : Option Inventory)
      → IsRow f
      → Keeps P (Compensation.release_found env publish e l f)
  release_found-Keeps e l none h = log-Keeps inv.neutral env _ _ _ _
  release_found-Keeps e l (some v) h =
      bind-Ensures
        (map_err-Ensures {Q = λ r. IsU32 r.1.quantity_on_hand} _ _ (
          on-Ensures (Inventory.release env.profile l.quantity) v
            λ a k. release-IsU32 env.profile l.quantity v h))
        λ r u. map_err-Ensures _ _ (save_inventory-Keeps inv env r.1 u)

  release_lines-Keeps :
      (e : ShippingFailed) (ls : List OrderLine)
      → Keeps P (Compensation.release_lines env publish e ls)
  unfolding Compensation.release_lines Compensation.release_line
  release_lines-Keeps e [] = pure-Ensures tt
  release_lines-Keeps e (l ∷ ls) =
      bind-Ensures (map_err-Ensures _ _ (find_by_book_id-Ensures inv env l.book_id))
        (λ f h. release_found-Keeps e l f h)
      ⨟ release_lines-Keeps e ls

  pub shipping_failed-Keeps :
      (e : ShippingFailed) → Keeps P (Compensation.handle_shipping_failed env publish e)
  unfolding Compensation.handle_shipping_failed
  shipping_failed-Keeps e =
      log-Keeps inv.neutral env _ _ _ _
      ⨟ bind-Ensures (find_order-Ensures inv env e.order_id) λ o _.
        release_lines-Keeps e o.order_lines
        ⨟ bind-Ensures (correlated_inventory_released-Keeps inv.neutral env _ _ _)
            λ r _. map_err-Ensures _ _ (keep _) ⨟ log-Keeps inv.neutral env _ _ _ _

  pub delivery_failed-Keeps :
      (e : DeliveryFailed) → Keeps P (Compensation.handle_delivery_failed env publish e)
  unfolding Compensation.handle_delivery_failed
  delivery_failed-Keeps e =
      log-Keeps inv.neutral env _ _ _ _
      ⨟ bind-Ensures (find_order-Ensures inv env e.order_id)
          λ o _. log-Keeps inv.neutral env _ _ _ _

module _ {P : World → Type 0} (inv : Invariant P) (env : Env) where
  send-Keeps : (m : String) (i : Uuid) → Keeps P (Notification.send_notification m i)
  unfolding Notification.send_notification
  send-Keeps m i = log-Keeps inv.neutral env _ _ _ _ ⨟ log-Keeps inv.neutral env _ _ _ _

  pub notify_confirmed-Keeps : (e : OrderConfirmed) → Keeps P (Notification.handle_confirmed env e)
  unfolding Notification.handle_confirmed
  notify_confirmed-Keeps e =
      log-Keeps inv.neutral env _ _ _ _
      ⨟ send-Keeps _ e.metadata.correlation_id
      ⨟ log-Keeps inv.neutral env _ _ _ _

  pub notify_shipped-Keeps : (e : OrderShipped) → Keeps P (Notification.handle_shipped env e)
  unfolding Notification.handle_shipped
  notify_shipped-Keeps e =
      log-Keeps inv.neutral env _ _ _ _
      ⨟ send-Keeps _ e.metadata.correlation_id
      ⨟ log-Keeps inv.neutral env _ _ _ _

  pub notify_delivered-Keeps : (e : OrderDelivered) → Keeps P (Notification.handle_delivered env e)
  unfolding Notification.handle_delivered
  notify_delivered-Keeps e =
      log-Keeps inv.neutral env _ _ _ _
      ⨟ send-Keeps _ e.metadata.correlation_id
      ⨟ log-Keeps inv.neutral env _ _ _ _

  pub notify_cancelled-Keeps : (e : OrderCancelled) → Keeps P (Notification.handle_cancelled env e)
  unfolding Notification.handle_cancelled
  notify_cancelled-Keeps e =
      log-Keeps inv.neutral env _ _ _ _
      ⨟ send-Keeps _ e.metadata.correlation_id
      ⨟ log-Keeps inv.neutral env _ _ _ _

  verify_lines-Keeps : (ls : List OrderLine) → Keeps P (Verifier.verify_lines env ls)
  unfolding Verifier.verify_lines
  verify_lines-Keeps [] = pure-Ensures tt
  verify_lines-Keeps (l ∷ ls) =
      bind-Ensures (map_err-Ensures _ _ (find_by_book_id-Ensures inv env l.book_id))
        λ f _. verify_lines-Keeps ls

  verify-Keeps : (i : OrderId) → Keeps P (Verifier.verify env i)
  unfolding Verifier.verify
  verify-Keeps i = bind-Ensures (find_order-Ensures inv env i) λ o _.
      if-Ensures (eq_status o.status confirmed || eq_status o.status shipped)
        (λ _. verify_lines-Keeps o.order_lines) (λ _. pure-Ensures tt)

  pub verify_confirmed-Keeps : (e : OrderConfirmed) → Keeps P (Verifier.handle_confirmed env e)
  unfolding Verifier.handle_confirmed
  verify_confirmed-Keeps e =
      log-Keeps inv.neutral env _ _ _ _
      ⨟ verify-Keeps e.order_id
      ⨟ log-Keeps inv.neutral env _ _ _ _

  pub verify_delivered-Keeps : (e : OrderDelivered) → Keeps P (Verifier.handle_delivered env e)
  unfolding Verifier.handle_delivered
  verify_delivered-Keeps e =
      log-Keeps inv.neutral env _ _ _ _
      ⨟ verify-Keeps e.order_id
      ⨟ log-Keeps inv.neutral env _ _ _ _

  pub compensation_started-Keeps :
      (e : SagaCompensationStarted) → Keeps P (Compensation.handle_compensation_started e)
  unfolding Compensation.handle_compensation_started
  compensation_started-Keeps e = log-Keeps inv.neutral env _ _ _ _

  pub compensation_completed-Keeps :
      (e : SagaCompensationCompleted) → Keeps P (Compensation.handle_compensation_completed e)
  unfolding Compensation.handle_compensation_completed
  compensation_completed-Keeps e = log-Keeps inv.neutral env _ _ _ _
