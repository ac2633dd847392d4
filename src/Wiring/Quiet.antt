-- ===== src/Wiring/Quiet.antt =====
-- The events on which the bus of main.rs leaves the stock alone.
use ddd_samples.Prelude.{ℕ, zero, suc, ◌≡◌, refl, All}
use ddd_samples.Prelude.Ensures.{Keeps, raise-Ensures, panics-Ensures, ◌⨟◌}
use ddd_samples.Value.{BookId}
use ddd_samples.Inventory.{Inventory}
use ddd_samples.Prelude.{Option}
use ddd_samples.World.{
  World, Env, OrderCancelled, InventoryReservationFailed, order_cancelled,
  inventory_reservation_failed,
}
use ddd_samples.Bus.{default_config}
use ddd_samples.Handler.Common.{Publish}
use ddd_samples.Handler.Notification
use ddd_samples.Handler.Compensation.Restoring.{handle-Keeps}
use ddd_samples.Handler.Reservation.Stock.{Quiet, same_stock}
use ddd_samples.Wiring.{subscriptions, event_bus}
use ddd_samples.Soundness.Interface.{log-Keeps}
use ddd_samples.Soundness.Wrapped.{SoundOn}
use ddd_samples.Soundness.Delivery.{TimeoutKeeps, publish-Keeps}

-- A timeout leaves the stock alone if the handler does.
abbrev pub TimeoutQuiet : Env → Type 0
TimeoutQuiet env = (s : BookId → Option Inventory) → TimeoutKeeps (λ w. w.stock ≡ s) env

module _ (env : Env) (timed : TimeoutQuiet env) (s : BookId → Option Inventory) where
  abbrev Same : World → Type 0
  Same w = w.stock ≡ s

  notify-Keeps : (c : OrderCancelled) → Keeps Same (Notification.handle_cancelled env c)
  unfolding Notification.handle_cancelled Notification.send_notification
  notify-Keeps c =
      let n = same_stock s in
      log-Keeps n env _ _ _ _
      ⨟ (log-Keeps n env _ _ _ _ ⨟ log-Keeps n env _ _ _ _)
      ⨟ log-Keeps n env _ _ _ _

  cancelled-SoundOn :
      (publish : Publish) (c : OrderCancelled)
      → All (SoundOn Same (order_cancelled c)) (subscriptions env publish)
  unfolding subscriptions
  cancelled-SoundOn publish c = (
    raise-Ensures,
    (
      raise-Ensures,
      (
        raise-Ensures,
        (
          raise-Ensures,
          (
            notify-Keeps c,
            (
              raise-Ensures,
              (
                raise-Ensures,
                (
                  raise-Ensures,
                  (raise-Ensures, (raise-Ensures, (raise-Ensures, (raise-Ensures, tt)))),
                ),
              ),
            ),
          ),
        ),
      ),
    ),
  )

  cancelled-Keeps :
      (depth : ℕ) (c : OrderCancelled) → Keeps Same (event_bus env depth (order_cancelled c))
  unfolding event_bus
  cancelled-Keeps zero c = panics-Ensures
  cancelled-Keeps (suc depth) c =
      publish-Keeps (same_stock s) env (timed s) default_config _ (order_cancelled c)
        (cancelled-SoundOn (λ e. event_bus env depth e) c)

module _ (env : Env) (timed : TimeoutQuiet env) where
  cancelled-Quiet : (depth : ℕ) → Quiet order_cancelled (λ e. event_bus env depth e)
  cancelled-Quiet depth c w = ((cancelled-Keeps env timed w.stock depth c).keeps w refl).0

  failed-SoundOn :
      (s : BookId → Option Inventory) (depth : ℕ) (f : InventoryReservationFailed)
      → All
          (SoundOn (λ w. w.stock ≡ s) (inventory_reservation_failed f))
          (subscriptions env (λ e. event_bus env depth e))
  unfolding subscriptions
  failed-SoundOn s depth f = (
    raise-Ensures,
    (
      raise-Ensures,
      (
        raise-Ensures,
        (
          raise-Ensures,
          (
            raise-Ensures,
            (
              raise-Ensures,
              (
                raise-Ensures,
                (
                  handle-Keeps env (λ e. event_bus env depth e) (cancelled-Quiet depth) s f,
                  (raise-Ensures, (raise-Ensures, (raise-Ensures, (raise-Ensures, tt)))),
                ),
              ),
            ),
          ),
        ),
      ),
    ),
  )

  failed-Keeps :
      (s : BookId → Option Inventory) (depth : ℕ) (f : InventoryReservationFailed)
      → Keeps (λ w. w.stock ≡ s) (event_bus env depth (inventory_reservation_failed f))
  unfolding event_bus
  failed-Keeps s zero f = panics-Ensures
  failed-Keeps s (suc depth) f =
      publish-Keeps (same_stock s) env (timed s) default_config _ (inventory_reservation_failed f)
        (failed-SoundOn s depth f)

-- On an `InventoryReservationFailed` event the bus of main.rs, with all that its handlers publish
-- in turn to any depth, leaves the stock as it was, if a timeout leaves the stock as it was of a
-- handler that does.
pub failed-stock :
    (env : Env) (depth : ℕ) (f : InventoryReservationFailed) (w : World)
    → TimeoutQuiet env
    → (event_bus env depth (inventory_reservation_failed f) w).1.stock ≡ w.stock
failed-stock env depth f w timed = ((failed-Keeps env timed w.stock depth f).keeps w refl).0
