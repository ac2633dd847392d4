-- ===== src/Wiring/Registration.antt =====
-- The registrations of main.rs, and the list of handlers that they leave.
use ddd_samples.Prelude.{⊤, ◌≡◌, List, ◌++◌, append_assoc}
use ddd_samples.Prelude.Action.{ok, Action, ◌>>=◌, ◌>>◌}
use ddd_samples.Error.{EventBusError}
use ddd_samples.World.{Env}
use ddd_samples.Handler.Common.{Publish}
use ddd_samples.Handler
use ddd_samples.Bus.Wrappers.{DynEventHandler}
use ddd_samples.Bus.Subscribing.{
  subscribe_order_confirmed, subscribe_order_cancelled, subscribe_order_shipped,
  subscribe_order_delivered, subscribe_inventory_reservation_failed, subscribe_shipping_failed,
  subscribe_delivery_failed, subscribe_saga_compensation_started,
  subscribe_saga_compensation_completed,
}
use ddd_samples.Wiring.{subscriptions}

module _ (env : Env) (publish : Publish) where
  -- The calls of main.rs from line 105 on, in their order.
  unfoldable pub register : Action (List DynEventHandler) EventBusError ⊤
  register = do
    subscribe_order_confirmed (Handler.Reservation.handle env publish)
    subscribe_order_confirmed (Handler.Notification.handle_confirmed env)
    subscribe_order_shipped (Handler.Notification.handle_shipped env)
    subscribe_order_delivered (Handler.Notification.handle_delivered env)
    subscribe_order_cancelled (Handler.Notification.handle_cancelled env)
    subscribe_order_confirmed (Handler.Verifier.handle_confirmed env)
    subscribe_order_delivered (Handler.Verifier.handle_delivered env)
    subscribe_inventory_reservation_failed
        (Handler.Compensation.handle_reservation_failed env publish)
    subscribe_shipping_failed (Handler.Compensation.handle_shipping_failed env publish)
    subscribe_delivery_failed (Handler.Compensation.handle_delivery_failed env publish)
    subscribe_saga_compensation_started Handler.Compensation.handle_compensation_started
    subscribe_saga_compensation_completed Handler.Compensation.handle_compensation_completed

  -- The registrations never fail, and put the handlers of the bus of main.rs behind those that
  -- are there, in the order of the calls.
  register-subscriptions :
      (handlers : List DynEventHandler)
      → register handlers ≡ (ok tt, handlers ++ subscriptions env publish)
  unfolding register subscriptions ◌>>=◌ subscribe_order_confirmed subscribe_order_cancelled
      subscribe_order_shipped subscribe_order_delivered subscribe_inventory_reservation_failed
      subscribe_shipping_failed subscribe_delivery_failed subscribe_saga_compensation_started
      subscribe_saga_compensation_completed
  register-subscriptions handlers = simp (append_assoc)
