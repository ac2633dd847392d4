-- ===== src/Wiring.antt =====
-- The bus as main.rs sets it up. Handlers publish on the bus that calls them, so a `publish` may
-- run inside another; `depth` bounds how deep.
pub mod Shadowing
pub mod Quiet
pub mod Registration
use ddd_samples.Prelude.{ℕ, zero, suc, ⊤, List, [], ◌∷◌}
use ddd_samples.Prelude.Action.{Action, panics}
use ddd_samples.Error.{HandlerError}
use ddd_samples.World.{World, Env, OrderConfirmed, OrderShipped, OrderDelivered, OrderCancelled}
use ddd_samples.Handler.Common.{Publish}
use ddd_samples.Handler
use ddd_samples.Bus
use ddd_samples.Bus.{EventBusConfig, default_config}
use ddd_samples.Bus.Wrappers.{
  DynEventHandler, order_confirmed_wrapper, order_cancelled_wrapper, order_shipped_wrapper,
  order_delivered_wrapper, inventory_reservation_failed_wrapper, shipping_failed_wrapper,
  delivery_failed_wrapper, saga_compensation_started_wrapper, saga_compensation_completed_wrapper,
}

-- The `subscribe_…` calls of main.rs, in order.
unfoldable pub subscriptions : Env → Publish → List DynEventHandler
subscriptions env publish =
    order_confirmed_wrapper (Handler.Reservation.handle env publish)
    ∷ order_confirmed_wrapper (Handler.Notification.handle_confirmed env)
    ∷ order_shipped_wrapper (Handler.Notification.handle_shipped env)
    ∷ order_delivered_wrapper (Handler.Notification.handle_delivered env)
    ∷ order_cancelled_wrapper (Handler.Notification.handle_cancelled env)
    ∷ order_confirmed_wrapper (Handler.Verifier.handle_confirmed env)
    ∷ order_delivered_wrapper (Handler.Verifier.handle_delivered env)
    ∷ inventory_reservation_failed_wrapper
        (Handler.Compensation.handle_reservation_failed env publish)
    ∷ shipping_failed_wrapper (Handler.Compensation.handle_shipping_failed env publish)
    ∷ delivery_failed_wrapper (Handler.Compensation.handle_delivery_failed env publish)
    ∷ saga_compensation_started_wrapper Handler.Compensation.handle_compensation_started
    ∷ saga_compensation_completed_wrapper Handler.Compensation.handle_compensation_completed
    ∷ []

-- The event bus, to a nesting of `depth` publications; deeper ones are cut off by a panic.
unfoldable pub event_bus : Env → ℕ → Publish
event_bus env zero event = panics
event_bus env (suc depth) event =
    Bus.publish env default_config (subscriptions env (λ e. event_bus env depth e)) event
