-- ===== src/Wiring/Shadowing.antt =====
-- Which of the subscriptions of main.rs are ever called. The bus finds a handler by its name, and
-- the wrappers of one kind of event all bear the same name.
use ddd_samples.Prelude.{⊤, ◌≡◌, refl, [], ◌∷◌}
use ddd_samples.Prelude.Action.{Action}
use ddd_samples.Error.{HandlerError}
use ddd_samples.World.{World, Env, OrderConfirmed, OrderDelivered, order_confirmed, order_delivered}
use ddd_samples.Handler.Common.{Publish}
use ddd_samples.Handler.Reservation
use ddd_samples.Handler.Notification
use ddd_samples.Bus
use ddd_samples.Bus.{EventBusConfig}
use ddd_samples.Bus.Wrappers.{order_confirmed_wrapper, order_delivered_wrapper}
use ddd_samples.Wiring.{subscriptions}

-- The notification of a confirmed order and its verification never run: on an `OrderConfirmed`
-- event the bus of main.rs does what it would do with any two handlers in their places.
pub confirmed-shadowed :
    (env : Env) (config : EventBusConfig) (publish : Publish)
    (f g : OrderConfirmed → Action World HandlerError ⊤) (e : OrderConfirmed) (w : World)
    → Bus.publish env config (subscriptions env publish) (order_confirmed e) w
      ≡ Bus.publish env config
          (order_confirmed_wrapper (Reservation.handle env publish)
            ∷ order_confirmed_wrapper f
            ∷ order_confirmed_wrapper g
            ∷ [])
          (order_confirmed e)
          w
unfolding Bus.publish Bus.deliver_all Bus.deliver Bus.execute_handler_by_name subscriptions
confirmed-shadowed env config publish f g e w = refl

-- The verification of a delivered order never runs: on an `OrderDelivered` event the bus of
-- main.rs does what it would do with any handler in its place.
pub delivered-shadowed :
    (env : Env) (config : EventBusConfig) (publish : Publish)
    (f : OrderDelivered → Action World HandlerError ⊤) (e : OrderDelivered) (w : World)
    → Bus.publish env config (subscriptions env publish) (order_delivered e) w
      ≡ Bus.publish env config
          (order_delivered_wrapper (Notification.handle_delivered env)
            ∷ order_delivered_wrapper f
            ∷ [])
          (order_delivered e)
          w
unfolding Bus.publish Bus.deliver_all Bus.deliver Bus.execute_handler_by_name subscriptions
delivered-shadowed env config publish f e w = refl
