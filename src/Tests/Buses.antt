-- ===== src/Tests/Buses.antt =====
-- The theorems on the bus and its subscriptions at concrete inputs.
use ddd_samples.Prelude.{◌≤◌, ⊤, ◌+++◌, ◌≡◌, refl, List, [], ◌∷◌, ◌++◌, length, arith}
use ddd_samples.Prelude.Action.{ok, err, ◌>>=◌, raise, pure}
use ddd_samples.Error.{HandlerError, EventBusError, transient_error}
use ddd_samples.Value.OrderStatus.{confirmed, shipped}
use ddd_samples.World.{DeadLetterEntry, OrderDelivered, order_confirmed, order_delivered}
use ddd_samples.Bus
use ddd_samples.Bus.{
  EventBusConfig, default_config, publish, add_to_dead_letter_queue, execute_handler_with_retry,
  validate_event_serialization,
}
use ddd_samples.Bus.Wrappers.{order_confirmed_wrapper, order_delivered_wrapper}
use ddd_samples.Bus.DeadLetters.{letter, Room, add_to_dead_letter_queue_lem, publish-eq-err}
use ddd_samples.Bus.Retry.{execute_handler_with_retry-ends, execute_handler_with_retry-spent}
use ddd_samples.Serialization
use ddd_samples.Serialization.Error.{SerializationError, schema_version_incompatible}
use ddd_samples.Serialization.Error
use ddd_samples.Handler.Reservation
use ddd_samples.Handler.Notification
use ddd_samples.Wiring.{subscriptions}
use ddd_samples.Wiring.Shadowing.{confirmed-shadowed, delivered-shadowed}
use ddd_samples.Tests.Data.{sound_env, world_in, quiet_bus, metadata, confirmed_event}

abbrev lost : HandlerError
lost = transient_error "lost"

add_to_dead_letter_queue_lem_example :
    (kept : List DeadLetterEntry) × Room 1000 [] kept
    × (add_to_dead_letter_queue sound_env default_config
          (order_confirmed confirmed_event)
          "H"
          lost
          (world_in confirmed)
        ≡ (
          ok tt,
          record (world_in confirmed) {
            ticks = 1;
            dead_letters =
                kept ++ letter default_config (order_confirmed confirmed_event) "H" lost 0 ∷ [];
          },
        ))
    × (length
          (add_to_dead_letter_queue sound_env default_config
            (order_confirmed confirmed_event)
            "H"
            lost
            (world_in confirmed)).1.dead_letters
        ≤ 1000)
add_to_dead_letter_queue_lem_example =
    add_to_dead_letter_queue_lem sound_env default_config (order_confirmed confirmed_event) "H" lost
      (world_in confirmed) (omega arith) (omega arith)

-- An event of a version that the serializer does not support.
abbrev new_version : OrderDelivered
new_version = record { metadata = record metadata { event_version = 2 }; order_id = 1 }

abbrev refusal : EventBusError
refusal = EventBusError.publishing_failed (
    "Serialization error: "
    +++ Serialization.Error.show sound_env (schema_version_incompatible 1 2 "OrderDelivered"))

publish-eq-err_example :
    (validate_event_serialization sound_env (order_delivered new_version) ≡ err refusal)
    × (world_in confirmed ≡ world_in confirmed)
unfolding publish validate_event_serialization Serialization.serialize_event ◌>>=◌
publish-eq-err_example =
    publish-eq-err sound_env default_config [] (order_delivered new_version) (world_in confirmed)
      (world_in confirmed) refusal refl

execute_handler_with_retry-ends_example :
    execute_handler_with_retry sound_env default_config
      (order_confirmed_wrapper λ e. pure tt)
      (order_confirmed confirmed_event)
      (world_in confirmed)
    ≡ (ok tt, world_in confirmed)
execute_handler_with_retry-ends_example =
    execute_handler_with_retry-ends sound_env (λ m w. refl) (order_confirmed_wrapper λ e. pure tt)
      (order_confirmed confirmed_event) refl default_config 0 2 (world_in confirmed) (omega arith)
      tt (λ x h. cc)

execute_handler_with_retry-spent_example :
    (x : HandlerError) × ((raise {A = ⊤} lost (world_in confirmed)).0 ≡ err x)
    × (execute_handler_with_retry sound_env default_config
          (order_confirmed_wrapper λ e. raise lost)
          (order_confirmed confirmed_event)
          (world_in confirmed)
        ≡ (err x, world_in confirmed))
execute_handler_with_retry-spent_example =
    execute_handler_with_retry-spent sound_env (λ m w. refl)
      (order_confirmed_wrapper λ e. raise lost) (order_confirmed confirmed_event) refl
      default_config 2 (world_in confirmed) refl
      ((lost, refl, refl), ((lost, refl, refl), ((lost, refl, refl), tt)))

confirmed-shadowed_example :
    Bus.publish sound_env default_config
      (subscriptions sound_env quiet_bus)
      (order_confirmed confirmed_event)
      (world_in confirmed)
    ≡ Bus.publish sound_env default_config
        (order_confirmed_wrapper (Reservation.handle sound_env quiet_bus)
          ∷ order_confirmed_wrapper (λ e. pure tt)
          ∷ order_confirmed_wrapper (λ e. raise lost)
          ∷ [])
        (order_confirmed confirmed_event)
        (world_in confirmed)
confirmed-shadowed_example =
    confirmed-shadowed sound_env default_config quiet_bus (λ e. pure tt) (λ e. raise lost)
      confirmed_event (world_in confirmed)

abbrev delivered_event : OrderDelivered
delivered_event = record { metadata = metadata; order_id = 1 }

delivered-shadowed_example :
    Bus.publish sound_env default_config
      (subscriptions sound_env quiet_bus)
      (order_delivered delivered_event)
      (world_in shipped)
    ≡ Bus.publish sound_env default_config
        (order_delivered_wrapper (Notification.handle_delivered sound_env)
          ∷ order_delivered_wrapper (λ e. raise lost)
          ∷ [])
        (order_delivered delivered_event)
        (world_in shipped)
delivered-shadowed_example =
    delivered-shadowed sound_env default_config quiet_bus (λ e. raise lost) delivered_event
      (world_in shipped)
