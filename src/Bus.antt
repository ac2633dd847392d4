-- ===== src/Bus.antt =====
-- `InMemoryEventBus` of adapter/driven/event_bus.rs: sequential delivery by handler name, with
-- retries, a timeout and a bounded queue of dead letters.
pub mod Wrappers
pub mod Subscribing
pub mod DeadLetters
pub mod Retry
use ddd_samples.Prelude.{
  ℕ, zero, suc, ⊤, String, ◌+++◌, str_eq, Bool, true, false, not, ◌&&◌, Option, none, some, List,
  [], ◌∷◌, ◌++◌, length, leb, if◌then◌else◌,
}
use ddd_samples.Prelude.Action.{
  Outcome, ok, err, panic, Action, ◌>>=◌, ◌>>◌, pure, raise, modify, lift,
}
use ddd_samples.Prelude.Result
use ddd_samples.Error.{
  HandlerError, EventBusError, transient_error, permanent_error, show_handler_error,
}
use ddd_samples.World.{World, Env, DomainEvent, metadata_of, DeadLetterEntry, FailedEventProcessing}
use ddd_samples.Event.{read_clock}
use ddd_samples.Serialization
use ddd_samples.Serialization.Error.{SerializationError}
use ddd_samples.Serialization.Error
use ddd_samples.Handler.Common.{Publish}
use Wrappers.{DynEventHandler}

-- `EventBusConfig`; its two durations are in `Env.timeout`, and waiting changes no state.
pub record EventBusConfig : Type 0 where
  pub max_retry_attempts : ℕ
  pub dead_letter_queue_max_size : ℕ

-- `EventBusConfig::default`
abbrev pub default_config : EventBusConfig
default_config = record { max_retry_attempts = 3; dead_letter_queue_max_size = 1000 }

abbrev pub is_permanent : HandlerError → Bool
is_permanent (permanent_error _) = true
is_permanent _ = false

abbrev pub is_transient : HandlerError → Bool
is_transient (transient_error _) = true
is_transient _ = false

-- `Handler {} does not support schema version {}`
abbrev pub unsupported : Env → String → ℕ → HandlerError
unsupported env name version =
    permanent_error
      ("Handler " +++ name +++ " does not support schema version " +++ env.show_u32 version)

-- `last_error.unwrap_or(…)`
abbrev last_or_unknown : Option HandlerError → HandlerError
last_or_unknown none = HandlerError.processing_failed "Unknown error"
last_or_unknown (some e) = e

-- The `match result` of one attempt, with the next attempts as `again`.
abbrev pub after_attempt :
    (Option HandlerError → Action World HandlerError ⊤)
    → Option (Outcome HandlerError ⊤) × World
    → Outcome HandlerError ⊤ × World
after_attempt again (some (ok _), w) = (ok tt, w)
after_attempt again (some (err e), w) = if is_permanent e then (err e, w) else again (some e) w
after_attempt again (some panic, w) = (panic, w)
after_attempt again (none, w) = again (some (transient_error "Handler timeout")) w

module _ (env : Env) where
  -- The loop of `execute_handler_with_retry`, by the attempts that are left.
  unfoldable pub attempts :
      DynEventHandler → DomainEvent → ℕ → Option HandlerError → Action World HandlerError ⊤
  attempts handler event zero last_error w = raise (last_or_unknown last_error) w
  attempts handler event (suc left) last_error w =
      let again = λ (e : Option HandlerError). attempts handler event left e in
      if not (handler.supports_schema_version (metadata_of event).event_version)
      then (err (unsupported env handler.handler_name (metadata_of event).event_version), w)
      else after_attempt again (env.timeout (handler.handle_event event) w)

  -- `execute_handler_with_retry`
  unfoldable pub execute_handler_with_retry :
      EventBusConfig → DynEventHandler → DomainEvent → Action World HandlerError ⊤
  execute_handler_with_retry config handler event =
      attempts handler event config.max_retry_attempts none

  -- `execute_handler_by_name`: the first handler of that name that takes the event.
  unfoldable pub execute_handler_by_name :
      EventBusConfig → List DynEventHandler → String → DomainEvent → Action World HandlerError ⊤
  execute_handler_by_name config [] name event =
      raise (HandlerError.processing_failed ("Handler " +++ name +++ " not found"))
  execute_handler_by_name config (handler ∷ handlers) name event =
      if str_eq handler.handler_name name && handler.can_handle event
      then execute_handler_with_retry config handler event
      else execute_handler_by_name config handlers name event

  -- `dlq.pop_front()` when the queue is full.
  abbrev pub make_room : ℕ → List DeadLetterEntry → List DeadLetterEntry
  make_room size [] = []
  make_room size (x ∷ xs) = if leb size (length (x ∷ xs)) then xs else x ∷ xs

  -- `add_to_dead_letter_queue`
  unfoldable pub add_to_dead_letter_queue :
      EventBusConfig → DomainEvent → String → HandlerError → Action World EventBusError ⊤
  add_to_dead_letter_queue config event handler_name error = do
    modify (λ w. record w {
      dead_letters = make_room config.dead_letter_queue_max_size w.dead_letters;
    })
    now ← read_clock env
    modify (λ w. record w {
      dead_letters =
          w.dead_letters
          ++ record {
            failed_processing = record {
              event = event;
              handler_name = handler_name;
              error = show_handler_error error;
              attempt_count = config.max_retry_attempts;
              first_failed_at = now;
              last_failed_at = now;
              is_retryable = is_transient error;
            };
            added_at = now;
          }
            ∷ [];
    })

  -- `validate_event_serialization`: there and back again.
  unfoldable pub validate_event_serialization : DomainEvent → Outcome EventBusError ⊤
  validate_event_serialization event =
      Result.◌>>=◌ (Result.or_else (Serialization.serialize_event env event) refused) λ json.
        Result.◌>>=◌ (Result.or_else (Serialization.deserialize_event env json) refused) λ _. ok tt
    where
      refused : {A : Type 0} → SerializationError → Outcome EventBusError A
      refused e = err (
          EventBusError.publishing_failed
            ("Serialization error: " +++ Serialization.Error.show env e))

  -- The names of the handlers that take the event, and whether they know its version.
  abbrev pub applicable : List DynEventHandler → DomainEvent → List (String × Bool)
  applicable [] event = []
  applicable (handler ∷ handlers) event =
      let rest = applicable handlers event in
      if handler.can_handle event
      then (handler.handler_name, handler.supports_schema_version (metadata_of event).event_version)
        ∷ rest
      else rest

  -- The error arm of the delivery: the event becomes a dead letter.
  abbrev pub bury :
      EventBusConfig
      → DomainEvent
      → String
      → Outcome HandlerError ⊤ × World
      → Outcome EventBusError ⊤ × World
  bury config event name (ok _, w) = (ok tt, w)
  bury config event name (err e, w) = add_to_dead_letter_queue config event name e w
  bury config event name (panic, w) = (panic, w)

  -- One round of the loop of `publish`.
  unfoldable pub deliver :
      EventBusConfig
      → List DynEventHandler
      → DomainEvent
      → String × Bool
      → Action World EventBusError ⊤
  deliver config handlers event (name, supports_version) w =
      if not supports_version
      then add_to_dead_letter_queue config event name
          (unsupported env name (metadata_of event).event_version) w
      else bury config event name (execute_handler_by_name config handlers name event w)

  -- The loop of `publish`.
  unfoldable pub deliver_all :
      EventBusConfig
      → List DynEventHandler
      → DomainEvent
      → List (String × Bool)
      → Action World EventBusError ⊤
  deliver_all config handlers event [] = pure tt
  deliver_all config handlers event (target ∷ targets) =
      deliver config handlers event target >> deliver_all config handlers event targets

  -- `EventBus::publish`
  unfoldable pub publish : EventBusConfig → List DynEventHandler → Publish
  publish config handlers event = do
    lift (validate_event_serialization event)
    deliver_all config handlers event (applicable handlers event)
