-- ===== src/World/State.antt =====
-- The state that the components share, and the parameters from outside the repository.
use ddd_samples.Prelude.{ℕ, ⊤, String, Bool, Option, List}
use ddd_samples.Prelude.Int.{ℤ}
use ddd_samples.Prelude.Words.{Profile}
use ddd_samples.Prelude.Action.{Outcome, Action}
use ddd_samples.Error.{HandlerError, RepositoryError}
use ddd_samples.Value.{Uuid, OrderId, BookId}
use ddd_samples.Order.{Order}
use ddd_samples.Inventory.{Inventory}
use ddd_samples.World.Event.{DomainEvent}
use ddd_samples.World.Json.{Json}

-- `LogLevel` of domain/port.rs.
pub data LogLevel : Type 0 where
  debug_level info_level warning_level error_level : LogLevel

-- A call of the `Logger` port, without its context map.
pub record LogEntry : Type 0 where
  pub level : LogLevel
  pub component : String
  pub message : String
  pub correlation_id : Option Uuid

-- `FailedEventProcessing` of adapter/driven/event_bus.rs.
pub record FailedEventProcessing : Type 0 where
  pub event : DomainEvent
  pub handler_name : String
  pub error : String
  pub attempt_count : ℕ
  pub first_failed_at : ℕ
  pub last_failed_at : ℕ
  pub is_retryable : Bool

-- `DeadLetterEntry` of adapter/driven/event_bus.rs.
pub record DeadLetterEntry : Type 0 where
  pub failed_processing : FailedEventProcessing
  pub added_at : ℕ

-- The handlers that own a `ProcessedEventTracker`.
pub data Tracker : Type 0 where
  reservation_tracker shipping_tracker delivery_tracker : Tracker

pub record World : Type 0 where
  pub orders : OrderId → Option Order  -- behind the `OrderRepository` port
  pub stock : BookId → Option Inventory  -- behind the `InventoryRepository` port
  pub calls : ℕ  -- how often a repository was called
  pub draws : ℕ  -- how many UUIDs were drawn
  pub ticks : ℕ  -- how often the clock was read
  pub processed : Tracker → List Uuid  -- each tracker's `HashSet`
  pub dead_letters : List DeadLetterEntry  -- the bus's `VecDeque`, front first
  pub log : List LogEntry  -- oldest first

-- What the program takes from outside the repository, and how the crate is built.
pub record Env : Type 0 where
  pub profile : Profile
  pub fault : ℕ → Option RepositoryError  -- whether the n-th repository call fails
  pub uuid_v4 : ℕ → Uuid  -- the n-th draw of `Uuid::new_v4`
  pub now : ℕ → ℕ  -- the n-th reading of the clock
  pub show_uuid : Uuid → String  -- `{}` of a UUID
  pub debug_uuid : Uuid → String  -- `{:?}` of a UUID
  pub show_i64 : ℤ → String  -- `{}` of an `i64`
  -- `tokio::time::timeout` at the configured duration; `none` is `Elapsed`
  pub timeout : Action World HandlerError ⊤ → World → Option (Outcome HandlerError ⊤) × World
  -- `serde_json::to_string` and `from_str::<DomainEvent>`, with their errors' texts
  pub serde_to_string : DomainEvent → Outcome String String
  pub serde_from_str : String → Outcome String DomainEvent
  pub serde_value : String → Outcome String Json  -- `from_str::<serde_json::Value>`
  pub show_u32 : ℕ → String  -- `{}` of a `u32`
  pub debug_field : Option String → String  -- `{:?}` of an `Option<String>`
