-- ===== src/Handler/Common.antt =====
-- What the handlers share: the logger, the trackers of processed events, the bus as they see it,
-- and the reading of an order (domain/handler.rs, domain/port.rs).
use ddd_samples.Prelude.{
  ⊤, String, ◌+++◌, Bool, true, false, ◌||◌, Option, List, [], ◌∷◌, ◌++◌, ◌==◌, if◌then◌else◌,
}
use ddd_samples.Prelude.Action.{Action, ◌>>=◌, gets, modify, map_err, or_raise}
use ddd_samples.Error.{
  HandlerError, EventBusError, RepositoryError, show_repository_error, show_event_bus_error,
}
use ddd_samples.Value.{Uuid, OrderId}
use ddd_samples.Order.{Order}
use ddd_samples.World.{
  World, Env, DomainEvent, LogLevel, Tracker, reservation_tracker, shipping_tracker,
  delivery_tracker,
}
use ddd_samples.Port.{find_by_id}

-- `EventBus::publish`, the port through which a handler reaches the bus.
abbrev pub Publish : Type 0
Publish = DomainEvent → Action World EventBusError ⊤

-- A call of the logger.
abbrev pub log : {E : Type 0} → LogLevel → String → String → Option Uuid → Action World E ⊤
log level component message correlation_id = modify (λ w. record w {
  log =
      w.log
      ++ record {
        level = level;
        component = component;
        message = message;
        correlation_id = correlation_id;
      }
        ∷ [];
})

abbrev pub contains : Uuid → List Uuid → Bool
contains x [] = false
contains x (y ∷ ys) = y == x || contains x ys

abbrev pub eq_tracker : Tracker → Tracker → Bool
eq_tracker reservation_tracker reservation_tracker = true
eq_tracker shipping_tracker shipping_tracker = true
eq_tracker delivery_tracker delivery_tracker = true
eq_tracker _ _ = false

-- `ProcessedEventTracker::is_processed`
unfoldable pub is_processed : {E : Type 0} → Tracker → Uuid → Action World E Bool
is_processed t event_id = gets (λ w. contains event_id (w.processed t))

-- `HashSet::insert`
abbrev pub insert : Uuid → List Uuid → List Uuid
insert x xs = if contains x xs then xs else x ∷ xs

-- `ProcessedEventTracker::mark_processed`
unfoldable pub mark_processed : {E : Type 0} → Tracker → Uuid → Action World E ⊤
mark_processed t event_id = modify (λ w. record w {
  processed = λ u. if eq_tracker u t then insert event_id (w.processed u) else w.processed u;
})

-- `map_err(|e| HandlerError::RepositoryError(format!("…: {}", e)))`
abbrev pub repository_failed : String → RepositoryError → HandlerError
repository_failed what e = HandlerError.repository_error (what +++ show_repository_error e)

-- `map_err(|e| HandlerError::ProcessingFailed(format!("…: {}", e)))`
abbrev pub publishing_refused : String → EventBusError → HandlerError
publishing_refused what e = HandlerError.processing_failed (what +++ show_event_bus_error e)

-- The start of most handlers: `find_by_id(…).await.map_err(…)?.ok_or_else(…)?`
unfoldable pub find_order : Env → OrderId → Action World HandlerError Order
find_order env order_id = do
  found ← map_err (repository_failed "注文取得エラー: ") (find_by_id env order_id)
  or_raise found (HandlerError.processing_failed ("注文が見つかりません: " +++ env.debug_uuid order_id))
