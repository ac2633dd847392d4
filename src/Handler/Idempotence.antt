-- ===== src/Handler/Idempotence.antt =====
-- The handlers that own a tracker: an event that was handled is not handled again.
use ddd_samples.Prelude.{
  ⊤, String, ◌+++◌, ◌≡◌, refl, ap, sym, ◌++◌, [], ◌∷◌, Bool, true, false, Option, some, List, not,
  if◌then◌else◌, Bool-cases, inl, inr, arith,
}
use ddd_samples.Prelude.Action.{ok, Action, ◌>>=◌, ◌>>◌, modify}
use ddd_samples.Prelude.Runs.{bind-inv}
use ddd_samples.Error.{HandlerError}
use ddd_samples.Value.{Uuid}
use ddd_samples.Value.OrderStatus.{confirmed, shipped, eq_status}
use ddd_samples.World.{
  World, Env, LogEntry, LogLevel, debug_level, info_level, Tracker, reservation_tracker,
  shipping_tracker, delivery_tracker, OrderConfirmed, InventoryReserved, OrderShipped,
}
use ddd_samples.Handler.Common.{
  Publish, log, contains, insert, is_processed, mark_processed, eq_tracker,
}
use ddd_samples.Handler.Reservation
use ddd_samples.Handler.Shipping
use ddd_samples.Handler.Delivery

-- An action that has marked the event whenever it succeeds.
pub record Marks (t : Tracker) (i : Uuid) (m : Action World HandlerError ⊤) : Type 0 where
  pub marks : (w w' : World) → m w ≡ (ok tt, w') → contains i (w'.processed t) ≡ true

eq_tracker_refl : (t : Tracker) → eq_tracker t t ≡ true
eq_tracker_refl reservation_tracker = refl
eq_tracker_refl shipping_tracker = refl
eq_tracker_refl delivery_tracker = refl

contains-insert : (i : Uuid) (is : List Uuid) → contains i (insert i is) ≡ true
contains-insert i is = ground arith

module _ (t : Tracker) (i : Uuid) where
  Marks-bind :
      {A : Type 0} (m : Action World HandlerError A) {f : A → Action World HandlerError ⊤}
      → ((a : A) → Marks t i (f a))
      → Marks t i (m >>= f)
  Marks-bind m {f} h = record {
    marks = λ w w' e. let (a, v, _, rest) = bind-inv m f w e in (h a).marks v w' rest;
  }

  Marks-mark : Marks t i (mark_processed t i)
  unfolding mark_processed
  Marks-mark = record {
    marks = λ w w' e.
        rw (ap (λ r. contains i (r.1.processed t)) (sym e), eq_tracker_refl t)
          (contains-insert i (w.processed t));
  }

  Marks-mark_log :
      (l : LogLevel) (c m : String) (o : Option Uuid)
      → Marks t i (mark_processed t i >> log l c m o)
  unfolding mark_processed ◌>>=◌
  Marks-mark_log l c m o = record {
    marks = λ w w' e.
        rw (ap (λ r. contains i (r.1.processed t)) (sym e), eq_tracker_refl t)
          (contains-insert i (w.processed t));
  }

  Marks-if :
      {m k : Action World HandlerError ⊤} (b : Bool)
      → Marks t i m
      → Marks t i k
      → Marks t i (if b then m else k)
  Marks-if true h k = h
  Marks-if false h k = k

-- A handler's frame: log the event, look it up in the tracker, and handle it if it is new.
abbrev guarded :
    Tracker
    → Uuid
    → Action World HandlerError ⊤
    → Action World HandlerError ⊤
    → Action World HandlerError ⊤
    → Action World HandlerError ⊤
guarded t i first skip fresh = first >> (is_processed t i >>= λ seen. if seen then skip else fresh)

-- The world with two more log entries.
abbrev pub logged : World → LogEntry → LogEntry → World
logged w a b = record w { log = (w.log ++ a ∷ []) ++ b ∷ [] }

abbrev append : LogEntry → Action World HandlerError ⊤
append a = modify (λ w. record w { log = w.log ++ a ∷ [] })

module _ (t : Tracker) (i : Uuid) (a b : LogEntry) (fresh : Action World HandlerError ⊤) where
  guarded-seen :
      (w : World)
      → contains i (w.processed t) ≡ true
      → guarded t i (append a) (append b) fresh w ≡ (ok tt, logged w a b)
  unfolding is_processed ◌>>=◌
  guarded-seen w h = rw h refl

  guarded-Marks :
      Marks t i fresh
      → (w w' : World) → guarded t i (append a) (append b) fresh w ≡ (ok tt, w')
      → contains i (w'.processed t) ≡ true
  unfolding is_processed ◌>>=◌
  guarded-Marks m w w' e = elim (Bool-cases (contains i (w.processed t))) [
    | inl h ↦ rw (ap (λ r. contains i (r.1.processed t)) (sym e)) (rw h h)
    | inr n ↦ m.marks (record w { log = w.log ++ a ∷ [] }) w' (rw n at e)
  ]

  guarded-again :
      Marks t i fresh
      → (w w' : World) → guarded t i (append a) (append b) fresh w ≡ (ok tt, w')
      → guarded t i (append a) (append b) fresh w' ≡ (ok tt, logged w' a b)
  guarded-again m w w' e = guarded-seen w' (guarded-Marks m w w' e)

-- The log entries that a handler starts with, and that it writes for an event it has seen.
abbrev pub started : String → String → Uuid → LogEntry
started c what i = record {
  level = info_level;
  component = c;
  message = "Processing " +++ what +++ " event";
  correlation_id = some i;
}

abbrev pub skipped : String → Uuid → LogEntry
skipped c i = record {
  level = debug_level;
  component = c;
  message = "Idempotency check: Event already processed, skipping";
  correlation_id = some i;
}

module _ (env : Env) (publish : Publish) where
  reserve_fresh-Marks :
      (e : OrderConfirmed)
      → Marks reservation_tracker e.metadata.event_id (Reservation.reserve_fresh env publish e)
  unfolding Reservation.reserve_fresh Reservation.reserve_order
  reserve_fresh-Marks e =
      let t = reservation_tracker in
      let i = e.metadata.event_id in
      Marks-bind t i _ λ o.
        Marks-if t i (not (eq_status o.status confirmed)) (Marks-bind t i _ λ _. Marks-mark t i) (
          Marks-bind t i _
            λ _. Marks-bind t i _ λ _. Marks-bind t i _ λ _. Marks-mark_log t i _ _ _ _)

  -- Once `InventoryReservationHandler` has handled an event successfully, a second delivery of it
  -- succeeds at once and writes two log entries: it reads and saves nothing and publishes nothing.
  pub reservation-again :
      (e : OrderConfirmed) (w w' : World)
      → Reservation.handle env publish e w ≡ (ok tt, w')
      → let i = e.metadata.correlation_id in
        Reservation.handle env publish e w' ≡ (
          ok tt,
          logged w'
              (started Reservation.component "OrderConfirmed" i)
              (skipped Reservation.component i),
        )
  unfolding Reservation.handle
  reservation-again e w w' h =
      guarded-again reservation_tracker e.metadata.event_id _ _ _ (reserve_fresh-Marks e) w w' h

  ship_fresh-Marks :
      (e : InventoryReserved)
      → Marks shipping_tracker e.metadata.event_id (Shipping.ship_fresh env publish e)
  unfolding Shipping.ship_fresh Shipping.ship_order
  ship_fresh-Marks e =
      let t = shipping_tracker in
      let i = e.metadata.event_id in
      Marks-bind t i _ λ o.
        Marks-if t i (not (eq_status o.status confirmed)) (Marks-bind t i _ λ _. Marks-mark t i)
          (Marks-bind t i _ λ _. Marks-mark_log t i _ _ _ _)

  -- Once `ShippingHandler` has handled an event successfully, a second delivery of it succeeds at
  -- once and writes two log entries: it reads and saves nothing and publishes nothing.
  pub shipping-again :
      (e : InventoryReserved) (w w' : World)
      → Shipping.handle env publish e w ≡ (ok tt, w')
      → let i = e.metadata.correlation_id in
        Shipping.handle env publish e w' ≡ (
          ok tt,
          logged w'
              (started Shipping.component "InventoryReserved" i)
              (skipped Shipping.component i),
        )
  unfolding Shipping.handle
  shipping-again e w w' h =
      guarded-again shipping_tracker e.metadata.event_id _ _ _ (ship_fresh-Marks e) w w' h

  deliver_fresh-Marks :
      (e : OrderShipped)
      → Marks delivery_tracker e.metadata.event_id (Delivery.deliver_fresh env publish e)
  unfolding Delivery.deliver_fresh Delivery.deliver_order
  deliver_fresh-Marks e =
      let t = delivery_tracker in
      let i = e.metadata.event_id in
      Marks-bind t i _ λ o.
        Marks-if t i (not (eq_status o.status shipped)) (Marks-bind t i _ λ _. Marks-mark t i)
          (Marks-bind t i _ λ _. Marks-mark_log t i _ _ _ _)

  -- Once `DeliveryHandler` has handled an event successfully, a second delivery of it succeeds at
  -- once and writes two log entries: it reads and saves nothing and publishes nothing.
  pub delivery-again :
      (e : OrderShipped) (w w' : World)
      → Delivery.handle env publish e w ≡ (ok tt, w')
      → let i = e.metadata.correlation_id in
        Delivery.handle env publish e w' ≡ (
          ok tt,
          logged w' (started Delivery.component "OrderShipped" i) (skipped Delivery.component i),
        )
  unfolding Delivery.handle
  delivery-again e w w' h =
      guarded-again delivery_tracker e.metadata.event_id _ _ _ (deliver_fresh-Marks e) w w' h
