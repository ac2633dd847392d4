-- ===== src/Soundness/Delivery.antt =====
-- The bus keeps an invariant that its handlers keep, and so does the bus of main.rs, however deep
-- its handlers publish.
use ddd_samples.Prelude.{
  ℕ, zero, suc, ⊤, String, str_eq, Bool, not, ◌&&◌, Option, none, some, List, [], ◌∷◌, All,
  Bool-cases, inl, inr,
}
use ddd_samples.Prelude.Action.{Outcome, ok, err, panic, Action}
use ddd_samples.Prelude.Ensures.{
  Keeps, from_state-Keeps, bind-Ensures, if-Ensures, pure-Ensures, raise-Ensures, panics-Ensures,
  modify-Ensures, ◌⨟◌,
}
use ddd_samples.Error.{HandlerError}
use ddd_samples.World.{World, Env, DomainEvent, metadata_of}
use ddd_samples.Handler.Common.{Publish}
use ddd_samples.Bus.{
  EventBusConfig, default_config, is_permanent, after_attempt, attempts, execute_handler_with_retry,
  execute_handler_by_name, add_to_dead_letter_queue, bury, deliver, deliver_all,
  validate_event_serialization,
}
use ddd_samples.Bus
use ddd_samples.Bus.Wrappers.{DynEventHandler}
use ddd_samples.Wiring.{subscriptions, event_bus}
use ddd_samples.Soundness.Interface.{Neutral, Invariant, read_clock-Keeps}
use ddd_samples.Soundness.Wrapped.{
  Sound, SoundOn, order_confirmed_wrapper-Sound, order_cancelled_wrapper-Sound,
  order_shipped_wrapper-Sound, order_delivered_wrapper-Sound,
  inventory_reservation_failed_wrapper-Sound, shipping_failed_wrapper-Sound,
  delivery_failed_wrapper-Sound, saga_compensation_started_wrapper-Sound,
  saga_compensation_completed_wrapper-Sound,
}
use ddd_samples.Soundness.Handlers.{reservation-Keeps}
use ddd_samples.Soundness.Followers.{
  reservation_failed-Keeps, shipping_failed-Keeps, delivery_failed-Keeps, notify_confirmed-Keeps,
  notify_shipped-Keeps, notify_delivered-Keeps, notify_cancelled-Keeps, verify_confirmed-Keeps,
  verify_delivered-Keeps, compensation_started-Keeps, compensation_completed-Keeps,
}

-- A handler that is cut off by the timeout leaves a state that satisfies `P` whenever the handler
-- keeps `P`.
abbrev pub TimeoutKeeps : (World → Type 0) → Env → Type 0
TimeoutKeeps P env =
    (m : Action World HandlerError ⊤) → Keeps P m → (w : World) → P w → P (env.timeout m w).1

module _ {P : World → Type 0} (neutral : Neutral P) (env : Env) (timed : TimeoutKeeps P env) where
  -- What one attempt and those after it leave.
  after_attempt-keeps :
      (again : Option HandlerError → Action World HandlerError ⊤)
      (r : Option (Outcome HandlerError ⊤)) (w : World)
      → ((e : Option HandlerError) → Keeps P (again e))
      → P w
      → P (after_attempt again (r, w)).1
  after_attempt-keeps again none w h p = ((h _).keeps w p).0
  after_attempt-keeps again (some (ok _)) w h p = p
  after_attempt-keeps again (some panic) w h p = p
  after_attempt-keeps again (some (err e)) w h p = elim (Bool-cases (is_permanent e)) [
    | inl t ↦ rw t p
    | inr f ↦ rw f (((h (some e)).keeps w p).0)
  ]

  attempts-Keeps :
      (h : DynEventHandler) (e : DomainEvent)
      → SoundOn P e h
      → (left : ℕ) (last : Option HandlerError) → Keeps P (attempts env h e left last)
  unfolding attempts
  attempts-Keeps h e sound zero last = from_state-Keeps λ w p. p
  attempts-Keeps h e sound (suc left) last = from_state-Keeps λ w p.
      elim (Bool-cases (not (h.supports_schema_version (metadata_of e).event_version))) [
        | inl t ↦ rw t p
        | inr f ↦ rw f (
            after_attempt-keeps (λ l. attempts env h e left l) (env.timeout (h.handle_event e) w).0
              (env.timeout (h.handle_event e) w).1 (λ l. attempts-Keeps h e sound left l)
              (timed (h.handle_event e) sound w p))
      ]

  by_name-Keeps :
      (c : EventBusConfig) (hs : List DynEventHandler) (n : String) (e : DomainEvent)
      → All (SoundOn P e) hs
      → Keeps P (execute_handler_by_name env c hs n e)
  unfolding execute_handler_by_name execute_handler_with_retry
  by_name-Keeps c [] n e s = raise-Ensures
  by_name-Keeps c (h ∷ hs) n e s =
      if-Ensures (str_eq h.handler_name n && h.can_handle e)
        (λ _. attempts-Keeps h e s.0 c.max_retry_attempts none) (λ _. by_name-Keeps c hs n e s.1)

  add_to_dead_letter_queue-Keeps :
      (c : EventBusConfig) (e : DomainEvent) (n : String) (x : HandlerError)
      → Keeps P (add_to_dead_letter_queue env c e n x)
  unfolding add_to_dead_letter_queue
  add_to_dead_letter_queue-Keeps c e n x =
      modify-Ensures (λ w p. neutral.by_dead_letters w _ p)
      ⨟ bind-Ensures (read_clock-Keeps neutral env)
          λ now _. modify-Ensures (λ w p. neutral.by_dead_letters w _ p)

  bury-keeps :
      (c : EventBusConfig) (e : DomainEvent) (n : String) (r : Outcome HandlerError ⊤) (w : World)
      → P w
      → P (bury env c e n (r, w)).1
  bury-keeps c e n (ok _) w p = p
  bury-keeps c e n (err x) w p = ((add_to_dead_letter_queue-Keeps c e n x).keeps w p).0
  bury-keeps c e n panic w p = p

  deliver-Keeps :
      (c : EventBusConfig) (hs : List DynEventHandler) (e : DomainEvent) (t : String × Bool)
      → All (SoundOn P e) hs
      → Keeps P (deliver env c hs e t)
  unfolding deliver
  deliver-Keeps c hs e (n, v) s = from_state-Keeps λ w p.
      let run = execute_handler_by_name env c hs n e w in
      elim (Bool-cases (not v)) [
        | inl t ↦ rw t (((add_to_dead_letter_queue-Keeps c e n _).keeps w p).0)
        | inr f ↦ rw f (bury-keeps c e n run.0 run.1 (((by_name-Keeps c hs n e s).keeps w p).0))
      ]

  deliver_all-Keeps :
      (c : EventBusConfig) (hs : List DynEventHandler) (e : DomainEvent) (ts : List (String × Bool))
      → All (SoundOn P e) hs
      → Keeps P (deliver_all env c hs e ts)
  unfolding deliver_all
  deliver_all-Keeps c hs e [] s = pure-Ensures tt
  deliver_all-Keeps c hs e (t ∷ ts) s = deliver-Keeps c hs e t s ⨟ deliver_all-Keeps c hs e ts s

  pub publish-Keeps :
      (c : EventBusConfig) (hs : List DynEventHandler) (e : DomainEvent)
      → All (SoundOn P e) hs
      → Keeps P (Bus.publish env c hs e)
  unfolding Bus.publish
  publish-Keeps c hs e s =
      from_state-Keeps (λ w p. p) ⨟ deliver_all-Keeps c hs e (Bus.applicable env hs e) s

Sound-all :
    (P : World → Type 0) (e : DomainEvent) (hs : List DynEventHandler)
    → All (Sound P) hs
    → All (SoundOn P e) hs
Sound-all P e [] s = tt
Sound-all P e (h ∷ hs) s = (s.0 e, Sound-all P e hs s.1)

module _ {P : World → Type 0} (inv : Invariant P) (env : Env) (timed : TimeoutKeeps P env) where
  subscriptions-Sound :
      (publish : Publish)
      → ((e : DomainEvent) → Keeps P (publish e))
      → All (Sound P) (subscriptions env publish)
  unfolding subscriptions
  subscriptions-Sound publish keep = (
    order_confirmed_wrapper-Sound (reservation-Keeps inv env publish keep),
    (
      order_confirmed_wrapper-Sound (notify_confirmed-Keeps inv env),
      (
        order_shipped_wrapper-Sound (notify_shipped-Keeps inv env),
        (
          order_delivered_wrapper-Sound (notify_delivered-Keeps inv env),
          (
            order_cancelled_wrapper-Sound (notify_cancelled-Keeps inv env),
            (
              order_confirmed_wrapper-Sound (verify_confirmed-Keeps inv env),
              (
                order_delivered_wrapper-Sound (verify_delivered-Keeps inv env),
                (
                  inventory_reservation_failed_wrapper-Sound
                      (reservation_failed-Keeps inv env publish keep),
                  (
                    shipping_failed_wrapper-Sound (shipping_failed-Keeps inv env publish keep),
                    (
                      delivery_failed_wrapper-Sound (delivery_failed-Keeps inv env publish keep),
                      (
                        saga_compensation_started_wrapper-Sound
                            (compensation_started-Keeps inv env),
                        (
                          saga_compensation_completed_wrapper-Sound
                              (compensation_completed-Keeps inv env),
                          tt,
                        ),
                      ),
                    ),
                  ),
                ),
              ),
            ),
          ),
        ),
      ),
    ),
  )

  -- The bus of main.rs keeps `P`, to any depth of nested publications.
  pub event_bus-Keeps : (depth : ℕ) (e : DomainEvent) → Keeps P (event_bus env depth e)
  unfolding event_bus
  event_bus-Keeps zero e = panics-Ensures
  event_bus-Keeps (suc depth) e =
      publish-Keeps inv.neutral env timed default_config _ e
        (Sound-all P e _ (subscriptions-Sound (λ x. event_bus env depth x) (event_bus-Keeps depth)))
