-- ===== src/Bus/DeadLetters.antt =====
-- The queue of dead letters, and which errors `publish` returns.
use ddd_samples.Prelude.{
  ℕ, ◌+◌, ◌≤◌, ◌<◌, ⊤, String, ◌≡◌, refl, ap, sym, suc, Bool, not, List, [], ◌∷◌, ◌++◌, length, leb,
  arith, Bool-cases, inl, inr,
}
use ddd_samples.Prelude.Action.{Outcome, ok, err, panic, ◌>>=◌}
use ddd_samples.Error.{HandlerError, EventBusError, show_handler_error}
use ddd_samples.World.{World, Env, DomainEvent, DeadLetterEntry}
use ddd_samples.Bus
use ddd_samples.Bus.{
  EventBusConfig, is_transient, make_room, add_to_dead_letter_queue, bury, deliver, deliver_all,
  execute_handler_by_name, validate_event_serialization,
}
use ddd_samples.Bus.Wrappers.{DynEventHandler}

-- The entry of a failed delivery.
abbrev pub letter : EventBusConfig → DomainEvent → String → HandlerError → ℕ → DeadLetterEntry
letter config event name error now = record {
  failed_processing = record {
    event = event;
    handler_name = name;
    error = show_handler_error error;
    attempt_count = config.max_retry_attempts;
    first_failed_at = now;
    last_failed_at = now;
    is_retryable = is_transient error;
  };
  added_at = now;
}

length-append : {A : Type 0} (xs : List A) (x : A) → length (xs ++ x ∷ []) ≡ 1 + length xs
length-append [] x = refl
length-append (y ∷ xs) x = omega (arith, length-append xs x)

-- What making room keeps: all but the oldest entry, and that one too if there is room.
abbrev pub Room : ℕ → List DeadLetterEntry → List DeadLetterEntry → Type 0
Room size before kept =
    (dropped : List DeadLetterEntry) × (dropped ++ kept ≡ before)
    × (length dropped ≤ 1)
    × (length before < size → dropped ≡ [])
    × (length kept < size)

make_room-Room :
    (env : Env) (size : ℕ) (before : List DeadLetterEntry)
    → 0 < size
    → length before ≤ size
    → Room size before (make_room env size before)
make_room-Room env size [] pos h = ([], refl, omega arith, (λ _. refl), pos)
make_room-Room env size (x ∷ xs) pos h = elim (Bool-cases (leb size (length (x ∷ xs)))) [
  | inl full ↦ rw full (x ∷ [], refl, omega arith, (λ k. absurd (ground arith)), ground arith)
  | inr free ↦ rw free ([], refl, omega arith, (λ _. refl), ground arith)
]

-- With a queue size that is not 0 and a queue within it, adding a dead letter always succeeds and
-- changes the queue and one reading of the clock only. The queue then ends with the new letter,
-- after the earlier ones in their order; only the oldest is dropped, and only if the queue was
-- full; and the queue is within its size again.
pub add_to_dead_letter_queue_lem :
    (env : Env) (config : EventBusConfig) (e : DomainEvent) (name : String) (x : HandlerError)
    (w : World)
    → 0 < config.dead_letter_queue_max_size
    → length w.dead_letters ≤ config.dead_letter_queue_max_size
    → (kept : List DeadLetterEntry) × Room config.dead_letter_queue_max_size w.dead_letters kept
      × (add_to_dead_letter_queue env config e name x w ≡ (
        ok tt,
        record w {
          ticks = suc w.ticks;
          dead_letters = kept ++ letter config e name x (env.now w.ticks) ∷ [];
        },
      ))
      × (length (add_to_dead_letter_queue env config e name x w).1.dead_letters
          ≤ config.dead_letter_queue_max_size)
unfolding add_to_dead_letter_queue ◌>>=◌
add_to_dead_letter_queue_lem env config e name x w pos h =
    let size = config.dead_letter_queue_max_size in
    let kept = make_room env size w.dead_letters in
    let room = make_room-Room env size w.dead_letters pos h in
    let new = letter config e name x (env.now w.ticks) in
    (kept, room, refl, omega (arith, length-append kept new, room.4))

-- An outcome that is no error.
abbrev pub NoError : {E : Type 0} → Outcome E ⊤ → Type 0
NoError (ok _) = ⊤
NoError (err _) = ⊥
NoError panic = ⊤

module _ (env : Env) (config : EventBusConfig) (hs : List DynEventHandler) (e : DomainEvent) where
  add_to_dead_letter_queue-NoError :
      (name : String) (x : HandlerError) (w : World)
      → NoError (add_to_dead_letter_queue env config e name x w).0
  unfolding add_to_dead_letter_queue ◌>>=◌
  add_to_dead_letter_queue-NoError name x w = tt

  bury-NoError :
      (name : String) (r : Outcome HandlerError ⊤ × World) → NoError (bury env config e name r).0
  bury-NoError name (ok _, w) = tt
  bury-NoError name (err x, w) = add_to_dead_letter_queue-NoError name x w
  bury-NoError name (panic, w) = tt

  deliver-NoError : (t : String × Bool) (w : World) → NoError (deliver env config hs e t w).0
  unfolding deliver
  deliver-NoError (name, v) w = elim (Bool-cases (not v)) [
    | inl h ↦ rw h (add_to_dead_letter_queue-NoError name _ w)
    | inr h ↦ rw h (bury-NoError name (execute_handler_by_name env config hs name e w))
  ]

  deliver_all-NoError :
      (ts : List (String × Bool)) (w : World) → NoError (deliver_all env config hs e ts w).0
  unfolding deliver_all ◌>>=◌
  deliver_all-NoError [] w = tt
  deliver_all-NoError (t ∷ ts) w =
      go (deliver env config hs e t w) (deliver-NoError t w) (deliver_all-NoError ts)
    where
      go :
          (r : Outcome EventBusError ⊤ × World)
          → NoError r.0
          → ((v : World) → NoError (deliver_all env config hs e ts v).0)
          → NoError (◌>>=◌ (λ (v : World). r) (λ _. deliver_all env config hs e ts) w).0
      go (ok _, v) n more = more v
      go (err x, v) n more = absurd n
      go (panic, v) n more = tt

  -- `publish` returns an error only for an event that does not pass the check of its
  -- serialization; then it is the error of that check, and the world is as it was.
  pub publish-eq-err :
      (w w' : World) (x : EventBusError)
      → Bus.publish env config hs e w ≡ (err x, w')
      → (validate_event_serialization env e ≡ err x) × (w' ≡ w)
  unfolding Bus.publish ◌>>=◌
  publish-eq-err w w' x h =
      go (validate_event_serialization env e) h (deliver_all-NoError (Bus.applicable env hs e) w)
    where
      rest : World → Outcome EventBusError ⊤ × World
      rest = deliver_all env config hs e (Bus.applicable env hs e)

      go :
          (r : Outcome EventBusError ⊤)
          → (◌>>=◌ (λ (v : World). (r, v)) (λ _. rest) w) ≡ (err x, w')
          → NoError (rest w).0
          → (r ≡ err x) × (w' ≡ w)
      go (ok _) h n = absurd (rw (ap (λ r. r.0) h) at n)
      go (err y) h n = (ap (λ r. r.0) h, sym (ap (λ r. r.1) h))
      go panic h n = cc
