-- ===== src/Bus/Retry.antt =====
-- The retries of `execute_handler_with_retry`.
use ddd_samples.Prelude.{
  ℕ, zero, suc, ◌+◌, ⊤, ◌≡◌, ◌∙◌, refl, true, false, Option, none, some, arith,
}
use ddd_samples.Prelude.Action.{Outcome, ok, err, panic, Action}
use ddd_samples.Error.{HandlerError}
use ddd_samples.World.{World, Env, DomainEvent, metadata_of}
use ddd_samples.Bus.{EventBusConfig, is_permanent, attempts, execute_handler_with_retry}
use ddd_samples.Bus.Wrappers.{DynEventHandler}

-- No handler runs into the timeout.
abbrev pub IsPrompt : Env → Type 0
IsPrompt env =
    (m : Action World HandlerError ⊤) (w : World) → env.timeout m w ≡ (some (m w).0, (m w).1)

-- The world after `n` runs of a handler.
abbrev pub after_runs : ℕ → DynEventHandler → DomainEvent → World → World
after_runs zero h e w = w
after_runs (suc n) h e w = after_runs n h e (h.handle_event e w).1

-- The next `n` runs of a handler fail, each with an error that may be retried.
abbrev pub Fails : ℕ → DynEventHandler → DomainEvent → World → Type 0
Fails zero h e w = ⊤
Fails (suc n) h e w =
    ((x : HandlerError) × ((h.handle_event e w).0 ≡ err x) × (is_permanent x ≡ false))
    × Fails n h e (h.handle_event e w).1

module _ (env : Env) (prompt : IsPrompt env) (h : DynEventHandler) (e : DomainEvent)
    (known : h.supports_schema_version (metadata_of e).event_version ≡ true) where
  -- A run that fails so is followed by the next attempt.
  attempt-retried :
      (left : ℕ) (last : Option HandlerError) (w : World) (x : HandlerError)
      → (h.handle_event e w).0 ≡ err x
      → is_permanent x ≡ false
      → attempts env h e (suc left) last w ≡ attempts env h e left (some x) (h.handle_event e w).1
  unfolding attempts
  attempt-retried left last w x r p = rw (known, prompt (h.handle_event e) w, r, p) refl

  -- A run that succeeds ends the attempts, and so does a permanent error.
  attempt-final :
      (left : ℕ) (last : Option HandlerError) (w : World) (r : Outcome HandlerError ⊤)
      → (h.handle_event e w).0 ≡ r
      → ((x : HandlerError) → r ≡ err x → is_permanent x ≡ true)
      → attempts env h e (suc left) last w ≡ (r, (h.handle_event e w).1)
  unfolding attempts
  attempt-final left last w (ok _) r p = rw (known, prompt (h.handle_event e) w, r) refl
  attempt-final left last w (err x) r p = rw (known, prompt (h.handle_event e) w, r, p x refl) refl
  attempt-final left last w panic r p = rw (known, prompt (h.handle_event e) w, r) refl

  attempts-final :
      (n left m : ℕ) (last : Option HandlerError) (w : World)
      → m ≡ n + suc left
      → Fails n h e w
      → ((x : HandlerError)
          → (h.handle_event e (after_runs n h e w)).0 ≡ err x
          → is_permanent x ≡ true)
      → attempts env h e m last w ≡ h.handle_event e (after_runs n h e w)
  attempts-final zero left m last w k f p =
      let one : m ≡ suc left = omega (arith, k) in
      rw one (attempt-final left last w (h.handle_event e w).0 refl p)
  attempts-final (suc n) left m last w k ((x, r, q), f) p =
      let more : m ≡ suc (n + suc left) = omega (arith, k) in
      rw more (
        attempt-retried (n + suc left) last w x r q
        ∙ attempts-final n left (n + suc left) (some x) (h.handle_event e w).1 refl f p)

  attempts-spent :
      (n : ℕ) (last : Option HandlerError) (w : World)
      → Fails (suc n) h e w
      → (x : HandlerError) × ((h.handle_event e (after_runs n h e w)).0 ≡ err x)
        × (attempts env h e (suc n) last w ≡ (err x, after_runs (suc n) h e w))
  unfolding attempts
  attempts-spent zero last w ((x, r, q), f) = (x, r, attempt-retried zero last w x r q)
  attempts-spent (suc n) last w ((x, r, q), f) =
      let (y, final, more) = attempts-spent n (some x) (h.handle_event e w).1 f in
      (y, final, attempt-retried (suc n) last w x r q ∙ more)

  -- If no run meets the timeout and the handler supports the event's version: when fewer runs than
  -- `max_retry_attempts` fail with errors other than `PermanentError` and the next one succeeds,
  -- panics or fails with a `PermanentError`, then the handler is run exactly that often, and the
  -- last run's outcome and world are the result.
  pub execute_handler_with_retry-ends :
      (config : EventBusConfig) (n left : ℕ) (w : World)
      → config.max_retry_attempts ≡ n + suc left
      → Fails n h e w
      → ((x : HandlerError)
          → (h.handle_event e (after_runs n h e w)).0 ≡ err x
          → is_permanent x ≡ true)
      → execute_handler_with_retry env config h e w ≡ h.handle_event e (after_runs n h e w)
  unfolding execute_handler_with_retry
  execute_handler_with_retry-ends config n left w max f p =
      attempts-final n left config.max_retry_attempts none w max f p

  -- If no run meets the timeout and the handler supports the event's version: when
  -- `max_retry_attempts` is not 0 and that many runs fail with errors other than `PermanentError`,
  -- then the handler is run exactly that often and the result is the last run's error.
  pub execute_handler_with_retry-spent :
      (config : EventBusConfig) (n : ℕ) (w : World)
      → config.max_retry_attempts ≡ suc n
      → Fails (suc n) h e w
      → (x : HandlerError) × ((h.handle_event e (after_runs n h e w)).0 ≡ err x)
        × (execute_handler_with_retry env config h e w ≡ (err x, after_runs (suc n) h e w))
  unfolding execute_handler_with_retry
  execute_handler_with_retry-spent config n w max f = rw max (attempts-spent n none w f)
