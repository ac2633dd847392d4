-- ===== src/Service/Confirming.antt =====
-- `OrderApplicationService::confirm_order`: what it stores and what it publishes.
use ddd_samples.Prelude.{ℕ, suc, ⊤, ◌≡◌, refl, ap, none, some, []}
use ddd_samples.Prelude.Action.{Outcome, ok, Action, ◌>>=◌, map_err, on, or_panic}
use ddd_samples.Prelude.Runs.{bind-ok}
use ddd_samples.Error.{DomainError, ApplicationError, show_event_bus_error}
use ddd_samples.Value.{Uuid, OrderId}
use ddd_samples.Value.Money.{Money}
use ddd_samples.Order
use ddd_samples.Order.{Order, calculate_total}
use ddd_samples.World.{World, Env, OrderConfirmed, order_confirmed}
use ddd_samples.Port.{update, find_by_id, save_order}
use ddd_samples.Handler.Common.{Publish}
use ddd_samples.Event.{new_v4, new_order_confirmed, new_metadata, with_metadata}
use ddd_samples.Service.{load, confirm_order, set_correlation_id_to_event}

read :
    (env : Env) (i : OrderId) (w : World)
    → env.fault w.calls ≡ none
    → map_err ApplicationError.repository (find_by_id env i) w
      ≡ (ok (w.orders i), record w { calls = suc w.calls })
unfolding find_by_id ◌>>=◌
read env i w h = rw h refl

saved :
    (env : Env) (o : Order) (w : World)
    → env.fault w.calls ≡ none
    → map_err ApplicationError.repository (save_order env o) w
      ≡ (ok tt, record w { calls = suc w.calls; orders = update w.orders o.id o })
unfolding save_order ◌>>=◌
saved env o w h = rw h refl

drawn :
    (env : Env) (w : World)
    → new_v4 {E = ApplicationError} env w
      ≡ (ok (env.uuid_v4 w.draws), record w { draws = suc w.draws })
drawn env w = refl

summed :
    (env : Env) (o : Order) (total : Money) (w : World)
    → calculate_total env.profile o ≡ some total
    → or_panic {S = World} {E = ApplicationError} (calculate_total env.profile o) w ≡ (ok total, w)
summed env o total w h = rw h refl

-- The event of a confirmed order.
abbrev pub confirmation : Env → Order → Money → Uuid → ℕ → Uuid → OrderConfirmed
confirmation env o total event_id now correlation_id = record {
  metadata = with_metadata "aggregate_id" (env.show_uuid o.id) (
      with_metadata "aggregate_type" "Order" (record {
        event_id = event_id;
        occurred_at = now;
        correlation_id = correlation_id;
        event_version = 1;
        additional_metadata = [];
      }));
  order_id = o.id;
  customer_id = o.customer_id;
  order_lines = o.order_lines;
  total_amount = total;
}

built :
    (env : Env) (o : Order) (total : Money) (w : World)
    → new_order_confirmed {E = ApplicationError} env o.id o.customer_id o.order_lines total w ≡ (
      ok (
          confirmation env o total
            (env.uuid_v4 w.draws)
            (env.now w.ticks)
            (env.uuid_v4 (suc w.draws))),
      record w { draws = suc (suc w.draws); ticks = suc w.ticks },
    )
unfolding new_order_confirmed new_metadata ◌>>=◌
built env o total w = refl

-- A method of the aggregate, called by the service.
called :
    (m : Action Order DomainError ⊤) (o : Order) (r : Outcome DomainError ⊤ × Order) (w : World)
    → m o ≡ r
    → map_err ApplicationError.domain (on {S = World} m o) w
      ≡ map_err ApplicationError.domain (on {S = World} (λ x. r) o) w
called m o r w h = ap (λ p. map_err ApplicationError.domain (on {S = World} (λ x. p) o) w) h

module _ (env : Env) (publish : Publish) (i : OrderId) (o : Order) (w : World) where
  load-ok :
      env.fault w.calls ≡ none
      → w.orders i ≡ some o
      → load env i w ≡ (ok o, record w { calls = suc w.calls })
  unfolding load
  load-ok sound there = rw (bind-ok _ _ (found sound)) (rw there refl)
    where
      found :
          env.fault w.calls ≡ none
          → map_err ApplicationError.repository (find_by_id env i) w
            ≡ (ok (w.orders i), record w { calls = suc w.calls })
      found h = read env i w h

  -- If the order is there, no repository call fails, `Order::confirm` succeeds and the total does not overflow, then
  -- the service saves the confirmed order and publishes one event: the order's `OrderConfirmed`
  -- with its lines, its total and the correlation identifier drawn for this request. What comes of
  -- the publication is the result.
  pub confirm_order-published :
      (o' : Order) (total : Money)
      → ((n : ℕ) → env.fault n ≡ none)
      → w.orders i ≡ some o
      → Order.confirm o ≡ (ok tt, o')
      → calculate_total env.profile o' ≡ some total
      → confirm_order env publish i w
        ≡ map_err
            (λ e. ApplicationError.event_publishing_failed (show_event_bus_error e))
            (publish (
              order_confirmed (
                confirmation env o' total
                  (env.uuid_v4 (suc w.draws))
                  (env.now w.ticks)
                  (env.uuid_v4 w.draws))))
            (record w {
              calls = suc (suc w.calls);
              orders = update w.orders o'.id o';
              draws = suc (suc (suc w.draws));
              ticks = suc w.ticks;
            })
  unfolding confirm_order set_correlation_id_to_event with_metadata
  confirm_order-published o' total sound there done sum =
      let read_world = record w { calls = suc w.calls } in
      let saved_world = record w { calls = suc (suc w.calls); orders = update w.orders o'.id o' } in
      rw
        (
          bind-ok _ _ (load-ok (sound w.calls) there),
          bind-ok _ _ (called Order.confirm o (ok tt, o') read_world done),
          bind-ok _ _ (saved env o' read_world (sound (suc w.calls))),
          bind-ok _ _ (drawn env saved_world),
          bind-ok _ _ (summed env o' total (record saved_world { draws = suc w.draws }) sum),
          bind-ok _ _ (built env o' total (record saved_world { draws = suc w.draws })),
        )
        refl
