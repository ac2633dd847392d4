-- ===== src/Event/Metadata.antt =====
-- `EventMetadata` of domain/event.rs: fresh identifiers, the clock, and the tags of each kind of event.
use ddd_samples.Prelude.{insert_text, ℕ, String, [], suc}
use ddd_samples.Prelude.Action.{Action, ok, ◌>>=◌, pure}
use ddd_samples.Value.{Uuid, OrderId}
use ddd_samples.World.{World, Env, EventMetadata}

module _ {E : Type 0} (env : Env) where
  -- `Uuid::new_v4()`
  abbrev pub new_v4 : Action World E Uuid
  new_v4 w = (ok (env.uuid_v4 w.draws), record w { draws = suc w.draws })

  -- `Utc::now()` and `SystemTime::now()`
  abbrev pub read_clock : Action World E ℕ
  read_clock w = (ok (env.now w.ticks), record w { ticks = suc w.ticks })

  -- `EventMetadata::with_correlation_id`
  unfoldable pub metadata_with_correlation_id : Uuid → Action World E EventMetadata
  metadata_with_correlation_id correlation_id = do
    event_id ← new_v4
    occurred_at ← read_clock
    pure (record {
      event_id = event_id;
      occurred_at = occurred_at;
      correlation_id = correlation_id;
      event_version = 1;
      additional_metadata = [];
    })

  -- `EventMetadata::new`
  unfoldable pub new_metadata : Action World E EventMetadata
  new_metadata = do
    event_id ← new_v4
    occurred_at ← read_clock
    correlation_id ← new_v4
    pure (record {
      event_id = event_id;
      occurred_at = occurred_at;
      correlation_id = correlation_id;
      event_version = 1;
      additional_metadata = [];
    })

-- `EventMetadata::with_metadata`
unfoldable pub with_metadata : String → String → EventMetadata → EventMetadata
with_metadata key value self = record self {
  additional_metadata = insert_text key value self.additional_metadata;
}

-- The tags of the events of the order aggregate.
abbrev pub order_tags : Env → OrderId → EventMetadata → EventMetadata
order_tags env i m =
    with_metadata "aggregate_id" (env.show_uuid i) (with_metadata "aggregate_type" "Order" m)

-- The tags of the events of the inventory aggregate.
abbrev pub inventory_tags : Env → OrderId → EventMetadata → EventMetadata
inventory_tags env i m =
    with_metadata "related_order_id" (env.show_uuid i)
      (with_metadata "aggregate_type" "Inventory" m)

abbrev pub compensation_tag : EventMetadata → EventMetadata
compensation_tag m = with_metadata "compensation_event" "true" m

-- The tags of the events of a saga.
abbrev pub saga_tags : Env → Uuid → EventMetadata → EventMetadata
saga_tags env i m =
    compensation_tag
      (with_metadata "saga_id" (env.show_uuid i) (with_metadata "aggregate_type" "Saga" m))
