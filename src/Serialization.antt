-- ===== src/Serialization.antt =====
-- `EventSerializer` of domain/serialization.rs, over serde's functions as parameters.
pub mod Error
pub mod Acceptance
use ddd_samples.Prelude.{
  and_then, ℕ, ◌%◌, ◌^◌, ⊤, String, ◌+++◌, is_blank, Bool, true, false, not, ◌&&◌, Option, none,
  some, List, is_empty, is_none, leb, ◌==◌, if◌then◌else◌,
}
use ddd_samples.Prelude.Words.{u32_mod}
use ddd_samples.Prelude.Action.{Outcome, ok, err, panic}
use ddd_samples.Prelude.Result.{◌>>=◌, ◌>>◌, refuse_if, or_else}
use ddd_samples.World.{
  Env, EventMetadata, DomainEvent, metadata_of, event_type, order_confirmed, inventory_reserved,
}
use ddd_samples.World.Json.{Json, get, as_str, as_u64}
use Error.{
  SerializationError, schema_version_incompatible, missing_required_field, invalid_field_value,
  json_serialization_failed, schema_validation_failed, json_deserialization_failed,
  deserialization_failed, analyze_serialization_error, analyze_deserialization_error,
}

-- `supported_versions.contains(&v)` for `1..=1`.
abbrev pub is_supported : ℕ → Bool
is_supported v = leb 1 v && leb v 1

-- `Uuid::is_nil`
abbrev pub is_nil : ℕ → Bool
is_nil u = u == 0

-- The tests on the metadata in `validate_event_before_serialization`.
abbrev check_identifiers : EventMetadata → String → Outcome SerializationError ⊤
check_identifiers m kind = do
  refuse_if (is_nil m.event_id) (missing_required_field "event_id" kind)
  refuse_if (is_nil m.correlation_id) (missing_required_field "correlation_id" kind)

abbrev pub is_empty_text : String → Bool
is_empty_text String.[] = true
is_empty_text (String.◌∷◌ c s) = false

-- `unwrap_or("Unknown")`
abbrev or_unknown : Option String → String
or_unknown none = "Unknown"
or_unknown (some s) = s

-- `.map(|v| v as u32).unwrap_or(1)`
abbrev or_one : Option ℕ → ℕ
or_one none = 1
or_one (some v) = v % u32_mod

module _ (env : Env) where
  -- The tests by kind of event in `validate_event_before_serialization`.
  abbrev check_event : DomainEvent → Outcome SerializationError ⊤
  check_event (order_confirmed e) = do
    refuse_if (is_empty_text (env.show_uuid e.order_id))
        (missing_required_field "order_id" "OrderConfirmed")
    refuse_if (is_empty_text (env.show_uuid e.customer_id))
        (missing_required_field "customer_id" "OrderConfirmed")
  check_event (inventory_reserved e) = refuse_if (is_empty e.order_lines) (
      invalid_field_value "order_lines" "empty array" "InventoryReserved"
        "Order lines cannot be empty for inventory reservation")
  check_event _ = ok tt

  -- `validate_event_before_serialization`
  unfoldable pub validate_event_before_serialization : DomainEvent → Outcome SerializationError ⊤
  validate_event_before_serialization event = do
    check_identifiers (metadata_of event) (event_type event)
    check_event event

  -- `validate_serialized_json`
  unfoldable pub validate_serialized_json : String → DomainEvent → Outcome SerializationError ⊤
  validate_serialized_json json event = do
    parsed ← or_else (env.serde_value json) (λ e.
        err (json_serialization_failed ("Generated invalid JSON: " +++ e) (event_type event) none))
    refuse_if (is_none (get "event_type" parsed)) (
        json_serialization_failed "Missing event_type field in serialized JSON" (event_type event)
          (some "event_type"))
    refuse_if (is_none (get "event_data" parsed)) (
        json_serialization_failed "Missing event_data field in serialized JSON" (event_type event)
          (some "event_data"))

  -- `serialize_event`
  unfoldable pub serialize_event : DomainEvent → Outcome SerializationError String
  serialize_event event = do
    let version = (metadata_of event).event_version
    refuse_if (not (is_supported version))
        (schema_version_incompatible 1 version (event_type event))
    validate_event_before_serialization event
    json ←
        or_else (env.serde_to_string event)
          (λ e. err (analyze_serialization_error e (event_type event)))
    validate_serialized_json json event
    ok json

  -- `validate_schema_compatibility`; `v as u32` drops the high bits.
  unfoldable pub validate_schema_compatibility : String → Outcome SerializationError ⊤
  validate_schema_compatibility json = do
    parsed ← or_else (env.serde_value json) (λ e.
        deserialization_failed ("Failed to parse JSON for schema validation: " +++ e) "JSON Value"
          json)
    let kind = or_unknown (and_then (get "event_type" parsed) as_str)
    let version = or_one (
        and_then (get "event_data" parsed) λ data'.
          and_then (get "metadata" data')
            λ metadata. and_then (get "event_version" metadata) as_u64)
    refuse_if (not (is_supported version)) (schema_version_incompatible 1 version kind)

  -- `validate_deserialized_event`
  unfoldable pub validate_deserialized_event : DomainEvent → Outcome SerializationError ⊤
  validate_deserialized_event event = do
    refuse_if (is_nil (metadata_of event).event_id)
        (schema_validation_failed "Deserialized event has nil event_id" (event_type event))
    refuse_if (is_nil (metadata_of event).correlation_id)
        (schema_validation_failed "Deserialized event has nil correlation_id" (event_type event))

  -- `deserialize_event`
  unfoldable pub deserialize_event : String → Outcome SerializationError DomainEvent
  deserialize_event json = do
    refuse_if (is_blank json) (json_deserialization_failed "Empty JSON input" "DomainEvent" "")
    parsed ←
        or_else (env.serde_value json)
          (λ e. deserialization_failed ("Invalid JSON syntax: " +++ e) "DomainEvent" json)
    validate_schema_compatibility json
    event ← or_else (env.serde_from_str json) (λ e. analyze_deserialization_error e json)
    validate_deserialized_event event
    ok event
