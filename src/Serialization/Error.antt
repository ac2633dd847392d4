-- ===== src/Serialization/Error.antt =====
-- `SerializationError` of domain/serialization.rs: its variants, its texts, and the reading of
-- serde's messages.
use Prim.Native.String.{len, slice}
use text.Mathlib.Text.{find?, is_char_boundary}
use ddd_samples.Prelude.{
  ℕ, ◌+◌, String, ◌+++◌, Bool, true, false, Option, none, some, leb, if◌then◌else◌,
}
use ddd_samples.Prelude.Action.{Outcome, err, panic}
use ddd_samples.World.{Env}

pub data SerializationError : Type 0 where
  -- message, event type, field
  json_serialization_failed : String → String → Option String → SerializationError
  -- message, expected type, input preview
  json_deserialization_failed : String → String → String → SerializationError
  -- expected, actual, event type
  schema_version_incompatible : ℕ → ℕ → String → SerializationError
  -- field name, event type
  missing_required_field : String → String → SerializationError
  -- field name, field value, event type, reason
  invalid_field_value : String → String → String → String → SerializationError
  -- object type, event type, details
  complex_object_serialization_failed : String → String → String → SerializationError
  -- validation error, event type
  schema_validation_failed : String → String → SerializationError
  -- format, event type
  unsupported_event_format : String → String → SerializationError

-- The `#[error(…)]` attributes.
unfoldable pub show : Env → SerializationError → String
show env (json_serialization_failed message event_type field) =
    "JSON serialization failed: "
    +++ message
    +++ ". Event type: "
    +++ event_type
    +++ ", Field: "
    +++ env.debug_field field
show env (json_deserialization_failed message expected_type input_preview) =
    "JSON deserialization failed: " +++ message +++ ". Expected type: " +++ expected_type
    +++ ", Input: " +++ input_preview
show env (schema_version_incompatible expected actual event_type) =
    "Schema version incompatibility: Expected version "
    +++ env.show_u32 expected
    +++ ", found "
    +++ env.show_u32 actual
    +++ ". Event type: "
    +++ event_type
show env (missing_required_field field_name event_type) =
    "Missing required field: " +++ field_name +++ " in event type " +++ event_type
show env (invalid_field_value field_name field_value event_type reason) =
    "Invalid field value: " +++ field_name +++ " = " +++ field_value +++ " in event type "
    +++ event_type +++ ". Reason: " +++ reason
show env (complex_object_serialization_failed object_type event_type details) =
    "Complex object serialization failed: " +++ object_type +++ " in event " +++ event_type
    +++ ". Details: " +++ details
show env (schema_validation_failed validation_error event_type) =
    "Event schema validation failed: " +++ validation_error +++ " for event type " +++ event_type
show env (unsupported_event_format format event_type) =
    "Unsupported event format: " +++ format +++ " for event type " +++ event_type

-- `SerializationError::create_input_preview`; `&input[..97]` panics (`none`) where byte 97 is
-- inside a character.
unfoldable pub create_input_preview : String → Option String
create_input_preview input =
    if leb (len input) 100
    then some input
    else if is_char_boundary input 97
    then some (slice input 0 97 +++ "...")
    else none

abbrev with_preview : {A : Type 0} → String → String → Option String → Outcome SerializationError A
with_preview message expected_type none = panic
with_preview message expected_type (some preview) =
    err (json_deserialization_failed message expected_type preview)

-- `Err(SerializationError::json_deserialization_failed(…))`
abbrev pub deserialization_failed :
    {A : Type 0} → String → String → String → Outcome SerializationError A
deserialization_failed message expected_type input =
    with_preview message expected_type (create_input_preview input)

-- `str::contains`
abbrev contains : String → String → Bool
contains s pattern = elim (find? s pattern) [ none ↦ false | some _ ↦ true ]

-- The part before the first occurrence of a pattern, or the whole text.
abbrev before : String → String → String
before pattern s = elim (find? s pattern) [ none ↦ s | some i ↦ slice s 0 i ]

-- The part behind the first occurrence of a pattern.
abbrev after? : String → String → Option String
after? pattern s = elim (find? s pattern) [
  | none ↦ none
  | some i ↦ some (slice s (i + len pattern) (len s))
]

-- `.split("missing field `").nth(1).and_then(|s| s.split('`').next()).unwrap_or("unknown")`
abbrev missing_field : String → String
missing_field error_msg = elim (after? "missing field `" error_msg) [
  | none ↦ "unknown"
  | some rest ↦ before "`" (before "missing field `" rest)
]

-- `EventSerializer::analyze_serialization_error`
unfoldable pub analyze_serialization_error : String → String → SerializationError
analyze_serialization_error error_msg event_type =
    if contains error_msg "invalid type"
    then complex_object_serialization_failed "Unknown" event_type
        ("Type mismatch during serialization: " +++ error_msg)
    else if contains error_msg "missing field"
    then missing_required_field (missing_field error_msg) event_type
    else json_serialization_failed error_msg event_type none

-- `EventSerializer::analyze_deserialization_error`, returned as an `Err`.
unfoldable pub analyze_deserialization_error :
    {A : Type 0} → String → String → Outcome SerializationError A
analyze_deserialization_error error_msg json =
    if contains error_msg "missing field"
    then err (missing_required_field (missing_field error_msg) "Unknown")
    else if contains error_msg "invalid type"
    then deserialization_failed ("Type mismatch: " +++ error_msg) "DomainEvent" json
    else if contains error_msg "unknown variant"
    then err (unsupported_event_format "Unknown event variant" "Unknown")
    else deserialization_failed error_msg "DomainEvent" json
