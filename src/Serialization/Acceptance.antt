-- ===== src/Serialization/Acceptance.antt =====
-- Which events the bus takes: `validate_event_serialization` of adapter/driven/event_bus.rs over
-- the serializer.
use ddd_samples.Prelude.{
  ℕ, ◌<◌, String, is_blank, ◌≡◌, refl, ap, ◌↔◌, Bool, true, false, not, some, is_empty, arith,
}
use ddd_samples.Prelude.Action.{Outcome, ok, err, panic}
use ddd_samples.Prelude.Result.{◌>>=◌, ◌>>◌, refuse_if, or_else}
use ddd_samples.World.{
  Env, DomainEvent, metadata_of, event_type, order_confirmed, inventory_reserved,
}
use ddd_samples.World.Json.{Json, get, str, unsigned}
use ddd_samples.Serialization.{
  is_supported, is_nil, is_empty_text, check_identifiers, check_event, serialize_event,
  deserialize_event, validate_event_before_serialization, validate_serialized_json,
  validate_schema_compatibility, validate_deserialized_event,
}
use ddd_samples.Bus.{validate_event_serialization}

-- What serde's derived implementations and `serde_json` promise for one event: a text that is not
-- blank, that is an object with the tag and the content, the content with its metadata, and that
-- is read back as the event.
pub record IsSerialized (env : Env) (e : DomainEvent) : Type 0 where
  pub json : String
  pub value : Json
  pub body : Json
  pub header : Json
  pub written : env.serde_to_string e ≡ ok json
  pub filled : is_blank json ≡ false
  pub parsed : env.serde_value json ≡ ok value
  pub tag : get "event_type" value ≡ some (str (event_type e))
  pub content : get "event_data" value ≡ some body
  pub inner : get "metadata" body ≡ some header
  pub version : get "event_version" header ≡ some (unsigned (metadata_of e).event_version)
  pub read : env.serde_from_str json ≡ ok e

-- The tests that depend on the kind of event.
abbrev pub IsFitKind : Env → DomainEvent → Type 0
IsFitKind env (order_confirmed e) =
    (is_empty_text (env.show_uuid e.order_id) ≡ false)
    × (is_empty_text (env.show_uuid e.customer_id) ≡ false)
IsFitKind env (inventory_reserved e) = is_empty e.order_lines ≡ false
IsFitKind env _ = Unit

-- An event of schema version 1 with identifiers that are not nil.
abbrev pub IsFit : Env → DomainEvent → Type 0
IsFit env e =
    ((metadata_of e).event_version ≡ 1)
    × (0 < (metadata_of e).event_id)
    × (0 < (metadata_of e).correlation_id)
    × IsFitKind env e

module _ {E B : Type 0} where
  refuse_if-inv :
      (c : Bool) (e : E) (k : Outcome E B) {b : B}
      → (refuse_if c e >> k) ≡ ok b
      → (c ≡ false) × (k ≡ ok b)
  refuse_if-inv true e k h = cc
  refuse_if-inv false e k h = (refl, h)

  or_else-inv :
      {F : Type 0} (r : Outcome F B) (f : F → E) {b : B}
      → or_else r (λ e. err (f e)) ≡ ok b
      → r ≡ ok b
  or_else-inv (ok a) f h = let same : a ≡ _ = cc in ap ok same
  or_else-inv (err e) f h = cc
  or_else-inv panic f h = cc

  result-inv :
      {A : Type 0} (r : Outcome E A) (f : A → Outcome E B) {b : B}
      → (r >>= f) ≡ ok b
      → (a : A) × (r ≡ ok a) × (f a ≡ ok b)
  result-inv (ok a) f h = (a, refl, h)
  result-inv (err e) f h = cc
  result-inv panic f h = cc

refuse_if-ok : {E : Type 0} (c : Bool) (e : E) → refuse_if c e ≡ ok tt → c ≡ false
refuse_if-ok true e h = cc
refuse_if-ok false e h = refl

module _ (env : Env) where
  check_event-ok : (e : DomainEvent) → check_event env e ≡ ok tt → IsFitKind env e
  check_event-ok (order_confirmed e) h =
      let (a, rest) = refuse_if-inv (is_empty_text (env.show_uuid e.order_id)) _ _ h in
      (a, (refuse_if-ok (is_empty_text (env.show_uuid e.customer_id)) _ rest))
  check_event-ok (inventory_reserved e) h = refuse_if-ok (is_empty e.order_lines) _ h
  check_event-ok _ h = tt

  ok-check_event : (e : DomainEvent) → IsFitKind env e → check_event env e ≡ ok tt
  ok-check_event (order_confirmed e) h = rw (h.0, h.1) refl
  ok-check_event (inventory_reserved e) h = rw h refl
  ok-check_event _ h = refl

  not_nil : (u : ℕ) → 0 < u → is_nil u ≡ false
  not_nil u h = ground arith

  serialize_event-IsFit :
      (e : DomainEvent) (json : String) → serialize_event env e ≡ ok json → IsFit env e
  unfolding serialize_event validate_event_before_serialization
  serialize_event-IsFit e json h =
      let m = metadata_of e in
      let (version, checked) = refuse_if-inv (not (is_supported m.event_version)) _ _ h in
      let (_, valid, _) = result-inv _ _ checked in
      let (_, ids, kind) = result-inv (check_identifiers m (event_type e)) _ valid in
      let (id, correlation) = refuse_if-inv (is_nil m.event_id) _ _ ids in
      let correlated = refuse_if-ok (is_nil m.correlation_id) _ correlation in
      (ground arith, ground arith, ground arith, check_event-ok e kind)

  serialize_event-written :
      (e : DomainEvent) (s : IsSerialized env e) → IsFit env e → serialize_event env e ≡ ok s.json
  unfolding serialize_event validate_event_before_serialization validate_serialized_json
  serialize_event-written e s fit =
      rw
        (
          fit.0,
          not_nil _ fit.1,
          not_nil _ fit.2,
          ok-check_event e fit.3,
          s.written,
          s.parsed,
          s.tag,
          s.content,
        )
        refl

  deserialize_event-read :
      (e : DomainEvent) (s : IsSerialized env e) → IsFit env e → deserialize_event env s.json ≡ ok e
  unfolding deserialize_event validate_schema_compatibility validate_deserialized_event
  deserialize_event-read e s fit =
      rw
        (
          s.filled,
          s.parsed,
          s.tag,
          s.content,
          s.inner,
          s.version,
          fit.0,
          s.read,
          not_nil _ fit.1,
          not_nil _ fit.2,
        )
        refl

  -- If the texts and the values that serde gives for an event are as its documentation says, then
  -- the bus takes the event exactly when its schema version is 1, its two identifiers are not nil,
  -- the identifiers of an `OrderConfirmed` have texts, and an `InventoryReserved` has lines.
  pub validate_event_serialization-eq-ok_iff :
      (e : DomainEvent)
      → IsSerialized env e
      → (validate_event_serialization env e ≡ ok tt) ↔ IsFit env e
  unfolding validate_event_serialization
  validate_event_serialization-eq-ok_iff e s = (
    λ h.
        let (json, there, _) = result-inv _ _ h in
        serialize_event-IsFit e json (or_else-inv (serialize_event env e) _ there),
    λ fit. rw (serialize_event-written e s fit, deserialize_event-read e s fit) refl,
  )
