-- ===== src/Tests/Edges.antt =====
-- The theorems on the interface, the serializer and the start of the program at concrete inputs.
use ddd_samples.Prelude.{
  ◌≡◌, ◌↔◌, refl, String, Option, none, some, List, [], ◌∷◌, ◌++◌, str_eq, if◌then◌else◌,
}
use ddd_samples.Prelude.Text.{is_whitespace}
use ddd_samples.Prelude.Int.{pos, ◌*ℤ◌, ◌+ℤ◌}
use ddd_samples.Prelude.Action.{◌>>=◌, Outcome, ok, err, pure}
use ddd_samples.Value.OrderStatus.{pending, shipped}
use ddd_samples.Order
use ddd_samples.Order.{Order, calculate_total, fold_subtotals, shipping_fee}
use ddd_samples.Value.OrderLine
use ddd_samples.Value.Money
use ddd_samples.Value.OrderStatus
use ddd_samples.Service
use ddd_samples.Service.{load}
use ddd_samples.Port.{find_by_id}
use ddd_samples.Api.Endpoints
use ddd_samples.World.{World, Env, order_confirmed, warning_level}
use ddd_samples.World.Json.{Json, obj, field, end, str, unsigned}
use ddd_samples.Bus.{validate_event_serialization}
use ddd_samples.Service.Listing.{Lists}
use ddd_samples.Api.{map_application_error, map_domain_error, refusal, bad_request}
use ddd_samples.Api.Responses.{
  fold_amounts, fee_for, from_order_line, from_shipping_address, OrderDetailResponse,
  detail_from_order,
}
use ddd_samples.Api.Totals.{AddsUp, detail-AddsUp}
use ddd_samples.Api.Endpoints.{route, post_ship, post_cancel, get_order}
use ddd_samples.Api.Refusals.{Same, Same-refl}
use ddd_samples.Api.Routes.{IsReading, refused-Same}
use ddd_samples.Serialization.Acceptance.{IsFit, validate_event_serialization-eq-ok_iff}
use ddd_samples.Config.{DatabaseConfig, from_env}
use ddd_samples.Config.Parsing.{Says, from_env-eq-ok_iff}
use ddd_samples.Console.{Platform, Streams}
use ddd_samples.Console.Lines.{Written, method, line, method-Written}
use ddd_samples.Migration.{run}
use ddd_samples.Migration.Order.{Ran, run-Ran}
use ddd_samples.Tests.Data.{sound_env, order_in, world_in, quiet_bus, confirmed_event}

abbrev no_lists : Lists World
no_lists = record {
  find_all = pure [];
  find_by_status = λ s. pure [];
  find_all_stock = pure [];
  find_by_max_quantity = λ n. pure [];
}

no_lists-IsReading : IsReading no_lists
no_lists-IsReading = record {
  all_orders = Same-refl;
  by_status = λ s. Same-refl;
  all_stock = Same-refl;
  by_max_quantity = λ n. Same-refl;
}

refused-Same_example : Same (world_in pending) (record (world_in pending) { calls = 1 })
unfolding route Endpoints.mark_order_as_shipped Service.mark_order_as_shipped load find_by_id
    Order.mark_as_shipped map_application_error map_domain_error ◌>>=◌ OrderStatus.show
refused-Same_example =
    refused-Same sound_env no_lists no_lists-IsReading quiet_bus (post_ship 1) (world_in pending)
      (record (world_in pending) { calls = 1 })
      (refusal bad_request "発送済みにマークできるのはConfirmed状態のみです" "INVALID_ORDER_STATE") refl tt

abbrev shown : OrderDetailResponse
shown = record {
  order_id = "id";
  customer_id = "id";
  status = "Pending";
  order_lines =
      record {
        book_id = "id";
        quantity = 2;
        unit_price_amount = pos 1500;
        unit_price_currency = "JPY";
        subtotal_amount = pos 3000;
        subtotal_currency = "JPY";
      }
      ∷ [];
  shipping_address = some (record {
    postal_code = "1234567";
    prefecture = "東京都";
    city = "渋谷区";
    street = "道玄坂1-2-3";
    building = none;
  });
  subtotal_amount = pos 3000;
  subtotal_currency = "JPY";
  shipping_fee_amount = pos 500;
  shipping_fee_currency = "JPY";
  total_amount = pos 3500;
  total_currency = "JPY";
}

abbrev parsed : Json
parsed = obj (
    field "event_type" (str "OrderConfirmed") (
      field "event_data" (obj (field "metadata" (obj (field "event_version" (unsigned 1) end)) end))
        end))

abbrev serde_env : Env
serde_env = record sound_env {
  serde_to_string = λ e. ok "{…}";
  serde_from_str = λ s. ok (order_confirmed confirmed_event);
  serde_value = λ s. ok parsed;
}

validate_event_serialization-eq-ok_iff_example :
    (validate_event_serialization serde_env (order_confirmed confirmed_event) ≡ ok tt)
    ↔ IsFit serde_env (order_confirmed confirmed_event)
unfolding is_whitespace
validate_event_serialization-eq-ok_iff_example =
    validate_event_serialization-eq-ok_iff serde_env (order_confirmed confirmed_event) (record {
      json = "{…}";
      value = parsed;
      body = obj (field "metadata" (obj (field "event_version" (unsigned 1) end)) end);
      header = obj (field "event_version" (unsigned 1) end);
      written = refl;
      filled = refl;
      parsed = refl;
      tag = refl;
      content = refl;
      inner = refl;
      version = refl;
      read = refl;
    })

abbrev environment : String → Option String
environment name = if str_eq name "DATABASE_PORT" then some "+3307" else none

abbrev config : DatabaseConfig
config = record {
  host = "localhost";
  port = 3307;
  database = "bookstore_db";
  username = "bookstore_user";
  password = "bookstore_password";
  max_connections = 10;
}

from_env-eq-ok_iff_example : (from_env environment ≡ ok config) ↔ Says environment config
from_env-eq-ok_iff_example = from_env-eq-ok_iff environment config

abbrev platform : Platform
platform = record {
  now = λ n. n;
  show_time = λ t. "2024-01-01 00:00:00 UTC";
  show_uuid = λ i. "id";
  debug_duration = λ t. "1ms";
  walk = λ m. m;
}

abbrev silence : Streams
silence = record { stdout = []; stderr = []; ticks = 0 }

abbrev pairs : List (String × String)
pairs = ("order_id", "id") ∷ ("status", "late") ∷ []

method-Written_example :
    Written warning_level
      (line platform 0 warning_level "Main" "slow" (some 7) pairs)
      silence
      (method platform warning_level "Main" "slow" (some 7) (some pairs) silence)
method-Written_example =
    method-Written platform warning_level "Main" "slow" (some 7) (some pairs) silence
      (tt, ((refl, tt), tt))

-- A database that is the list of the scripts that it has run, and does not know "b".
abbrev script : String → List String → Outcome String (List String)
script sql d = if str_eq sql "b" then err "syntax" else ok (d ++ sql ∷ [])

run-Ran_example :
    Ran script
      (λ n. "n")
      1
      ("a" ∷ "b" ∷ "c" ∷ [])
      []
      (run script (λ n. "n") ("a" ∷ "b" ∷ "c" ∷ []) (record { database = []; notes = [] }))
run-Ran_example =
    run-Ran script (λ n. "n") ("a" ∷ "b" ∷ "c" ∷ []) (record { database = []; notes = [] })

detail-AddsUp_example : AddsUp sound_env (order_in pending) shown
unfolding detail_from_order fold_amounts fee_for from_order_line from_shipping_address
    OrderLine.subtotal calculate_total fold_subtotals shipping_fee Money.currency OrderStatus.show
    Money.add ◌*ℤ◌ ◌+ℤ◌
detail-AddsUp_example = detail-AddsUp sound_env refl (order_in pending) shown refl
