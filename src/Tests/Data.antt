-- ===== src/Tests/Data.antt =====
-- An environment, orders and worlds for the examples.
use ddd_samples.Prelude.{
  ◌+◌, ◌≡◌, none, some, List, [], ◌∷◌, ◌==◌, if◌then◌else◌, Bool-cases, inl, inr, ==→≡, sym, ap,
  ◌∙◌,
}
use ddd_samples.Prelude.Int.{pos}
use ddd_samples.Prelude.Words.{debug}
use ddd_samples.Prelude.Action.{ok, err}
use ddd_samples.Value.{BookId}
use ddd_samples.Value.Money.{Money}
use ddd_samples.Value.Money
use ddd_samples.Value.OrderLine.{OrderLine}
use ddd_samples.Value.OrderStatus.{OrderStatus, pending}
use ddd_samples.Value.ShippingAddress.{ShippingAddress}
use ddd_samples.Order.{Order}
use ddd_samples.Inventory.{Inventory}
use ddd_samples.World.{World, Env, EventMetadata, OrderConfirmed, InventoryReserved, OrderShipped}
use ddd_samples.Handler.Common.{Publish}

abbrev pub sound_env : Env
sound_env = record {
  profile = debug;
  fault = λ n. none;
  uuid_v4 = λ n. 100 + n;
  now = λ n. n;
  show_uuid = λ i. "id";
  debug_uuid = λ i. "id";
  show_i64 = λ n. "n";
  timeout = λ m w. (some (m w).0, (m w).1);
  serde_to_string = λ e. ok "{}";
  serde_from_str = λ s. err "eof";
  serde_value = λ s. err "eof";
  show_u32 = λ n. "n";
  debug_field = λ o. "field";
}

abbrev pub price : Money
price = Money.jpy (pos 1500)

abbrev pub line : OrderLine
line = record { book_id = 5; quantity = 2; unit_price = price }

abbrev pub lines : List OrderLine
lines = line ∷ []

abbrev pub address : ShippingAddress
address = record {
  postal_code = "1234567";
  prefecture = "東京都";
  city = "渋谷区";
  street = "道玄坂1-2-3";
  building = none;
}

abbrev pub order_in : OrderStatus → Order
order_in s = record {
  id = 1;
  customer_id = 7;
  order_lines = lines;
  shipping_address = some address;
  status = s;
}

abbrev pub row : Inventory
row = record { book_id = 5; quantity_on_hand = 10 }

-- One order, in the status `s`, and ten copies of book 5.
abbrev pub world_in : OrderStatus → World
world_in s = record {
  orders = λ i. if i == 1 then some (order_in s) else none;
  stock = λ b. if b == 5 then some row else none;
  calls = 0;
  draws = 0;
  ticks = 0;
  processed = λ t. [];
  dead_letters = [];
  log = [];
}

abbrev pub empty_world : World
empty_world = record (world_in pending) { orders = λ i. none; stock = λ b. none }

-- A bus without subscriptions.
abbrev pub quiet_bus : Publish
quiet_bus e w = (ok tt, w)

abbrev pub metadata : EventMetadata
metadata = record {
  event_id = 50;
  occurred_at = 0;
  correlation_id = 60;
  event_version = 1;
  additional_metadata = [];
}

abbrev pub confirmed_event : OrderConfirmed
confirmed_event = record {
  metadata = metadata;
  order_id = 1;
  customer_id = 7;
  order_lines = lines;
  total_amount = price;
}

abbrev pub reserved_event : InventoryReserved
reserved_event = record { metadata = metadata; order_id = 1; order_lines = lines }

abbrev pub shipped_event : OrderShipped
shipped_event = record { metadata = metadata; order_id = 1; shipping_address = address }

pub stock-keyed :
    (s : OrderStatus) (b : BookId) (v : Inventory) → (world_in s).stock b ≡ some v → v.book_id ≡ b
stock-keyed s b v e = elim (Bool-cases (b == 5)) [
  | inl t ↦
      let found : some row ≡ some v = rw t at e in
      let same : row ≡ v = cc in ap (λ y. y.book_id) (sym same) ∙ sym (==→≡ b 5 t)
  | inr n ↦ let found : none ≡ some v = rw n at e in cc
]
