-- ===== src/Api/Responses.antt =====
-- The bodies of the answers, adapter/driver/response_dto.rs. Every amount is computed, so a
-- conversion may panic where the arithmetic overflows: `none`.
use ddd_samples.Prelude.{if◌then◌else◌, and_then, ℕ, String, Option, none, some, List, [], ◌∷◌}
use ddd_samples.Prelude.Int.{ℤ, pos, leb_ℤ}
use ddd_samples.Value.Money.{Money}
use ddd_samples.Value.Money
use ddd_samples.Value.OrderLine.{OrderLine}
use ddd_samples.Value.OrderLine
use ddd_samples.Value.OrderStatus
use ddd_samples.Value.ShippingAddress.{ShippingAddress}
use ddd_samples.Order.{Order, unwrap_or, calculate_total}
use ddd_samples.Inventory.{Inventory}
use ddd_samples.World.{Env}

pub record OrderSummaryResponse : Type 0 where
  pub order_id : String
  pub customer_id : String
  pub status : String
  pub total_amount : ℤ  -- i64
  pub total_currency : String
  pub created_at : String

pub record OrderLineResponse : Type 0 where
  pub book_id : String
  pub quantity : ℕ  -- u32
  pub unit_price_amount : ℤ  -- i64
  pub unit_price_currency : String
  pub subtotal_amount : ℤ  -- i64
  pub subtotal_currency : String

pub record ShippingAddressResponse : Type 0 where
  pub postal_code : String
  pub prefecture : String
  pub city : String
  pub street : String
  pub building : Option String

pub record OrderDetailResponse : Type 0 where
  pub order_id : String
  pub customer_id : String
  pub status : String
  pub order_lines : List OrderLineResponse
  pub shipping_address : Option ShippingAddressResponse
  pub subtotal_amount : ℤ  -- i64
  pub subtotal_currency : String
  pub shipping_fee_amount : ℤ  -- i64
  pub shipping_fee_currency : String
  pub total_amount : ℤ  -- i64
  pub total_currency : String

pub record InventoryResponse : Type 0 where
  pub book_id : String
  pub quantity_on_hand : ℕ  -- u32

-- `iter().map(f).collect()`, where `f` may panic.
abbrev pub collect : {A B : Type 0} → (A → Option B) → List A → Option (List B)
collect f [] = some []
collect f (x ∷ xs) = and_then (f x) λ y. and_then (collect f xs) λ ys. some (y ∷ ys)

-- `ShippingAddressResponse::from_shipping_address`
unfoldable pub from_shipping_address : ShippingAddress → ShippingAddressResponse
from_shipping_address address = record {
  postal_code = address.postal_code;
  prefecture = address.prefecture;
  city = address.city;
  street = address.street;
  building = address.building;
}

abbrev map_address : Option ShippingAddress → Option ShippingAddressResponse
map_address none = none
map_address (some address) = some (from_shipping_address address)

module _ (env : Env) where
  -- `OrderSummaryResponse::from_order`
  unfoldable pub summary_from_order : Order → Option OrderSummaryResponse
  summary_from_order order = and_then (calculate_total env.profile order) λ total. some (record {
    order_id = env.show_uuid order.id;
    customer_id = env.show_uuid order.customer_id;
    status = OrderStatus.show order.status;
    total_amount = total.amount;
    total_currency = Money.currency total;
    created_at = "2024-01-01T00:00:00Z";
  })

  -- `OrderLineResponse::from_order_line`
  unfoldable pub from_order_line : OrderLine → Option OrderLineResponse
  from_order_line order_line = and_then (OrderLine.subtotal env.profile order_line) λ subtotal.
      some (record {
        book_id = env.show_uuid order_line.book_id;
        quantity = order_line.quantity;
        unit_price_amount = order_line.unit_price.amount;
        unit_price_currency = Money.currency order_line.unit_price;
        subtotal_amount = subtotal.amount;
        subtotal_currency = Money.currency subtotal;
      })

  -- `.map(|line| line.subtotal()).fold(Money::jpy(0), |acc, amount| acc.add(&amount).unwrap_or(acc))`
  unfoldable pub fold_amounts : Money → List OrderLine → Option Money
  fold_amounts acc [] = some acc
  fold_amounts acc (line ∷ lines) = and_then (OrderLine.subtotal env.profile line) λ amount.
      and_then (unwrap_or (Money.add env.profile acc amount) acc) λ acc'. fold_amounts acc' lines

  -- `let shipping_fee = if subtotal.amount() >= 10_000 …`
  unfoldable pub fee_for : Money → Money
  fee_for subtotal =
      if leb_ℤ (pos 10000) subtotal.amount then Money.jpy (pos 0) else Money.jpy (pos 500)

  -- What `from_order` puts together, once every amount is there.
  abbrev pub detail : Order → List OrderLineResponse → Money → Money → OrderDetailResponse
  detail order order_lines subtotal total = record {
    order_id = env.show_uuid order.id;
    customer_id = env.show_uuid order.customer_id;
    status = OrderStatus.show order.status;
    order_lines = order_lines;
    shipping_address = map_address order.shipping_address;
    subtotal_amount = subtotal.amount;
    subtotal_currency = Money.currency subtotal;
    shipping_fee_amount = (fee_for subtotal).amount;
    shipping_fee_currency = Money.currency (fee_for subtotal);
    total_amount = total.amount;
    total_currency = Money.currency total;
  }

  -- `OrderDetailResponse::from_order`
  unfoldable pub detail_from_order : Order → Option OrderDetailResponse
  detail_from_order order = and_then (collect from_order_line order.order_lines) λ order_lines.
      and_then (fold_amounts (Money.jpy (pos 0)) order.order_lines) λ subtotal.
        and_then (calculate_total env.profile order)
          λ total. some (detail order order_lines subtotal total)

  -- `InventoryResponse::from_inventory`
  unfoldable pub from_inventory : Inventory → InventoryResponse
  from_inventory inventory = record {
    book_id = env.show_uuid inventory.book_id;
    quantity_on_hand = inventory.quantity_on_hand;
  }
