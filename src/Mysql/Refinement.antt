-- ===== src/Mysql/Refinement.antt =====
-- The tables as a representation of the map behind the `OrderRepository` port: which tables stand
-- for which map, and what the database is trusted for.
pub mod Upsert
pub mod Saving
pub mod Update
pub mod Finding
pub mod Ports
pub mod Stock
pub mod StockLists
pub mod Grouping
pub mod Groups
pub mod HeldRows
pub mod HeldKeys
pub mod Building
pub mod OrderLists
use ddd_samples.Prelude.{
  ℕ, ⊤, String, ◌≡◌, ◌≢◌, Option, none, some, List, [], ◌∷◌, map, All, filter_by, Perm, ap, sym,
  ◌∙◌,
}
use ddd_samples.Prelude.Action.{ok}
use ddd_samples.Value.{Uuid, OrderId}
use ddd_samples.Value.OrderLine.{OrderLine}
use ddd_samples.Value.ShippingAddress
use ddd_samples.Value.ShippingAddress.{ShippingAddress}
use ddd_samples.Order.{Order}
use ddd_samples.Order.Lines.{IsLine}
use ddd_samples.Mysql.Tables.{
  OrderRow, LineRow, StockRow, Tables, Statement, JoinedRow, by_id, chosen, StockQuery, lines_of,
  apply, select, select_stock,
}
use ddd_samples.Mysql.Driver.{Driver}
use ddd_samples.Mysql.Orders.{order_row, line_row}

-- A statement that is carried out does what it says; a query by identifier returns the rows it
-- asks for, the lines in any order; and the text of a UUID is read back as that UUID.
pub record IsFaithful (driver : Driver) : Type 0 where
  pub effect :
      (n : ℕ) (statement : Statement) (t t' : Tables)
      → driver.execute n statement t ≡ ok t'
      → t' ≡ apply statement t
  pub rows :
      (n : ℕ) (i : String) (t : Tables) (rows : List JoinedRow)
      → driver.fetch n (by_id i) t ≡ ok rows
      → (ls : List LineRow) × Perm ls t.order_lines
        × (rows ≡ select (by_id i) (record t { order_lines = ls }))
  pub stock_rows :
      (n : ℕ) (q : StockQuery) (t : Tables) (rows : List StockRow)
      → driver.fetch_stock n q t ≡ ok rows
      → Perm rows (select_stock q t)
  pub parse-show : (i : Uuid) → driver.parse_uuid (driver.show_uuid i) ≡ ok i

-- An address that `ShippingAddress::new` accepts.
abbrev pub IsAddress : Option ShippingAddress → Type 0
IsAddress none = Unit
IsAddress (some a) =
    ShippingAddress.new a.postal_code a.prefecture a.city a.street a.building ≡ ok a

-- An order that can be read back: its lines and its address pass their constructors.
abbrev pub IsStorable : Order → Type 0
IsStorable o = All IsLine o.order_lines × IsAddress o.shipping_address

module _ (driver : Driver) where
  abbrev pub rows_of : String → List OrderRow → List OrderRow
  rows_of i = filter_by (chosen (by_id i))

  -- The tables hold exactly this order under its identifier; the order of its lines is open.
  pub record Holds (t : Tables) (o : Order) : Type 0 where
    pub header : rows_of (driver.show_uuid o.id) t.orders ≡ order_row driver o ∷ []
    pub lines :
        Perm
          (lines_of (driver.show_uuid o.id) t.order_lines)
          (map (line_row driver o.id) o.order_lines)

  -- What the tables have to do with what the map says of one identifier.
  abbrev pub RepresentsAt : Tables → OrderId → Option Order → Type 0
  RepresentsAt t i none = rows_of (driver.show_uuid i) t.orders ≡ []
  RepresentsAt t i (some o) = (o.id ≡ i) × IsStorable o × Holds t o

  -- The tables represent the map.
  abbrev pub Represents : Tables → (OrderId → Option Order) → Type 0
  Represents t m = (i : OrderId) → RepresentsAt t i (m i)

pub show_ne :
    {driver : Driver}
    → IsFaithful driver
    → (i j : Uuid) → i ≢ j
    → driver.show_uuid i ≢ driver.show_uuid j
show_ne {driver} f i j h e =
    let same = sym (f.parse-show i) ∙ ap driver.parse_uuid e ∙ f.parse-show j in h cc
