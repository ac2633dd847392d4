-- ===== src/Mysql/Tables.antt =====
-- The tables of migrations/*.sql, and what the statements and queries of the repositories say
-- about them. The database behind them is a parameter, `Driver`.
use ddd_samples.Prelude.{
  ℕ, String, str_eq, Bool, not, Option, none, some, List, [], ◌∷◌, ◌++◌, map, filter_by, leb,
  if◌then◌else◌,
}
use ddd_samples.Prelude.Int.{ℤ}

-- A row of `orders`, without its time stamps.
pub record OrderRow : Type 0 where
  pub id : String
  pub customer_id : String
  pub status : String
  pub postal_code : Option String
  pub prefecture : Option String
  pub city : Option String
  pub street : Option String
  pub building : Option String

-- A row of `order_lines`, without its own number.
pub record LineRow : Type 0 where
  pub order_id : String
  pub book_id : String
  pub quantity : ℕ  -- INT UNSIGNED
  pub unit_price_amount : ℤ  -- BIGINT
  pub unit_price_currency : String

-- A row of `inventories`, without its time stamp.
pub record StockRow : Type 0 where
  pub book_id : String
  pub quantity_on_hand : ℕ  -- INT UNSIGNED

pub record Tables : Type 0 where
  pub orders : List OrderRow
  pub order_lines : List LineRow
  pub inventories : List StockRow

-- The statements, with the values bound to them.
pub data Statement : Type 0 where
  upsert_order : OrderRow → Statement  -- INSERT INTO orders … ON DUPLICATE KEY UPDATE …
  delete_lines : String → Statement  -- DELETE FROM order_lines WHERE order_id = ?
  insert_line : LineRow → Statement  -- INSERT INTO order_lines …
  upsert_stock : StockRow → Statement  -- INSERT INTO inventories … ON DUPLICATE KEY UPDATE …

-- The `ON DUPLICATE KEY UPDATE` of an order: every column but `id` and `customer_id`.
abbrev pub overwrite : OrderRow → OrderRow → OrderRow
overwrite old new = record new { customer_id = old.customer_id }

-- `INSERT … ON DUPLICATE KEY UPDATE`, for a table whose rows have a key.
abbrev pub upsert : {A : Type 0} → (A → String) → (A → A → A) → A → List A → List A
upsert key merge new [] = new ∷ []
upsert key merge new (old ∷ rows) =
    if str_eq (key old) (key new) then merge old new ∷ rows else old ∷ upsert key merge new rows

abbrev pub upsert_row : OrderRow → List OrderRow → List OrderRow
upsert_row = upsert (λ row. row.id) overwrite

abbrev pub upsert_stock_row : StockRow → List StockRow → List StockRow
upsert_stock_row = upsert (λ row. row.book_id) (λ old new. new)

-- What a statement asks for.
unfoldable pub apply : Statement → Tables → Tables
apply (upsert_order new) t = record t { orders = upsert_row new t.orders }
apply (delete_lines i) t = record t {
  order_lines = filter_by (λ l. not (str_eq l.order_id i)) t.order_lines;
}
apply (insert_line l) t = record t { order_lines = t.order_lines ++ l ∷ [] }
apply (upsert_stock new) t = record t { inventories = upsert_stock_row new t.inventories }

-- A row of `orders o LEFT JOIN order_lines ol ON o.id = ol.order_id`.
pub record JoinedRow : Type 0 where
  pub order : OrderRow
  pub line : Option LineRow

-- The rows that one order contributes to the join.
abbrev pub join_lines : OrderRow → List LineRow → List JoinedRow
join_lines o [] = record { order = o; line = none } ∷ []
join_lines o (l ∷ ls) = map (λ x. record { order = o; line = some x }) (l ∷ ls)

abbrev pub lines_of : String → List LineRow → List LineRow
lines_of i = filter_by (λ l. str_eq l.order_id i)

abbrev pub left_join : List OrderRow → List LineRow → List JoinedRow
left_join [] ls = []
left_join (o ∷ os) ls = join_lines o (lines_of o.id ls) ++ left_join os ls

-- The queries on orders.
pub data Query : Type 0 where
  by_id : String → Query  -- WHERE o.id = ?
  by_status : String → Query  -- WHERE o.status = ? ORDER BY o.created_at DESC
  every_order : Query  -- ORDER BY o.created_at DESC

abbrev pub chosen : Query → OrderRow → Bool
chosen (by_id i) o = str_eq o.id i
chosen (by_status s) o = str_eq o.status s
chosen every_order o = Bool.true

-- What a query asks for, but for the order of the rows.
unfoldable pub select : Query → Tables → List JoinedRow
select q t = left_join (filter_by (chosen q) t.orders) t.order_lines

-- The queries on the stock.
pub data StockQuery : Type 0 where
  by_book : String → StockQuery  -- WHERE book_id = ?
  at_most : ℕ → StockQuery  -- WHERE quantity_on_hand <= ? ORDER BY book_id ASC
  all_stock : StockQuery  -- ORDER BY book_id ASC

abbrev pub chosen_stock : StockQuery → StockRow → Bool
chosen_stock (by_book b) v = str_eq v.book_id b
chosen_stock (at_most n) v = leb v.quantity_on_hand n
chosen_stock all_stock v = Bool.true

unfoldable pub select_stock : StockQuery → Tables → List StockRow
select_stock q t = filter_by (chosen_stock q) t.inventories
