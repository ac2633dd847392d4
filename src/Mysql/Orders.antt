-- ===== src/Mysql/Orders.antt =====
-- `MySqlOrderRepository` of adapter/driven/order_repository.rs.
use ddd_samples.Prelude.{
  and_then, ⊤, String, ◌+++◌, str_eq, Option, none, some, List, [], ◌∷◌, ◌++◌, if◌then◌else◌,
}
use ddd_samples.Prelude.Action.{Outcome, ok, err, panic, Action, ◌>>=◌, ◌>>◌, pure, lift}
use ddd_samples.Prelude.Result
use ddd_samples.Error.{RepositoryError, DomainError, show_domain_error}
use ddd_samples.Value.{OrderId}
use ddd_samples.Value.Money
use ddd_samples.Value.OrderLine
use ddd_samples.Value.OrderLine.{OrderLine}
use ddd_samples.Value.OrderStatus
use ddd_samples.Value.OrderStatus.{OrderStatus}
use ddd_samples.Value.ShippingAddress
use ddd_samples.Value.ShippingAddress.{ShippingAddress}
use ddd_samples.Order.{Order, reconstruct}
use ddd_samples.Mysql.Tables.{
  OrderRow, LineRow, JoinedRow, upsert_order, delete_lines, insert_line, by_id, by_status,
  every_order,
}
use ddd_samples.Mysql.Driver.{
  DatabaseError, connection_error, query_error, Driver, Store, begin, commit, execute, fetch_all,
  transaction,
}

abbrev pub query_failed : String → String → DatabaseError
query_failed what e = query_error (what +++ e)

abbrev connection_lost : String → String → DatabaseError
connection_lost what e = connection_error (what +++ e)

-- `map_err(|e| RepositoryError::FetchFailed(format!("…: {}", e)))?`, on an error that is a text
-- and on a `DomainError`.
abbrev pub parsed : {A : Type 0} → String → Outcome String A → Outcome RepositoryError A
parsed what (ok a) = ok a
parsed what (err e) = err (RepositoryError.fetch_failed (what +++ e))
parsed what panic = panic

abbrev pub built : {A : Type 0} → String → Outcome DomainError A → Outcome RepositoryError A
built what (ok a) = ok a
built what (err e) = err (RepositoryError.fetch_failed (what +++ show_domain_error e))
built what panic = panic

-- The columns of an address that `save` binds.
abbrev pub address_columns : Option ShippingAddress → OrderRow → OrderRow
address_columns none row = row
address_columns (some a) row = record row {
  postal_code = some a.postal_code;
  prefecture = some a.prefecture;
  city = some a.city;
  street = some a.street;
  building = a.building;
}

module _ (driver : Driver) where
  -- The values that `save` binds for the order and for a line.
  unfoldable pub order_row : Order → OrderRow
  order_row order = address_columns order.shipping_address (record {
    id = driver.show_uuid order.id;
    customer_id = driver.show_uuid order.customer_id;
    status = OrderStatus.show order.status;
    postal_code = none;
    prefecture = none;
    city = none;
    street = none;
    building = none;
  })

  unfoldable pub line_row : OrderId → OrderLine → LineRow
  line_row i order_line = record {
    order_id = driver.show_uuid i;
    book_id = driver.show_uuid order_line.book_id;
    quantity = order_line.quantity;
    unit_price_amount = order_line.unit_price.amount;
    unit_price_currency = Money.currency order_line.unit_price;
  }

  -- The loop over the lines.
  unfoldable pub insert_lines : OrderId → List OrderLine → Action Store RepositoryError ⊤
  insert_lines i [] = pure tt
  insert_lines i (order_line ∷ order_lines) =
      execute driver (query_failed "注文明細の保存に失敗しました: ") (insert_line (line_row i order_line))
      >> insert_lines i order_lines

  -- `OrderRepository::save`
  unfoldable pub save : Order → Action Store RepositoryError ⊤
  save order = do
    begin driver (connection_lost "トランザクション開始に失敗しました: ")
    transaction (do
      execute driver (query_failed "注文の保存に失敗しました: ") (upsert_order (order_row order))
      execute driver (query_failed "注文明細の削除に失敗しました: ") (delete_lines (driver.show_uuid order.id))
      insert_lines order.id order.order_lines
      commit driver (query_failed "トランザクションのコミットに失敗しました: "))

  -- The address of a row, if its four required columns are there.
  unfoldable pub read_address : OrderRow → Outcome RepositoryError (Option ShippingAddress)
  read_address row =
      elim (and_then row.postal_code λ postal_code. and_then row.prefecture λ prefecture.
        and_then row.city λ city.
          and_then row.street
            λ street. some (ShippingAddress.new postal_code prefecture city street row.building)) [
              | none ↦ ok none
              | some address ↦ Result.◌>>=◌ (built "配送先住所の構築に失敗しました: " address) λ a. ok (some a)
            ]

  -- One round of the loop that reads the lines.
  unfoldable pub read_line : LineRow → Outcome RepositoryError OrderLine
  read_line row =
      Result.◌>>=◌ (parsed "書籍IDの解析に失敗しました: " (driver.parse_uuid row.book_id)) λ book_id.
        Result.◌>>=◌
          (built "金額の構築に失敗しました: " (Money.new row.unit_price_amount row.unit_price_currency))
          λ unit_price. built "注文明細の構築に失敗しました: " (OrderLine.new book_id row.quantity unit_price)

  -- The loop; a row without a line is passed over.
  unfoldable pub read_lines : List JoinedRow → Outcome RepositoryError (List OrderLine)
  read_lines [] = ok []
  read_lines (row ∷ rows) = elim row.line [
    | none ↦ read_lines rows
    | some l ↦
        Result.◌>>=◌ (read_line l)
          λ order_line. Result.◌>>=◌ (read_lines rows) λ order_lines. ok (order_line ∷ order_lines)
  ]

  -- What follows the test for no rows in `find_by_id`: the header comes from the first row.
  unfoldable pub read_order : OrderId → OrderRow → List JoinedRow → Outcome RepositoryError Order
  read_order order_id first_row rows =
      Result.◌>>=◌ (parsed "顧客IDの解析に失敗しました: " (driver.parse_uuid first_row.customer_id))
        λ customer_id.
          Result.◌>>=◌ (built "注文ステータスの解析に失敗しました: " (OrderStatus.from_string first_row.status))
            λ status. Result.◌>>=◌ (read_address first_row) λ shipping_address.
              Result.◌>>=◌ (read_lines rows) λ order_lines.
                built "注文集約の再構築に失敗しました: "
                  (reconstruct order_id customer_id order_lines shipping_address status)

  abbrev pub read_found : OrderId → List JoinedRow → Outcome RepositoryError (Option Order)
  read_found order_id [] = ok none
  read_found order_id (first_row ∷ rows) =
      Result.◌>>=◌ (read_order order_id first_row.order (first_row ∷ rows)) λ order. ok (some order)

  -- `OrderRepository::find_by_id`
  unfoldable pub find_by_id : OrderId → Action Store RepositoryError (Option Order)
  find_by_id order_id = do
    rows ← fetch_all driver (query_failed "注文の取得に失敗しました: ") (by_id (driver.show_uuid order_id))
    lift (read_found order_id rows)

  -- `order_groups.entry(order_id).or_default().push(row)`, on the entries of a `HashMap`. The map has
  -- no order: its entries are read in that of `driver.hash_order` only.
  abbrev pub push_row : JoinedRow → List (String × List JoinedRow) → List (String × List JoinedRow)
  push_row row [] = (row.order.id, row ∷ []) ∷ []
  push_row row ((i, rows) ∷ groups) =
      if str_eq i row.order.id
      then (i, rows ++ row ∷ []) ∷ groups
      else (i, rows) ∷ push_row row groups

  unfoldable pub group_rows :
      List JoinedRow → List (String × List JoinedRow) → List (String × List JoinedRow)
  group_rows [] groups = groups
  group_rows (row ∷ rows) groups = group_rows rows (push_row row groups)

  -- One round of the loop over the groups.
  abbrev pub read_group : String → List JoinedRow → Outcome RepositoryError (Option Order)
  read_group order_id_str [] = ok none
  read_group order_id_str (first_row ∷ rows) =
      Result.◌>>=◌ (parsed "注文IDの解析に失敗しました: " (driver.parse_uuid order_id_str))
        λ order_id. read_found order_id (first_row ∷ rows)

  abbrev with_order : Option Order → List Order → List Order
  with_order none orders = orders
  with_order (some order) orders = order ∷ orders

  unfoldable pub read_groups : List (String × List JoinedRow) → Outcome RepositoryError (List Order)
  read_groups [] = ok []
  read_groups ((i, rows) ∷ groups) =
      Result.◌>>=◌ (read_group i rows)
        λ order. Result.◌>>=◌ (read_groups groups) λ orders. ok (with_order order orders)

  -- `build_orders_from_rows`
  unfoldable pub build_orders_from_rows : List JoinedRow → Outcome RepositoryError (List Order)
  build_orders_from_rows rows = read_groups (driver.hash_order (group_rows rows []))

  -- `OrderRepository::find_all`
  unfoldable pub find_all : Action Store RepositoryError (List Order)
  find_all = do
    rows ← fetch_all driver (query_failed "注文一覧の取得に失敗しました: ") every_order
    lift (build_orders_from_rows rows)

  -- `OrderRepository::find_by_status`
  unfoldable pub find_by_status : OrderStatus → Action Store RepositoryError (List Order)
  find_by_status status = do
    rows ←
        fetch_all driver (query_failed "ステータス別注文一覧の取得に失敗しました: ")
          (by_status (OrderStatus.show status))
    lift (build_orders_from_rows rows)
