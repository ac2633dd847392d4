-- ===== src/Mysql/Stock.antt =====
-- `MySqlInventoryRepository` of adapter/driven/inventory_repository.rs.
use ddd_samples.Prelude.{ℕ, ⊤, Option, none, some, List, [], ◌∷◌}
use ddd_samples.Prelude.Action.{Outcome, ok, Action, ◌>>=◌, lift}
use ddd_samples.Prelude.Result
use ddd_samples.Error.{RepositoryError}
use ddd_samples.Value.{BookId}
use ddd_samples.Inventory
use ddd_samples.Inventory.{Inventory}
use ddd_samples.Mysql.Tables.{StockRow, upsert_stock, by_book, at_most, all_stock}
use ddd_samples.Mysql.Driver.{Driver, Store, execute, fetch_all_stock}
use ddd_samples.Mysql.Orders.{query_failed, parsed}

module _ (driver : Driver) where
  unfoldable pub stock_row : Inventory → StockRow
  stock_row inventory = record {
    book_id = driver.show_uuid inventory.book_id;
    quantity_on_hand = inventory.quantity_on_hand;
  }

  -- `InventoryRepository::save`
  unfoldable pub save : Inventory → Action Store RepositoryError ⊤
  save inventory =
      execute driver (query_failed "在庫の保存に失敗しました: ") (upsert_stock (stock_row inventory))

  unfoldable pub read_stock : StockRow → Outcome RepositoryError Inventory
  read_stock row =
      Result.◌>>=◌ (parsed "書籍IDの解析に失敗しました: " (driver.parse_uuid row.book_id))
        λ book_id. ok (Inventory.new book_id row.quantity_on_hand)

  -- `fetch_optional` takes the first row.
  abbrev pub read_first : List StockRow → Outcome RepositoryError (Option Inventory)
  read_first [] = ok none
  read_first (row ∷ _) = Result.◌>>=◌ (read_stock row) λ inventory. ok (some inventory)

  -- `InventoryRepository::find_by_book_id`
  unfoldable pub find_by_book_id : BookId → Action Store RepositoryError (Option Inventory)
  find_by_book_id book_id = do
    rows ←
        fetch_all_stock driver (query_failed "在庫の取得に失敗しました: ") (by_book (driver.show_uuid book_id))
    lift (read_first rows)

  -- The loop over the rows.
  unfoldable pub read_rows : List StockRow → Outcome RepositoryError (List Inventory)
  read_rows [] = ok []
  read_rows (row ∷ rows) =
      Result.◌>>=◌ (read_stock row)
        λ inventory. Result.◌>>=◌ (read_rows rows) λ inventories. ok (inventory ∷ inventories)

  -- `InventoryRepository::find_all`
  unfoldable pub find_all : Action Store RepositoryError (List Inventory)
  find_all = do
    rows ← fetch_all_stock driver (query_failed "在庫一覧の取得に失敗しました: ") all_stock
    lift (read_rows rows)

  -- `InventoryRepository::find_by_max_quantity`
  unfoldable pub find_by_max_quantity : ℕ → Action Store RepositoryError (List Inventory)
  find_by_max_quantity max_quantity = do
    rows ← fetch_all_stock driver (query_failed "在庫フィルタリングの取得に失敗しました: ") (at_most max_quantity)
    lift (read_rows rows)
