-- ===== src/Mysql/Refinement/Stock.antt =====
-- The MySQL repository of the stock as an implementation of the `InventoryRepository` port, whose
-- abstract state is a map from books to stocks.
use mathlib.Core.Path.{subst}
use text.Mathlib.TextEquality.{IsScalar-prop}
use mathlib.Core.Logic.{∥∥₁_elim}
use mathlib.Core.List.Perm
use ddd_samples.Prelude.{
  suc, ⊤, String, str_eq_ne, ◌≡◌, ◌≢◌, refl, sym, ap, ◌∙◌, Bool-cases, inl, inr, Option, none, some,
  List, [], ◌∷◌, filter_by, Perm, arith, ◌==◌, ==→≡,
}
use ddd_samples.Prelude.Bags.{single_reordered}
use ddd_samples.Prelude.Action.{Outcome, ok, err, panic}
use ddd_samples.Prelude.Runs.{bind-ok}
use ddd_samples.Error.{RepositoryError}
use ddd_samples.Value.{BookId}
use ddd_samples.Inventory.{Inventory}
use ddd_samples.Port.{update}
use ddd_samples.Mysql.Tables.{
  StockRow, Tables, upsert_stock, by_book, chosen_stock, apply, select_stock,
}
use ddd_samples.Mysql.Driver.{
  DatabaseError, Driver, Store, executed, execute, fetched, fetch_all_stock,
}
use ddd_samples.Mysql.Orders.{query_failed}
use ddd_samples.Mysql.Stock.{stock_row, save, read_stock, read_first, find_by_book_id}
use ddd_samples.Mysql.Refinement.Upsert.{upsert_other, upsert_absent, upsert_present}
use ddd_samples.Mysql.Refinement.{IsFaithful, show_ne}

module _ (driver : Driver) where
  abbrev stock_rows_of : BookId → Tables → List StockRow
  stock_rows_of i t = filter_by (chosen_stock (by_book (driver.show_uuid i))) t.inventories

  -- What the table has to do with what the map says of one book.
  abbrev pub StockRepresentsAt : Tables → BookId → Option Inventory → Type 0
  StockRepresentsAt t i none = stock_rows_of i t ≡ []
  StockRepresentsAt t i (some v) = (v.book_id ≡ i) × (stock_rows_of i t ≡ stock_row driver v ∷ [])

  abbrev pub StockRepresents : Tables → (BookId → Option Inventory) → Type 0
  StockRepresents t m = (i : BookId) → StockRepresentsAt t i (m i)

  -- What a `save` leaves: the map with the stock in it, or the map as it was.
  abbrev pub Stocked :
      (BookId → Option Inventory) → Inventory → Outcome RepositoryError ⊤ × Store → Type 0
  Stocked m v (ok _, s') = StockRepresents s'.tables (update m v.book_id v)
  Stocked m v (err e, s') = StockRepresents s'.tables m
  Stocked m v (panic, s') = StockRepresents s'.tables m

module _ (driver : Driver) (t : Tables) (v : Inventory) where
  row_after :
      (before : Option Inventory)
      → StockRepresentsAt driver t v.book_id before
      → stock_rows_of driver v.book_id (apply (upsert_stock (stock_row driver v)) t)
        ≡ stock_row driver v ∷ []
  unfolding apply stock_row
  row_after none h =
      upsert_absent (λ row. row.book_id) (λ old new. new) (λ old new. refl) (stock_row driver v)
        t.inventories h
  row_after (some old) h =
      upsert_present (λ row. row.book_id) (λ old new. new) (λ old new. refl) (stock_row driver v)
        (stock_row driver old) t.inventories h.1

  row_other :
      (i : BookId)
      → driver.show_uuid v.book_id ≢ driver.show_uuid i
      → stock_rows_of driver i (apply (upsert_stock (stock_row driver v)) t)
        ≡ stock_rows_of driver i t
  unfolding apply stock_row
  row_other i h =
      upsert_other (λ row. row.book_id) (λ old new. new) (λ old new. refl) (stock_row driver v)
        (driver.show_uuid i) t.inventories (str_eq_ne _ _ h)

  other_at :
      (i : BookId) (there : Option Inventory)
      → driver.show_uuid v.book_id ≢ driver.show_uuid i
      → StockRepresentsAt driver t i there
      → StockRepresentsAt driver (apply (upsert_stock (stock_row driver v)) t) i there
  other_at i none h r = row_other i h ∙ r
  other_at i (some x) h r = (r.0, row_other i h ∙ r.1)

StockRows_set : IsSet (List StockRow)
StockRows_set = hlevel IsScalar-prop

module _ {driver : Driver} (f : IsFaithful driver) where
  stocked_at :
      (t : Tables) (m : BookId → Option Inventory) (v : Inventory)
      → StockRepresents driver t m
      → StockRepresents driver (apply (upsert_stock (stock_row driver v)) t) (update m v.book_id v)
  stocked_at t m v r i = elim (Bool-cases (i == v.book_id)) [
    | inl e ↦ rw e (
      sym (==→≡ i v.book_id e),
      subst
          (λ j.
            stock_rows_of driver j (apply (upsert_stock (stock_row driver v)) t)
            ≡ stock_row driver v ∷ [])
          (sym (==→≡ i v.book_id e)) (row_after driver t v (m v.book_id) (r v.book_id)),
    )
    | inr n ↦ rw n (other_at driver t v i (m i) (show_ne f v.book_id i (λ e. ground arith)) (r i))
  ]

  -- What one statement on the stock that succeeds has done, and what one that fails has not.
  executed-Stocked :
      (what : String → DatabaseError) (s : Store) (m : BookId → Option Inventory) (v : Inventory)
      (r : Outcome String Tables)
      → StockRepresents driver s.tables m
      → driver.execute s.calls (upsert_stock (stock_row driver v)) s.tables ≡ r
      → Stocked driver m v (executed driver what r s)
  executed-Stocked what s m v (ok t) r e =
      subst (λ t. StockRepresents driver t (update m v.book_id v))
        (sym (f.effect s.calls (upsert_stock (stock_row driver v)) s.tables t e))
        (stocked_at s.tables m v r)
  executed-Stocked what s m v (err x) r e = r
  executed-Stocked what s m v panic r e = r

  -- On a faithful database whose table of stocks stands for the map `m`, `save` of a stock
  -- refines the insertion into the map: the table stands for the map with the stock in it if
  -- `Ok` is returned, and for `m` still if an error or a panic is.
  save-Stocked :
      (s : Store) (m : BookId → Option Inventory) (v : Inventory)
      → StockRepresents driver s.tables m
      → Stocked driver m v (save driver v s)
  unfolding save execute
  save-Stocked s m v r = executed-Stocked _ s m v _ r refl

  pub read_stock-stock_row : (v : Inventory) → read_stock driver (stock_row driver v) ≡ ok v
  unfolding read_stock stock_row
  read_stock-stock_row v = rw (f.parse-show v.book_id) refl

  read_first_at :
      (t : Tables) (i : BookId) (there : Option Inventory) (rows : List StockRow)
      → StockRepresentsAt driver t i there
      → Perm rows (select_stock (by_book (driver.show_uuid i)) t)
      → read_first driver rows ≡ ok there
  unfolding select_stock
  read_first_at t i none rows r p = rw (Perm.eq-nil (subst (Perm rows) r p)) refl
  read_first_at t i (some v) rows r p =
      let same = ∥∥₁_elim p (StockRows_set rows _) (λ d. single_reordered d r.1) in
      rw (same, read_stock-stock_row v) refl

  find_by_book_id_run :
      (s : Store) (m : BookId → Option Inventory) (i : BookId) (rows : List StockRow)
      → StockRepresents driver s.tables m
      → driver.fetch_stock s.calls (by_book (driver.show_uuid i)) s.tables ≡ ok rows
      → find_by_book_id driver i s ≡ (ok (m i), record s { calls = suc s.calls })
  unfolding find_by_book_id fetch_all_stock
  find_by_book_id_run s m i rows r e =
      bind-ok _ _ (ap (λ x. fetched driver (query_failed "在庫の取得に失敗しました: ") x s) e)
      ∙ rw
          (read_first_at s.tables i (m i) rows (r i)
            (f.stock_rows s.calls (by_book (driver.show_uuid i)) s.tables rows e))
          refl

  -- On a faithful database whose table of stocks stands for the map `m`, once `save` of a stock
  -- has returned `Ok`, `find_by_book_id` of any book whose query is answered returns what the map
  -- with that stock in it has for the book, and changes no table.
  pub find_by_book_id-save :
      (s s' : Store) (m : BookId → Option Inventory) (v : Inventory) (i : BookId)
      (rows : List StockRow)
      → StockRepresents driver s.tables m
      → save driver v s ≡ (ok tt, s')
      → driver.fetch_stock s'.calls (by_book (driver.show_uuid i)) s'.tables ≡ ok rows
      → find_by_book_id driver i s'
        ≡ (ok (update m v.book_id v i), record s' { calls = suc s'.calls })
  find_by_book_id-save s s' m v i rows r h e =
      find_by_book_id_run s' (update m v.book_id v) i rows
        (subst (Stocked driver m v) h (save-Stocked s m v r)) e
