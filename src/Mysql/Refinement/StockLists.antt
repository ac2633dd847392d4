-- ===== src/Mysql/Refinement/StockLists.antt =====
-- The list queries on the stock, on a table that holds the rows of a list of stocks.
use mathlib.Core.Path.{subst}
use mathlib.Core.Logic.{∥∥₁_map}
use ddd_samples.Prelude.{
  ℕ, ◌≡◌, refl, sym, ap, ◌∙◌, Bool, true, Bool-cases, inl, inr, leb, List, [], ◌∷◌, map, filter_by,
  Perm,
}
use ddd_samples.Prelude.Bags.{map_reordered}
use ddd_samples.Prelude.Action.{Outcome, ok, lift}
use ddd_samples.Prelude.Runs.{bind-ok}
use ddd_samples.Error.{RepositoryError}
use ddd_samples.Inventory.{Inventory}
use ddd_samples.Mysql.Tables.{StockRow, StockQuery, at_most, all_stock, chosen_stock, select_stock}
use ddd_samples.Mysql.Driver.{Driver, Store, fetched, fetch_all_stock}
use ddd_samples.Mysql.Orders.{query_failed}
use ddd_samples.Mysql.Stock.{stock_row, read_rows, find_all, find_by_max_quantity}
use ddd_samples.Mysql.Refinement.{IsFaithful}
use ddd_samples.Mysql.Refinement.Stock.{read_stock-stock_row}

-- Filtering images is filtering by what the images say.
pub filter_by-map :
    {A B : Type 0} (p : B → Bool) (f : A → B) (xs : List A)
    → filter_by p (map f xs) ≡ map f (filter_by (λ x. p (f x)) xs)
filter_by-map p f [] = refl
filter_by-map p f (x ∷ xs) = elim (Bool-cases (p (f x))) [
  | inl t ↦ rw t (ap (◌∷◌ (f x)) (filter_by-map p f xs))
  | inr n ↦ rw n (filter_by-map p f xs)
]

-- The result is those of the stocks that are wanted, each once, in some order.
abbrev pub IsListed :
    (Inventory → Bool) → List Inventory → Outcome RepositoryError (List Inventory) → Type 0
IsListed wanted all r = ∥ ((vs : List Inventory) × Perm vs (filter_by wanted all) × (r ≡ ok vs)) ∥₁

module _ {driver : Driver} (f : IsFaithful driver) where
  read_rows-map : (vs : List Inventory) → read_rows driver (map (stock_row driver) vs) ≡ ok vs
  unfolding read_rows
  read_rows-map [] = refl
  read_rows-map (v ∷ vs) = rw (read_stock-stock_row f v, read_rows-map vs) refl

  read_rows-those :
      (wanted : Inventory → Bool) (all : List Inventory) (rows : List StockRow)
      → Perm rows (map (stock_row driver) (filter_by wanted all))
      → IsListed wanted all (read_rows driver rows)
  read_rows-those wanted all rows p = ∥∥₁_map p λ d.
      let (vs, same, d') = map_reordered (stock_row driver) (filter_by wanted all) d refl in
      (vs, ∣ d' ∣₁, ap (read_rows driver) same ∙ read_rows-map vs)

  -- The rows of a query are those that it chooses.
  fetched-those :
      (s : Store) (all : List Inventory) (q : StockQuery) (rows : List StockRow)
      → s.tables.inventories ≡ map (stock_row driver) all
      → driver.fetch_stock s.calls q s.tables ≡ ok rows
      → IsListed (λ v. chosen_stock q (stock_row driver v)) all (read_rows driver rows)
  unfolding select_stock
  fetched-those s all q rows held e =
      let wanted : Inventory → Bool = λ v. chosen_stock q (stock_row driver v) in
      let same =
        ap (filter_by (chosen_stock q)) held
        ∙ filter_by-map (chosen_stock q) (stock_row driver) all in
      read_rows-those wanted all rows
        (subst (Perm rows) same (f.stock_rows s.calls q s.tables rows e))

  -- On a faithful database whose table of stocks holds the rows of some stocks, a `find_all` whose
  -- query is answered returns these stocks, each as often as it is there, in some order.
  find_all-IsListed :
      (s : Store) (all : List Inventory) (rows : List StockRow)
      → s.tables.inventories ≡ map (stock_row driver) all
      → driver.fetch_stock s.calls all_stock s.tables ≡ ok rows
      → IsListed (λ v. true) all (find_all driver s).0
  unfolding find_all fetch_all_stock
  find_all-IsListed s all rows held e =
      let run =
        bind-ok _ (λ rows. lift (read_rows driver rows))
          (ap (λ x. fetched driver (query_failed "在庫一覧の取得に失敗しました: ") x s) e) in
      subst (λ r. IsListed (λ v. true) all r.0) (sym run)
        (fetched-those s all all_stock rows held e)

  -- On a faithful database whose table of stocks holds the rows of some stocks, a
  -- `find_by_max_quantity` whose query is answered returns exactly those of them that have at most
  -- the quantity, each as often as it is there, in some order.
  pub find_by_max_quantity-IsListed :
      (s : Store) (all : List Inventory) (n : ℕ) (rows : List StockRow)
      → s.tables.inventories ≡ map (stock_row driver) all
      → driver.fetch_stock s.calls (at_most n) s.tables ≡ ok rows
      → IsListed (λ v. leb v.quantity_on_hand n) all (find_by_max_quantity driver n s).0
  unfolding find_by_max_quantity fetch_all_stock stock_row
  find_by_max_quantity-IsListed s all n rows held e =
      let run =
        bind-ok _ (λ rows. lift (read_rows driver rows))
          (ap (λ x. fetched driver (query_failed "在庫フィルタリングの取得に失敗しました: ") x s) e) in
      subst (λ r. IsListed (λ v. leb v.quantity_on_hand n) all r.0) (sym run)
        (fetched-those s all (at_most n) rows held e)
