-- ===== src/Mysql/Refinement/OrderLists.antt =====
-- The list queries on the orders, on tables that hold the rows of a list of orders.
use mathlib.Core.Path.{subst}
use ddd_samples.Prelude.{str_eq, ◌≡◌, refl, sym, ap, ◌∙◌, true, List}
use ddd_samples.Prelude.Action.{ok, lift}
use ddd_samples.Prelude.Runs.{bind-ok}
use ddd_samples.Order.{Order}
use ddd_samples.Mysql.Tables.{JoinedRow, every_order, by_status}
use ddd_samples.Mysql.Driver.{Driver, Store, fetched, fetch_all}
use ddd_samples.Mysql.Orders.{query_failed, build_orders_from_rows, find_all, find_by_status}
use ddd_samples.Mysql.Refinement.{IsFaithful}
use ddd_samples.Value.OrderStatus
use ddd_samples.Value.OrderStatus.{OrderStatus, eq_status}
use ddd_samples.Value.OrderStatus.RoundTrip.{str_eq-show}
use ddd_samples.Mysql.Refinement.Finding.{order_row_status}
use ddd_samples.Mysql.Refinement.Building.{IsListing, AreHeld, AreListed, built-AreListed}

module _ {driver : Driver} (f : IsFaithful driver) (g : IsListing driver) where
  -- On a faithful database whose tables hold some orders, a `find_all` whose query is answered
  -- returns exactly these orders, each once, in some order, and each with its lines in some order.
  -- The rows may come in any order, those of one order apart from each other, and the entries of
  -- the `HashMap` too.
  pub find_all-AreListed :
      (s : Store) (all : List Order) (rows : List JoinedRow)
      → AreHeld driver s.tables all
      → driver.fetch s.calls every_order s.tables ≡ ok rows
      → AreListed (λ o. true) all (find_all driver s).0
  unfolding find_all fetch_all
  find_all-AreListed s all rows held e =
      let run =
        bind-ok _ (λ rows. lift (build_orders_from_rows driver rows))
          (ap (λ x. fetched driver (query_failed "注文一覧の取得に失敗しました: ") x s) e) in
      subst (λ r. AreListed (λ o. true) all r.0) (sym run)
        (built-AreListed f g s.tables s.calls every_order (λ o. true) all rows held (λ o. refl) e)

  -- On a faithful database whose tables hold some orders, a `find_by_status` whose query is answered
  -- returns exactly those of them that have the status, each once, in some order, and each with its
  -- lines in some order; the rows and the entries of the `HashMap` may come in any order.
  pub find_by_status-AreListed :
      (s : Store) (all : List Order) (status : OrderStatus) (rows : List JoinedRow)
      → AreHeld driver s.tables all
      → driver.fetch s.calls (by_status (OrderStatus.show status)) s.tables ≡ ok rows
      → AreListed (λ o. eq_status o.status status) all (find_by_status driver status s).0
  unfolding find_by_status fetch_all
  find_by_status-AreListed s all status rows held e =
      let run =
        bind-ok _ (λ rows. lift (build_orders_from_rows driver rows))
          (ap (λ x. fetched driver (query_failed "ステータス別注文一覧の取得に失敗しました: ") x s) e) in
      subst (λ r. AreListed (λ o. eq_status o.status status) all r.0) (sym run)
        (built-AreListed f g s.tables s.calls (by_status (OrderStatus.show status))
          (λ o. eq_status o.status status) all rows held
          (λ o.
            ap (λ x. str_eq x (OrderStatus.show status)) (order_row_status driver o)
            ∙ str_eq-show o.status status)
          e)
