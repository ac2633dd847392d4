-- ===== src/Mysql/Refinement/Finding.antt =====
-- `find_by_id` on tables that represent a map.
use mathlib.Core.Path.{subst}
use mathlib.Core.Logic.{∥∥₁_map}
use mathlib.Core.List.Perm
use ddd_samples.Prelude.{
  suc, str_eq, ◌≡◌, refl, ap, ◌∙◌, ◌==◌, false, Option, none, some, List, [], ◌∷◌, map, All,
  append-nil, Perm, arith,
}
use ddd_samples.Prelude.Bags.{filter_by-Perm, All_reordered, map_reordered}
use ddd_samples.Prelude.Action.{Outcome, ok}
use ddd_samples.Prelude.Runs.{bind-ok}
use ddd_samples.Error.{RepositoryError}
use ddd_samples.Value.{OrderId}
use ddd_samples.Value.Money
use ddd_samples.Value.Money.{Money}
use ddd_samples.Value.OrderLine
use ddd_samples.Value.OrderLine.{OrderLine}
use ddd_samples.Value.OrderStatus.{OrderStatus}
use ddd_samples.Value.OrderStatus
use ddd_samples.Value.OrderStatus.RoundTrip.{from_string-eq-ok_iff}
use ddd_samples.Value.ShippingAddress.{ShippingAddress}
use ddd_samples.Order.{Order, reconstruct}
use ddd_samples.Order.Lines.{IsLine}
use ddd_samples.Mysql.Tables.{
  OrderRow, LineRow, Tables, JoinedRow, join_lines, lines_of, left_join, by_id, select,
}
use ddd_samples.Mysql.Driver.{Driver, Store, fetched, fetch_all}
use ddd_samples.Mysql.Orders.{
  query_failed, address_columns, order_row, line_row, read_address, read_line, read_lines,
  read_order, read_found, find_by_id,
}
use ddd_samples.Mysql.Refinement.{
  IsFaithful, Holds, Represents, RepresentsAt, IsStorable, IsAddress,
}
use ddd_samples.Mysql.Refinement.Update.{order_row_id, order_row_customer}

Money_new-currency : (m : Money) → Money.new m.amount (Money.currency m) ≡ ok m
unfolding Money.new Money.currency
Money_new-currency m =
    elim m.currency_of
      as (λ c.
        Money.new m.amount (Money.currency (record { amount = m.amount; currency_of = c }))
        ≡ ok (record { amount = m.amount; currency_of = c })) [ Money.jpy_currency ↦ refl ]

module _ {driver : Driver} (f : IsFaithful driver) (i : OrderId) where
  read_line-line_row : (l : OrderLine) → IsLine l → read_line driver (line_row driver i l) ≡ ok l
  unfolding read_line line_row OrderLine.new
  read_line-line_row l h =
      let positive : (l.quantity == 0) ≡ false = ground arith in
      rw (f.parse-show l.book_id, Money_new-currency l.unit_price, positive) refl

  read_lines-map :
      (row : OrderRow) (os : List OrderLine)
      → All IsLine os
      → read_lines driver
          (map (λ x. record { order = row; line = some x }) (map (line_row driver i) os))
        ≡ ok os
  unfolding read_lines
  read_lines-map row [] h = refl
  read_lines-map row (o ∷ os) h = rw (read_line-line_row o h.0, read_lines-map row os h.1) refl

  read_lines-join :
      (row : OrderRow) (os : List OrderLine)
      → All IsLine os
      → read_lines driver (join_lines row (map (line_row driver i) os)) ≡ ok os
  unfolding read_lines
  read_lines-join row [] h = refl
  read_lines-join row (o ∷ os) h = read_lines-map row (o ∷ os) h

module _ (driver : Driver) where
  read_address-columns :
      (a : Option ShippingAddress) (row : OrderRow)
      → IsAddress a
      → row.postal_code ≡ none
      → read_address driver (address_columns a row) ≡ ok a
  unfolding read_address
  read_address-columns none row v e = rw e refl
  read_address-columns (some a) row v e = rw v refl

  pub order_row_status : (o : Order) → (order_row driver o).status ≡ OrderStatus.show o.status
  unfolding order_row
  order_row_status o = go o.shipping_address _
    where
      go :
          (a : Option ShippingAddress) (row : OrderRow)
          → (address_columns a row).status ≡ row.status
      go none row = refl
      go (some a) row = refl

  read_address-order_row :
      (o : Order)
      → IsAddress o.shipping_address
      → read_address driver (order_row driver o) ≡ ok o.shipping_address
  unfolding order_row
  read_address-order_row o v = read_address-columns o.shipping_address _ v refl

-- What is found has the lines of the order, in the order in which the rows came.
abbrev pub FoundAs : Option Order → Outcome RepositoryError (Option Order) → Type 0
FoundAs none r = r ≡ ok none
FoundAs (some o) r = ∥ (
    (os : List OrderLine) × Perm os o.order_lines
    × (r ≡ ok (some (record o { order_lines = os })))) ∥₁

module _ {driver : Driver} (f : IsFaithful driver) (o : Order) where
  read_order-order_row :
      (rows : List JoinedRow) (os : List OrderLine)
      → IsAddress o.shipping_address
      → read_lines driver rows ≡ ok os
      → read_order driver o.id (order_row driver o) rows ≡ ok (record o { order_lines = os })
  unfolding read_order reconstruct
  read_order-order_row rows os v e =
      rw
        (
          read_address-order_row driver o v,
          e,
          order_row_customer driver o,
          f.parse-show o.customer_id,
          order_row_status driver o,
          (from_string-eq-ok_iff (OrderStatus.show o.status) o.status).1 refl,
        )
        refl

  pub read_found-join :
      (os : List OrderLine)
      → IsAddress o.shipping_address
      → All IsLine os
      → read_found driver o.id (join_lines (order_row driver o) (map (line_row driver o.id) os))
        ≡ ok (some (record o { order_lines = os }))
  read_found-join [] v h =
      rw (read_order-order_row _ [] v (read_lines-join f o.id (order_row driver o) [] h)) refl
  read_found-join (l ∷ ls) v h =
      rw
        (read_order-order_row _ (l ∷ ls) v (read_lines-join f o.id (order_row driver o) (l ∷ ls) h))
        refl

  select-held :
      (t : Tables) (ls : List LineRow) (os : List OrderLine)
      → Holds driver t o
      → lines_of (driver.show_uuid o.id) ls ≡ map (line_row driver o.id) os
      → select (by_id (driver.show_uuid o.id)) (record t { order_lines = ls })
        ≡ join_lines (order_row driver o) (map (line_row driver o.id) os)
  unfolding select
  select-held t ls os held same =
      ap (λ rows. left_join rows ls) held.header
      ∙ append-nil _
      ∙ ap (λ k. join_lines (order_row driver o) (lines_of k ls)) (order_row_id driver o)
      ∙ ap (join_lines (order_row driver o)) same

  -- The rows that the query returns, whatever the order of the lines.
  read_found-joined :
      (t : Tables) (ls : List LineRow)
      → IsStorable o
      → Holds driver t o
      → Perm ls t.order_lines
      → FoundAs (some o) (
          read_found driver o.id
            (select (by_id (driver.show_uuid o.id)) (record t { order_lines = ls })))
  read_found-joined t ls v held p =
      let images =
        Perm.trans (filter_by-Perm (λ l. str_eq l.order_id (driver.show_uuid o.id)) p) held.lines in
      ∥∥₁_map images (λ d.
        let (os, same, d') = map_reordered (line_row driver o.id) o.order_lines d refl in
        (
          os,
          ∣ d' ∣₁,
          ap (read_found driver o.id) (select-held t ls os held same)
              ∙ read_found-join os v.1 (All_reordered IsLine d' v.0),
        ))

module _ {driver : Driver} (f : IsFaithful driver) where
  read_found-FoundAs :
      (t : Tables) (i : OrderId) (there : Option Order) (ls : List LineRow)
      → RepresentsAt driver t i there
      → Perm ls t.order_lines
      → FoundAs there (
          read_found driver i (select (by_id (driver.show_uuid i)) (record t { order_lines = ls })))
  unfolding select
  read_found-FoundAs t i none ls r p = rw r refl
  read_found-FoundAs t i (some o) ls r p =
      subst
        (λ k. FoundAs (some o) (
          read_found driver k
            (select (by_id (driver.show_uuid k)) (record t { order_lines = ls }))))
        r.0 (read_found-joined f o t ls r.1 r.2 p)

  find_by_id_run :
      (s : Store) (i : OrderId) (rows : List JoinedRow)
      → driver.fetch s.calls (by_id (driver.show_uuid i)) s.tables ≡ ok rows
      → find_by_id driver i s ≡ (read_found driver i rows, record s { calls = suc s.calls })
  unfolding find_by_id fetch_all
  find_by_id_run s i rows e =
      bind-ok _ _ (ap (λ r. fetched driver (query_failed "注文の取得に失敗しました: ") r s) e)

  -- On a faithful database whose tables stand for the map `m`, a `find_by_id` whose query is
  -- answered returns what the map has under the identifier: no order, or the order with its lines in
  -- some order. It changes no table.
  pub find_by_id-FoundAs :
      (s : Store) (m : OrderId → Option Order) (i : OrderId) (rows : List JoinedRow)
      → Represents driver s.tables m
      → driver.fetch s.calls (by_id (driver.show_uuid i)) s.tables ≡ ok rows
      → FoundAs (m i) (find_by_id driver i s).0 × ((find_by_id driver i s).1.tables ≡ s.tables)
  find_by_id-FoundAs s m i rows r e =
      let (ls, p, same) = f.rows s.calls (driver.show_uuid i) s.tables rows e in
      rw (find_by_id_run s i rows e, same) (read_found-FoundAs s.tables i (m i) ls (r i) p, refl)
