-- ===== src/Mysql/Refinement/Update.antt =====
-- The tables after `save` stand for the map after the insertion.
use mathlib.Core.Path.{subst}
use mathlib.Core.List.Perm
use ddd_samples.Prelude.{
  String, str_eq, str_eq_refl, str_eq→≡, str_eq_ne, ◌≡◌, ◌≢◌, refl, sym, ap, ◌∙◌, Bool, true, false,
  not, Bool-cases, inl, inr, Option, none, some, List, [], ◌∷◌, ◌++◌, map, All-map, filter_by,
  filter_by-append, filter_by-all, filter_by-none, filter_by-wider, filter_by-apart, append-nil,
  Perm, arith, ◌==◌, ==→≡,
}
use ddd_samples.Value.{OrderId}
use ddd_samples.Value.ShippingAddress.{ShippingAddress}
use ddd_samples.Value.OrderLine.{OrderLine}
use ddd_samples.Order.{Order}
use ddd_samples.Port.{update}
use ddd_samples.Mysql.Tables.{OrderRow, LineRow, Tables, upsert_row, overwrite, lines_of}
use ddd_samples.Mysql.Driver.{Driver}
use ddd_samples.Mysql.Orders.{address_columns, order_row, line_row}
use ddd_samples.Mysql.Refinement.{
  IsFaithful, rows_of, Represents, RepresentsAt, IsStorable, show_ne,
}
use ddd_samples.Mysql.Refinement.Upsert.{upsert_other, upsert_absent, upsert_present}
use ddd_samples.Mysql.Refinement.Saving.{stored}

address_columns_keys :
    (a : Option ShippingAddress) (row : OrderRow)
    → ((address_columns a row).id ≡ row.id)
      × ((address_columns a row).customer_id ≡ row.customer_id)
address_columns_keys none row = (refl, refl)
address_columns_keys (some a) row = (refl, refl)

pub order_row_id : (driver : Driver) (o : Order) → (order_row driver o).id ≡ driver.show_uuid o.id
unfolding order_row
order_row_id driver o = (address_columns_keys o.shipping_address _).0

pub order_row_customer :
    (driver : Driver) (o : Order)
    → (order_row driver o).customer_id ≡ driver.show_uuid o.customer_id
unfolding order_row
order_row_customer driver o = (address_columns_keys o.shipping_address _).1

overwrite_id : (old new : OrderRow) → (overwrite old new).id ≡ new.id
overwrite_id old new = refl

module _ (driver : Driver) (o : Order) where
  lines_same :
      (ls : List LineRow) (os : List OrderLine)
      → lines_of (driver.show_uuid o.id) (
          filter_by (λ l. not (str_eq l.order_id (driver.show_uuid o.id))) ls
          ++ map (line_row driver o.id) os)
        ≡ map (line_row driver o.id) os
  unfolding line_row
  lines_same ls os =
      let k = driver.show_uuid o.id in
      let p : LineRow → Bool = λ l. str_eq l.order_id k in
      filter_by-append p (filter_by (λ l. not (p l)) ls) (map (line_row driver o.id) os)
      ∙ rw (filter_by-apart p (λ l. not (p l)) ls (λ x e. rw e refl)) (
          filter_by-all p (map (line_row driver o.id) os)
            (All-map (λ l. p l ≡ true) (line_row driver o.id) os (λ x. str_eq_refl k)))

  lines_other :
      (k : String) (ls : List LineRow) (os : List OrderLine)
      → driver.show_uuid o.id ≢ k
      → lines_of k (
          filter_by (λ l. not (str_eq l.order_id (driver.show_uuid o.id))) ls
          ++ map (line_row driver o.id) os)
        ≡ lines_of k ls
  unfolding line_row
  lines_other k ls os h =
      let p : LineRow → Bool = λ l. str_eq l.order_id k in
      let q : LineRow → Bool = λ l. not (str_eq l.order_id (driver.show_uuid o.id)) in
      filter_by-append p (filter_by q ls) (map (line_row driver o.id) os)
      ∙ rw
          (
            filter_by-wider p q ls (λ x e.
                rw
                  (str_eq_ne x.order_id (driver.show_uuid o.id)
                    (λ same. h (sym same ∙ str_eq→≡ x.order_id k e)))
                  refl),
            filter_by-none p (map (line_row driver o.id) os) (
                All-map (λ l. p l ≡ false) (line_row driver o.id) os
                  (λ x. str_eq_ne (driver.show_uuid o.id) k h)),
            append-nil,
          )
          refl

  overwrite_same :
      (old : Order)
      → old.customer_id ≡ o.customer_id
      → overwrite (order_row driver old) (order_row driver o) ≡ order_row driver o
  overwrite_same old h =
      let e : (order_row driver old).customer_id ≡ (order_row driver o).customer_id =
        order_row_customer driver old ∙ ap driver.show_uuid h ∙ sym (order_row_customer driver o) in
      ap (λ c. record (order_row driver o) { customer_id = c }) e

  -- The header row that the insertion leaves, when the customer stays.
  header_after :
      (t : Tables) (before : Option Order)
      → RepresentsAt driver t o.id before
      → ((old : Order) → before ≡ some old → old.customer_id ≡ o.customer_id)
      → rows_of driver (driver.show_uuid o.id) (upsert_row (order_row driver o) t.orders)
        ≡ order_row driver o ∷ []
  header_after t before r c =
      let new = order_row driver o in
      let e = order_row_id driver o in
      subst (λ k. rows_of driver k (upsert_row new t.orders) ≡ new ∷ []) e (go before r c)
    where
      go :
          (before : Option Order)
          → RepresentsAt driver t o.id before
          → ((old : Order) → before ≡ some old → old.customer_id ≡ o.customer_id)
          → rows_of driver (order_row driver o).id (upsert_row (order_row driver o) t.orders)
            ≡ order_row driver o ∷ []
      go none h c =
          upsert_absent _ overwrite overwrite_id (order_row driver o) t.orders
            (ap (λ k. rows_of driver k t.orders) (order_row_id driver o) ∙ h)
      go (some old) h c =
          upsert_present _ overwrite overwrite_id (order_row driver o) (order_row driver old)
            t.orders
            (ap (λ k. rows_of driver k t.orders)
                (order_row_id driver o ∙ ap driver.show_uuid (sym h.0))
              ∙ h.2.header)
          ∙ ap (◌∷ []) (overwrite_same old (c old refl))

-- The tables after `save` stand for the map with the order inserted, if the order can be read
-- back and an order with its identifier that was there has its customer: the statement does not
-- overwrite `customer_id`.
module _ {driver : Driver} (f : IsFaithful driver) (o : Order) where
  rows_other :
      (t : Tables) (i : OrderId)
      → i ≢ o.id
      → rows_of driver (driver.show_uuid i) (upsert_row (order_row driver o) t.orders)
        ≡ rows_of driver (driver.show_uuid i) t.orders
  rows_other t i h =
      upsert_other _ overwrite overwrite_id (order_row driver o) (driver.show_uuid i) t.orders
        (str_eq_ne _ _ (λ e. show_ne f i o.id h (sym e ∙ order_row_id driver o)))

  other_at :
      (t : Tables) (i : OrderId) (there : Option Order)
      → i ≢ o.id
      → RepresentsAt driver t i there
      → RepresentsAt driver (stored driver o t) i there
  other_at t i none h r = rows_other t i h ∙ r
  other_at t i (some x) h r =
      let g : x.id ≢ o.id = λ e. h (sym r.0 ∙ e) in
      (
        r.0,
        r.1,
        record {
          header = rows_other t x.id g ∙ r.2.header;
          lines =
              subst (λ ls. Perm ls (map (line_row driver x.id) x.order_lines))
                (sym (
                  lines_other driver o (driver.show_uuid x.id) t.order_lines o.order_lines
                    (λ e. show_ne f x.id o.id g (sym e))))
                r.2.lines;
        },
      )

  pub stored-Represents :
      (t : Tables) (m : OrderId → Option Order)
      → Represents driver t m
      → IsStorable o
      → ((old : Order) → m o.id ≡ some old → old.customer_id ≡ o.customer_id)
      → Represents driver (stored driver o t) (update m o.id o)
  stored-Represents t m r v c i = elim (Bool-cases (i == o.id)) [
    | inl e ↦ rw e (
      sym (==→≡ i o.id e),
      v,
      record {
        header = header_after driver o t (m o.id) (r o.id) c;
        lines =
            subst (λ ls. Perm ls (map (line_row driver o.id) o.order_lines))
              (sym (lines_same driver o t.order_lines o.order_lines)) Perm.rfl;
      },
    )
    | inr n ↦ rw n (other_at t i (m i) (λ e. ground arith) (r i))
  ]
