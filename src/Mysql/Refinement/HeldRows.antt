-- ===== src/Mysql/Refinement/HeldRows.antt =====
-- The rows of a list of orders: which of them are those of one order.
use mathlib.Core.Path.{subst}
use ddd_samples.Prelude.{
  String, str_eq, str_eq_refl, ◌≡◌, refl, sym, ap, ◌∙◌, true, false, some, List, [], ◌∷◌, ◌++◌, map,
  All, All-append, filter_by-append, append-nil,
}
use ddd_samples.Order.{Order}
use ddd_samples.Mysql.Tables.{OrderRow, LineRow, JoinedRow, join_lines, lines_of, left_join}
use ddd_samples.Mysql.Driver.{Driver}
use ddd_samples.Mysql.Orders.{order_row}
use ddd_samples.Mysql.Refinement.Update.{order_row_id}
use ddd_samples.Mysql.Refinement.Grouping.{str_eq-false_sym, rows_for, IsDistinct}

module _ (k : String) where
  rows_for-join :
      (row : OrderRow) (ls : List LineRow)
      → str_eq k row.id ≡ true
      → rows_for k (join_lines row ls) ≡ join_lines row ls
  rows_for-join row [] h = rw h refl
  rows_for-join row (l ∷ ls) h = go (l ∷ ls)
    where
      go :
          (ls : List LineRow)
          → rows_for k (map (λ x. record { order = row; line = some x }) ls)
            ≡ map (λ x. record { order = row; line = some x }) ls
      go [] = refl
      go (l ∷ ls) = rw h (ap (◌∷◌ (record { order = row; line = some l })) (go ls))

  rows_for-join_other :
      (row : OrderRow) (ls : List LineRow)
      → str_eq k row.id ≡ false
      → rows_for k (join_lines row ls) ≡ []
  rows_for-join_other row [] h = rw h refl
  rows_for-join_other row (l ∷ ls) h = go (l ∷ ls)
    where
      go :
          (ls : List LineRow)
          → rows_for k (map (λ x. record { order = row; line = some x }) ls) ≡ []
      go [] = refl
      go (l ∷ ls) = rw h (go ls)

module _ (driver : Driver) (ls : List LineRow) where
  abbrev pub key : Order → String
  key o = driver.show_uuid o.id

  abbrev pub rows_held : List Order → List JoinedRow
  rows_held os = left_join (map (order_row driver) os) ls

  abbrev pub rows_of_order : Order → List JoinedRow
  rows_of_order o = join_lines (order_row driver o) (lines_of (key o) ls)

  rows_held-cons :
      (o : Order) (os : List Order) → rows_held (o ∷ os) ≡ rows_of_order o ++ rows_held os
  rows_held-cons o os =
      ap (λ i. join_lines (order_row driver o) (lines_of i ls) ++ rows_held os)
        (order_row_id driver o)

  rows_for-held_cons :
      (k : String) (o : Order) (os : List Order)
      → rows_for k (rows_held (o ∷ os)) ≡ rows_for k (rows_of_order o) ++ rows_for k (rows_held os)
  rows_for-held_cons k o os =
      ap (rows_for k) (rows_held-cons o os)
      ∙ filter_by-append (λ r. str_eq k r.order.id) (rows_of_order o) (rows_held os)

  rows_for-order_other :
      (k : String) (o : Order) → str_eq k (key o) ≡ false → rows_for k (rows_of_order o) ≡ []
  rows_for-order_other k o h =
      rows_for-join_other k (order_row driver o) _ (ap (str_eq k) (order_row_id driver o) ∙ h)

  rows_for-held_other :
      (k : String) (os : List Order)
      → All (λ j. str_eq j k ≡ false) (map key os)
      → rows_for k (rows_held os) ≡ []
  rows_for-held_other k [] h = refl
  rows_for-held_other k (o ∷ os) h =
      rows_for-held_cons k o os
      ∙ rw (rows_for-order_other k o (str_eq-false_sym (key o) k h.0), rows_for-held_other k os h.1)
          refl

  abbrev pub IsAmong : List Order → Order → Type 0
  IsAmong os o = rows_for (key o) (rows_held os) ≡ rows_of_order o

  IsAmong-cons :
      (o : Order) (os zs : List Order)
      → All (λ j. str_eq j (key o) ≡ false) (map key zs)
      → All (IsAmong os) zs
      → All (IsAmong (o ∷ os)) zs
  IsAmong-cons o os [] h g = tt
  IsAmong-cons o os (z ∷ zs) h g = (
    rows_for-held_cons (key z) o os ∙ rw (rows_for-order_other (key z) o h.0) g.0,
    IsAmong-cons o os zs h.1 g.1,
  )

  -- The rows of an order among those of all.
  pub rows_for-held : (os : List Order) → IsDistinct (map key os) → All (IsAmong os) os
  rows_for-held [] d = tt
  rows_for-held (o ∷ os) d = (
    rows_for-held_cons (key o) o os
        ∙ rw
            (
              rows_for-join (key o) (order_row driver o) _
                  (ap (str_eq (key o)) (order_row_id driver o) ∙ str_eq_refl (key o)),
              rows_for-held_other (key o) os d.0,
            )
            (append-nil _),
    IsAmong-cons o os os d.0 (rows_for-held os d.1),
  )

  -- Every row is of one of the orders.
  pub keys_held :
      (P : String → Type 0) (os : List Order)
      → All P (map key os)
      → All (λ (r : JoinedRow). P r.order.id) (rows_held os)
  keys_held P [] h = tt
  keys_held P (o ∷ os) h =
      All-append (λ (r : JoinedRow). P r.order.id) (join_lines (order_row driver o) _)
        (rows_held os)
        (all_joined (order_row driver o) _ (subst P (sym (order_row_id driver o)) h.0))
        (keys_held P os h.1)
    where
      all_mapped :
          (row : OrderRow) (ls : List LineRow)
          → P row.id
          → All
              (λ (r : JoinedRow). P r.order.id)
              (map (λ x. record { order = row; line = some x }) ls)
      all_mapped row [] p = tt
      all_mapped row (l ∷ ls) p = (p, all_mapped row ls p)

      all_joined :
          (row : OrderRow) (ls : List LineRow)
          → P row.id
          → All (λ (r : JoinedRow). P r.order.id) (join_lines row ls)
      all_joined row [] p = (p, tt)
      all_joined row (l ∷ ls) p = all_mapped row (l ∷ ls) p
