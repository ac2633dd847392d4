-- ===== src/Mysql/Refinement/Building.antt =====
-- `build_orders_from_rows` on the rows of a list of orders.
use mathlib.Core.Path.{subst, fun_ext}
use mathlib.Core.Logic.{∥∥₁_elim, ∥∥₁_map, ∥∥₁_map₂, ∥∥₁_prop}
use mathlib.Core.List.Perm
use ddd_samples.Prelude.{
  ℕ, String, str_eq, ◌≡◌, refl, ap, ◌∙◌, Bool, false, Bool-cases, inl, inr, some, List, [], ◌∷◌,
  map, All, filter_by, Perm,
}
use ddd_samples.Prelude.Bags.{map_reordered, All_reordered, filter_by-Perm}
use ddd_samples.Prelude.Action.{Outcome, ok}
use ddd_samples.Error.{RepositoryError}
use ddd_samples.Order.{Order}
use ddd_samples.Mysql.Tables.{Tables, JoinedRow, Query, chosen, lines_of, left_join, select}
use ddd_samples.Mysql.Driver.{Driver}
use ddd_samples.Mysql.Orders.{
  group_rows, order_row, line_row, read_group, read_groups, build_orders_from_rows,
}
use ddd_samples.Mysql.Refinement.{IsFaithful, IsStorable}
use ddd_samples.Mysql.Refinement.StockLists.{filter_by-map}
use ddd_samples.Mysql.Refinement.Groups.{SameOrder, read_group-SameOrder}
use ddd_samples.Mysql.Refinement.Grouping.{rows_for, grouped, keys, IsDistinct, group_rows-grouped}
use ddd_samples.Mysql.Refinement.HeldRows.{key, rows_held, IsAmong, rows_for-held}
use ddd_samples.Mysql.Refinement.HeldKeys.{keys-Perm}

-- A list query returns the rows it asks for, in any order, and the entries of a `HashMap` come in
-- any order.
pub record IsListing (driver : Driver) : Type 0 where
  pub rows :
      (n : ℕ) (q : Query) (t : Tables) (rows : List JoinedRow)
      → driver.fetch n q t ≡ ok rows
      → Perm rows (select q t)
  pub walk : (groups : List (String × List JoinedRow)) → Perm (driver.hash_order groups) groups

-- The orders one by one, each but for the order of its lines.
abbrev pub SameOrders : List Order → List Order → Type 0
SameOrders [] [] = Unit
SameOrders (v ∷ vs) (o ∷ os) = SameOrder v o × SameOrders vs os
SameOrders _ _ = ⊥

-- The result is those of the orders that are wanted, each once, in some order, and each with its
-- lines in some order.
abbrev pub AreListed : (Order → Bool) → List Order → Outcome RepositoryError (List Order) → Type 0
AreListed wanted all r = ∥ (
    (vs : List Order) × (os : List Order) × SameOrders vs os
    × Perm os (filter_by wanted all)
    × (r ≡ ok vs)) ∥₁

grouped-map :
    (ks : List String) (rows : List JoinedRow)
    → grouped ks rows ≡ map (λ k. (k, rows_for k rows)) ks
grouped-map [] rows = refl
grouped-map (k ∷ ks) rows = ap (◌∷◌ (k, rows_for k rows)) (grouped-map ks rows)

map-map :
    {A B C : Type 0} (g : B → C) (f : A → B) (xs : List A)
    → map g (map f xs) ≡ map (λ x. g (f x)) xs
map-map g f [] = refl
map-map g f (x ∷ xs) = ap (◌∷◌ (g (f x))) (map-map g f xs)

module _ (driver : Driver) (t : Tables) where
  -- What the tables hold of an order besides its row.
  pub record IsHeld (o : Order) : Type 0 where
    pub storable : IsStorable o
    pub lines :
        Perm
          (lines_of (driver.show_uuid o.id) t.order_lines)
          (map (line_row driver o.id) o.order_lines)

  -- The table of orders holds these orders, their identifiers are distinct, and the table of lines
  -- has their lines.
  pub record AreHeld (all : List Order) : Type 0 where
    pub headers : t.orders ≡ map (order_row driver) all
    pub distinct : IsDistinct (map (λ o. driver.show_uuid o.id) all)
    pub each : All IsHeld all

All-filter :
    {A : Type 0} (P : A → Type 0) (p : A → Bool) (xs : List A) → All P xs → All P (filter_by p xs)
All-filter P p [] h = tt
All-filter P p (x ∷ xs) h = elim (Bool-cases (p x)) [
  | inl t ↦ rw t (h.0, All-filter P p xs h.1)
  | inr n ↦ rw n (All-filter P p xs h.1)
]

module _ {A : Type 0} (h : A → String) (p : A → Bool) where
  All-filter_map :
      (P : String → Type 0) (xs : List A) → All P (map h xs) → All P (map h (filter_by p xs))
  All-filter_map P [] a = tt
  All-filter_map P (x ∷ xs) a = elim (Bool-cases (p x)) [
    | inl t ↦ rw t (a.0, All-filter_map P xs a.1)
    | inr n ↦ rw n (All-filter_map P xs a.1)
  ]

  IsDistinct-filter : (xs : List A) → IsDistinct (map h xs) → IsDistinct (map h (filter_by p xs))
  IsDistinct-filter [] d = tt
  IsDistinct-filter (x ∷ xs) d = elim (Bool-cases (p x)) [
    | inl t ↦ rw t (All-filter_map (λ j. str_eq j (h x) ≡ false) xs d.0, IsDistinct-filter xs d.1)
    | inr n ↦ rw n (IsDistinct-filter xs d.1)
  ]

filter_by-cong :
    {A : Type 0} (p q : A → Bool)
    → ((x : A) → p x ≡ q x)
    → (xs : List A) → filter_by p xs ≡ filter_by q xs
filter_by-cong p q e xs = ap (λ r. filter_by r xs) (fun_ext e)

module _ {driver : Driver} (f : IsFaithful driver) (g : IsListing driver) (t : Tables) where
  -- The group of an order.
  abbrev group : List JoinedRow → Order → String × List JoinedRow
  group rows o = (driver.show_uuid o.id, rows_for (driver.show_uuid o.id) rows)

  -- A group that is read as its order.
  abbrev IsRead : List JoinedRow → Order → Type 0
  IsRead rows o = ∥ (
      (v : Order) × SameOrder v o
      × (read_group driver (driver.show_uuid o.id) (rows_for (driver.show_uuid o.id) rows)
          ≡ ok (some v))) ∥₁

  all-IsRead :
      (all os : List Order) (rows : List JoinedRow)
      → Perm rows (rows_held driver t.order_lines all)
      → All (IsHeld driver t) os
      → All (IsAmong driver t.order_lines all) os
      → All (IsRead rows) os
  all-IsRead all [] rows p h a = tt
  all-IsRead all (o ∷ os) rows p h a = (
    read_group-SameOrder f o (rows_for (driver.show_uuid o.id) rows)
        (lines_of (driver.show_uuid o.id) t.order_lines) h.0.storable h.0.lines
        (subst (Perm (rows_for (driver.show_uuid o.id) rows)) a.0
          (filter_by-Perm (λ r. str_eq (driver.show_uuid o.id) r.order.id) p)),
    all-IsRead all os rows p h.1 a.1,
  )

  read_groups-SameOrders :
      (os : List Order) (rows : List JoinedRow)
      → All (IsRead rows) os
      → ∥ (
          (vs : List Order) × SameOrders vs os
          × (read_groups driver (map (group rows) os) ≡ ok vs)) ∥₁
  unfolding read_groups
  read_groups-SameOrders [] rows h = ∣ ([], tt, refl) ∣₁
  read_groups-SameOrders (o ∷ os) rows h =
      ∥∥₁_map₂ h.0 (read_groups-SameOrders os rows h.1)
        λ a b. (a.0 ∷ b.0, (a.1, b.1), rw (a.2, b.2) refl)

  entries-Perm :
      (os : List Order) (rows : List JoinedRow)
      → IsDistinct (map (key driver t.order_lines) os)
      → Perm rows (rows_held driver t.order_lines os)
      → Perm (driver.hash_order (group_rows driver rows [])) (map (group rows) os)
  entries-Perm os rows d p =
      let entry : String → String × List JoinedRow = λ k. (k, rows_for k rows) in
      let same = group_rows-grouped driver rows ∙ grouped-map (keys [] rows) rows in
      let walked = subst (Perm (driver.hash_order (group_rows driver rows []))) same (g.walk _) in
      let keyed = Perm.map entry (keys-Perm driver t.order_lines os rows d p) in
      subst (Perm (driver.hash_order (group_rows driver rows [])))
        (map-map entry (key driver t.order_lines) os) (Perm.trans walked keyed)

  -- What `build_orders_from_rows` makes of the rows of some orders.
  abbrev AreBuilt : List Order → List JoinedRow → Type 0
  AreBuilt ws rows = ∥ (
      (vs : List Order) × (os : List Order) × SameOrders vs os
      × Perm os ws
      × (build_orders_from_rows driver rows ≡ ok vs)) ∥₁

  build_orders-AreBuilt :
      (ws : List Order) (rows : List JoinedRow)
      → IsDistinct (map (key driver t.order_lines) ws)
      → All (IsHeld driver t) ws
      → Perm rows (rows_held driver t.order_lines ws)
      → AreBuilt ws rows
  unfolding build_orders_from_rows
  build_orders-AreBuilt ws rows d h p = ∥∥₁_elim (entries-Perm ws rows d p) ∥∥₁_prop λ e.
      let (os, same, e') = map_reordered (group rows) ws e refl in
      let read = all-IsRead ws ws rows p h (rows_for-held driver t.order_lines ws d) in
      ∥∥₁_map (read_groups-SameOrders os rows (All_reordered (IsRead rows) e' read))
        λ r. (r.0, os, r.1, ∣ e' ∣₁, ap (read_groups driver) same ∙ r.2)

  -- What a list query returns, whose test on rows is this one on orders.
  pub built-AreListed :
      (n : ℕ) (q : Query) (wanted : Order → Bool) (all : List Order) (rows : List JoinedRow)
      → AreHeld driver t all
      → ((o : Order) → chosen q (order_row driver o) ≡ wanted o)
      → driver.fetch n q t ≡ ok rows
      → AreListed wanted all (build_orders_from_rows driver rows)
  unfolding select
  built-AreListed n q wanted all rows held means e =
      let same =
        ap (filter_by (chosen q)) held.headers
        ∙ filter_by-map (chosen q) (order_row driver) all
        ∙ ap (map (order_row driver)) (filter_by-cong _ wanted means all) in
      build_orders-AreBuilt (filter_by wanted all) rows
        (IsDistinct-filter (key driver t.order_lines) wanted all held.distinct)
        (All-filter (IsHeld driver t) wanted all held.each)
        (subst (Perm rows) (ap (λ os. left_join os t.order_lines) same) (g.rows n q t rows e))
