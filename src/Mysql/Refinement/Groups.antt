-- ===== src/Mysql/Refinement/Groups.antt =====
-- The rows of one order, in any order, read as that order.
use mathlib.Core.Logic.{∥∥₁_map₂}
use mathlib.Core.Path.{subst}
use mathlib.Core.List.{Permᴰ}
use mathlib.Core.List.Permᴰ.{symm, trans, nil}
use ddd_samples.Prelude.{◌≡◌, refl, sym, ap, ◌∙◌, some, List, [], ◌∷◌, map, All, Perm}
use ddd_samples.Prelude.Bags.{map_reordered, All_reordered, single_reordered, empty_reordered}
use ddd_samples.Prelude.Action.{ok}
use ddd_samples.Value.OrderLine.{OrderLine}
use ddd_samples.Order.{Order}
use ddd_samples.Order.Lines.{IsLine}
use ddd_samples.Mysql.Tables.{LineRow, JoinedRow, join_lines}
use ddd_samples.Mysql.Driver.{Driver}
use ddd_samples.Mysql.Orders.{order_row, line_row, read_group}
use ddd_samples.Mysql.Refinement.{IsFaithful, IsStorable}
use ddd_samples.Mysql.Refinement.Finding.{read_found-join}

-- The same order, but for the order of its lines.
abbrev pub SameOrder : Order → Order → Type 0
SameOrder v o = (os : List OrderLine) × Perm os o.order_lines × (v ≡ record o { order_lines = os })

module _ (driver : Driver) (o : Order) where
  abbrev joined : List OrderLine → List JoinedRow
  joined os = join_lines (order_row driver o) (map (line_row driver o.id) os)

  abbrev with_line : OrderLine → JoinedRow
  with_line l = record { order = order_row driver o; line = some (line_row driver o.id l) }

  joined-with_line :
      (l : OrderLine) (ls : List OrderLine) → joined (l ∷ ls) ≡ map with_line (l ∷ ls)
  joined-with_line l ls = ap (◌∷◌ (with_line l)) (go ls)
    where
      go :
          (ls : List OrderLine)
          → map
              (λ x. record { order = order_row driver o; line = some x })
              (map (line_row driver o.id) ls)
            ≡ map with_line ls
      go [] = refl
      go (l ∷ ls) = ap (◌∷◌ (with_line l)) (go ls)

  joined_reordered :
      (os : List OrderLine) {rows : List JoinedRow}
      → Permᴰ rows (joined os)
      → (os' : List OrderLine) × (rows ≡ joined os') × Permᴰ os' os
  joined_reordered [] d = ([], single_reordered d refl, nil)
  joined_reordered (l ∷ ls) d =
      let (os', same, d') = map_reordered with_line (l ∷ ls) d (joined-with_line l ls) in
      filled os' same d'
    where
      filled :
          (os' : List OrderLine) {rows : List JoinedRow}
          → rows ≡ map with_line os'
          → Permᴰ os' (l ∷ ls)
          → (os' : List OrderLine) × (rows ≡ joined os') × Permᴰ os' (l ∷ ls)
      filled [] same d = let none_there = empty_reordered (symm d) refl in cc
      filled (m ∷ ms) same d = (m ∷ ms, same ∙ sym (joined-with_line m ms), d)

module _ {driver : Driver} (f : IsFaithful driver) (o : Order) where
  read_group-joined :
      (os : List OrderLine)
      → IsStorable o
      → All IsLine os
      → read_group driver (driver.show_uuid o.id) (joined driver o os)
        ≡ ok (some (record o { order_lines = os }))
  read_group-joined [] v h = rw (f.parse-show o.id) (read_found-join f o [] v.1 h)
  read_group-joined (l ∷ ls) v h = rw (f.parse-show o.id) (read_found-join f o (l ∷ ls) v.1 h)

  -- Rows that are those of the order, in any order, are read as it.
  pub read_group-SameOrder :
      (rows : List JoinedRow) (ls : List LineRow)
      → IsStorable o
      → Perm ls (map (line_row driver o.id) o.order_lines)
      → Perm rows (join_lines (order_row driver o) ls)
      → ∥ (
          (v : Order) × SameOrder v o
          × (read_group driver (driver.show_uuid o.id) rows ≡ ok (some v))) ∥₁
  read_group-SameOrder rows ls v p q = ∥∥₁_map₂ p q read
    where
      read :
          Permᴰ ls (map (line_row driver o.id) o.order_lines)
          → Permᴰ rows (join_lines (order_row driver o) ls)
          → (v : Order) × SameOrder v o
            × (read_group driver (driver.show_uuid o.id) rows ≡ ok (some v))
      read d e =
          let (os, lines, d') = map_reordered (line_row driver o.id) o.order_lines d refl in
          let (os', same, d'') =
            joined_reordered driver o os
              (subst (λ ls. Permᴰ rows (join_lines (order_row driver o) ls)) lines e) in
          let reordered = trans d'' d' in
          (
            record o { order_lines = os' },
            (os', ∣ reordered ∣₁, refl),
            ap (read_group driver (driver.show_uuid o.id)) same
                ∙ read_group-joined os' v (All_reordered IsLine reordered v.0),
          )
