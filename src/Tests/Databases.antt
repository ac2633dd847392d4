-- ===== src/Tests/Databases.antt =====
-- The theorems on the database at a database that never fails.
use mathlib.Core.Path.{subst}
use mathlib.Core.List.Perm
use Prim.Native.String.{◌∷◌ as ◌∷s◌, [] as nil_text}
use ddd_samples.Mysql.Refinement.Building.{IsListing, AreHeld, AreListed}
use ddd_samples.Mysql.Refinement.OrderLists.{find_all-AreListed, find_by_status-AreListed}
use ddd_samples.Mysql.Refinement.StockLists.{IsListed, find_by_max_quantity-IsListed}
use ddd_samples.Order.{Order}
use ddd_samples.Prelude.{
  Bool, map, ◌++◌, leb, ℕ, suc, zero, String, ◌≡◌, refl, ap, none, some, List, [], ◌∷◌, Perm, arith,
}
use ddd_samples.Prelude.Text.{is_whitespace}
use ddd_samples.Prelude.Action.{◌>>=◌, Outcome, ok}
use ddd_samples.Value.OrderStatus
use ddd_samples.Value.OrderStatus.{pending, shipped, eq_status}
use ddd_samples.Value.ShippingAddress
use ddd_samples.Inventory.{Inventory}
use ddd_samples.Mysql.Tables.{
  upsert_stock, apply, select, select_stock, by_id, by_book, every_order, by_status,
}
use ddd_samples.Mysql.Driver.{Driver, Store, begin, commit, execute, transaction}
use ddd_samples.Mysql.Orders.{
  order_row, line_row, find_all, find_by_status, save, find_by_id, insert_lines,
}
use ddd_samples.Mysql.Stock
use ddd_samples.Mysql.Refinement.{IsFaithful, IsStorable}
use ddd_samples.Mysql.Refinement.Saving.{stored}
use ddd_samples.Mysql.Refinement.Finding.{FoundAs, find_by_id-FoundAs}
use ddd_samples.Mysql.Refinement.Ports.{Inserted, save-Inserted, find_by_id-save}
use ddd_samples.Mysql.Refinement.Stock.{find_by_book_id-save}
use ddd_samples.Tests.Data.{order_in, row}

-- A UUID as that many strokes.
abbrev strokes : ℕ → String
strokes zero = nil_text
strokes (suc n) = ◌∷s◌ "I" (strokes n)

abbrev count : String → ℕ
count String.[] = 0
count (String.◌∷◌ c s) = suc (count s)

count-strokes : (n : ℕ) → count (strokes n) ≡ n
count-strokes zero = refl
count-strokes (suc n) = ap suc (count-strokes n)

abbrev memory : Driver
memory = record {
  begin = λ n. none;
  commit = λ n. none;
  execute = λ n st t. ok (apply st t);
  fetch = λ n q t. ok (select q t);
  fetch_stock = λ n q t. ok (select_stock q t);
  show_uuid = strokes;
  parse_uuid = λ s. ok (count s);
  hash_order = λ groups. groups;
}

same : {A : Type 0} (xs ys : List A) → ◌≡◌ {A = Outcome String (List A)} (ok xs) (ok ys) → xs ≡ ys
same xs ys h = cc

memory-IsFaithful : IsFaithful memory
memory-IsFaithful = record {
  effect = λ n st t t' h. cc;
  rows = λ n i t rows h. (t.order_lines, Perm.rfl, cc);
  stock_rows = λ n q t rows h.
      subst (λ rs. Perm rs (select_stock q t)) (same (select_stock q t) rows h) Perm.rfl;
  parse-show = λ i. ap ok (count-strokes i);
}

abbrev empty : Store
empty = record { tables = record { orders = []; order_lines = []; inventories = [] }; calls = 0 }

order_in-IsStorable : IsStorable (order_in pending)
unfolding ShippingAddress.new ShippingAddress.is_valid_postal_code is_whitespace
order_in-IsStorable = ((omega arith, omega arith), refl)

save-Inserted_example :
    Inserted memory (λ i. none) (order_in pending) (save memory (order_in pending) empty)
save-Inserted_example =
    save-Inserted memory-IsFaithful empty (λ i. none) (order_in pending) (λ i. refl)
      order_in-IsStorable (λ old h. cc)

abbrev saved : Store
saved = record { tables = stored memory (order_in pending) empty.tables; calls = 5 }

runs : save memory (order_in pending) empty ≡ (ok tt, saved)
unfolding save transaction begin execute commit insert_lines apply ◌>>=◌
runs = refl

find_by_id-save_example : FoundAs (some (order_in pending)) (find_by_id memory 1 saved).0
find_by_id-save_example =
    find_by_id-save memory-IsFaithful empty (λ i. none) (order_in pending) saved
      (select (by_id (strokes 1)) saved.tables) (λ i. refl) order_in-IsStorable (λ old h. cc) runs
      refl

find_by_id-FoundAs_example :
    FoundAs none (find_by_id memory 3 empty).0
    × ((find_by_id memory 3 empty).1.tables ≡ empty.tables)
unfolding select
find_by_id-FoundAs_example =
    find_by_id-FoundAs memory-IsFaithful empty (λ i. none) 3 [] (λ i. refl) refl

abbrev stocked : Store
stocked = record {
  tables = apply (upsert_stock (Stock.stock_row memory row)) empty.tables;
  calls = 1;
}

find_by_book_id-save_example :
    Stock.find_by_book_id memory 5 stocked ≡ (ok (some row), record stocked { calls = 2 })
unfolding Stock.save execute select_stock apply Stock.stock_row
find_by_book_id-save_example =
    find_by_book_id-save memory-IsFaithful empty stocked (λ i. none) row 5
      (select_stock (by_book (strokes 5)) stocked.tables) (λ i. refl) refl refl

abbrev plenty : Inventory
plenty = record { book_id = 6; quantity_on_hand = 40 }

abbrev shelves : Store
shelves = record {
  tables = record {
    orders = [];
    order_lines = [];
    inventories = Stock.stock_row memory row ∷ Stock.stock_row memory plenty ∷ [];
  };
  calls = 0;
}

find_by_max_quantity-IsListed_example :
    IsListed
      (λ v. leb v.quantity_on_hand 20)
      (row ∷ plenty ∷ [])
      (Stock.find_by_max_quantity memory 20 shelves).0
unfolding select_stock Stock.stock_row
find_by_max_quantity-IsListed_example =
    find_by_max_quantity-IsListed memory-IsFaithful shelves (row ∷ plenty ∷ []) 20
      (Stock.stock_row memory row ∷ []) refl refl

memory-IsListing : IsListing memory
memory-IsListing = record {
  rows = λ n q t rows h. subst (λ rs. Perm rs (select q t)) (same (select q t) rows h) Perm.rfl;
  walk = λ groups. Perm.rfl;
}

abbrev second : Order
second = record (order_in shipped) { id = 2 }

-- Two orders, the lines of the second before those of the first.
abbrev archive : Store
archive = record {
  tables = record {
    orders = order_row memory (order_in pending) ∷ order_row memory second ∷ [];
    order_lines =
        map (line_row memory 2) second.order_lines
        ++ map (line_row memory 1) (order_in pending).order_lines;
    inventories = [];
  };
  calls = 0;
}

archive-AreHeld : AreHeld memory archive.tables (order_in pending ∷ second ∷ [])
unfolding ShippingAddress.new ShippingAddress.is_valid_postal_code is_whitespace line_row
archive-AreHeld = record {
  headers = refl;
  distinct = ((refl, tt), (tt, tt));
  each = (
    record { storable = ((omega arith, omega arith), refl); lines = Perm.rfl },
    (record { storable = ((omega arith, omega arith), refl); lines = Perm.rfl }, tt),
  );
}

find_all-AreListed_example :
    AreListed (λ o. Bool.true) (order_in pending ∷ second ∷ []) (find_all memory archive).0
find_all-AreListed_example =
    find_all-AreListed memory-IsFaithful memory-IsListing archive (order_in pending ∷ second ∷ [])
      (select every_order archive.tables) archive-AreHeld refl

find_by_status-AreListed_example :
    AreListed
      (λ o. eq_status o.status shipped)
      (order_in pending ∷ second ∷ [])
      (find_by_status memory shipped archive).0
find_by_status-AreListed_example =
    find_by_status-AreListed memory-IsFaithful memory-IsListing archive
      (order_in pending ∷ second ∷ []) shipped
      (select (by_status (OrderStatus.show shipped)) archive.tables) archive-AreHeld refl
