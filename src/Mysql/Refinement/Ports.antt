-- ===== src/Mysql/Refinement/Ports.antt =====
-- The MySQL repository of orders as an implementation of the `OrderRepository` port, whose
-- abstract state is a map from identifiers to orders.
use ddd_samples.Prelude.{⊤, ◌≡◌, refl, sym, Option, some, List, ==_refl}
use mathlib.Core.Path.{subst}
use ddd_samples.Prelude.Action.{Outcome, ok, err, panic}
use ddd_samples.Error.{RepositoryError}
use ddd_samples.Value.{OrderId}
use ddd_samples.Order.{Order}
use ddd_samples.Port.{update}
use ddd_samples.Mysql.Tables.{JoinedRow, by_id}
use ddd_samples.Mysql.Driver.{Driver, Store}
use ddd_samples.Mysql.Orders.{save, find_by_id}
use ddd_samples.Mysql.Refinement.{IsFaithful, Represents, IsStorable}
use ddd_samples.Mysql.Refinement.Saving.{Saved, save-Saved, stored}
use ddd_samples.Mysql.Refinement.Update.{stored-Represents}
use ddd_samples.Mysql.Refinement.Finding.{FoundAs, find_by_id-FoundAs}

-- After a `save` of `o` that succeeds the tables stand for the map with `o` in it, and after one
-- that fails for the map as it was.
abbrev pub Inserted :
    Driver → (OrderId → Option Order) → Order → Outcome RepositoryError ⊤ × Store → Type 0
Inserted driver m o (ok _, s') = Represents driver s'.tables (update m o.id o)
Inserted driver m o (err e, s') = Represents driver s'.tables m
Inserted driver m o (panic, s') = Represents driver s'.tables m

module _ {driver : Driver} (f : IsFaithful driver) (s : Store) (m : OrderId → Option Order)
    (o : Order) where
  Saved-Inserted :
      (r : Outcome RepositoryError ⊤ × Store)
      → Represents driver s.tables m
      → Represents driver (stored driver o s.tables) (update m o.id o)
      → Saved driver o s r
      → Inserted driver m o r
  Saved-Inserted (ok _, s') before after h =
      subst (λ t. Represents driver t (update m o.id o)) (sym h) after
  Saved-Inserted (err e, s') before after h = subst (λ t. Represents driver t m) (sym h) before
  Saved-Inserted (panic, s') before after h = subst (λ t. Represents driver t m) (sym h) before

  -- On a faithful database whose tables stand for the map `m`, `save` refines the insertion into
  -- the map: if it returns `Ok` the tables stand for `m` with the order inserted, and if it
  -- returns an error or panics they still stand for `m`, whichever statement it was that failed.
  -- The order must be one that can be read back, and an order that `m` has under its identifier
  -- must be of the same customer.
  pub save-Inserted :
      Represents driver s.tables m
      → IsStorable o
      → ((old : Order) → m o.id ≡ some old → old.customer_id ≡ o.customer_id)
      → Inserted driver m o (save driver o s)
  save-Inserted r v c =
      Saved-Inserted (save driver o s) r (stored-Represents f o s.tables m r v c) (save-Saved f o s)

  -- On a faithful database whose tables stand for the map `m`, an order that can be read back,
  -- and that `m` does not have under its identifier for another customer, is found again after a
  -- `save` that succeeded: if the query of `find_by_id` is answered, the result is the order, up
  -- to the order of its lines.
  pub find_by_id-save :
      (s' : Store) (rows : List JoinedRow)
      → Represents driver s.tables m
      → IsStorable o
      → ((old : Order) → m o.id ≡ some old → old.customer_id ≡ o.customer_id)
      → save driver o s ≡ (ok tt, s')
      → driver.fetch s'.calls (by_id (driver.show_uuid o.id)) s'.tables ≡ ok rows
      → FoundAs (some o) (find_by_id driver o.id s').0
  find_by_id-save s' rows r v c h e =
      let after : Represents driver s'.tables (update m o.id o) =
        subst (Inserted driver m o) h (save-Inserted r v c) in
      let found = (find_by_id-FoundAs f s' (update m o.id o) o.id rows after e).0 in
      let here : update m o.id o o.id ≡ some o = rw (==_refl o.id) refl in
      subst (λ x. FoundAs x (find_by_id driver o.id s').0) here found
