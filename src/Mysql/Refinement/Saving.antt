-- ===== src/Mysql/Refinement/Saving.antt =====
-- `save` on the tables is the insertion into the map, or nothing.
use ddd_samples.Prelude.{
  suc, ⊤, String, str_eq, ◌≡◌, refl, sym, ap, ◌∙◌, not, Option, none, some, List, [], ◌∷◌, ◌++◌,
  map, filter_by, append-nil, append_assoc,
}
use ddd_samples.Prelude.Action.{Outcome, ok, err, panic, Action, ◌>>=◌, ◌>>◌}
use ddd_samples.Prelude.Runs.{bind-inv}
use ddd_samples.Error.{RepositoryError}
use ddd_samples.Value.{OrderId}
use ddd_samples.Value.OrderLine.{OrderLine}
use ddd_samples.Order.{Order}
use ddd_samples.Mysql.Tables.{Tables, Statement, upsert_order, delete_lines, upsert_row, apply}
use ddd_samples.Mysql.Driver.{
  DatabaseError, Driver, Store, executed, answered, rolled_back, begin, commit, execute,
  transaction,
}
use ddd_samples.Mysql.Orders.{order_row, line_row, insert_lines, save}
use ddd_samples.Mysql.Refinement.{IsFaithful}

-- What one statement that succeeds has done.
execute-tables :
    {driver : Driver}
    → IsFaithful driver
    → (what : String → DatabaseError) (st : Statement) (s s' : Store)
    → execute driver what st s ≡ (ok tt, s')
    → s'.tables ≡ apply st s.tables
unfolding execute
execute-tables {driver} f what st s s' h = go (driver.execute s.calls st s.tables) refl h
  where
    go :
        (r : Outcome String Tables)
        → driver.execute s.calls st s.tables ≡ r
        → executed driver what r s ≡ (ok tt, s')
        → s'.tables ≡ apply st s.tables
    go (ok t) e h = ap (λ p. p.1.tables) (sym h) ∙ f.effect s.calls st s.tables t e
    go (err x) e h = cc
    go panic e h = cc

answered-tables :
    (driver : Driver) (what : String → DatabaseError) (s s' : Store)
    → commit driver what s ≡ (ok tt, s')
    → s'.tables ≡ s.tables
unfolding commit
answered-tables driver what s s' h = go (driver.commit s.calls) h
  where
    go : (r : Option String) → answered driver what r s ≡ (ok tt, s') → s'.tables ≡ s.tables
    go none h = ap (λ p. p.1.tables) (sym h)
    go (some e) h = cc

module _ {driver : Driver} (f : IsFaithful driver) where
  insert_lines-tables :
      (i : OrderId) (ls : List OrderLine) (s s' : Store)
      → insert_lines driver i ls s ≡ (ok tt, s')
      → s'.tables
        ≡ record (s.tables) { order_lines = s.tables.order_lines ++ map (line_row driver i) ls }
  unfolding insert_lines apply
  insert_lines-tables i [] s s' h = ap (λ p. p.1.tables) (sym h) ∙ rw append-nil refl
  insert_lines-tables i (l ∷ ls) s s' h =
      let (_, t, first, rest) = bind-inv (execute driver _ _) (λ _. insert_lines driver i ls) s h in
      insert_lines-tables i ls t s' rest
      ∙ rw (execute-tables f _ _ s t first) (
          rw
            (append_assoc s.tables.order_lines (line_row driver i l ∷ [])
              (map (line_row driver i) ls))
            refl)

-- The tables after an order is saved.
abbrev pub stored : Driver → Order → Tables → Tables
stored driver o t =
    let k = driver.show_uuid o.id in
    record t {
      orders = upsert_row (order_row driver o) t.orders;
      order_lines =
          filter_by (λ l. not (str_eq l.order_id k)) t.order_lines
          ++ map (line_row driver o.id) o.order_lines;
    }

-- What `save` has done to the tables: all of it, or nothing.
abbrev pub Saved : Driver → Order → Store → Outcome RepositoryError ⊤ × Store → Type 0
Saved driver o s (ok _, s') = s'.tables ≡ stored driver o s.tables
Saved driver o s (err e, s') = s'.tables ≡ s.tables
Saved driver o s (panic, s') = s'.tables ≡ s.tables

module _ {driver : Driver} (f : IsFaithful driver) (o : Order) where
  -- The statements of the transaction, up to its commit.
  body-tables :
      (a b c : String → DatabaseError) (s s' : Store)
      → (execute driver a (upsert_order (order_row driver o))
            >> (execute driver b (delete_lines (driver.show_uuid o.id))
                >> (insert_lines driver o.id o.order_lines >> commit driver c)))
          s
        ≡ (ok tt, s')
      → s'.tables ≡ stored driver o s.tables
  unfolding apply
  body-tables a b c s s' h =
      let (_, s1, first, later) = bind-inv (execute driver a _) _ s h in
      let (_, s2, second, last) = bind-inv (execute driver b _) _ s1 later in
      let (_, s3, third, done) = bind-inv (insert_lines driver o.id o.order_lines) _ s2 last in
      answered-tables driver c s3 s' done
      ∙ insert_lines-tables f o.id o.order_lines s2 s3 third
      ∙ rw (execute-tables f b _ s1 s2 second, execute-tables f a _ s s1 first) refl

  rolled_back-Saved :
      (s1 s : Store) (r : Outcome RepositoryError ⊤ × Store)
      → s1.tables ≡ s.tables
      → ((s' : Store) → r ≡ (ok tt, s') → s'.tables ≡ stored driver o s1.tables)
      → Saved driver o s (rolled_back s1 r)
  rolled_back-Saved s1 s (ok _, s') e h = h s' refl ∙ ap (stored driver o) e
  rolled_back-Saved s1 s (err x, s') e h = e
  rolled_back-Saved s1 s (panic, s') e h = e

  started-Saved :
      (what : String → DatabaseError) (body : Action Store RepositoryError ⊤) (s : Store)
      (r : Option String)
      → ((s1 s' : Store) → body s1 ≡ (ok tt, s') → s'.tables ≡ stored driver o s1.tables)
      → Saved driver o s (◌>>=◌ (λ (t : Store). answered driver what r t) (λ _. transaction body) s)
  unfolding transaction ◌>>=◌
  started-Saved what body s none h =
      rolled_back-Saved (record s { calls = suc s.calls }) s
        (body (record s { calls = suc s.calls })) refl (h _)
  started-Saved what body s (some e) h = refl

  -- `save` stores the order with all its lines, in place of what was there under its identifier,
  -- or leaves the tables as they were: an error or a panic at any of its statements undoes those
  -- before it.
  pub save-Saved : (s : Store) → Saved driver o s (save driver o s)
  unfolding save transaction begin ◌>>=◌
  save-Saved s = started-Saved _ _ s (driver.begin s.calls) (body-tables _ _ _)
