-- ===== src/Mysql/Driver.antt =====
-- The database as the repositories reach it through `sqlx`: statements, queries and transactions,
-- each of which may fail; the errors of adapter/database_error.rs; and the texts of UUIDs.
use ddd_samples.Prelude.{ℕ, suc, ⊤, String, ◌+++◌, Option, none, some, List}
use ddd_samples.Prelude.Action.{Outcome, ok, err, panic, Action}
use ddd_samples.Error.{RepositoryError}
use ddd_samples.Value.{Uuid}
use ddd_samples.Mysql.Tables.{Tables, Statement, Query, JoinedRow, StockQuery, StockRow}

-- `DatabaseError` of adapter/database_error.rs.
pub data DatabaseError : Type 0 where
  connection_error query_error migration_error : String → DatabaseError

-- `impl Display for DatabaseError`
unfoldable pub show_database_error : DatabaseError → String
show_database_error (connection_error msg) = "Database connection error: " +++ msg
show_database_error (query_error msg) = "Database query error: " +++ msg
show_database_error (migration_error msg) = "Migration error: " +++ msg

-- `impl From<DatabaseError> for RepositoryError`
unfoldable pub to_repository_error : DatabaseError → RepositoryError
to_repository_error (connection_error msg) = RepositoryError.connection_failed msg
to_repository_error (query_error msg) = RepositoryError.operation_failed msg
to_repository_error (migration_error msg) = RepositoryError.operation_failed msg

-- What comes from outside the repository. The number is that of the call, since whether a call
-- fails may change with time; the error is the text of `sqlx`'s.
pub record Driver : Type 0 where
  pub begin : ℕ → Option String
  pub commit : ℕ → Option String
  pub execute : ℕ → Statement → Tables → Outcome String Tables
  pub fetch : ℕ → Query → Tables → Outcome String (List JoinedRow)
  pub fetch_stock : ℕ → StockQuery → Tables → Outcome String (List StockRow)
  pub show_uuid : Uuid → String
  pub parse_uuid : String → Outcome String Uuid
  pub hash_order : List (String × List JoinedRow) → List (String × List JoinedRow)  -- a `HashMap`'s iteration

-- The database as a session sees it, and the number of calls so far.
pub record Store : Type 0 where
  pub tables : Tables
  pub calls : ℕ

abbrev pub refused : (String → DatabaseError) → String → RepositoryError
refused what e = to_repository_error (what e)

module _ (driver : Driver) where
  abbrev pub answered :
      (String → DatabaseError) → Option String → Store → Outcome RepositoryError ⊤ × Store
  answered what none s = (ok tt, record s { calls = suc s.calls })
  answered what (some e) s = (err (refused what e), record s { calls = suc s.calls })

  -- `pool.begin().await.map_err(…)?`
  unfoldable pub begin : (String → DatabaseError) → Action Store RepositoryError ⊤
  begin what s = answered what (driver.begin s.calls) s

  -- `tx.commit().await.map_err(…)?`
  unfoldable pub commit : (String → DatabaseError) → Action Store RepositoryError ⊤
  commit what s = answered what (driver.commit s.calls) s

  abbrev pub executed :
      (String → DatabaseError) → Outcome String Tables → Store → Outcome RepositoryError ⊤ × Store
  executed what (ok t) s = (ok tt, record s { calls = suc s.calls; tables = t })
  executed what (err e) s = (err (refused what e), record s { calls = suc s.calls })
  executed what panic s = (panic, record s { calls = suc s.calls })

  -- `query.execute(…).await.map_err(…)?`
  unfoldable pub execute : (String → DatabaseError) → Statement → Action Store RepositoryError ⊤
  execute what statement s = executed what (driver.execute s.calls statement s.tables) s

  abbrev pub fetched :
      {A : Type 0}
      → (String → DatabaseError)
      → Outcome String A
      → Store
      → Outcome RepositoryError A × Store
  fetched what (ok a) s = (ok a, record s { calls = suc s.calls })
  fetched what (err e) s = (err (refused what e), record s { calls = suc s.calls })
  fetched what panic s = (panic, record s { calls = suc s.calls })

  -- `query.fetch_all(…).await.map_err(…)?`
  unfoldable pub fetch_all :
      (String → DatabaseError) → Query → Action Store RepositoryError (List JoinedRow)
  fetch_all what query s = fetched what (driver.fetch s.calls query s.tables) s

  unfoldable pub fetch_all_stock :
      (String → DatabaseError) → StockQuery → Action Store RepositoryError (List StockRow)
  fetch_all_stock what query s = fetched what (driver.fetch_stock s.calls query s.tables) s

-- What is left of a transaction: all of it if it was committed, and nothing if it was dropped.
abbrev pub rolled_back :
    Store → Outcome RepositoryError ⊤ × Store → Outcome RepositoryError ⊤ × Store
rolled_back before (ok _, s) = (ok tt, s)
rolled_back before (err e, s) = (err e, record s { tables = before.tables })
rolled_back before (panic, s) = (panic, record s { tables = before.tables })

-- The statements between `begin` and the end of `commit`.
unfoldable pub transaction : Action Store RepositoryError ⊤ → Action Store RepositoryError ⊤
transaction body s = rolled_back s (body s)
