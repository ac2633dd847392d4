-- ===== src/Migration.antt =====
-- `DatabaseMigration` of adapter/database_migration.rs: the scripts in order, with a note in the
-- log before and after each.
pub mod Order
use ddd_samples.Prelude.{ℕ, suc, ⊤, String, ◌+++◌, Option, none, some, List, [], ◌∷◌, ◌++◌}
use ddd_samples.Prelude.Action.{Outcome, ok, err, panic, Action, ◌>>=◌, ◌>>◌, modify}
use ddd_samples.Mysql.Driver.{DatabaseError, migration_error}

-- A call of `logger.debug`, with its context.
pub record Note : Type 0 where
  pub message : String
  pub context : List (String × String)

-- The database, and the notes so far.
pub record Session (D : Type 0) : Type 0 where
  pub database : D
  pub notes : List Note

module _ {D : Type 0} (execute : String → D → Outcome String D) (show_index : ℕ → String) where
  abbrev pub note : String → List (String × String) → Action (Session D) DatabaseError ⊤
  note message context =
      modify
        (λ s. record s { notes = s.notes ++ record { message = message; context = context } ∷ [] })

  -- `sqlx::query(migration_sql).execute(&self.pool).await.map_err(…)?`
  abbrev pub executed : ℕ → Outcome String D → Session D → Outcome DatabaseError ⊤ × Session D
  executed index (ok d) s = (ok tt, record s { database = d })
  executed index (err e) s =
      (err (migration_error ("Migration " +++ show_index index +++ " failed: " +++ e)), s)
  executed index panic s = (panic, s)

  abbrev about : ℕ → String → List (String × String)
  about index status = ("migration_index", show_index index) ∷ ("status", status) ∷ []

  -- One round of the loop, by the number of the script, from 1.
  unfoldable pub migrate : ℕ → String → Action (Session D) DatabaseError ⊤
  migrate index migration_sql = do
    note ("Migration " +++ show_index index +++ " starting") (about index "starting")
    λ s. executed index (execute migration_sql s.database) s
    note ("Migration " +++ show_index index +++ " completed successfully")
        (about index "completed successfully")

  -- The loop.
  unfoldable pub migrate_all : ℕ → List String → Action (Session D) DatabaseError ⊤
  migrate_all index [] s = (ok tt, s)
  migrate_all index (migration_sql ∷ migrations) s =
      (migrate index migration_sql >> migrate_all (suc index) migrations) s

  -- `DatabaseMigration::run`
  unfoldable pub run : List String → Action (Session D) DatabaseError ⊤
  run migrations = do migrate_all 1 migrations; note "All migrations completed successfully" []
