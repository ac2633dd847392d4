-- ===== src/Migration/Order.antt =====
-- In which order the scripts run, and where a run stops.
use ddd_samples.Prelude.{
  ℕ, suc, ◌+◌, ⊤, String, ◌+++◌, ◌≡◌, refl, ap, ◌∙◌, List, [], ◌∷◌, ◌++◌, length, arith,
}
use ddd_samples.Prelude.Action.{Outcome, ok, err, panic, ◌>>=◌}
use ddd_samples.Mysql.Driver.{DatabaseError, migration_error}
use ddd_samples.Migration.{Session, note, executed, migrate, migrate_all, run}

module _ {D : Type 0} (execute : String → D → Outcome String D) (show_index : ℕ → String) where
  -- The scripts all succeed, one after the other, and lead from one database to another.
  abbrev pub Applies : List String → D → D → Type 0
  Applies [] d d' = d' ≡ d
  Applies (m ∷ ms) d d' = (next : D) × (execute m d ≡ ok next) × Applies ms next d'

  abbrev pub failure : ℕ → String → DatabaseError
  failure index e = migration_error ("Migration " +++ show_index index +++ " failed: " +++ e)

  -- The scripts before the one that stopped the run, that one, and those after it.
  pub record Stopped (ms : List String) (d d' : D) (outcome : Outcome String D) : Type 0 where
    pub done : List String
    pub culprit : String
    pub rest : List String
    pub split : ms ≡ done ++ culprit ∷ rest
    pub applied : Applies done d d'
    pub stops : execute culprit d' ≡ outcome

  -- How a run that begins at the number `index` ends.
  abbrev pub Ran : ℕ → List String → D → Outcome DatabaseError ⊤ × Session D → Type 0
  Ran index ms d (ok _, s) = Applies ms d s.database
  Ran index ms d (err e, s) =
      (msg : String) × (stopped : Stopped ms d s.database (err msg)) × (e
        ≡ failure (index + length stopped.done) msg)
  Ran index ms d (panic, s) = Stopped ms d s.database panic

  -- One more script that succeeds before the rest.
  longer :
      (m : String) (ms : List String) (d next d' : D) (o : Outcome String D)
      → execute m d ≡ ok next
      → Stopped ms next d' o
      → Stopped (m ∷ ms) d d' o
  longer m ms d next d' o e s = record {
    done = m ∷ s.done;
    culprit = s.culprit;
    rest = s.rest;
    split = ap (◌∷◌ m) s.split;
    applied = (next, e, s.applied);
    stops = s.stops;
  }

  first :
      (m : String) (ms : List String) (d : D) (o : Outcome String D)
      → execute m d ≡ o
      → Stopped (m ∷ ms) d d o
  first m ms d o e = record {
    done = [];
    culprit = m;
    rest = ms;
    split = refl;
    applied = refl;
    stops = e;
  }

  later :
      (index : ℕ) (m : String) (ms : List String) (d next : D)
      (r : Outcome DatabaseError ⊤ × Session D)
      → execute m d ≡ ok next
      → Ran (suc index) ms next r
      → Ran index (m ∷ ms) d r
  unfolding longer
  later index m ms d next (ok _, s) e h = (next, e, h)
  later index m ms d next (err x, s) e h = (
    h.0,
    longer m ms d next s.database (err h.0) e h.1,
    h.2 ∙ ap (λ n. failure n h.0) (omega arith),
  )
  later index m ms d next (panic, s) e h = longer m ms d next s.database panic e h

  -- What follows the note that a script is starting, once the outcome of the script is known.
  after_script :
      (index : ℕ) (m : String) (ms : List String) (s : Session D) (r : Outcome String D)
      (message : String) (context : List (String × String))
      → execute m s.database ≡ r
      → ((t : Session D)
          → Ran (suc index) ms t.database (migrate_all execute show_index (suc index) ms t))
      → Ran index (m ∷ ms) s.database (
          (◌>>=◌
              (◌>>=◌
                (λ (t : Session D). executed execute show_index index r t)
                (λ _. note execute show_index message context))
              (λ _. migrate_all execute show_index (suc index) ms))
            s)
  unfolding ◌>>=◌ first
  after_script index m ms s (ok next) message context e ih =
      later index m ms s.database next
        (migrate_all execute show_index (suc index) ms
          (note execute show_index message context (record s { database = next })).1)
        e (ih _)
  after_script index m ms s (err x) message context e ih =
      (x, first m ms s.database (err x) e, ap (λ n. failure n x) (omega arith))
  after_script index m ms s panic message context e ih = first m ms s.database panic e

  migrate_all-Ran :
      (index : ℕ) (ms : List String) (s : Session D)
      → Ran index ms s.database (migrate_all execute show_index index ms s)
  unfolding migrate_all migrate ◌>>=◌
  migrate_all-Ran index [] s = refl
  migrate_all-Ran index (m ∷ ms) s =
      after_script index m ms _ (execute m s.database) _ _ refl (migrate_all-Ran (suc index) ms)

  finished :
      (ms : List String) (d : D) (r : Outcome DatabaseError ⊤ × Session D)
      → Ran 1 ms d r
      → Ran 1 ms d (
          (◌>>=◌
              (λ (t : Session D). r)
              (λ _. note execute show_index "All migrations completed successfully" []))
            r.1)
  unfolding ◌>>=◌
  finished ms d (ok _, s) h = h
  finished ms d (err e, s) h = h
  finished ms d (panic, s) h = h

  -- A run of the migrations succeeds only when every script has succeeded, each on the database that
  -- the one before it left. If it returns an error, the scripts before some script have succeeded
  -- in this way, that script has failed and left the database alone, the error names its position,
  -- counted from 1, and its message, and no later script has run; likewise for a panic.
  pub run-Ran :
      (ms : List String) (s : Session D) → Ran 1 ms s.database (run execute show_index ms s)
  unfolding run ◌>>=◌
  run-Ran ms s =
      finished ms s.database (migrate_all execute show_index 1 ms s) (migrate_all-Ran 1 ms s)
