-- ===== src/Model/Store.antt =====
-- `update` of the two stores: `SQLiteStore` of homeinfra/persistence.py and `MockStore` of
-- homeinfra/mock_data.py. A connection holds the tables that were committed and those that its
-- statements have made of them; the child is about the statements of homeinfra/persistence.py.
pub mod Tables
use homeinfra_control_center.Prelude.{
  ◌≡◌, refl, sym, subst, ◌⊎◌, Option, none, some, List, [], ◌∷◌, arith, inl, inr, Option-cases,
}
use homeinfra_control_center.Errors.{Error, Result, ok, err, integrity_error}
use homeinfra_control_center.Effects.{Action}

-- A statement on the tables; `none` is an exception of SQLite, such as an IntegrityError.
abbrev pub Statement : Type 0 → Type 0
Statement S = S → Option S

-- What an update needs to know of the database: the statements of `_persist_state_to_tables`, and
-- what `_build_state_from_tables` reads of the tables that they leave.
pub record Database (S : Type 0) : Type 0 where
  pub persist : S → List (Statement S)
  pub build : S → S

pub record Connection (S : Type 0) : Type 0 where
  pub committed : S
  pub working : S

module _ {S : Type 0} where
  -- `BEGIN IMMEDIATE`
  abbrev pub begin : S → Connection S
  begin tables = record { committed = tables; working = tables }

  abbrev pub commit : Connection S → Connection S
  commit conn = record conn { committed = conn.working }

  abbrev pub rollback : Connection S → Connection S
  rollback conn = record conn { working = conn.committed }

  -- The statements in their order; the first that raises ends them, and what was written before
  -- it stays in the working tables.
  unfoldable pub run_statements :
      List (Statement S) → Connection S → Result (Unit {0}) × Connection S
  run_statements [] conn = (ok tt, conn)
  run_statements (statement ∷ statements) conn = elim (statement conn.working) [
    | none ↦ (err integrity_error, conn)
    | some t ↦ run_statements statements (record conn { working = t })
  ]

module _ {S A : Type 0} where
  -- `conn.commit()`, or `conn.rollback()` and the exception again.
  abbrev pub finish : A → Result (Unit {0}) × Connection S → Result A × Connection S
  finish a (ok done, conn) = (ok a, commit conn)
  finish a (err e, conn) = (err e, rollback conn)

  -- What follows the mutator.
  unfoldable pub settle : Database S → Connection S → Result A × S → Result A × Connection S
  unfolding run_statements
  settle database conn (err e, state) = (err e, rollback conn)
  settle database conn (ok a, state) = finish a (run_statements (database.persist state) conn)

  -- The next reading of the tables: after an exception they are as they were read before.
  abbrev pub read_back : Database S → Result A × Connection S → Result A × S
  read_back database (ok a, conn) = (ok a, database.build conn.committed)
  read_back database (err e, conn) = (err e, conn.committed)

  -- The mutator works on a copy of what was read, and its result is written back.
  unfoldable pub sqlite_update : Database S → Action S A → Action S A
  unfolding settle
  sqlite_update database mutator tables =
      read_back database (settle database (begin tables) (mutator tables))

  -- The in-memory store changes its one state in place.
  unfoldable pub mock_update : Action S A → Action S A
  mock_update mutator state = mutator state

module _ {S : Type 0} where
  -- All of the statements, where none of them raises.
  abbrev pub all_statements : List (Statement S) → S → Option S
  all_statements [] tables = some tables
  all_statements (statement ∷ statements) tables = elim (statement tables) [
    | none ↦ none
    | some t ↦ all_statements statements t
  ]

  run_statements-committed :
      (statements : List (Statement S)) (conn : Connection S)
      → (run_statements statements conn).1.committed ≡ conn.committed
  unfolding run_statements
  run_statements-committed [] conn = refl
  run_statements-committed (statement ∷ statements) conn =
      elim (Option-cases (statement conn.working)) [
        | inl refused ↦ rw (refused, run_statements) refl
        | inr (t, done) ↦
            rw (done, run_statements)
              (run_statements-committed statements (record conn { working = t }))
      ]

  -- Running one statement after the other succeeds when all of them together do.
  abbrev outcome_of : Option S → Result (Unit {0})
  outcome_of none = err integrity_error
  outcome_of (some t) = ok tt

  run_statements-all :
      (statements : List (Statement S)) (conn : Connection S)
      → (all_statements statements conn.working ≡ none)
          × ((run_statements statements conn).0 ≡ err integrity_error)
        ⊎ ((run_statements statements conn).0 ≡ ok tt)
          × (all_statements statements conn.working
              ≡ some (run_statements statements conn).1.working)
  unfolding run_statements
  run_statements-all [] conn = inr (refl, refl)
  run_statements-all (statement ∷ statements) conn = elim (Option-cases (statement conn.working)) [
    | inl refused ↦ inl (rw refused refl, rw (refused, run_statements) refl)
    | inr (t, done) ↦
        rw (done, run_statements) (run_statements-all statements (record conn { working = t }))
  ]

-- What an update promises: nothing, where the mutator or a statement raises, and all of it
-- otherwise.
abbrev pub all_or_nothing : {S A : Type 0} → Database S → S → A → Option S → Result A × S
all_or_nothing database tables a none = (err integrity_error, tables)
all_or_nothing database tables a (some t) = (ok a, database.build t)

unfoldable pub transaction : {S A : Type 0} → Database S → S → Result A × S → Result A × S
transaction database tables (err e, state) = (err e, tables)
transaction database tables (ok a, state) =
    all_or_nothing database tables a (all_statements (database.persist state) tables)

module _ {S A : Type 0} (database : Database S) (tables : S) where
  finished :
      (a : A) (ran : Result (Unit {0}) × Connection S) (all : Option S)
      → ran.1.committed ≡ tables
      → (all ≡ none) × (ran.0 ≡ err integrity_error) ⊎ (ran.0 ≡ ok tt) × (all ≡ some ran.1.working)
      → read_back database (finish a ran) ≡ all_or_nothing database tables a all
  finished a (err e, conn) all kept (inl (nothing, raised)) = rw nothing (cc)
  finished a (ok u, conn) all kept (inl (nothing, raised)) = cc
  finished a (err e, conn) all kept (inr (done, same)) = cc
  finished a (ok u, conn) all kept (inr (done, same)) = rw same refl

  settle-transaction :
      (outcome : Result A × S)
      → read_back database (settle database (begin tables) outcome)
        ≡ transaction database tables outcome
  unfolding settle transaction
  settle-transaction (err e, state) = refl
  settle-transaction (ok a, state) =
      let statements = database.persist state in
      finished a (run_statements statements (begin tables)) (all_statements statements tables)
        (run_statements-committed statements (begin tables))
        (run_statements-all statements (begin tables))

  pub sqlite_update-transaction :
      (mutator : Action S A)
      → sqlite_update database mutator tables ≡ transaction database tables (mutator tables)
  unfolding sqlite_update
  sqlite_update-transaction mutator = settle-transaction (mutator tables)

module _ {S A : Type 0} (P : S → Type 0) (database : Database S) (tables : S) where
  transaction-keeps :
      (outcome : Result A × S)
      → ((t : S)
          → all_statements (database.persist outcome.1) tables ≡ some t
          → P (database.build t))
      → P tables
      → P (transaction database tables outcome).1
  unfolding transaction
  transaction-keeps (err e, state) kept h = h
  transaction-keeps (ok a, state) kept h =
      elim (Option-cases (all_statements (database.persist state) tables)) [
        | inl refused ↦ rw (refused, transaction) h
        | inr (t, written) ↦ rw (written, transaction) (kept t written)
      ]

  -- A property that the mutator and the write-back keep is kept by the update.
  pub sqlite_update_keeps :
      (mutator : Action S A)
      → ((s t : S)
          → P s
          → all_statements (database.persist s) tables ≡ some t
          → P (database.build t))
      → (P tables → P (mutator tables).1)
      → P tables
      → P (sqlite_update database mutator tables).1
  sqlite_update_keeps mutator kept step h =
      subst (λ o. P o.1) (sym (sqlite_update-transaction database tables mutator))
        (transaction-keeps (mutator tables) (λ t. kept (mutator tables).1 t (step h)) h)
