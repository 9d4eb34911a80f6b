-- ===== src/Migrations.antt =====
-- cpp/src/migrations.cpp, and what it calls in writer_database.cpp: which migrations are applied, and
-- when. `S` stands for the tables but `versions`, which a migration's own statements are taken not to
-- touch; what a statement makes of them is an argument, `none` its exception.
mod Pending
mod Startup
mod Rollback
mod Order
mod Tests
use loglite.Prelude.{
  Bool, List, Option, Text, [], codes, if◌then◌else◌, none, not, some, suc, text_eq, zero, ℕ, ◌&&◌,
  ◌++◌, ◌>>=◌, ◌∷◌,
}
use loglite.Prelude.Int.{ltb_ℤ, negsuc, ℤ}
use loglite.Json.{Migration}
use loglite.Utils.{eq_ℤ, range_contains_int}

pub record Schema (S : Type 0) : Type 0 where
  pub tables : S
  pub versions : List ℤ

-- What SQLite answers for a version: whether it takes BEGIN; the preparation of the statement on
-- `versions`, and its step, whose answer the program does not look at; COMMIT; the queries of
-- RefreshColumnInfo; and ROLLBACK.
pub record Replies : Type 0 where
  pub begins : ℤ → Bool
  pub prepares : ℤ → Bool
  pub steps : ℤ → Bool
  pub commits : ℤ → Bool
  pub refreshes : ℤ → Bool
  pub rolls_back : ℤ → Bool

-- `true`, `false` or an exception.
pub data Attempt : Type 0 where
  applied refused raised : Attempt

-- `std::ranges::sort(migrations_, {}, &Migration::version)`
abbrev pub place : Migration → List Migration → List Migration
place m [] = m ∷ []
place m (x ∷ xs) = if ltb_ℤ x.version m.version then x ∷ place m xs else m ∷ x ∷ xs

unfoldable pub sort_migrations : List Migration → List Migration
sort_migrations [] = []
sort_migrations (m ∷ ms) = place m (sort_migrations ms)

abbrev pub without : ℤ → List ℤ → List ℤ
without v [] = []
without v (x ∷ xs) = if eq_ℤ x v then without v xs else x ∷ without v xs

module _ {S : Type 0} (exec : S → Text → Option S) (a : Replies) where
  pub run_statements : S → List Text → Option S
  run_statements s [] = some s
  run_statements s (sql ∷ rest) = do s' ← exec s sql; run_statements s' rest

  -- The catch block.
  abbrev rolled_back : ℤ → Attempt
  rolled_back v = if a.rolls_back v then refused else raised

  -- The transaction that both kinds of changes run, with the list of versions that it leaves. Behind
  -- COMMIT there is nothing to roll back, so that ROLLBACK throws.
  unfoldable pub run_transaction : Schema S → ℤ → List Text → List ℤ → Attempt × Schema S
  unfolding run_statements
  run_transaction db v statements versions =
      if not (a.begins v) then (raised, db) else elim (run_statements db.tables statements) [
        | none ↦ (rolled_back v, db)
        | some tables ↦
            let db' : Schema S = record {
              tables = tables;
              versions = if a.steps v then versions else db.versions;
            } in
            if not (a.prepares v)
            then (rolled_back v, db)
            else if not (a.commits v)
            then (rolled_back v, db)
            else if not (a.refreshes v)
            then (raised, db')
            else (applied, db')
      ]

  unfoldable pub apply_migration : Schema S → Migration → Attempt × Schema S
  unfolding run_transaction
  apply_migration db m =
      if range_contains_int db.versions m.version
      then (applied, db)
      else run_transaction db m.version m.rollout (db.versions ++ m.version ∷ [])

  -- `WriterDatabase::RollbackMigration`.
  unfoldable pub rollback_migration : Schema S → Migration → Attempt × Schema S
  unfolding run_transaction
  rollback_migration db m = run_transaction db m.version m.rollback (without m.version db.versions)

  abbrev pub find_migration : ℤ → List Migration → Option Migration
  find_migration v [] = none
  find_migration v (m ∷ ms) = if eq_ℤ m.version v then some m else find_migration v ms

  -- `MigrationManager::RollbackMigration`: the answer to its question counts unless it is forced.
  unfoldable pub rollback_version : Schema S → List Migration → ℤ → Bool → Text → Attempt × Schema S
  unfolding rollback_migration
  rollback_version db ms version force ans = elim (find_migration version ms) [
    | none ↦ (raised, db)
    | some m ↦
        if not force && not (text_eq ans (codes "y")) && not (text_eq ans (codes "Y"))
        then (refused, db)
        else rollback_migration db m
  ]

  abbrev pub is_pending : ℤ → Schema S → Migration → Bool
  is_pending start db m = ltb_ℤ start m.version && not (range_contains_int db.versions m.version)

  -- `ApplyPendingMigrations`: the first pending one.
  unfoldable pub apply_pending : ℤ → Schema S → List Migration → Attempt × Schema S
  unfolding apply_migration
  apply_pending start db [] = (refused, db)
  apply_pending start db (m ∷ ms) =
      if is_pending start db m then apply_migration db m else apply_pending start db ms

  -- The loop of `Initialize`; the fuel bounds its rounds.
  unfoldable pub apply_all : ℕ → Schema S → List Migration → Option (Attempt × Schema S)
  unfolding apply_pending
  apply_all zero db ms = none
  apply_all (suc fuel) db ms =
      let (outcome, db') = apply_pending (negsuc 0) db ms in
      elim outcome [
        | applied ↦ apply_all fuel db' ms
        | refused ↦ some (refused, db')
        | raised ↦ some (raised, db')
      ]
