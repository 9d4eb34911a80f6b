-- ===== src/Migrations/Tests.antt =====
-- Migrations at concrete inputs.
use loglite.Prelude.{
  List, Option, Text, [], arith, codes, false, keep, none, refl, some, true, ℕ, ◌++◌, ◌∷◌, ◌≡◌,
}
use loglite.Prelude.Int.{negsuc, pos, ℤ}
use loglite.Json.{Migration}
use loglite.Migrations.{
  Attempt, Replies, Schema, apply_all, apply_migration, apply_pending, is_pending, refused,
  rollback_migration, rollback_version, run_statements, run_transaction,
}
use loglite.Migrations.Pending.{Applied, apply_pending-Applied}
use loglite.Utils.{range_contains_int}
use loglite.Migrations.Rollback.{rollback_version-without}
use loglite.Migrations.Startup.{Settled, apply_all-Settled}

-- The tables are the statements that ran; an empty statement throws.
abbrev record_sql : List Text → Text → Option (List Text)
record_sql s [] = none
record_sql s (c ∷ sql) = some (s ++ (c ∷ sql) ∷ [])

abbrev taken : Replies
taken = record {
  begins = λ v. true;
  prepares = λ v. true;
  steps = λ v. true;
  commits = λ v. true;
  refreshes = λ v. true;
  rolls_back = λ v. true;
}

abbrev migration : ℕ → Text → Migration
migration v sql = record { version = pos v; rollout = sql ∷ []; rollback = codes "drop" ∷ [] }

abbrev migrations : List Migration
migrations = migration 1 (codes "a") ∷ migration 2 (codes "b") ∷ migration 3 [] ∷ []

abbrev at_one : Schema (List Text)
at_one = record { tables = codes "a" ∷ []; versions = pos 1 ∷ [] }

abbrev at_two : Schema (List Text)
at_two = record { tables = codes "a" ∷ codes "b" ∷ []; versions = pos 1 ∷ pos 2 ∷ [] }

all_steps : (v : ℤ) → taken.steps v ≡ true
all_steps v = refl

apply_pending-Applied_example :
    (m : Migration) × (rest : List Migration) × (keep
        (is_pending record_sql taken (negsuc 0) at_one)
        migrations
      ≡ m ∷ rest)
    × Applied record_sql taken at_one m
        (apply_pending record_sql taken (negsuc 0) at_one migrations).1
apply_pending-Applied_example =
    apply_pending-Applied record_sql taken (negsuc 0) at_one migrations all_steps
      (unfold apply_pending apply_migration run_transaction run_statements in refl)

apply_all-Settled_example :
    (outcome : Attempt) × (db' : Schema (List Text)) × (apply_all record_sql taken 3 at_one
        migrations
      ≡ some (outcome, db'))
    × Settled record_sql taken migrations outcome db'
apply_all-Settled_example =
    apply_all-Settled record_sql taken 3 at_one migrations all_steps (omega arith)

-- The first migration is skipped, the second applied, the third fails.
all_rounds : apply_all record_sql taken 3 at_one migrations ≡ some (refused, at_two)
unfolding apply_all apply_pending apply_migration run_transaction run_statements
all_rounds = refl

rollback_version-without_example :
    (m : Migration) × (m.version ≡ pos 2)
    × (run_statements record_sql taken at_two.tables m.rollback
        ≡ some
            (rollback_version record_sql taken at_two migrations
              (pos 2)
              false
              (codes "y")).1.tables)
    × (range_contains_int
          (rollback_version record_sql taken at_two migrations (pos 2) false (codes "y")).1.versions
          (pos 1)
        ≡ true)
rollback_version-without_example =
    rollback_version-without record_sql taken at_two migrations (pos 2) false (codes "y") (pos 1)
      all_steps (unfold rollback_version rollback_migration run_transaction run_statements in refl)

abbrev unsorted : List Migration
unsorted = migration 3 [] ∷ migration 1 (codes "a") ∷ migration 2 (codes "b") ∷ []
