-- ===== src/Migrations/Pending.antt =====
-- One call of ApplyPendingMigrations: what it picks, and what an attempt changes.
use loglite.Prelude.{
  Bool-cases, List, Option, Text, [], ap, arith, false, if◌then◌else◌, inl, inr, keep, refl, some,
  sym, true, ◌++◌, ◌∙◌, ◌∷◌, ◌≡◌, ◌⊎◌,
}
use loglite.Prelude.Int.{ℤ}
use loglite.Json.{Migration}
use loglite.Utils.{range_contains_int}
use loglite.Migrations.{
  Replies, Schema, applied, apply_migration, apply_pending, is_pending, refused, run_statements,
  run_transaction,
}

module _ {S : Type 0} (exec : S → Text → Option S) (a : Replies) where
  -- The call does nothing when nothing is pending; else it attempts the first pending migration.
  pub apply_pending-first :
      (start : ℤ) (db : Schema S) (ms : List Migration)
      → ((keep (is_pending exec a start db) ms ≡ [])
          × (apply_pending exec a start db ms ≡ (refused, db)))
        ⊎ ((m : Migration) × (rest : List Migration) × (keep (is_pending exec a start db) ms
              ≡ m ∷ rest)
            × (is_pending exec a start db m ≡ true)
            × (apply_pending exec a start db ms ≡ apply_migration exec a db m))
  unfolding apply_pending
  apply_pending-first start db [] = inl (refl, refl)
  apply_pending-first start db (m ∷ ms) = elim (Bool-cases (is_pending exec a start db m)) [
    | inl e ↦
        inr (m, keep (is_pending exec a start db) ms, rw e refl, e, rw (e, apply_pending) refl)
    | inr e ↦ rw (e, apply_pending) (apply_pending-first start db ms)
  ]

  -- What a transaction that is refused or that succeeds does.
  transaction_refused :
      (db : Schema S) (v : ℤ) (statements : List Text) (versions : List ℤ)
      → (run_transaction exec a db v statements versions).0 ≡ refused
      → (run_transaction exec a db v statements versions).1 ≡ db
  unfolding run_transaction
  transaction_refused db v statements versions h = ground arith

  pub transaction_applied :
      (db : Schema S) (v : ℤ) (statements : List Text) (versions : List ℤ)
      → (run_transaction exec a db v statements versions).0 ≡ applied
      → (run_statements exec a db.tables statements
          ≡ some (run_transaction exec a db v statements versions).1.tables)
        × ((run_transaction exec a db v statements versions).1.versions
            ≡ (if a.steps v then versions else db.versions))
  unfolding run_transaction
  transaction_applied db v statements versions h = ground arith

  -- A pending migration that is applied has run all its statements, and its version stands behind
  -- the others.
  abbrev pub Applied : Schema S → Migration → Schema S → Type 0
  Applied db m db' =
      (run_statements exec a db.tables m.rollout ≡ some db'.tables)
      × (db'.versions ≡ db.versions ++ m.version ∷ [])

  pub apply_migration-Applied :
      (start : ℤ) (db : Schema S) (m : Migration)
      → ((v : ℤ) → a.steps v ≡ true)
      → is_pending exec a start db m ≡ true
      → (apply_migration exec a db m).0 ≡ applied
      → Applied db m (apply_migration exec a db m).1
  unfolding apply_migration
  apply_migration-Applied start db m steps p h =
      let fresh : range_contains_int db.versions m.version ≡ false = ground arith in
      let (ran, grown) =
        transaction_applied db m.version m.rollout (db.versions ++ m.version ∷ [])
          (rw (fresh, apply_migration) at h) in
      rw fresh (ran, grown ∙ rw (steps m.version) refl)

  apply_migration-refused :
      (db : Schema S) (m : Migration)
      → (apply_migration exec a db m).0 ≡ refused
      → (apply_migration exec a db m).1 ≡ db
  unfolding apply_migration
  apply_migration-refused db m h = elim (Bool-cases (range_contains_int db.versions m.version)) [
    | inl e ↦ rw e refl
    | inr e ↦ rw e (
        transaction_refused db m.version m.rollout (db.versions ++ m.version ∷ [])
          (rw (e, apply_migration) at h))
  ]

  -- When ApplyPendingMigrations returns false, nothing has changed: neither a table nor a version.
  pub apply_pending-refused :
      (start : ℤ) (db : Schema S) (ms : List Migration)
      → (apply_pending exec a start db ms).0 ≡ refused
      → (apply_pending exec a start db ms).1 ≡ db
  apply_pending-refused start db ms h = elim (apply_pending-first start db ms) [
    | inl (none_left, e) ↦ rw e refl
    | inr (m, rest, first, p, e) ↦ rw e (apply_migration-refused db m (sym (ap (λ r. r.0) e) ∙ h))
  ]

  -- When ApplyPendingMigrations returns true, and SQLite takes the rows of `versions`, the first
  -- migration above start_version whose version was not applied has run all its statements, and its
  -- version alone was added.
  pub apply_pending-Applied :
      (start : ℤ) (db : Schema S) (ms : List Migration)
      → ((v : ℤ) → a.steps v ≡ true)
      → (apply_pending exec a start db ms).0 ≡ applied
      → (m : Migration) × (rest : List Migration) × (keep (is_pending exec a start db) ms
          ≡ m ∷ rest)
        × Applied db m (apply_pending exec a start db ms).1
  apply_pending-Applied start db ms steps h = elim (apply_pending-first start db ms) [
    | inl (none_left, e) ↦ absurd (cc (e, h))
    | inr (m, rest, first, p, e) ↦ (
      m,
      rest,
      first,
      rw e (apply_migration-Applied start db m steps p (sym (ap (λ r. r.0) e) ∙ h)),
    )
  ]
