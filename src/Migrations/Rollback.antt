-- ===== src/Migrations/Rollback.antt =====
-- migrations.cpp and writer_database.cpp, RollbackMigration: what it takes away.
use loglite.Prelude.{
  Bool, Bool-cases, List, Option, Option-cases, Text, [], ap, arith, codes, inl, inr, not, refl,
  some, some_eq, subst, sym, text_eq, true, ◌&&◌, ◌↔◌, ◌∙◌, ◌∷◌, ◌≡◌,
}
use loglite.Prelude.Int.{ℤ}
use loglite.Json.{Migration}
use loglite.Utils.{eq_ℤ, range_contains_int}
use loglite.Migrations.{
  Replies, Schema, applied, find_migration, rollback_migration, rollback_version, run_statements,
  without,
}
use loglite.Migrations.Pending.{transaction_applied}

eq_ℤ_iff : (v w : ℤ) → (eq_ℤ v w ≡ true) ↔ (v ≡ w)
eq_ℤ_iff v w = ground arith

range_contains_int-without :
    (v : ℤ) (vs : List ℤ) (w : ℤ)
    → range_contains_int (without v vs) w ≡ (range_contains_int vs w && not (eq_ℤ v w))
range_contains_int-without v [] w = refl
range_contains_int-without v (x ∷ vs) w =
    ground (arith, range_contains_int-without v vs w, eq_ℤ_iff x v, eq_ℤ_iff x w, eq_ℤ_iff v w)

module _ {S : Type 0} (exec : S → Text → Option S) (a : Replies) where
  find_migration-version :
      (v : ℤ) (ms : List Migration) (m : Migration)
      → find_migration exec a v ms ≡ some m
      → m.version ≡ v
  find_migration-version v [] m h = cc
  find_migration-version v (n ∷ ms) m h = elim (Bool-cases (eq_ℤ n.version v)) [
    | inl e ↦
        let same : n ≡ m = some_eq (rw e at h) in
        subst (λ (k : Migration). k.version ≡ v) same ((eq_ℤ_iff n.version v).0 e)
    | inr e ↦ find_migration-version v ms m (rw e at h)
  ]

  -- A call that succeeds has found a migration and rolled it back.
  rollback_version-found :
      (db : Schema S) (ms : List Migration) (version : ℤ) (force : Bool) (ans : Text)
      → (rollback_version exec a db ms version force ans).0 ≡ applied
      → (m : Migration) × (find_migration exec a version ms ≡ some m)
        × (rollback_version exec a db ms version force ans ≡ rollback_migration exec a db m)
  unfolding rollback_version
  rollback_version-found db ms version force ans h =
      elim (Option-cases (find_migration exec a version ms)) [
        | inl e ↦ absurd (cc (rw (e, rollback_version) at h))
        | inr (m, e) ↦ (
          m,
          e,
          elim (Bool-cases
              (not force && not (text_eq ans (codes "y")) && not (text_eq ans (codes "Y")))) [
                | inl k ↦ absurd (cc (rw (e, k, rollback_version) at h))
                | inr k ↦ rw (e, k, rollback_version) refl
              ],
        )
      ]

  -- When RollbackMigration returns true, and SQLite takes the deletion from `versions`, the rollback
  -- statements of a migration of that version have run, and exactly that version was taken away.
  pub rollback_version-without :
      (db : Schema S) (ms : List Migration) (version : ℤ) (force : Bool) (ans : Text) (w : ℤ)
      → ((v : ℤ) → a.steps v ≡ true)
      → (rollback_version exec a db ms version force ans).0 ≡ applied
      → (m : Migration) × (m.version ≡ version)
        × (run_statements exec a db.tables m.rollback
            ≡ some (rollback_version exec a db ms version force ans).1.tables)
        × (range_contains_int (rollback_version exec a db ms version force ans).1.versions w
            ≡ (range_contains_int db.versions w && not (eq_ℤ version w)))
  unfolding rollback_migration
  rollback_version-without db ms version force ans w steps h =
      let (m, found, e) = rollback_version-found db ms version force ans h in
      let same = find_migration-version version ms m found in
      let (ran, left) =
        transaction_applied exec a db m.version m.rollback (without m.version db.versions)
          (sym (ap (λ r. r.0) e) ∙ h) in
      let gone : (rollback_migration exec a db m).1.versions ≡ without m.version db.versions =
        left ∙ rw (steps m.version) refl in
      (
        m,
        same,
        rw e ran,
        rw (e, gone)
            (range_contains_int-without m.version db.versions w
              ∙ ap (λ v. range_contains_int db.versions w && not (eq_ℤ v w)) same),
      )
