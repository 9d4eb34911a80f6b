-- ===== src/Writer/Transactions.antt =====
-- writer_database.cpp, Insert: how the transaction of a batch ends.
use loglite.Prelude.{
  Bool-cases, List, Option, Option-cases, Text, ap, arith, inl, inr, none, not, refl, some, some_eq,
  sym, true, ℕ, ◌&&◌, ◌||◌, ◌≡◌, ◌≢◌,
}
use loglite.Json.{ColumnInfo, Json}
use loglite.Database.{SqlValue}
use loglite.Writer.Batches.{
  any_logs, bind_columns-keeps, entry-cases, insert_logs-keeps, step_row-cases,
}
use loglite.Writer.{
  Answers, Contents, Tables, Writer, after_rollback, begin_transaction, begun_writer, committed,
  in_transaction, insert_logs, is_open, roll_back, undone,
}

module _ (dump : Json → Text) (compressed : List Text) (a : Answers) where
  -- A transaction that returns was still open when it was committed.
  pub in_transaction_done :
      (w : Writer) (cols : List ColumnInfo) (logs : List Json) (n : ℕ)
      → (in_transaction dump compressed a w cols logs).0 ≡ some n
      → let r = insert_logs dump compressed a (begun_writer w) cols logs in
        (in_transaction dump compressed a w cols logs ≡ (some n, committed r.1))
        × (r.0 ≡ some n)
        × (is_open r.1 ≡ true)
  unfolding in_transaction
  in_transaction_done w cols logs n h =
      let r = insert_logs dump compressed a (begun_writer w) cols logs in
      elim (Bool-cases (not a.begins || is_open w)) [
        | inl e ↦ absurd (cc (rw (e, in_transaction) at h))
        | inr e ↦ elim (Option-cases r.0) [
          | inl k ↦ absurd (cc (rw (e, k, in_transaction) at h))
          | inr (m, k) ↦ elim (Bool-cases (a.commits && is_open r.1)) [
            | inr q ↦ absurd (cc (rw (e, k, q, in_transaction) at h))
            | inl q ↦
                let same : m ≡ n = some_eq (rw (e, k, q, in_transaction) at h) in
                (rw (e, k, q, in_transaction, same) refl, rw (k, same) refl, ground (arith, q))
          ]
        ]
      ]

  -- SQLite rolls no transaction back by itself.
  abbrev pub NeverUndoes : Type 0
  NeverUndoes =
      ((vs : List SqlValue) → a.takes_log vs ≢ undone)
      × ((c v : Text) (id : ℕ) → a.takes_entry c v id ≢ undone)

  insert_logs-begun :
      (begun : Option Contents) (w : Writer) (cols : List ColumnInfo) (logs : List Json)
      → NeverUndoes
      → w.tables.begun ≡ begun
      → (insert_logs dump compressed a w cols logs).1.tables.begun ≡ begun
  insert_logs-begun begun w cols logs (no_log, no_entry) h =
      insert_logs-keeps dump compressed a (λ log. Unit {0}) (λ w. w.tables.begun ≡ begun) cols
        (λ w log c k.
          bind_columns-keeps dump compressed a (λ t. t.begun ≡ begun)
            (λ t c v id k.
              entry-cases a t c v id (λ t. t.begun ≡ begun) (λ e. k) k
                (λ e. absurd (no_entry c v id e)))
            w log cols k)
        (λ w vs k.
          step_row-cases dump compressed a (λ r. r.1.tables.begun ≡ begun) w vs k k
            (λ e. absurd (no_log vs e)))
        w logs (any_logs dump compressed a logs) h

  after_rollback-tables :
      (w w' : Writer)
      → a.rolls_back ≡ true
      → w.tables.begun ≡ none
      → w'.tables.begun ≡ (begun_writer w).tables.begun
      → (after_rollback a w').tables ≡ w.tables
  unfolding roll_back begin_transaction
  after_rollback-tables w w' rolls closed h =
      rw (rolls, roll_back, h, begin_transaction)
        (ap
          (λ (begun : Option Contents).
            let t : Tables = record {
              logs = w.tables.logs;
              column_dictionary = w.tables.column_dictionary;
              begun = begun;
            } in
            t)
          (sym closed))

  pub in_transaction_failed :
      (w : Writer) (cols : List ColumnInfo) (logs : List Json)
      → w.tables.begun ≡ none
      → a.rolls_back ≡ true
      → NeverUndoes
      → (in_transaction dump compressed a w cols logs).0 ≡ none
      → (in_transaction dump compressed a w cols logs).1.tables ≡ w.tables
  unfolding in_transaction
  in_transaction_failed w cols logs closed rolls never h =
      let r = insert_logs dump compressed a (begun_writer w) cols logs in
      let back =
        after_rollback-tables w r.1 rolls closed
          (insert_logs-begun (begun_writer w).tables.begun (begun_writer w) cols logs never refl) in
      elim (Bool-cases (not a.begins || is_open w)) [
        | inl e ↦ rw (e, in_transaction) refl
        | inr e ↦ elim (Option-cases r.0) [
          | inl k ↦ rw (e, k, in_transaction) back
          | inr (m, k) ↦ elim (Bool-cases (a.commits && is_open r.1)) [
            | inr q ↦ rw (e, k, q, in_transaction) back
            | inl q ↦ absurd (cc (rw (e, k, q, in_transaction) at h))
          ]
        ]
      ]
