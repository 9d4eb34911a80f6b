-- ===== src/Writer/Atomic.antt =====
-- writer_database.cpp, Insert: a batch is inserted whole or not at all.
use loglite.Prelude.{
  Bool-cases, List, Text, ap, false, inl, inr, is_empty, keep, none, not, refl, sym, true, ◌||◌,
  ◌∙◌, ◌≡◌,
}
use loglite.Json.{ColumnInfo, Json}
use loglite.Writer.{Answers, Writer, in_transaction, insert_batch}
use loglite.Writer.Transactions.{NeverUndoes, in_transaction_failed}

module _ (dump : Json → Text) (compressed : List Text) (a : Answers) where
  runs :
      (w : Writer) (infos : List ColumnInfo) (logs : List Json)
      → (is_empty (keep (λ ci. not ci.is_pk) infos) || is_empty logs) ≡ false
      → insert_batch dump compressed a w infos logs
        ≡ in_transaction dump compressed a w (keep (λ ci. not ci.is_pk) infos) logs
  unfolding insert_batch
  runs w infos logs e = rw e refl

  -- When Insert throws, behind no open transaction, while SQLite rolls no transaction back by itself and
  -- takes the ROLLBACK, the log table and column_dictionary hold what they held before the call, and
  -- no transaction is open.
  pub insert_batch_failed :
      (w : Writer) (infos : List ColumnInfo) (logs : List Json)
      → w.tables.begun ≡ none
      → a.rolls_back ≡ true
      → NeverUndoes dump compressed a
      → (insert_batch dump compressed a w infos logs).0 ≡ none
      → (insert_batch dump compressed a w infos logs).1.tables ≡ w.tables
  unfolding insert_batch
  insert_batch_failed w infos logs closed rolls never h =
      elim (Bool-cases (is_empty (keep (λ ci. not ci.is_pk) infos) || is_empty logs)) [
        | inl e ↦ rw e refl
        | inr e ↦ rw e (
            in_transaction_failed dump compressed a w (keep (λ ci. not ci.is_pk) infos) logs closed
              rolls never (sym (ap (λ r. r.0) (runs w infos logs e)) ∙ h))
      ]
