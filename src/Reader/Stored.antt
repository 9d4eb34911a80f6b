-- ===== src/Reader/Stored.antt =====
-- reader_database.cpp, Query, behind writer_database.cpp, Insert: what is read of the log table.
use loglite.Prelude.{
  All, All-append, Bool-cases, In, List, Text, [], inl, inr, is_empty, keep, not, refl, some, subst,
  sym, true, ℕ, ◌||◌, ◌∷◌, ◌≡◌,
}
use loglite.Json.{ColumnInfo, Json, object}
use loglite.ColumnDict.{LookupTable}
use loglite.ColumnDict.Create.{IsCoded}
use loglite.Database.{SqlValue, pluck_column_names}
use loglite.Writer.{
  Answers, Writer, begin_transaction, begun_writer, bind_columns, in_transaction, insert_batch,
  insert_logs, is_open, step_row,
}
use loglite.Writer.Batches.{
  Bound-cases, bind_columns-logs, bind_columns-was_open, roll_back-closed, step_row-cases,
}
use loglite.Writer.Transactions.{in_transaction_done}
use loglite.Reader.{decode_row}
use loglite.Reader.Decoding.{IsInt}
use loglite.Reader.Rows.{Extends, bind_columns-Extends, decode_row-bind_columns, row_view}

-- What Insert binds: the columns but the primary key.
abbrev pub bound_columns : List ColumnInfo → List ColumnInfo
bound_columns infos = keep (λ ci. not ci.is_pk) infos

module _ (dump : Json → Text) (compressed : List Text) (cols : List ColumnInfo)
    (batch : List Json) where
  -- The row decodes, from any later dictionary, as what is seen of a log of the batch.
  abbrev pub IsRowOf : LookupTable → List SqlValue → Type 0
  IsRowOf d vs =
      (t : LookupTable)
      → IsCoded t
      → IsInt t
      → Extends d t
      → (log : Json) × In log batch
        × (decode_row compressed t (pluck_column_names cols) vs
            ≡ some (row_view dump compressed log cols))

  -- The dictionary is coded, and every row of the log table is the row of a log of the batch.
  abbrev pub IsStored : Writer → Type 0
  IsStored w = IsCoded w.dictionary × All (IsRowOf w.dictionary) w.tables.logs

  IsRowOf-later :
      (d d' : LookupTable)
      → Extends d d'
      → (rows : List (List SqlValue)) → All (IsRowOf d) rows
      → All (IsRowOf d') rows
  IsRowOf-later d d' e [] h = tt
  IsRowOf-later d d' e (vs ∷ rows) (h, hs) = (
    λ t coded ints later. h t coded ints (λ c v id f. later c v id (e c v id f)),
    IsRowOf-later d d' e rows hs,
  )

  -- The same, of the rows while a transaction is open.
  abbrev pub IsStoredOpen : Writer → Type 0
  IsStoredOpen w =
      IsCoded w.dictionary × (is_open w ≡ true → All (IsRowOf w.dictionary) w.tables.logs)

  -- A result of a query is what is seen of a log of the batch.
  abbrev pub IsViewed : Json → Type 0
  IsViewed result =
      (log : Json) × In log batch × (result ≡ object (row_view dump compressed log cols))

module _ (dump : Json → Text) (compressed : List Text) (a : Answers) (cols : List ColumnInfo)
    (batch : List Json) where
  bind_columns-IsStored :
      (w : Writer) (log : Json)
      → IsStoredOpen dump compressed cols batch w
      → IsStoredOpen dump compressed cols batch (bind_columns dump compressed a w log cols).1
  bind_columns-IsStored w log (coded, rows) =
      let (coded', later) = bind_columns-Extends dump compressed a w log cols coded in
      let after = (bind_columns dump compressed a w log cols).1 in
      (
        coded',
        λ o.
            subst (All (IsRowOf dump compressed cols batch after.dictionary))
              (sym (bind_columns-logs dump compressed a w log cols o))
              (IsRowOf-later dump compressed cols batch _ _ later w.tables.logs
                (rows (bind_columns-was_open dump compressed a w log cols o))),
      )

  step_row-IsStored :
      (w : Writer) (vs : List SqlValue)
      → IsRowOf dump compressed cols batch w.dictionary vs
      → IsStoredOpen dump compressed cols batch w
      → IsStoredOpen dump compressed cols batch (step_row dump compressed a w vs).1
  step_row-IsStored w vs row (coded, rows) =
      step_row-cases dump compressed a (λ r. IsStoredOpen dump compressed cols batch r.1) w vs
        (
          coded,
          λ o.
              All-append (IsRowOf dump compressed cols batch w.dictionary) w.tables.logs (vs ∷ [])
                (rows o) (row, tt),
        )
        (coded, rows) (λ e. (coded, λ o. absurd (cc (o, roll_back-closed w.tables))))

  insert_logs-IsStored :
      (w : Writer) (logs : List Json)
      → ((log : Json) → In log logs → In log batch)
      → IsStoredOpen dump compressed cols batch w
      → IsStoredOpen dump compressed cols batch (insert_logs dump compressed a w cols logs).1
  unfolding insert_logs
  insert_logs-IsStored w [] sub h = h
  insert_logs-IsStored w (log ∷ logs) sub h =
      let bound = bind_columns dump compressed a w log cols in
      let after = bind_columns-IsStored w log h in
      let sub' : (l : Json) → In l logs → In l batch = λ l i. sub l (inr i) in
      let skip = insert_logs-IsStored bound.1 logs sub' after in
      elim (Bound-cases bound.0) [
        | inl e ↦ rw (e, insert_logs) after
        | inr (inl e) ↦ rw (e, insert_logs) skip
        | inr (inr (vs, e)) ↦
            let row : IsRowOf dump compressed cols batch bound.1.dictionary vs =
              λ t coded ints later. (
                log,
                sub log (inl refl),
                decode_row-bind_columns dump compressed a w log cols vs t h.0 coded ints later e,
              ) in
            rw (e, insert_logs)
              (insert_logs-IsStored (step_row dump compressed a bound.1 vs).1 logs sub'
                (step_row-IsStored bound.1 vs row after))
      ]

  transaction-IsStored :
      (w : Writer) (logs : List Json) (n : ℕ)
      → ((log : Json) → In log logs → In log batch)
      → IsStored dump compressed cols batch w
      → (in_transaction dump compressed a w cols logs).0 ≡ some n
      → IsStored dump compressed cols batch (in_transaction dump compressed a w cols logs).1
  unfolding begin_transaction
  transaction-IsStored w logs n sub (coded, rows) e =
      let (done, inserted, open_still) = in_transaction_done dump compressed a w cols logs n e in
      let kept = insert_logs-IsStored (begun_writer w) logs sub (coded, λ o. rows) in
      rw done (kept.0, kept.1 open_still)

-- What the log table holds behind Insert, behind other batches.
pub insert_batch-IsStored :
    (dump : Json → Text) (compressed : List Text) (a : Answers) (infos : List ColumnInfo)
    (batch : List Json) (w : Writer) (logs : List Json) (n : ℕ)
    → ((log : Json) → In log logs → In log batch)
    → IsStored dump compressed (bound_columns infos) batch w
    → (insert_batch dump compressed a w infos logs).0 ≡ some n
    → IsStored dump compressed
        (bound_columns infos)
        batch
        (insert_batch dump compressed a w infos logs).1
unfolding insert_batch
insert_batch-IsStored dump compressed a infos batch w logs n sub h e =
    elim (Bool-cases (is_empty (bound_columns infos) || is_empty logs)) [
      | inl k ↦ rw k h
      | inr k ↦ rw k (
          transaction-IsStored dump compressed a (bound_columns infos) batch w logs n sub h
            (rw k at e))
    ]
