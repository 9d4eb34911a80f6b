-- ===== src/Writer.antt =====
-- cpp/src/writer_database.hpp and writer_database.cpp: inserting a batch of logs in a transaction,
-- and the durable rows of the column dictionary. The two tables stand for the database file. Whether
-- SQLite accepts a statement is an argument; a rollback brings back the tables as they were at BEGIN,
-- and an error may have made one already.
-- Preparing and finalizing the statement is left out, and an id above INT_MAX ends the batch.
pub mod Batches
mod Adding
pub mod Transactions
pub mod Deleting
mod Mirror
mod Atomic
mod Tests
use mathlib.Core.Option
use loglite.Prelude.{
  Bool, List, Option, Text, [], c_str, false, if◌then◌else◌, insert, is_empty, is_some, keep, map,
  none, not, some, true, ℕ, ◌&&◌, ◌++◌, ◌+◌, ◌||◌, ◌∷◌,
}
use loglite.Prelude.Int.{pos}
use loglite.Json.{ColumnInfo, Json, find, is_null, null, text_of}
use loglite.Utils.{overflowed, range_contains, threw}
use loglite.ColumnDict.{
  LookupTable, PersistFn, column_map, get_or_create, overflowed, returned, threw,
}
use loglite.Database.{SqlValue, bind_param, serialize_value, sql_integer}

-- A row of column_dictionary.
pub record DictRow : Type 0 where
  pub column : Text
  pub text : Text
  pub value_id : ℕ

pub record Contents : Type 0 where
  pub logs : List (List SqlValue)
  pub column_dictionary : List DictRow

-- The tables, and, while a transaction is open, what they held at BEGIN.
pub record Tables : Type 0 where
  pub logs : List (List SqlValue)
  pub column_dictionary : List DictRow
  pub begun : Option Contents

-- What a rollback leaves; without a transaction there is nothing to roll back.
unfoldable pub roll_back : Tables → Tables
roll_back t = elim t.begun [
  | none ↦ t
  | some c ↦ record { logs = c.logs; column_dictionary = c.column_dictionary; begun = none }
]

unfoldable pub begin_transaction : Tables → Tables
begin_transaction t = record t {
  begun = some (record { logs = t.logs; column_dictionary = t.column_dictionary });
}

-- The end of the step of a row: it is taken, or refused, or refused with the transaction rolled back by
-- SQLite itself.
pub data StepResult : Type 0 where
  taken refused undone : StepResult

-- The tables on disk, and the dictionary that the process holds in memory.
pub record Writer : Type 0 where
  pub tables : Tables
  pub dictionary : LookupTable

-- `lut[col][value] = id` for each row: what `Initialize` loads.
abbrev pub load_row : LookupTable → DictRow → LookupTable
load_row lut row = insert row.column (insert row.text row.value_id (column_map lut row.column)) lut

unfoldable pub load_dictionary : LookupTable → List DictRow → LookupTable
load_dictionary lut [] = lut
load_dictionary lut (row ∷ rows) = load_dictionary (load_row lut row) rows

-- What SQLite answers to BEGIN, to a row of the log table, to a row of the dictionary, to COMMIT, and to
-- ROLLBACK.
pub record Answers : Type 0 where
  pub begins : Bool
  pub takes_log : List SqlValue → StepResult
  pub takes_entry : Text → Text → ℕ → StepResult
  pub commits : Bool
  pub rolls_back : Bool

-- InsertColumnDictValue, the dictionary's callback; its texts are handed over as pointers.
unfoldable pub insert_column_dict_value : Answers → PersistFn Tables
insert_column_dict_value a t col val id = elim (a.takes_entry col val id) [
  | taken ↦ (true, record t { column_dictionary = t.column_dictionary ++ row ∷ [] })
  | refused ↦ (false, t)
  | undone ↦ (false, roll_back t)
]
  where
    row : DictRow
    row = record { column = c_str col; text = c_str val; value_id = id }

-- What the inner loop makes of a log: the values of its row, nothing (it is skipped), or an
-- exception of the dictionary.
pub data Bound : Type 0 where
  values : List SqlValue → Bound
  skipped failed : Bound

abbrev pub raw_value : Json → Text → Json
raw_value log name = elim (find log name) [ none ↦ null | some v ↦ v ]

abbrev pub with_value : SqlValue → Bound → Bound
with_value v (values vs) = values (v ∷ vs)
with_value v skipped = skipped
with_value v failed = failed

abbrev pub is_open : Writer → Bool
is_open w = is_some w.tables.begun

abbrev pub begun_writer : Writer → Writer
begun_writer w = record w { tables = begin_transaction w.tables }

abbrev pub committed : Writer → Writer
committed w = record w { tables = record w.tables { begun = none } }

-- The answer to ROLLBACK is ignored.
abbrev pub after_rollback : Answers → Writer → Writer
after_rollback a w = if a.rolls_back then record w { tables = roll_back w.tables } else w

module _ (dump : Json → Text) (compressed : List Text) (a : Answers) where
  -- One value for its column; `none` is the dictionary's exception.
  unfoldable pub encode_value : Writer → Text → Json → Option SqlValue × Writer
  encode_value w name serialized =
      if range_contains compressed name && not (is_null serialized)
      then (let (outcome, dictionary, tables) =
            get_or_create (some (insert_column_dict_value a)) w.dictionary w.tables name
              (text_of dump serialized) in
          (
            elim outcome [
              | returned id ↦ some (sql_integer (pos id))
              | threw ↦ none
              | overflowed ↦ none
            ],
            record { tables = tables; dictionary = dictionary },
          ))
      else (some (bind_param dump serialized), w)

  -- The loop over the columns.
  unfoldable pub bind_columns : Writer → Json → List ColumnInfo → Bound × Writer
  bind_columns w log [] = (values [], w)
  bind_columns w log (ci ∷ cols) =
      let raw = raw_value log ci.name in
      if ci.not_null && is_null raw
      then (skipped, w)
      else let (encoded, w') = encode_value w ci.name (serialize_value dump raw) in
        let (rest, w'') = bind_columns w' log cols in
        elim encoded [ none ↦ (failed, w') | some v ↦ (with_value v rest, w'') ]

  -- The row is inserted if SQLite takes it, and counted.
  unfoldable pub step_row : Writer → List SqlValue → ℕ × Writer
  step_row w vs = elim (a.takes_log vs) [
    | taken ↦ (1, record w { tables = record w.tables { logs = w.tables.logs ++ vs ∷ [] } })
    | refused ↦ (0, w)
    | undone ↦ (0, record w { tables = roll_back w.tables })
  ]

  -- The loop over the logs; `none` is an exception.
  unfoldable pub insert_logs : Writer → List ColumnInfo → List Json → Option ℕ × Writer
  insert_logs w cols [] = (some 0, w)
  insert_logs w cols (log ∷ logs) =
      let (bound, w') = bind_columns w log cols in
      let skip = insert_logs w' cols logs in
      elim bound [
        | failed ↦ (none, w')
        | skipped ↦ skip
        | values vs ↦
            let (n, w'') = step_row w' vs in
            let (total, w''') = insert_logs w'' cols logs in (Option.map (λ m. n + m) total, w''')
      ]

  -- The transaction. There is none in a transaction, and none to commit once SQLite has rolled it back.
  -- The dictionary in memory stays as it is.
  unfoldable pub in_transaction : Writer → List ColumnInfo → List Json → Option ℕ × Writer
  unfolding insert_logs begin_transaction
  in_transaction w cols logs =
      if not a.begins || is_open w
      then (none, w)
      else let (total, w') = insert_logs (begun_writer w) cols logs in
        elim total [
          | none ↦ (none, after_rollback a w')
          | some n ↦
              if a.commits && is_open w'
              then (some n, committed w')
              else (none, after_rollback a w')
        ]

  -- `Insert`: the columns but the primary key; nothing to do without columns or logs.
  unfoldable pub insert_batch : Writer → List ColumnInfo → List Json → Option ℕ × Writer
  unfolding in_transaction
  insert_batch w infos logs =
      let cols = keep (λ ci. not ci.is_pk) infos in
      if is_empty cols || is_empty logs then (some 0, w) else in_transaction w cols logs
