-- ===== src/Database/Statements.antt =====
-- database.cpp, the methods that run one statement, and the rows of statistics that writer_database.cpp
-- inserts. SQLite is a record of its answers.
use loglite.Prelude.{
  Bool, List, Option, Text, [], codes, false, if◌then◌else◌, none, not, some, suc, true, zero, ℕ,
  ◌++◌, ◌>>=◌, ◌∷◌,
}
use loglite.Prelude.Int.{pos, ℤ}
use loglite.Json.{ColumnInfo}
use loglite.Utils.{eq_ℤ}
use loglite.Database.{SqlValue, sql_null}

pub record Sqlite : Type 0 where
  -- The rows of a query, unless it cannot be prepared.
  pub rows : Text → Option (List (List SqlValue))
  -- Whether a statement without rows succeeds.
  pub exec : Text → Bool
  -- `sqlite3_column_text`, `sqlite3_column_int` and `sqlite3_column_int64`; a text may be missing.
  pub column_text : SqlValue → Option Text
  pub column_int : SqlValue → ℤ

-- A column that the row has not is read as NULL.
abbrev pub column_at : List SqlValue → ℕ → SqlValue
column_at [] i = sql_null
column_at (v ∷ vs) zero = v
column_at (v ∷ vs) (suc i) = column_at vs i

abbrev pub is_sql_null : SqlValue → Bool
is_sql_null sql_null = true
is_sql_null _ = false

-- The first column of the first row, where there is one and it is not NULL.
abbrev pub first_value : List (List SqlValue) → Option SqlValue
first_value [] = none
first_value (row ∷ rows) = if is_sql_null (column_at row 0) then none else some (column_at row 0)

abbrev pub int_or_zero : (SqlValue → ℤ) → Option SqlValue → ℤ
int_or_zero column_int none = pos 0
int_or_zero column_int (some v) = column_int v

abbrev pub text_or_empty : Option Text → Text
text_or_empty none = []
text_or_empty (some s) = s

module _ (sqlite : Sqlite) where
  unfoldable pub get_pragma : Text → Option Text
  get_pragma name = do
    found ← sqlite.rows (codes "PRAGMA " ++ name)
    some
        (elim found [ [] ↦ [] | row ∷ more ↦ text_or_empty (sqlite.column_text (column_at row 0)) ])

  unfoldable pub get_max_log_id : Text → Option ℤ
  get_max_log_id table = do
    found ← sqlite.rows (codes "SELECT MAX(id) FROM " ++ table)
    some (int_or_zero sqlite.column_int (first_value found))

  unfoldable pub get_min_log_id : Text → Option ℤ
  get_min_log_id table = do
    found ← sqlite.rows (codes "SELECT MIN(id) FROM " ++ table)
    some (int_or_zero sqlite.column_int (first_value found))

  unfoldable pub get_min_timestamp : Text → Text → Option Text
  get_min_timestamp field_name table = do
    found ← sqlite.rows (codes "SELECT MIN(" ++ field_name ++ codes ") FROM " ++ table)
    some (elim (first_value found) [ none ↦ [] | some v ↦ text_or_empty (sqlite.column_text v) ])

  unfoldable pub estimate_log_row_count : Text → Option ℤ
  estimate_log_row_count table = do
    found ← sqlite.rows (codes "SELECT COALESCE(MAX(id) - MIN(id) + 1, 0) FROM " ++ table)
    some (elim found [ [] ↦ pos 0 | row ∷ more ↦ sqlite.column_int (column_at row 0) ])

  -- A row of table_info: its name, its type, and whether it is NOT NULL and of the primary key. A text
  -- that is missing throws.
  unfoldable pub column_info_of : List SqlValue → Option ColumnInfo
  column_info_of row = do
    name ← sqlite.column_text (column_at row 1)
    type ← sqlite.column_text (column_at row 2)
    some (record {
      name = name;
      type = type;
      not_null = not (eq_ℤ (sqlite.column_int (column_at row 3)) (pos 0));
      is_pk = not (eq_ℤ (sqlite.column_int (column_at row 5)) (pos 0));
    })

  unfoldable pub column_infos_of : List (List SqlValue) → Option (List ColumnInfo)
  unfolding column_info_of
  column_infos_of [] = some []
  column_infos_of (row ∷ rows) = do
    ci ← column_info_of row
    rest ← column_infos_of rows
    some (ci ∷ rest)

  unfoldable pub fetch_table_columns : Text → Option (List ColumnInfo)
  unfolding column_infos_of
  fetch_table_columns table = do
    found ← sqlite.rows (codes "PRAGMA table_info(" ++ table ++ codes ")")
    column_infos_of found

  -- The columns of the three tables.
  unfoldable pub refresh_column_info :
      Text → Option (List ColumnInfo × List ColumnInfo × List ColumnInfo)
  unfolding fetch_table_columns
  refresh_column_info table = do
    log_columns ← fetch_table_columns table
    activity_columns ← fetch_table_columns (codes "activity_stats")
    database_columns ← fetch_table_columns (codes "database_stats")
    some (log_columns, activity_columns, database_columns)

  unfoldable pub ping : Bool
  ping = sqlite.exec (codes "SELECT 1")
