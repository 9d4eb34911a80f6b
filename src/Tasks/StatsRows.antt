-- ===== src/Tasks/StatsRows.antt =====
-- cpp/src/writer_database.cpp, InsertActivityStats and InsertDatabaseStats: the columns that are named,
-- and the values that are bound to them, in order.
use loglite.Prelude.{
  List, Option, Text, [], codes, if◌then◌else◌, length, none, refl, some, text_eq, ◌∷◌, ◌≡◌,
}
use loglite.Prelude.Int.{}
use loglite.Database.{SqlValue, sql_integer, sql_text}
use loglite.Tasks.Diagnostics.{ActivityStatsRow, DatabaseStatsRow}

abbrev pub activity_columns : List Text
activity_columns =
    codes "since"
    ∷ codes "until"
    ∷ codes "query_count"
    ∷ codes "query_min"
    ∷ codes "query_max"
    ∷ codes "query_avg"
    ∷ codes "ingest_count"
    ∷ codes "ingest_size_min"
    ∷ codes "ingest_size_max"
    ∷ codes "ingest_size_avg"
    ∷ codes "ingest_drop_count"
    ∷ codes "insert_batch_count"
    ∷ codes "insert_total_count"
    ∷ codes "insert_total_cost"
    ∷ codes "sse_session_count"
    ∷ codes "http_conn_count"
    ∷ []

unfoldable pub insert_activity_stats : ActivityStatsRow → List SqlValue
insert_activity_stats r =
    sql_text r.since
    ∷ sql_text r.until
    ∷ sql_integer r.query_count
    ∷ sql_integer r.query_min
    ∷ sql_integer r.query_max
    ∷ sql_integer r.query_avg
    ∷ sql_integer r.ingest_count
    ∷ sql_integer r.ingest_size_min
    ∷ sql_integer r.ingest_size_max
    ∷ sql_integer r.ingest_size_avg
    ∷ sql_integer r.ingest_drop_count
    ∷ sql_integer r.insert_batch_count
    ∷ sql_integer r.insert_total_count
    ∷ sql_integer r.insert_total_cost
    ∷ sql_integer r.sse_session_count
    ∷ sql_integer r.http_conn_count
    ∷ []

abbrev pub database_columns : List Text
database_columns = codes "timestamp" ∷ codes "rows_count" ∷ codes "db_size" ∷ []

unfoldable pub insert_database_stats : DatabaseStatsRow → List SqlValue
insert_database_stats r =
    sql_text r.timestamp ∷ sql_integer r.rows_count ∷ sql_integer r.db_size ∷ []

-- A column and the value that is bound to it.
abbrev pub bound_to : List Text → List SqlValue → Text → Option SqlValue
bound_to [] vs name = none
bound_to (c ∷ cs) [] name = none
bound_to (c ∷ cs) (v ∷ vs) name = if text_eq c name then some v else bound_to cs vs name

-- There is a value for each column, and each column that holds a count gets the member of its name.
pub insert_activity_stats-bound_to :
    (r : ActivityStatsRow)
    → let bound = bound_to activity_columns (insert_activity_stats r) in
      (length (insert_activity_stats r) ≡ length activity_columns)
      × (bound (codes "query_count") ≡ some (sql_integer r.query_count))
      × (bound (codes "ingest_count") ≡ some (sql_integer r.ingest_count))
      × (bound (codes "ingest_drop_count") ≡ some (sql_integer r.ingest_drop_count))
      × (bound (codes "insert_batch_count") ≡ some (sql_integer r.insert_batch_count))
      × (bound (codes "insert_total_count") ≡ some (sql_integer r.insert_total_count))
      × (bound (codes "sse_session_count") ≡ some (sql_integer r.sse_session_count))
      × (bound (codes "http_conn_count") ≡ some (sql_integer r.http_conn_count))
unfolding insert_activity_stats
insert_activity_stats-bound_to r = (refl, refl, refl, refl, refl, refl, refl, refl)
