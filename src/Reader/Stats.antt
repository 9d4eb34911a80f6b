-- ===== src/Reader/Stats.antt =====
-- reader_database.cpp, QueryActivityStats and QueryDatabaseStats, and Ping: the two tables of
-- statistics, each with its name, its column of time and its columns.
use loglite.Prelude.{
  Bool, List, Option, Text, [], codes, if◌then◌else◌, is_empty, map, none, not, some, text_eq, true,
  ◌&&◌, ◌++◌, ◌||◌, ◌∷◌,
}
use loglite.Json.{ColumnInfo, Json}
use loglite.Results.{StatsQueryResult}
use loglite.Utils.{range_contains}
use loglite.Database.{SqlValue, column_to_json, pluck_column_names}
use loglite.Reader.{is_all}
use loglite.Reader.Querying.{join_with}

pub record StatsTable : Type 0 where
  pub table : Text
  pub time_column : Text
  pub column_info : List ColumnInfo

abbrev pub activity_stats : List ColumnInfo → StatsTable
activity_stats infos = record {
  table = codes "activity_stats";
  time_column = codes "until";
  column_info = infos;
}

abbrev pub database_stats : List ColumnInfo → StatsTable
database_stats infos = record {
  table = codes "database_stats";
  time_column = codes "timestamp";
  column_info = infos;
}

-- All fields where none or `*` is asked for.
abbrev pub resolved_fields : List Text → List Text → List Text
resolved_fields known fields = if is_empty fields || is_all fields then known else fields

abbrev pub all_known : List Text → List Text → Bool
all_known known [] = true
all_known known (f ∷ fs) = range_contains known f && all_known known fs

unfoldable pub stats_sql : StatsTable → List Text → Text → Text
stats_sql t resolved ordering =
    codes "SELECT "
    ++ (join_with (codes ", ") resolved
        ++ (codes " FROM "
            ++ (t.table
                ++ (codes " WHERE "
                    ++ (t.time_column
                        ++ (codes " >= ? AND "
                            ++ (t.time_column
                                ++ (codes " <= ? ORDER BY "
                                    ++ (t.time_column
                                        ++ (if text_eq ordering (codes "asc")
                                            then codes " ASC"
                                            else codes " DESC"))))))))))

-- The first cells of a row, as many as there are fields.
abbrev pub stats_row : List Text → List SqlValue → List Json
stats_row [] cells = []
stats_row (f ∷ fs) [] = []
stats_row (f ∷ fs) (cell ∷ cells) = column_to_json cell ∷ stats_row fs cells

-- The rows of a statement with its two times: SQLite's answer.
abbrev pub Select : Type 0
Select = Text → List Text → List (List SqlValue)

-- `none` is the exception of an unknown field.
unfoldable pub query_stats :
    Select → StatsTable → Text → Text → List Text → Text → Option StatsQueryResult
unfolding stats_sql
query_stats select t since until fields ordering =
    let known = pluck_column_names t.column_info in
    let resolved = resolved_fields known fields in
    if not (all_known known resolved)
    then none
    else some (record {
      fields = resolved;
      data_rows =
          map (stats_row resolved) (select (stats_sql t resolved ordering) (since ∷ until ∷ []));
    })

-- The two queries, over the columns of their tables.
unfoldable pub query_activity_stats :
    Select → List ColumnInfo → Text → Text → List Text → Text → Option StatsQueryResult
unfolding query_stats
query_activity_stats select infos = query_stats select (activity_stats infos)

unfoldable pub query_database_stats :
    Select → List ColumnInfo → Text → Text → List Text → Text → Option StatsQueryResult
unfolding query_stats
query_database_stats select infos = query_stats select (database_stats infos)
