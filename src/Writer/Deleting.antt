-- ===== src/Writer/Deleting.antt =====
-- writer_database.cpp, DeleteLogs: the statement and its parameters, which `run` hands to SQLite.
use loglite.Prelude.{List, Option, Text, codes, none, ◌++◌}
use loglite.Json.{Json, QueryFilter}
use loglite.Database.{Catalog, build_where_clause, clause, unknown_field, unknown_operator}

unfoldable pub delete_sql : Text → Text → Text
delete_sql log_table_name condition =
    codes "DELETE FROM " ++ (log_table_name ++ (codes " WHERE " ++ condition))

-- `none` is an exception: of a field or an operator that is not known, or of the statement.
unfoldable pub delete_logs :
    {A : Type 0}
    → (Json → Text)
    → Catalog
    → Text
    → (Text → List Json → Option A)
    → List QueryFilter
    → Option A
unfolding delete_sql
delete_logs dump c log_table_name run filters = elim (build_where_clause dump c filters) [
  | clause condition params ↦ run (delete_sql log_table_name condition) params
  | unknown_field ↦ none
  | unknown_operator ↦ none
]
