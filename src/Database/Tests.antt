-- ===== src/Database/Tests.antt =====
-- The WHERE clause at concrete inputs.
use loglite.Prelude.{All, List, Text, [], codes, false, lookup, refl, some, ◌∷◌, ◌≡◌}
use loglite.Prelude.Int.{pos}
use loglite.Json.{ColumnInfo, Json, QueryFilter, integer, string}
use loglite.ColumnDict.{query_candidates, value_matches}
use loglite.Database.{Catalog, build_where_clause, clause, normalize_vacuum_mode}
use loglite.Database.Params.{apply_param, apply_params, write_mode}
use loglite.Database.Conditions.{
  IsUsable, all_params, build_where_clause-conjunction, build_where_clause-verdict, conjunction,
  verdict,
}

abbrev dump_none : Json → Text
dump_none v = []

abbrev column : Text → ColumnInfo
column name = record { name = name; type = codes "TEXT"; not_null = false; is_pk = false }

abbrev catalog : Catalog
catalog = record {
  compressed_columns = codes "level" ∷ [];
  log_column_info = column (codes "level") ∷ column (codes "message") ∷ [];
  dictionary = (codes "level", (codes "INFO", 1) ∷ []) ∷ [];
}

abbrev by_level : Text → QueryFilter
by_level s = record { field_name = codes "level"; op = codes "="; value = string s }

abbrev by_message : QueryFilter
by_message = record { field_name = codes "message"; op = codes "~="; value = string (codes "up") }

abbrev two_filters : List QueryFilter
two_filters = by_level (codes "INFO") ∷ by_message ∷ []

two_filters-IsUsable : All (IsUsable dump_none catalog) two_filters
two_filters-IsUsable =
    unfold query_candidates lookup value_matches in ((refl, refl, refl), ((refl, refl, refl), tt))

build_where_clause-conjunction_example :
    build_where_clause dump_none catalog two_filters
    ≡ clause (conjunction dump_none catalog two_filters) (all_params dump_none catalog two_filters)
build_where_clause-conjunction_example =
    build_where_clause-conjunction dump_none catalog two_filters two_filters-IsUsable

two_filters_clause :
    build_where_clause dump_none catalog two_filters
    ≡ clause
        (codes "level IN (?) AND message LIKE ?")
        (integer (pos 1) ∷ string (codes "%up%") ∷ [])
unfolding build_where_clause query_candidates lookup value_matches
two_filters_clause = refl

no_such_level : ¬ IsUsable dump_none catalog (by_level (codes "WARN"))
unfolding query_candidates lookup value_matches
no_such_level h = cc (h.2)

build_where_clause-verdict_example :
    build_where_clause dump_none catalog (by_message ∷ by_level (codes "WARN") ∷ by_message ∷ [])
    ≡ verdict dump_none catalog (by_level (codes "WARN"))
build_where_clause-verdict_example =
    build_where_clause-verdict dump_none catalog (by_message ∷ []) (by_level (codes "WARN"))
      (by_message ∷ []) ((refl, refl, refl), tt) no_such_level

to_incremental :
    apply_params write_mode (codes "0") ((codes "auto_vacuum", codes "INCREMENTAL") ∷ [])
    ≡ some (codes "PRAGMA auto_vacuum=INCREMENTAL" ∷ codes "VACUUM" ∷ [])
unfolding apply_params apply_param normalize_vacuum_mode
to_incremental = refl
