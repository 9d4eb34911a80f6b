-- ===== src/Reader/Tests.antt =====
-- Reading back at concrete inputs.
use loglite.Prelude.{
  All, Bool-cases, List, Text, [], arith, codes, count, false, if◌then◌else◌, inl, inr, insert,
  length, lookup, none, refl, some, text_eq, true, ℕ, ◌∷◌, ◌≡◌, ◌≤◌,
}
use loglite.Prelude.Int.{negsuc, pos, to_signed}
use loglite.Json.{ColumnInfo, Json, QueryFilter, end, field, integer, object, set_field, string}
use loglite.ColumnDict.{LookupTable, get_value, query_candidates}
use loglite.Database.{Catalog, build_where_clause, clause, column_to_json, sql_integer}
use loglite.Prelude.Int.{negsuc, pos, to_signed}
use loglite.Writer.{
  Answers, Writer, begin_transaction, bind_columns, encode_value, in_transaction,
  insert_column_dict_value, insert_logs, step_row, taken,
}
use loglite.Reader.{decode_cell, decode_row, effective_fields, get_int}
use loglite.Database.Conditions.{IsUsable}
use loglite.Reader.Querying.{Store, query, select_params, select_results, select_sql}
use loglite.Reader.Stats.{query_activity_stats, query_stats}
use loglite.Reader.Bound.{select_sql-count}
use loglite.Prelude.{
  All, Bool-cases, List, Text, [], arith, codes, count, false, if◌then◌else◌, inl, inr, insert,
  length, lookup, none, refl, some, text_eq, true, ℕ, ◌∷◌, ◌≡◌, ◌≤◌,
}
use loglite.Writer.{
  Answers, Writer, begin_transaction, bind_columns, encode_value, in_transaction,
  insert_column_dict_value, insert_logs, step_row, taken,
}
use loglite.Reader.Decoding.{IsInt}

abbrev dump_none : Json → Text
dump_none v = []

abbrev fresh_writer : Writer
fresh_writer = record {
  tables = record { logs = []; column_dictionary = []; begun = none };
  dictionary = [];
}

abbrev accepting : Answers
accepting = record {
  begins = true;
  takes_log = λ vs. taken;
  takes_entry = λ col v id. taken;
  commits = true;
  rolls_back = true;
}

abbrev compressed : List Text
compressed = codes "level" ∷ []

empty-IsInt : IsInt []
unfolding lookup
empty-IsInt c v id h = cc

abbrev levels : LookupTable
levels = (codes "level", (codes "INFO", 1) ∷ []) ∷ []

abbrev columns : List ColumnInfo
columns =
    record { name = codes "level"; type = codes "TEXT"; not_null = true; is_pk = false }
    ∷ record { name = codes "size"; type = codes "INTEGER"; not_null = false; is_pk = false }
    ∷ []

abbrev small_log : Json
small_log =
    object
      (field (codes "level") (string (codes "INFO")) (field (codes "size") (integer (pos 7)) end))

row_decoded :
    decode_row compressed levels
      (codes "level" ∷ codes "size" ∷ [])
      (sql_integer (pos 1) ∷ sql_integer (pos 7) ∷ [])
    ≡ some
        (field (codes "level") (string (codes "INFO")) (field (codes "size") (integer (pos 7)) end))
unfolding decode_row decode_cell get_int column_to_json get_value lookup set_field
row_decoded = refl

abbrev log_catalog : Catalog
log_catalog = record {
  compressed_columns = compressed;
  log_column_info = columns;
  dictionary = levels;
}

abbrev by_size : QueryFilter
by_size = record { field_name = codes "size"; op = codes ">="; value = integer (pos 7) }

by_size-IsUsable : IsUsable dump_none log_catalog by_size
by_size-IsUsable = unfold query_candidates in (refl, refl, refl)

select_sql-count_example :
    (condition : Text) × (params : List Json) × (build_where_clause dump_none log_catalog
        (by_size ∷ [])
      ≡ clause condition params)
    × (count b'?' (
          select_sql
            (codes "Log")
            (codes "timestamp")
            (codes "level" ∷ codes "size" ∷ [])
            condition)
        ≡ length (select_params params (pos 10) (pos 0)))
select_sql-count_example =
    select_sql-count dump_none log_catalog (codes "Log") (codes "timestamp") (refl, (refl, tt)) refl
      refl (codes "*" ∷ []) (codes "level" ∷ codes "size" ∷ []) (by_size ∷ []) (pos 10) (pos 0)
      (unfold effective_fields in refl) (by_size-IsUsable, tt)
      ((refl, (refl, (refl, (refl, tt)))), tt)

-- A table of two rows, whatever is asked of it.
abbrev two_rows : Store
two_rows = record {
  estimated_rows = pos 2;
  count_rows = λ sql params. some (pos 2);
  select_rows = λ sql params.
      (sql_integer (pos 1) ∷ sql_integer (pos 7) ∷ [])
      ∷ (sql_integer (pos 1) ∷ sql_integer (pos 9) ∷ [])
      ∷ [];
}

abbrev row_of : ℕ → Json
row_of n =
    object
      (field (codes "level") (string (codes "INFO")) (field (codes "size") (integer (pos n)) end))

two_results :
    query dump_none log_catalog
      (codes "Log")
      (codes "timestamp")
      two_rows
      (codes "*" ∷ [])
      []
      (pos 10)
      (pos 0)
    ≡ some (record {
      total = pos 2;
      offset = pos 0;
      limit = pos 10;
      results = row_of 7 ∷ row_of 9 ∷ [];
    })
unfolding query select_results effective_fields build_where_clause decode_row decode_cell get_int
    column_to_json get_value lookup set_field to_signed
two_results = refl

-- A negative limit, which SQLite would take for none, is an exception.
negative_limit :
    query dump_none log_catalog
      (codes "Log")
      (codes "timestamp")
      two_rows
      (codes "*" ∷ [])
      []
      (negsuc 0)
      (pos 0)
    ≡ none
unfolding query select_results effective_fields build_where_clause to_signed
negative_limit = refl

unknown_stats_field :
    query_activity_stats (λ sql params. []) columns [] [] (codes "id" ∷ []) (codes "asc") ≡ none
unfolding query_activity_stats query_stats
unknown_stats_field = refl

-- A table of one row, whatever is asked of it.
abbrev one_row : Store
one_row = record {
  estimated_rows = pos 1;
  count_rows = λ sql params. some (pos 1);
  select_rows = λ sql params. (sql_integer (pos 1) ∷ sql_integer (pos 7) ∷ []) ∷ [];
}
