-- ===== src/Reader/Querying.antt =====
-- reader_database.cpp, Query: its statements, and how their rows become the result. What SQLite
-- answers to a statement with its parameters is an argument.
use loglite.Prelude.{
  List, Option, Text, [], codes, if◌then◌else◌, is_empty, none, some, ◌++◌, ◌>>=◌, ◌∷◌,
}
use loglite.Prelude.Int.{ltb_ℤ, pos, to_signed, ℤ}
use loglite.Json.{Json, QueryFilter, integer, object}
use loglite.Results.{PaginatedQueryResult}
use loglite.Utils.{eq_ℤ}
use loglite.Database.{
  Catalog, SqlValue, Where, build_where_clause, clause, unknown_field, unknown_operator,
}
use loglite.Reader.{decode_row, effective_fields}

-- The tables, as SELECT statements see them.
pub record Store : Type 0 where
  -- EstimateLogRowCount
  pub estimated_rows : ℤ
  -- The first column of the only row, if there is one.
  pub count_rows : Text → List Json → Option ℤ
  pub select_rows : Text → List Json → List (List SqlValue)

abbrev pub join_with : Text → List Text → Text
join_with sep [] = []
join_with sep (x ∷ []) = x
join_with sep (x ∷ y ∷ xs) = x ++ (sep ++ join_with sep (y ∷ xs))

-- A field that may throw at every element, in order.
abbrev pub decode_rows : List Text → Catalog → List (List SqlValue) → Option (List Json)
decode_rows names c [] = some []
decode_rows names c (row ∷ rows) = do
  fs ← decode_row c.compressed_columns c.dictionary names row
  rest ← decode_rows names c rows
  some (object fs ∷ rest)

abbrev pub select_params : List Json → ℤ → ℤ → List Json
select_params params limit offset = params ++ integer limit ∷ integer offset ∷ []

module _ (log_table_name log_timestamp_field : Text) where
  unfoldable pub count_sql : Text → Text
  count_sql condition =
      codes "SELECT COUNT(id) FROM " ++ (log_table_name ++ (codes " WHERE " ++ condition))

  unfoldable pub select_sql : List Text → Text → Text
  select_sql names condition =
      codes "SELECT "
      ++ (join_with (codes ",") names
          ++ (codes " FROM "
              ++ (log_table_name
                  ++ (codes " WHERE "
                      ++ (condition
                          ++ (codes " ORDER BY "
                              ++ (log_timestamp_field ++ codes " DESC LIMIT ? OFFSET ?")))))))

  -- The number of rows: an estimate without filters, else a count; the `int` keeps the low 32 bits.
  abbrev pub total_rows : Store → List QueryFilter → Text → List Json → ℤ
  total_rows store filters condition params =
      if is_empty filters
      then to_signed 32 store.estimated_rows
      else elim (store.count_rows (count_sql condition) params) [
        | none ↦ pos 0
        | some n ↦ to_signed 32 n
      ]

-- The clause, or the exception of building it.
abbrev pub with_clause : {A : Type 0} → Where → (Text → List Json → Option A) → Option A
with_clause (clause condition params) k = k condition params
with_clause unknown_field k = none
with_clause unknown_operator k = none

module _ (dump : Json → Text) (c : Catalog) (log_table_name log_timestamp_field : Text) where
  -- The second half: `reserve` throws on a negative limit.
  unfoldable pub select_results :
      Store → List Text → Text → List Json → ℤ → ℤ → ℤ → Option PaginatedQueryResult
  unfolding select_sql
  select_results store names condition params total limit offset =
      if ltb_ℤ limit (pos 0) then none else do
        results ← decode_rows names c (
            store.select_rows (select_sql log_table_name log_timestamp_field names condition)
              (select_params params limit offset))
        some (record { total = total; offset = offset; limit = limit; results = results })

  -- `none` is an exception.
  unfoldable pub query : Store → List Text → List QueryFilter → ℤ → ℤ → Option PaginatedQueryResult
  unfolding select_results
  query store fields filters limit offset = do
    names ← effective_fields c.log_column_info fields
    with_clause (build_where_clause dump c filters) (λ condition params.
        let total = total_rows log_table_name log_timestamp_field store filters condition params in
        let nothing : PaginatedQueryResult = record {
          total = total;
          offset = offset;
          limit = limit;
          results = [];
        } in
        let selected = select_results store names condition params total limit offset in
        if eq_ℤ total (pos 0) then some nothing else selected)
