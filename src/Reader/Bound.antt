-- ===== src/Reader/Bound.antt =====
-- reader_database.cpp, Query: the parameters that are bound to the SELECT statement.
use loglite.Prelude.{
  All, Bool-cases, List, Text, [], arith, codes, count, count-append, inl, inr, length,
  length-append, refl, some, subst, text_eq, text_eq_iff, ◌++◌, ◌+◌, ◌∷◌, ◌≡◌,
}
use loglite.Prelude.Int.{ℤ}
use loglite.Json.{ColumnInfo, Json, QueryFilter, integer}
use loglite.Database.{Catalog, build_where_clause, clause}
use loglite.Database.Conditions.{IsUsable}
use loglite.Database.Placeholders.{PlainField, build_where_clause-count}
use loglite.Reader.{effective_fields}
use loglite.Reader.Names.{IsKnown, effective_fields-IsKnown}
use loglite.Reader.Querying.{join_with, select_params, select_sql}

-- A text without a question mark.
abbrev pub IsPlain : Text → Type 0
IsPlain s = count b'?' s ≡ 0

count-join_with :
    (names : List Text) → All IsPlain names → count b'?' (join_with (codes ",") names) ≡ 0
count-join_with [] h = refl
count-join_with (x ∷ []) h = h.0
count-join_with (x ∷ y ∷ names) h = omega (
  arith,
  h.0,
  count-append b'?' x (codes "," ++ join_with (codes ",") (y ∷ names)),
  count-join_with (y ∷ names) h.1,
)

known-IsPlain :
    (infos : List ColumnInfo) (f : Text)
    → All (λ ci. IsPlain ci.name) infos
    → IsKnown infos f
    → IsPlain f
known-IsPlain [] f h k = cc
known-IsPlain (ci ∷ infos) f h k = elim (Bool-cases (text_eq ci.name f)) [
  | inl e ↦ subst IsPlain ((text_eq_iff ci.name f).0 e) h.0
  | inr e ↦ known-IsPlain infos f h.1 (rw e at k)
]

all_known-IsPlain :
    (infos : List ColumnInfo) (names : List Text)
    → All (λ ci. IsPlain ci.name) infos
    → All (IsKnown infos) names
    → All IsPlain names
all_known-IsPlain infos [] h k = tt
all_known-IsPlain infos (f ∷ names) h k =
    (known-IsPlain infos f h k.0, all_known-IsPlain infos names h k.1)

module _ (dump : Json → Text) (c : Catalog) (log_table_name log_timestamp_field : Text)
    (plain_columns : All (λ ci. IsPlain ci.name) c.log_column_info)
    (plain_table : IsPlain log_table_name) (plain_time : IsPlain log_timestamp_field) where
  count-select_sql :
      (names : List Text) (condition : Text)
      → All IsPlain names
      → count b'?' (select_sql log_table_name log_timestamp_field names condition)
        ≡ count b'?' condition + 2
  unfolding select_sql
  count-select_sql names condition h =
      let time = log_timestamp_field ++ codes " DESC LIMIT ? OFFSET ?" in
      let where_part = condition ++ (codes " ORDER BY " ++ time) in
      let table = log_table_name ++ (codes " WHERE " ++ where_part) in
      omega (
        arith,
        plain_table,
        plain_time,
        count-join_with names h,
        count-append b'?' (join_with (codes ",") names) (codes " FROM " ++ table),
        count-append b'?' log_table_name (codes " WHERE " ++ where_part),
        count-append b'?' condition (codes " ORDER BY " ++ time),
        count-append b'?' log_timestamp_field (codes " DESC LIMIT ? OFFSET ?"),
      )

  -- When no name of a column, nor those of the table and of the column of time, has a question mark in
  -- it, the SELECT that Query runs for known fields and usable filters has exactly one placeholder for
  -- each parameter that is bound: those of the filters, the limit and the offset.
  pub select_sql-count :
      (fields names : List Text) (filters : List QueryFilter) (limit offset : ℤ)
      → effective_fields c.log_column_info fields ≡ some names
      → All (IsUsable dump c) filters
      → All (PlainField dump c) filters
      → (condition : Text) × (params : List Json) × (build_where_clause dump c filters
          ≡ clause condition params)
        × (count b'?' (select_sql log_table_name log_timestamp_field names condition)
            ≡ length (select_params params limit offset))
  select_sql-count fields names filters limit offset e usable plain =
      let (condition, params, built, same) = build_where_clause-count dump c filters usable plain in
      let known = (effective_fields-IsKnown c.log_column_info fields names e).0 in
      (
        condition,
        params,
        built,
        omega (
          arith,
          same,
          count-select_sql names condition
              (all_known-IsPlain c.log_column_info names plain_columns known),
          length-append params (integer limit ∷ integer offset ∷ []),
        ),
      )
