-- ===== src/Database.antt =====
-- cpp/src/database.hpp and database.cpp: what the reader and the writer connections share. SQLite is
-- not modelled here: a pragma's answer and a column's content are arguments, and the WHERE clause is
-- the text and the parameters that are handed over.
pub mod Conditions
pub mod Placeholders
pub mod Values
mod Params
mod Statements
mod Tests
use loglite.Prelude.{
  Bool, List, Option, Text, [], any, codes, if◌then◌else◌, is_empty, leb, map, max, none, not, some,
  text_eq, ℕ, ◌&&◌, ◌++◌, ◌-◌, ◌/◌, ◌==◌, ◌∷◌,
}
use loglite.Prelude.Int.{pos, to_signed, ℤ, ◌*ℤ◌, ◌-ℤ◌}
use loglite.Json.{ColumnInfo, Json, QueryFilter, boolean, floating, integer, null, string, text_of}
use loglite.Utils.{range_contains}
use loglite.ColumnDict.{LookupTable, query_candidates, value}

-- The shared schema: DatabaseCatalog.
pub record Catalog : Type 0 where
  pub compressed_columns : List Text
  pub log_column_info : List ColumnInfo
  pub dictionary : LookupTable

-- The modes by number or by name; `none` is the exception.
unfoldable pub normalize_vacuum_mode : Text → Option ℕ
normalize_vacuum_mode (c ∷ []) = if leb b'0' c && leb c b'2' then some (c - b'0') else none
normalize_vacuum_mode mode =
    if text_eq mode (codes "NONE")
    then some 0
    else if text_eq mode (codes "FULL")
    then some 1
    else if text_eq mode (codes "INCREMENTAL")
    then some 2
    else none

unfoldable pub serialize_value : (Json → Text) → Json → Json
serialize_value dump null = null
serialize_value dump (boolean b) = integer (pos (if b then 1 else 0))
serialize_value dump (integer n) = integer n
serialize_value dump (floating x) = floating x
serialize_value dump (string s) = string s
serialize_value dump v = string (dump v)

-- What SQLite keeps in a column, and gives back from one.
pub data SqlValue : Type 0 where
  sql_null : SqlValue
  sql_integer : ℤ → SqlValue
  sql_real : ℕ → SqlValue
  sql_text : Text → SqlValue
  sql_blob : SqlValue

-- `get<int64_t>()` keeps the low 64 bits of an integer.
unfoldable pub bind_param : (Json → Text) → Json → SqlValue
bind_param dump null = sql_null
bind_param dump (boolean b) = sql_integer (pos (if b then 1 else 0))
bind_param dump (integer n) = sql_integer (to_signed 64 n)
bind_param dump (floating x) = sql_real x
bind_param dump (string s) = sql_text s
bind_param dump v = sql_text (dump v)

unfoldable pub column_to_json : SqlValue → Json
column_to_json (sql_integer n) = integer n
column_to_json (sql_real x) = floating x
column_to_json (sql_text s) = string s
column_to_json sql_null = null
column_to_json sql_blob = null

abbrev pub pluck_column_names : List ColumnInfo → List Text
pluck_column_names = map (λ ci. ci.name)

-- The size in use, from three pragmas; a count that no pragma should give is kept as an integer.
unfoldable pub get_size_bytes : ℤ → ℤ → ℤ → ℤ
get_size_bytes page_count page_size freelist = (page_count -ℤ freelist) *ℤ page_size

-- For a size that is not negative: division by at least 1, and a result of at least 1.
unfoldable pub estimate_avg_row_bytes : ℕ → ℕ → ℕ
estimate_avg_row_bytes row_count db_size =
    let avg = db_size / max 1 row_count in if avg == 0 then 1 else avg

abbrev pub known_field : List ColumnInfo → Text → Bool
known_field infos name = any (λ ci. text_eq ci.name name) infos

abbrev pub allowed_ops : List Text
allowed_ops =
    codes "=" ∷ codes "!=" ∷ codes ">" ∷ codes ">=" ∷ codes "<" ∷ codes "<=" ∷ codes "~=" ∷ []

-- The clause, or the exceptions of `validate_field` and of the check of the operator.
pub data Where : Type 0 where
  clause : Text → List Json → Where
  unknown_field unknown_operator : Where

-- One mark for each id, with commas between.
abbrev pub marks : List ℕ → Text
marks [] = []
marks (id ∷ []) = codes "?"
marks (id ∷ j ∷ ids) = codes "?," ++ marks (j ∷ ids)

abbrev pub id_params : List ℕ → List Json
id_params = map (λ id. integer (pos id))

abbrev pub is_compressed : Catalog → Text → Bool
is_compressed c name = range_contains c.compressed_columns name

module _ (dump : Json → Text) (c : Catalog) where
  -- What one filter adds to the text and to the parameters.
  unfoldable pub condition_sql : QueryFilter → List ℕ → Text
  condition_sql f ids =
      if is_compressed c f.field_name
      then f.field_name ++ (codes " IN (" ++ (marks ids ++ codes ")"))
      else if text_eq f.op (codes "~=")
      then f.field_name ++ codes " LIKE ?"
      else f.field_name ++ (codes " " ++ (f.op ++ codes " ?"))

  unfoldable pub condition_params : QueryFilter → List ℕ → List Json
  condition_params f ids =
      if is_compressed c f.field_name
      then id_params ids
      else if text_eq f.op (codes "~=")
      then string (codes "%" ++ (text_of dump f.value ++ codes "%")) ∷ []
      else f.value ∷ []

  -- `if (!sql_parts.empty()) sql_parts += " AND "`
  abbrev pub and_then : Text → Text
  and_then sql = if is_empty sql then sql else sql ++ codes " AND "

  -- The loop, over what it has built so far.
  pub where_from : Text → List Json → List QueryFilter → Where
  unfolding condition_sql condition_params
  where_from sql params [] = clause (if is_empty sql then codes "1=1" else sql) params
  where_from sql params (f ∷ fs) =
      let ids = query_candidates dump c.dictionary f in
      let rest =
        where_from (and_then sql ++ condition_sql f ids) (params ++ condition_params f ids) fs in
      if not (known_field c.log_column_info f.field_name)
      then unknown_field
      else if not (range_contains allowed_ops f.op)
      then unknown_operator
      else if is_compressed c f.field_name && is_empty ids
      then clause (codes "1=0") []
      else rest

  unfoldable pub build_where_clause : List QueryFilter → Where
  unfolding where_from
  build_where_clause = where_from [] []
