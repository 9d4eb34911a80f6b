-- ===== src/Reader.antt =====
-- cpp/src/reader_database.cpp, Query: the fields of a query, the text of its statement, and how a cell
-- of a row is decoded. SQLite's answers, the number of rows and the rows, are arguments.
mod Decoding
mod Names
pub mod Querying
pub mod Stats
mod Rows
mod Stored
mod Answered
mod Bound
mod Tests
use loglite.Prelude.{
  Bool, List, Option, Text, [], codes, false, if◌then◌else◌, leb, none, some, text_eq, true, ℕ, ◌%◌,
  ◌&&◌, ◌-◌, ◌>>=◌, ◌^◌, ◌∷◌,
}
use loglite.Prelude.Int.{negsuc, pos}
use loglite.Json.{ColumnInfo, Fields, Json, end, integer, set_field, string}
use loglite.Utils.{int_max, range_contains}
use loglite.ColumnDict.{Found, LookupTable, get_value, no_value, unknown_column, value}
use loglite.Database.{SqlValue, column_to_json, known_field, pluck_column_names}

-- The fields of the answer; `none` is `validate_field`'s exception.
abbrev pub validated : List ColumnInfo → List Text → Option (List Text)
validated infos [] = some []
validated infos (f ∷ fs) = do
  rest ← validated infos fs
  if known_field infos f then some (f ∷ rest) else none

-- `fields.size() == 1 && fields[0] == "*"`
abbrev pub is_all : List Text → Bool
is_all (f ∷ []) = text_eq f (codes "*")
is_all fields = false

unfoldable pub effective_fields : List ColumnInfo → List Text → Option (List Text)
effective_fields infos fields =
    if is_all fields then some (pluck_column_names infos) else validated infos fields

abbrev pub is_integer : Json → Bool
is_integer (integer n) = true
is_integer _ = false

-- `get<int>()` keeps the low 32 bits; `none` where they are a negative number, which is no id.
abbrev pub low_id : ℕ → Option ℕ
low_id r = if leb r int_max then some r else none

unfoldable pub get_int : Json → Option ℕ
get_int (integer (pos n)) = low_id (n % 2 ^ 32)
get_int (integer (negsuc n)) = low_id (2 ^ 32 - 1 - n % 2 ^ 32)
get_int _ = none

abbrev pub decoded : Found → Option Json
decoded (value s) = some (string s)
decoded unknown_column = none
decoded no_value = none

-- One cell; `none` is GetValue's exception.
unfoldable pub decode_cell : List Text → LookupTable → Text → SqlValue → Option Json
unfolding get_int
decode_cell compressed dictionary fname cell =
    let val = column_to_json cell in
    if range_contains compressed fname && is_integer val
    then (do id ← get_int val; decoded (get_value dictionary fname id))
    else some val

-- One row: its cells in the order of the fields, set into an object.
unfoldable pub decode_row : List Text → LookupTable → List Text → List SqlValue → Option Fields
unfolding decode_cell
decode_row compressed dictionary [] cells = some end
decode_row compressed dictionary (f ∷ fs) [] = some end
decode_row compressed dictionary (f ∷ fs) (cell ∷ cells) = do
  val ← decode_cell compressed dictionary f cell
  rest ← decode_row compressed dictionary fs cells
  some (set_field rest f val)
