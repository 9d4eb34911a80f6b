-- ===== src/Burn/Schema.antt =====
-- burn/src/schema.hpp, up to FetchSchemaPlan: the fields that a load generator sends, from the answer
-- to GET /schema. An exception, of the JSON library's accessors too, is `none`.
use loglite.Prelude.{
  Assoc, Bool, List, Option, Text, [], codes, false, if◌then◌else◌, lookup, none, some, text_eq,
  true, ℕ, ◌==◌, ◌>>=◌, ◌∷◌,
}
use loglite.Json.{
  Fields, Items, Json, array, boolean, cons, end, field, find, find_field, nil, null, object,
  string,
}

pub data FieldKind : Type 0 where
  message_kind level_kind utc_now_kind text8_kind number_kind null_kind bool_kind : FieldKind

pub record FieldSpec : Type 0 where
  pub name : Text
  pub kind : FieldKind

abbrev pub kinds : Assoc FieldKind
kinds =
    (codes "integer", number_kind)
    ∷ (codes "number", number_kind)
    ∷ (codes "json", null_kind)
    ∷ (codes "blob", null_kind)
    ∷ (codes "boolean", bool_kind)
    ∷ (codes "datetime", utc_now_kind)
    ∷ (codes "text", text8_kind)
    ∷ []

unfoldable pub kind_from_schema : Text → FieldKind
unfolding lookup
kind_from_schema kind = elim (lookup kind kinds) [ none ↦ text8_kind | some k ↦ k ]

-- `v.get<std::string>()` and `v.get<bool>()`.
abbrev pub get_string : Json → Option Text
get_string (string s) = some s
get_string _ = none

abbrev pub get_boolean : Json → Option Bool
get_boolean (boolean b) = some b
get_boolean _ = none

-- `v.at(k).get<std::string>()`
unfoldable pub string_at : Json → Text → Option Text
unfolding find
string_at v k = find v k >>= get_string

abbrev pub boolean_or : Bool → Option Json → Option Bool
boolean_or default none = some default
boolean_or default (some v) = get_boolean v

-- `v.value(k, default)` for a Boolean: what is no object throws.
unfoldable pub boolean_value : Json → Text → Bool → Option Bool
unfolding find_field
boolean_value (object fs) k default = boolean_or default (find_field fs k)
boolean_value _ k default = none

-- What a range over a value runs through: an array's elements_of, an object's values, nothing of null,
-- and any other value itself.
abbrev pub field_values : Fields → Items
field_values end = nil
field_values (field k v fs) = cons v (field_values fs)

abbrev pub elements_of : Json → Items
elements_of null = nil
elements_of (array vs) = vs
elements_of (object fs) = field_values fs
elements_of v = cons v nil

unfoldable pub has_column : Items → Text → Option Bool
unfolding string_at
has_column nil name = some false
has_column (cons col columns) name = do
  found ← string_at col (codes "name")
  if text_eq found name then some true else has_column columns name

unfoldable pub require_columns : Items → List Text → Option (Unit {0})
unfolding has_column
require_columns columns [] = some tt
require_columns columns (name ∷ names) = do
  found ← has_column columns name
  if found then require_columns columns names else none

-- The field of a column that is no primary key.
unfoldable pub planned_field : Text → Bool → Bool → Text → Option FieldSpec
unfolding kind_from_schema
planned_field name compressed not_null kind =
    if text_eq name (codes "message")
    then some (record { name = name; kind = message_kind })
    else if text_eq name (codes "level")
    then some (record { name = name; kind = level_kind })
    else if text_eq name (codes "timestamp")
    then some (record { name = name; kind = utc_now_kind })
    else if compressed
    then (if not_null then some (record { name = name; kind = text8_kind }) else none)
    else some (record { name = name; kind = kind_from_schema kind })

-- A column behind the test of the primary key.
unfoldable pub described_field : Json → Option (Option FieldSpec)
unfolding string_at boolean_value planned_field
described_field col = do
  name ← string_at col (codes "name")
  compressed ← boolean_value col (codes "compressed") false
  not_null ← boolean_value col (codes "not_null") false
  kind ← string_at col (codes "kind")
  some (planned_field name compressed not_null kind)

unfoldable pub field_from_schema_column : Json → Option (Option FieldSpec)
unfolding boolean_value described_field
field_from_schema_column col = do
  is_pk ← boolean_value col (codes "primary_key") false
  if is_pk then some none else described_field col

abbrev pub with_field : Option FieldSpec → List FieldSpec → List FieldSpec
with_field none fields = fields
with_field (some f) fields = f ∷ fields

unfoldable pub plan_fields : Items → Option (List FieldSpec)
unfolding field_from_schema_column
plan_fields nil = some []
plan_fields (cons col columns) = do
  found ← field_from_schema_column col
  fields ← plan_fields columns
  some (with_field found fields)

abbrev pub required_columns : List Text
required_columns = codes "timestamp" ∷ codes "message" ∷ codes "level" ∷ []

unfoldable pub plan_of_body : Json → Option (List FieldSpec)
unfolding find require_columns plan_fields
plan_of_body body = do
  columns ← find body (codes "columns")
  checked ← require_columns (elements_of columns) required_columns
  plan_fields (elements_of columns)

-- `http_get` is `HttpGetSync`, whose answer is a status and a body; `parse` is the JSON library's.
unfoldable pub fetch_schema_plan :
    (Text → Option (ℕ × Text)) → (Text → Option Json) → Option (List FieldSpec)
unfolding plan_of_body
fetch_schema_plan http_get parse = do
  (status, text) ← http_get (codes "/schema")
  body ← (if status == 200 then parse text else none)
  plan_of_body body
