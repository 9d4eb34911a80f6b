-- ===== src/Burn/Agreed.antt =====
-- burn/src/schema.hpp against cpp/src/handlers/schema.hpp: the plan that a load generator makes of the
-- schema that a server answers.
use loglite.Prelude.{
  Bool, Bool-cases, List, Option, Text, [], any, arith, codes, false, if◌then◌else◌, inl, inr, keep,
  map, none, refl, some, text_eq, true, ℕ, ◌&&◌, ◌>>=◌, ◌∷◌, ◌≡◌,
}
use loglite.Json.{ColumnInfo, Json, array, find}
use loglite.Utils.{range_contains}
use loglite.Config.{Config}
use loglite.Http.{Request, make_ok_resp}
use loglite.Handlers.Info.{
  build_schema_payload, column_payload, column_payloads, handle_schema, normalize_column_kind,
}
use loglite.Burn.Schema.{
  FieldSpec, boolean_value, described_field, fetch_schema_plan, field_from_schema_column,
  has_column, kind_from_schema, level_kind, message_kind, plan_fields, plan_of_body, planned_field,
  require_columns, required_columns, string_at, text8_kind, utc_now_kind,
}

module _ (cfg : Config) (compressed : List Text) where
  abbrev pub is_stored_by_id : ColumnInfo → Bool
  is_stored_by_id ci = cfg.compression.enabled && range_contains compressed ci.name

  abbrev pub is_special : ColumnInfo → Bool
  is_special ci = any (text_eq ci.name) (codes "message" ∷ codes "level" ∷ codes "timestamp" ∷ [])

  -- No primary key, and no column stored by id that may be null, save the three that every log has.
  abbrev pub is_planned : ColumnInfo → Bool
  is_planned ci =
      if ci.is_pk
      then false
      else if is_special ci
      then true
      else if is_stored_by_id ci
      then ci.not_null
      else true

  abbrev pub spec_of : ColumnInfo → FieldSpec
  spec_of ci = record {
    name = ci.name;
    kind =
        if text_eq ci.name (codes "message")
        then message_kind
        else if text_eq ci.name (codes "level")
        then level_kind
        else if text_eq ci.name (codes "timestamp")
        then utc_now_kind
        else if is_stored_by_id ci
        then text8_kind
        else kind_from_schema (normalize_column_kind ci.type false);
  }

  abbrev pub has_all : List ColumnInfo → List Text → Bool
  has_all columns [] = true
  has_all columns (name ∷ names) =
      if any (λ ci. text_eq ci.name name) columns then has_all columns names else false

  payload_name :
      (ci : ColumnInfo) → string_at (column_payload cfg compressed ci) (codes "name") ≡ some ci.name
  unfolding string_at column_payload
  payload_name ci = refl

  payload_primary_key :
      (ci : ColumnInfo)
      → boolean_value (column_payload cfg compressed ci) (codes "primary_key") false ≡ some ci.is_pk
  unfolding boolean_value column_payload
  payload_primary_key ci = refl

  payload_compressed :
      (ci : ColumnInfo)
      → boolean_value (column_payload cfg compressed ci) (codes "compressed") false
        ≡ some (is_stored_by_id ci)
  unfolding boolean_value column_payload
  payload_compressed ci = refl

  payload_not_null :
      (ci : ColumnInfo)
      → boolean_value (column_payload cfg compressed ci) (codes "not_null") false ≡ some ci.not_null
  unfolding boolean_value column_payload
  payload_not_null ci = refl

  payload_kind :
      (ci : ColumnInfo)
      → string_at (column_payload cfg compressed ci) (codes "kind")
        ≡ some (normalize_column_kind ci.type (is_stored_by_id ci))
  unfolding string_at column_payload
  payload_kind ci = refl

  has_column-payloads :
      (columns : List ColumnInfo) (name : Text)
      → has_column (column_payloads cfg compressed columns) name
        ≡ some (any (λ ci. text_eq ci.name name) columns)
  unfolding has_column
  has_column-payloads [] name = refl
  has_column-payloads (ci ∷ columns) name =
      rw (has_column, payload_name ci, has_column-payloads columns name) (ground arith)

  require_columns-payloads :
      (columns : List ColumnInfo) (names : List Text)
      → require_columns (column_payloads cfg compressed columns) names
        ≡ (if has_all columns names then some tt else none)
  unfolding require_columns
  require_columns-payloads columns [] = refl
  require_columns-payloads columns (name ∷ names) =
      rw (require_columns, has_column-payloads columns name, require_columns-payloads columns names)
        (ground arith)

  described-payload :
      (ci : ColumnInfo)
      → described_field (column_payload cfg compressed ci)
        ≡ some (
            planned_field ci.name
              (is_stored_by_id ci)
              ci.not_null
              (normalize_column_kind ci.type (is_stored_by_id ci)))
  unfolding described_field
  described-payload ci =
      rw
        (
          described_field,
          payload_name ci,
          payload_compressed ci,
          payload_not_null ci,
          payload_kind ci,
        )
        refl

  planned-payload :
      (ci : ColumnInfo)
      → ci.is_pk ≡ false
      → planned_field ci.name
          (is_stored_by_id ci)
          ci.not_null
          (normalize_column_kind ci.type (is_stored_by_id ci))
        ≡ (if is_planned ci then some (spec_of ci) else none)
  unfolding planned_field
  planned-payload ci h = elim (Bool-cases (text_eq ci.name (codes "message"))) [
    | inl m ↦ rw (planned_field, h, m) refl
    | inr m ↦ elim (Bool-cases (text_eq ci.name (codes "level"))) [
      | inl l ↦ rw (planned_field, h, m, l) refl
      | inr l ↦ elim (Bool-cases (text_eq ci.name (codes "timestamp"))) [
        | inl t ↦ rw (planned_field, h, m, l, t) refl
        | inr t ↦ elim (Bool-cases (is_stored_by_id ci)) [
          | inl c ↦ rw (planned_field, h, m, l, t, c) (ground arith)
          | inr c ↦ rw (planned_field, h, m, l, t, c) refl
        ]
      ]
    ]
  ]

  field_from-payload :
      (ci : ColumnInfo)
      → field_from_schema_column (column_payload cfg compressed ci)
        ≡ some (if is_planned ci then some (spec_of ci) else none)
  unfolding field_from_schema_column
  field_from-payload ci = elim (Bool-cases ci.is_pk) [
    | inl e ↦ rw (field_from_schema_column, payload_primary_key ci, e) refl
    | inr e ↦
        rw
          (
            field_from_schema_column,
            payload_primary_key ci,
            described-payload ci,
            planned-payload ci e,
            e,
          )
          refl
  ]

  plan_fields-payloads :
      (columns : List ColumnInfo)
      → plan_fields (column_payloads cfg compressed columns)
        ≡ some (map spec_of (keep is_planned columns))
  unfolding plan_fields
  plan_fields-payloads [] = refl
  plan_fields-payloads (ci ∷ columns) =
      rw (plan_fields, field_from-payload ci, plan_fields-payloads columns) (ground arith)

  payload_columns :
      (columns : List ColumnInfo)
      → find (build_schema_payload cfg compressed columns) (codes "columns")
        ≡ some (array (column_payloads cfg compressed columns))
  unfolding find build_schema_payload
  payload_columns columns = refl

  plan_of-payload :
      (columns : List ColumnInfo)
      → plan_of_body (build_schema_payload cfg compressed columns) ≡ (
          if has_all columns required_columns
          then some (map spec_of (keep is_planned columns))
          else none)
  unfolding plan_of_body
  plan_of-payload columns =
      rw
        (
          plan_of_body,
          payload_columns columns,
          require_columns-payloads columns required_columns,
          plan_fields-payloads columns,
        )
        (ground arith)

  -- The body of the server's answer to GET /schema.
  abbrev pub schema_answer :
      (Json → Option Text) → Text → List ColumnInfo → Request → Option (ℕ × Text)
  schema_answer dump origin columns req =
      handle_schema dump origin cfg compressed columns req >>= λ res. some (res.status, res.body)

  -- A load generator whose GET /schema is answered by the server's handler, and whose parser reads
  -- what the server printed, plans exactly the columns that are no primary key, and are not stored by
  -- id while they may be null, save `message`, `level` and `timestamp`, in order and each with the kind
  -- of its type; if one of these three is missing in the schema, it plans nothing and throws.
  pub fetch_schema_plan-handle_schema :
      (http_get : Text → Option (ℕ × Text)) (parse : Text → Option Json) (dump : Json → Option Text)
      (origin : Text) (columns : List ColumnInfo) (req : Request) (text : Text)
      → dump (build_schema_payload cfg compressed columns) ≡ some text
      → parse text ≡ some (build_schema_payload cfg compressed columns)
      → http_get (codes "/schema") ≡ schema_answer dump origin columns req
      → fetch_schema_plan http_get parse ≡ (
          if has_all columns required_columns
          then some (map spec_of (keep is_planned columns))
          else none)
  unfolding fetch_schema_plan handle_schema make_ok_resp
  fetch_schema_plan-handle_schema http_get parse dump origin columns req text printed read
        answered =
      rw (answered, handle_schema, make_ok_resp, printed, read) (plan_of-payload columns)
