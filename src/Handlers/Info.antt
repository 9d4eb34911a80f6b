-- ===== src/Handlers/Info.antt =====
-- cpp/src/handlers/health.hpp, version_route.hpp, schema.hpp and settings.hpp: what the server says
-- of itself. Whether the ping of a connection succeeds is an argument.
use loglite.Prelude.{
  Assoc, Bool, List, Option, String, Text, [], codes, find_char, if◌then◌else◌, leb, map, none,
  some, starts_with, take, text_eq, ℕ, ◌&&◌, ◌-◌, ◌∷◌,
}
use loglite.Prelude.Int.{}
use loglite.Json.{
  ColumnInfo, Fields, Items, Json, array, boolean, cons, end, integer, members, nil, object,
  set_field, string,
}
use loglite.Utils.{range_contains}
use loglite.Config.{Config, HarvesterDef}
use loglite.Http.{Request, Response, make_not_available_resp, make_ok_resp, one_field}

abbrev pub to_upper : ℕ → ℕ
to_upper c = if leb b'a' c && leb c b'z' then c - 32 else c

abbrev pub before_paren : Text → Text
before_paren s = elim (find_char b'(' s) [ none ↦ s | some k ↦ take k s ]

abbrev pub number_types : List Text
number_types =
    codes "REAL" ∷ codes "FLOAT" ∷ codes "DOUBLE" ∷ codes "NUMERIC" ∷ codes "DECIMAL" ∷ []

abbrev pub text_types : List Text
text_types = codes "TEXT" ∷ codes "CHAR" ∷ codes "CLOB" ∷ codes "VARCHAR" ∷ []

abbrev pub time_types : List Text
time_types = codes "DATETIME" ∷ codes "DATE" ∷ codes "TIME" ∷ []

abbrev pub kind_of_token : Text → Text
kind_of_token token =
    if starts_with (codes "INT") token
    then codes "integer"
    else if range_contains number_types token
    then codes "number"
    else if range_contains text_types token
    then codes "text"
    else if range_contains time_types token
    then codes "datetime"
    else if text_eq token (codes "JSON")
    then codes "json"
    else if text_eq token (codes "BLOB")
    then codes "blob"
    else if text_eq token (codes "BOOLEAN")
    then codes "boolean"
    else codes "text"

unfoldable pub normalize_column_kind : Text → Bool → Text
normalize_column_kind sqlite_type compressed =
    if compressed then codes "text" else kind_of_token (map to_upper (before_paren sqlite_type))

unfoldable pub column_payload : Config → List Text → ColumnInfo → Json
unfolding members normalize_column_kind
column_payload cfg compressed ci =
    let is_compressed = cfg.compression.enabled && range_contains compressed ci.name in
    object (
      members (
        (codes "name", string ci.name)
        ∷ (codes "kind", string (normalize_column_kind ci.type is_compressed))
        ∷ (codes "sqlite_type", string ci.type)
        ∷ (codes "compressed", boolean is_compressed)
        ∷ (codes "not_null", boolean ci.not_null)
        ∷ (codes "primary_key", boolean ci.is_pk)
        ∷ []))

abbrev pub column_payloads : Config → List Text → List ColumnInfo → Items
column_payloads cfg compressed [] = nil
column_payloads cfg compressed (ci ∷ columns) =
    cons (column_payload cfg compressed ci) (column_payloads cfg compressed columns)

unfoldable pub build_schema_payload : Config → List Text → List ColumnInfo → Json
unfolding column_payload members
build_schema_payload cfg compressed columns = object (
    members (
      (codes "table", string cfg.log_table_name)
      ∷ (codes "columns", array (column_payloads cfg compressed columns))
      ∷ []))

-- `AppendSetting`: the settings in order, each an object of its key, value and description.
abbrev pub Setting : Type 0
Setting = Text × Json × Text

abbrev setting : String → Json → String → Setting
setting key value description = (codes key, value, codes description)

unfoldable pub append_settings : List Setting → Items
unfolding members
append_settings [] = nil
append_settings ((key, value, description) ∷ settings) =
    cons
      (object (
        members (
          (codes "key", string key)
          ∷ (codes "value", value)
          ∷ (codes "description", string description)
          ∷ [])))
      (append_settings settings)

abbrev pub params_object : Assoc Text → Fields
params_object [] = end
params_object ((k, v) ∷ ps) = set_field (params_object ps) k (string v)

abbrev pub harvester_types : List HarvesterDef → Items
harvester_types [] = nil
harvester_types (h ∷ hs) = cons (string h.type) (harvester_types hs)

abbrev pub settings_of : Config → List Setting
settings_of cfg =
    setting "log_table_name" (string cfg.log_table_name)
      "SQLite table name used to store log records."
    ∷ setting "log_timestamp_field" (string cfg.log_timestamp_field)
        "Column used for time-based retention and vacuum (ISO-8601 timestamps)."
    ∷ setting "sqlite_params" (object (params_object cfg.sqlite_params))
        "SQLite PRAGMA key/value pairs applied when opening the database."
    ∷ setting "db_pool_size" (string cfg.db_pool_size) "Reader connection pool size"
    ∷ setting "auto_rollout" (boolean cfg.auto_rollout)
        "Whether pending migrations are applied automatically on server startup."
    ∷ setting "task_diagnostics_interval" (integer cfg.task_diagnostics_interval)
        "Seconds between activity and database stats collection passes."
    ∷ setting "task_vacuum_interval" (integer cfg.task_vacuum_interval)
        "Seconds between incremental SQLite vacuum passes."
    ∷ setting "task_backlog_flush_interval" (integer cfg.task_backlog_flush_interval)
        "Seconds between backlog flush passes to SQLite."
    ∷ setting "task_backlog_max_size" (integer cfg.task_backlog_max_size)
        "Maximum backlog entries before a forced flush to the database."
    ∷ setting "task_vacuum_max_size" (integer cfg.task_vacuum_max_size)
        "Megabyte budget per incremental vacuum pass."
    ∷ setting "vacuum_max_days" (integer cfg.vacuum_max_days)
        "Drop log rows older than this many days during vacuum."
    ∷ setting "vacuum_max_size" (string cfg.vacuum_max_size)
        "Trigger vacuum when the database file exceeds this size."
    ∷ setting "vacuum_target_size" (string cfg.vacuum_target_size)
        "After vacuum, trim oldest rows until the database is under this size."
    ∷ setting "stats_retention_hours" (integer cfg.stats_retention_hours)
        "Hours to retain collected stats rows before pruning."
    ∷ setting "compression_enabled" (boolean cfg.compression.enabled)
        "Whether dictionary compression is enabled for configured log columns."
    ∷ setting "harvester_types" (array (harvester_types cfg.harvesters))
        "Harvester implementation types configured for this instance."
    ∷ []

unfoldable pub build_settings_payload : Config → Json
unfolding append_settings
build_settings_payload cfg = one_field "settings" (array (append_settings (settings_of cfg)))

module _ (dump : Json → Option Text) (origin : Text) where
  unfoldable pub handle_health : Bool → Request → Option Response
  handle_health ok_flag req =
      if ok_flag
      then make_ok_resp dump origin (one_field "status" (string (codes "ok"))) req
      else make_not_available_resp dump origin (one_field "status" (string (codes "error"))) req

  unfoldable pub handle_version : Text → Request → Option Response
  handle_version version req = make_ok_resp dump origin (one_field "version" (string version)) req

  unfoldable pub handle_schema : Config → List Text → List ColumnInfo → Request → Option Response
  handle_schema cfg compressed columns req =
      make_ok_resp dump origin (build_schema_payload cfg compressed columns) req

  unfoldable pub handle_settings : Config → Request → Option Response
  handle_settings cfg req = make_ok_resp dump origin (build_settings_payload cfg) req
