-- ===== src/Config/Load.antt =====
-- config.cpp, load_root_config: every member from the environment or from the document.
use loglite.Prelude.{
  Assoc, Bool, List, Option, String, Text, [], codes, if◌then◌else◌, lookup, none, not, some, ℕ,
  ◌>>=◌,
}
use loglite.Prelude.Int.{to_signed, to_unsigned, ℤ}
use loglite.Json.{}
use loglite.Yaml.{
  Yaml, bool_from_string, bool_from_yaml, compression_from_yaml, int_from_string, int_from_yaml,
  list_from_yaml, map_from_yaml, member, migration_from_yaml, path_from_yaml, text_from_string,
  text_from_yaml,
}
use loglite.Config.Types.{CompressionConfig, Config, HarvesterDef}

module _ {N : Type 0} (yaml : Yaml N) where
  abbrev pub harvester_from_yaml : N → Option HarvesterDef
  harvester_from_yaml node =
      if not (yaml.is_map node) then some (record { type = []; name = []; config = [] }) else do
        type ← member yaml (text_from_yaml yaml) node (codes "type") []
        name ← member yaml (text_from_yaml yaml) node (codes "name") []
        config ← member yaml (map_from_yaml yaml) node (codes "config") []
        some (record { type = type; name = name; config = config })

  abbrev pub as_compression : Bool × List Text → CompressionConfig
  as_compression c = record { enabled = c.0; columns = c.1 }

  abbrev pub compression_member : N → Option CompressionConfig
  compression_member node = do c ← compression_from_yaml yaml node; some (as_compression c)

  module _ (env : Assoc Text) (doc : N) where
    -- A scalar member: the environment wins, else the document, else what it was.
    unfoldable pub load_scalar :
        {T : Type 0} → (Text → Option T) → (N → Option T) → Text → T → Option T
    unfolding member
    load_scalar from_string from_yaml key current = elim (lookup key env) [
      | some s ↦ from_string s
      | none ↦ member yaml from_yaml doc key current
    ]

    abbrev pub load_text : String → Text → Option Text
    load_text key = load_scalar text_from_string (text_from_yaml yaml) (codes key)

    abbrev pub load_path : String → Text → Option Text
    load_path key = load_scalar text_from_string (path_from_yaml yaml) (codes key)

    abbrev pub load_bool : String → Bool → Option Bool
    load_bool key = load_scalar bool_from_string (bool_from_yaml yaml) (codes key)

    abbrev pub load_int : String → ℤ → Option ℤ
    load_int key =
        load_scalar (int_from_string (to_signed 32)) (int_from_yaml yaml (to_signed 32)) (codes key)

    abbrev pub load_int64 : String → ℤ → Option ℤ
    load_int64 key =
        load_scalar (int_from_string (to_signed 64)) (int_from_yaml yaml (to_signed 64)) (codes key)

    abbrev pub load_uint16 : String → ℕ → Option ℕ
    load_uint16 key =
        load_scalar (int_from_string (to_unsigned 16)) (int_from_yaml yaml (to_unsigned 16))
          (codes key)

    -- The members in the order of their description.
    unfoldable pub load_root_config : Config → Option Config
    unfolding load_scalar member
    load_root_config cfg = do
      host ← load_text "host" cfg.host
      port ← load_uint16 "port" cfg.port
      debug ← load_bool "debug" cfg.debug
      allow_origin ← load_text "allow_origin" cfg.allow_origin
      sqlite_dir ← load_path "sqlite_dir" cfg.sqlite_dir
      db_path ← load_path "db_path" cfg.db_path
      sqlite_params ← member yaml (map_from_yaml yaml) doc (codes "sqlite_params") cfg.sqlite_params
      db_pool_size ← load_text "db_pool_size" cfg.db_pool_size
      auto_rollout ← load_bool "auto_rollout" cfg.auto_rollout
      log_table_name ← load_text "log_table_name" cfg.log_table_name
      log_timestamp_field ← load_text "log_timestamp_field" cfg.log_timestamp_field
      sse_limit ← load_int "sse_limit" cfg.sse_limit
      sse_debounce_ms ← load_int "sse_debounce_ms" cfg.sse_debounce_ms
      vacuum_max_days ← load_int "vacuum_max_days" cfg.vacuum_max_days
      vacuum_max_size ← load_text "vacuum_max_size" cfg.vacuum_max_size
      vacuum_max_size_bytes ← load_int64 "vacuum_max_size_bytes" cfg.vacuum_max_size_bytes
      vacuum_target_size ← load_text "vacuum_target_size" cfg.vacuum_target_size
      vacuum_target_size_bytes ← load_int64 "vacuum_target_size_bytes" cfg.vacuum_target_size_bytes
      task_diagnostics_interval ← load_int "task_diagnostics_interval" cfg.task_diagnostics_interval
      task_backlog_flush_interval ←
          load_int "task_backlog_flush_interval" cfg.task_backlog_flush_interval
      task_backlog_max_size ← load_int "task_backlog_max_size" cfg.task_backlog_max_size
      task_vacuum_interval ← load_int "task_vacuum_interval" cfg.task_vacuum_interval
      task_vacuum_max_size ← load_int "task_vacuum_max_size" cfg.task_vacuum_max_size
      stats_retention_hours ← load_int "stats_retention_hours" cfg.stats_retention_hours
      compression ← member yaml compression_member doc (codes "compression") cfg.compression
      harvesters ←
          member yaml (list_from_yaml yaml harvester_from_yaml) doc (codes "harvesters")
            cfg.harvesters
      migrations ←
          member yaml (list_from_yaml yaml (migration_from_yaml yaml)) doc (codes "migrations")
            cfg.migrations
      some (record {
        host = host;
        port = port;
        debug = debug;
        allow_origin = allow_origin;
        sqlite_dir = sqlite_dir;
        db_path = db_path;
        sqlite_params = sqlite_params;
        db_pool_size = db_pool_size;
        auto_rollout = auto_rollout;
        log_table_name = log_table_name;
        log_timestamp_field = log_timestamp_field;
        sse_limit = sse_limit;
        sse_debounce_ms = sse_debounce_ms;
        vacuum_max_days = vacuum_max_days;
        vacuum_max_size = vacuum_max_size;
        vacuum_max_size_bytes = vacuum_max_size_bytes;
        vacuum_target_size = vacuum_target_size;
        vacuum_target_size_bytes = vacuum_target_size_bytes;
        task_diagnostics_interval = task_diagnostics_interval;
        task_backlog_flush_interval = task_backlog_flush_interval;
        task_backlog_max_size = task_backlog_max_size;
        task_vacuum_interval = task_vacuum_interval;
        task_vacuum_max_size = task_vacuum_max_size;
        stats_retention_hours = stats_retention_hours;
        compression = compression;
        harvesters = harvesters;
        migrations = migrations;
      })
