-- ===== src/Config/Types.antt =====
-- config.hpp: the members of the configuration, with their defaults.
use loglite.Prelude.{Assoc, Bool, List, Text, [], codes, false, ℕ}
use loglite.Prelude.Int.{pos, ℤ}
use loglite.Json.{Migration}

pub record CompressionConfig : Type 0 where
  pub enabled : Bool
  pub columns : List Text

pub record HarvesterDef : Type 0 where
  pub type : Text
  pub name : Text
  pub config : Assoc Text

pub record Config : Type 0 where
  pub host : Text
  pub port : ℕ
  pub debug : Bool
  pub allow_origin : Text
  pub sqlite_dir : Text
  pub db_path : Text
  pub sqlite_params : Assoc Text
  pub db_pool_size : Text
  pub auto_rollout : Bool
  pub log_table_name : Text
  pub log_timestamp_field : Text
  pub sse_limit : ℤ
  pub sse_debounce_ms : ℤ
  pub vacuum_max_days : ℤ
  pub vacuum_max_size : Text
  pub vacuum_max_size_bytes : ℤ
  pub vacuum_target_size : Text
  pub vacuum_target_size_bytes : ℤ
  pub task_diagnostics_interval : ℤ
  pub task_backlog_flush_interval : ℤ
  pub task_backlog_max_size : ℤ
  pub task_vacuum_interval : ℤ
  pub task_vacuum_max_size : ℤ
  pub stats_retention_hours : ℤ
  pub compression : CompressionConfig
  pub harvesters : List HarvesterDef
  pub migrations : List Migration

abbrev pub default_config : Config
default_config = record {
  host = codes "127.0.0.1";
  port = 7788;
  debug = false;
  allow_origin = codes "*";
  sqlite_dir = codes "./db";
  db_path = [];
  sqlite_params = [];
  db_pool_size = codes "2";
  auto_rollout = false;
  log_table_name = codes "Log";
  log_timestamp_field = codes "timestamp";
  sse_limit = pos 1000;
  sse_debounce_ms = pos 500;
  vacuum_max_days = pos 3650;
  vacuum_max_size = codes "1TB";
  vacuum_max_size_bytes = pos 0;
  vacuum_target_size = codes "800GB";
  vacuum_target_size_bytes = pos 0;
  task_diagnostics_interval = pos 60;
  task_backlog_flush_interval = pos 5;
  task_backlog_max_size = pos 200;
  task_vacuum_interval = pos 120;
  task_vacuum_max_size = pos 5;
  stats_retention_hours = pos 24;
  compression = record { enabled = false; columns = [] };
  harvesters = [];
  migrations = [];
}
