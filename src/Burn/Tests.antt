-- ===== src/Burn/Tests.antt =====
-- The load generator at concrete inputs.
use loglite.Prelude.{
  All, List, Option, Text, [], arith, codes, false, inl, inr, is_empty, keep, length, map, refl,
  some, suc, true, ℕ, ◌++◌, ◌∷◌, ◌≡◌,
}
use loglite.Prelude.Int.{pos}
use loglite.Json.{ColumnInfo, Fields, Json, end, field, integer, object, set_field, string}
use loglite.Config.{default_config}
use loglite.Http.{Request, get}
use loglite.Handlers.Info.{build_schema_payload, normalize_column_kind}
use loglite.Burn.Printed.{IsHost, parse_endpoint-print}
use loglite.Burn.Endpoint.{bad_host_port, http_prefix, parse_endpoint}
use loglite.Burn.Printed.{IsHost, parse_endpoint-print}
use loglite.Burn.Schema.{
  FieldSpec, fetch_schema_plan, kind_from_schema, level_kind, message_kind, number_kind,
  utc_now_kind,
}
use loglite.Burn.Agreed.{fetch_schema_plan-handle_schema, is_planned, schema_answer, spec_of}
use loglite.Burn.Record.{Random, build_log_record}
use loglite.Burn.Typed.{Holds, build_log_record-HasKind}
use loglite.Burn.Sender.{
  SenderEvent, answered, begin_post, burn_events, burn_step, end_post, not_read, paced, posted,
  start_run, thrown, time_up,
}
use loglite.Burn.Main.{burn_main}
use loglite.Burn.Stopping.{burn_events-stopped}

local_endpoint :
    parse_endpoint (codes "http://localhost:7788/logs")
    ≡ inr (record { host = codes "localhost"; port = codes "7788" })
unfolding parse_endpoint
local_endpoint = refl

-- Without a port the two kinds of hosts differ, and an empty port is refused after one of them only.
no_ports :
    (parse_endpoint (codes "http://localhost")
      ≡ inr (record { host = codes "localhost"; port = codes "80" }))
    × (parse_endpoint (codes "http://[::1]")
        ≡ inr (record { host = codes "[::1]"; port = codes "7788" }))
    × (parse_endpoint (codes "http://localhost:") ≡ inl bad_host_port)
    × (parse_endpoint (codes "http://[::1]:") ≡ inr (record { host = codes "[::1]"; port = [] }))
unfolding parse_endpoint
no_ports = (refl, refl, refl, refl)

abbrev column : Text → Text → ColumnInfo
column name type = record { name = name; type = type; not_null = true; is_pk = false }

abbrev log_columns : List ColumnInfo
log_columns =
    record { name = codes "id"; type = codes "INTEGER"; not_null = true; is_pk = true }
    ∷ column (codes "timestamp") (codes "DATETIME")
    ∷ column (codes "message") (codes "TEXT")
    ∷ column (codes "level") (codes "TEXT")
    ∷ column (codes "size") (codes "INTEGER")
    ∷ []

abbrev log_schema : Json
log_schema = build_schema_payload default_config [] log_columns

abbrev get_schema : Request
get_schema = record { verb = get; target = codes "/schema"; keeps_alive = false; body = [] }

abbrev printed_schema : Json → Option Text
printed_schema v = some (codes "schema")

abbrev log_plan : List FieldSpec
log_plan =
    record { name = codes "timestamp"; kind = utc_now_kind }
    ∷ record { name = codes "message"; kind = message_kind }
    ∷ record { name = codes "level"; kind = level_kind }
    ∷ record { name = codes "size"; kind = number_kind }
    ∷ []

fetch_schema_plan-handle_schema_example :
    fetch_schema_plan
      (λ target. schema_answer default_config [] printed_schema (codes "*") log_columns get_schema)
      (λ text. some log_schema)
    ≡ some (map (spec_of default_config []) (keep (is_planned default_config []) log_columns))
fetch_schema_plan-handle_schema_example =
    fetch_schema_plan-handle_schema default_config []
      (λ target. schema_answer default_config [] printed_schema (codes "*") log_columns get_schema)
      (λ text. some log_schema) printed_schema (codes "*") log_columns get_schema (codes "schema")
      refl refl refl

planned :
    map (spec_of default_config []) (keep (is_planned default_config []) log_columns) ≡ log_plan
unfolding kind_from_schema normalize_column_kind
planned = refl

-- A generator that always draws the least number.
abbrev least : Random ℕ ℕ
least = record {
  index = λ last r. (0, suc r);
  between = λ low high r. (low, suc r);
  rounded_normal = λ mean r. (pos 3, suc r);
  below = λ ratio r. (true, suc r);
  half = 0;
  utc_now =
      λ r. (record { year = 2024; month = 5; day = 6; hour = 7; minute = 8; second = 9 }, suc r);
}

first_log :
    build_log_record least log_plan 128 0 0
    ≡ some (
      object (
          field (codes "level") (string (codes "INFO")) (
            field (codes "message") (string (codes "aaa")) (
              field
                (codes "size")
                (integer (pos 10))
                (field (codes "timestamp") (string (codes "2024-05-06T07:08:09Z")) end)))),
      7,
    )
unfolding build_log_record set_field
first_log = refl

build_log_record-HasKind_example :
    (row : Fields) × (r' : ℕ) × (build_log_record least log_plan 128 0 0 ≡ some (object row, r'))
    × All (Holds row) log_plan
build_log_record-HasKind_example =
    build_log_record-HasKind least (λ last r. omega arith) log_plan 128 0 0
      ((refl, (refl, (refl, tt))), ((refl, (refl, tt)), ((refl, tt), (tt, tt))))

-- A parser for which every body is an acceptance.
abbrev accepting : Text → Option Json
accepting text = some (object (field (codes "status") (string (codes "accepted")) end))

-- The first sender has posted a log, and the second waits for an answer.
abbrev one_post : List SenderEvent
one_post = paced 0 true ∷ posted 0 not_read true (answered 200 []) ∷ paced 1 true ∷ []

burn_events-stopped_example :
    let before = burn_events accepting (start_run 2) one_post in
    let after =
      burn_events accepting
        (start_run 2)
        (one_post ++ time_up ∷ posted 1 not_read false not_read ∷ paced 0 false ∷ []) in
    (before.senders_left ≡ length before.running)
    × (before.is_stopped ≡ is_empty before.running)
    × (after.senders_left ≡ 0)
    × (after.is_stopped ≡ true)
unfolding burn_events burn_step begin_post end_post start_run
burn_events-stopped_example =
    burn_events-stopped accepting 2 one_post (posted 1 not_read false not_read ∷ paced 0 false ∷ [])
      (omega arith) (omega arith) (inl (refl, refl), (inr (inl (refl, refl)), tt))

one_counted : (burn_events accepting (start_run 2) one_post).stats ≡ record { ok = 1; fail = 0 }
unfolding burn_events start_run
one_counted = refl

-- A run in which no sender could connect is no failure.
none_connected :
    burn_main
      (λ text. some log_schema)
      (λ ep target. some (200, codes "schema"))
      1
      true
      true
      (codes "http://localhost:7788")
      (thrown 0 ∷ [])
    ≡ 0
unfolding burn_main build_schema_payload
none_connected = refl

localhost-IsHost : IsHost (codes "localhost")
localhost-IsHost =
    ((refl, (refl, (refl, (refl, (refl, (refl, (refl, (refl, (refl, tt))))))))), inl (refl, refl))

parse_endpoint-print_example :
    parse_endpoint (http_prefix ++ (codes "localhost" ++ b':' ∷ codes "80") ++ codes "/x")
    ≡ inr (record { host = codes "localhost"; port = codes "80" })
parse_endpoint-print_example =
    parse_endpoint-print (codes "localhost") (codes "80") (codes "/x") localhost-IsHost
      ((refl, (refl, tt)), (refl, (refl, tt)), refl) refl
