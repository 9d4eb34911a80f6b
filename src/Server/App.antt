-- ===== src/Server/App.antt =====
-- router.hpp with the handlers in their places: one request to the server, over the registry and the
-- backlog. What the handlers ask of the libraries, the database and the clock is a record.
use loglite.Prelude.{Assoc, Bool, List, Option, Text, codes, none, some, suc, ℕ}
use loglite.Prelude.Int.{ℤ}
use loglite.Json.{ColumnInfo, Json}
use loglite.Backlog.{Backlog}
use loglite.Metrics.{Registry}
use loglite.Config.{Config}
use loglite.Results.{PaginatedQueryResult, StatsQueryResult}
use loglite.Http.{Request, Response, make_fail_resp}
use loglite.Handlers.Insert.{Parsed, handle_insert}
use loglite.Handlers.Query.{Answer, QueryCall, handle_query}
use loglite.Handlers.Stats.{StatsCall, handle_stats}
use loglite.Handlers.Info.{handle_health, handle_schema, handle_settings, handle_version}
use loglite.Server.{
  Handler, Next, health_route, insert_route, query_route, schema_route, serve, settings_route,
  stats_route, version_route,
}

pub record Context (V : Type 0) : Type 0 where
  pub config : Config
  pub zero_value : V
  pub size_value : ℕ → V
  pub elapsed : V
  -- The readings of the clock in the request.
  pub clock : ℕ → ℕ
  pub parse : Text → Parsed
  pub dump : Json → Option Text
  pub dump_error : Json → Text
  pub arrange : Assoc Text → Assoc Text
  pub parse_iso8601 : Text → Option ℤ
  pub day : ℤ
  pub query : QueryCall → Answer PaginatedQueryResult
  pub query_activity_stats : StatsCall → Answer StatsQueryResult
  pub query_database_stats : StatsCall → Answer StatsQueryResult
  pub ping : Bool
  pub uptime : ℤ
  pub version : Text
  pub compressed_columns : List Text
  pub column_info : List ColumnInfo

-- The backlog, unless an undefined operation has been run on it.
abbrev pub State : Type 0 → Type 0
State V = Registry V × Option (Backlog Json)

module _ {V : Type 0} (ctx : Context V) where
  abbrev pub after_insert :
      Registry V
      → Option ((Backlog Json × Registry V) × Option Response)
      → State V × Option Response
  after_insert r none = ((r, none), none)
  after_insert r (some ((b, r'), reply)) = ((r', some b), reply)

  unfoldable pub run_insert : State V → Request → State V × Option Response
  run_insert (r, none) req = ((r, none), none)
  run_insert (r, some b) req = after_insert r (
      handle_insert ctx.zero_value ctx.clock ctx.size_value ctx.parse ctx.dump
        ctx.config.allow_origin (b, r) req)

  unfoldable pub run_query : State V → Request → State V × Option Response
  run_query (r, b) req =
      let (r', reply) =
        handle_query ctx.arrange ctx.dump ctx.dump_error ctx.config.allow_origin ctx.query
          ctx.elapsed (ctx.clock 0) r req in
      ((r', b), reply)

  unfoldable pub run_handler : Handler → State V → Request → State V × Option Response
  run_handler insert_route s req = run_insert s req
  run_handler query_route s req = run_query s req
  run_handler health_route s req = (s, handle_health ctx.dump ctx.config.allow_origin ctx.ping req)
  run_handler version_route s req =
      (s, handle_version ctx.dump ctx.config.allow_origin ctx.version req)
  run_handler stats_route s req = (
    s,
    handle_stats ctx.parse_iso8601 ctx.day ctx.arrange ctx.dump ctx.dump_error
        ctx.config.allow_origin ctx.query_activity_stats ctx.query_database_stats ctx.uptime req,
  )
  run_handler settings_route s req =
      (s, handle_settings ctx.dump ctx.config.allow_origin ctx.config req)
  run_handler schema_route s req = (
    s,
    handle_schema ctx.dump ctx.config.allow_origin ctx.config ctx.compressed_columns ctx.column_info
        req,
  )

  unfoldable pub not_found : Request → Option Response
  not_found req = make_fail_resp ctx.dump ctx.config.allow_origin 404 (codes "not found") req

  -- One request of a connection.
  unfoldable pub serve_request :
      (Response → Bool) → State V → Bool → Request → State V × List Response × Next
  unfolding run_handler not_found serve
  serve_request need_eof = serve run_handler not_found need_eof ctx.config.allow_origin

-- The requests of a connection, each with what the handlers are answered then: the n-th has the n-th
-- context.
abbrev pub Counted : Type 0 → Type 0
Counted V = Registry V × (Option (Backlog Json) × ℕ)

unfoldable pub run_each :
    {V : Type 0} → (ℕ → Context V) → Handler → Counted V → Request → Counted V × Option Response
unfolding run_handler
run_each contexts h (r, (b, n)) req =
    let ((r', b'), reply) = run_handler (contexts n) h (r, b) req in ((r', (b', suc n)), reply)
