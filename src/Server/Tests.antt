-- ===== src/Server/Tests.antt =====
-- Connections at concrete requests.
use loglite.Prelude.{
  Bool, List, Option, [], arith, codes, drop, false, if◌then◌else◌, none, refl, some, suc, true, ℕ,
  ◌++◌, ◌+◌, ◌-◌, ◌==◌, ◌∷◌, ◌≡◌, ◌≤◌,
}
use loglite.Prelude.Int.{pos, ◌+ℤ◌}
use loglite.Json.{Json, array, cons, end, field, integer, nil, object}
use loglite.Backlog.{Backlog, create, flush}
use loglite.Backlog.Bounds.{IsValid, create-IsValid}
use loglite.Metrics.{Registry, fresh_registry, gauge, http_connection}
use loglite.QueryString.{split_url_target}
use loglite.Config.{default_config}
use loglite.Results.{}
use loglite.Http.{Request, Response, get, post}
use loglite.Handlers.Insert.{parsed}
use loglite.Handlers.Query.{failed}
use loglite.Handlers.Ingest.{}
use loglite.Server.{
  Handler, Next, Turn, closed, dispatch, find_route, handle_connection, is_over, path_of, routed,
  serve, turns,
}
use loglite.Server.App.{Context, Counted, not_found, run_each, serve_request}
use loglite.Server.Routes.{}
use loglite.Server.Connections.{}
use loglite.Prelude.{
  Bool, List, Option, [], arith, codes, drop, false, if◌then◌else◌, none, refl, some, suc, true, ℕ,
  ◌++◌, ◌+◌, ◌-◌, ◌==◌, ◌∷◌, ◌≡◌, ◌≤◌,
}
use loglite.Server.Running.{
  accept_error, accept_step, accepted_one, listening, registers, server_events, server_step, stop,
  stop_called,
}
use loglite.Server.Stopping.{server_events-stopped}
use loglite.Server.Quiet.{handle_connection-run_each}
use loglite.Server.Posting.{serve_request-flush}

no_post_health : dispatch (codes "/health") post ≡ none
unfolding dispatch find_route
no_post_health = refl

abbrev reply : ℕ → Response
reply status = record { status = status; headers = []; keeps_alive = true; body = [] }

-- Handlers that count the requests.
abbrev counting : Handler → Registry ℕ × ℕ → Request → (Registry ℕ × ℕ) × Option Response
counting h (r, n) req = ((r, suc n), some (reply 200))

abbrev always_404 : Request → Option Response
always_404 req = some (reply 404)

abbrev never : Response → Bool
never res = false

abbrev get_health : Request
get_health = record { verb = get; target = codes "/health"; keeps_alive = true; body = [] }

abbrev turn : Turn
turn = record { request = some get_health; is_written = true }

abbrev cut_off : Turn
cut_off = record { request = none; is_written = true }

abbrev after_three : (Registry ℕ × ℕ) × List Response × Next
after_three =
    handle_connection counting always_404 never (codes "*") (fresh_registry, 0)
      (turn ∷ turn ∷ cut_off ∷ [])

two_replies : (after_three.1 ≡ reply 200 ∷ reply 200 ∷ []) × (after_three.2 ≡ closed)
unfolding handle_connection turns serve routed dispatch find_route split_url_target
two_replies = (refl, refl)

abbrev entry : ℕ → Json
entry n = object (field (codes "n") (integer (pos n)) end)

abbrev context : Context ℕ
context = record {
  config = default_config;
  zero_value = 0;
  size_value = λ n. n;
  elapsed = 0;
  clock = λ n. n;
  parse = λ body. parsed (array (cons (entry 1) (cons (entry 2) nil)));
  dump = λ v. some (codes "{}");
  dump_error = λ v. [];
  arrange = λ ps. ps;
  parse_iso8601 = λ s. none;
  day = pos 86400;
  query = λ c. failed (codes "no table");
  query_activity_stats = λ c. failed (codes "no table");
  query_database_stats = λ c. failed (codes "no table");
  ping = true;
  uptime = pos 0;
  version = codes "1";
  compressed_columns = [];
  column_info = [];
}

abbrev post_logs : Request
post_logs = record { verb = post; target = codes "/logs"; keeps_alive = true; body = [] }

abbrev empty_backlog : Backlog Json
empty_backlog = create 1

empty_queue : empty_backlog.queue ≡ []
unfolding create
empty_queue = refl

at_logs : path_of post_logs ≡ codes "/logs"
unfolding split_url_target
at_logs = refl

serve_request-flush_example :
    (b' : Backlog Json) × (r' : Registry ℕ) × ((serve_request context never
        (fresh_registry, some empty_backlog)
        true
        post_logs).0
      ≡ (r', some b'))
    × ((flush b').0 ≡ drop (2 - empty_backlog.max_size) (entry 1 ∷ entry 2 ∷ []))
    × IsValid b'
    × IsValid (flush b').1
serve_request-flush_example =
    serve_request-flush context never empty_backlog fresh_registry post_logs
      (create-IsValid 1 (omega arith)) empty_queue refl at_logs

-- A connection on which the second request is answered in another context than the first.
abbrev contexts : ℕ → Context ℕ
contexts n = record context { ping = n == 0 }

abbrev after_health : Counted ℕ × List Response × Next
after_health =
    handle_connection (run_each contexts) (not_found context) never (codes "*")
      (fresh_registry, (some empty_backlog, 0)) (turn ∷ turn ∷ cut_off ∷ [])

handle_connection-run_each_example : gauge after_health.0.0 http_connection ≡ (
    if is_over after_health.2
    then gauge (fresh_registry {V = ℕ}) http_connection
    else gauge (fresh_registry {V = ℕ}) http_connection +ℤ pos 1)
handle_connection-run_each_example =
    handle_connection-run_each contexts (not_found context) never (codes "*") fresh_registry
      (some empty_backlog) (turn ∷ turn ∷ cut_off ∷ [])

server_events-stopped_example :
    let before = server_events listening (accepted_one ∷ registers 3 ∷ []) in
    let after = server_events listening (
      (accepted_one ∷ registers 3 ∷ [])
      ++ stop_called ∷ ((accepted_one ∷ []) ++ accept_error ∷ [])) in
    (after.is_pool_stopped ≡ true)
    × (after.connections ≤ before.connections + 1)
    × (after.context.stopping ≡ true)
server_events-stopped_example =
    server_events-stopped (accepted_one ∷ registers 3 ∷ []) (accepted_one ∷ []) []
      (unfold server_events server_step accept_step stop in (refl, (refl, tt)))

-- An error of a single accept stops the pool, although nobody asked for a stop.
error_stops :
    let after = server_events listening (accept_error ∷ []) in
    (after.is_pool_stopped ≡ true) × (after.context.stopping ≡ false)
unfolding server_events
error_stops = (refl, refl)
