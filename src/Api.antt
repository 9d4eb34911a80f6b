-- ===== src/Api.antt =====
-- cpp/src/api.cpp: the life of the server in its process, with the two pointers that the rest of the
-- process reaches it by. The configuration, and whether a call throws, are arguments.
pub mod Calls
pub mod Lifetime
mod Tests
use loglite.Prelude.{
  Bool, List, Option, Text, [], codes, false, if◌then◌else◌, lookup, none, not, some, text_eq, true,
  ℕ, ◌*◌, ◌>>=◌, ◌||◌, ◌∷◌,
}
use loglite.Prelude.Int.{pos_part, to_unsigned}
use loglite.Json.{Json}
use loglite.Config.{Config, HarvesterDef}
use loglite.Metrics.{Registry, configure, fresh_registry}
use loglite.Backlog.{Backlog, add, create}

-- A native harvester: its name and its file.
pub record Native : Type 0 where
  pub name : Text
  pub path : Text

abbrev pub is_file_harvester : Text → Bool
is_file_harvester type =
    text_eq type (codes "loglite.harvesters.FileHarvester") || text_eq type (codes "FileHarvester")

abbrev pub native_of : HarvesterDef → Option Native
native_of def =
    if is_file_harvester def.type
    then (lookup (codes "path") def.config >>= λ path.
        some (record { name = def.name; path = path }))
    else none

unfoldable pub build_native_harvesters : List HarvesterDef → List Native
unfolding lookup
build_native_harvesters [] = []
build_native_harvesters (def ∷ defs) = elim (native_of def) [
  | none ↦ build_native_harvesters defs
  | some h ↦ h ∷ build_native_harvesters defs
]

-- What lives in the process. The pointers `g_backlog` and `g_server` do not own what they point to.
pub record Process (V : Type 0) : Type 0 where
  pub registry : Registry V
  pub writer_is_open : Bool
  pub readers_are_open : Bool
  -- The backlog of `RunServer`, while that call has not been left.
  pub backlog : Option (Backlog Json)
  -- Whether `RunServer` has a server, and whether that was told to stop.
  pub server : Option Bool
  -- The harvesters whose threads may run.
  pub running : List Native
  pub points_to_backlog : Bool
  pub points_to_server : Bool

abbrev pub fresh_process : {V : Type 0} → Process V
fresh_process = record {
  registry = fresh_registry;
  writer_is_open = false;
  readers_are_open = false;
  backlog = none;
  server = none;
  running = [];
  points_to_backlog = false;
  points_to_server = false;
}

-- What reaches the process from outside while the server runs, each at a time of the clock.
pub data Call : Type 0 where
  push_entry : ℕ → Json → Call
  stop_call : Call

-- What `RunServer` meets. What throws is false or `none`.
pub record RunAnswers : Type 0 where
  pub config : Option Config
  pub now : ℕ
  -- `WriterDatabase::Open` and `Initialize`, the pool of the readers, and `GetMaxLogId`.
  pub opens : Bool
  pub initializes : Bool
  pub opens_readers : Bool
  pub has_max_log_id : Bool
  -- What is called while the harvesters start and the server is made, and whether neither throws.
  pub early_calls : List Call
  pub starts : Bool
  -- What is called while `Server::Run` runs, and whether that returns.
  pub calls : List Call
  pub returns : Bool

module _ {V : Type 0} (zero_value : V) where
  -- `PushToBacklog`. What a pointer points to must be alive: otherwise there is no defined behaviour.
  unfoldable pub push_to_backlog : Process V → ℕ → Json → Option (Process V)
  unfolding add
  push_to_backlog p now entry =
      if not p.points_to_backlog
      then some p
      else (p.backlog >>= λ b. add zero_value now (b, p.registry) entry >>= λ s.
          some (record p { backlog = some s.0; registry = s.1 }))

  -- `StopServer`
  unfoldable pub stop_server : Process V → Option (Process V)
  stop_server p =
      if not p.points_to_server
      then some p
      else (p.server >>= λ told. some (record p { server = some true }))

  unfoldable pub run_call : Process V → Call → Option (Process V)
  unfolding push_to_backlog stop_server
  run_call p (push_entry now entry) = push_to_backlog p now entry
  run_call p stop_call = stop_server p

  unfoldable pub run_calls : Process V → List Call → Option (Process V)
  unfolding run_call
  run_calls p [] = some p
  run_calls p (c ∷ cs) = run_call p c >>= λ q. run_calls q cs

  -- The destructors of what `RunServer` has made: the threads of the harvesters are stopped and joined.
  unfoldable pub leave : Process V → Process V
  leave p = record p {
    writer_is_open = false;
    readers_are_open = false;
    backlog = none;
    server = none;
    running = [];
  }

  -- Behind `Server::Run`.
  unfoldable pub tear_down : Process V → Process V
  unfolding leave
  tear_down p = leave (record p { points_to_backlog = false; points_to_server = false })

  -- From the backlog on: the process in which the harvesters start and the server is made.
  unfoldable pub starting_process : Config → Process V → Process V
  unfolding create build_native_harvesters
  starting_process cfg p = record p {
    backlog = some (create (to_unsigned 64 cfg.task_backlog_max_size));
    running = build_native_harvesters cfg.harvesters;
    points_to_backlog = true;
  }

  -- The process in which `Server::Run` is called.
  unfoldable pub started_process : Process V → Process V
  started_process p = record p { server = some false; points_to_server = true }

  -- The flag tells whether `RunServer` returns; otherwise it throws.
  unfoldable pub serve_process : RunAnswers → Config → Process V → Option (Process V × Bool)
  unfolding run_calls starting_process started_process tear_down leave
  serve_process f cfg p = run_calls (starting_process cfg p) f.early_calls >>= λ q.
      (if not f.starts
        then some (leave q, false)
        else (run_calls (started_process q) f.calls >>= λ r.
            some (if f.returns then (tear_down r, true) else (leave r, false))))

  unfoldable pub run_configured : RunAnswers → Config → Process V → Option (Process V × Bool)
  unfolding serve_process leave
  run_configured f cfg p =
      if not f.opens
      then some (p, false)
      else if not f.initializes
      then some (leave (record p { writer_is_open = true }), false)
      else if not f.opens_readers
      then some (leave (record p { writer_is_open = true }), false)
      else if not f.has_max_log_id
      then some (leave (record p { writer_is_open = true; readers_are_open = true }), false)
      else serve_process f cfg (record p { writer_is_open = true; readers_are_open = true })

  -- The window of the metrics is in milliseconds; the configuration's check makes it positive.
  abbrev pub with_window : ℕ → Config → Process V → Process V
  with_window now cfg p = record p {
    registry = configure p.registry (1000 * pos_part cfg.task_diagnostics_interval) now;
  }

  unfoldable pub run_server : RunAnswers → Process V → Option (Process V × Bool)
  unfolding run_configured
  run_server f p = elim f.config [
    | none ↦ some (p, false)
    | some cfg ↦ run_configured f cfg (with_window f.now cfg p)
  ]
