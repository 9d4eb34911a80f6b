-- ===== src/Api/Tests.antt =====
-- The life of the server in concrete processes.
use loglite.Prelude.{Bool, [], arith, codes, false, refl, some, true, ℕ, ◌∷◌, ◌≡◌}
use loglite.Prelude.Int.{}
use loglite.Json.{null}
use loglite.Config.{default_config}
use loglite.Backlog.{}
use loglite.Api.{
  Process, RunAnswers, build_native_harvesters, fresh_process, push_entry, run_server, stop_call,
}
use loglite.Api.Lifetime.{IsLeft, run_server-IsLeft}

-- A log is pushed and the server is told to stop; then `Run` throws.
abbrev failing : RunAnswers
failing = record {
  config = some default_config;
  now = 0;
  opens = true;
  initializes = true;
  opens_readers = true;
  has_max_log_id = true;
  early_calls = push_entry 4 null ∷ [];
  starts = true;
  calls = push_entry 5 null ∷ stop_call ∷ [];
  returns = false;
}

run_server-IsLeft_example :
    (q : Process ℕ) × (ok : Bool) × (run_server 0 failing fresh_process ≡ some (q, ok))
    × IsLeft 0 true true q
run_server-IsLeft_example =
    run_server-IsLeft 0 failing fresh_process (omega arith) (refl, refl, refl, refl, refl)
      (refl, refl)

one_harvester :
    build_native_harvesters (
      record {
        type = codes "FileHarvester";
        name = codes "app";
        config = (codes "path", codes "app.log") ∷ [];
      }
      ∷ record { type = codes "FileHarvester"; name = codes "none"; config = [] }
      ∷ [])
    ≡ record { name = codes "app"; path = codes "app.log" } ∷ []
unfolding build_native_harvesters
one_harvester = refl
