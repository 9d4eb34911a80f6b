-- ===== src/Burn/Main.antt =====
-- burn/src/main.cpp: the program, behind the parsing of its command line.
use loglite.Prelude.{
  Bool, List, Option, Text, false, if◌then◌else◌, inl, inr, ltb, none, not, some, ℕ, ◌==◌,
}
use loglite.Json.{Json}
use loglite.Burn.Endpoint.{Endpoint, parse_endpoint}
use loglite.Burn.Schema.{fetch_schema_plan}
use loglite.Burn.Sender.{SenderEvent, Stats, burn_events, start_run}

-- `ValidateConfig`; the tests on double are arguments.
unfoldable pub validate_config : ℕ → Bool → Bool → Bool
validate_config concurrency is_qps_positive is_ratio_in_range =
    if concurrency == 0 then false else if not is_qps_positive then false else is_ratio_in_range

unfoldable pub exit_code : Stats → ℕ
exit_code s = if ltb 0 s.fail then 1 else 0

-- The answer to GET of an endpoint, and what happens to the senders, are arguments; the exit code is
-- the result.
unfoldable pub burn_main :
    (Text → Option Json)
    → (Endpoint → Text → Option (ℕ × Text))
    → ℕ
    → Bool
    → Bool
    → Text
    → List SenderEvent
    → ℕ
unfolding validate_config parse_endpoint fetch_schema_plan burn_events start_run exit_code
burn_main parse http_get concurrency is_qps_positive is_ratio_in_range url es =
    if not (validate_config concurrency is_qps_positive is_ratio_in_range)
    then 1
    else elim (parse_endpoint url) [
      | inl message ↦ 1
      | inr ep ↦ elim (fetch_schema_plan (http_get ep) parse) [
        | none ↦ 1
        | some plan ↦ exit_code (burn_events parse (start_run concurrency) es).stats
      ]
    ]
