-- ===== src/Metrics/Tests.antt =====
-- The registry at concrete inputs.
use loglite.Prelude.{List, [], ℕ, ◌∷◌}
use loglite.Prelude.Int.{pos}
use loglite.Metrics.{Observation, http_connection, ingest_request, query_request, sse_session}
use loglite.Metrics.Gauges.{GuardEvent, closed, opened}

abbrev early : Observation ℕ
early = record { at = 10; name = query_request; value = 5; item_count = pos 1 }

abbrev late : Observation ℕ
late = record { at = 50000; name = ingest_request; value = 7; item_count = pos 3 }

abbrev sessions : List GuardEvent
sessions = opened sse_session ∷ opened http_connection ∷ closed sse_session ∷ []
