-- ===== src/Sse/Tests.antt =====
-- A session at concrete inputs.
use loglite.Prelude.{
  All, Bool, Bool-cases, List, NoDup, Option, [], codes, false, if◌then◌else◌, inl, inr, map, none,
  refl, some, some_eq, subst, true, ℕ, ◌++◌, ◌∷◌, ◌≡◌,
}
use loglite.Prelude.Int.{pos}
use loglite.Metrics.{fresh_registry, gauge, sse_session}
use loglite.Sse.Streams.{
  StreamEvent, chunk_text, connects, disconnects, line_ends, no_streams, notifies, stream_events,
}
use loglite.Sse.Subscribed.{IsSubscribed, stream_events-IsSubscribed}
use loglite.Sse.{
  Round, Session, event, id_filters, idle_round, keep_alive, push_rows, round, run_session,
}
use loglite.Sse.Windows.{admits}
use loglite.Json.{QueryFilter}
use loglite.Prelude.{
  All, Bool, Bool-cases, List, NoDup, Option, [], codes, false, if◌then◌else◌, inl, inr, map, none,
  refl, some, some_eq, subst, true, ℕ, ◌++◌, ◌∷◌, ◌≡◌,
}

abbrev admits_all : List QueryFilter → ℕ → Bool
admits_all [] id = true
admits_all (f ∷ fs) id = if admits f id then admits_all fs id else false

-- A table of one row, with this id.
abbrev only_row : ℕ → List QueryFilter → Option (List ℕ)
only_row id fs = some (if admits_all fs id then id ∷ [] else [])

abbrev found_last : ℕ → ℕ → Round ℕ
found_last id time = record { current_id = id; now = time; answer = only_row id; is_written = true }

abbrev same_id : ℕ → ℕ
same_id id = id

abbrev begun : Session
begun = record { pushed_id = 3; last_push = none; last_write = 0 }

abbrev rounds : List (Round ℕ)
rounds = found_last 3 20000 ∷ found_last 9 20100 ∷ found_last 11 20101 ∷ found_last 12 20200 ∷ []

rounds_pushed : run_session 50 begun rounds ≡ keep_alive ∷ event (9 ∷ []) ∷ event (12 ∷ []) ∷ []
unfolding run_session round idle_round push_rows id_filters
rounds_pushed = refl

-- Two sessions begin, and the first ends.
abbrev stream_run : List StreamEvent
stream_run = connects true ∷ connects false ∷ connects true ∷ notifies (pos 7) ∷ disconnects 0 ∷ []

stream_events-IsSubscribed_example :
    IsSubscribed {V = ℕ}
      (gauge {V = ℕ} fresh_registry sse_session)
      (stream_events (no_streams fresh_registry) stream_run)
stream_events-IsSubscribed_example = stream_events-IsSubscribed fresh_registry stream_run

one_is_left : (stream_events (no_streams (fresh_registry {V = ℕ})) stream_run).open_streams ≡ 1 ∷ []
unfolding stream_events no_streams
one_is_left = refl

two_rows :
    chunk_text {A = ℕ} (λ row. codes "x") (event (1 ∷ 2 ∷ [])) ≡ codes "data: [x,x]" ++ line_ends
unfolding chunk_text
two_rows = refl
