-- ===== src/Sse/Streams.antt =====
-- cpp/src/handlers/sse.hpp around its loop: what a session does to the registry and to the notifier when
-- it begins and when it ends, and what it writes. Sessions begin and end between one another.
use loglite.Prelude.{
  Bool, List, Text, [], any, codes, if◌then◌else◌, keep, none, not, ℕ, ◌++◌, ◌==◌, ◌∷◌,
}
use loglite.Prelude.Int.{pos_part, ℤ}
use loglite.Metrics.{Registry, decrement_gauge, increment_gauge, sse_session}
use loglite.Notifier.{Notifier, fresh_notifier, notify, subscribe, unsubscribe}
use loglite.Sse.{Chunk, Session, event, keep_alive}

-- The header of the response.
abbrev pub stream_headers : Text → List (Text × Text)
stream_headers origin =
    (codes "Content-Type", codes "text/event-stream")
    ∷ (codes "Cache-Control", codes "no-cache")
    ∷ (codes "Connection", codes "keep-alive")
    ∷ (codes "X-Accel-Buffering", codes "no")
    ∷ (codes "Access-Control-Allow-Origin", origin)
    ∷ []

abbrev pub line_ends : Text
line_ends = 13 ∷ 10 ∷ 13 ∷ 10 ∷ []

-- The rows with commas between them, each as the JSON library prints it.
unfoldable pub rows_text : {A : Type 0} → (A → Text) → List A → Text
rows_text print [] = []
rows_text print (row ∷ rows) =
    print row ++ elim rows [ [] ↦ [] | next ∷ more ↦ b',' ∷ rows_text print rows ]

unfoldable pub chunk_text : {A : Type 0} → (A → Text) → Chunk A → Text
unfolding rows_text
chunk_text print keep_alive = b':' ∷ line_ends
chunk_text print (event rows) = codes "data: [" ++ rows_text print rows ++ codes "]" ++ line_ends

-- What all sessions share, with the sessions that are in their loops, by their subscriptions.
pub record Streams (V : Type 0) : Type 0 where
  pub registry : Registry V
  pub notifier : Notifier
  pub open_streams : List ℕ

pub data StreamEvent : Type 0 where
  -- A session begins, whether or not its header can be written.
  connects : Bool → StreamEvent
  -- The loop of a session ends, by a write that fails.
  disconnects : ℕ → StreamEvent
  -- New logs are told.
  notifies : ℤ → StreamEvent

-- The session at the head of its loop. The ids of logs are not negative.
abbrev pub begun_session : Notifier → ℕ → Session
begun_session n now = record { pushed_id = pos_part n.last_id; last_push = none; last_write = now }

module _ {V : Type 0} where
  -- In front of the loop: the guard of the gauge, then the subscription.
  unfoldable pub begin_stream : Streams V → Bool → Streams V
  unfolding subscribe
  begin_stream s is_written =
      if is_written
      then (let (sub, n) = subscribe s.notifier in
          record {
            registry = increment_gauge s.registry sse_session;
            notifier = n;
            open_streams = s.open_streams ++ sub ∷ [];
          })
      else s

  -- Behind the loop: the subscription is taken back, then the guard is destroyed.
  unfoldable pub end_stream : Streams V → ℕ → Streams V
  unfolding unsubscribe
  end_stream s sub = record {
    registry = decrement_gauge s.registry sse_session;
    notifier = unsubscribe s.notifier sub;
    open_streams = keep (λ i. not (i == sub)) s.open_streams;
  }

  unfoldable pub stream_step : Streams V → StreamEvent → Streams V
  unfolding begin_stream end_stream notify
  stream_step s (connects is_written) = begin_stream s is_written
  stream_step s (disconnects sub) =
      if any (λ i. i == sub) s.open_streams then end_stream s sub else s
  stream_step s (notifies id) = record s { notifier = (notify s.notifier id).1 }

  unfoldable pub stream_events : Streams V → List StreamEvent → Streams V
  unfolding stream_step
  stream_events s [] = s
  stream_events s (e ∷ es) = stream_events (stream_step s e) es

  unfoldable pub no_streams : Registry V → Streams V
  no_streams r = record { registry = r; notifier = fresh_notifier; open_streams = [] }
