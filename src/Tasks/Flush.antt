-- ===== src/Tasks/Flush.antt =====
-- cpp/src/tasks/flush_backlog.hpp: the task that moves the pending logs into the database, between
-- the logs that arrive. The wait, for the interval, the watermark or the end, ends at a `Wake`.
use loglite.Prelude.{
  Bool, List, Option, Text, [], count, false, if◌then◌else◌, is_empty, none, some, true, ℕ, ◌++◌,
  ◌+◌, ◌>>=◌, ◌∷◌,
}
use loglite.Prelude.Int.{pos, ℤ}
use loglite.Json.{ColumnInfo, Json}
use loglite.Backlog.{Backlog, add, flush, push}
use loglite.Writer.{Answers, Tables, Writer, insert_batch}
use loglite.Metrics.{Registry, collect, insert_batch as insert_batch_observation}
use loglite.Notifier.{Notifier, notify}

pub data Status : Type 0 where
  running stopped crashed : Status

-- What the task and the producers share, and how the task stands.
pub record TaskState (V : Type 0) : Type 0 where
  pub backlog : Backlog Json
  pub registry : Registry V
  pub writer : Writer
  pub notifier : Notifier
  pub status : Status

-- A wait that ends: whether the server is stopping, what SQLite answers to the insertion, the largest
-- id of the tables, the time that it took, and the clock.
pub record Wake (V : Type 0) : Type 0 where
  pub is_stopping : Bool
  pub answers : Answers
  pub max_log_id : Tables → ℤ
  pub elapsed : V
  pub now : ℕ

pub data Event (V : Type 0) : Type 0 where
  arrives : ℕ → Json → Event V
  wakes : Wake V → Event V

-- With what has happened so far: the logs that were handed to Insert, and how many were dropped.
pub record Run (V : Type 0) : Type 0 where
  pub state : TaskState V
  pub handed : List Json
  pub drops : ℕ

abbrev pub is_running : Status → Bool
is_running running = true
is_running _ = false

abbrev pub count_drop : Option (Backlog Json × Bool) → ℕ
count_drop none = 0
count_drop (some (b, dropped)) = if dropped then 1 else 0

module _ {V : Type 0} (zero_value : V) (dump : Json → Text) (compressed : List Text)
    (infos : List ColumnInfo) where
  -- Behind the insertion: the observation and the notification, or the end of the task by its
  -- exception.
  unfoldable pub after_insert : TaskState V → Wake V → Option ℕ × Writer → TaskState V
  unfolding collect notify
  after_insert s w (none, writer) = record s { writer = writer; status = crashed }
  after_insert s w (some count, writer) = record s {
    writer = writer;
    registry = collect s.registry w.now insert_batch_observation w.elapsed (pos count);
    notifier = (notify s.notifier (w.max_log_id writer.tables)).1;
  }

  -- One round behind the wait, and the logs that are handed to Insert.
  unfoldable pub flush_round : TaskState V → Wake V → TaskState V × List Json
  unfolding after_insert
  flush_round s w =
      if w.is_stopping
      then (record s { status = stopped }, [])
      else let (logs, emptied) = flush s.backlog in
        let s' = record s { backlog = emptied } in
        if is_empty logs
        then (s', [])
        else (after_insert s' w (insert_batch dump compressed w.answers s.writer infos logs), logs)

  -- `none` is undefined behaviour of the backlog. A task that has ended does not wake.
  unfoldable pub step : Run V → Event V → Option (Run V)
  unfolding flush_round
  step r (arrives now log) = do
    (backlog, registry) ← add zero_value now (r.state.backlog, r.state.registry) log
    some (record r {
      state = record r.state { backlog = backlog; registry = registry };
      drops = count_drop (push r.state.backlog log) + r.drops;
    })
  step r (wakes w) =
      if is_running r.state.status
      then (let (state, logs) = flush_round r.state w in
          some (record r { state = state; handed = r.handed ++ logs }))
      else some r

  unfoldable pub run_events : Run V → List (Event V) → Option (Run V)
  unfolding step
  run_events r [] = some r
  run_events r (e ∷ es) = do r' ← step r e; run_events r' es
