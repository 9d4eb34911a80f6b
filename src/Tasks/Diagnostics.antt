-- ===== src/Tasks/Diagnostics.antt =====
-- cpp/src/tasks/diagnostics.hpp, and the tables of statistics of writer_database.cpp: summaries of the
-- observations of a period. The operations on `double` are a record; times are texts of a format in
-- which their order is that of the texts.
use loglite.Prelude.{
  List, Text, [], if◌then◌else◌, keep, length, ltb, map, not, suc, text_eq, text_ltb, ℕ, ◌++◌, ◌+◌,
  ◌-◌, ◌∷◌,
}
use loglite.Prelude.Int.{pos, ℤ, ◌+ℤ◌}
use loglite.Metrics.{
  Observation, Registry, backlog_drop, flush, gauge, http_connection, ingest_request, insert_batch,
  query_request, sse_session,
}

-- All that the code does with a `double`.
pub record ValueDouble (D : Type 0) : Type 0 where
  pub zero_value : D
  pub max_value : D
  pub lowest : D
  pub plus : D → D → D
  pub min_of : D → D → D
  pub max_of : D → D → D
  pub over_count : D → ℕ → D
  -- `std::llround`
  pub round_stat : D → ℤ

pub record ObservationSummary (D : Type 0) : Type 0 where
  pub sample_count : ℕ
  pub item_count : ℤ
  pub value_total : D
  pub min : D
  pub max : D
  pub avg : D

-- types.hpp
pub record ActivityStatsRow : Type 0 where
  pub since : Text
  pub until : Text
  pub query_count : ℤ
  pub query_min : ℤ
  pub query_max : ℤ
  pub query_avg : ℤ
  pub ingest_count : ℤ
  pub ingest_size_min : ℤ
  pub ingest_size_max : ℤ
  pub ingest_size_avg : ℤ
  pub ingest_drop_count : ℤ
  pub insert_batch_count : ℤ
  pub insert_total_count : ℤ
  pub insert_total_cost : ℤ
  pub sse_session_count : ℤ
  pub http_conn_count : ℤ

pub record DatabaseStatsRow : Type 0 where
  pub timestamp : Text
  pub rows_count : ℤ
  pub db_size : ℤ

pub record StatsTables : Type 0 where
  pub activity_stats : List ActivityStatsRow
  pub database_stats : List DatabaseStatsRow

-- The rows that are kept, and how many are removed: `DeleteStatsBefore`.
unfoldable pub delete_stats_before : Text → StatsTables → ℕ × StatsTables
delete_stats_before cutoff t =
    let activity = keep (λ r. not (text_ltb r.until cutoff)) t.activity_stats in
    let database = keep (λ r. not (text_ltb r.timestamp cutoff)) t.database_stats in
    (
      length t.activity_stats - length activity + (length t.database_stats - length database),
      record { activity_stats = activity; database_stats = database },
    )

module _ {D : Type 0} (double : ValueDouble D) where
  abbrev pub initial_summary : ObservationSummary D
  initial_summary = record {
    sample_count = 0;
    item_count = pos 0;
    value_total = double.zero_value;
    min = double.max_value;
    max = double.lowest;
    avg = double.zero_value;
  }

  unfoldable pub add_sample : ObservationSummary D → Observation D → ObservationSummary D
  add_sample s o = record {
    sample_count = suc s.sample_count;
    item_count = s.item_count +ℤ o.item_count;
    value_total = double.plus s.value_total o.value;
    min = double.min_of s.min o.value;
    max = double.max_of s.max o.value;
    avg = s.avg;
  }

  -- The inner loop: the first of the names that is the sample's.
  unfoldable pub add_to :
      List (Text × ObservationSummary D) → Observation D → List (Text × ObservationSummary D)
  unfolding add_sample
  add_to [] o = []
  add_to ((n, s) ∷ rest) o =
      if text_eq n o.name then (n, add_sample s o) ∷ rest else (n, s) ∷ add_to rest o

  unfoldable pub add_all :
      List (Text × ObservationSummary D) → List (Observation D) → List (Text × ObservationSummary D)
  unfolding add_to
  add_all out [] = out
  add_all out (o ∷ samples) = add_all (add_to out o) samples

  -- The average, and no bounds without samples.
  unfoldable pub finish_summary : ObservationSummary D → ObservationSummary D
  finish_summary s =
      if ltb 0 s.sample_count
      then record s { avg = double.over_count s.value_total s.sample_count }
      else record s { min = double.zero_value; max = double.zero_value }

  unfoldable pub summarize_observations :
      List Text → List (Observation D) → List (Text × ObservationSummary D)
  unfolding add_all finish_summary
  summarize_observations names samples =
      map (λ e. (e.0, finish_summary e.1)) (add_all (map (λ n. (n, initial_summary)) names) samples)

  abbrev pub observed_names : List Text
  observed_names = query_request ∷ ingest_request ∷ backlog_drop ∷ insert_batch ∷ []

  -- The summary of a name.
  abbrev pub summary_of : List (Text × ObservationSummary D) → Text → ObservationSummary D
  summary_of [] n = initial_summary
  summary_of ((m, s) ∷ rest) n = if text_eq m n then s else summary_of rest n

  unfoldable pub build_activity_stats :
      Registry D → Text → Text → List (Observation D) → ActivityStatsRow
  unfolding summarize_observations gauge
  build_activity_stats registry since until samples =
      let out = summarize_observations observed_names samples in
      let query = summary_of out query_request in
      let ingest = summary_of out ingest_request in
      let drops = summary_of out backlog_drop in
      let inserts = summary_of out insert_batch in
      record {
        since = since;
        until = until;
        query_count = pos query.sample_count;
        query_min = double.round_stat query.min;
        query_max = double.round_stat query.max;
        query_avg = double.round_stat query.avg;
        ingest_count = pos ingest.sample_count;
        ingest_size_min = double.round_stat ingest.min;
        ingest_size_max = double.round_stat ingest.max;
        ingest_size_avg = double.round_stat ingest.avg;
        ingest_drop_count = drops.item_count;
        insert_batch_count = pos inserts.sample_count;
        insert_total_count = inserts.item_count;
        insert_total_cost = double.round_stat inserts.value_total;
        sse_session_count = gauge registry sse_session;
        http_conn_count = gauge registry http_connection;
      }

  -- One round of the task behind its wait, when SQLite takes both rows: the flushed registry, the
  -- tables, and how many rows were pruned.
  unfoldable pub diagnostics_round :
      Registry D × StatsTables → ℕ → Text → Text → Text → ℤ → ℤ → (Registry D × StatsTables) × ℕ
  unfolding build_activity_stats delete_stats_before
  diagnostics_round (registry, t) now since until cutoff rows_count db_size =
      let (samples, registry') = flush registry now in
      let row = build_activity_stats registry' since until samples in
      let size : DatabaseStatsRow = record {
        timestamp = until;
        rows_count = rows_count;
        db_size = db_size;
      } in
      let (pruned, t') = delete_stats_before cutoff (record {
        activity_stats = t.activity_stats ++ row ∷ [];
        database_stats = t.database_stats ++ size ∷ [];
      }) in
      ((registry', t'), pruned)
