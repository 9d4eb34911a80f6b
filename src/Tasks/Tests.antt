-- ===== src/Tasks/Tests.antt =====
-- The tasks at concrete inputs.
use loglite.Prelude.{
  In, List, Text, [], arith, codes, false, if◌then◌else◌, length, ltb, map, none, not, refl, some,
  true, ℕ, ◌*◌, ◌+◌, ◌/◌, ◌>>=◌, ◌∷◌, ◌≡◌,
}
use loglite.Prelude.Int.{ltb_ℤ, pos, sub_ℕ, ℤ, ◌*ℤ◌, ◌+ℤ◌, ◌-ℤ◌}
use loglite.Json.{Json, QueryFilter, end, field, integer, object, string}
use loglite.Backlog.{Backlog, add, create, evict, flush, push}
use loglite.Backlog.Bounds.{create-IsValid}
use loglite.Writer.{Answers, insert_batch, taken}
use loglite.Metrics.{Observation, collect, fresh_registry, ingest_request, query_request}
use loglite.Notifier.{fresh_notifier, notify, subscribe}
use loglite.Database.{estimate_avg_row_bytes}
use loglite.Config.{default_config}
use loglite.Tasks.Vacuum.{SizeDouble, VacuumStore, max_rows, stale_filters, up_to}
use loglite.Tasks.Budget.{IsWithin, stale_filters-IsWithin}
use loglite.Tasks.Diagnostics.{
  ValueDouble, build_activity_stats, finish_summary, initial_summary, summarize_observations,
}
use loglite.Tasks.Summaries.{named, sum_samples, summarize_observations-named}
use loglite.Tasks.Flush.{
  Event, Run, TaskState, Wake, after_insert, arrives, flush_round, run_events, running, step, wakes,
}
use loglite.Tasks.Conservation.{Conserved, arrivals, run_events-Conserved}

abbrev entry : ℕ → Json
entry n = object (field (codes "n") (integer (pos n)) end)

abbrev small_backlog : Backlog Json
small_backlog = create 2

abbrev idle_state : TaskState ℕ
idle_state = record {
  backlog = small_backlog;
  registry = fresh_registry;
  writer = record {
    tables = record { logs = []; column_dictionary = []; begun = none };
    dictionary = [];
  };
  notifier = fresh_notifier;
  status = running;
}

abbrev accepting : Answers
accepting = record {
  begins = true;
  takes_log = λ vs. taken;
  takes_entry = λ col v id. taken;
  commits = true;
  rolls_back = true;
}

abbrev wake : Wake ℕ
wake = record {
  is_stopping = false;
  answers = accepting;
  max_log_id = λ t. pos (length t.logs);
  elapsed = 3;
  now = 9;
}

abbrev some_events : List (Event ℕ)
some_events =
    arrives 1 (entry 1)
    ∷ arrives 2 (entry 2)
    ∷ arrives 3 (entry 3)
    ∷ wakes wake
    ∷ arrives 10 (entry 4)
    ∷ []

abbrev start : Run ℕ
start = record { state = idle_state; handed = []; drops = 0 }

abbrev print_none : Json → Text
print_none v = []

small_backlog-empty : small_backlog.queue ≡ []
unfolding create
small_backlog-empty = refl

run_events-Conserved_example :
    (r : Run ℕ) × (run_events 0 print_none [] [] start some_events ≡ some r)
    × Conserved (arrivals some_events) r
run_events-Conserved_example =
    run_events-Conserved 0 print_none [] [] idle_state some_events (create-IsValid 2 (omega arith))
      small_backlog-empty

abbrev history : Run ℕ → List Json × ℕ
history r = (r.handed, r.drops)

one_dropped :
    (run_events 0 print_none [] [] start some_events >>= λ r. some (history r))
    ≡ some (entry 2 ∷ entry 3 ∷ [], 1)
unfolding run_events step add push evict create flush_round flush after_insert insert_batch collect
    notify
one_dropped = refl

two_subscribers : (notify (subscribe (subscribe fresh_notifier).1).1 (pos 7)).0 ≡ 0 ∷ 1 ∷ []
unfolding notify subscribe
two_subscribers = refl

-- A log of which only the ids and the sizes are known: the first id, and the number of rows.
abbrev Ids : Type 0
Ids = ℕ × ℕ

abbrev small_store : VacuumStore Ids
small_store = record {
  get_pragma = λ s name. codes "2";
  min_timestamp = λ s. codes "2024-01-01T00:00:00";
  min_log_id = λ s. pos s.0;
  max_log_id = λ s. sub_ℕ (s.0 + s.1) 1;
  row_count = λ s. s.1;
  size_bytes = λ s. s.1 * 1024;
  delete_logs = λ s flt. some (pos 0, s);
  incremental_vacuum = λ s pages. some s;
  vacuum = λ s. some s;
  wal_checkpoint = λ s mode. some s;
}

abbrev whole_sizes : SizeDouble ℤ
whole_sizes = record {
  bytes_to_mb = λ n. n;
  le = λ a b. not (ltb_ℤ b a);
  minus = λ a b. a -ℤ b;
  over = λ a b. pos 1;
  part_of = λ n x. n *ℤ x;
}

abbrev cutoff : Text
cutoff = codes "2024-06-01T00:00:00"

abbrev stale : List QueryFilter
stale =
    record { field_name = codes "timestamp"; op = codes "<="; value = string cutoff }
    ∷ up_to "id" (integer (pos 5129))
    ∷ []

stale_filters-IsWithin_example :
    (last : ℤ) × In (up_to "id" (integer last)) stale × IsWithin small_store 5 (10, 1000000) last
stale_filters-IsWithin_example =
    stale_filters-IsWithin small_store default_config 5 (omega arith) (10, 1000000) cutoff stale
      (unfold stale_filters max_rows estimate_avg_row_bytes ◌+ℤ◌ ◌-ℤ◌ ◌*ℤ◌ in refl)

-- Doubles that are whole numbers.
abbrev whole : ValueDouble ℕ
whole = record {
  zero_value = 0;
  max_value = 1000000;
  lowest = 0;
  plus = λ a b. a + b;
  min_of = λ a b. if ltb b a then b else a;
  max_of = λ a b. if ltb a b then b else a;
  over_count = λ a n. a / n;
  round_stat = λ a. pos a;
}

abbrev sample : Text → ℕ → Observation ℕ
sample name value = record { at = 0; name = name; value = value; item_count = pos 1 }

abbrev some_samples : List (Observation ℕ)
some_samples = sample query_request 4 ∷ sample ingest_request 70 ∷ sample query_request 8 ∷ []

abbrev two_names : List Text
two_names = query_request ∷ ingest_request ∷ []

summarize_observations-named_example :
    summarize_observations whole two_names some_samples
    ≡ map
        (λ n. (
          n,
          finish_summary whole
              (sum_samples whole (initial_summary whole) (named whole n some_samples)),
        ))
        two_names
summarize_observations-named_example =
    summarize_observations-named whole two_names some_samples ((refl, tt), (tt, tt))

query_average : (build_activity_stats whole fresh_registry [] [] some_samples).query_avg ≡ pos 6
unfolding build_activity_stats
query_average = refl
