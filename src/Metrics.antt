-- ===== src/Metrics.antt =====
-- cpp/src/metrics.hpp and metrics.cpp: the registry of observations within a sliding window, and of
-- gauges. A time is a count of the clock's ticks, `V` stands for `double`, which the registry only
-- stores. Each method holds the registry's mutex from end to end, so it is one step.
mod Window
pub mod Gauges
mod Tests
use loglite.Prelude.{
  Assoc, List, Text, [], codes, if◌then◌else◌, insert, leb, lookup, none, some, ℕ, ◌++◌, ◌+◌, ◌∷◌,
}
use loglite.Prelude.Int.{pos, ℤ, ◌+ℤ◌, ◌-ℤ◌}

pub record Observation (V : Type 0) : Type 0 where
  pub at : ℕ
  pub name : Text
  pub value : V
  pub item_count : ℤ

pub record Registry (V : Type 0) : Type 0 where
  pub window : ℕ
  pub observations : List (Observation V)
  pub gauges : Assoc ℤ

abbrev pub query_request : Text
query_request = codes "query_request"

abbrev pub ingest_request : Text
ingest_request = codes "ingest_request"

abbrev pub backlog_drop : Text
backlog_drop = codes "backlog_drop"

abbrev pub insert_batch : Text
insert_batch = codes "insert_batch"

abbrev pub http_connection : Text
http_connection = codes "http_connection"

abbrev pub sse_session : Text
sse_session = codes "sse_session"

module _ {V : Type 0} where
  -- The test `now - front.at >= window_`, and the loop that drops from the front.
  pub prune : ℕ → ℕ → List (Observation V) → List (Observation V)
  prune window now [] = []
  prune window now (o ∷ os) = if leb (o.at + window) now then prune window now os else o ∷ os

  pub configure : Registry V → ℕ → ℕ → Registry V
  configure r window now = record r {
    window = window;
    observations = prune window now r.observations;
  }

  unfoldable pub collect : Registry V → ℕ → Text → V → ℤ → Registry V
  collect r now name value item_count = record r {
    observations = prune r.window now r.observations ++ o ∷ [];
  }
    where
      o : Observation V
      o = record { at = now; name = name; value = value; item_count = item_count }

  -- `gauges_.find(name)`, 0 where there is no entry.
  unfoldable pub gauge : Registry V → Text → ℤ
  gauge r name = elim (lookup name r.gauges) [ none ↦ pos 0 | some n ↦ n ]

  -- `++gauges_[name]` and `--gauges_[name]`: a missing entry is made with 0.
  unfoldable pub increment_gauge : Registry V → Text → Registry V
  unfolding gauge
  increment_gauge r name = record r { gauges = insert name (gauge r name +ℤ pos 1) r.gauges }

  unfoldable pub decrement_gauge : Registry V → Text → Registry V
  unfolding gauge
  decrement_gauge r name = record r { gauges = insert name (gauge r name -ℤ pos 1) r.gauges }

  unfoldable pub flush : Registry V → ℕ → List (Observation V) × Registry V
  flush r now = (prune r.window now r.observations, record r { observations = [] })

  pub reset : Registry V → ℕ → Registry V
  reset r window = record { window = window; observations = []; gauges = [] }

-- A fresh registry, with the default window of 60 s in milliseconds.
abbrev pub fresh_registry : {V : Type 0} → Registry V
fresh_registry = record { window = 60000; observations = []; gauges = [] }
