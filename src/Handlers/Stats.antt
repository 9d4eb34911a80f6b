-- ===== src/Handlers/Stats.antt =====
-- cpp/src/handlers/stats.hpp: GET /stats. Parsing a time is the date library's; a time is a number of
-- ticks of the system's clock, of which `day` are 24 hours. The two reads are arguments.
use loglite.Prelude.{
  Assoc, List, Option, Text, [], codes, if◌then◌else◌, inl, inr, is_empty, lookup, none, not, some,
  text_eq, ◌&&◌, ◌∷◌, ◌⊎◌,
}
use loglite.Prelude.Int.{ltb_ℤ, ℤ, ◌-ℤ◌}
use loglite.Json.{Items, Json, array, cons, integer, members, nil, object, string}
use loglite.Utils.{strip_spaces}
use loglite.QueryString.{parse_query_string, split_url_target}
use loglite.Results.{StatsQueryResult, json_array}
use loglite.Http.{Request, Response, make_fail_resp}
use loglite.Handlers.Query.{
  Answer, answered, failed, first_missing, missing_message, param, respond, split_commas,
}

-- What the two queries are called with; their fields are apart.
pub record StatsCall : Type 0 where
  pub since : Text
  pub until : Text
  pub fields : List Text
  pub ordering : Text

abbrev pub stats_names : List Text
stats_names =
    codes "since"
    ∷ codes "until"
    ∷ codes "activity_stats_fields"
    ∷ codes "database_stats_fields"
    ∷ []

abbrev pub filled_pieces : List Text → List Text
filled_pieces [] = []
filled_pieces (p ∷ ps) =
    if is_empty (strip_spaces p) then filled_pieces ps else strip_spaces p ∷ filled_pieces ps

unfoldable pub split_fields : Text → List Text
unfolding split_commas
split_fields s = if text_eq s (codes "*") then codes "*" ∷ [] else filled_pieces (split_commas s)

-- The ordering, or nothing where the parameter is neither of the two.
unfoldable pub ordering_of : Assoc Text → Option Text
ordering_of params = elim (lookup (codes "ordering") params) [
  | none ↦ some (codes "desc")
  | some o ↦
      if not (text_eq o (codes "asc")) && not (text_eq o (codes "desc")) then none else some o
]

abbrev pub json_texts : List Text → Items
json_texts [] = nil
json_texts (t ∷ ts) = cons (string t) (json_texts ts)

abbrev pub json_rows : List (List Json) → Items
json_rows [] = nil
json_rows (r ∷ rs) = cons (array (json_array r)) (json_rows rs)

abbrev pub stats_table : StatsQueryResult → Json
stats_table res = object (
    members (
      (codes "fields", array (json_texts res.fields))
      ∷ (codes "data", array (json_rows res.data_rows))
      ∷ []))

unfoldable pub stats_payload : StatsQueryResult × StatsQueryResult → ℤ → Json
unfolding members
stats_payload (activities, database) uptime = object (
    members (
      (codes "activities", stats_table activities)
      ∷ (codes "database", stats_table database)
      ∷ (codes "uptime", integer uptime)
      ∷ []))

-- The reads one after the other; an exception of the first is not followed by the second.
abbrev pub both : {A B : Type 0} → Answer A → Answer B → Answer (A × B)
both (failed what) b = failed what
both (answered a) (failed what) = failed what
both (answered a) (answered b) = answered (a, b)

module _ (parse_iso8601 : Text → Option ℤ) (day : ℤ) where
  -- The checks of the window, behind the parsing.
  abbrev pub window_error : ℤ → ℤ → Option Text
  window_error since until =
      if not (ltb_ℤ since until)
      then some (codes "'until' must be after 'since'")
      else if ltb_ℤ day (until -ℤ since)
      then some (codes "Time window must not exceed 1 day")
      else none

  abbrev pub not_times : Text
  not_times = codes "'since' and 'until' must be ISO-8601 timestamps"

  abbrev pub times_error : Text → Text → Option Text
  times_error since until = elim (parse_iso8601 since) [
    | none ↦ some not_times
    | some s ↦ elim (parse_iso8601 until) [ none ↦ some not_times | some u ↦ window_error s u ]
  ]

  -- The reason of a 400, or the ordering.
  unfoldable pub read_stats : Assoc Text → Text ⊎ Text
  unfolding ordering_of
  read_stats params = elim (first_missing stats_names params) [
    | some p ↦ inl (missing_message p)
    | none ↦ elim (ordering_of params) [
      | none ↦ inl (codes "Parameter 'ordering' must be 'asc' or 'desc'")
      | some ordering ↦
          elim (times_error (param (codes "since") params) (param (codes "until") params)) [
            | some msg ↦ inl msg
            | none ↦ inr ordering
          ]
    ]
  ]

  unfoldable pub stats_call : Assoc Text → Text → Text → StatsCall
  unfolding split_fields
  stats_call params ordering name = record {
    since = param (codes "since") params;
    until = param (codes "until") params;
    fields = split_fields (param name params);
    ordering = ordering;
  }

  module _ (arrange : Assoc Text → Assoc Text) (dump : Json → Option Text)
      (dump_error : Json → Text) (origin : Text)
      (query_activity_stats query_database_stats : StatsCall → Answer StatsQueryResult)
      (uptime : ℤ) where
    unfoldable pub handle_stats : Request → Option Response
    unfolding read_stats stats_call respond stats_payload
    handle_stats req =
        let (path, qs) = split_url_target req.target in
        let params = arrange (parse_query_string qs) in
        elim (read_stats params) [
          | inl msg ↦ make_fail_resp dump origin 400 msg req
          | inr ordering ↦
              respond dump dump_error origin (λ res. stats_payload res uptime)
                (both
                  (query_activity_stats
                    (stats_call params ordering (codes "activity_stats_fields")))
                  (query_database_stats
                    (stats_call params ordering (codes "database_stats_fields"))))
                req
        ]
