-- ===== src/Handlers/Tests.antt =====
-- The handlers at concrete requests.
use mathlib.Core.Option
use loglite.Prelude.{
  All, Assoc, Bool-cases, NoByte, Option, Text, [], arith, codes, false, find_char, if◌then◌else◌,
  inl, inr, is_empty, lookup, map, none, refl, some, suc, true, ℕ, ◌-◌, ◌==◌, ◌∷◌, ◌≡◌,
}
use loglite.Prelude.Int.{pos, ℤ, ◌-ℤ◌}
use loglite.Json.{Items, Json, array, cons, end, field, integer, nil, object, string}
use loglite.Backlog.{Backlog, create}
use loglite.Backlog.Bounds.{create-IsValid}
use loglite.Metrics.{fresh_registry}
use loglite.Utils.{stoi, url_decode}
use loglite.QueryString.{parse_int_param, parse_query_filters}
use loglite.QueryString.Pairs.{Separable, decode_pair}
use loglite.Results.{PaginatedQueryResult}
use loglite.Http.{Request, get, post}
use loglite.Handlers.Insert.{Parsed, parse_error, parsed}
use loglite.Handlers.Query.{
  Answer, QueryCall, answered, collect_filters, read_query, split_commas, stream_fields,
}
use loglite.Handlers.Stats.{ordering_of, read_stats}
use loglite.Handlers.Info.{normalize_column_kind}
use loglite.Handlers.Ingest.{After, handle_insert-flush}
use loglite.Handlers.Reading.{Asks, read_query_iff}

-- A printer that prints texts and fails on all else.
abbrev print_texts : Json → Option Text
print_texts (string s) = some s
print_texts (object fs) = some (codes "{}")
print_texts _ = none

abbrev backlog_of_two : Backlog Json
backlog_of_two = create 2

abbrev entry : ℕ → Json
entry n = object (field (codes "n") (integer (pos n)) end)

abbrev three_entries : Items
three_entries = cons (entry 1) (cons (entry 2) (cons (entry 3) nil))

abbrev parse_three : Text → Parsed
parse_three body =
    if is_empty body then parse_error (codes "empty") else parsed (array three_entries)

abbrev post_three : Request
post_three = record {
  verb = post;
  target = codes "/logs";
  keeps_alive = true;
  body = codes "[...]";
}

create-empty : backlog_of_two.queue ≡ []
unfolding create
create-empty = refl

handle_insert-flush_example :
    After {V = ℕ} 0
      (λ n. n)
      (λ n. n)
      parse_three
      print_texts
      (codes "*")
      backlog_of_two
      fresh_registry
      post_three
      (parse_three post_three.body)
handle_insert-flush_example =
    handle_insert-flush 0 (λ n. n) (λ n. n) parse_three print_texts (codes "*") backlog_of_two
      fresh_registry post_three (create-IsValid 2 (omega arith)) create-empty

abbrev query_params : Assoc Text
query_params =
    (codes "fields", codes "level,msg")
    ∷ (codes "limit", codes "10")
    ∷ (codes "offset", codes "0")
    ∷ (codes "level", codes "=INFO")
    ∷ []

abbrev expected_call : QueryCall
expected_call = record {
  fields = codes "level" ∷ codes "msg" ∷ [];
  filters =
      record { field_name = codes "level"; op = codes "="; value = string (codes "INFO") } ∷ [];
  limit = pos 10;
  offset = pos 0;
}

params_read : read_query query_params ≡ inr expected_call
unfolding read_query lookup parse_int_param stoi split_commas collect_filters parse_query_filters
params_read = refl

abbrev answer_none : QueryCall → Answer PaginatedQueryResult
answer_none call =
    answered (record { total = pos 0; offset = call.offset; limit = call.limit; results = [] })

abbrev get_logs : Request
get_logs = record {
  verb = get;
  target = codes "/logs?fields=level,msg&limit=10&offset=0&level==INFO";
  keeps_alive = true;
  body = [];
}

-- A text in which a byte is not found is without it.
no_byte : (c : ℕ) (s : Text) → find_char c s ≡ none → NoByte c s
no_byte c [] h = tt
no_byte c (d ∷ s) h = elim (Bool-cases (c == d)) [
  | inl e ↦ absurd (cc (rw e at h))
  | inr e ↦ (e, no_byte c s (not_later (find_char c s) (rw e at h)))
]
  where
    not_later : (o : Option ℕ) → Option.map suc o ≡ none → o ≡ none
    not_later none h = refl
    not_later (some k) h = cc

separable :
    (k v : Text)
    → find_char b'=' k ≡ none
    → find_char b'&' k ≡ none
    → find_char b'&' v ≡ none
    → Separable (k, v)
separable k v h i j = (no_byte b'=' k h, no_byte b'&' k i, no_byte b'&' v j)

query_params-Separable : All Separable query_params
query_params-Separable = (
  separable (codes "fields") (codes "level,msg") refl refl refl,
  (
    separable (codes "limit") (codes "10") refl refl refl,
    (
      separable (codes "offset") (codes "0") refl refl refl,
      (separable (codes "level") (codes "=INFO") refl refl refl, tt),
    ),
  ),
)

query_params-Asks : Asks (map decode_pair query_params) expected_call
query_params-Asks = (read_query_iff (map decode_pair query_params) expected_call).0 (
    unfold read_query lookup parse_int_param stoi split_commas collect_filters parse_query_filters
      url_decode in
    refl)

abbrev stats_params : Assoc Text
stats_params =
    (codes "since", codes "5")
    ∷ (codes "until", codes "9")
    ∷ (codes "activity_stats_fields", codes "*")
    ∷ (codes "database_stats_fields", codes "*")
    ∷ []

-- A clock that writes a time as a digit.
abbrev parse_digit : Text → Option ℤ
parse_digit (c ∷ []) = some (pos (c - b'0'))
parse_digit _ = none

stats_read : read_stats parse_digit (pos 4) stats_params ≡ inr (codes "desc")
unfolding read_stats lookup ordering_of ◌-ℤ◌
stats_read = refl

varchar_kind : normalize_column_kind (codes "varchar(255)") false ≡ codes "text"
unfolding normalize_column_kind
varchar_kind = refl

decimal_kind : normalize_column_kind (codes "DECIMAL (10,2)") false ≡ codes "text"
unfolding normalize_column_kind
decimal_kind = refl

two_stream_fields : stream_fields query_params ≡ codes "level" ∷ codes "msg" ∷ []
unfolding stream_fields lookup split_commas
two_stream_fields = refl
