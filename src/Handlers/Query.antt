-- ===== src/Handlers/Query.antt =====
-- cpp/src/handlers/query.hpp: GET /logs reads a query from the parameters and answers it. In which
-- order the multimap of the parameters goes through its entries is the standard library's:
-- `arrange`. The reader's answer is an argument.
use loglite.Prelude.{
  Assoc, List, Option, Text, [], codes, if◌then◌else◌, inl, inr, is_empty, is_some, lookup, none,
  some, text_eq, ℕ, ◌++◌, ◌==◌, ◌∷◌, ◌⊎◌,
}
use loglite.Prelude.Int.{pos, ℤ}
use loglite.Json.{Json, QueryFilter}
use loglite.Utils.{range_contains}
use loglite.Metrics.{Registry, collect, query_request}
use loglite.QueryString.{parse_int_param, parse_query_filters, parse_query_string, split_url_target}
use loglite.Results.{PaginatedQueryResult, to_json}
use loglite.Http.{Request, Response, make_fail_resp, make_ok_resp}

-- What a read returns, or the text of its exception.
pub data Answer (A : Type 0) : Type 0 where
  answered : A → Answer A
  failed : Text → Answer A

-- `std::views::split(s, ',')`: the pieces between the commas, none of an empty text.
abbrev pub add_front : ℕ → List Text → List Text
add_front c [] = (c ∷ []) ∷ []
add_front c (p ∷ ps) = (c ∷ p) ∷ ps

abbrev pub pieces : Text → List Text
pieces [] = [] ∷ []
pieces (c ∷ s) = if c == b',' then [] ∷ pieces s else add_front c (pieces s)

unfoldable pub split_commas : Text → List Text
split_commas [] = []
split_commas (c ∷ s) = pieces (c ∷ s)

-- The first of the names that is no parameter.
abbrev pub first_missing : List Text → Assoc Text → Option Text
first_missing [] params = none
first_missing (p ∷ ps) params =
    if is_some (lookup p params) then first_missing ps params else some p

abbrev pub missing_message : Text → Text
missing_message p = codes "Required parameter '" ++ (p ++ codes "' is missing")

-- `params.find(k)->second`, of a parameter that is there.
abbrev pub param : Text → Assoc Text → Text
param k params = elim (lookup k params) [ none ↦ [] | some v ↦ v ]

abbrev pub query_names : List Text
query_names = codes "fields" ∷ codes "limit" ∷ codes "offset" ∷ []

-- What Query is called with.
pub record QueryCall : Type 0 where
  pub fields : List Text
  pub filters : List QueryFilter
  pub limit : ℤ
  pub offset : ℤ

abbrev pub query_fields : Text → List Text
query_fields s = if text_eq s (codes "*") then codes "*" ∷ [] else split_commas s

-- The loop over the parameters: the filters, or the first field without a readable one.
unfoldable pub collect_filters : Assoc Text → Text ⊎ List QueryFilter
collect_filters [] = inr []
collect_filters ((key, value) ∷ params) =
    let rest = collect_filters params in
    if range_contains query_names key
    then rest
    else if is_empty (parse_query_filters key value)
    then inl key
    else elim rest [ inl k ↦ inl k | inr fs ↦ inr (parse_query_filters key value ++ fs) ]

abbrev pub filter_message : Text → Text
filter_message key = codes "Invalid filter expression for field '" ++ (key ++ codes "'")

abbrev pub with_filters : Assoc Text → ℤ → ℤ → Text ⊎ QueryCall
with_filters params limit offset = elim (collect_filters params) [
  | inl key ↦ inl (filter_message key)
  | inr filters ↦ inr (record {
    fields = query_fields (param (codes "fields") params);
    filters = filters;
    limit = limit;
    offset = offset;
  })
]

abbrev pub not_integers : Text
not_integers = codes "Parameters 'limit' and 'offset' must be integers"

-- The checks, in their order: the reason of a 400, or the call.
unfoldable pub read_query : Assoc Text → Text ⊎ QueryCall
read_query params = elim (first_missing query_names params) [
  | some p ↦ inl (missing_message p)
  | none ↦ elim (parse_int_param (param (codes "limit") params)) [
    | none ↦ inl not_integers
    | some limit ↦ elim (parse_int_param (param (codes "offset") params)) [
      | none ↦ inl not_integers
      | some offset ↦ with_filters params limit offset
    ]
  ]
]

-- What a handler makes of a read: its result, or a 500 with the text of the exception, be it the
-- read's or that of printing the result.
unfoldable pub respond :
    {A : Type 0}
    → (Json → Option Text)
    → (Json → Text)
    → Text
    → (A → Json)
    → Answer A
    → Request
    → Option Response
unfolding make_fail_resp make_ok_resp
respond dump dump_error origin show (failed what) req = make_fail_resp dump origin 500 what req
respond dump dump_error origin show (answered res) req =
    elim (make_ok_resp dump origin (show res) req) [
      | some r ↦ some r
      | none ↦ make_fail_resp dump origin 500 (dump_error (show res)) req
    ]

module _ (arrange : Assoc Text → Assoc Text) (dump : Json → Option Text) (dump_error : Json → Text)
    (origin : Text) (query : QueryCall → Answer PaginatedQueryResult) where
  unfoldable pub query_response : Request → Option Response
  query_response req =
      let (path, qs) = split_url_target req.target in
      elim (read_query (arrange (parse_query_string qs))) [
        | inl msg ↦ make_fail_resp dump origin 400 msg req
        | inr call ↦ respond dump dump_error origin to_json (query call) req
      ]

  -- The timer collects its time, `elapsed`, when the handler ends.
  unfoldable pub handle_query :
      {V : Type 0} → V → ℕ → Registry V → Request → Registry V × Option Response
  handle_query elapsed now r req = (collect r now query_request elapsed (pos 1), query_response req)

-- cpp/src/handlers/sse.hpp: the fields of an event stream, all of them unless some are named.
unfoldable pub stream_fields : Assoc Text → List Text
unfolding split_commas
stream_fields params = elim (lookup (codes "fields") params) [
  | none ↦ codes "*" ∷ []
  | some s ↦ query_fields s
]
