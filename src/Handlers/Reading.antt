-- ===== src/Handlers/Reading.antt =====
-- query.hpp, HandleQuery: which parameters make a call of Query, and which call.
use loglite.Prelude.{
  All, Assoc, List, NoByte, Option, Option-cases, Text, ap, codes, inl, inr, lookup, map, none,
  refl, some, subst, sym, ◌++◌, ◌↔◌, ◌∙◌, ◌∷◌, ◌≡◌,
}
use loglite.Prelude.Int.{ℤ}
use loglite.Json.{Json, QueryFilter}
use loglite.QueryString.{parse_int_param, parse_query_string, split_url_target}
use loglite.QueryString.Pairs.{
  Separable, decode_pair, join_pairs, parse_query_string-join, split_url_target-append,
}
use loglite.Results.{PaginatedQueryResult, to_json}
use loglite.Http.{Request}
use loglite.Handlers.Query.{
  Answer, QueryCall, collect_filters, first_missing, param, query_fields, query_names,
  query_response, read_query, respond, with_filters,
}
use loglite.Handlers.Filters.{
  HasFilter, all_filters, collect_filters_complete, collect_filters_sound, filter_params, inr_eq,
  ⊎-cases,
}

-- The parameters ask for this call.
abbrev pub Asks : Assoc Text → QueryCall → Type 0
Asks params call =
    ((f : Text) × (lookup (codes "fields") params ≡ some f) × (call.fields ≡ query_fields f))
    × ((l : Text) × (lookup (codes "limit") params ≡ some l)
        × (parse_int_param l ≡ some call.limit))
    × ((o : Text) × (lookup (codes "offset") params ≡ some o)
        × (parse_int_param o ≡ some call.offset))
    × All HasFilter (filter_params params)
    × (call.filters ≡ all_filters (filter_params params))

-- A parameter that is there, by the test of the handler.
param_found : (k v : Text) (params : Assoc Text) → lookup k params ≡ some v → param k params ≡ v
param_found k v params h = rw (param, h) refl

with_filters-Asks :
    (params : Assoc Text) (limit offset : ℤ) (call : QueryCall)
    → with_filters params limit offset ≡ inr call
    → (call.fields ≡ query_fields (param (codes "fields") params))
      × (call.limit ≡ limit)
      × (call.offset ≡ offset)
      × All HasFilter (filter_params params)
      × (call.filters ≡ all_filters (filter_params params))
with_filters-Asks params limit offset call h = elim (⊎-cases (collect_filters params)) [
  | inl (key, m) ↦ absurd (cc (rw (with_filters, m) at h))
  | inr (fs, m) ↦
      let (readable, same) = collect_filters_sound params fs m in
      let e = inr_eq (rw (with_filters, m) at h) in
      subst
        (λ c.
          (c.fields ≡ query_fields (param (codes "fields") params))
          × (c.limit ≡ limit)
          × (c.offset ≡ offset)
          × All HasFilter (filter_params params)
          × (c.filters ≡ all_filters (filter_params params)))
        e (refl, refl, refl, readable, same)
]

-- The three required parameters are there when none is missing.
none_missing :
    (params : Assoc Text)
    → first_missing query_names params ≡ none
    → ((f : Text) × (lookup (codes "fields") params ≡ some f))
      × ((l : Text) × (lookup (codes "limit") params ≡ some l))
      × ((o : Text) × (lookup (codes "offset") params ≡ some o))
none_missing params h = elim (Option-cases (lookup (codes "fields") params)) [
  | inl e ↦ absurd (cc (rw e at h))
  | inr (f, e) ↦ elim (Option-cases (lookup (codes "limit") params)) [
    | inl e' ↦ absurd (cc (rw (e, e') at h))
    | inr (l, e') ↦ elim (Option-cases (lookup (codes "offset") params)) [
      | inl e'' ↦ absurd (cc (rw (e, e', e'') at h))
      | inr (o, e'') ↦ ((f, e), (l, e'), (o, e''))
    ]
  ]
]

read_query-Asks :
    (params : Assoc Text) (call : QueryCall) → read_query params ≡ inr call → Asks params call
unfolding read_query
read_query-Asks params call h = elim (Option-cases (first_missing query_names params)) [
  | inr (p, m) ↦ absurd (cc (rw (m, read_query) at h))
  | inl m ↦
      let ((f, ef), (l, el), (o, eo)) = none_missing params m in
      elim (Option-cases (parse_int_param (param (codes "limit") params))) [
        | inl n ↦ absurd (cc (rw (read_query, m, n) at h))
        | inr (limit, n) ↦ elim (Option-cases (parse_int_param (param (codes "offset") params))) [
          | inl n' ↦ absurd (cc (rw (read_query, m, n, n') at h))
          | inr (offset, n') ↦
              let (fields, limit', offset', readable, filters) =
                with_filters-Asks params limit offset call (rw (read_query, m, n, n') at h) in
              (
                (f, ef, fields ∙ ap query_fields (param_found (codes "fields") f params ef)),
                (
                  l,
                  el,
                  ap parse_int_param (sym (param_found (codes "limit") l params el))
                      ∙ n
                      ∙ ap some (sym limit'),
                ),
                (
                  o,
                  eo,
                  ap parse_int_param (sym (param_found (codes "offset") o params eo))
                      ∙ n'
                      ∙ ap some (sym offset'),
                ),
                readable,
                filters,
              )
        ]
      ]
]

same_call :
    (call : QueryCall) (fs : List Text) (gs : List QueryFilter)
    → call.fields ≡ fs
    → call.filters ≡ gs
    → ◌≡◌ {A = QueryCall}
        (record { fields = fs; filters = gs; limit = call.limit; offset = call.offset })
        call
same_call call fs gs h k =
    subst
      (λ x.
        ◌≡◌ {A = QueryCall}
          (record { fields = x; filters = gs; limit = call.limit; offset = call.offset }) call)
      h
      (subst
        (λ y.
          ◌≡◌ {A = QueryCall}
            (record { fields = call.fields; filters = y; limit = call.limit; offset = call.offset })
            call)
        k refl)

-- The parameters that ask for a call are read as it.
read_query_complete :
    (params : Assoc Text) (call : QueryCall) → Asks params call → read_query params ≡ inr call
unfolding read_query
read_query_complete params call ((f, ef, fields), (l, el, n), (o, eo, n'), readable, filters) =
    let first = param_found (codes "fields") f params ef in
    rw
      (
        read_query,
        ef,
        el,
        eo,
        ap parse_int_param (param_found (codes "limit") l params el) ∙ n,
        ap parse_int_param (param_found (codes "offset") o params eo) ∙ n',
        with_filters,
        collect_filters_complete params readable,
      )
      (ap inr (same_call call _ _ (fields ∙ ap query_fields (sym first)) filters))

-- The parameters of a request are read as a call exactly when they ask for it: they give the fields,
-- and a limit and an offset that are read as integers, and every other parameter has filters; the call has
-- those fields (`*`, or what stands between the commas), that limit and that offset, and the filters
-- of all other parameters, in order. All other requests are refused.
pub read_query_iff :
    (params : Assoc Text) (call : QueryCall) → (read_query params ≡ inr call) ↔ Asks params call
read_query_iff params call = (read_query-Asks params call, read_query_complete params call)

module _ (arrange : Assoc Text → Assoc Text) (dump : Json → Option Text) (dump_error : Json → Text)
    (origin : Text) (query : QueryCall → Answer PaginatedQueryResult) where
  target_call :
      (target path : Text) (ps : List (Text × Text)) (call : QueryCall)
      → NoByte b'?' path
      → All Separable ps
      → target ≡ path ++ b'?' ∷ join_pairs ps
      → Asks (arrange (map decode_pair ps)) call
      → read_query (arrange (parse_query_string (split_url_target target).1)) ≡ inr call
  target_call target path ps call h separable e asks =
      rw
        (
          e,
          (split_url_target-append path (join_pairs ps) h).0,
          parse_query_string-join ps separable,
        )
        (read_query_complete (arrange (map decode_pair ps)) call asks)

  -- A request whose target is a path, a question mark and separable parameters that ask for a call is
  -- answered by what Query answers to that call: its result with 200, or its exception with 500.
  pub query_response-Asks :
      (req : Request) (path : Text) (ps : List (Text × Text)) (call : QueryCall)
      → NoByte b'?' path
      → All Separable ps
      → req.target ≡ path ++ b'?' ∷ join_pairs ps
      → Asks (arrange (map decode_pair ps)) call
      → query_response arrange dump dump_error origin query req
        ≡ respond dump dump_error origin to_json (query call) req
  unfolding query_response
  query_response-Asks req path ps call h separable e asks =
      rw (query_response, target_call req.target path ps call h separable e asks) refl
