-- ===== src/Server/Quiet.antt =====
-- server.cpp with the handlers in their places: none of them changes a gauge.
use loglite.Prelude.{
  Assoc, Bool, List, Option, Option-cases, Text, ap, false, if◌then◌else◌, inl, inr, lookup, none,
  refl, some, subst, suc, true, ℕ, ◌>>=◌, ◌∙◌, ◌≡◌, ◌⊎◌,
}
use loglite.Prelude.Int.{pos, ℤ, ◌+ℤ◌}
use loglite.Json.{Items, Json, array, boolean, cons, floating, integer, nil, null, object, string}
use loglite.Backlog.{Backlog, add, push}
use loglite.Metrics.{Registry, backlog_drop, collect, gauge, http_connection}
use loglite.Http.{Request, Response}
use loglite.Handlers.Insert.{
  Parsed, accepted, add_entries, handle_insert, ingest, parse_error, parsed,
}
use loglite.Handlers.Query.{handle_query}
use loglite.Server.{
  Handler, Turn, handle_connection, health_route, insert_route, is_over, query_route, schema_route,
  settings_route, stats_route, version_route,
}
use loglite.Server.App.{
  Context, Counted, State, after_insert, not_found, run_each, run_handler, run_insert, run_query,
}
use loglite.Server.Connections.{handle_connection-gauge}

module _ {V : Type 0} where
  collect-gauges :
      (r : Registry V) (now : ℕ) (name : Text) (v : V) (n : ℤ)
      → (collect r now name v n).gauges ≡ r.gauges
  unfolding collect
  collect-gauges r now name v n = refl

  -- The registry, if there is one, has these gauges.
  abbrev Keeps : Assoc ℤ → Option (Backlog Json × Registry V) → Type 0
  Keeps g none = Unit
  Keeps g (some (b, r)) = r.gauges ≡ g

  module _ (zero_value : V) (clock : ℕ → ℕ) where
    add-Keeps :
        (now : ℕ) (b : Backlog Json) (r : Registry V) (log : Json)
        → Keeps r.gauges (add zero_value now (b, r) log)
    unfolding add
    add-Keeps now b r log = elim (Option-cases (push b log)) [
      | inl e ↦ rw (add, e) tt
      | inr ((b', true), e) ↦ rw (add, e) (collect-gauges r now backlog_drop zero_value (pos 1))
      | inr ((b', false), e) ↦ rw (add, e) refl
    ]

    add_entries-Keeps :
        (g : Assoc ℤ) (vs : Items) (i : ℕ) (b : Backlog Json) (r : Registry V)
        → r.gauges ≡ g
        → Keeps g (add_entries zero_value clock i (b, r) vs)
    unfolding add_entries
    add_entries-Keeps g nil i b r h = h
    add_entries-Keeps g (cons v vs) i b r h =
        elim (Option-cases (add zero_value (clock i) (b, r) v)) [
          | inl e ↦ rw (add_entries, e) tt
          | inr ((b', r'), e) ↦
              rw (add_entries, e)
                (add_entries-Keeps g vs (suc i) b' r'
                  (subst (Keeps r.gauges) e (add-Keeps (clock i) b r v) ∙ h))
        ]

    abbrev KeepsAfter : Assoc ℤ → Option ((Backlog Json × Registry V) × Option Response) → Type 0
    KeepsAfter g none = Unit
    KeepsAfter g (some ((b, r), reply)) = r.gauges ≡ g

    replied :
        (g : Assoc ℤ) (o : Option (Backlog Json × Registry V)) (reply : Option Response)
        → Keeps g o
        → KeepsAfter g (o >>= λ s. some (s, reply))
    replied g none reply h = tt
    replied g (some (b, r)) reply h = h

    module _ (size_value : ℕ → V) (parse : Text → Parsed) (dump : Json → Option Text)
        (origin : Text) where
      ingest-Keeps :
          (b : Backlog Json) (r : Registry V) (req : Request) (body : Json)
          → KeepsAfter r.gauges
              (ingest zero_value clock size_value parse dump origin (b, r) req body)
      unfolding ingest
      ingest-Keeps b r req (array vs) =
          replied r.gauges _ (accepted dump origin req) (add_entries-Keeps r.gauges vs 1 b r refl)
      ingest-Keeps b r req (object fs) =
          replied r.gauges _ (accepted dump origin req) (add-Keeps (clock 1) b r (object fs))
      ingest-Keeps b r req null = refl
      ingest-Keeps b r req (boolean x) = refl
      ingest-Keeps b r req (integer x) = refl
      ingest-Keeps b r req (floating x) = refl
      ingest-Keeps b r req (string x) = refl

      Parsed-cases :
          (p : Parsed) → ((v : Json) × (p ≡ parsed v)) ⊎ ((w : Text) × (p ≡ parse_error w))
      Parsed-cases (parsed v) = inl (v, refl)
      Parsed-cases (parse_error w) = inr (w, refl)

      handle_insert-Keeps :
          (b : Backlog Json) (r : Registry V) (req : Request)
          → KeepsAfter r.gauges
              (handle_insert zero_value clock size_value parse dump origin (b, r) req)
      unfolding handle_insert collect
      handle_insert-Keeps b r req = elim (Parsed-cases (parse req.body)) [
        | inl (v, e) ↦ rw (handle_insert, e) (ingest-Keeps b _ req v)
        | inr (w, e) ↦ rw (handle_insert, e) refl
      ]

gauge_same :
    {V : Type 0} (r r' : Registry V) (n : Text) → r'.gauges ≡ r.gauges → gauge r' n ≡ gauge r n
unfolding gauge
gauge_same r r' n h = ap (λ g. elim (lookup n g) [ none ↦ pos 0 | some k ↦ k ]) h

module _ {V : Type 0} (ctx : Context V) where
  after_insert-quiet :
      (r : Registry V) (o : Option ((Backlog Json × Registry V) × Option Response))
      → KeepsAfter ctx.zero_value ctx.clock r.gauges o
      → (after_insert ctx r o).0.0.gauges ≡ r.gauges
  after_insert-quiet r none h = refl
  after_insert-quiet r (some ((b, r'), reply)) h = h

  run_handler-quiet :
      (h : Handler) (x : State V) (req : Request)
      → (run_handler ctx h x req).0.0.gauges ≡ x.0.gauges
  unfolding run_handler run_insert run_query handle_query collect
  run_handler-quiet insert_route (r, none) req = refl
  run_handler-quiet insert_route (r, some b) req = after_insert-quiet r _ (
      handle_insert-Keeps ctx.zero_value ctx.clock ctx.size_value ctx.parse ctx.dump
        ctx.config.allow_origin b r req)
  run_handler-quiet query_route (r, b) req = refl
  run_handler-quiet health_route x req = refl
  run_handler-quiet version_route x req = refl
  run_handler-quiet stats_route x req = refl
  run_handler-quiet settings_route x req = refl
  run_handler-quiet schema_route x req = refl

module _ {V : Type 0} (contexts : ℕ → Context V) where
  run_each-quiet :
      (h : Handler) (x : Counted V) (req : Request)
      → (run_each contexts h x req).0.0.gauges ≡ x.0.gauges
  unfolding run_each
  run_each-quiet h (r, (b, n)) req = run_handler-quiet (contexts n) h (r, b) req

  -- A connection to the server that is over, in whatever way and after whatever requests to whatever
  -- handlers, has given back what it added to the gauge of the connections; one that goes on, or that
  -- was handed to an event stream, is counted.
  pub handle_connection-run_each :
      (not_found : Request → Option Response) (need_eof : Response → Bool) (allow_origin : Text)
      (r : Registry V) (b : Option (Backlog Json)) (ts : List Turn)
      → let after =
          handle_connection (run_each contexts) not_found need_eof allow_origin (r, (b, 0)) ts in
        gauge after.0.0 http_connection
        ≡ (if is_over after.2 then gauge r http_connection else gauge r http_connection +ℤ pos 1)
  handle_connection-run_each not_found need_eof allow_origin r b ts =
      handle_connection-gauge (run_each contexts) not_found need_eof allow_origin r (b, 0) ts
        (λ h x req.
          gauge_same x.0 (run_each contexts h x req).0.0 http_connection (run_each-quiet h x req))
