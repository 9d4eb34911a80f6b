-- ===== src/Handlers/Insert.antt =====
-- cpp/src/handlers/insert.hpp: POST /logs adds the entries of a JSON body to the backlog. The parser
-- is the JSON library's: a value, or the text of its parse_error. The n-th reading of the clock is
-- `clock n`.
use loglite.Prelude.{Option, Text, codes, length, some, suc, ℕ, ◌++◌, ◌>>=◌}
use loglite.Prelude.Int.{pos}
use loglite.Json.{Items, Json, array, cons, nil, object, string}
use loglite.Metrics.{Registry, collect, ingest_request}
use loglite.Backlog.{Backlog, add}
use loglite.Http.{Request, Response, make_fail_resp, make_ok_resp, one_field}

-- `nlohmann::json::parse`
pub data Parsed : Type 0 where
  parsed : Json → Parsed
  parse_error : Text → Parsed

module _ (dump : Json → Option Text) (origin : Text) where
  abbrev pub accepted : Request → Option Response
  accepted req = make_ok_resp dump origin (one_field "status" (string (codes "accepted"))) req

  abbrev pub refused_body : Request → Text → Option Response
  refused_body req msg = make_fail_resp dump origin 400 msg req

module _ {V : Type 0} (zero_value : V) (clock : ℕ → ℕ) where
  -- `for (auto& entry : body) ctx.backlog.Add(entry)`: the i-th addition.
  unfoldable pub add_entries :
      ℕ → Backlog Json × Registry V → Items → Option (Backlog Json × Registry V)
  unfolding add
  add_entries i s nil = some s
  add_entries i s (cons entry rest) = do
    s' ← add zero_value (clock i) s entry
    add_entries (suc i) s' rest

  module _ (size_value : ℕ → V) (parse : Text → Parsed) (dump : Json → Option Text)
      (origin : Text) where
    -- The three branches on the body; nothing is pushed where the body is refused.
    unfoldable pub ingest :
        Backlog Json × Registry V
        → Request
        → Json
        → Option ((Backlog Json × Registry V) × Option Response)
    unfolding add_entries add
    ingest s req (array entries) = do
      s' ← add_entries 1 s entries
      some (s', accepted dump origin req)
    ingest s req (object fs) = do
      s' ← add zero_value (clock 1) s (object fs)
      some (s', accepted dump origin req)
    ingest s req _ =
        some (s, refused_body dump origin req (codes "Body must be a JSON object or array"))

    -- `none` is undefined behaviour (of the backlog), an inner `none` an exception that leaves the
    -- handler.
    unfoldable pub handle_insert :
        Backlog Json × Registry V → Request → Option ((Backlog Json × Registry V) × Option Response)
    unfolding ingest collect
    handle_insert (b, r) req =
        let s : Backlog Json × Registry V =
          (b, collect r (clock 0) ingest_request (size_value (length req.body)) (pos 1)) in
        elim (parse req.body) [
          | parsed body ↦ ingest s req body
          | parse_error what ↦
              some (s, refused_body dump origin req (codes "Invalid JSON: " ++ what))
        ]
