-- ===== src/Server/Posting.antt =====
-- server.cpp, router.hpp and insert.hpp together: logs that are posted reach the backlog.
use loglite.Prelude.{
  Bool, Option, Text, [], codes, drop, false, length, refl, some, subst, sym, text_eq, true, ◌&&◌,
  ◌-◌, ◌∙◌, ◌≡◌,
}
use loglite.Json.{Json}
use loglite.Backlog.{Backlog, flush}
use loglite.Backlog.Bounds.{IsValid}
use loglite.Metrics.{Registry}
use loglite.Http.{Request, Response, get, options, post}
use loglite.Handlers.Ingest.{handle_insert-flush, logs_of}
use loglite.Server.{
  Handler, dispatch, find_route, insert_route, is_event_stream, path_of, routed, serve, verb_eq,
}
use loglite.Server.App.{Context, not_found, run_handler, run_insert, serve_request}
use loglite.Server.Routes.{}

serve-routed :
    {S : Type 0} (run : Handler → S → Request → S × Option Response)
    (not_found : Request → Option Response) (need_eof : Response → Bool) (allow_origin : Text)
    (s : S) (w : Bool) (req : Request) (h : Handler)
    → verb_eq req.verb options ≡ false
    → is_event_stream req ≡ false
    → dispatch (path_of req) req.verb ≡ some h
    → (serve run not_found need_eof allow_origin s w req).0 ≡ (run h s req).0
unfolding serve routed
serve-routed run not_found need_eof allow_origin s w req h e k d = rw (serve, e, k, routed, d) refl

module _ {V : Type 0} (ctx : Context V) (need_eof : Response → Bool) (b : Backlog Json)
    (r : Registry V) (req : Request) where
  -- A POST to /logs on a connection, while the backlog is valid and empty, leaves a valid backlog
  -- from which a flush hands over the logs of the body, the newest of them in order, as many as the
  -- capacity allows; the backlog is valid behind that flush too.
  pub serve_request-flush :
      IsValid b
      → b.queue ≡ []
      → req.verb ≡ post
      → path_of req ≡ codes "/logs"
      → (b' : Backlog Json) × (r' : Registry V) × ((serve_request ctx need_eof
            (r, some b)
            true
            req).0
          ≡ (r', some b'))
        × ((flush b').0
            ≡ drop
                (length (logs_of (ctx.parse req.body)) - b.max_size)
                (logs_of (ctx.parse req.body)))
        × IsValid b'
        × IsValid (flush b').1
  unfolding serve_request run_handler run_insert dispatch find_route
  serve_request-flush v empty is_post at_logs =
      let (b', r', e, newest, held, v') =
        handle_insert-flush ctx.zero_value ctx.clock ctx.size_value ctx.parse ctx.dump
          ctx.config.allow_origin b r req v empty in
      let no_stream : is_event_stream req ≡ false =
        subst (λ p. (text_eq p (codes "/logs/sse") && verb_eq req.verb get) ≡ false) (sym at_logs)
          refl in
      let found : dispatch (path_of req) req.verb ≡ some insert_route =
        subst (λ p. dispatch p req.verb ≡ some insert_route) (sym at_logs)
          (subst (λ m. dispatch (codes "/logs") m ≡ some insert_route) (sym is_post) refl) in
      let handled =
        serve-routed (run_handler ctx) (not_found ctx) need_eof ctx.config.allow_origin (r, some b)
          true req insert_route (subst (λ m. verb_eq m options ≡ false) (sym is_post) refl)
          no_stream found in
      (b', r', handled ∙ rw (run_handler, run_insert, e) refl, newest, held, v')
