-- ===== src/Server.antt =====
-- cpp/src/handlers/router.hpp, the table of routes, and cpp/src/server.cpp, HandleConnection: the
-- requests of one connection, and what is written. Reading a request and writing a response are
-- Boost.Beast's: whether they succeed, and `need_eof`, are arguments. The handlers are those of
-- Handlers, as one step on the state that they share.
pub mod Running
mod Stopping
mod Routes
mod Connections
pub mod App
mod Posting
mod Quiet
mod Tests
use loglite.Prelude.{
  Bool, List, Option, String, Text, [], codes, false, if◌then◌else◌, none, not, some, text_eq, true,
  ◌&&◌, ◌++◌, ◌∷◌,
}
use loglite.Metrics.{Registry, decrement_gauge, http_connection, increment_gauge}
use loglite.QueryString.{split_url_target}
use loglite.Http.{Request, Response, Verb, cors_headers, get, options, other_verb, post}

-- The handlers by their names.
pub data Handler : Type 0 where
  insert_route query_route health_route version_route : Handler
  stats_route settings_route schema_route : Handler

pub record RouteEntry : Type 0 where
  pub path : Text
  pub method : Verb
  pub handler : Handler

abbrev route : String → Verb → Handler → RouteEntry
route path method handler = record { path = codes path; method = method; handler = handler }

-- kRoutes
abbrev pub routes : List RouteEntry
routes =
    route "/logs" post insert_route
    ∷ route "/logs" get query_route
    ∷ route "/health" get health_route
    ∷ route "/version" get version_route
    ∷ route "/stats" get stats_route
    ∷ route "/settings" get settings_route
    ∷ route "/schema" get schema_route
    ∷ []

abbrev pub verb_eq : Verb → Verb → Bool
verb_eq get get = true
verb_eq post post = true
verb_eq options options = true
verb_eq other_verb other_verb = true
verb_eq _ _ = false

unfoldable pub find_route : List RouteEntry → Text → Verb → Option Handler
find_route [] path method = none
find_route (r ∷ rs) path method =
    if text_eq path r.path && verb_eq method r.method
    then some r.handler
    else find_route rs path method

unfoldable pub dispatch : Text → Verb → Option Handler
unfolding find_route
dispatch = find_route routes

-- One turn of the loop: the request, unless reading it fails or takes too long, and whether the
-- response can be written.
pub record Turn : Type 0 where
  pub request : Option Request
  pub is_written : Bool

-- How the loop goes on: with the next request, at an end, at an event stream's handler, which takes
-- the connection over, or with the exception of a handler.
pub data Next : Type 0 where
  goes_on closed crashed : Next
  streams : Request → Next

-- What follows a turn: the rest of the loop, or its end.
abbrev pub on_from : {A : Type 0} → Next → A → A → A
on_from goes_on rest end = rest
on_from _ rest end = end

abbrev pub path_of : Request → Text
path_of req = (split_url_target req.target).0

abbrev pub is_event_stream : Request → Bool
is_event_stream req = text_eq (path_of req) (codes "/logs/sse") && verb_eq req.verb get

-- The answer to a preflight.
unfoldable pub preflight : Text → Request → Response
preflight allow_origin req = record {
  status = 204;
  headers = cors_headers allow_origin;
  keeps_alive = req.keeps_alive;
  body = [];
}

module _ (need_eof : Response → Bool) where
  -- Writing a response: what is sent, and whether the loop goes on.
  abbrev pub send : Bool → Response → List Response × Next
  send is_written res =
      if not is_written then ([], closed) else (res ∷ [], if need_eof res then closed else goes_on)

  abbrev pub send_reply : Bool → Option Response → List Response × Next
  send_reply is_written none = ([], crashed)
  send_reply is_written (some res) = send is_written res

module _ {S : Type 0} (run : Handler → S → Request → S × Option Response)
    (not_found : Request → Option Response) (need_eof : Response → Bool) (allow_origin : Text) where
  -- `Dispatch`, and a 404 where there is no route.
  unfoldable pub routed : S → Request → S × Option Response
  unfolding dispatch
  routed s req = elim (dispatch (path_of req) req.verb) [
    | none ↦ (s, not_found req)
    | some h ↦ run h s req
  ]

  unfoldable pub serve : S → Bool → Request → S × List Response × Next
  unfolding routed preflight
  serve s is_written req =
      if verb_eq req.verb options
      then (let (sent, next) = send need_eof is_written (preflight allow_origin req) in
          (s, sent, next))
      else if is_event_stream req
      then (s, [], streams req)
      else let (s', reply) = routed s req in
        let (sent, next) = send_reply need_eof is_written reply in (s', sent, next)

  -- The loop: what is sent, and how it ends, which is `goes_on` while a next request is awaited.
  unfoldable pub turns : S → List Turn → S × List Response × Next
  unfolding serve
  turns s [] = (s, [], goes_on)
  turns s (t ∷ ts) = elim t.request [
    | none ↦ (s, [], closed)
    | some req ↦
        let (s', sent, next) = serve s t.is_written req in
        let (s'', more, end) = turns s' ts in on_from next (s'', sent ++ more, end) (s', sent, next)
  ]

-- The guard of the gauge is there from the beginning to the end, however the end comes; an event
-- stream's handler runs inside.
abbrev pub is_over : Next → Bool
is_over goes_on = false
is_over (streams req) = false
is_over _ = true

unfoldable pub handle_connection :
    {S V : Type 0}
    → (Handler → Registry V × S → Request → (Registry V × S) × Option Response)
    → (Request → Option Response)
    → (Response → Bool)
    → Text
    → Registry V × S
    → List Turn
    → (Registry V × S) × List Response × Next
unfolding turns
handle_connection run not_found need_eof allow_origin (r, s) ts =
    let ((r', s'), sent, next) =
      turns run not_found need_eof allow_origin (increment_gauge r http_connection, s) ts in
    ((if is_over next then decrement_gauge r' http_connection else r', s'), sent, next)
