-- ===== src/Server/Connections.antt =====
-- server.cpp, HandleConnection: what a connection leaves behind, and what is answered on it.
use loglite.Prelude.{
  Bool, Bool-cases, List, Option, Option-cases, Text, [], ap, if◌then◌else◌, inl, inr, ◌∙◌, ◌∷◌,
  ◌≡◌,
}
use loglite.Prelude.Int.{+ℤ_cancel, pos, ◌+ℤ◌, ◌-ℤ◌}
use loglite.Metrics.Gauges.{closed, gauge-decrement, gauge-increment}
use loglite.Metrics.{Registry, gauge, http_connection, increment_gauge}
use loglite.Http.{Request, Response, options}
use loglite.Server.{
  Handler, Next, Turn, closed, crashed, dispatch, goes_on, handle_connection, is_event_stream,
  is_over, on_from, path_of, routed, serve, streams, turns, verb_eq,
}

on_from-kept : {A : Type 0} (P : A → Type 0) (n : Next) (x y : A) → P x → P y → P (on_from n x y)
on_from-kept P goes_on x y h k = h
on_from-kept P closed x y h k = k
on_from-kept P crashed x y h k = k
on_from-kept P (streams req) x y h k = k

module _ {S : Type 0} (run : Handler → S → Request → S × Option Response)
    (not_found : Request → Option Response) (need_eof : Response → Bool) (allow_origin : Text)
    (P : S → Type 0) (kept : (h : Handler) (s : S) (req : Request) → P s → P (run h s req).0) where
  routed-kept :
      (s : S) (req : Request) → P s → P (routed run not_found need_eof allow_origin s req).0
  unfolding routed
  routed-kept s req p = elim (Option-cases (dispatch (path_of req) req.verb)) [
    | inl e ↦ rw (routed, e) p
    | inr (h, e) ↦ rw (routed, e) (kept h s req p)
  ]

  serve-kept :
      (s : S) (w : Bool) (req : Request)
      → P s
      → P (serve run not_found need_eof allow_origin s w req).0
  unfolding serve
  serve-kept s w req p = elim (Bool-cases (verb_eq req.verb options)) [
    | inl e ↦ rw (serve, e) p
    | inr e ↦ elim (Bool-cases (is_event_stream req)) [
      | inl k ↦ rw (serve, e, k) p
      | inr k ↦ rw (serve, e, k) (routed-kept s req p)
    ]
  ]

  -- What every handler keeps of the state, a connection keeps.
  pub turns-kept :
      (ts : List Turn) (s : S) → P s → P (turns run not_found need_eof allow_origin s ts).0
  unfolding turns
  turns-kept [] s p = p
  turns-kept (t ∷ ts) s p = elim (Option-cases t.request) [
    | inl e ↦ rw (turns, e) p
    | inr (req, e) ↦
        let p' = serve-kept s t.is_written req p in
        rw (turns, e)
          (on_from-kept (λ (x : S × List Response × Next). P x.0) _ _ _
            (turns-kept ts (serve run not_found need_eof allow_origin s t.is_written req).0 p') p')
  ]

abbrev counted_in : {V : Type 0} → Registry V → Registry V
counted_in r = increment_gauge r http_connection

module _ {S V : Type 0}
    (run : Handler → Registry V × S → Request → (Registry V × S) × Option Response)
    (not_found : Request → Option Response) (need_eof : Response → Bool) (allow_origin : Text) where
  -- When no handler changes the gauge of the connections, a connection that is over, in whatever way
  -- and after whatever requests, has given back what it added to it; one that goes on, or that was
  -- handed to an event stream, is counted.
  pub handle_connection-gauge :
      (r : Registry V) (s : S) (ts : List Turn)
      → ((h : Handler) (x : Registry V × S) (req : Request)
          → gauge (run h x req).0.0 http_connection ≡ gauge x.0 http_connection)
      → let after = handle_connection run not_found need_eof allow_origin (r, s) ts in
        gauge after.0.0 http_connection
        ≡ (if is_over after.2 then gauge r http_connection else gauge r http_connection +ℤ pos 1)
  unfolding handle_connection
  handle_connection-gauge r s ts quiet =
      let counted =
        turns-kept run not_found need_eof allow_origin
          (λ x. gauge x.0 http_connection ≡ gauge r http_connection +ℤ pos 1)
          (λ h x req e. quiet h x req ∙ e) ts (increment_gauge r http_connection, s)
          (gauge-increment r http_connection) in
      elim (Bool-cases
        (is_over (turns run not_found need_eof allow_origin (counted_in r, s) ts).2)) [
          | inl e ↦
              rw (handle_connection, e)
                (gauge-decrement _ http_connection
                  ∙ ap (λ g. g -ℤ pos 1) counted
                  ∙ +ℤ_cancel (gauge r http_connection) (pos 1))
          | inr e ↦ rw (handle_connection, e) counted
        ]
