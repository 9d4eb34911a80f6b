-- ===== src/Api/Lifetime.antt =====
-- cpp/src/api.cpp: what the pointers point to behind a call of RunServer.
use loglite.Prelude.{
  Bool, Bool-cases, Option, Option-cases, false, if◌then◌else◌, inl, inr, is_some, none, not, refl,
  some, subst, true, ℕ, ◌&&◌, ◌<◌, ◌≡◌,
}
use loglite.Prelude.Int.{to_unsigned}
use loglite.Json.{Json}
use loglite.Config.{Config}
use loglite.Metrics.{}
use loglite.Backlog.{}
use loglite.Backlog.Bounds.{create-IsValid}
use loglite.Api.{
  Process, RunAnswers, leave, push_to_backlog, run_configured, run_server, serve_process,
  started_process, starting_process, stop_server, tear_down, with_window,
}
use loglite.Api.Calls.{
  IsGone, PointsNowhere, push_dangling, push_nowhere, run_calls-IsAlive, stop_dangling,
  stop_nowhere,
}

-- The harvesters are started.
abbrev pub reaches_start : RunAnswers → Bool
reaches_start f =
    is_some f.config && (f.opens && (f.initializes && (f.opens_readers && f.has_max_log_id)))

-- From then on something throws.
abbrev pub throws_late : RunAnswers → Bool
throws_late f = reaches_start f && not (f.starts && f.returns)

-- `Server::Run` is called, and throws.
abbrev pub throws_in_run : RunAnswers → Bool
throws_in_run f = reaches_start f && (f.starts && not f.returns)

abbrev pub HasRoom : Option Config → Type 0
HasRoom none = Unit
HasRoom (some cfg) = 0 < to_unsigned 64 cfg.task_backlog_max_size

module _ {V : Type 0} (zero_value : V) where
  -- What `PushToBacklog` and `StopServer` do to the process: nothing, or what has no defined behaviour,
  -- where their pointer dangles.
  abbrev pub IsLeft : Bool → Bool → Process V → Type 0
  IsLeft backlog_dangles server_dangles q =
      IsGone q
      × ((now : ℕ) (entry : Json)
          → push_to_backlog zero_value q now entry ≡ (if backlog_dangles then none else some q))
      × (stop_server zero_value q ≡ (if server_dangles then none else some q))

  pointers-IsLeft :
      (b s : Bool) (q : Process V)
      → IsGone q
      → q.points_to_backlog ≡ b
      → q.points_to_server ≡ s
      → IsLeft b s q
  pointers-IsLeft b s q g h h' = (g, pushed b h, stopped s h')
    where
      pushed :
          (b : Bool)
          → q.points_to_backlog ≡ b
          → (now : ℕ) (entry : Json)
          → push_to_backlog zero_value q now entry ≡ (if b then none else some q)
      pushed true h now entry = push_dangling zero_value q now entry h g.2
      pushed false h now entry = push_nowhere zero_value q now entry h

      stopped :
          (s : Bool)
          → q.points_to_server ≡ s
          → stop_server zero_value q ≡ (if s then none else some q)
      stopped true h' = stop_dangling zero_value q h' g.3
      stopped false h' = stop_nowhere zero_value q h'

  leave-IsGone : (p : Process V) → IsGone (leave zero_value p)
  unfolding leave
  leave-IsGone p = (refl, refl, refl, refl, refl)

  tear_down-IsGone : (p : Process V) → IsGone (tear_down zero_value p)
  unfolding tear_down
  tear_down-IsGone p = (refl, refl, refl, refl, refl)

  abbrev Leaves : Bool → Bool → Option (Process V × Bool) → Type 0
  Leaves b s o = (q : Process V) × (ok : Bool) × (o ≡ some (q, ok)) × IsLeft b s q

  serve_process-Leaves :
      (f : RunAnswers) (cfg : Config) (p : Process V)
      → HasRoom (some cfg)
      → PointsNowhere p
      → Leaves
          (not (f.starts && f.returns))
          (f.starts && not f.returns)
          (serve_process zero_value f cfg p)
  unfolding serve_process starting_process started_process tear_down leave
  serve_process-Leaves f cfg p room (none_yet, no_server) =
      let (q, e, (h, b, no_server', s)) =
        run_calls-IsAlive zero_value false f.early_calls (starting_process zero_value cfg p)
          (refl, (_, refl, create-IsValid _ room), no_server, λ k. absurd (cc k)) in
      let (r, e', (k, b', k', s')) =
        run_calls-IsAlive zero_value true f.calls (started_process zero_value q)
          (h, b, refl, λ o. (false, refl)) in
      elim (Bool-cases f.starts) [
        | inr n ↦ (
          leave zero_value q,
          false,
          rw (serve_process, e, n) refl,
          rw n (pointers-IsLeft true false (leave zero_value q) (leave-IsGone q) h no_server'),
        )
        | inl n ↦ elim (Bool-cases f.returns) [
          | inl m ↦ (
            tear_down zero_value r,
            true,
            rw (serve_process, e, n, e', m) refl,
            rw (n, m)
                (pointers-IsLeft false false (tear_down zero_value r) (tear_down-IsGone r) refl
                  refl),
          )
          | inr m ↦ (
            leave zero_value r,
            false,
            rw (serve_process, e, n, e', m) refl,
            rw (n, m) (pointers-IsLeft true true (leave zero_value r) (leave-IsGone r) k k'),
          )
        ]
      ]

  nowhere_Leaves :
      (p : Process V) → PointsNowhere p → Leaves false false (some (leave zero_value p, false))
  unfolding leave
  nowhere_Leaves p h = (
    leave zero_value p,
    false,
    refl,
    pointers-IsLeft false false (leave zero_value p) (leave-IsGone p) h.0 h.1,
  )

  run_configured-Leaves :
      (f : RunAnswers) (cfg : Config) (p : Process V)
      → HasRoom (some cfg)
      → IsGone p
      → PointsNowhere p
      → Leaves
          ((f.opens && (f.initializes && (f.opens_readers && f.has_max_log_id)))
            && not (f.starts && f.returns))
          ((f.opens && (f.initializes && (f.opens_readers && f.has_max_log_id)))
            && (f.starts && not f.returns))
          (run_configured zero_value f cfg p)
  unfolding run_configured
  run_configured-Leaves f cfg p room g h = elim (Bool-cases f.opens) [
    | inr e ↦ rw (run_configured, e) (p, false, refl, pointers-IsLeft false false p g h.0 h.1)
    | inl e ↦ elim (Bool-cases f.initializes) [
      | inr e' ↦ rw (run_configured, e, e') (nowhere_Leaves (record p { writer_is_open = true }) h)
      | inl e' ↦ elim (Bool-cases f.opens_readers) [
        | inr r ↦
            rw (run_configured, e, e', r) (nowhere_Leaves (record p { writer_is_open = true }) h)
        | inl r ↦ elim (Bool-cases f.has_max_log_id) [
          | inr m ↦
              rw (run_configured, e, e', r, m)
                (nowhere_Leaves (record p { writer_is_open = true; readers_are_open = true }) h)
          | inl m ↦
              rw (run_configured, e, e', r, m)
                (serve_process-Leaves f cfg
                  (record p { writer_is_open = true; readers_are_open = true }) room h)
        ]
      ]
    ]
  ]

  -- Once RunServer has been called in a process in which nothing of a server lives and no pointer
  -- points, with a size of the backlog that is not zero, nothing undefined has happened, whatever
  -- threw and whatever was pushed and stopped in between; the databases are closed, and no harvester
  -- runs. From then on PushToBacklog does nothing, unless something threw from the start of the
  -- harvesters on, and StopServer does nothing, unless Server::Run was called and threw: then they
  -- have no defined behaviour.
  pub run_server-IsLeft :
      (f : RunAnswers) (p : Process V)
      → HasRoom f.config
      → IsGone p
      → PointsNowhere p
      → (q : Process V) × (ok : Bool) × (run_server zero_value f p ≡ some (q, ok))
        × IsLeft (throws_late f) (throws_in_run f) q
  unfolding run_server
  run_server-IsLeft f p room g h = elim (Option-cases f.config) [
    | inl e ↦ rw (run_server, e) (p, false, refl, pointers-IsLeft false false p g h.0 h.1)
    | inr (cfg, e) ↦
        rw (run_server, e)
          (run_configured-Leaves f cfg (with_window zero_value f.now cfg p) (subst HasRoom e room) g
            h)
  ]
