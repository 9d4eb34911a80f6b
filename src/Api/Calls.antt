-- ===== src/Api/Calls.antt =====
-- cpp/src/api.cpp: what PushToBacklog and StopServer do by the two pointers.
use loglite.Prelude.{
  Bool, List, [], ap, false, if◌then◌else◌, none, not, refl, some, true, ℕ, ◌>>=◌, ◌∷◌, ◌≡◌,
}
use loglite.Prelude.Int.{pos}
use loglite.Json.{Json}
use loglite.Config.{}
use loglite.Metrics.{Registry, backlog_drop, collect}
use loglite.Backlog.{Backlog, add}
use loglite.Backlog.Bounds.{IsValid, push-Pushed}
use loglite.Api.{
  Call, Process, push_entry, push_to_backlog, run_call, run_calls, stop_call, stop_server,
}

module _ {V : Type 0} where
  -- Nothing of a server lives in the process.
  abbrev pub IsGone : Process V → Type 0
  IsGone p =
      (p.writer_is_open ≡ false)
      × (p.readers_are_open ≡ false)
      × (p.backlog ≡ none)
      × (p.server ≡ none)
      × (p.running ≡ [])

  abbrev pub PointsNowhere : Process V → Type 0
  PointsNowhere p = (p.points_to_backlog ≡ false) × (p.points_to_server ≡ false)

  -- What `g_backlog` points to is alive, and so is what `g_server` points to, where it does.
  abbrev pub IsAlive : Bool → Process V → Type 0
  IsAlive has_server p =
      (p.points_to_backlog ≡ true)
      × ((b : Backlog Json) × (p.backlog ≡ some b) × IsValid b)
      × (p.points_to_server ≡ has_server)
      × (has_server ≡ true → (told : Bool) × (p.server ≡ some told))

module _ {V : Type 0} (zero_value : V) where
  pub push_nowhere :
      (p : Process V) (now : ℕ) (entry : Json)
      → p.points_to_backlog ≡ false
      → push_to_backlog zero_value p now entry ≡ some p
  unfolding push_to_backlog
  push_nowhere p now entry h =
      ap
        (λ b.
          if not b
          then some p
          else (p.backlog >>= λ b'. add zero_value now (b', p.registry) entry >>= λ s.
              some (record p { backlog = some s.0; registry = s.1 })))
        h

  pub push_dangling :
      (p : Process V) (now : ℕ) (entry : Json)
      → p.points_to_backlog ≡ true
      → p.backlog ≡ none
      → push_to_backlog zero_value p now entry ≡ none
  unfolding push_to_backlog
  push_dangling p now entry h e = rw (push_to_backlog, h, e) refl

  pub stop_nowhere :
      (p : Process V) → p.points_to_server ≡ false → stop_server zero_value p ≡ some p
  unfolding stop_server
  stop_nowhere p h =
      ap
        (λ b.
          if not b then some p else (p.server >>= λ told. some (record p { server = some true })))
        h

  pub stop_dangling :
      (p : Process V)
      → p.points_to_server ≡ true
      → p.server ≡ none
      → stop_server zero_value p ≡ none
  unfolding stop_server
  stop_dangling p h e = rw (stop_server, h, e) refl

  add-alive :
      (now : ℕ) (b : Backlog Json) (r : Registry V) (entry : Json)
      → IsValid b
      → (b' : Backlog Json) × (r' : Registry V) × (add zero_value now (b, r) entry ≡ some (b', r'))
        × IsValid b'
  unfolding add
  add-alive now b r entry v =
      let (b', dropped, e, p) = push-Pushed b entry v in
      (
        b',
        (if dropped then collect r now backlog_drop zero_value (pos 1) else r),
        rw (add, e) refl,
        p.0,
      )

  run_call-IsAlive :
      (has_server : Bool) (p : Process V) (c : Call)
      → IsAlive has_server p
      → (q : Process V) × (run_call zero_value p c ≡ some q) × IsAlive has_server q
  unfolding run_call push_to_backlog stop_server
  run_call-IsAlive has_server p (push_entry now entry) (h, (b, e, v), k, s) =
      let (b', r', a, v') = add-alive now b p.registry entry v in
      (
        record p { backlog = some b'; registry = r' },
        rw (run_call, push_to_backlog, h, e, a) refl,
        (h, (b', refl, v'), k, s),
      )
  run_call-IsAlive true p stop_call (h, b, h', s) =
      let (told, e) = s refl in
      (
        record p { server = some true },
        rw (run_call, stop_server, h', e) refl,
        (h, b, h', λ k. (true, refl)),
      )
  run_call-IsAlive false p stop_call (h, b, h', s) = (p, stop_nowhere p h', (h, b, h', s))

  pub run_calls-IsAlive :
      (has_server : Bool) (cs : List Call) (p : Process V)
      → IsAlive has_server p
      → (q : Process V) × (run_calls zero_value p cs ≡ some q) × IsAlive has_server q
  unfolding run_calls
  run_calls-IsAlive has_server [] p a = (p, refl, a)
  run_calls-IsAlive has_server (c ∷ cs) p a =
      let (q, e, a') = run_call-IsAlive has_server p c a in
      let (q', e', a'') = run_calls-IsAlive has_server cs q a' in (q', rw (run_calls, e) e', a'')
