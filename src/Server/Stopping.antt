-- ===== src/Server/Stopping.antt =====
-- server.cpp and context.hpp: what a request to stop leads to.
use loglite.Prelude.{
  Bool, Bool-cases, List, [], ap, arith, false, if◌then◌else◌, inl, inr, not, refl, subst, true, ℕ,
  ◌++◌, ◌+◌, ◌∙◌, ◌∷◌, ◌≡◌, ◌≤◌,
}
use loglite.Server.Running.{
  Running, ServerEvent, accept_error, accept_step, accepted_one, listening, register_shutdown_timer,
  registers, request_stop, server_events, server_step, signalled, stop, stop_called, task_ended,
}

-- An accept that was begun on a closed acceptor is answered by an error.
abbrev pub IsPossible : Running → List ServerEvent → Type 0
IsPossible s [] = Unit {0}
IsPossible s (accepted_one ∷ es) =
    (s.is_accept_live ≡ true) × IsPossible (server_step s accepted_one) es
IsPossible s (e ∷ es) = IsPossible (server_step s e) es

-- At most one connection more is spawned, the stop is known, and the pool is stopped when no accept is
-- awaited.
abbrev IsClosing : ℕ → Running → Type 0
IsClosing n s =
    (s.is_acceptor_open ≡ false)
    × (s.context.stopping ≡ true)
    × (s.connections + (if s.is_accept_live then 1 else 0) ≤ n + 1)
    × (s.is_pool_stopped ≡ not s.accepts)

abbrev IsConsistent : Running → Type 0
IsConsistent s = s.is_pool_stopped ≡ not s.accepts

-- The two cases of an accept that fails.
accept_failed :
    (P : Running → Type 0) (s : Running)
    → P s
    → P (record s { accepts = false; is_pool_stopped = true })
    → P (server_step s accept_error)
unfolding server_step accept_step
accept_failed P s h k =
    elim s.accepts
      as (λ b. P (if b then record s { accepts = false; is_pool_stopped = true } else s)) [
        | true ↦ k
        | false ↦ h
      ]

accepted :
    (P : Running → Type 0) (s : Running)
    → P s
    → P (record s { connections = s.connections + 1; is_accept_live = s.is_acceptor_open })
    → P (server_step s accepted_one)
unfolding server_step accept_step
accepted P s h k =
    elim s.accepts
      as (λ b. P (
        if b
        then record s { connections = s.connections + 1; is_accept_live = s.is_acceptor_open }
        else s)) [ true ↦ k | false ↦ h ]

server_step-IsConsistent :
    (s : Running) (e : ServerEvent) → IsConsistent s → IsConsistent (server_step s e)
unfolding server_step stop
server_step-IsConsistent s accepted_one h = accepted IsConsistent s h h
server_step-IsConsistent s accept_error h = accept_failed IsConsistent s h refl
server_step-IsConsistent s signalled h = h
server_step-IsConsistent s task_ended h = h
server_step-IsConsistent s stop_called h = h
server_step-IsConsistent s (registers timer) h = h

live_accepted :
    (n : ℕ) (s : Running)
    → s.is_accept_live ≡ true
    → IsClosing n s
    → IsClosing n
        (record s { connections = s.connections + 1; is_accept_live = s.is_acceptor_open })
live_accepted n s live (closed, told, few, pool) =
    (closed, told, ground (arith, live, closed, few), pool)

server_step-IsClosing :
    (n : ℕ) (s : Running) (e : ServerEvent) (es : List ServerEvent)
    → IsPossible s (e ∷ es)
    → IsClosing n s
    → IsClosing n (server_step s e) × IsPossible (server_step s e) es
unfolding server_step stop request_stop register_shutdown_timer
server_step-IsClosing n s accepted_one es p v =
    (accepted (IsClosing n) s v (live_accepted n s p.0 v), p.1)
server_step-IsClosing n s accept_error es p v =
    (accept_failed (IsClosing n) s v (v.0, v.1, v.2, refl), p)
server_step-IsClosing n s signalled es p v = ((refl, refl, v.2, v.3), p)
server_step-IsClosing n s task_ended es p v = ((refl, refl, v.2, v.3), p)
server_step-IsClosing n s stop_called es p v = ((refl, refl, v.2, v.3), p)
server_step-IsClosing n s (registers timer) es p v = (v, p)

server_events-IsConsistent :
    (es : List ServerEvent) (s : Running) → IsConsistent s → IsConsistent (server_events s es)
unfolding server_events
server_events-IsConsistent [] s h = h
server_events-IsConsistent (e ∷ es) s h =
    server_events-IsConsistent es (server_step s e) (server_step-IsConsistent s e h)

server_events-IsClosing :
    (n : ℕ) (es : List ServerEvent) (s : Running)
    → IsPossible s es
    → IsClosing n s
    → IsClosing n (server_events s es)
unfolding server_events
server_events-IsClosing n [] s p h = h
server_events-IsClosing n (e ∷ es) s p h =
    let (h', p') = server_step-IsClosing n s e es p h in
    server_events-IsClosing n es (server_step s e) p' h'

later-IsPossible :
    (es fs : List ServerEvent) (s : Running)
    → IsPossible s (es ++ fs)
    → IsPossible (server_events s es) fs
unfolding server_events
later-IsPossible [] fs s p = p
later-IsPossible (accepted_one ∷ es) fs s p =
    later-IsPossible es fs (server_step s accepted_one) p.1
later-IsPossible (accept_error ∷ es) fs s p = later-IsPossible es fs (server_step s accept_error) p
later-IsPossible (signalled ∷ es) fs s p = later-IsPossible es fs (server_step s signalled) p
later-IsPossible (task_ended ∷ es) fs s p = later-IsPossible es fs (server_step s task_ended) p
later-IsPossible (stop_called ∷ es) fs s p = later-IsPossible es fs (server_step s stop_called) p
later-IsPossible (registers t ∷ es) fs s p = later-IsPossible es fs (server_step s (registers t)) p

server_events-append :
    (es fs : List ServerEvent) (s : Running)
    → server_events s (es ++ fs) ≡ server_events (server_events s es) fs
unfolding server_events
server_events-append [] fs s = refl
server_events-append (e ∷ es) fs s = server_events-append es fs (server_step s e)

error_ends : (s : Running) → (server_step s accept_error).accepts ≡ false
unfolding server_step
error_ends s = elim (Bool-cases s.accepts) [
  | inl e ↦ still s e
  | inr e ↦ accept_failed (λ t. t.accepts ≡ false) s e refl
]
  where
    still : (s : Running) → s.accepts ≡ true → (server_step s accept_error).accepts ≡ false
    still s e = cc

-- No event starts the accept loop again.
server_step_ended :
    (s : Running) (e : ServerEvent) → s.accepts ≡ false → (server_step s e).accepts ≡ false
unfolding server_step stop
server_step_ended s accepted_one h = accepted (λ t. t.accepts ≡ false) s h h
server_step_ended s accept_error h = error_ends s
server_step_ended s signalled h = h
server_step_ended s task_ended h = h
server_step_ended s stop_called h = h
server_step_ended s (registers timer) h = h

server_events_ended :
    (es : List ServerEvent) (s : Running) → s.accepts ≡ false → (server_events s es).accepts ≡ false
unfolding server_events
server_events_ended [] s h = h
server_events_ended (e ∷ es) s h =
    server_events_ended es (server_step s e) (server_step_ended s e h)

-- Whatever has happened to a server that listens, while an accept that was begun on a closed acceptor is
-- answered by an error: from a call of Stop on at most one connection is accepted, the one that was
-- awaited; as soon as the acceptor has answered by an error, the pool is stopped, and it is known that
-- a stop was requested, whatever else happens before and behind.
pub server_events-stopped :
    (es fs gs : List ServerEvent)
    → IsPossible listening (es ++ stop_called ∷ (fs ++ accept_error ∷ gs))
    → let before = server_events listening es in
      let after = server_events listening (es ++ stop_called ∷ (fs ++ accept_error ∷ gs)) in
      (after.is_pool_stopped ≡ true)
      × (after.connections ≤ before.connections + 1)
      × (after.context.stopping ≡ true)
unfolding server_events server_step stop request_stop
server_events-stopped es fs gs possible =
    let before = server_events listening es in
    let told = server_step before stop_called in
    let rest = fs ++ accept_error ∷ gs in
    let kept = server_events-IsConsistent es listening refl in
    let closing : IsClosing before.connections told =
      (refl, refl, one_more before.connections before.is_accept_live, kept) in
    let failed = server_step (server_events told fs) accept_error in
    let ended = server_events_ended gs failed (error_ends (server_events told fs)) in
    let v =
      server_events-IsClosing before.connections rest told
        (later-IsPossible es (stop_called ∷ rest) listening possible) closing in
    rw
      (
        server_events-append es (stop_called ∷ rest) listening,
        server_events-append fs (accept_error ∷ gs) told,
      )
      (closed_by before.connections (server_events failed gs)
        (subst (IsClosing before.connections) (server_events-append fs (accept_error ∷ gs) told) v)
        ended)
  where
    one_more : (n : ℕ) (b : Bool) → n + (if b then 1 else 0) ≤ n + 1
    one_more n true = omega arith
    one_more n false = omega arith

    closed_by :
        (n : ℕ) (s : Running)
        → IsClosing n s
        → s.accepts ≡ false
        → (s.is_pool_stopped ≡ true) × (s.connections ≤ n + 1) × (s.context.stopping ≡ true)
    closed_by n s (closed, stopping, few, pool) ended =
        (pool ∙ ap not ended, omega (arith, few), stopping)
