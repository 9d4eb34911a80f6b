-- ===== src/Server/Running.antt =====
-- cpp/src/server.cpp, Run, Stop and AcceptLoop, and context.hpp: how a server that runs comes to its
-- end. What the acceptor, the signals and the background tasks do is a sequence of events; a timer is
-- its number.
use loglite.Prelude.{Bool, List, [], false, if◌then◌else◌, true, ℕ, ◌++◌, ◌+◌, ◌∷◌}

pub record ServerContext : Type 0 where
  pub stopping : Bool
  pub shutdown_timers : List ℕ
  -- The timers that have been cancelled by a request to stop.
  pub cancelled : List ℕ

unfoldable pub register_shutdown_timer : ServerContext → ℕ → ServerContext
register_shutdown_timer c timer = record c { shutdown_timers = c.shutdown_timers ++ timer ∷ [] }

unfoldable pub request_stop : ServerContext → ServerContext
request_stop c = record c { stopping = true; cancelled = c.shutdown_timers }

pub record Running : Type 0 where
  pub context : ServerContext
  pub is_acceptor_open : Bool
  pub accepts : Bool
  -- Whether the acceptor was open when the accept that is awaited was begun.
  pub is_accept_live : Bool
  -- The connections that have been spawned.
  pub connections : ℕ
  pub is_pool_stopped : Bool

pub data ServerEvent : Type 0 where
  -- What an accept answers: a connection, or an error.
  accepted_one : ServerEvent
  accept_error : ServerEvent
  -- A signal, the end of a background task, or a call of Stop.
  signalled : ServerEvent
  task_ended : ServerEvent
  stop_called : ServerEvent
  -- A background task that begins registers its timer.
  registers : ℕ → ServerEvent

unfoldable pub stop : Running → Running
unfolding request_stop
stop s = record s { context = request_stop s.context; is_acceptor_open = false }

-- One answer of the acceptor, in `AcceptLoop`, which then asks for the next, and the handler behind its
-- end.
unfoldable pub accept_step : Running → Bool → Running
accept_step s is_accepted =
    if is_accepted
    then record s { connections = s.connections + 1; is_accept_live = s.is_acceptor_open }
    else record s { accepts = false; is_pool_stopped = true }

-- An accept loop that has ended asks for nothing.
unfoldable pub server_step : Running → ServerEvent → Running
unfolding stop accept_step register_shutdown_timer
server_step s accepted_one = if s.accepts then accept_step s true else s
server_step s accept_error = if s.accepts then accept_step s false else s
server_step s signalled = stop s
server_step s task_ended = stop s
server_step s stop_called = stop s
server_step s (registers timer) = record s { context = register_shutdown_timer s.context timer }

unfoldable pub server_events : Running → List ServerEvent → Running
unfolding server_step
server_events s [] = s
server_events s (e ∷ es) = server_events (server_step s e) es

-- The server behind the binding of its address.
abbrev pub listening : Running
listening = record {
  context = record { stopping = false; shutdown_timers = []; cancelled = [] };
  is_acceptor_open = true;
  accepts = true;
  is_accept_live = true;
  connections = 0;
  is_pool_stopped = false;
}
