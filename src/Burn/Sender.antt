-- ===== src/Burn/Sender.antt =====
-- burn/src/sender.hpp and main.cpp: posting logs, and the senders of a run, which take turns on one
-- thread. What the network answers is an argument; the pace, the signals and the timer are events.
use loglite.Prelude.{
  Bool, List, Option, Text, [], any, codes, false, if◌then◌else◌, none, not, some, suc, text_eq,
  true, zero, ℕ, ◌%◌, ◌&&◌, ◌+◌, ◌-◌, ◌==◌, ◌^◌, ◌∷◌,
}
use loglite.Json.{Json, find_field, object}
use loglite.Http.{}
use loglite.Burn.Schema.{get_string}

pub record Stats : Type 0 where
  pub ok : ℕ
  pub fail : ℕ

-- `fetch_add` on a `uint64_t`.
unfoldable pub record_post : Stats → Bool → Stats
record_post s success =
    if success
    then record s { ok = (s.ok + 1) % 2 ^ 64 }
    else record s { fail = (s.fail + 1) % 2 ^ 64 }

-- The answer to a request that was written, unless the connection failed.
pub data Exchange : Type 0 where
  not_written : Exchange
  not_read : Exchange
  answered : ℕ → Text → Exchange

-- `parsed.value("status", std::string{}) == "accepted"`; what throws is caught, and is no success.
unfoldable pub says_accepted : Json → Bool
unfolding find_field
says_accepted (object fs) = elim (find_field fs (codes "status")) [
  | none ↦ false
  | some v ↦ elim (get_string v) [ none ↦ false | some s ↦ text_eq s (codes "accepted") ]
]
says_accepted _ = false

-- What a log meets: the first exchange, then, behind a reconnection that may fail, another.
pub record PostAttempt : Type 0 where
  pub first : Exchange
  pub reconnects : Bool
  pub second : Exchange

module _ (parse : Text → Option Json) where
  unfoldable pub post_log : Exchange → Bool
  unfolding says_accepted
  post_log not_written = false
  post_log not_read = false
  post_log (answered status body) =
      if status == 200 then elim (parse body) [ none ↦ false | some v ↦ says_accepted v ] else false

  -- Whether the log was accepted, and how many requests were made for it.
  unfoldable pub post_log_with_reconnect : PostAttempt → Bool × ℕ
  unfolding post_log
  post_log_with_reconnect a =
      if post_log a.first
      then (true, 1)
      else if a.reconnects
      then (post_log a.second, 2)
      else (false, 1)

-- `RunControl` and its `io_context`, with the senders that have not finished.
pub record RunControl : Type 0 where
  pub stop : Bool
  pub senders_left : ℕ
  pub is_stopped : Bool
  pub stats : Stats
  pub running : List ℕ
  -- Those of them that wait for the answer to a log.
  pub posting : List ℕ

-- `fetch_sub` on an `unsigned`, which tells what was there before.
unfoldable pub sender_finished : RunControl → RunControl
sender_finished c = record c {
  senders_left = (c.senders_left + 2 ^ 32 - 1) % 2 ^ 32;
  is_stopped = if c.senders_left == 1 then true else c.is_stopped;
}

abbrev pub without_sender : ℕ → List ℕ → List ℕ
without_sender i [] = []
without_sender i (j ∷ js) = if i == j then js else j ∷ without_sender i js

-- The end of `SenderLoop`, by a `break`, by an exception, or by the loop's test: its guard runs.
unfoldable pub end_sender : RunControl → ℕ → RunControl
unfolding sender_finished
end_sender c i =
    sender_finished
      (record c { running = without_sender i c.running; posting = without_sender i c.posting })

pub data SenderEvent : Type 0 where
  -- The pace of a sender has passed; a pace that is cut short ends the loop.
  paced : ℕ → Bool → SenderEvent
  -- The log of a sender has met this.
  posted : ℕ → Exchange → Bool → Exchange → SenderEvent
  -- A sender ends by itself: it could not connect, or something threw.
  thrown : ℕ → SenderEvent
  -- The duration is over, or a signal came.
  time_up : SenderEvent

abbrev pub is_sender_running : ℕ → List ℕ → Bool
is_sender_running i running = any (λ j. i == j) running

module _ (parse : Text → Option Json) where
  -- `SenderLoop` from the end of the pace to the wait for the answer.
  unfoldable pub begin_post : RunControl → ℕ → Bool → RunControl
  unfolding end_sender
  begin_post c i paced_through =
      if not paced_through
      then end_sender c i
      else if c.stop
      then end_sender c i
      else record c { posting = i ∷ c.posting }

  abbrev pub recorded : RunControl → PostAttempt → RunControl
  recorded c a = record c { stats = record_post c.stats (post_log_with_reconnect parse a).0 }

  -- From the answer to the next wait for the pace, or to the end of the loop.
  unfoldable pub end_post : RunControl → ℕ → PostAttempt → RunControl
  unfolding end_sender post_log_with_reconnect record_post
  end_post c i a =
      if c.stop
      then end_sender (recorded c a) i
      else record (recorded c a) { posting = without_sender i c.posting }

  unfoldable pub burn_step : RunControl → SenderEvent → RunControl
  unfolding begin_post end_post end_sender
  burn_step c (paced i paced_through) =
      if is_sender_running i c.running && not (is_sender_running i c.posting)
      then begin_post c i paced_through
      else c
  burn_step c (posted i first reconnects second) =
      if is_sender_running i c.running && is_sender_running i c.posting
      then end_post c i (record { first = first; reconnects = reconnects; second = second })
      else c
  burn_step c (thrown i) = if is_sender_running i c.running then end_sender c i else c
  burn_step c time_up = record c { stop = true }

  unfoldable pub burn_events : RunControl → List SenderEvent → RunControl
  unfolding burn_step
  burn_events c [] = c
  burn_events c (e ∷ es) = burn_events (burn_step c e) es

abbrev pub sender_ids : ℕ → List ℕ
sender_ids zero = []
sender_ids (suc n) = n ∷ sender_ids n

-- `main`, in front of the senders.
unfoldable pub start_run : ℕ → RunControl
start_run concurrency = record {
  stop = false;
  senders_left = concurrency;
  is_stopped = false;
  stats = record { ok = 0; fail = 0 };
  running = sender_ids concurrency;
  posting = [];
}
