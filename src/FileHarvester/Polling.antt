-- ===== src/FileHarvester/Polling.antt =====
-- file.hpp, run, open_file, current_path_identity and close_file: one turn of the worker's loop, and
-- the loop over the operating system's answers.
use loglite.Prelude.{
  Bool, List, Option, Text, [], false, if◌then◌else◌, is_some, ltb, none, not, some, true, ℕ, ◌&&◌,
  ◌++◌, ◌>>=◌, ◌∷◌,
}
use loglite.FileHarvester.{
  FileIdentity, OpenFile, Options, drain_for_grace_period, flush_or_drop_pending_line, identity_eq,
  read_available, seek_to,
}

-- `exists`, `is_regular_file`, and `stat` with its device, inode and file type.
pub record PathStatus : Type 0 where
  pub exists : Bool
  pub is_regular : Bool
  pub stat : Option (ℕ × ℕ × Bool)

unfoldable pub get_file_identity : PathStatus → Option FileIdentity
get_file_identity p = elim p.stat [
  | none ↦ none
  | some (dev, ino, regular) ↦ if regular then some (record { a = dev; b = ino; c = 0 }) else none
]

unfoldable pub current_path_identity : PathStatus → Option FileIdentity
unfolding get_file_identity
current_path_identity p =
    if not p.exists then none else if not p.is_regular then none else get_file_identity p

-- What the calls of `open_file` find, in their order.
pub record OpenAnswers : Type 0 where
  pub before : PathStatus
  pub is_open : Bool
  pub after : PathStatus
  pub size : Option ℕ
  pub seekable : Bool

unfoldable pub opened_at : FileIdentity → ℕ → OpenFile
opened_at identity offset = record {
  identity = identity;
  offset = offset;
  pending_line = [];
  dropping_overlong_line = false;
}

unfoldable pub open_file : Bool → OpenAnswers → Option OpenFile
unfolding current_path_identity opened_at seek_to
open_file at_end a = do
  before ← current_path_identity a.before
  after ← (if a.is_open then current_path_identity a.after else none)
  offset ← (if not (identity_eq before after) then none else if at_end then a.size else some 0)
  if seek_to a.seekable offset then some (opened_at after offset) else none

pub record RunState : Type 0 where
  pub current : Option OpenFile
  pub first_open : Bool

-- The answers of one turn: those of `open_file`, should it be called, of `read_available`, of the
-- stop token behind it, of the path, of the rounds of draining, and of the file's size.
pub record PollAnswers : Type 0 where
  pub opening : OpenAnswers
  pub seekable : Bool
  pub reads : List Text
  pub stopped : Bool
  pub path : PathStatus
  pub drain : List (Bool × List Text)
  pub size : Option ℕ

module _ (o : Options) where
  unfoldable pub close_file : OpenFile → List Text
  close_file f = (flush_or_drop_pending_line o f).0

  -- The path is gone or names another file: the old one is drained and closed.
  unfoldable pub leave_file : OpenFile → PollAnswers → List Text
  unfolding close_file
  leave_file f a = let (lines, f') = drain_for_grace_period o f a.drain in lines ++ close_file f'

  unfoldable pub handle_truncation : OpenFile → Option ℕ → List Text × OpenFile
  handle_truncation f none = ([], f)
  handle_truncation f (some size) =
      if ltb size f.offset
      then (let (lines, f') = flush_or_drop_pending_line o f in
          (lines, record f' { offset = 0; dropping_overlong_line = false }))
      else ([], f)

  -- What follows the read: the lines, the file that stays open, and whether the loop ends.
  unfoldable pub after_read : OpenFile → PollAnswers → List Text × Option OpenFile × Bool
  unfolding leave_file handle_truncation current_path_identity
  after_read f a = if a.stopped then ([], some f, true) else elim (current_path_identity a.path) [
    | none ↦ (leave_file f a, none, false)
    | some identity ↦
        if not (identity_eq identity f.identity)
        then (leave_file f a, none, false)
        else (let (lines, f') = handle_truncation f a.size in (lines, some f', false))
  ]

  unfoldable pub poll_file : OpenFile → PollAnswers → List Text × Option OpenFile × Bool
  unfolding after_read read_available
  poll_file f a =
      let (lines, _, f') = read_available o f a.seekable a.reads in
      let (more, current, ends) = after_read f' a in (lines ++ more, current, ends)

  -- The file of this turn: the one at hand, or the one that opens.
  unfoldable pub file_of_turn : RunState → PollAnswers → Option OpenFile
  unfolding open_file
  file_of_turn s a = elim s.current [
    | none ↦ open_file (s.first_open && o.start_at_end) a.opening
    | some f ↦ some f
  ]

  unfoldable pub poll : RunState → PollAnswers → List Text × RunState × Bool
  unfolding poll_file file_of_turn
  poll s a = elim (file_of_turn s a) [
    | none ↦ ([], s, false)
    | some f ↦
        let (lines, current, ends) = poll_file f a in
        (
          lines,
          record {
            current = current;
            first_open = if is_some s.current then s.first_open else false;
          },
          ends,
        )
  ]

  unfoldable pub shutdown : RunState → List Text
  unfolding close_file
  shutdown s = elim s.current [ none ↦ [] | some f ↦ close_file f ]

  -- The loop. The answers end where a stop is requested between two turns.
  unfoldable pub run : RunState → List PollAnswers → List Text
  run s [] = shutdown s
  run s (a ∷ turns) =
      let (lines, s', ends) = poll s a in
      let rest = run s' turns in lines ++ (if ends then shutdown s' else rest)

abbrev pub started : RunState
started = record { current = none; first_open = true }
