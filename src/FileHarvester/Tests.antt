-- ===== src/FileHarvester/Tests.antt =====
-- The harvester at concrete inputs.
use loglite.Prelude.{
  All, Bool, List, Option, Text, [], arith, codes, false, if◌then◌else◌, none, refl, some, true, ℕ,
  ◌==◌, ◌∷◌, ◌≡◌,
}
use loglite.Prelude.Int.{negsuc}
use loglite.Json.{Json, end, null, object}
use loglite.FileHarvester.{
  FileIdentity, OpenFile, Options, consume_byte, consume_bytes, default_options,
  drain_for_grace_period, finish_line, flush_or_drop_pending_line, read_available, read_loop,
  seek_to,
}
use loglite.FileHarvester.Lines.{NoNewline, in_line}
use loglite.FileHarvester.Polling.{
  OpenAnswers, PathStatus, PollAnswers, RunState, after_read, close_file, current_path_identity,
  file_of_turn, get_file_identity, handle_truncation, leave_file, open_file, opened_at, poll,
  poll_file, run, started,
}
use loglite.FileHarvester.Bounds.{Fits, run-started-Fits}
use loglite.FileHarvester.Reading.{drain-join_lines}
use loglite.FileHarvester.Rotation.{reopened_at_start, states}

-- Lines of at most four bytes, read three bytes at a time.
abbrev small : Options
small = record default_options { max_line_bytes = 4; read_buffer_size = 3 }

abbrev first_file : FileIdentity
first_file = record { a = 1; b = 10; c = 0 }

abbrev opened_file : OpenFile
opened_file = record {
  identity = first_file;
  offset = 0;
  pending_line = [];
  dropping_overlong_line = false;
}

abbrev lines : List Text
lines = codes "ab" ∷ codes "toolong" ∷ codes "c" ∷ []

lines-NoNewline : All NoNewline lines
lines-NoNewline = (
  (refl, (refl, tt)),
  ((refl, (refl, (refl, (refl, (refl, (refl, (refl, tt))))))), ((refl, tt), tt)),
)

abbrev parse_empty : Text → Option Json
parse_empty [] = none
parse_empty (c ∷ s) = if c == b'{' then some (object end) else some null

abbrev at_path : ℕ → PathStatus
at_path ino = record { exists = true; is_regular = true; stat = some (1, ino, true) }

abbrev gone : PathStatus
gone = record { exists = false; is_regular = false; stat = none }

abbrev opens : ℕ → OpenAnswers
opens ino = record {
  before = at_path ino;
  is_open = true;
  after = at_path ino;
  size = some 2;
  seekable = true;
}

-- A turn that reads a short text, finds the file that `path` names, and drains one more line.
abbrev turn : ℕ → PathStatus → PollAnswers
turn ino path = record {
  opening = opens ino;
  seekable = true;
  reads = codes "x\n" ∷ [];
  stopped = false;
  path = path;
  drain = (true, codes "yy\n" ∷ codes "z" ∷ []) ∷ [];
  size = some 100;
}

run-started-Fits_example :
    Fits small (run small started (turn 10 (at_path 10) ∷ turn 10 gone ∷ turn 11 (at_path 11) ∷ []))
run-started-Fits_example =
    run-started-Fits small (turn 10 (at_path 10) ∷ turn 10 gone ∷ turn 11 (at_path 11) ∷ [])

abbrev rounds : List (Bool × List Text)
rounds = (true, codes "ab\n" ∷ codes "t" ∷ []) ∷ (true, codes "oo\n" ∷ codes "d" ∷ []) ∷ []

drain-join_lines_example :
    drain_for_grace_period small (in_line small opened_file []) rounds
    ≡ (codes "ab" ∷ codes "too" ∷ [], record opened_file { offset = 8; pending_line = codes "d" })
drain-join_lines_example =
    drain-join_lines small opened_file rounds (codes "ab" ∷ codes "too" ∷ []) (codes "d")
      (refl, (refl, tt)) (omega arith) ((refl, (refl, tt)), ((refl, (refl, (refl, tt))), tt))
      (refl, tt) refl

abbrev second_file : OpenFile
second_file = record opened_file { identity = record first_file { b = 11 } }

abbrev after_first_turn : RunState
after_first_turn = states small started (turn 10 (at_path 10) ∷ [])

abbrev after_rotation : RunState
after_rotation = states small after_first_turn (turn 10 gone ∷ [])

first_turn_tracks : after_first_turn.current ≡ some (record opened_file { offset = 4 })
unfolding states poll file_of_turn open_file current_path_identity get_file_identity opened_at
    seek_to poll_file read_available read_loop consume_bytes consume_byte finish_line after_read
    handle_truncation leave_file close_file drain_for_grace_period flush_or_drop_pending_line
first_turn_tracks = refl

rotation_leaves : after_rotation.current ≡ none
unfolding states poll file_of_turn open_file current_path_identity get_file_identity opened_at
    seek_to poll_file read_available read_loop consume_bytes consume_byte finish_line after_read
    handle_truncation leave_file close_file drain_for_grace_period flush_or_drop_pending_line
rotation_leaves = refl

next_turn_opens : file_of_turn small after_rotation (turn 11 (at_path 11)) ≡ some second_file
unfolding states poll file_of_turn open_file current_path_identity get_file_identity opened_at
    seek_to poll_file read_available read_loop consume_bytes consume_byte finish_line after_read
    handle_truncation leave_file close_file drain_for_grace_period flush_or_drop_pending_line
next_turn_opens = refl

reopened_at_start_example :
    second_file
    ≡ record second_file { offset = 0; pending_line = []; dropping_overlong_line = false }
reopened_at_start_example =
    reopened_at_start small (turn 10 (at_path 10) ∷ []) (turn 10 gone ∷ [])
      (record opened_file { offset = 4 }) second_file (turn 11 (at_path 11)) first_turn_tracks
      rotation_leaves next_turn_opens

abbrev zero_sizes : Options
zero_sizes = record default_options {
  max_line_bytes = 0;
  read_buffer_size = 0;
  poll_interval = negsuc 3;
}
