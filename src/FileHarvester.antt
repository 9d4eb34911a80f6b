-- ===== src/FileHarvester.antt =====
-- cpp/src/harvesters/file.hpp and base.hpp: the worker that tails a file. What the operating system
-- answers (identities, sizes, the bytes of each read, whether a stop was requested) is an argument,
-- so a step is a function of its answers; a missing error code and a failed call are `none`. What
-- the worker hands to the backlog is the list that a step returns. Log messages are left out.
mod Lines
mod Entries
mod Polling
pub mod Preview
pub mod Lifecycle
mod Bounds
mod Reading
mod Rotation
mod Tests
use loglite.Prelude.{
  Bool, List, Text, [], false, if◌then◌else◌, is_empty, leb, length, ltb, not, true, ℕ, ◌&&◌, ◌*◌,
  ◌++◌, ◌+◌, ◌==◌, ◌||◌, ◌∷◌,
}
use loglite.Prelude.Int.{pos, pos_part, ℤ}
use loglite.Json.{}

pub record Options : Type 0 where
  pub poll_interval : ℤ
  pub missing_file_interval : ℤ
  pub rotation_drain_grace : ℤ
  pub read_buffer_size : ℕ
  pub max_line_bytes : ℕ
  pub start_at_end : Bool
  pub ignore_empty_lines : Bool
  pub flush_partial_line_on_close : Bool

abbrev pub default_options : Options
default_options = record {
  poll_interval = pos 500;
  missing_file_interval = pos 5000;
  rotation_drain_grace = pos 2000;
  read_buffer_size = 64 * 1024;
  max_line_bytes = 1024 * 1024;
  start_at_end = true;
  ignore_empty_lines = true;
  flush_partial_line_on_close = true;
}

-- An interval that is not positive, or a size of 0, is replaced by its default.
unfoldable pub normalize_options : Options → Options
normalize_options o = record o {
  poll_interval = if leb (pos_part o.poll_interval) 0 then pos 500 else o.poll_interval;
  missing_file_interval =
      if leb (pos_part o.missing_file_interval) 0 then pos 5000 else o.missing_file_interval;
  read_buffer_size = if o.read_buffer_size == 0 then 64 * 1024 else o.read_buffer_size;
  max_line_bytes = if o.max_line_bytes == 0 then 1024 * 1024 else o.max_line_bytes;
}

pub record FileIdentity : Type 0 where
  pub a : ℕ
  pub b : ℕ
  pub c : ℕ

abbrev pub identity_eq : FileIdentity → FileIdentity → Bool
identity_eq i j = (i.a == j.a) && (i.b == j.b) && (i.c == j.c)

-- The stream itself is the operating system's.
pub record OpenFile : Type 0 where
  pub identity : FileIdentity
  pub offset : ℕ
  pub pending_line : Text
  pub dropping_overlong_line : Bool

abbrev pub newline : ℕ
newline = b'\n'

abbrev pub carriage_return : ℕ
carriage_return = b'\r'

-- `if (!s.empty() && s.back() == '\r') s.pop_back()`
abbrev pub strip_cr : Text → Text
strip_cr [] = []
strip_cr (c ∷ []) = if c == carriage_return then [] else c ∷ []
strip_cr (c ∷ d ∷ s) = c ∷ strip_cr (d ∷ s)

abbrev pub cleared : OpenFile → OpenFile
cleared f = record f { pending_line = []; dropping_overlong_line = false }

-- `seek_to` refuses an offset above the largest `streamoff`, or the stream fails.
abbrev pub streamoff_max : ℕ
streamoff_max = 9223372036854775807

-- `seekable` is the stream's own answer to `seekg`.
unfoldable pub seek_to : Bool → ℕ → Bool
seek_to seekable offset = if ltb streamoff_max offset then false else seekable

module _ (o : Options) where
  unfoldable pub finish_line : OpenFile → List Text × OpenFile
  finish_line f =
      if f.dropping_overlong_line
      then ([], cleared f)
      else let line = strip_cr f.pending_line in
        (
          if not (is_empty line) || not o.ignore_empty_lines then line ∷ [] else [],
          record f { pending_line = [] },
        )

  unfoldable pub consume_byte : OpenFile → ℕ → List Text × OpenFile
  unfolding finish_line
  consume_byte f ch =
      if ch == newline
      then finish_line f
      else if f.dropping_overlong_line
      then ([], f)
      else if leb o.max_line_bytes (length f.pending_line)
      then ([], record f { pending_line = []; dropping_overlong_line = true })
      else ([], record f { pending_line = f.pending_line ++ ch ∷ [] })

  pub consume_bytes : OpenFile → Text → List Text × OpenFile
  consume_bytes f [] = ([], f)
  consume_bytes f (ch ∷ bytes) =
      let (lines, f') = consume_byte f ch in
      let (more, f'') = consume_bytes f' bytes in (lines ++ more, f'')

  unfoldable pub flush_or_drop_pending_line : OpenFile → List Text × OpenFile
  flush_or_drop_pending_line f =
      if f.dropping_overlong_line
      then ([], cleared f)
      else if is_empty f.pending_line
      then ([], f)
      else (
        if o.flush_partial_line_on_close then f.pending_line ∷ [] else [],
        record f { pending_line = [] },
      )

  -- The reads of one call: what each `read` delivered, up to the first that was empty or short of
  -- the buffer. The answers end where a stop is requested.
  pub read_loop : OpenFile → List Text → List Text × ℕ × OpenFile
  read_loop f [] = ([], 0, f)
  read_loop f (bytes ∷ reads) =
      let n = length bytes in
      let (lines, f') = consume_bytes (record f { offset = f.offset + n }) bytes in
      let (more, total, f'') = read_loop f' reads in
      if n == 0
      then ([], 0, f)
      else if ltb n o.read_buffer_size
      then (lines, n, f')
      else (lines ++ more, n + total, f'')

  unfoldable pub read_available : OpenFile → Bool → List Text → List Text × ℕ × OpenFile
  unfolding read_loop seek_to
  read_available f seekable reads =
      if seek_to seekable f.offset then read_loop f reads else ([], 0, f)

  -- Rounds of reading until the deadline or a stop: one list of answers for each round.
  pub drain_for_grace_period : OpenFile → List (Bool × List Text) → List Text × OpenFile
  drain_for_grace_period f [] = ([], f)
  drain_for_grace_period f ((seekable, reads) ∷ rounds) =
      let (lines, _, f') = read_available f seekable reads in
      let (more, f'') = drain_for_grace_period f' rounds in (lines ++ more, f'')
